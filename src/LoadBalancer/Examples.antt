-- ===== src/LoadBalancer/Examples.antt =====
-- data-plane/networking/load-balancer/main.go: requests over two healthy targets of three.
use tiny_aws.Prelude.{
  ℕ, ◌<◌, String, Bool, true, false, ◌≡◌, some, [], ◌∷◌, arith, get_elem?, select,
}
use tiny_aws.Prelude.{◌≢◌, refl, Option, none, eq_iff}
use tiny_aws.Prelude.Int.{pos}
use tiny_aws.Go.Map.{GoMap, insert}
use tiny_aws.Go.Time.{Time}
use tiny_aws.Registry.Iam
use tiny_aws.Registry.Nodes
use tiny_aws.Registry.Routes.{RegistryState, Context, list_nodes, handle, refusal_for, serve}
use tiny_aws.LoadBalancer.{
  Target, Node, Balancer, agent_target, agent_targets, service_targets, refresh, failed,
  handle_proxy,
}
use tiny_aws.LoadBalancer.Sync.{
  node_of, nodes_of_reply, decoded, sync_targets, keyed_registry_starves,
}
use tiny_aws.LoadBalancer.Reach.{requests_reach_new_node}
use tiny_aws.LoadBalancer.Choice.{targets_of_requests}

abbrev target : String → Bool → Target
target url healthy = record { url = url; healthy = healthy; service_id = ""; node_id = "n" }

abbrev balancer : Balancer
balancer = record {
  targets = target "a" true ∷ target "b" false ∷ target "c" true ∷ [];
  counter = 4;
}

abbrev no_times : String → Option Time
no_times text = none

abbrev keyed : Context
keyed = record {
  api_key = "secret";
  sns_url = "";
  count_ok = true;
  key_ok = true;
  db_ok = true;
  query_error = none;
  now = 0;
}

abbrev no_registry : RegistryState
no_registry = record {
  nodes = record { nodes = []; rows = [] };
  instances = record { instances = []; rows = []; seq = 0 };
  services = record { rows = []; seq = 0 };
  keys = [];
}

abbrev no_targets : Balancer
no_targets = record { targets = []; counter = 0 }

secret-ne-nil : ◌≢◌ {A = String} "secret" ""
secret-ne-nil = ground (arith, eq_iff "secret" "")

keyed_registry_starves_example :
    handle_proxy
      (λ url. true)
      (sync_targets no_times
        (λ url. true)
        ""
        (λ i. ((keyed, no_registry), (keyed, no_registry)))
        6
        no_targets)
    ≡ (failed 503 "no healthy backends", no_targets)
keyed_registry_starves_example =
    keyed_registry_starves no_times (λ url. true) ""
      (λ i. ((keyed, no_registry), (keyed, no_registry))) 6 (λ url. true) no_targets refl
      (λ i. secret-ne-nil)

abbrev new_node : Nodes.Node
new_node = record {
  id = "n-1";
  hostname = "host";
  addr = "10.0.0.5";
  cpu_count = pos 4;
  role = "";
  status = "";
  last_seen = 0;
}

abbrev unkeyed : Context
unkeyed = record keyed { api_key = "" }

abbrev seen_nodes : GoMap Node
seen_nodes = ("n-1", record { hostname = "host"; addr = "10.0.0.5"; status = "healthy" }) ∷ []

passes :
    refusal_for no_times unkeyed "" (list_nodes "compute") (record no_registry {
      nodes = (Nodes.handle_register false (some new_node) 0 no_registry.nodes).0;
    })
    ≡ none
unfolding refusal_for Iam.require_auth Iam.is_enforced Nodes.handle_register
passes = refl

answered :
    decoded nodes_of_reply (
      serve no_times unkeyed "" (list_nodes "compute") (record no_registry {
        nodes = (Nodes.handle_register false (some new_node) 0 no_registry.nodes).0;
      }))
    ≡ some seen_nodes
unfolding serve refusal_for Iam.require_auth Iam.is_enforced Nodes.handle_register handle
    Nodes.handle_nodes Nodes.by_role Nodes.registered insert node_of
answered = refl

requests_reach_new_node_example :
    (k : ℕ) × (k < 1)
    × (get_elem?
          (targets_of_requests 1 (refresh (λ url. true) "" (some seen_nodes) (some []) no_targets))
          k
        ≡ some (
            some (
              agent_target
                (λ url. true)
                ""
                "n-1"
                (record { hostname = "host"; addr = "10.0.0.5"; status = "healthy" }))))
unfolding refresh agent_targets service_targets select agent_target node_of Nodes.registered
requests_reach_new_node_example =
    requests_reach_new_node (λ url. true) "" no_times false new_node 0 unkeyed no_registry
      seen_nodes seen_nodes (some []) no_targets refl passes answered (λ k. refl) refl (omega arith)
