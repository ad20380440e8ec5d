-- ===== src/LoadBalancer/Sync.antt =====
-- data-plane/networking/load-balancer/main.go with control-plane/registry: what the balancer learns
-- of the registry. Its requests carry no header Authorization.
use tiny_aws.Prelude.{
  ℕ, zero, suc, String, Bool, ◌≡◌, ◌≢◌, refl, ap, ◌∙◌, Option, none, some, List, [], map, select,
}
use tiny_aws.Go.Fmt.{strip_prefix}
use tiny_aws.Go.Map.{GoMap}
use tiny_aws.Go.RoundRobin.{round_robin}
use tiny_aws.Go.Time.{Time}
use tiny_aws.Go.Http.{json, error, no_body, status_service_unavailable, status_unauthorized}
use tiny_aws.Registry.Iam.{bearer}
use tiny_aws.Registry.Nodes
use tiny_aws.Registry.Nodes.{by_role, registered, handle_register}
use tiny_aws.Registry.Services
use tiny_aws.Registry.Routes.{
  RegistryState, Context, Outcome, Reply, list_nodes, list_services, serve, of_nodes, healthy,
  of_instances, of_services, of_keys,
}
use tiny_aws.Registry.Routes.Guard.{needs_no_key, serve_without_key}
use tiny_aws.LoadBalancer.{
  Node, Service, Balancer, refresh, next_target, failed, proxied, handle_proxy,
}

-- The fields of a node and of a service that the balancer decodes.
unfoldable pub node_of : Nodes.Node → Node
node_of n = record { hostname = n.hostname; addr = n.addr; status = n.status }

unfoldable pub service_of : Services.Service → Service
service_of s = record { id = s.id; node_id = s.node_id; port = s.port }

abbrev pub entry_of : String × Nodes.Node → String × Node
entry_of (id, n) = (id, node_of n)

-- What the decoder makes of an answer: nothing of the text of an error, or of no answer.
abbrev pub nodes_of_reply : Reply → Option (GoMap Node)
nodes_of_reply healthy = none
nodes_of_reply (of_nodes (Nodes.node_map m)) = some (map entry_of m)
nodes_of_reply (of_nodes (Nodes.one_node n)) = none
nodes_of_reply (of_instances r) = none
nodes_of_reply (of_services r) = none
nodes_of_reply (of_keys r) = none

abbrev services_of_reply : Reply → Option (List Service)
services_of_reply healthy = none
services_of_reply (of_nodes r) = none
services_of_reply (of_instances r) = none
services_of_reply (of_services (Services.service_list l)) = some (map service_of l)
services_of_reply (of_services (Services.one_service s)) = none
services_of_reply (of_keys r) = none

abbrev pub decoded {ℓ} : {A : Type ℓ} → (Reply → Option A) → Outcome → Option A
decoded read none = none
decoded read (some (g, json status reply, calls)) = read reply
decoded read (some (g, error status text, calls)) = none
decoded read (some (g, no_body status, calls)) = none

module _ (parse : String → Option Time) (probe : String → Bool) (agent_addr : String) where
  -- One refresh against the registry, whose state may change between the two requests.
  unfoldable pub refresh_from :
      Context × RegistryState → Context × RegistryState → Balancer → Balancer
  refresh_from (c, g) (c', g') s =
      refresh probe agent_addr (decoded nodes_of_reply (serve parse c "" (list_nodes "compute") g))
        (decoded services_of_reply (serve parse c' "" (list_services "" "running") g')) s

  -- `n` rounds of `syncTargets`; `at i` is what the two requests of a round meet.
  unfoldable pub sync_targets :
      (ℕ → (Context × RegistryState) × (Context × RegistryState)) → ℕ → Balancer → Balancer
  sync_targets at zero s = s
  sync_targets at (suc i) s = sync_targets at i (refresh_from (at i).0 (at i).1 s)

  refused :
      (c : Context) (g : RegistryState)
      → c.api_key ≢ ""
      → serve parse c "" (list_nodes "compute") g
        ≡ some (g, error status_unauthorized "unauthorized", [])
  refused c g keyed =
      serve_without_key parse c "" (list_nodes "compute") g keyed
        (unfold bearer strip_prefix in refl)
      ∙ (unfold needs_no_key in refl)

  starved :
      (at : ℕ → (Context × RegistryState) × (Context × RegistryState)) (n : ℕ) (s : Balancer)
      → ((i : ℕ) → (at i).0.0.api_key ≢ "")
      → sync_targets at n s ≡ s
  unfolding sync_targets refresh_from refresh
  starved at zero s keyed = refl
  starved at (suc i) s keyed = rw (refused (at i).0.0 (at i).0.1 (keyed i)) (starved at i s keyed)

  -- In front of a registry that has a key, a balancer that starts without targets stays without:
  -- after any number of refreshes a request is answered 503.
  pub keyed_registry_starves :
      (at : ℕ → (Context × RegistryState) × (Context × RegistryState)) (n : ℕ)
      (reaches : String → Bool) (s : Balancer)
      → s.targets ≡ []
      → ((i : ℕ) → (at i).0.0.api_key ≢ "")
      → handle_proxy reaches (sync_targets at n s)
        ≡ (failed status_service_unavailable "no healthy backends", s)
  unfolding handle_proxy next_target round_robin select
  keyed_registry_starves at n reaches s empty keyed = rw (starved at n s keyed) (
      ap
        (λ targets.
          let (t, counter) = round_robin s.counter (select (λ t. t.healthy) targets) in
          (proxied reaches t, record s { counter = counter }))
        empty)
