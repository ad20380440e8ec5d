-- ===== src/Registry/Examples.antt =====
-- control-plane/registry: nodes, keys, services and instances at concrete inputs.
use tiny_aws.Prelude.{
  ◌+◌, ◌*◌, String, true, false, ◌≡◌, refl, Option, none, some, [], ◌∷◌, arith, ne_of_eq_false, map,
  if◌then◌else◌, ◌==◌,
}
use tiny_aws.Prelude.Int.{pos}
use tiny_aws.Go.Fmt.{format_id, next_seq, prefixed}
use tiny_aws.Go.Map.{GoMap, lookup, insert, values}
use tiny_aws.Go.Time.{Time, second}
use tiny_aws.Go.Http.{error, json, no_body, status_no_content, status_created, status_forbidden}
use tiny_aws.Sql
use tiny_aws.Registry.Nodes
use tiny_aws.Registry.Nodes.Health.{after_check, check_by_age, heartbeat_keeps_healthy}
use tiny_aws.Registry.Nodes.Restart.{registers, empty, restored, restart_restores_nodes}
use tiny_aws.Registry.Nodes.Overlap.{late_save_restores_node}
use tiny_aws.Registry.Instances.Overlap.{
  write_row, show_status, status_of, overlapping_updates_diverge,
}
use tiny_aws.Registry.Routes
use tiny_aws.Registry.Routes.Guard.{readonly_changes_nothing}
use tiny_aws.Registry.Iam
use tiny_aws.Registry.Iam.Access.{created_key_has_role}
use tiny_aws.Registry.Services
use tiny_aws.Registry.Services.Ids as ServiceIds
use tiny_aws.Registry.Services.Ids.{create_service_fresh}
use tiny_aws.Registry.Instances
use tiny_aws.Registry.Instances.Mirror
use tiny_aws.Registry.Instances.Ids as InstanceIds
use tiny_aws.Registry.Instances.Ids.{restart_keeps_status}

abbrev node : Nodes.Node
node = record {
  id = "n-1";
  hostname = "host";
  addr = "";
  cpu_count = pos 4;
  role = "compute";
  status = "unhealthy";
  last_seen = 10 * second;
}

abbrev nodes : Nodes.Nodes
nodes = record { nodes = ("n-1", node) ∷ []; rows = [] }

check_by_age_example :
    lookup "n-1" (Nodes.check_nodes_health (λ id. true) (400 * second) nodes).nodes ≡ none
unfolding after_check lookup
check_by_age_example =
    check_by_age (λ id. true) (400 * second) "n-1" nodes (unfold lookup in (refl, tt))

heartbeat_keeps_healthy_example :
    lookup "n-1"
      (Nodes.check_nodes_health
        (λ id. false)
        (330 * second)
        (Nodes.handle_heartbeat true (some "n-1") (300 * second) nodes).0).nodes
    ≡ some (record node { last_seen = 300 * second; status = "healthy" })
heartbeat_keeps_healthy_example =
    heartbeat_keeps_healthy true (λ id. false) (300 * second) (330 * second) "n-1" node nodes
      (unfold lookup in (refl, tt)) (unfold lookup in refl) (omega arith)

abbrev no_nodes : Nodes.Nodes
no_nodes = record { nodes = []; rows = [] }

-- the node registers at 10.5 seconds
abbrev registered_at : Time
registered_at = 10 * second + 500000000

restart_restores_nodes_example :
    lookup "n-1"
      (Nodes.start (Nodes.handle_register true (some node) registered_at no_nodes).0.rows).nodes
    ≡ some (record node { status = "healthy"; last_seen = 10 * second })
unfolding restored lookup insert Nodes.registered Nodes.handle_register
restart_restores_nodes_example =
    restart_restores_nodes (Nodes.handle_register true (some node) registered_at no_nodes).0 "n-1"
      (registers (some node) registered_at empty)

-- a reader of times that knows one text
abbrev parse : String → Option Time
parse t = if t == "2026-01-01T00:00:00Z" then some (100 * second) else none

abbrev reader : Iam.KeyRow
reader = record { key = "k"; role = "readonly"; expires_at = some "2026-01-01T00:00:00Z" }

abbrev admin : Iam.ApiKey
admin = record { key = "a"; role = "admin"; expires_at = "" }

abbrev mutating : Routes.Context
mutating = record {
  api_key = "";
  sns_url = "";
  count_ok = true;
  key_ok = true;
  db_ok = true;
  query_error = none;
  now = 50 * second;
}

abbrev with_reader : Routes.RegistryState
with_reader = record {
  nodes = nodes;
  instances = record { instances = []; rows = []; seq = 0 };
  services = record { rows = []; seq = 0 };
  keys = reader ∷ [];
}

readonly_changes_nothing_example :
    Routes.serve parse mutating (prefixed "Bearer " "k") (Routes.remove_node "n-1") with_reader
    ≡ some (with_reader, error status_forbidden "forbidden", [])
unfolding Iam.is_expired
readonly_changes_nothing_example =
    readonly_changes_nothing parse mutating "k" (Routes.remove_node "n-1") with_reader reader refl
      refl (unfold Sql.find in refl) refl (ne_of_eq_false "k" "" refl) (ne_of_eq_false "k" "" refl)
      (unfold Routes.method_of in ne_of_eq_false "DELETE" "GET" refl)
      (unfold Routes.Guard.needs_no_key in refl)

created_key_has_role_example :
    Iam.role_for_key parse 0 true "" "a"
      (Iam.handle_iam_key_create true (some admin) (reader ∷ [])).0
    ≡ "admin"
unfolding Iam.is_expired Iam.to_row
created_key_has_role_example =
    created_key_has_role parse 0 "" "a" admin (reader ∷ []) (ne_of_eq_false "a" "" refl) refl
      (ne_of_eq_false "a" "" refl)

abbrev request : Services.CreateRequest
request = record {
  node_id = "n-1";
  instance_id = "";
  port = pos 8080;
  pid = pos 42;
  deploy_url = "";
}

abbrev no_services : Services.ServiceStore
no_services = Services.open_store []

abbrev first_service : Services.Service
first_service = Services.new_service (no_services.seq + 1) request 0

create_service_fresh_example :
    ((Services.handle_service_create false (some request) 0 no_services).1
      ≡ json status_created (Services.one_service first_service))
    × (Sql.find Services.row_key first_service.id no_services.rows ≡ none)
    × ((id : String)
        → Sql.find Services.row_key id
            (Services.handle_service_create true (some request) 0 no_services).0.rows
          ≡ (if first_service.id == id
              then some (Services.to_row first_service)
              else Sql.find Services.row_key id no_services.rows))
create_service_fresh_example =
    create_service_fresh {s = no_services} false request 0 ServiceIds.initial
      (unfold Services.open_store Sql.load_seq Sql.last_row in omega arith)
      (ne_of_eq_false "n-1" "" refl)

abbrev healthy_nodes : GoMap Nodes.Node
healthy_nodes = ("n-1", record node { status = "healthy" }) ∷ []

abbrev launched : Instances.Instances
launched =
    Mirror.after_launch
      (Instances.Handlers.launch_instance true "" "micro" 0 healthy_nodes (Instances.open_store []))
      (Instances.open_store [])

launched-Reaches : InstanceIds.Reaches launched
launched-Reaches =
    InstanceIds.launch {s = Instances.open_store []} true "" "micro" 0 healthy_nodes
      (unfold Instances.open_store Sql.load_seq Sql.last_row in omega arith) InstanceIds.initial

restart_keeps_status_example :
    map InstanceIds.identity (Instances.open_store launched.rows).instances
    ≡ map InstanceIds.identity launched.instances
restart_keeps_status_example = restart_keeps_status {s = launched} launched-Reaches

late_save_restores_node_example :
    let n' = Nodes.registered node registered_at in
    let (s1, removed) = Nodes.handle_node_by_id true "n-1" (Nodes.store_node n' no_nodes) in
    let (s2, answer) = Nodes.persist_node true n' s1 in
    (Nodes.handle_register true (some node) registered_at no_nodes
      ≡ Nodes.persist_node true n' (Nodes.store_node n' no_nodes))
    × (removed ≡ no_body status_no_content)
    × (answer ≡ json status_created (Nodes.one_node n'))
    × (lookup "n-1" s2.nodes ≡ none)
    × (lookup "n-1" (Nodes.start s2.rows).nodes
        ≡ some (record node { status = "healthy"; last_seen = 10 * second }))
unfolding restored Nodes.registered
late_save_restores_node_example =
    late_save_restores_node node registered_at no_nodes empty (ne_of_eq_false "n-1" "" refl)

overlapping_updates_diverge_example :
    let s' = show_status "i-1" "terminated" (
      show_status "i-1" "running"
        (write_row "i-1" "running" (write_row "i-1" "terminated" launched))) in
    ((Instances.Handlers.handle_instance_patch true "i-1" (some "running") launched).0
      ≡ show_status "i-1" "running" (write_row "i-1" "running" launched))
    × ((Instances.Handlers.handle_instance_by_id true "i-1" healthy_nodes launched).0
        ≡ show_status "i-1" "terminated" (write_row "i-1" "terminated" launched))
    × (status_of "i-1" s'.instances ≡ some "terminated")
    × (status_of "i-1" (Instances.open_store s'.rows).instances ≡ some "running")
overlapping_updates_diverge_example =
    overlapping_updates_diverge "i-1" "running" healthy_nodes {s = launched} launched-Reaches
      (ne_of_eq_false "i-1" "" refl) (ne_of_eq_false "running" "" refl)
      (unfold Sql.has Instances.Handlers.launch_instance
          Instances.Handlers.pick_healthy_compute_node_local Instances.Handlers.is_healthy_compute
          Instances.create Instances.new_instance Instances.type_spec Instances.open_store
          Sql.load_seq Sql.last_row Sql.select_first values format_id next_seq in
        refl)
