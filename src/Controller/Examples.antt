-- ===== src/Controller/Examples.antt =====
-- control-plane/controller/main.go: an instance is launched and terminated, the registry takes a
-- request and restarts, and a pass removes the workspace.
use tiny_aws.Prelude.{
  ◌+◌, ◌<◌, String, true, ◌≡◌, ◌≢◌, refl, Option, none, some, [], ◌∷◌, arith, eq_iff,
}
use tiny_aws.Prelude.Int.{pos}
use tiny_aws.Go.Fmt.{u64_mod, next_seq, format_id}
use tiny_aws.Go.Map
use tiny_aws.Go.Time.{Time}
use tiny_aws.Sql
use tiny_aws.Registry.Nodes.{Node}
use tiny_aws.Registry.Instances.{
  Instances, instance_key, open_store, create, new_instance, type_spec, set_status,
}
use tiny_aws.Registry.Instances.Handlers
use tiny_aws.Registry.Instances.Handlers.{launch_instance}
use tiny_aws.Registry.Instances.Mirror.{after_launch}
use tiny_aws.Registry.Instances.Ids.{Reaches, initial}
use tiny_aws.Registry.Instances.Ids
use tiny_aws.Registry.Iam
use tiny_aws.Registry.Routes
use tiny_aws.Registry.Routes.{
  RegistryState, Context, terminate, patch_instance, list_instances, refusal_for, serve, restart,
}
use tiny_aws.Controller.{is_cleaned}
use tiny_aws.Controller.Reach.{
  after, Without, nothing, served, restarted, reconcile_from, workspace_removed_after_termination,
}

abbrev no_times : String → Option Time
no_times text = none

abbrev unkeyed : Context
unkeyed = record {
  api_key = "";
  sns_url = "";
  count_ok = true;
  key_ok = true;
  db_ok = true;
  query_error = none;
  now = 0;
}

abbrev compute_node : Node
compute_node = record {
  id = "n-1";
  hostname = "host";
  addr = "";
  cpu_count = pos 4;
  role = "compute";
  status = "healthy";
  last_seen = 0;
}

abbrev one_instance : Instances
one_instance =
    after_launch (launch_instance true "" "nano" 0 (("n-1", compute_node) ∷ []) (open_store []))
      (open_store [])

abbrev registry : RegistryState
registry = record {
  nodes = record { nodes = ("n-1", compute_node) ∷ []; rows = [] };
  instances = one_instance;
  services = record { rows = []; seq = 0 };
  keys = [];
}

abbrev terminated : RegistryState
terminated = after registry (serve no_times unkeyed "" (terminate "i-1") registry)

one_instance-Reaches : Reaches one_instance
unfolding open_store Sql.load_seq Sql.last_row
one_instance-Reaches =
    Ids.launch true "" "nano" 0 (("n-1", compute_node) ∷ []) (omega arith) initial

abbrev later : RegistryState
later = restart (
    after terminated (serve no_times unkeyed "" (patch_instance "i-2" (some "running")) terminated))

room : terminated.instances.seq + 1 < u64_mod
unfolding serve refusal_for Iam.require_auth Iam.is_enforced Routes.handle
    Handlers.handle_instance_by_id Handlers.terminate_instance set_status Sql.exec
    Handlers.launch_instance Handlers.pick_healthy_compute_node_local Handlers.is_healthy_compute
    create open_store Sql.load_seq Sql.last_row Sql.select_first Map.values next_seq
room = omega arith

terminated-later : Without no_times "i-1" terminated later
terminated-later =
    restarted (served unkeyed "" (patch_instance "i-2" (some "running")) refl room nothing)

known : Sql.has instance_key "i-1" registry.instances.instances ≡ true
unfolding Sql.has Handlers.launch_instance Handlers.pick_healthy_compute_node_local
    Handlers.is_healthy_compute create new_instance type_spec open_store Sql.load_seq Sql.last_row
    Sql.select_first Map.values next_seq format_id
known = refl

named : ◌≢◌ {A = String} "i-1" ""
named = ground (arith, eq_iff "i-1" "")

passes : refusal_for no_times unkeyed "" (terminate "i-1") registry ≡ none
unfolding refusal_for Iam.require_auth Iam.is_enforced
passes = refl

listing_passes : refusal_for no_times unkeyed "" (list_instances "" "") later ≡ none
unfolding refusal_for Iam.require_auth Iam.is_enforced restart serve Routes.handle
listing_passes = refl

workspace_removed_after_termination_example :
    (is_cleaned "i-1" (reconcile_from no_times (λ id. true) unkeyed later []).1 ≡ true)
    × (is_cleaned "i-1" (reconcile_from no_times (λ id. true) unkeyed later []).0 ≡ true)
unfolding is_cleaned
workspace_removed_after_termination_example =
    workspace_removed_after_termination no_times "i-1" "" unkeyed unkeyed registry later
      (λ id. true) [] one_instance-Reaches known named refl passes terminated-later listing_passes
      refl
