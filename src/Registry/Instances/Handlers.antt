-- ===== src/Registry/Instances/Handlers.antt =====
-- control-plane/registry/instances.go: the handlers, and the calls to agents and topics. Here a
-- handler is not interrupted. The code writes rows without the lock that it takes for memory, and so
-- handlers that overlap may write both in different orders: Overlap is about that.
use tiny_aws.Prelude.{
  String, Bool, ◌&&◌, ◌||◌, Option, none, some, List, [], ◌∷◌, ◌++◌, ◌==◌, select, if◌then◌else◌,
}
use tiny_aws.Go.Fmt.{prefixed}
use tiny_aws.Go.Map.{GoMap, lookup, values}
use tiny_aws.Go.Time.{Time}
use tiny_aws.Go.Http.{
  Response, json, error, no_body, status_ok, status_created, status_no_content, status_bad_request,
  status_not_found, status_internal_server_error, status_service_unavailable,
}
use tiny_aws.Sql
use tiny_aws.Registry.Nodes.{Node}
use tiny_aws.Registry.Instances.{Instance, instance_key, Instances, create, set_status, set_first}

pub data Call : Type 0 where
  provision : Node → Instance → Call
  destroy : Node → String → Call
  publish : String → String → Call

pub data Reply : Type 0 where
  one_instance : Instance → Reply
  instance_list : List Instance → Reply

-- The status is `none` if the body does not decode.
unfoldable pub handle_instance_patch :
    Bool → String → Option String → Instances → Instances × Response Reply
handle_instance_patch db_ok id none s = (s, error status_bad_request "status required")
handle_instance_patch db_ok id (some status) s =
    let (rows, changed) = set_status db_ok id status s.rows in
    if status == ""
    then (s, error status_bad_request "status required")
    else if changed
    then (
      record s { rows = rows; instances = set_first id status s.instances },
      no_body status_no_content,
    )
    else (record s { rows = rows }, error status_internal_server_error "db error")

abbrev found_instance : Option Instance → Response Reply
found_instance none = error status_not_found "instance not found"
found_instance (some x) = json status_ok (one_instance x)

unfoldable pub handle_instance_get : String → Instances → Response Reply
handle_instance_get id s =
    if id == ""
    then error status_bad_request "instance id required"
    else found_instance (Sql.find instance_key id s.instances)

-- the two filters of `listInstances`, where "" stands for no filter
unfoldable pub is_listed : String → String → Instance → Bool
is_listed node status x = (node == "" || x.node_id == node) && (status == "" || x.status == status)

unfoldable pub list_instances : String → String → Instances → Response Reply
list_instances node status s =
    json status_ok (instance_list (select (is_listed node status) s.instances))

unfoldable pub is_healthy_compute : Node → Bool
is_healthy_compute n = n.role == "compute" && n.status == "healthy"

-- `pickHealthyComputeNodeLocal`; `none` is its error
unfoldable pub pick_healthy_compute_node_local : GoMap Node → Option Node
pick_healthy_compute_node_local nodes = Sql.select_first is_healthy_compute (values nodes)

abbrev launch_notice : String → Instance → List Call
launch_notice sns_url x =
    if sns_url == ""
    then []
    else publish "instance-launch" (
        prefixed "{\"instance_id\":\""
          (prefixed x.id (prefixed "\",\"node_id\":\"" (prefixed x.node_id "\"}"))))
      ∷ []

abbrev pub launched :
    String → Node → Option (Instances × Instance) → Option (Instances × Response Reply × List Call)
launched sns_url node none = none
launched sns_url node (some (s, x)) = some (
  record s { instances = s.instances ++ x ∷ [] },
  json status_created (one_instance x),
  provision node x ∷ launch_notice sns_url x,
)

abbrev pub launch_on :
    Bool
    → String
    → String
    → Time
    → Option Node
    → Instances
    → Option (Instances × Response Reply × List Call)
launch_on db_ok sns_url instance_type now none s =
    some (s, error status_service_unavailable "no healthy compute nodes", [])
launch_on db_ok sns_url instance_type now (some node) s =
    launched sns_url node (create db_ok node.id instance_type now s)

-- `launchInstance`; `instance_type` is what the decoder leaves, "" without a body
unfoldable pub launch_instance :
    Bool
    → String
    → String
    → Time
    → GoMap Node
    → Instances
    → Option (Instances × Response Reply × List Call)
launch_instance db_ok sns_url instance_type now nodes s =
    launch_on db_ok sns_url instance_type now (pick_healthy_compute_node_local nodes) s

-- The end of `provisionOnAgent` when the call of the agent fails.
unfoldable pub provision_failed : Bool → String → Instances → Instances
provision_failed db_ok id s = record s {
  rows = (set_status db_ok id "failed" s.rows).0;
  instances = set_first id "failed" s.instances;
}

-- `host` of `provisionOnAgent` and `destroyOnAgent`
unfoldable pub agent_host : Node → String
agent_host n = if n.addr == "" then n.hostname else n.addr

abbrev destroy_on : String → Option Node → List Call
destroy_on id none = []
destroy_on id (some n) = destroy n id ∷ []

abbrev destroy_calls : String → GoMap Node → Option Instance → List Call
destroy_calls id nodes none = []
destroy_calls id nodes (some x) = destroy_on id (lookup x.node_id nodes)

unfoldable pub terminate_instance :
    Bool → String → GoMap Node → Instances → Instances × Response Reply × List Call
terminate_instance db_ok id nodes s =
    let (rows, changed) = set_status db_ok id "terminated" s.rows in
    if changed
    then (
      record s { rows = rows; instances = set_first id "terminated" s.instances },
      no_body status_no_content,
      destroy_calls id nodes (Sql.find instance_key id s.instances),
    )
    else (record s { rows = rows }, error status_internal_server_error "terminate failed", [])

unfoldable pub handle_instance_by_id :
    Bool → String → GoMap Node → Instances → Instances × Response Reply × List Call
handle_instance_by_id db_ok id nodes s =
    if id == ""
    then (s, error status_bad_request "instance id required", [])
    else terminate_instance db_ok id nodes s
