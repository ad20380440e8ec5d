-- ===== src/Registry/Routes.antt =====
-- control-plane/registry/main.go: the routes of the registry, with the check of keys around them.
-- The globals of the package are the record `RegistryState`.
pub mod Guard
use tiny_aws.Prelude.{ℕ, String, Bool, true, false, Option, none, some, List, [], if◌then◌else◌}
use tiny_aws.Go.Fmt.{prefixed}
use tiny_aws.Go.Time.{Time}
use tiny_aws.Go.Http.{Response, json, error, map_body, status_ok}
use tiny_aws.Registry.Nodes
use tiny_aws.Registry.Nodes.{Node, Nodes}
use tiny_aws.Registry.Instances
use tiny_aws.Registry.Instances.{Instances}
use tiny_aws.Registry.Instances.Handlers
use tiny_aws.Registry.Instances.Handlers.{Call}
use tiny_aws.Registry.Services
use tiny_aws.Registry.Services.{ServiceStore, CreateRequest}
use tiny_aws.Registry.Iam
use tiny_aws.Registry.Iam.{ApiKey, KeyRow}

pub record RegistryState : Type 0 where
  pub nodes : Nodes
  pub instances : Instances
  pub services : ServiceStore
  pub keys : List KeyRow

-- `main` at a start: memory is read from the tables, and the sequences from their last rows.
unfoldable pub restart : RegistryState → RegistryState
restart g = record g {
  nodes = Nodes.start g.nodes.rows;
  instances = Instances.open_store g.instances.rows;
  services = Services.open_store g.services.rows;
}

-- the routes, with the decoded body or the query of a request
pub data Request : Type 0 where
  health : Request
  list_nodes : String → Request
  register : Option Node → Request
  heartbeat : Option String → Request
  remove_node : String → Request
  list_instances : String → String → Request
  launch : String → Request
  get_instance : String → Request
  patch_instance : String → Option String → Request
  terminate : String → Request
  create_key : Option ApiKey → Request
  delete_key : String → Request
  list_keys : Request
  create_service : Option CreateRequest → Request
  list_services : String → String → Request
  get_service : String → Request
  patch_service : String → Option String → Request
  stop_service : String → Request

unfoldable pub method_of : Request → String
method_of health = "GET"
method_of (list_nodes role) = "GET"
method_of (register body) = "POST"
method_of (heartbeat body) = "POST"
method_of (remove_node id) = "DELETE"
method_of (list_instances node status) = "GET"
method_of (launch instance_type) = "POST"
method_of (get_instance id) = "GET"
method_of (patch_instance id status) = "PATCH"
method_of (terminate id) = "DELETE"
method_of (create_key body) = "POST"
method_of (delete_key key) = "DELETE"
method_of list_keys = "GET"
method_of (create_service body) = "POST"
method_of (list_services node status) = "GET"
method_of (get_service id) = "GET"
method_of (patch_service id status) = "PATCH"
method_of (stop_service id) = "DELETE"

unfoldable pub path_of : Request → String
path_of health = "/health"
path_of (list_nodes role) = "/nodes"
path_of (register body) = "/nodes/register"
path_of (heartbeat body) = "/nodes/heartbeat"
path_of (remove_node id) = prefixed "/nodes/" id
path_of (list_instances node status) = "/instances"
path_of (launch instance_type) = "/instances"
path_of (get_instance id) = prefixed "/instances/" id
path_of (patch_instance id status) = prefixed "/instances/" id
path_of (terminate id) = prefixed "/instances/" id
path_of (create_key body) = "/iam/keys"
path_of (delete_key key) = prefixed "/iam/keys/" key
path_of list_keys = "/iam/keys"
path_of (create_service body) = "/services"
path_of (list_services node status) = "/services"
path_of (get_service id) = prefixed "/services/" id
path_of (patch_service id status) = prefixed "/services/" id
path_of (stop_service id) = prefixed "/services/" id

-- what a request meets: the environment, the outcomes of its database calls, and the time
pub record Context : Type 0 where
  pub api_key : String
  pub sns_url : String
  pub count_ok : Bool
  pub key_ok : Bool
  pub db_ok : Bool
  pub query_error : Option String
  pub now : Time

pub data Reply : Type 0 where
  healthy : Reply
  of_nodes : Nodes.Reply → Reply
  of_instances : Handlers.Reply → Reply
  of_services : Services.Reply → Reply
  of_keys : Iam.Reply → Reply

-- `none` is the end of the process.
abbrev pub Outcome : Type 0
Outcome = Option (RegistryState × Response Reply × List Call)

abbrev reads : Response Reply → RegistryState → Outcome
reads reply g = some (g, reply, [])

abbrev on_nodes : Nodes × Response Nodes.Reply → RegistryState → Outcome
on_nodes (s, reply) g = some (record g { nodes = s }, map_body of_nodes reply, [])

abbrev on_instances : Instances × Response Handlers.Reply × List Call → RegistryState → Outcome
on_instances (s, reply, calls) g =
    some (record g { instances = s }, map_body of_instances reply, calls)

abbrev pub or_exit :
    Option (Instances × Response Handlers.Reply × List Call) → RegistryState → Outcome
or_exit none g = none
or_exit (some o) g = on_instances o g

abbrev on_services : ServiceStore × Response Services.Reply → RegistryState → Outcome
on_services (s, reply) g = some (record g { services = s }, map_body of_services reply, [])

abbrev on_keys : List KeyRow × Response Iam.Reply → RegistryState → Outcome
on_keys (rows, reply) g = some (record g { keys = rows }, map_body of_keys reply, [])

-- the handler behind a route
unfoldable pub handle : Context → Request → RegistryState → Outcome
handle c health g = reads (json status_ok healthy) g
handle c (list_nodes role) g = reads (map_body of_nodes (Nodes.handle_nodes "GET" role g.nodes)) g
handle c (register body) g = on_nodes (Nodes.handle_register c.db_ok body c.now g.nodes) g
handle c (heartbeat body) g = on_nodes (Nodes.handle_heartbeat c.db_ok body c.now g.nodes) g
handle c (remove_node id) g = on_nodes (Nodes.handle_node_by_id c.db_ok id g.nodes) g
handle c (list_instances node status) g =
    reads (map_body of_instances (Handlers.list_instances node status g.instances)) g
handle c (launch instance_type) g =
    or_exit
      (Handlers.launch_instance c.db_ok c.sns_url instance_type c.now g.nodes.nodes g.instances) g
handle c (get_instance id) g =
    reads (map_body of_instances (Handlers.handle_instance_get id g.instances)) g
handle c (patch_instance id status) g =
    let (s, reply) = Handlers.handle_instance_patch c.db_ok id status g.instances in
    on_instances (s, reply, []) g
handle c (terminate id) g =
    on_instances (Handlers.handle_instance_by_id c.db_ok id g.nodes.nodes g.instances) g
handle c (create_key body) g = on_keys (Iam.handle_iam_key_create c.db_ok body g.keys) g
handle c (delete_key key) g = on_keys (Iam.handle_iam_key_delete c.db_ok key g.keys) g
handle c list_keys g = reads (map_body of_keys (Iam.handle_iam_key_list c.query_error g.keys)) g
handle c (create_service body) g =
    on_services (Services.handle_service_create c.db_ok body c.now g.services) g
handle c (list_services node status) g =
    reads (map_body of_services (Services.handle_service_list c.db_ok node status g.services)) g
handle c (get_service id) g =
    reads (map_body of_services (Services.handle_service_get c.db_ok id g.services)) g
handle c (patch_service id status) g =
    on_services (Services.handle_service_patch c.db_ok id status g.services) g
handle c (stop_service id) g = on_services (Services.handle_service_delete c.db_ok id g.services) g

-- the route of the health check is the only one without `authMiddleware`
abbrev pub is_unguarded : Request → Bool
is_unguarded health = true
is_unguarded _ = false

abbrev pub unless_refused : Option (ℕ × String) → Outcome → RegistryState → Outcome
unless_refused none served g = served
unless_refused (some (status, text)) served g = reads (error status text) g

-- `parse` is `time.Parse(time.RFC3339, …)`, and `auth` the header Authorization.
module _ (parse : String → Option Time) where
  unfoldable pub refusal_for : Context → String → Request → RegistryState → Option (ℕ × String)
  refusal_for c auth req g =
      Iam.require_auth parse c.now c.count_ok c.key_ok c.api_key (method_of req) (path_of req) auth
        g.keys

  unfoldable pub serve : Context → String → Request → RegistryState → Outcome
  serve c auth req g =
      if is_unguarded req
      then handle c req g
      else unless_refused (refusal_for c auth req g) (handle c req g) g
