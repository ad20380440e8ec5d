-- ===== src/Registry/Services.antt =====
-- control-plane/registry/services.go: the services that run on nodes. The state is the table
-- `services` and the sequence of the store.
pub mod Ids
use mathlib.Core.Option
use tiny_aws.Prelude.{
  ℕ, ◌+◌, String, Bool, true, false, not, ◌&&◌, ◌||◌, Option, none, some, List, [], ◌∷◌, ◌==◌, map,
  select, if◌then◌else◌,
}
use tiny_aws.Prelude.Int.{ℤ}
use tiny_aws.Go.Fmt.{format_id, next_seq}
use tiny_aws.Go.Time.{Time, format_rfc3339, parse_rfc3339}
use tiny_aws.Go.Http.{
  Response, json, error, no_body, status_ok, status_created, status_no_content, status_bad_request,
  status_not_found, status_internal_server_error,
}
use tiny_aws.Sql

pub record Service : Type 0 where
  pub id : String
  pub instance_id : String
  pub node_id : String
  pub port : ℤ
  pub pid : ℤ
  pub status : String
  pub deploy_url : String
  pub created_at : Time

-- a row of `services`; `created_at` is the second count of its text
pub record ServiceRow : Type 0 where
  pub id : String
  pub instance_id : String
  pub node_id : String
  pub port : ℤ
  pub pid : ℤ
  pub status : String
  pub deploy_url : String
  pub created_at : ℕ

abbrev pub row_key : ServiceRow → String
row_key r = r.id

pub record ServiceStore : Type 0 where
  pub rows : List ServiceRow
  pub seq : ℕ

-- `NewServiceStore` on an existing table
unfoldable pub open_store : List ServiceRow → ServiceStore
open_store rows = record { rows = rows; seq = Sql.load_seq "svc-" row_key rows }

unfoldable pub to_row : Service → ServiceRow
to_row s = record {
  id = s.id;
  instance_id = s.instance_id;
  node_id = s.node_id;
  port = s.port;
  pid = s.pid;
  status = s.status;
  deploy_url = s.deploy_url;
  created_at = format_rfc3339 s.created_at;
}

unfoldable pub of_row : ServiceRow → Service
of_row r = record {
  id = r.id;
  instance_id = r.instance_id;
  node_id = r.node_id;
  port = r.port;
  pid = r.pid;
  status = r.status;
  deploy_url = r.deploy_url;
  created_at = parse_rfc3339 r.created_at;
}

-- `store.Save(svc)`; its error is only logged
unfoldable pub save : Bool → Service → List ServiceRow → List ServiceRow
save db_ok svc rows = (Sql.exec db_ok (some (Sql.upsert row_key (to_row svc) rows)) rows).0

unfoldable pub load_all : List ServiceRow → List Service
load_all rows = map of_row rows

pub record CreateRequest : Type 0 where
  pub node_id : String
  pub instance_id : String
  pub port : ℤ
  pub pid : ℤ
  pub deploy_url : String

unfoldable pub new_service : ℕ → CreateRequest → Time → Service
new_service seq req now = record {
  id = format_id "svc-" seq;
  instance_id = req.instance_id;
  node_id = req.node_id;
  port = req.port;
  pid = req.pid;
  status = "running";
  deploy_url = req.deploy_url;
  created_at = now;
}

-- `store.Create(…)`
unfoldable pub create : Bool → CreateRequest → Time → ServiceStore → ServiceStore × Service
create db_ok req now s =
    let seq = next_seq s.seq in
    let svc = new_service seq req now in (record { rows = save db_ok svc s.rows; seq = seq }, svc)

-- `store.UpdateStatus(id, status)`: the table, and whether `err == nil`
unfoldable pub update_status : Bool → String → String → List ServiceRow → List ServiceRow × Bool
update_status db_ok id status rows =
    Sql.exec db_ok (some (Sql.update row_key id (λ r. record r { status = status }) rows)) rows

pub data Reply : Type 0 where
  one_service : Service → Reply
  service_list : List Service → Reply

unfoldable pub handle_service_create :
    Bool → Option CreateRequest → Time → ServiceStore → ServiceStore × Response Reply
handle_service_create db_ok none now s = (s, error status_bad_request "node_id required")
handle_service_create db_ok (some req) now s =
    let (s', svc) = create db_ok req now s in
    if req.node_id == ""
    then (s, error status_bad_request "node_id required")
    else (s', json status_created (one_service svc))

-- the two filters of `handleServiceList`, where "" stands for no filter
unfoldable pub is_listed : String → String → Service → Bool
is_listed node status svc =
    (node == "" || svc.node_id == node) && (status == "" || svc.status == status)

-- The `Bool` says whether the rows can be read.
unfoldable pub handle_service_list : Bool → String → String → ServiceStore → Response Reply
handle_service_list true node status s =
    json status_ok (service_list (select (is_listed node status) (load_all s.rows)))
handle_service_list false node status s = error status_internal_server_error "db error"

abbrev found_service : Option Service → Response Reply
found_service none = error status_not_found "not found"
found_service (some svc) = json status_ok (one_service svc)

unfoldable pub handle_service_get : Bool → String → ServiceStore → Response Reply
handle_service_get true id s =
    found_service (Sql.select_first (λ svc. svc.id == id) (load_all s.rows))
handle_service_get false id s = error status_not_found "not found"

abbrev answer_update : Bool → Response Reply
answer_update true = no_body status_no_content
answer_update false = error status_internal_server_error "db error"

unfoldable pub change_status : Bool → String → String → ServiceStore → ServiceStore × Response Reply
change_status db_ok id status s =
    let (rows, changed) = update_status db_ok id status s.rows in
    (record s { rows = rows }, answer_update changed)

-- The status is `none` if the body does not decode.
unfoldable pub handle_service_patch :
    Bool → String → Option String → ServiceStore → ServiceStore × Response Reply
handle_service_patch db_ok id none s = (s, error status_bad_request "status required")
handle_service_patch db_ok id (some status) s =
    if status == ""
    then (s, error status_bad_request "status required")
    else change_status db_ok id status s

unfoldable pub handle_service_delete : Bool → String → ServiceStore → ServiceStore × Response Reply
handle_service_delete db_ok id s = change_status db_ok id "stopped" s
