-- ===== src/Registry/Instances.antt =====
-- control-plane/registry/instances.go: compute instances. The global `instances` and the store are
-- the record `Instances`. The calls to agents and to the topic service, which the code makes in the
-- background, are the lists of `Call`s; their outcome comes back as `provision_failed`.
pub mod Handlers
pub mod Mirror
pub mod Ids
pub mod Overlap
use mathlib.Core.Option
use tiny_aws.Prelude.{
  ℕ, ◌+◌, String, Bool, true, false, not, ◌&&◌, ◌||◌, Option, none, some, List, [], ◌∷◌, ◌++◌, ◌==◌,
  map, select, if◌then◌else◌,
}
use tiny_aws.Go.Fmt.{format_id, prefixed, next_seq}
use tiny_aws.Go.Map.{GoMap, lookup, values}
use tiny_aws.Go.Time.{Time, format_rfc3339, parse_rfc3339}
use tiny_aws.Go.Http.{
  Response, json, error, no_body, status_ok, status_created, status_no_content, status_bad_request,
  status_not_found, status_internal_server_error, status_service_unavailable,
}
use tiny_aws.Sql
use tiny_aws.Registry.Nodes.{Node}

pub record Instance : Type 0 where
  pub id : String
  pub node_id : String
  pub status : String
  pub instance_type : String
  pub cpu_limit : String
  pub mem_limit_mb : ℕ
  pub base_image : String
  pub created_at : Time

-- A row of `instances`, without the column `base_image`, which no statement writes or reads;
-- `created_at` is the second count of its text.
pub record InstanceRow : Type 0 where
  pub id : String
  pub node_id : String
  pub status : String
  pub instance_type : String
  pub cpu_limit : String
  pub mem_limit_mb : ℕ
  pub created_at : ℕ

abbrev pub row_key : InstanceRow → String
row_key r = r.id

abbrev pub instance_key : Instance → String
instance_key x = x.id

pub record Instances : Type 0 where
  pub instances : List Instance
  pub rows : List InstanceRow
  pub seq : ℕ

unfoldable pub to_row : Instance → InstanceRow
to_row x = record {
  id = x.id;
  node_id = x.node_id;
  status = x.status;
  instance_type = x.instance_type;
  cpu_limit = x.cpu_limit;
  mem_limit_mb = x.mem_limit_mb;
  created_at = format_rfc3339 x.created_at;
}

unfoldable pub of_row : InstanceRow → Instance
of_row r = record {
  id = r.id;
  node_id = r.node_id;
  status = r.status;
  instance_type = r.instance_type;
  cpu_limit = r.cpu_limit;
  mem_limit_mb = r.mem_limit_mb;
  base_image = "";
  created_at = parse_rfc3339 r.created_at;
}

-- `NewInstanceStore` and `LoadAll` at a start
unfoldable pub open_store : List InstanceRow → Instances
open_store rows = record {
  instances = map of_row rows;
  rows = rows;
  seq = Sql.load_seq "i-" row_key rows;
}

-- `instanceTypeSpec`: the limits of a type, those of "small" for an unknown one
unfoldable pub type_spec : String → String × ℕ
type_spec t =
    if t == "nano"
    then ("25%", 128)
    else if t == "micro"
    then ("50%", 256)
    else if t == "medium"
    then ("200%", 1024)
    else if t == "large"
    then ("400%", 2048)
    else ("100%", 512)

abbrev or_small : String → String
or_small t = if t == "" then "small" else t

unfoldable pub new_instance : ℕ → String → String → Time → Instance
unfolding type_spec
new_instance seq node_id instance_type now =
    let (cpu, mem) = type_spec (or_small instance_type) in
    record {
      id = format_id "i-" seq;
      node_id = node_id;
      status = "provisioning";
      instance_type = or_small instance_type;
      cpu_limit = cpu;
      mem_limit_mb = mem;
      base_image = "";
      created_at = now;
    }

abbrev row_of_create : Instance → List InstanceRow → List InstanceRow
row_of_create x rows = Sql.upsert row_key (to_row x) rows

-- `store.Create(…)`; `none` is the end of the process, `log.Fatal` of an insert that fails
unfoldable pub create : Bool → String → String → Time → Instances → Option (Instances × Instance)
create false node_id instance_type now s = none
create true node_id instance_type now s =
    let seq = next_seq s.seq in
    let x = new_instance seq node_id instance_type now in
    some (record s { rows = row_of_create x s.rows; seq = seq }, x)

-- `store.SetStatus(id, status)`; `store.Terminate(id)` is the same with "terminated"
unfoldable pub set_status : Bool → String → String → List InstanceRow → List InstanceRow × Bool
set_status db_ok id status rows =
    Sql.exec db_ok (some (Sql.update row_key id (λ r. record r { status = status }) rows)) rows

-- The loop that changes the first instance of an identifier, and stops there.
unfoldable pub set_first : String → String → List Instance → List Instance
set_first id status [] = []
set_first id status (x ∷ xs) =
    let rest = set_first id status xs in
    if x.id == id then record x { status = status } ∷ xs else x ∷ rest
