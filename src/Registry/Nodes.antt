-- ===== src/Registry/Nodes.antt =====
-- control-plane/registry/main.go and store.go: the nodes and their health. The global `nodes` and
-- the table behind `store` are the record `Nodes`.
pub mod Health
pub mod Mirror
pub mod Restart
pub mod Reach
pub mod Overlap
use tiny_aws.Prelude.{
  ℕ, ◌+◌, ◌*◌, String, Bool, true, false, not, ◌&&◌, Option, none, some, List, [], ◌∷◌, ltb, ◌==◌,
  if◌then◌else◌,
}
use tiny_aws.Prelude.Int.{ℤ}
use tiny_aws.Go.Map.{GoMap, lookup, insert, delete}
use tiny_aws.Go.Time.{Time, second, format_rfc3339, parse_rfc3339}
use tiny_aws.Go.Http.{
  Response, json, error, no_body, status_ok, status_created, status_no_content, status_bad_request,
  status_not_found, status_method_not_allowed, status_internal_server_error,
}
use tiny_aws.Sql

pub record Node : Type 0 where
  pub id : String
  pub hostname : String
  pub addr : String
  pub cpu_count : ℤ
  pub role : String
  pub status : String
  pub last_seen : Time

-- a row of `nodes`; `last_seen` is the second count of its text
pub record NodeRow : Type 0 where
  pub id : String
  pub hostname : String
  pub addr : String
  pub cpu_count : ℤ
  pub role : String
  pub status : String
  pub last_seen : ℕ

pub record Nodes : Type 0 where
  pub nodes : GoMap Node
  pub rows : List NodeRow

abbrev pub row_key : NodeRow → String
row_key r = r.id

unfoldable pub to_row : Node → NodeRow
to_row n = record {
  id = n.id;
  hostname = n.hostname;
  addr = n.addr;
  cpu_count = n.cpu_count;
  role = n.role;
  status = n.status;
  last_seen = format_rfc3339 n.last_seen;
}

unfoldable pub of_row : NodeRow → Node
of_row r = record {
  id = r.id;
  hostname = r.hostname;
  addr = r.addr;
  cpu_count = r.cpu_count;
  role = r.role;
  status = r.status;
  last_seen = parse_rfc3339 r.last_seen;
}

-- `store.Save(node)`: the table, and whether `err == nil`
unfoldable pub save : Bool → Node → List NodeRow → List NodeRow × Bool
save db_ok n rows = Sql.exec db_ok (some (Sql.upsert row_key (to_row n) rows)) rows

-- `store.Delete(id)`
unfoldable pub remove : Bool → String → List NodeRow → List NodeRow × Bool
remove db_ok id rows = Sql.exec db_ok (some (Sql.remove row_key id rows)) rows

-- the loop of `LoadAll`
unfoldable pub load_rows : List NodeRow → GoMap Node → GoMap Node
load_rows [] nodes = nodes
load_rows (r ∷ rows) nodes = load_rows rows (insert r.id (of_row r) nodes)

unfoldable pub load_all : List NodeRow → GoMap Node
load_all rows = load_rows rows []

-- `nodes = loaded` in `main`; the table stays.
unfoldable pub start : List NodeRow → Nodes
start rows = record { nodes = load_all rows; rows = rows }

pub data Reply : Type 0 where
  node_map : GoMap Node → Reply
  one_node : Node → Reply

unfoldable pub by_role : String → GoMap Node → GoMap Node
by_role role [] = []
by_role role ((id, n) ∷ m) =
    let rest = by_role role m in if n.role == role then (id, n) ∷ rest else rest

unfoldable pub handle_nodes : String → String → Nodes → Response Reply
handle_nodes method role s =
    if not (method == "GET")
    then error status_method_not_allowed "method not allowed"
    else if role == ""
    then json status_ok (node_map s.nodes)
    else json status_ok (node_map (by_role role s.nodes))

-- The node that is stored for a registration.
unfoldable pub registered : Node → Time → Node
registered n now = record n {
  role = if n.role == "" then "compute" else n.role;
  status = "healthy";
  last_seen = now;
}

-- the part of `handleRegister` under the lock
abbrev pub store_node : Node → Nodes → Nodes
store_node n s = record s { nodes = insert n.id n s.nodes }

-- the part after it
abbrev pub persist_node : Bool → Node → Nodes → Nodes × Response Reply
persist_node db_ok n s =
    let (rows, saved) = save db_ok n s.rows in
    (
      record s { rows = rows },
      if saved
          then json status_created (one_node n)
          else error status_internal_server_error "failed to persist node",
    )

-- A registration that no other request comes between: Nodes/Overlap is about one that is.
unfoldable pub handle_register : Bool → Option Node → Time → Nodes → Nodes × Response Reply
handle_register db_ok none now s = (s, error status_bad_request "failed to decode node")
handle_register db_ok (some n) now s =
    let n' = registered n now in persist_node db_ok n' (store_node n' s)

unfoldable pub beat : Node → Time → Node
beat n now = record n { last_seen = now; status = "healthy" }

unfoldable pub heartbeat_of : Bool → String → Time → Option Node → Nodes → Nodes × Response Reply
heartbeat_of db_ok id now none s = (s, error status_not_found "node not found")
heartbeat_of db_ok id now (some n) s =
    let n' = beat n now in
    (
      record { nodes = insert id n' s.nodes; rows = (save db_ok n' s.rows).0 },
      json status_ok (one_node n'),
    )

-- The identifier of the heartbeat is `none` if the body does not decode.
unfoldable pub handle_heartbeat : Bool → Option String → Time → Nodes → Nodes × Response Reply
handle_heartbeat db_ok none now s = (s, error status_bad_request "failed to decode heartbeat")
handle_heartbeat db_ok (some id) now s = heartbeat_of db_ok id now (lookup id s.nodes) s

unfoldable pub delete_node : Bool → String → Option Node → Nodes → Nodes × Response Reply
delete_node db_ok id none s = (s, error status_not_found "node not found")
delete_node db_ok id (some n) s =
    let (rows, deleted) = remove db_ok id s.rows in
    (
      record { nodes = delete id s.nodes; rows = rows },
      if deleted
          then no_body status_no_content
          else error status_internal_server_error "delete failed",
    )

unfoldable pub handle_node_by_id : Bool → String → Nodes → Nodes × Response Reply
handle_node_by_id db_ok id s =
    if id == ""
    then (s, error status_bad_request "node id required")
    else delete_node db_ok id (lookup id s.nodes) s

-- `age > d`, where `age` is `now.Sub(lastSeen)`: the durations here are far below the limits of an
-- `int64`, and so saturation does not change the test.
unfoldable pub is_older : ℕ → Time → Node → Bool
is_older d now n = ltb (n.last_seen + d) now

abbrev pub prune_age : ℕ
prune_age = 5 * 60 * second

abbrev pub stale_age : ℕ
stale_age = 30 * second

-- What one pass makes of a node: it is dropped, marked, or left.
pub data Verdict : Type 0 where
  prune keep : Verdict
  mark : Node → Verdict

unfoldable pub verdict : Time → Node → Verdict
unfolding is_older
verdict now n =
    if is_older prune_age now n && n.status == "unhealthy"
    then prune
    else if is_older stale_age now n
    then mark (record n { status = "unhealthy" })
    else keep

abbrev entry_after : String → Node → Verdict → GoMap Node → GoMap Node
entry_after id n prune rest = rest
entry_after id n keep rest = (id, n) ∷ rest
entry_after id n (mark n') rest = (id, n') ∷ rest

abbrev rows_after : Bool → String → Verdict → List NodeRow → List NodeRow
rows_after db_ok id prune rows = (remove db_ok id rows).0
rows_after db_ok id keep rows = rows
rows_after db_ok id (mark n) rows = (save db_ok n rows).0

-- One pass of `checkNodesHealth`; `saves` says of each node whether its row can be written.
unfoldable pub check :
    (String → Bool) → Time → GoMap Node → List NodeRow → GoMap Node × List NodeRow
check saves now [] rows = ([], rows)
check saves now ((id, n) ∷ m) rows =
    let v = verdict now n in
    let (nodes, rows') = check saves now m (rows_after (saves id) id v rows) in
    (entry_after id n v nodes, rows')

unfoldable pub check_nodes_health : (String → Bool) → Time → Nodes → Nodes
check_nodes_health saves now s =
    let (nodes, rows) = check saves now s.nodes s.rows in record { nodes = nodes; rows = rows }
