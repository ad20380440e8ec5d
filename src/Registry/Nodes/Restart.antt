-- ===== src/Registry/Nodes/Restart.antt =====
-- control-plane/registry/main.go and store.go: a restart after any history in which every row was
-- written.
use mathlib.Core.Option
use tiny_aws.Prelude.{
  ◌*◌, ◌/◌, String, true, false, ◌≡◌, refl, sym, ap, ◌∙◌, subst, Option, none, some, List, [], ◌∷◌,
  arith, All, Bool-cases, inl, inr, ◌==◌, eq_iff,
}
use tiny_aws.Go.Map.{
  GoMap, lookup, insert, UniqueKeys, lookup-insert, insert-UniqueKeys, All-insert, All-lookup,
}
use tiny_aws.Go.Time.{Time, second, format_rfc3339, parse_rfc3339}
use tiny_aws.Sql
use tiny_aws.Sql.Laws.{Unique, find-absent}
use tiny_aws.Registry.Nodes.{
  Node, NodeRow, Nodes, row_key, to_row, of_row, load_rows, load_all, save, start, registered,
  handle_register, beat, heartbeat_of, handle_heartbeat, delete_node, handle_node_by_id,
  check_nodes_health,
}
use tiny_aws.Registry.Nodes.Mirror.{IsNamed, Mirrors, put-Mirrors, drop_node-Mirrors, check-Mirrors}

register-Mirrors :
    (body : Option Node) (now : Time) (s : Nodes)
    → Mirrors s
    → Mirrors (handle_register true body now s).0
unfolding handle_register
register-Mirrors none now s v = v
register-Mirrors (some n) now s v = put-Mirrors (registered n now) s v

heartbeat_of-Mirrors :
    (id : String) (now : Time) (o : Option Node) (s : Nodes)
    → lookup id s.nodes ≡ o
    → Mirrors s
    → Mirrors (heartbeat_of true id now o s).0
unfolding heartbeat_of beat
heartbeat_of-Mirrors id now none s e v = v
heartbeat_of-Mirrors id now (some n) s e v =
    subst
      (λ k. Mirrors (record {
        nodes = insert k (beat n now) s.nodes;
        rows = (save true (beat n now) s.rows).0;
      }))
      (All-lookup IsNamed id s.nodes v.named e) (put-Mirrors (beat n now) s v)

heartbeat-Mirrors :
    (id : Option String) (now : Time) (s : Nodes)
    → Mirrors s
    → Mirrors (handle_heartbeat true id now s).0
unfolding handle_heartbeat
heartbeat-Mirrors none now s v = v
heartbeat-Mirrors (some id) now s v = heartbeat_of-Mirrors id now (lookup id s.nodes) s refl v

delete_node-Mirrors :
    (id : String) (o : Option Node) (s : Nodes) → Mirrors s → Mirrors (delete_node true id o s).0
unfolding delete_node
delete_node-Mirrors id none s v = v
delete_node-Mirrors id (some n) s v = drop_node-Mirrors id s v

by_id-Mirrors : (id : String) (s : Nodes) → Mirrors s → Mirrors (handle_node_by_id true id s).0
unfolding handle_node_by_id
by_id-Mirrors id s v = elim (Bool-cases (id == "")) [
  | inl e ↦ rw e v
  | inr e ↦ rw e (delete_node-Mirrors id (lookup id s.nodes) s v)
]

-- what `LoadAll` finds under an identifier: its row, or what the map held before
abbrev loaded : Option NodeRow → Option Node → Option Node
loaded none old = old
loaded (some r) old = some (of_row r)

lookup-load_rows :
    (id : String) (rows : List NodeRow) (nodes : GoMap Node)
    → Unique row_key rows
    → lookup id (load_rows rows nodes) ≡ loaded (Sql.find row_key id rows) (lookup id nodes)
unfolding load_rows Sql.find
lookup-load_rows id [] nodes u = refl
lookup-load_rows id (r ∷ rows) nodes (fresh, u) =
    lookup-load_rows id rows (insert r.id (of_row r) nodes) u
    ∙ rw (lookup-insert r.id id (of_row r) nodes) (elim (Bool-cases (r.id == id)) [
      | inl e ↦
          rw
            (find-absent row_key id rows
              (subst (λ k. Sql.has row_key k rows ≡ false) ((eq_iff r.id id).0 e) fresh))
            (rw e)
      | inr e ↦ rw e
    ])

pub load_rows-keys :
    (rows : List NodeRow) (nodes : GoMap Node)
    → UniqueKeys nodes
    → All IsNamed nodes
    → UniqueKeys (load_rows rows nodes) × All IsNamed (load_rows rows nodes)
unfolding load_rows
load_rows-keys [] nodes u named = (u, named)
load_rows-keys (r ∷ rows) nodes u named =
    load_rows-keys rows (insert r.id (of_row r) nodes) (insert-UniqueKeys r.id (of_row r) nodes u)
      (All-insert IsNamed r.id (of_row r) nodes (unfold of_row in refl) named)

pub lookup-start :
    (rows : List NodeRow) (id : String)
    → Unique row_key rows
    → lookup id (start rows).nodes ≡ Option.map of_row (Sql.find row_key id rows)
unfolding start load_all
lookup-start rows id u = lookup-load_rows id rows [] u ∙ as_map (Sql.find row_key id rows)
  where
    as_map : (o : Option NodeRow) → loaded o (lookup id []) ≡ Option.map of_row o
    as_map none = unfold lookup in refl
    as_map (some r) = refl

to_row-of_row : (o : Option NodeRow) → o ≡ Option.map to_row (Option.map of_row o)
unfolding to_row of_row
to_row-of_row none = refl
to_row-of_row (some r) = λ i. some (record r { last_seen = seen i })
  where
    seen : r.last_seen ≡ format_rfc3339 (parse_rfc3339 r.last_seen)
    seen = omega arith

start-Mirrors : (s : Nodes) → Mirrors s → Mirrors (start s.rows)
unfolding start load_all
start-Mirrors s v = record {
  keys = (load_rows-keys s.rows [] tt tt).0;
  named = (load_rows-keys s.rows [] tt tt).1;
  row_keys = v.row_keys;
  in_sync = λ id.
      to_row-of_row (Sql.find row_key id s.rows)
      ∙ ap (Option.map to_row) (sym (lookup-start s.rows id v.row_keys));
}

-- A state that requests, health passes and restarts lead to, in which every row was written.
pub data Runs : Nodes → Type 0 where
  empty : Runs (record { nodes = []; rows = [] })
  registers :
      {s : Nodes} (body : Option Node) (now : Time)
      → Runs s
      → Runs (handle_register true body now s).0
  beats :
      {s : Nodes} (id : Option String) (now : Time)
      → Runs s
      → Runs (handle_heartbeat true id now s).0
  removes : {s : Nodes} (id : String) → Runs s → Runs (handle_node_by_id true id s).0
  checks : {s : Nodes} (now : Time) → Runs s → Runs (check_nodes_health (λ id. true) now s)
  restarts : {s : Nodes} → Runs s → Runs (start s.rows)

pub Runs-Mirrors : {s : Nodes} → Runs s → Mirrors s
Runs-Mirrors empty = record {
  keys = tt;
  named = tt;
  row_keys = tt;
  in_sync = λ id. unfold Sql.find lookup in refl;
}
Runs-Mirrors (registers {s} body now r) = register-Mirrors body now s (Runs-Mirrors r)
Runs-Mirrors (beats {s} id now r) = heartbeat-Mirrors id now s (Runs-Mirrors r)
Runs-Mirrors (removes {s} id r) = by_id-Mirrors id s (Runs-Mirrors r)
Runs-Mirrors (checks {s} now r) = check-Mirrors now s (Runs-Mirrors r)
Runs-Mirrors (restarts {s} r) = start-Mirrors s (Runs-Mirrors r)

-- what the table keeps of a node: the time in whole seconds
unfoldable pub restored : Node → Node
restored n = record n { last_seen = n.last_seen / second * second }

-- After any requests that do not overlap, health passes and restarts, in which every row was written,
-- a restart has the same nodes under the same identifiers, and no others; each with the time of its last heartbeat
-- cut to whole seconds, and otherwise as it was.
pub restart_restores_nodes :
    (s : Nodes) (id : String)
    → Runs s
    → lookup id (start s.rows).nodes ≡ Option.map restored (lookup id s.nodes)
restart_restores_nodes s id r =
    let v = Runs-Mirrors r in
    lookup-start s.rows id v.row_keys
    ∙ ap (Option.map of_row) (v.in_sync id)
    ∙ both (lookup id s.nodes)
  where
    both : (o : Option Node) → Option.map of_row (Option.map to_row o) ≡ Option.map restored o
    both none = refl
    both (some n) = unfold of_row to_row restored in refl
