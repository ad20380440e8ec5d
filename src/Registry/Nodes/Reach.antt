-- ===== src/Registry/Nodes/Reach.antt =====
-- control-plane/registry/main.go: the map of nodes after any history, whatever writes of rows fail.
use tiny_aws.Prelude.{
  String, Bool, ◌≡◌, refl, subst, Option, none, some, [], All, Bool-cases, inl, inr, ◌==◌,
}
use tiny_aws.Go.Map.{
  GoMap, lookup, insert, UniqueKeys, insert-UniqueKeys, delete-UniqueKeys, All-insert, All-delete,
  All-lookup,
}
use tiny_aws.Go.Time.{Time}
use tiny_aws.Registry.Nodes.{
  Node, Nodes, load_all, start, registered, handle_register, beat, heartbeat_of, handle_heartbeat,
  delete_node, handle_node_by_id, check_nodes_health,
}
use tiny_aws.Registry.Nodes.Mirror.{IsNamed, check-keys}
use tiny_aws.Registry.Nodes.Restart.{load_rows-keys}

-- Each identifier has one node, which has that identifier.
abbrev pub IsKeyed : GoMap Node → Type 0
IsKeyed m = UniqueKeys m × All IsNamed m

-- A state that requests, health passes and restarts lead to.
pub data Reaches : Nodes → Type 0 where
  empty : Reaches (record { nodes = []; rows = [] })
  registers :
      {s : Nodes} (ok : Bool) (body : Option Node) (now : Time)
      → Reaches s
      → Reaches (handle_register ok body now s).0
  beats :
      {s : Nodes} (ok : Bool) (id : Option String) (now : Time)
      → Reaches s
      → Reaches (handle_heartbeat ok id now s).0
  removes :
      {s : Nodes} (ok : Bool) (id : String) → Reaches s → Reaches (handle_node_by_id ok id s).0
  checks :
      {s : Nodes} (saves : String → Bool) (now : Time)
      → Reaches s
      → Reaches (check_nodes_health saves now s)
  restarts : {s : Nodes} → Reaches s → Reaches (start s.rows)

insert-IsKeyed : (n : Node) (m : GoMap Node) → IsKeyed m → IsKeyed (insert n.id n m)
insert-IsKeyed n m (u, named) =
    (insert-UniqueKeys n.id n m u, All-insert IsNamed n.id n m refl named)

beat-IsKeyed :
    (ok : Bool) (id : String) (now : Time) (o : Option Node) (s : Nodes)
    → lookup id s.nodes ≡ o
    → IsKeyed s.nodes
    → IsKeyed (heartbeat_of ok id now o s).0.nodes
unfolding heartbeat_of beat
beat-IsKeyed ok id now none s e v = v
beat-IsKeyed ok id now (some n) s e v =
    subst (λ k. IsKeyed (insert k (beat n now) s.nodes)) (All-lookup IsNamed id s.nodes v.1 e)
      (insert-IsKeyed (beat n now) s.nodes v)

delete-IsKeyed :
    (ok : Bool) (id : String) (o : Option Node) (s : Nodes)
    → IsKeyed s.nodes
    → IsKeyed (delete_node ok id o s).0.nodes
unfolding delete_node
delete-IsKeyed ok id none s v = v
delete-IsKeyed ok id (some n) s (u, named) =
    (delete-UniqueKeys id s.nodes u, All-delete IsNamed id s.nodes named)

pub Reaches-IsKeyed : {s : Nodes} → Reaches s → IsKeyed s.nodes
unfolding handle_register handle_heartbeat handle_node_by_id check_nodes_health start load_all
Reaches-IsKeyed empty = (tt, tt)
Reaches-IsKeyed (registers ok none now r) = Reaches-IsKeyed r
Reaches-IsKeyed (registers {s} ok (some n) now r) =
    insert-IsKeyed (registered n now) s.nodes (Reaches-IsKeyed r)
Reaches-IsKeyed (beats ok none now r) = Reaches-IsKeyed r
Reaches-IsKeyed (beats {s} ok (some id) now r) =
    beat-IsKeyed ok id now (lookup id s.nodes) s refl (Reaches-IsKeyed r)
Reaches-IsKeyed (removes {s} ok id r) = elim (Bool-cases (id == "")) [
  | inl e ↦ rw e (Reaches-IsKeyed r)
  | inr e ↦ rw e (delete-IsKeyed ok id (lookup id s.nodes) s (Reaches-IsKeyed r))
]
Reaches-IsKeyed (checks {s} saves now r) =
    let (u, named) = Reaches-IsKeyed r in check-keys saves now s.nodes s.rows u named
Reaches-IsKeyed (restarts {s} r) = load_rows-keys s.rows [] tt tt
