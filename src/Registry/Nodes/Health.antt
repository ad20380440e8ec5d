-- ===== src/Registry/Nodes/Health.antt =====
-- control-plane/registry/main.go, `checkNodesHealth`: what one pass does to a node.
use tiny_aws.Prelude.{
  ◌+◌, ◌*◌, ◌≤◌, String, Bool, true, false, ◌&&◌, ◌≡◌, refl, ap, ◌∙◌, subst, Option, none, some,
  List, [], ◌∷◌, arith, if◌then◌else◌, ltb, ◌==◌, Bool-cases, inl, inr, eq_iff, eq_refl,
}
use tiny_aws.Go.Map.{GoMap, lookup, insert, UniqueKeys, lookup-insert, insert-UniqueKeys}
use tiny_aws.Go.Time.{Time, second}
use tiny_aws.Registry.Nodes.{
  Node, Nodes, NodeRow, Verdict, prune, keep, mark, verdict, entry_after, rows_after, check,
  check_nodes_health, is_older, beat, heartbeat_of, handle_heartbeat,
}

-- What is left of a node after a verdict.
abbrev pub left_by : Node → Verdict → Option Node
left_by n prune = none
left_by n keep = some n
left_by n (mark n') = some n'

lookup-head :
    (id : String) (n : Node) (v : Verdict) (rest : GoMap Node)
    → lookup id rest ≡ none
    → lookup id (entry_after id n v rest) ≡ left_by n v
unfolding lookup
lookup-head id n prune rest h = h
lookup-head id n keep rest h = rw (eq_refl id)
lookup-head id n (mark n') rest h = rw (eq_refl id)

lookup-tail :
    (id k : String) (n : Node) (v : Verdict) (rest : GoMap Node)
    → (id == k) ≡ false
    → lookup k (entry_after id n v rest) ≡ lookup k rest
unfolding lookup
lookup-tail id k n prune rest e = refl
lookup-tail id k n keep rest e = rw e
lookup-tail id k n (mark n') rest e = rw e

abbrev pub left_of : Time → Option Node → Option Node
left_of now none = none
left_of now (some n) = left_by n (verdict now n)

pub lookup-check :
    (saves : String → Bool) (now : Time) (k : String) (nodes : GoMap Node) (rows : List NodeRow)
    → UniqueKeys nodes
    → lookup k (check saves now nodes rows).0 ≡ left_of now (lookup k nodes)
unfolding lookup check
lookup-check saves now k [] rows u = refl
lookup-check saves now k ((id, n) ∷ m) rows (fresh, u) =
    let rows' = rows_after (saves id) id (verdict now n) rows in
    let rest = (check saves now m rows').0 in
    elim (Bool-cases (id == k)) [
      | inl e ↦ rw e (
          subst (λ x. lookup x (entry_after id n (verdict now n) rest) ≡ left_by n (verdict now n))
            ((eq_iff id k).0 e)
            (lookup-head id n (verdict now n) rest
              (lookup-check saves now id m rows' u ∙ ap (left_of now) fresh)))
      | inr e ↦
          rw e (lookup-tail id k n (verdict now n) rest e ∙ lookup-check saves now k m rows' u)
    ]

-- what a pass leaves of a node, from the age of its last heartbeat
unfoldable pub after_check : Time → Option Node → Option Node
after_check now none = none
after_check now (some n) =
    if ltb (n.last_seen + 30 * second) now
    then (if ltb (n.last_seen + 300 * second) now && n.status == "unhealthy"
        then none
        else some (record n { status = "unhealthy" }))
    else some n

left_of-after_check : (now : Time) (o : Option Node) → left_of now o ≡ after_check now o
unfolding after_check verdict is_older
left_of-after_check now none = refl
left_of-after_check now (some n) =
    elim (Bool-cases (ltb (n.last_seen + 300 * second) now && n.status == "unhealthy")) [
      | inl e ↦ let old : ltb (n.last_seen + 30 * second) now ≡ true = ground arith in rw (e, old)
      | inr e ↦ elim (Bool-cases (ltb (n.last_seen + 30 * second) now)) [
        | inl old ↦ rw (e, old)
        | inr young ↦ rw (e, young)
      ]
    ]

-- On a map without repeated keys, a pass leaves a node whose last heartbeat is at most 30 seconds
-- old as it is, marks an older one unhealthy, and removes one that is over five minutes old and was
-- marked before; whichever rows can be written.
pub check_by_age :
    (saves : String → Bool) (now : Time) (id : String) (s : Nodes)
    → UniqueKeys s.nodes
    → lookup id (check_nodes_health saves now s).nodes ≡ after_check now (lookup id s.nodes)
unfolding check_nodes_health
check_by_age saves now id s u =
    lookup-check saves now id s.nodes s.rows u ∙ left_of-after_check now (lookup id s.nodes)

-- A heartbeat at `at` of a known node: a pass within 30 seconds of it, however the writes of rows
-- end, leaves the node healthy and seen at `at`.
pub heartbeat_keeps_healthy :
    (db_ok : Bool) (saves : String → Bool) (at now : Time) (id : String) (n : Node) (s : Nodes)
    → UniqueKeys s.nodes
    → lookup id s.nodes ≡ some n
    → now ≤ at + 30 * second
    → lookup id (check_nodes_health saves now (handle_heartbeat db_ok (some id) at s).0).nodes
      ≡ some (record n { last_seen = at; status = "healthy" })
unfolding handle_heartbeat heartbeat_of
heartbeat_keeps_healthy db_ok saves at now id n s u known soon = rw known (
    check_by_age saves now id (record { nodes = insert id (beat n at) s.nodes; rows = _ })
      (insert-UniqueKeys id (beat n at) s.nodes u)
    ∙ rw (lookup-insert id id (beat n at) s.nodes)
        (rw (eq_refl id) (unfold after_check beat in rw young)))
  where
    young : ltb (at + 30 * second) now ≡ false
    young = ground arith
