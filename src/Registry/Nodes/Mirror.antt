-- ===== src/Registry/Nodes/Mirror.antt =====
-- control-plane/registry/main.go and store.go: the table mirrors the nodes while every row is
-- written.
use mathlib.Core.Option
use mathlib.Core.Option.{none-ne-some}
use tiny_aws.Prelude.{
  String, Bool, true, false, ◌≡◌, refl, sym, ap, ◌∙◌, subst, Option, none, some, List, [], ◌∷◌,
  if◌then◌else◌, All, Bool-cases, inl, inr, ◌==◌, eq_iff, eq_refl, ◌&&◌,
}
use tiny_aws.Go.Map.{
  GoMap, lookup, insert, delete, UniqueKeys, lookup-insert, lookup-delete, insert-UniqueKeys,
  delete-UniqueKeys, All-insert, All-delete,
}
use tiny_aws.Go.Time.{Time}
use tiny_aws.Sql
use tiny_aws.Sql.Laws.{Unique, find-upsert, find-remove, Unique-upsert, Unique-remove}
use tiny_aws.Registry.Nodes.{
  Node, NodeRow, Nodes, row_key, to_row, save, remove, Verdict, prune, keep, mark, verdict,
  entry_after, rows_after, check, check_nodes_health, is_older, prune_age, stale_age,
}
use tiny_aws.Registry.Nodes.Health.{left_by, left_of, lookup-check}

-- A node stands under its own identifier.
abbrev pub IsNamed : String × Node → Type 0
IsNamed (id, n) = n.id ≡ id

-- The table holds the row of each node, and no other.
pub record Mirrors (s : Nodes) : Type 0 where
  pub keys : UniqueKeys s.nodes
  pub named : All IsNamed s.nodes
  pub row_keys : Unique row_key s.rows
  pub in_sync : (id : String) → Sql.find row_key id s.rows ≡ Option.map to_row (lookup id s.nodes)

abbrev put : Node → Nodes → Nodes
put n s = record { nodes = insert n.id n s.nodes; rows = (save true n s.rows).0 }

if_map {ℓ κ} :
    {A : Type ℓ} {B : Type κ} (f : A → B) (b : Bool) (x y : Option A)
    → (if b then Option.map f x else Option.map f y) ≡ Option.map f (if b then x else y)
if_map f true x y = refl
if_map f false x y = refl

pub put-Mirrors : (n : Node) (s : Nodes) → Mirrors s → Mirrors (put n s)
unfolding save Sql.exec
put-Mirrors n s v = record {
  keys = insert-UniqueKeys n.id n s.nodes v.keys;
  named = All-insert IsNamed n.id n s.nodes refl v.named;
  row_keys = Unique-upsert row_key (to_row n) s.rows v.row_keys;
  in_sync = λ id.
      find-upsert row_key (to_row n) id s.rows
      ∙ rw (lookup-insert n.id id n s.nodes) (
          unfold to_row in
          rw (v.in_sync id) (if_map to_row (n.id == id) (some n) (lookup id s.nodes)));
}

abbrev drop_node : String → Nodes → Nodes
drop_node id s = record { nodes = delete id s.nodes; rows = (remove true id s.rows).0 }

pub drop_node-Mirrors : (id : String) (s : Nodes) → Mirrors s → Mirrors (drop_node id s)
unfolding remove Sql.exec
drop_node-Mirrors id s v = record {
  keys = delete-UniqueKeys id s.nodes v.keys;
  named = All-delete IsNamed id s.nodes v.named;
  row_keys = Unique-remove row_key id s.rows v.row_keys;
  in_sync = λ k.
      find-remove row_key id k s.rows
      ∙ rw (lookup-delete id k s.nodes)
          (rw (v.in_sync k) (if_map to_row (id == k) none (lookup k s.nodes)));
}

-- A verdict on a node keeps its identifier.
abbrev IsFor : String → Verdict → Type 0
IsFor id prune = Unit
IsFor id keep = Unit
IsFor id (mark n) = n.id ≡ id

verdict-IsFor : (now : Time) (id : String) (n : Node) → n.id ≡ id → IsFor id (verdict now n)
unfolding verdict
verdict-IsFor now id n e = elim (Bool-cases (is_older prune_age now n && n.status == "unhealthy")) [
  | inl p ↦ rw p tt
  | inr p ↦ elim (Bool-cases (is_older stale_age now n)) [
    | inl q ↦ rw (p, q) e
    | inr q ↦ rw (p, q) tt
  ]
]

find-rows_after :
    (id k : String) (n : Node) (v : Verdict) (rows : List NodeRow)
    → IsFor id v
    → Sql.find row_key id rows ≡ some (to_row n)
    → Sql.find row_key k (rows_after true id v rows)
      ≡ (if id == k then Option.map to_row (left_by n v) else Sql.find row_key k rows)
unfolding remove save Sql.exec
find-rows_after id k n prune rows f h = find-remove row_key id k rows
find-rows_after id k n keep rows f h = elim (Bool-cases (id == k)) [
  | inl e ↦ rw e (subst (λ x. Sql.find row_key x rows ≡ some (to_row n)) ((eq_iff id k).0 e) h)
  | inr e ↦ rw e refl
]
find-rows_after id k n (mark n') rows f h =
    find-upsert row_key (to_row n') k rows ∙ (unfold to_row in rw f refl)

Unique-rows_after :
    (id : String) (v : Verdict) (rows : List NodeRow)
    → Unique row_key rows
    → Unique row_key (rows_after true id v rows)
unfolding remove save Sql.exec
Unique-rows_after id prune rows u = Unique-remove row_key id rows u
Unique-rows_after id keep rows u = u
Unique-rows_after id (mark n) rows u = Unique-upsert row_key (to_row n) rows u

-- the row of a node after a pass
abbrev row_left : Time → Option Node → Option NodeRow → Option NodeRow
row_left now none old = old
row_left now (some n) old = Option.map to_row (left_by n (verdict now n))

find-check :
    (now : Time) (k : String) (m : GoMap Node) (rows : List NodeRow)
    → UniqueKeys m
    → All IsNamed m
    → ((id : String) (n : Node) → lookup id m ≡ some n → Sql.find row_key id rows ≡ some (to_row n))
    → Sql.find row_key k (check (λ id. true) now m rows).1
      ≡ row_left now (lookup k m) (Sql.find row_key k rows)
unfolding lookup check
find-check now k [] rows u named sync = refl
find-check now k ((id, n) ∷ m) rows (fresh, u) (same, named) sync =
    find-check now k m (rows_after true id v rows) u named kept ∙ elim (Bool-cases (id == k)) [
      | inl e ↦
          rw (e, after k) (rw (subst (λ x. lookup x m ≡ none) ((eq_iff id k).0 e) fresh, e) refl)
      | inr e ↦ rw (e, after k) (rw e refl)
    ]
  where
    v : Verdict
    v = verdict now n

    after :
        (j : String)
        → Sql.find row_key j (rows_after true id v rows)
          ≡ (if id == j then Option.map to_row (left_by n v) else Sql.find row_key j rows)
    after j =
        find-rows_after id j n v rows (verdict-IsFor now id n same)
          (sync id n (rw (eq_refl id) refl))

    kept :
        (j : String) (n' : Node)
        → lookup j m ≡ some n'
        → Sql.find row_key j (rows_after true id v rows) ≡ some (to_row n')
    kept j n' e = elim (Bool-cases (id == j)) [
      | inl p ↦
          absurd
            (none-ne-some n' (sym (subst (λ x. lookup x m ≡ none) ((eq_iff id j).0 p) fresh) ∙ e))
      | inr p ↦ after j ∙ rw p (sync j n' (rw p e))
    ]

pub check-keys :
    (saves : String → Bool) (now : Time) (m : GoMap Node) (rows : List NodeRow)
    → UniqueKeys m
    → All IsNamed m
    → UniqueKeys (check saves now m rows).0 × All IsNamed (check saves now m rows).0
unfolding check
check-keys saves now [] rows u named = (tt, tt)
check-keys saves now ((id, n) ∷ m) rows (fresh, u) (same, named) =
    let rows' = rows_after (saves id) id (verdict now n) rows in
    let (u', named') = check-keys saves now m rows' u named in
    entry (verdict now n) (check saves now m rows').0 (verdict-IsFor now id n same)
      (lookup-check saves now id m rows' u ∙ ap (left_of now) fresh) u' named'
  where
    entry :
        (v : Verdict) (rest : GoMap Node)
        → IsFor id v
        → lookup id rest ≡ none
        → UniqueKeys rest
        → All IsNamed rest
        → UniqueKeys (entry_after id n v rest) × All IsNamed (entry_after id n v rest)
    entry prune rest f fresh' u' h = (u', h)
    entry keep rest f fresh' u' h = ((fresh', u'), (same, h))
    entry (mark n') rest f fresh' u' h = ((fresh', u'), (f, h))

check-Unique :
    (now : Time) (m : GoMap Node) (rows : List NodeRow)
    → Unique row_key rows
    → Unique row_key (check (λ id. true) now m rows).1
unfolding check
check-Unique now [] rows u = u
check-Unique now ((id, n) ∷ m) rows u =
    check-Unique now m (rows_after true id (verdict now n) rows)
      (Unique-rows_after id (verdict now n) rows u)

pub check-Mirrors :
    (now : Time) (s : Nodes) → Mirrors s → Mirrors (check_nodes_health (λ id. true) now s)
unfolding check_nodes_health
check-Mirrors now s v = record {
  keys = (check-keys (λ id. true) now s.nodes s.rows v.keys v.named).0;
  named = (check-keys (λ id. true) now s.nodes s.rows v.keys v.named).1;
  row_keys = check-Unique now s.nodes s.rows v.row_keys;
  in_sync = λ id.
      find-check now id s.nodes s.rows v.keys v.named (λ k n e. v.in_sync k ∙ rw e)
      ∙ rw (v.in_sync id) (left_row (lookup id s.nodes))
      ∙ ap (Option.map to_row) (sym (lookup-check (λ k. true) now id s.nodes s.rows v.keys));
}
  where
    left_row :
        (o : Option Node) → row_left now o (Option.map to_row o) ≡ Option.map to_row (left_of now o)
    left_row none = refl
    left_row (some n) = refl
