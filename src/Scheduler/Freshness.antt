-- ===== src/Scheduler/Freshness.antt =====
-- control-plane/scheduler/main.go with control-plane/registry/main.go: the heartbeats behind the
-- node that a job is placed on.
mod Examples
use mathlib.Core.Bool.{true≢false}
use mathlib.Core.Option
use mathlib.Core.Option.{none-ne-some, some-injective}
use tiny_aws.Prelude.{
  ℕ, ◌+◌, ◌*◌, ◌≤◌, String, Bool, true, false, ◌&&◌, ◌≡◌, refl, sym, ap, ◌∙◌, subst, Option, none,
  some, List, [], ◌∷◌, map, arith, ◌==◌, eq_iff, eq_refl, if◌then◌else◌, ltb, All, Bool-cases, inl,
  inr,
}
use tiny_aws.Go.Errors.{ok}
use tiny_aws.Go.Map.{GoMap, lookup, values, UniqueKeys, All-lookup}
use tiny_aws.Go.Map.Order.{IsSameMap}
use tiny_aws.Go.Time.{Time, second}
use tiny_aws.Registry.Nodes
use tiny_aws.Registry.Nodes.{Nodes, by_role, check_nodes_health}
use tiny_aws.Registry.Nodes.Health.{after_check, check_by_age}
use tiny_aws.Registry.Nodes.Reach.{Reaches, checks, IsKeyed, Reaches-IsKeyed}
use tiny_aws.Scheduler.Job.{Node, JobRequest}
use tiny_aws.Scheduler.Pick.{NodesAnswer, nodes, is_healthy}
use tiny_aws.Scheduler.Server.{Registry, pick_node}
use tiny_aws.Scheduler.Placement.{IsSound, pick_node-IsSound}

-- the fields of a node that the scheduler decodes
unfoldable pub node_of : Nodes.Node → Node
node_of n = record { id = n.id; role = n.role; status = n.status }

-- A node that is filtered by its role was there, and has the role.
lookup-by_role :
    (role id : String) (m : GoMap Nodes.Node) (n : Nodes.Node)
    → UniqueKeys m
    → lookup id (by_role role m) ≡ some n
    → (lookup id m ≡ some n) × (n.role ≡ role)
unfolding lookup by_role
lookup-by_role role id [] n u e = absurd (none-ne-some _ e)
lookup-by_role role id ((k, x) ∷ m) n (fresh, u) e = elim (Bool-cases (x.role == role)) [
  | inl q ↦ elim (Bool-cases (k == id)) [
    | inl p ↦
        let same : x ≡ n = some-injective _ _ (rw (q, p) at e) in
        (rw p (ap some same), subst (λ y. y.role ≡ role) same ((eq_iff x.role role).0 q))
    | inr p ↦ rw p (lookup-by_role role id m n u (rw (q, p) at e))
  ]
  | inr q ↦
      let (found, r) = lookup-by_role role id m n u (rw q at e) in
      elim (Bool-cases (k == id)) [
        | inl p ↦ absurd (
            none-ne-some n (sym (subst (λ i. lookup i m ≡ none) ((eq_iff k id).0 p) fresh) ∙ found))
        | inr p ↦ (rw p found, r)
      ]
]

-- What holds of each pair that a map finds holds of its values.
All-values :
    (P : Node → Type 0) (m : GoMap Nodes.Node)
    → UniqueKeys m
    → ((k : String) (n : Nodes.Node) → lookup k m ≡ some n → P (node_of n))
    → All P (map node_of (values m))
unfolding lookup values
All-values P [] u h = tt
All-values P ((k, x) ∷ m) (fresh, u) h = (
  h k x (rw (eq_refl k) refl),
  All-values P m u (λ j n e. elim (Bool-cases (k == j)) [
    | inl p ↦
        absurd (none-ne-some n (sym (subst (λ i. lookup i m ≡ none) ((eq_iff k j).0 p) fresh) ∙ e))
    | inr p ↦ h j n (rw p e)
  ]),
)

-- A node that a pass leaves healthy had a heartbeat within thirty seconds.
after_check-fresh :
    (now : Time) (o : Option Nodes.Node) (n : Nodes.Node)
    → after_check now o ≡ some n
    → (n.status == "healthy") ≡ true
    → now ≤ n.last_seen + 30 * second
unfolding after_check
after_check-fresh now none n e h = absurd (none-ne-some n e)
after_check-fresh now (some x) n e h = elim (Bool-cases (ltb (x.last_seen + 30 * second) now)) [
  | inl old ↦ elim (Bool-cases (ltb (x.last_seen + 300 * second) now && x.status == "unhealthy")) [
    | inl gone ↦ absurd (none-ne-some n (rw (old, gone) at e))
    | inr here ↦
        let q =
          ap (λ (y : Nodes.Node). y.status == "healthy")
            (some-injective _ _ (rw (old, here) at e)) in
        absurd (true≢false (sym h ∙ sym q))
  ]
  | inr young ↦
      let same : x ≡ n = some-injective _ _ (rw young at e) in
      subst (λ y. now ≤ y.last_seen + 30 * second) same (ground (arith, young))
]

module _ (s : Nodes) where
  -- A compute node of the registry, under its identifier, as the scheduler reads it.
  abbrev IsListed : Node → Type 0
  IsListed x =
      (n : Nodes.Node) × (lookup x.id s.nodes ≡ some n) × (n.role ≡ "compute") × (node_of n ≡ x)

  listed :
      (seen : GoMap Nodes.Node)
      → IsKeyed s.nodes
      → UniqueKeys seen
      → IsSameMap seen (by_role "compute" s.nodes)
      → All IsListed (map node_of (values seen))
  unfolding node_of
  listed seen (u, named) unique same = All-values IsListed seen unique (λ k n e.
      let (found, role) = lookup-by_role "compute" k s.nodes n u (sym (same k) ∙ e) in
      (
        n,
        subst (λ id. lookup id s.nodes ≡ some n) (sym (All-lookup _ k s.nodes named found)) found,
        role,
        refl,
      ))

-- After a health pass of the registry at `now`, from any state that it reaches, whatever rows can
-- be written: the scheduler gets the compute nodes, in any order, and picks one, for a request with
-- or without an instance. It is a compute node of the registry under that identifier, it is
-- healthy, and its last heartbeat is at most thirty seconds before the pass.
pub picked_node_fresh :
    (s : Nodes) (saves : String → Bool) (now : Time) (seen : GoMap Nodes.Node) (reg : Registry)
    (req : JobRequest) (counter : ℕ) {n : Node}
    → Reaches s
    → let s' = check_nodes_health saves now s in
      UniqueKeys seen
      → IsSameMap seen (by_role "compute" s'.nodes)
      → reg.nodes_answer ≡ nodes (map node_of (values seen))
      → (pick_node reg req counter).0 ≡ ok n
      → (m : Nodes.Node) × (lookup n.id s'.nodes ≡ some m)
        × (m.role ≡ "compute")
        × (m.status ≡ "healthy")
        × (now ≤ m.last_seen + 30 * second)
unfolding node_of
picked_node_fresh s saves now seen reg req counter {n} reach unique same answer picked =
    let s' = check_nodes_health saves now s in
    let ((m, found, role, read), healthy) = sound in
    let alive : (m.status == "healthy") ≡ true =
      ap (λ (x : Node). x.status == "healthy") read ∙ (unfold is_healthy in healthy) in
    (
      m,
      found,
      role,
      (eq_iff m.status "healthy").0 alive,
      after_check-fresh now (lookup n.id s.nodes) m
          (sym (check_by_age saves now n.id s (Reaches-IsKeyed reach).0) ∙ found) alive,
    )
  where
    sound : IsSound (IsListed (check_nodes_health saves now s)) (ok n)
    sound = subst (IsSound (IsListed (check_nodes_health saves now s))) picked (
        pick_node-IsSound (IsListed (check_nodes_health saves now s)) reg req counter (
          rw answer (
            listed (check_nodes_health saves now s) seen (Reaches-IsKeyed (checks saves now reach))
              unique same)))
