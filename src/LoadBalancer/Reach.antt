-- ===== src/LoadBalancer/Reach.antt =====
-- data-plane/networking/load-balancer/main.go with control-plane/registry: from the registration of
-- a node to the requests that it gets.
use mathlib.Core.Option
use mathlib.Core.Option.{none-ne-some, some-injective}
use tiny_aws.Prelude.{
  ℕ, zero, suc, ◌+◌, ◌<◌, String, Bool, true, ◌≡◌, refl, sym, ap, ◌∙◌, subst, Option, none, some,
  List, [], ◌∷◌, ◌++◌, map, arith, ◌==◌, select, length, get_elem?, Bool-cases, inl, inr, eq_iff,
  eq_refl,
}
use tiny_aws.Go.Fmt.{u64_mod}
use tiny_aws.Go.Map.{GoMap, lookup, insert, lookup-insert}
use tiny_aws.Go.Map.Order.{IsSameMap}
use tiny_aws.Go.Time.{Time}
use tiny_aws.Registry.Nodes
use tiny_aws.Registry.Nodes.{by_role, registered, handle_register, handle_nodes}
use tiny_aws.Registry.Routes.{RegistryState, Context, list_nodes, handle, refusal_for, serve}
use tiny_aws.LoadBalancer.{
  Node, Service, Balancer, agent_url, agent_target, agent_targets, service_targets, or_no_services,
  refresh,
}
use tiny_aws.LoadBalancer.Choice.{healthy_targets, targets_of_requests, requests_reach_all_targets}
use tiny_aws.LoadBalancer.Sync.{node_of, entry_of, nodes_of_reply, decoded}

module _ {ℓ} {A : Type ℓ} where
  -- The list has the element at some place.
  abbrev Has : A → List A → Type ℓ
  Has x xs = (i : ℕ) × (i < length xs) × (get_elem? xs i ≡ some x)

  Has-head : (x : A) (xs : List A) → Has x (x ∷ xs)
  Has-head x xs = (0, omega arith, refl)

  Has-tail : (x y : A) (xs : List A) → Has x xs → Has x (y ∷ xs)
  Has-tail x y xs (i, lt, e) = (suc i, omega arith, e)

  Has-append : (x : A) (xs ys : List A) → Has x xs → Has x (xs ++ ys)
  Has-append x [] ys (i, lt, e) = absurd (omega arith)
  Has-append x (y ∷ xs) ys (zero, lt, e) = (0, omega arith, e)
  Has-append x (y ∷ xs) ys (suc i, lt, e) =
      Has-tail x y (xs ++ ys) (Has-append x xs ys (i, omega arith, e))

  Has-select : (p : A → Bool) (x : A) (xs : List A) → p x ≡ true → Has x xs → Has x (select p xs)
  unfolding select
  Has-select p x [] px (i, lt, e) = absurd (omega arith)
  Has-select p x (y ∷ xs) px (zero, lt, e) =
      rw (subst (λ z. p z ≡ true) (sym (some-injective _ _ e)) px) (0, omega arith, e)
  Has-select p x (y ∷ xs) px (suc i, lt, e) =
      let rest : Has x (select p xs) = Has-select p x xs px (i, omega arith, e) in
      elim (Bool-cases (p y)) [ inl q ↦ rw q (Has-tail x y (select p xs) rest) | inr q ↦ rw q rest ]

lookup-by_role :
    (role id : String) (m : GoMap Nodes.Node) (n : Nodes.Node)
    → n.role ≡ role
    → lookup id m ≡ some n
    → lookup id (by_role role m) ≡ some n
unfolding lookup by_role
lookup-by_role role id [] n r e = e
lookup-by_role role id ((k, x) ∷ m) n r e = elim (Bool-cases (k == id)) [
  | inl p ↦
      let same : x ≡ n = some-injective _ _ (rw p at e) in
      let kept : (x.role == role) ≡ true =
        ap (λ y. y.role == role) same ∙ ap (λ t. t == role) r ∙ eq_refl role in
      rw kept (rw p (ap some same))
  | inr p ↦
      let rest = lookup-by_role role id m n r (rw p at e) in
      elim (Bool-cases (x.role == role)) [ inl q ↦ rw q (rw p rest) | inr q ↦ rw q rest ]
]

lookup-entry_of :
    (id : String) (m : GoMap Nodes.Node) {n : Nodes.Node}
    → lookup id m ≡ some n
    → lookup id (map entry_of m) ≡ some (node_of n)
unfolding lookup
lookup-entry_of id [] e = absurd (none-ne-some _ e)
lookup-entry_of id ((k, x) ∷ m) e = elim (Bool-cases (k == id)) [
  | inl p ↦ rw p (ap (Option.map node_of) (rw p at e))
  | inr p ↦ rw p (lookup-entry_of id m (rw p at e))
]

-- The decoded answer of a registry that lets the request pass.
listed :
    (parse : String → Option Time) (c : Context) (g : RegistryState)
    → refusal_for parse c "" (list_nodes "compute") g ≡ none
    → decoded nodes_of_reply (serve parse c "" (list_nodes "compute") g)
      ≡ some (map entry_of (by_role "compute" g.nodes.nodes))
unfolding serve handle handle_nodes
listed parse c g passes = rw passes refl

module _ (probe : String → Bool) (agent_addr : String) where
  agent_targets-Has :
      (id : String) (seen : GoMap Node) (n : Node)
      → lookup id seen ≡ some n
      → n.status ≡ "healthy"
      → Has (agent_target probe agent_addr id n) (agent_targets probe agent_addr seen)
  unfolding lookup agent_targets
  agent_targets-Has id [] n e h = absurd (none-ne-some _ e)
  agent_targets-Has id ((k, x) ∷ seen) n e h = elim (Bool-cases (k == id)) [
    | inl p ↦
        let same : x ≡ n = some-injective _ _ (rw p at e) in
        let named : k ≡ id = (eq_iff k id).0 p in
        let alive : (x.status == "healthy") ≡ true =
          ap (λ y. y.status == "healthy") same ∙ ap (λ t. t == "healthy") h in
        rw alive (
          subst
            (λ t. Has t (agent_target probe agent_addr k x ∷ agent_targets probe agent_addr seen))
            (λ i. agent_target probe agent_addr (named i) (same i))
            (Has-head (agent_target probe agent_addr k x) (agent_targets probe agent_addr seen)))
    | inr p ↦
        let rest = agent_targets-Has id seen n (rw p at e) h in
        elim (Bool-cases (x.status == "healthy")) [
          | inl q ↦ rw q (
              Has-tail (agent_target probe agent_addr id n) (agent_target probe agent_addr k x)
                (agent_targets probe agent_addr seen) rest)
          | inr q ↦ rw q rest
        ]
  ]

  healthy-Has :
      (id : String) (seen : GoMap Node) (services : Option (List Service)) (s : Balancer) (n : Node)
      → lookup id seen ≡ some n
      → n.status ≡ "healthy"
      → probe (agent_url agent_addr n) ≡ true
      → Has
          (agent_target probe agent_addr id n)
          (healthy_targets (refresh probe agent_addr (some seen) services s))
  unfolding refresh
  healthy-Has id seen services s n e h alive =
      let t = agent_target probe agent_addr id n in
      Has-select (λ x. x.healthy) t
        (agent_targets probe agent_addr seen
          ++ service_targets probe agent_addr seen (or_no_services probe agent_addr services))
        (unfold agent_target in alive)
        (Has-append t (agent_targets probe agent_addr seen)
          (service_targets probe agent_addr seen (or_no_services probe agent_addr services))
          (agent_targets-Has id seen n e h))

  -- A compute node registers, whether its row is written or not. At the next refresh the registry
  -- lets the request of the balancer pass, and the node answers its health check; whatever the
  -- services are, and in whatever order the nodes are visited. Then as many successive requests as
  -- there are healthy targets go to the node at least once, while the counter does not wrap.
  pub requests_reach_new_node :
      (parse : String → Option Time) (db_ok : Bool) (n : Nodes.Node) (now : Time) (c : Context)
      (g : RegistryState) (answered seen : GoMap Node) (services : Option (List Service))
      (s : Balancer)
      → (registered n now).role ≡ "compute"
      → let g' = record g { nodes = (handle_register db_ok (some n) now g.nodes).0 } in
        refusal_for parse c "" (list_nodes "compute") g' ≡ none
        → decoded nodes_of_reply (serve parse c "" (list_nodes "compute") g') ≡ some answered
        → IsSameMap seen answered
        → let node = node_of (registered n now) in
          probe (agent_url agent_addr node) ≡ true
          → let s' = refresh probe agent_addr (some seen) services s in
            let count = length (healthy_targets s') in
            s'.counter + count < u64_mod
            → (k : ℕ) × (k < count)
              × (get_elem? (targets_of_requests count s') k
                  ≡ some (some (agent_target probe agent_addr n.id node)))
  unfolding handle_register
  requests_reach_new_node parse db_ok n now c g answered seen services s role passes reply same
        alive room =
      let node = node_of (registered n now) in
      let s' = refresh probe agent_addr (some seen) services s in
      let (i, lt, e) = healthy-Has n.id seen services s node known is_healthy alive in
      let (k, below, got) = requests_reach_all_targets s' i lt room in (k, below, got ∙ ap some e)
    where
      n' : Nodes.Node
      n' = registered n now

      stored : GoMap Nodes.Node
      stored = insert n'.id n' g.nodes.nodes

      found : lookup n.id stored ≡ some n'
      found =
          lookup-insert n'.id n.id n' g.nodes.nodes ∙ (unfold registered in rw (eq_refl n.id) refl)

      known : lookup n.id seen ≡ some (node_of n')
      known =
          same n.id
          ∙ ap (lookup n.id) (some-injective _ _ (sym reply ∙ listed parse c _ passes))
          ∙ lookup-entry_of n.id (by_role "compute" stored)
              (lookup-by_role "compute" n.id stored n' role found)

      is_healthy : (node_of n').status ≡ "healthy"
      is_healthy = unfold node_of registered in refl
