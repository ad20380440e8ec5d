-- ===== src/Scheduler/Placement.antt =====
-- control-plane/scheduler/main.go: which nodes get jobs.
use mathlib.Core.Option.{none-ne-some, some-injective}
use tiny_aws.Prelude.{
  All, ◌<◌, ◌≢◌, eq_false, length, ℕ, String, true, ◌&&◌, ◌≡◌, refl, subst, Option, none, some,
  List, [], ◌∷◌, arith, ◌==◌, eq_iff, eqb, leb, select, All-select, Bool-cases, inl, inr,
}
use tiny_aws.Go.Errors.{Result, ok, err}
use tiny_aws.Go.RoundRobin.Fairness.{All-round_robin}
use tiny_aws.Go.Http.{json, status_ok}
use tiny_aws.Go.Map.{values}
use tiny_aws.Scheduler.Job.{Job, Node, Instance, JobRequest}
use tiny_aws.Scheduler.Pick.{
  NodesAnswer, nodes, fetch_compute_nodes, InstanceAnswer, is_healthy, or_error, pick_from,
  pick_healthy_among, pick_healthy_compute_node, find_node, node_of_instance, node_for_decoded,
  pick_node_for_instance, answer,
}
use tiny_aws.Scheduler.Server.{
  Scheduler, job_list, is_running_on, is_listed, list_jobs, Registry, pick_node,
}

module _ (P : Node → Type 0) where
  -- `P` holds of the nodes that the registry lists.
  abbrev pub ListsOnly : NodesAnswer → Type 0
  ListsOnly (nodes ns) = All P ns
  ListsOnly _ = Unit

  abbrev FetchesOnly : Result (List Node) → Type 0
  FetchesOnly (err e) = Unit
  FetchesOnly (ok ns) = All P ns

  -- A choice that is made is a healthy node of those.
  abbrev pub IsSound : Result Node → Type 0
  IsSound (err e) = Unit
  IsSound (ok n) = P n × (is_healthy n ≡ true)

  abbrev IsGood : Node → Type 0
  IsGood n = P n × (is_healthy n ≡ true)

  fetch-FetchesOnly : (a : NodesAnswer) → ListsOnly a → FetchesOnly (fetch_compute_nodes a)
  unfolding fetch_compute_nodes
  fetch-FetchesOnly NodesAnswer.no_request h = tt
  fetch-FetchesOnly NodesAnswer.unreachable h = tt
  fetch-FetchesOnly NodesAnswer.unreadable h = tt
  fetch-FetchesOnly NodesAnswer.undecodable h = tt
  fetch-FetchesOnly (nodes ns) h = h

  select-IsGood : (ns : List Node) → All P ns → All IsGood (select is_healthy ns)
  unfolding select
  select-IsGood [] h = tt
  select-IsGood (n ∷ ns) (h, hs) = elim (Bool-cases (is_healthy n)) [
    | inl e ↦ rw e ((h, e), select-IsGood ns hs)
    | inr e ↦ rw e (select-IsGood ns hs)
  ]

  or_error-IsSound :
      (e : String) (o : Option Node) → ((n : Node) → o ≡ some n → IsGood n) → IsSound (or_error e o)
  or_error-IsSound e none h = tt
  or_error-IsSound e (some n) h = h n refl

  pick_among-IsSound :
      (counter : ℕ) (r : Result (List Node))
      → FetchesOnly r
      → IsSound (pick_healthy_among counter r).0
  unfolding pick_healthy_among pick_from
  pick_among-IsSound counter (err e) h = tt
  pick_among-IsSound counter (ok ns) h =
      or_error-IsSound _ _
        (λ n e. All-round_robin IsGood counter (select is_healthy ns) (select-IsGood ns h) e)

  find_node-IsGood :
      (id : String) (ns : List Node) {n : Node} → All P ns → find_node id ns ≡ some n → IsGood n
  unfolding find_node
  find_node-IsGood id [] h e = absurd (none-ne-some _ e)
  find_node-IsGood id (x ∷ ns) {n} (h, hs) e = elim (Bool-cases (x.id == id && is_healthy x)) [
    | inl p ↦ subst IsGood (some-injective _ _ (rw p at e)) (h, ground arith)
    | inr p ↦ find_node-IsGood id ns hs (rw p at e)
  ]

  of_instance-IsSound :
      (inst : Instance) (r : Result (List Node)) → FetchesOnly r → IsSound (node_of_instance inst r)
  unfolding node_of_instance
  of_instance-IsSound inst (err e) h = tt
  of_instance-IsSound inst (ok ns) h =
      or_error-IsSound _ (find_node inst.node_id ns) (λ n e. find_node-IsGood inst.node_id ns h e)

  decoded-IsSound :
      (o : Option Instance) (a : NodesAnswer) → ListsOnly a → IsSound (node_for_decoded o a)
  unfolding node_for_decoded
  decoded-IsSound none a h = tt
  decoded-IsSound (some inst) a h = elim (Bool-cases (inst.status == "terminated")) [
    | inl e ↦ rw e tt
    | inr e ↦ rw e (of_instance-IsSound inst _ (fetch-FetchesOnly a h))
  ]

  for_instance-IsSound :
      (i : InstanceAnswer) (a : NodesAnswer) → ListsOnly a → IsSound (pick_node_for_instance i a)
  unfolding pick_node_for_instance
  for_instance-IsSound InstanceAnswer.no_request a h = tt
  for_instance-IsSound InstanceAnswer.unreachable a h = tt
  for_instance-IsSound (answer code body o) a h = elim (Bool-cases (eqb code 404)) [
    | inl e ↦ rw e tt
    | inr e ↦ elim (Bool-cases (leb 400 code)) [
      | inl e' ↦ rw (e, e') tt
      | inr e' ↦ rw (e, e') (decoded-IsSound o a h)
    ]
  ]

  pub pick_node-IsSound :
      (reg : Registry) (req : JobRequest) (counter : ℕ)
      → ListsOnly reg.nodes_answer
      → IsSound (pick_node reg req counter).0
  unfolding pick_node pick_healthy_compute_node
  pick_node-IsSound reg req counter h = elim (Bool-cases (req.instance_id == "")) [
    | inl e ↦ rw e (pick_among-IsSound counter _ (fetch-FetchesOnly reg.nodes_answer h))
    | inr e ↦ rw e (for_instance-IsSound reg.instance_answer reg.nodes_answer h)
  ]

listed-IsPending :
    (node : String) (j : Job)
    → node ≢ ""
    → is_listed node "pending" j ≡ true
    → (j.node_id ≡ node) × (j.status ≡ "pending")
unfolding is_listed
listed-IsPending node j named h = (
  (eq_iff j.node_id node).0 (ground (arith, eq_false node "" named, h)),
  (eq_iff j.status "pending").0 (ground (arith, h)),
)

-- An agent that polls for the pending jobs of its node gets only pending jobs of that node, and it
-- gets any only while fewer jobs run on the node than the limit allows.
pub poll_respects_limit :
    (max_jobs : ℕ) (node : String) (s : Scheduler)
    → node ≢ ""
    → (l : List Job) × (list_jobs max_jobs node "pending" s ≡ json status_ok (job_list l))
      × All (λ j. (j.node_id ≡ node) × (j.status ≡ "pending")) l
      × (l ≢ []
          → length (select (λ j. j.node_id == node && j.status == "running") (values s.jobs))
            < max_jobs)
unfolding list_jobs is_running_on
poll_respects_limit max_jobs node s named =
    elim (Bool-cases (leb max_jobs (length (select (is_running_on node) (values s.jobs))))) [
      | inl full ↦ ([], rw (eq_false node "" named) (rw full refl), tt, λ ne. absurd (ne refl))
      | inr room ↦ (
        select (is_listed node "pending") (values s.jobs),
        rw (eq_false node "" named) (rw room refl),
        All-select (λ j. (j.node_id ≡ node) × (j.status ≡ "pending")) (is_listed node "pending")
            (values s.jobs) (λ j h. listed-IsPending node j named h),
        λ ne. ground (arith, room),
      )
    ]
