-- ===== src/LoadBalancer/Choice.antt =====
-- data-plane/networking/load-balancer/main.go, `nextTarget`: requests go to healthy targets, and
-- reach each of them.
use tiny_aws.Prelude.{
  ℕ, zero, suc, ◌+◌, ◌<◌, true, ◌≡◌, refl, ap, ◌∙◌, Option, some, List, [], ◌∷◌, select, length,
  get_elem?, All-select,
}
use tiny_aws.Go.Fmt.{u64_mod}
use tiny_aws.Go.RoundRobin.{round_robin}
use tiny_aws.Go.RoundRobin.Fairness.{picks, picks_all, All-round_robin}
use tiny_aws.LoadBalancer.{Target, Balancer, next_target}

abbrev pub healthy_targets : Balancer → List Target
healthy_targets s = select (λ t. t.healthy) s.targets

-- the targets of successive requests
unfoldable pub targets_of_requests : ℕ → Balancer → List (Option Target)
targets_of_requests zero s = []
targets_of_requests (suc n) s = let (t, s') = next_target s in t ∷ targets_of_requests n s'

targets_of_requests-picks :
    (n : ℕ) (s : Balancer) → targets_of_requests n s ≡ picks n s.counter (healthy_targets s)
unfolding targets_of_requests picks next_target
targets_of_requests-picks zero s = refl
targets_of_requests-picks (suc n) s =
    ap (λ rest. (round_robin s.counter (healthy_targets s)).0 ∷ rest)
      (targets_of_requests-picks n
        (record s { counter = (round_robin s.counter (healthy_targets s)).1 }))

-- A request goes to a target that was healthy at the last refresh.
pub next_target_healthy :
    (s : Balancer) {t : Target} → (next_target s).0 ≡ some t → t.healthy ≡ true
unfolding next_target
next_target_healthy s e =
    All-round_robin (λ x. x.healthy ≡ true) s.counter (healthy_targets s)
      (All-select (λ x. x.healthy ≡ true) (λ x. x.healthy) s.targets (λ x h. h)) e

-- While the counter does not wrap, as many successive requests as there are healthy targets reach
-- each of them.
pub requests_reach_all_targets :
    (s : Balancer) (i : ℕ)
    → i < length (healthy_targets s)
    → s.counter + length (healthy_targets s) < u64_mod
    → let n = length (healthy_targets s) in
      (k : ℕ) × (k < n)
      × (get_elem? (targets_of_requests n s) k ≡ some (get_elem? (healthy_targets s) i))
requests_reach_all_targets s i h room =
    let n = length (healthy_targets s) in
    let (k, lt, e) = picks_all s.counter (healthy_targets s) i h room in
    (k, lt, ap (λ l. get_elem? l k) (targets_of_requests-picks n s) ∙ e)
