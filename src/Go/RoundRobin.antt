-- ===== src/Go/RoundRobin.antt =====
-- `idx := atomic.AddUint64(&counter, 1) % uint64(len(xs))`, then `xs[idx]`, of a list that is not
-- empty. Both the scheduler and the load balancer choose so.
pub mod Fairness
use tiny_aws.Prelude.{ℕ, ◌+◌, ◌%◌, Option, none, some, List, [], ◌∷◌, length, get_elem?}
use tiny_aws.Go.Fmt.{next_seq}

module _ {ℓ} {A : Type ℓ} where
  -- The element and the counter after it; an empty list leaves the counter alone.
  unfoldable pub round_robin : ℕ → List A → Option A × ℕ
  round_robin counter [] = (none, counter)
  round_robin counter (x ∷ xs) =
      let n = next_seq counter in (get_elem? (x ∷ xs) (n % length (x ∷ xs)), n)
