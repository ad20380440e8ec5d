-- ===== src/Go/RoundRobin/Fairness.antt =====
-- Round robin picks an element of the list, and as many picks as the list is long pick them all.
use tiny_aws.Prelude.{
  ℕ, zero, suc, ◌+◌, ◌-◌, ◌%◌, ◌<◌, ◌≡◌, ap, ◌∙◌, Option, some, List, [], ◌∷◌, arith, length,
  get_elem?, get_elem?-total, All, All-get_elem?,
}
use mathlib.Core.Option.{none-ne-some}
use native.Mathlib.Decide.{dec_le}
use tiny_aws.Go.Fmt.{u64_mod, next_seq}
use tiny_aws.Go.RoundRobin.{round_robin}

-- The offset of the pick that lands on `i`, for a counter that stands at `c` modulo `n`.
offset : ℕ → ℕ → ℕ → ℕ
offset n c i = elim (dec_le c i) [ yes p ↦ i - c | no p ↦ i + n - c ]

offset-lt : (n c i : ℕ) → c < n → i < n → offset n c i < n
unfolding offset
offset-lt n c i hc hi = ground arith

offset-mod : (n a i : ℕ) → i < n → (a + offset n (a % n) i) % n ≡ i
unfolding offset
offset-mod n a i h =
    elim (dec_le (a % n) i)
      as (λ d. (a + elim d [ yes p ↦ i - a % n | no p ↦ i + n - a % n ]) % n ≡ i) [
        | yes p ↦ grind arith
        | no p ↦ grind arith
      ]

module _ {ℓ} {A : Type ℓ} where
  -- successive picks from one list
  unfoldable pub picks : ℕ → ℕ → List A → List (Option A)
  picks zero counter xs = []
  picks (suc rounds) counter xs =
      let (choice, counter') = round_robin counter xs in choice ∷ picks rounds counter' xs

  round_robin_lem :
      (counter : ℕ) (xs : List A)
      → 0 < length xs
      → counter + 1 < u64_mod
      → round_robin counter xs ≡ (get_elem? xs ((counter + 1) % length xs), counter + 1)
  unfolding round_robin next_seq
  round_robin_lem counter [] p h = absurd (omega arith)
  round_robin_lem counter (x ∷ xs) p h =
      ap (λ (n : ℕ). (get_elem? (x ∷ xs) (n % length (x ∷ xs)), n)) (omega arith)

  get_elem?-picks :
      (rounds counter : ℕ) (xs : List A) (k : ℕ)
      → 0 < length xs
      → counter + rounds < u64_mod
      → k < rounds
      → get_elem? (picks rounds counter xs) k ≡ some (get_elem? xs ((counter + 1 + k) % length xs))
  unfolding picks
  get_elem?-picks zero counter xs k p h lt = absurd (omega arith)
  get_elem?-picks (suc rounds) counter xs zero p h lt = ap some (
      ap (λ r. r.0) (round_robin_lem counter xs p (omega arith))
      ∙ ap (λ n. get_elem? xs (n % length xs)) (omega arith))
  get_elem?-picks (suc rounds) counter xs (suc k) p h lt =
      ap (λ n. get_elem? (picks rounds n xs) k)
        (ap (λ r. r.1) (round_robin_lem counter xs p (omega arith)))
      ∙ get_elem?-picks rounds (counter + 1) xs k p (omega arith) (omega arith)
      ∙ ap (λ n. some (get_elem? xs (n % length xs))) (omega arith)

  -- As many successive picks as the list is long reach each position of it, while the counter does
  -- not wrap.
  pub picks_all :
      (counter : ℕ) (xs : List A) (i : ℕ)
      → i < length xs
      → counter + length xs < u64_mod
      → (k : ℕ) × (k < length xs)
        × (get_elem? (picks (length xs) counter xs) k ≡ some (get_elem? xs i))
  picks_all counter xs i h room =
      let n = length xs in
      let k = offset n ((counter + 1) % n) i in
      let lt : k < n = offset-lt n ((counter + 1) % n) i (omega arith) h in
      (
        k,
        lt,
        get_elem?-picks n counter xs k (omega arith) room lt
            ∙ ap (λ j. some (get_elem? xs j)) (offset-mod n (counter + 1) i h),
      )

  -- A pick from a list that is not empty is one of its elements.
  pub round_robin_picks :
      (counter : ℕ) (xs : List A)
      → 0 < length xs
      → (a : A) × (i : ℕ) × ((round_robin counter xs).0 ≡ some a) × (get_elem? xs i ≡ some a)
  unfolding round_robin
  round_robin_picks counter [] p = absurd (omega arith)
  round_robin_picks counter (x ∷ xs) p =
      let i = next_seq counter % length (x ∷ xs) in
      let (a, e) = get_elem?-total (x ∷ xs) i (omega arith) in (a, i, e, e)

  -- What holds of all elements holds of the pick.
  pub All-round_robin {κ} :
      (P : A → Type κ) (counter : ℕ) (xs : List A)
      → All P xs
      → {a : A} → (round_robin counter xs).0 ≡ some a
      → P a
  unfolding round_robin
  All-round_robin P counter [] h e = absurd (none-ne-some _ e)
  All-round_robin P counter (x ∷ xs) h e =
      All-get_elem? P (x ∷ xs) (next_seq counter % length (x ∷ xs)) h e
