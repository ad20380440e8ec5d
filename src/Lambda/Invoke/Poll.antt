-- ===== src/Lambda/Invoke/Poll.antt =====
-- data-plane/compute/lambda-runtime/main.go, `pollJobResult`: which answer ends the wait, and when.
use mathlib.Core.Option.{none-ne-some, some-injective}
use tiny_aws.Prelude.{
  ◌≢◌, refl, ◌∙◌, ◌==◌, eq_iff, ℕ, zero, suc, ◌+◌, ◌*◌, ◌<◌, ◌≡◌, sym, subst, Option, none, some,
  arith, eqb, Bool-cases, Option-cases, inl, inr,
}
use tiny_aws.Go.Time.{Time, second}
use tiny_aws.Lambda.{InvokeResult}
use tiny_aws.Lambda.Invoke.{JobAnswer, final_result, timed_out, polls, poll_round, poll_job_result}

-- The result of a job that has ended.
pub data IsResult (job : JobAnswer) : InvokeResult → Type 0 where
  succeeded :
      job.status ≡ "done"
      → IsResult job (record { status_code = 200; output = job.stdout; error = "" })
  broken :
      job.status ≡ "failed"
      → IsResult job (record { status_code = 500; output = job.stdout; error = job.stderr })

-- The request failed, or the job has not ended.
abbrev pub IsOpen : Option JobAnswer → Type 0
IsOpen none = Unit
IsOpen (some job) = (job.status ≢ "done") × (job.status ≢ "failed")

-- No answer before round `i` has a job that has ended.
abbrev pub IsWaiting : (ℕ → Option JobAnswer) → ℕ → Type 0
IsWaiting answers i = (j : ℕ) → j < i → IsOpen (answers j)

-- How the wait may end: with the first job that has ended, two seconds for each round; or after a
-- minute.
pub data Ends (answers : ℕ → Option JobAnswer) : InvokeResult × Time → Type 0 where
  answered :
      (i : ℕ) (job : JobAnswer) (r : InvokeResult)
      → i < 30
      → IsWaiting answers i
      → answers i ≡ some job
      → IsResult job r
      → Ends answers (r, suc i * (2 * second))
  expired :
      IsWaiting answers 30
      → Ends answers
          (record { status_code = 504; output = ""; error = "invocation timed out" }, 60 * second)

pub result-final :
    (job : JobAnswer) (r : InvokeResult) → IsResult job r → final_result (some job) ≡ some r
unfolding final_result
result-final job _ (succeeded e) = rw e refl
result-final job _ (broken e) = rw e refl

-- what `pollJobResult` makes of an answer
final_result-Open : (o : Option JobAnswer) → final_result o ≡ none → IsOpen o
unfolding final_result
final_result-Open none e = tt
final_result-Open (some job) e = (
  λ p. none-ne-some _ (sym e ∙ result-final job _ (succeeded p)),
  λ p. none-ne-some _ (sym e ∙ result-final job _ (broken p)),
)

final_result-Result :
    (o : Option JobAnswer) (r : InvokeResult)
    → final_result o ≡ some r
    → (job : JobAnswer) × (o ≡ some job) × IsResult job r
unfolding final_result
final_result-Result none r e = absurd (none-ne-some r e)
final_result-Result (some job) r e = elim (Bool-cases (job.status == "done")) [
  | inl p ↦ (
    job,
    refl,
    subst (IsResult job) (some-injective _ _ (rw p at e)) (succeeded ((eq_iff _ _).0 p)),
  )
  | inr p ↦ elim (Bool-cases (job.status == "failed")) [
    | inl q ↦ (
      job,
      refl,
      subst (IsResult job) (some-injective _ _ (rw (p, q) at e)) (broken ((eq_iff _ _).0 q)),
    )
    | inr q ↦ absurd (none-ne-some r (rw (p, q) at e))
  ]
]

wait_longer :
    (answers : ℕ → Option JobAnswer) (i : ℕ)
    → IsWaiting answers i
    → IsOpen (answers i)
    → IsWaiting answers (suc i)
wait_longer answers i h e j lt = elim (Bool-cases (eqb j i)) [
  | inl same ↦ subst (λ k. IsOpen (answers k)) (ground arith) e
  | inr other ↦ h j (ground arith)
]

round-Ends :
    (answers : ℕ → Option JobAnswer) (i n : ℕ)
    → IsWaiting answers i
    → i + n ≡ polls
    → Ends answers (poll_round answers i n)
unfolding poll_round
round-Ends answers i zero h e =
    let whole : i ≡ polls = omega arith in
    subst (λ k. Ends answers (timed_out, k * (2 * second))) (sym whole)
      (expired (subst (IsWaiting answers) whole h))
round-Ends answers i (suc n) h e = elim (Option-cases (final_result (answers i))) [
  | inl none_yet ↦ rw none_yet (
      round-Ends answers (suc i) n
        (wait_longer answers i h (final_result-Open (answers i) none_yet)) (omega arith))
  | inr (r, final) ↦
      let (job, e', result) = final_result-Result (answers i) r final in
      rw final (answered i job r (omega arith) h e' result)
]

-- Whatever the scheduler answers, the wait ends within 30 rounds of two seconds. The first answer
-- that has a job that is done or failed ends it: with status 200 and the output of the job, or with
-- status 500, its output and its errors. If none of the 30 has, it ends with status 504.
pub poll_job_result-Ends : (answers : ℕ → Option JobAnswer) → Ends answers (poll_job_result answers)
unfolding poll_job_result
poll_job_result-Ends answers =
    round-Ends answers 0 polls (λ j lt. absurd (omega arith)) (omega arith)
