-- ===== src/Lambda/Invoke/Jobs.antt =====
-- data-plane/compute/lambda-runtime/main.go with control-plane/scheduler: what an invocation gets
-- from the scheduler that runs its job.
use tiny_aws.Prelude.{
  ℕ, String, Bool, true, false, ◌≡◌, ◌≢◌, refl, ap, ◌∙◌, Option, none, some, arith, ◌==◌, eq_false,
  if◌then◌else◌, sym,
}
use tiny_aws.Prelude.Int.{pos}
use tiny_aws.Go.Fmt.{prefixed}
use tiny_aws.Go.Http.{Response, json, error, no_body, status_ok}
use tiny_aws.Go.Map.{lookup}
use tiny_aws.Go.Time.{Time}
use tiny_aws.Lambda.{Function, function_key, Lambda, invoked}
use tiny_aws.Lambda.Invoke.{Payload, JobAnswer, final_result, timed_out, handle_invoke}
use tiny_aws.Lambda.Invoke.Poll.{Ends, answered, expired, result-final, poll_job_result-Ends}
use tiny_aws.Scheduler.Job.{Job, JobRequest, JobUpdateRequest, can_retry, is_allowed, updated_job}
use tiny_aws.Scheduler.Server.{
  Scheduler, Reply, healthy, picked, one_job, job_list, get_job, update_job,
}
use tiny_aws.Scheduler.Auth.{Context, Request, get, submit, is_routed, serve}
use tiny_aws.Scheduler.Auth.Access.{serve_guards}
use tiny_aws.Sql
use mathlib.Core.Option.{none-ne-some}
use tiny_aws.Scheduler.Auth.Access.{is_worker_request}
use tiny_aws.Go.Fmt.RoundTrip.{prefixed-ne-nil}
use tiny_aws.Go.Http.{status_unauthorized}
use tiny_aws.Prelude.{eq_iff, Bool-cases, inl, inr, le→leb, lt→leb, [], leb, ◌&&◌}
use tiny_aws.Lambda.{InvokeResult}
use tiny_aws.Lambda.Invoke.{invoke_payload, invoke_found}
use tiny_aws.Scheduler.Job.{keep_if_empty, max_job_retries, retried_job, reported_job}
use tiny_aws.Scheduler.Server.{found_job}
use tiny_aws.Scheduler.Outcome.{report-found, updated_job-id}

-- The request that the scheduler decodes of a payload.
unfoldable pub to_request : Payload → JobRequest
to_request p = record {
  command = p.command;
  instance_id = "";
  deploy_url = "";
  job_type = "";
  port = pos 0;
  env_vars = some p.env_vars;
}

abbrev no_answer : JobAnswer
no_answer = record { status = ""; stdout = ""; stderr = "" }

abbrev answer_of_reply : Reply → JobAnswer
answer_of_reply healthy = no_answer
answer_of_reply (picked id) = no_answer
answer_of_reply (one_job j) = record { status = j.status; stdout = j.stdout; stderr = j.stderr }
answer_of_reply (job_list js) = no_answer

-- What `Decode` leaves in the answer of a poll: nothing of a text that is not JSON.
unfoldable pub answer_of : Response Reply → JobAnswer
answer_of (json status r) = answer_of_reply r
answer_of (error status text) = no_answer
answer_of (no_body status) = no_answer

abbrev job_id_of_reply : Reply → String
job_id_of_reply healthy = ""
job_id_of_reply (picked id) = ""
job_id_of_reply (one_job j) = j.id
job_id_of_reply (job_list js) = ""

unfoldable pub job_id_of : Response Reply → String
job_id_of (json status r) = job_id_of_reply r
job_id_of (error status text) = ""
job_id_of (no_body status) = ""

-- The requests of the service carry no header Authorization. `c` and `s` are what the submission
-- meets, `cs i` and `ss i` what the poll of round `i` meets.
unfoldable pub submit_to : Context → Scheduler → Payload → Option String
submit_to c s p = some (job_id_of (serve c "" (submit (some (to_request p))) s).1)

unfoldable pub poll_of : (ℕ → Context) → (ℕ → Scheduler) → String → ℕ → Option JobAnswer
poll_of cs ss id i = some (answer_of (serve (cs i) "" (get id) (ss i)).1)

no_bearer : (key : String) → ("" == prefixed "Bearer " key) ≡ false
no_bearer key = eq_false _ _ (λ p. prefixed-ne-nil "B" "earer " key (sym p))

-- What a scheduler with a key does with a request that is no agent's and has no header.
refused :
    (c : Context) (req : Request) (s : Scheduler)
    → c.api_key ≢ ""
    → is_routed req ≡ true
    → is_worker_request req ≡ false
    → serve c "" req s ≡ (s, error status_unauthorized "unauthorized", [])
refused c req s keyed routed guarded =
    serve_guards c "" req s keyed ∙ rw (routed, guarded) (rw (no_bearer c.api_key) refl)

refused_poll :
    (cs : ℕ → Context) (ss : ℕ → Scheduler) (id : String) (i : ℕ)
    → (cs i).api_key ≢ ""
    → final_result (poll_of cs ss id i) ≡ none
unfolding poll_of
refused_poll cs ss id i keyed = elim (Bool-cases (id == "")) [
  | inl e ↦ unfold serve is_routed in rw e (unfold final_result answer_of in refl)
  | inr e ↦
      ap (λ o. final_result (some (answer_of o.1)))
        (refused (cs i) (get id) (ss i) keyed (unfold is_routed in rw e refl)
          (unfold is_worker_request in refl))
      ∙ (unfold final_result answer_of in refl)
]

-- A wait that no answer ends is over after a minute.
never_final :
    (answers : ℕ → Option JobAnswer) (r : InvokeResult × Time)
    → Ends answers r
    → ((i : ℕ) → final_result (answers i) ≡ none)
    → r.0 ≡ timed_out
never_final answers _ (answered i job r lt waiting e result) h =
    absurd (none-ne-some r (sym (h i) ∙ ap final_result e ∙ result-final job r result))
never_final answers _ (expired waiting) h = refl

refused_invoke :
    (url event : String) (c : Context) (s : Scheduler) (cs : ℕ → Context) (ss : ℕ → Scheduler)
    (f : Function)
    → ((i : ℕ) → (cs i).api_key ≢ "")
    → invoke_found url (submit_to c s) (poll_of cs ss) event (some f)
      ≡ json status_ok (invoked timed_out)
unfolding invoke_found submit_to
refused_invoke url event c s cs ss f always =
    ap (λ r. json status_ok (invoked r))
      (never_final _ _ (poll_job_result-Ends _) (λ i. refused_poll cs ss _ i (always i)))

-- In front of a scheduler that has a key, during the whole invocation, an invocation of a function
-- that exists is answered with status 504 in its body, and its job is not submitted.
pub keyed_scheduler_times_out :
    (object_store_url name event : String) (c : Context) (s : Scheduler) (cs : ℕ → Context)
    (ss : ℕ → Scheduler) (f : Function) (l : Lambda)
    → Sql.find function_key name l.functions ≡ some f
    → c.api_key ≢ ""
    → ((i : ℕ) → (cs i).api_key ≢ "")
    → let req = submit (some (to_request (invoke_payload object_store_url f event))) in
      (handle_invoke object_store_url (submit_to c s) (poll_of cs ss) name event l
        ≡ json status_ok (invoked timed_out))
      × ((serve c "" req s).0 ≡ s)
unfolding handle_invoke
keyed_scheduler_times_out url name event c s cs ss f l held keyed always =
    let req = submit (some (to_request (invoke_payload url f event))) in
    (
      ap (invoke_found url (submit_to c s) (poll_of cs ss) event) held
          ∙ refused_invoke url event c s cs ss f always,
      ap (λ o. o.0)
          (refused c req s keyed (unfold is_routed in refl) (unfold is_worker_request in refl)),
    )

-- what a poll says after an allowed report on a job
poll-report :
    (db_ok : Bool) (url id : String) (req : JobUpdateRequest) (now : Time) (j : Job) (s : Scheduler)
    → lookup id s.jobs ≡ some j
    → j.id ≡ id
    → is_allowed req.status ≡ true
    → answer_of (get_job id (update_job db_ok url (some req) id now s).0)
      ≡ answer_of_reply (one_job (updated_job req now j))
unfolding get_job answer_of
poll-report db_ok url id req now j s held same allowed =
    ap (λ o. answer_of (found_job o))
      (report-found db_ok url id req now j s held (updated_job-id req now j ∙ same) allowed).0

-- The result that a report makes the next poll of its job end with, if any.
unfoldable pub reported_result : JobUpdateRequest → Job → Option InvokeResult
reported_result req j =
    if req.status == "done"
    then some (record { status_code = 200; output = keep_if_empty req.stdout j.stdout; error = "" })
    else if req.status == "failed" && leb max_job_retries j.retry_count
    then some (record {
      status_code = 500;
      output = keep_if_empty req.stdout j.stdout;
      error = keep_if_empty req.stderr j.stderr;
    })
    else none

failed_not_done : (s : String) → (s == "failed") ≡ true → (s == "done") ≡ false
failed_not_done s e = rw ((eq_iff s "failed").0 e) refl

no_result :
    (req : JobUpdateRequest) (j : Job) → can_retry req j ≡ true → reported_result req j ≡ none
unfolding reported_result can_retry
no_result req j e = elim (Bool-cases (req.status == "failed")) [
  | inl f ↦
      rw (failed_not_done req.status f)
        (rw f (rw (lt→leb 1 j.retry_count (ground (arith, rw f at e))) refl))
  | inr f ↦ absurd (ground (arith, rw f at e))
]

final-result :
    (req : JobUpdateRequest) (now : Time) (j : Job)
    → can_retry req j ≡ false
    → final_result (some (answer_of_reply (one_job (reported_job req now j))))
      ≡ reported_result req j
unfolding final_result reported_result reported_job can_retry
final-result req now j e = elim (Bool-cases (req.status == "done")) [
  | inl d ↦ rw d refl
  | inr d ↦ rw d (elim (Bool-cases (req.status == "failed")) [
    | inl f ↦ rw f (rw (le→leb 1 j.retry_count (ground (arith, rw f at e))) refl)
    | inr f ↦ rw f refl
  ])
]

updated-result :
    (req : JobUpdateRequest) (now : Time) (j : Job)
    → final_result (some (answer_of_reply (one_job (updated_job req now j))))
      ≡ reported_result req j
unfolding updated_job final_result retried_job
updated-result req now j = elim (Bool-cases (can_retry req j)) [
  | inl e ↦ rw e (sym (no_result req j e))
  | inr e ↦ rw e (final-result req now j e)
]

-- After an allowed report on a job of the scheduler, a poll of it ends an invocation in two cases:
-- with status 200 and the output of the job if it is done, and with status 500, its output and its
-- errors, if it failed and was retried before. A first failure and a start do not end it.
pub invoke_follows_job :
    (db_ok : Bool) (url id : String) (req : JobUpdateRequest) (now : Time) (j : Job) (s : Scheduler)
    → lookup id s.jobs ≡ some j
    → j.id ≡ id
    → is_allowed req.status ≡ true
    → final_result (some (answer_of (get_job id (update_job db_ok url (some req) id now s).0)))
      ≡ reported_result req j
invoke_follows_job db_ok url id req now j s held same allowed =
    ap (λ a. final_result (some a)) (poll-report db_ok url id req now j s held same allowed)
    ∙ updated-result req now j
