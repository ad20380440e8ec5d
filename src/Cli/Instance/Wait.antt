-- ===== src/Cli/Instance/Wait.antt =====
-- control-plane/cli/instance.go, `runExec`: the wait for a command inside an instance.
use tiny_aws.Prelude.{
  ℕ, zero, suc, ◌+◌, ◌≤◌, ◌<◌, String, true, false, ◌≡◌, ap, ◌∙◌, some, List, [], ◌∷◌, arith, eqb,
  ◌==◌, ◌||◌, leb, none, if◌then◌else◌, Bool-cases, inl, inr,
}
use tiny_aws.Cli.{
  HttpRequest, Answer, Program, empty, auth_header, service_url, http_request, exit, sleep, run,
  Env,
}
use tiny_aws.Cli.Instance.{print_output, exec_code, exec_loop, after_exec}
use tiny_aws.Cli.Job.{JobRecord, is_final, fetch_job, job_of}
use tiny_aws.Go.Errors.{Result, ok, err}
use tiny_aws.Go.Text.{concat}
use tiny_aws.Prelude.Int.{pos}
use tiny_aws.Go.Time.{second}

-- what is written for a text, if it is not empty
abbrev pub shown : String → List String
shown s = if s == "" then [] else s ∷ []

-- the request for a job
abbrev pub poll_request : Env → String → HttpRequest
poll_request env id = record {
  method = "GET";
  url = concat (service_url env "SCHEDULER_URL" "http://127.0.0.1:9001" ∷ "/jobs/" ∷ id ∷ []);
  body = empty;
  authorization = auth_header env;
}

-- The answer has a status below 400, and its text decodes to the job.
abbrev pub IsJob : (String → Result JobRecord) → Result Answer → JobRecord → Type 0
IsJob decode (err e) job = ⊥
IsJob decode (ok a) job = (leb 400 a.status ≡ false) × (decode a.body ≡ ok job)

job_of-IsJob :
    (decode : String → Result JobRecord) (quote : String → String) (env : Env) (r : Result Answer)
    (job : JobRecord)
    → IsJob decode r job
    → job_of decode quote env r ≡ ok job
job_of-IsJob decode quote env (err e) job h = elim h [ ]
job_of-IsJob decode quote env (ok a) job (fine, e) = rw fine e

module _ (decode : String → Result JobRecord) (quote : String → String) (env : Env)
    (files : String → Result String) (answers : ℕ → Result Answer)
    (serve : HttpRequest → ℕ → Result Answer × ℕ) (id : String)
    (polled : (i : ℕ) → serve (poll_request env id) i ≡ (answers i, suc i)) where
  -- The answer is a job that is not final.
  abbrev IsPending : ℕ → Type 0
  IsPending i =
      (job : JobRecord) × IsJob decode (answers i) job
      × ((job.status == "done" || job.status == "failed") ≡ false)

  run_output :
      (job : JobRecord) (i : ℕ)
      → run serve files (print_output job (exit (exec_code job))) i ≡ record {
        state = i;
        stdout = shown job.stdout;
        stderr = shown job.stderr;
        code = some (exec_code job);
      }
  unfolding run print_output
  run_output job i = elim (Bool-cases (job.stdout == "")) [
    | inl e ↦ elim (Bool-cases (job.stderr == "")) [ inl f ↦ simp (e, f) | inr f ↦ simp (e, f) ]
    | inr e ↦ elim (Bool-cases (job.stderr == "")) [ inl f ↦ simp (e, f) | inr f ↦ simp (e, f) ]
  ]

  -- one round of the loop
  run_round :
      (n i : ℕ) (job : JobRecord)
      → IsJob decode (answers i) job
      → run serve files (exec_loop decode quote env (suc n) id) i
        ≡ run serve files
            (after_exec decode quote env (exec_loop decode quote env n id) (ok job))
            (suc i)
  unfolding run exec_loop fetch_job http_request
  run_round n i job e =
      ap
        (λ (o : Result Answer × ℕ).
          run serve files
            (after_exec decode quote env (exec_loop decode quote env n id)
              (job_of decode quote env o.0))
            o.1)
        (polled i)
      ∙ ap
          (λ r.
            run serve files (after_exec decode quote env (exec_loop decode quote env n id) r)
              (suc i))
          (job_of-IsJob decode quote env (answers i) job e)

  run_final :
      (again : Program) (job : JobRecord) (i : ℕ)
      → is_final job ≡ true
      → run serve files (after_exec decode quote env again (ok job)) i ≡ record {
        state = i;
        stdout = shown job.stdout;
        stderr = shown job.stderr;
        code = some (exec_code job);
      }
  run_final again job i final =
      ap
        (λ b.
          run serve files
            (if b then print_output job (exit (exec_code job)) else sleep second again) i)
        final
      ∙ run_output job i

  run_pending :
      (again : Program) (job : JobRecord) (i : ℕ)
      → is_final job ≡ false
      → run serve files (after_exec decode quote env again (ok job)) i ≡ run serve files again i
  unfolding run
  run_pending again job i going =
      ap
        (λ b.
          run serve files
            (if b then print_output job (exit (exec_code job)) else sleep second again) i)
        going

  run_loop :
      (n i k : ℕ) (job : JobRecord)
      → i ≤ k
      → k < i + n
      → ((j : ℕ) → i ≤ j → j < k → IsPending j)
      → IsJob decode (answers k) job
      → is_final job ≡ true
      → run serve files (exec_loop decode quote env n id) i ≡ record {
        state = suc k;
        stdout = shown job.stdout;
        stderr = shown job.stderr;
        code = some (exec_code job);
      }
  run_loop zero i k job le lt pending e final = absurd (omega arith)
  run_loop (suc n) i k job le lt pending e final = elim (Bool-cases (eqb i k)) [
    | inl same ↦
        let at : i ≡ k = ground arith in
        ap (run serve files (exec_loop decode quote env (suc n) id)) at
        ∙ run_round n k job e
        ∙ run_final (exec_loop decode quote env n id) job (suc k) final
    | inr other ↦
        let (waiting, answered, going) = pending i (omega arith) (ground arith) in
        run_round n i waiting answered
        ∙ run_pending (exec_loop decode quote env n id) waiting (suc i) going
        ∙ run_loop n (suc i) k job (ground arith) (omega arith)
            (λ j le' lt'. pending j (omega arith) lt') e final
  ]

-- Take any services that answer the requests `GET /jobs/<id>` to the scheduler, the polls of `exec`, in
-- turn, with jobs that are neither done nor failed, and then with one that is. Then the command asks
-- no further: it writes the outputs of that job and exits with its code (0 if it has none). Any
-- number of rounds above that of those polls is enough.
pub exec_exits_with_job :
    (decode : String → Result JobRecord) (quote : String → String) (env : Env)
    (files : String → Result String) (answers : ℕ → Result Answer)
    (serve : HttpRequest → ℕ → Result Answer × ℕ) (rounds k : ℕ) (id : String) (job : JobRecord)
    → ((i : ℕ) → serve (poll_request env id) i ≡ (answers i, suc i))
    → k < rounds
    → ((j : ℕ)
        → j < k
        → (waiting : JobRecord) × IsJob decode (answers j) waiting
          × ((waiting.status == "done" || waiting.status == "failed") ≡ false))
    → IsJob decode (answers k) job
    → (job.status == "done" || job.status == "failed") ≡ true
    → run serve files (exec_loop decode quote env rounds id) 0 ≡ record {
      state = suc k;
      stdout = if job.stdout == "" then [] else job.stdout ∷ [];
      stderr = if job.stderr == "" then [] else job.stderr ∷ [];
      code = some (elim job.exit_code [ none ↦ pos 0 | some code ↦ code ]);
    }
unfolding exec_code
exec_exits_with_job decode quote env files answers serve rounds k id job polled lt pending e final =
    run_loop decode quote env files answers serve id polled rounds 0 k job (omega arith)
      (omega arith) (λ j le. pending j) e final
