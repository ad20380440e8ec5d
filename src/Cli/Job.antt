-- ===== src/Cli/Job.antt =====
-- control-plane/cli/job.go: jobs from the command line.
use tiny_aws.Prelude.{
  ℕ, zero, suc, ◌*◌, String, Bool, true, false, not, ◌||◌, Option, none, some, List, [], ◌∷◌, leb,
  ◌==◌, if◌then◌else◌,
}
use tiny_aws.Prelude.Int.{ℤ, pos, negsuc}
use tiny_aws.Cli.{
  Value, text, empty, fields, Answer, Program, print, warn, send, sleep, unfinished, done, failed,
  usage, Env, scheduler_url, http_request, check_status, or_fail,
}
use tiny_aws.Go.Errors.{Result, ok, err}
use tiny_aws.Go.Fmt.{decimal}
use tiny_aws.Go.Map.{GoMap}
use tiny_aws.Go.Text.{concat}
use tiny_aws.Go.Time.{second}

pub record JobRecord : Type 0 where
  pub id : String
  pub node_id : String
  pub command : String
  pub status : String
  pub stdout : String
  pub stderr : String
  pub exit_code : Option ℤ

abbrev pub is_final : JobRecord → Bool
is_final job = job.status == "done" || job.status == "failed"

-- the JSON object of `runJobSubmit` and `submitJobCommand`
unfoldable pub job_payload : String → String → GoMap Value
job_payload command instance_id =
    ("command", text command)
    ∷ (if instance_id == "" then [] else ("instance_id", text instance_id) ∷ [])

-- The flags after the command: the instance, or the message of an error. `pending` says that a value
-- is awaited.
unfoldable pub submit_flags : Bool → List String → String → Result String
submit_flags true [] instance_id = err "--instance requires a value"
submit_flags false [] instance_id = ok instance_id
submit_flags true (value ∷ args) instance_id = submit_flags false args value
submit_flags false (arg ∷ args) instance_id = submit_flags (arg == "--instance") args instance_id

abbrev pub decimal_int : ℤ → String
decimal_int (pos n) = decimal n
decimal_int (negsuc n) = concat ("-" ∷ decimal (suc n) ∷ [])

-- the `if` of `printJob` around a part of the output
abbrev print_if : Bool → String → Program → Program
print_if true line next = print line next
print_if false line next = next

abbrev print_exit_code : Option ℤ → Program → Program
print_exit_code none next = next
print_exit_code (some code) next = print (concat ("exit_code=" ∷ decimal_int code ∷ "\n" ∷ [])) next

-- `decode` is `json.Unmarshal` into a job, and `quote` the verb `%q`.
module _ (decode : String → Result JobRecord) (quote : String → String) (env : Env) where
  abbrev decoded_or_fail : (JobRecord → Program) → Result JobRecord → Program
  decoded_or_fail next (err e) = warn (concat ("decode: " ∷ e ∷ "\n" ∷ [])) failed
  decoded_or_fail next (ok job) = next job

  -- `POST /jobs`, with `before` in front of the error of a request that fails
  unfoldable pub post_job : String → GoMap Value → (JobRecord → Program) → Program
  post_job before payload next =
      send (http_request env "POST" (concat (scheduler_url env ∷ "/jobs" ∷ [])) (fields payload))
        (or_fail before (λ a. check_status "submit" a (decoded_or_fail next (decode a.body))))

  abbrev submit_parsed : String → Result String → Program
  submit_parsed command (err message) = usage message
  submit_parsed command (ok instance_id) =
      post_job "error: " (job_payload command instance_id) (λ job.
        print
          (concat (
            "submitted " ∷ job.id ∷ " on node " ∷ job.node_id ∷ " (status=" ∷ job.status ∷ ")\n"
            ∷ []))
          done)

  unfoldable pub run_job_submit : List String → Program
  run_job_submit [] = usage "usage: tinyaws job submit \"echo hello\" [--instance i-1]"
  run_job_submit (command ∷ args) = submit_parsed command (submit_flags false args "")

  abbrev pub checked_job : Answer → Result JobRecord
  checked_job a =
      if leb 400 a.status
      then err (concat ("scheduler returned " ∷ decimal a.status ∷ ": " ∷ a.body ∷ []))
      else decode a.body

  abbrev pub job_of : Result Answer → Result JobRecord
  job_of (err e) = err e
  job_of (ok a) = checked_job a

  -- `fetchJob`
  unfoldable pub fetch_job : String → (Result JobRecord → Program) → Program
  fetch_job id next =
      send (http_request env "GET" (concat (scheduler_url env ∷ "/jobs/" ∷ id ∷ [])) empty)
        (λ r. next (job_of r))

  unfoldable pub print_job : JobRecord → Program → Program
  print_job job next =
      print
        (concat (
          "job_id="
          ∷ job.id
          ∷ " node_id="
          ∷ job.node_id
          ∷ " status="
          ∷ job.status
          ∷ " command="
          ∷ quote job.command
          ∷ "\n"
          ∷ []))
        (print_exit_code job.exit_code (
          print_if (not (job.stdout == "")) (concat ("stdout:\n" ∷ job.stdout ∷ []))
            (print_if (not (job.stderr == "")) (concat ("stderr:\n" ∷ job.stderr ∷ [])) next)))

  abbrev after_status : Bool → Program → Result JobRecord → Program
  after_status wait again (err e) = warn (concat ("error: " ∷ e ∷ "\n" ∷ [])) failed
  after_status wait again (ok job) =
      print_job job (if not wait || is_final job then done else sleep (2 * second) again)

  -- the loop of `runJobStatus`
  unfoldable pub status_loop : ℕ → Bool → String → Program
  status_loop zero wait id = unfinished
  status_loop (suc n) wait id =
      let again = status_loop n wait id in fetch_job id (after_status wait again)

  abbrev is_wait : List String → Bool
  is_wait [] = false
  is_wait (flag ∷ args) = flag == "--wait"

  unfoldable pub run_job_status : ℕ → List String → Program
  run_job_status fuel [] = usage "usage: tinyaws job status <job-id> [--wait]"
  run_job_status fuel (id ∷ args) = status_loop fuel (is_wait args) id

  unfoldable pub run_job : ℕ → List String → Program
  run_job fuel [] = usage "usage: tinyaws job submit|status ..."
  run_job fuel (command ∷ args) =
      if command == "submit"
      then run_job_submit args
      else if command == "status"
      then run_job_status fuel args
      else usage "usage: tinyaws job submit|status ..."
