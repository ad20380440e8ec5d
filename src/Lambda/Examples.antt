-- ===== src/Lambda/Examples.antt =====
-- data-plane/compute/lambda-runtime/main.go: functions and triggers at concrete inputs.
use tiny_aws.Prelude.{
  ℕ, zero, suc, ◌+◌, true, ◌≡◌, refl, Option, none, some, [], ◌∷◌, ◌++◌, arith, ne_of_eq_false,
}
use tiny_aws.Prelude.Int.{pos}
use tiny_aws.Go.Fmt.{format_id}
use tiny_aws.Go.Http.{json, status_ok, status_created}
use tiny_aws.Go.Map.{lookup}
use tiny_aws.Lambda.{
  Function, Trigger, Lambda, completed, function_key, start, handle_create, one_trigger, invoked,
}
use tiny_aws.Lambda.Invoke.{
  JobAnswer, final_result, poll_round, poll_job_result, timed_out, invoke_payload, handle_invoke,
}
use tiny_aws.Lambda.Invoke.Poll.{Ends, poll_job_result-Ends}
use tiny_aws.Lambda.Invoke.Jobs.{
  to_request, submit_to, poll_of, answer_of, reported_result, keyed_scheduler_times_out,
  invoke_follows_job,
}
use tiny_aws.Lambda.Triggers.{
  Event, stored_trigger, handle_create_trigger, handle_delete_trigger, handle_trigger_notify,
  trigger_invoke,
}
use tiny_aws.Lambda.Triggers.Fire.{initial, notify-create_trigger}
use tiny_aws.Scheduler.Auth.{Context, submit, serve}
use tiny_aws.Scheduler.Job.{Job, JobUpdateRequest, is_allowed}
use tiny_aws.Scheduler.Pick.{InstanceAnswer, nodes}
use tiny_aws.Scheduler.Server.{Scheduler, get_job, update_job, start as boot}
use tiny_aws.Sql

-- a scheduler that answers that the job is done in the second round
abbrev done_at_second : ℕ → Option JobAnswer
done_at_second zero = none
done_at_second (suc i) = some (record { status = "done"; stdout = "42"; stderr = "" })

poll_job_result-Ends_example : Ends done_at_second (poll_job_result done_at_second)
poll_job_result-Ends_example = poll_job_result-Ends done_at_second

second_round :
    poll_job_result done_at_second
    ≡ (record { status_code = 200; output = "42"; error = "" }, 4_000_000_000)
unfolding poll_job_result poll_round final_result
second_round = refl

abbrev thumbnail : Function
thumbnail = record {
  name = "thumb";
  runtime = "python3";
  handler = "";
  bucket = "code";
  key = "thumb.zip";
  created_at = 0;
}

abbrev one_function_stored : Lambda
one_function_stored = (handle_create true (some thumbnail) 0 (start [] [])).0

abbrev stored : Function
stored = record thumbnail { handler = "handler.handler" }

abbrev keyed : Context
keyed = record {
  api_key = "secret";
  max_jobs = 1;
  sns_url = "";
  db_ok = true;
  registry = record { nodes_answer = nodes []; instance_answer = InstanceAnswer.unreachable };
  now = 0;
}

abbrev idle : Scheduler
idle = boot []

keyed_scheduler_times_out_example :
    let req = submit (some (to_request (invoke_payload "http://store" stored "{}"))) in
    (handle_invoke "http://store"
        (submit_to keyed idle)
        (poll_of (λ i. keyed) (λ i. idle))
        "thumb"
        "{}"
        one_function_stored
      ≡ json status_ok (invoked timed_out))
    × ((serve keyed "" req idle).0 ≡ idle)
keyed_scheduler_times_out_example =
    keyed_scheduler_times_out "http://store" "thumb" "{}" keyed idle (λ i. keyed) (λ i. idle) stored
      one_function_stored found (ne_of_eq_false "secret" "" refl)
      (λ i. ne_of_eq_false "secret" "" refl)
  where
    found : Sql.find function_key "thumb" one_function_stored.functions ≡ some stored
    found = unfold handle_create completed start Sql.exec Sql.upsert Sql.find in refl

abbrev on_uploads : Trigger
on_uploads = record {
  id = "";
  function_name = "thumb";
  event_source = "s3:ObjectCreated";
  source_name = "photos";
  created_at = 0;
}

abbrev upload : Event
upload = record { event = "s3:ObjectCreated"; bucket = "photos"; key = "a.png"; size = pos 7 }

notify-create_trigger_example :
    let (s', reply) = handle_create_trigger true (some on_uploads) 0 (start [] []) in
    (reply
      ≡ json status_created (
          one_trigger
            (stored_trigger on_uploads (format_id "trig-" ((start [] []).trig_seq + 1)) 0)))
    × ((handle_trigger_notify (λ m. some upload) (λ e. "{}") ":9007" true (some "m") s').1
        ≡ (handle_trigger_notify
            (λ m. some upload)
            (λ e. "{}")
            ":9007"
            true
            (some "m")
            (start [] [])).1
          ++ trigger_invoke ":9007" "thumb" "{}" ∷ [])
    × ((handle_delete_trigger true (format_id "trig-" ((start [] []).trig_seq + 1)) s').0.triggers
        ≡ (start [] []).triggers)
unfolding stored_trigger trigger_invoke
notify-create_trigger_example =
    notify-create_trigger (λ m. some upload) (λ e. "{}") ":9007" "m" upload on_uploads 0
      (initial []) (unfold start in omega arith) (ne_of_eq_false "thumb" "" refl)
      (ne_of_eq_false "s3:ObjectCreated" "" refl) refl

abbrev running : Job
running = record {
  id = "job-1";
  node_id = "n-1";
  instance_id = "";
  command = "true";
  deploy_url = "";
  job_type = "";
  port = pos 0;
  env_vars = none;
  status = "running";
  retry_count = 1;
  exit_code = none;
  stdout = "";
  stderr = "";
  created_at = 0;
  running_at = some 0;
  finished_at = none;
}

abbrev one_running : Scheduler
one_running = record idle { jobs = ("job-1", running) ∷ [] }

abbrev failure : JobUpdateRequest
failure = record { status = "failed"; exit_code = none; stdout = "out"; stderr = "boom" }

invoke_follows_job_example :
    final_result (
      some
        (answer_of (get_job "job-1" (update_job true "" (some failure) "job-1" 9 one_running).0)))
    ≡ some (record { status_code = 500; output = "out"; error = "boom" })
unfolding reported_result
invoke_follows_job_example =
    invoke_follows_job true "" "job-1" failure 9 running one_running (unfold lookup in refl) refl
      (unfold is_allowed in refl)
