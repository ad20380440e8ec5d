-- ===== src/Scheduler/Examples.antt =====
-- control-plane/scheduler: jobs at concrete inputs.
use mathlib.Core.Option
use tiny_aws.Prelude.{
  ◌≢◌, ◌&&◌, not, leb, ◌<◌, length, select, All, List, ne_of_eq_false, ◌+◌, ◌*◌, ◌≤◌, ◌<◌, ◌^◌,
  String, true, false, ◌≡◌, refl, none, some, [], ◌∷◌, arith, if◌then◌else◌, ◌==◌, select,
}
use tiny_aws.Prelude.Int.{pos}
use tiny_aws.Go.Fmt.{format_id, next_seq}
use tiny_aws.Go.Errors.{ok}
use tiny_aws.Go.Http.{status_ok, json, status_created}
use tiny_aws.Go.Map.{values, lookup}
use tiny_aws.Go.RoundRobin.{round_robin}
use tiny_aws.Go.Time.{second}
use tiny_aws.Scheduler.Job.{JobUpdateRequest, Node, Job, JobRequest, new_job, timed_out_job}
use tiny_aws.Scheduler.Store.{load_all, load_rows}
use tiny_aws.Scheduler.Pick.{
  InstanceAnswer, nodes, fetch_compute_nodes, is_healthy, pick_from, pick_healthy_among,
  pick_healthy_compute_node,
}
use tiny_aws.Scheduler.Server.{
  job_list, list_jobs, SqsMessage, update_job, status_notice, Scheduler, Registry, one_job, start,
  pick_node, is_empty_request, submit_job, watch_job_timeouts,
}
use tiny_aws.Scheduler.Reach.{initial, submitted, standing, retries_bounded, submit_job_fresh}
use tiny_aws.Scheduler.Restart.{restart_restores}
use tiny_aws.Scheduler.Durable.{restored}
use tiny_aws.Scheduler.Timeout.{watch_ends_late_jobs}
use tiny_aws.Scheduler.Outcome.{retry_then_fail}
use tiny_aws.Prelude.{Bool-cases, inl, inr, subst, eq_iff}
use mathlib.Core.List.{Permᴰ}
use tiny_aws.Scheduler.Listing.{list_jobs_any_order}
use tiny_aws.Scheduler.Limits.{limits_as_written}
use tiny_aws.Scheduler.Job.{job_timeout, max_jobs_per_node}
use tiny_aws.Prelude.Int.{negsuc}
use tiny_aws.Go.Fmt.{decimal}
use tiny_aws.Scheduler.Auth.{Context, submit, is_routed, handle, serve}
use tiny_aws.Scheduler.Auth.Access.{is_worker_request, serve_guards}
use tiny_aws.Go.Http.{error, status_not_found, status_unauthorized}
use tiny_aws.Go.Fmt.{prefixed}
use tiny_aws.Prelude.{◌||◌}
use tiny_aws.Scheduler.Placement.{poll_respects_limit}

abbrev node : Node
node = record { id = "n-1"; role = "compute"; status = "healthy" }

abbrev registry : Registry
registry = record { nodes_answer = nodes (node ∷ []); instance_answer = InstanceAnswer.unreachable }

abbrev request : JobRequest
request = record {
  command = "ls";
  instance_id = "";
  deploy_url = "";
  job_type = "";
  port = pos 0;
  env_vars = none;
}

abbrev submitted_job : Job
submitted_job = new_job 1 "n-1" request 0

abbrev empty : Scheduler
empty = start []

abbrev one_submitted : Scheduler
one_submitted = (submit_job true registry (some request) 0 empty).0

room : empty.job_seq + 1 < 2 ^ 64
room = unfold start load_all load_rows in omega arith

picked : (pick_node registry request empty.counter).0 ≡ ok node
picked =
    unfold start load_all load_rows pick_node pick_healthy_compute_node fetch_compute_nodes
      pick_healthy_among pick_from select is_healthy round_robin next_seq in
    refl

held : lookup "job-1" one_submitted.jobs ≡ some submitted_job
unfolding new_job format_id start load_all load_rows lookup
held =
    (submit_job_fresh {s = empty} true registry request 0 node initial room
        (unfold is_empty_request in refl) picked).2
      "job-1"

submit_job_fresh_example :
    let job = new_job (empty.job_seq + 1) "n-1" request 0 in
    let (s', reply) = submit_job false registry (some request) 0 empty in
    (reply ≡ json status_created (one_job job))
    × (lookup job.id empty.jobs ≡ none)
    × ((id : String)
        → lookup id s'.jobs ≡ (if job.id == id then some job else lookup id empty.jobs))
submit_job_fresh_example =
    submit_job_fresh {s = empty} false registry request 0 node initial room
      (unfold is_empty_request in refl) picked

abbrev failure : JobUpdateRequest
failure = record { status = "failed"; exit_code = some (pos 1); stdout = ""; stderr = "no" }

retries_bounded_example :
    (submitted_job.id ≡ "job-1")
    × (submitted_job.retry_count ≤ 1)
    × (Option.map standing
          (lookup "job-1" (update_job false "" (some failure) "job-1" 7 one_submitted).0.jobs)
        ≡ some ("pending", 1))
unfolding new_job
retries_bounded_example =
    retries_bounded {s = one_submitted} "job-1" {j = submitted_job} false "" failure 7
      (submitted {s = empty} true registry (some request) 0 tt room initial) held refl

restart_restores_example :
    lookup "job-1" (start one_submitted.rows).jobs
    ≡ Option.map restored (lookup "job-1" one_submitted.jobs)
restart_restores_example =
    restart_restores {s = one_submitted} "job-1"
      (submitted {s = empty} true registry (some request) 0 refl room initial)

abbrev running : Job
running = record submitted_job { status = "running"; running_at = some (5 * second) }

abbrev one_running : Scheduler
one_running = record empty { jobs = ("job-1", running) ∷ [] }

watch_ends_late_jobs_example :
    lookup "job-1"
      (watch_job_timeouts (λ id. true) (20 * second) (pos (10 * second)) one_running).jobs
    ≡ some (timed_out_job (20 * second) running)
unfolding lookup timed_out_job
watch_ends_late_jobs_example =
    watch_ends_late_jobs (λ id. true) (20 * second) (10 * second) one_running "job-1" (omega arith)

abbrev message : SqsMessage
message = record { id = "msg-1"; body = "{\"command\":\"ls\"}" }

retry_then_fail_example :
    let (s1, r1, notices1) = update_job true "http://sns" (some failure) "job-1" 0 one_running in
    let (s2, r2, notices2) = update_job false "http://sns" (some failure) "job-1" 9 s1 in
    (Option.map (λ x. x.status) (lookup "job-1" s1.jobs) ≡ some "pending")
    × (notices1 ≡ [])
    × (Option.map (λ x. x.status) (lookup "job-1" s2.jobs) ≡ some "failed")
    × (notices2 ≡ status_notice "http://sns" "job-1" "failed")
retry_then_fail_example =
    retry_then_fail true false "http://sns" "job-1" failure failure 0 9 running one_running
      (unfold lookup in refl) (unfold new_job format_id in refl) (unfold new_job in refl) refl refl

poll_respects_limit_example :
    (l : List Job) × (list_jobs 1 "n-1" "pending" one_running ≡ json status_ok (job_list l))
    × All (λ j. (j.node_id ≡ "n-1") × (j.status ≡ "pending")) l
    × (l ≢ []
        → length
            (select (λ j. j.node_id == "n-1" && j.status == "running") (values one_running.jobs))
          < 1)
poll_respects_limit_example = poll_respects_limit 1 "n-1" one_running (ne_of_eq_false "n-1" "" refl)

abbrev keyed : Context
keyed = record {
  api_key = "secret";
  max_jobs = 1;
  sns_url = "";
  db_ok = true;
  registry = registry;
  now = 0;
}

serve_guards_example : serve keyed "Bearer guess" (submit (some request)) empty ≡ (
    if not (is_routed (submit (some request)))
    then (empty, error status_not_found "404 page not found", [])
    else if is_worker_request (submit (some request))
        || "Bearer guess" == prefixed "Bearer " "secret"
    then handle keyed (submit (some request)) empty
    else (empty, error status_unauthorized "unauthorized", []))
serve_guards_example =
    serve_guards keyed "Bearer guess" (submit (some request)) empty
      (ne_of_eq_false "secret" "" refl)

limits_as_written_example :
    (job_timeout (decimal 9_223_372_037) ≡ negsuc 9_223_372_036_709_551_615)
    × (max_jobs_per_node (decimal 9_223_372_037) ≡ 9_223_372_037)
limits_as_written_example = limits_as_written 9_223_372_037 (omega arith) (omega arith)

abbrev waiting : Job
waiting = record submitted_job { id = "job-2" }

abbrev one_order : Scheduler
one_order = record empty { jobs = ("job-1", submitted_job) ∷ ("job-2", waiting) ∷ [] }

abbrev other_order : Scheduler
other_order = record empty { jobs = ("job-2", waiting) ∷ ("job-1", submitted_job) ∷ [] }

same_jobs : (k : String) → lookup k one_order.jobs ≡ lookup k other_order.jobs
unfolding lookup
same_jobs k = elim (Bool-cases ("job-1" == k)) [
  | inl e ↦
      subst (λ x. lookup x one_order.jobs ≡ lookup x other_order.jobs) ((eq_iff "job-1" k).0 e) refl
  | inr e ↦ rw e refl
]

list_jobs_any_order_example :
    (xs : List Job) × (ys : List Job) × (xs ≡ (
      if not ("n-1" == "")
        && "pending" == "pending"
        && leb 1 (
            length
              (select (λ j. j.node_id == "n-1" && j.status == "running") (values one_order.jobs)))
      then []
      else select
          (λ j. ("n-1" == "" || j.node_id == "n-1") && ("pending" == "" || j.status == "pending"))
          (values one_order.jobs)))
    × (list_jobs 1 "n-1" "pending" one_order ≡ json status_ok (job_list xs))
    × (list_jobs 1 "n-1" "pending" other_order ≡ json status_ok (job_list ys))
    × Permᴰ xs ys
list_jobs_any_order_example =
    list_jobs_any_order 1 "n-1" "pending" one_order other_order
      (unfold lookup in refl, (unfold lookup in refl, tt))
      (unfold lookup in refl, (unfold lookup in refl, tt)) same_jobs
