-- ===== src/Scheduler/Server.antt =====
-- control-plane/scheduler/main.go: the handlers and the background loops. The globals `jobs`,
-- `jobSeq` and `counter` and the table behind `jobStore` are the record `Scheduler`.
use tiny_aws.Prelude.{
  ℕ, String, Bool, not, ◌&&◌, ◌||◌, Option, none, some, List, [], ◌∷◌, leb, ◌==◌, if◌then◌else◌,
  select, length,
}
use tiny_aws.Prelude.Int.{ℤ}
use tiny_aws.Go.Fmt.{next_seq, prefixed}
use tiny_aws.Go.Errors.{Result, ok, err}
use tiny_aws.Go.Map.{GoMap, lookup, insert, values}
use tiny_aws.Go.Time.{Time}
use tiny_aws.Go.Http.{
  Response, json, error, status_ok, status_created, status_bad_request, status_not_found,
  status_service_unavailable,
}
use tiny_aws.Scheduler.Job.{
  Node, Job, JobRequest, JobUpdateRequest, new_job, is_allowed, is_final, can_retry, updated_job,
  is_timed_out, timed_out_job,
}
use tiny_aws.Scheduler.Store.{JobRow, save, load_all}
use tiny_aws.Scheduler.Pick.{
  NodesAnswer, InstanceAnswer, pick_healthy_compute_node, pick_node_for_instance,
}

pub record Scheduler : Type 0 where
  pub jobs : GoMap Job
  pub job_seq : ℕ
  pub counter : ℕ
  pub rows : List JobRow

pub data Reply : Type 0 where
  healthy : Reply
  picked : String → Reply
  one_job : Job → Reply
  job_list : List Job → Reply

-- what the registry answers while a request is served
pub record Registry : Type 0 where
  pub nodes_answer : NodesAnswer
  pub instance_answer : InstanceAnswer

-- `main` at a start: the state that the table holds
unfoldable pub start : List JobRow → Scheduler
start rows =
    let (jobs, max_seq) = load_all rows in
    record { jobs = jobs; job_seq = max_seq; counter = 0; rows = rows }

unfoldable pub handle_schedule : NodesAnswer → Scheduler → Scheduler × Response Reply
handle_schedule a s =
    let (choice, counter) = pick_healthy_compute_node a s.counter in
    (
      record s { counter = counter },
      elim choice [
        | err e ↦ error status_service_unavailable e
        | ok n ↦ json status_ok (picked n.id)
      ],
    )

-- The node that a request is for, and the counter after the choice.
unfoldable pub pick_node : Registry → JobRequest → ℕ → Result Node × ℕ
pick_node reg req counter =
    if req.instance_id == ""
    then pick_healthy_compute_node reg.nodes_answer counter
    else (pick_node_for_instance reg.instance_answer reg.nodes_answer, counter)

-- `jobs[job.ID] = job` with `jobStore.Save(job)`
unfoldable pub put_job : Bool → Job → Scheduler → Scheduler
put_job db_ok job s = record s { jobs = insert job.id job s.jobs; rows = save db_ok job s.rows }

unfoldable pub queue_job : Bool → JobRequest → Node → Time → Scheduler → Scheduler × Job
queue_job db_ok req node now s =
    let seq = next_seq s.job_seq in
    let job = new_job seq node.id req now in (put_job db_ok job (record s { job_seq = seq }), job)

unfoldable pub is_empty_request : JobRequest → Bool
is_empty_request req = req.command == "" && req.deploy_url == ""

unfoldable pub submit_picked :
    Bool → JobRequest → Time → Result Node → Scheduler → Scheduler × Response Reply
submit_picked db_ok req now (err e) s = (s, error status_service_unavailable e)
submit_picked db_ok req now (ok node) s =
    let (s', j) = queue_job db_ok req node now s in (s', json status_created (one_job j))

unfoldable pub submit_job :
    Bool → Registry → Option JobRequest → Time → Scheduler → Scheduler × Response Reply
submit_job db_ok reg none now s = (s, error status_bad_request "failed to decode job")
submit_job db_ok reg (some req) now s =
    let (choice, counter) = pick_node reg req s.counter in
    if is_empty_request req
    then (s, error status_bad_request "command or deploy_url is required")
    else submit_picked db_ok req now choice (record s { counter = counter })

unfoldable pub is_running_on : String → Job → Bool
is_running_on node job = job.node_id == node && job.status == "running"

-- the two filters of `listJobs`, where "" stands for no filter
unfoldable pub is_listed : String → String → Job → Bool
is_listed node status job =
    (node == "" || job.node_id == node) && (status == "" || job.status == status)

-- `max_jobs` is the result of `maxJobsPerNode()`.
unfoldable pub list_jobs : ℕ → String → String → Scheduler → Response Reply
list_jobs max_jobs node status s =
    let all = values s.jobs in
    if not (node == "")
      && status == "pending"
      && leb max_jobs (length (select (is_running_on node) all))
    then json status_ok (job_list [])
    else json status_ok (job_list (select (is_listed node status) all))

abbrev pub found_job : Option Job → Response Reply
found_job none = error status_not_found "job not found"
found_job (some j) = json status_ok (one_job j)

unfoldable pub get_job : String → Scheduler → Response Reply
get_job id s = found_job (lookup id s.jobs)

-- what `snsPublish` sends in the background: a topic and a message
abbrev pub Notice : Type 0
Notice = String × String

unfoldable pub status_notice : String → String → String → List Notice
status_notice sns_url id status =
    if sns_url == ""
    then []
    else (
      "job-status",
      prefixed "{\"job_id\":\"" (prefixed id (prefixed "\",\"status\":\"" (prefixed status "\"}"))),
    )
      ∷ []

-- the notices of an update: none for a retry, one for a job that is done or failed
unfoldable pub update_notices : String → String → JobUpdateRequest → Job → List Notice
unfolding is_final status_notice
update_notices sns_url id req old =
    if can_retry req old
    then []
    else if is_final req.status
    then status_notice sns_url id req.status
    else []

unfoldable pub update_found :
    Bool
    → String
    → String
    → JobUpdateRequest
    → Time
    → Option Job
    → Scheduler
    → Scheduler × Response Reply × List Notice
update_found db_ok sns_url id req now none s = (s, error status_not_found "job not found", [])
update_found db_ok sns_url id req now (some old) s =
    let new = updated_job req now old in
    (put_job db_ok new s, json status_ok (one_job new), update_notices sns_url id req old)

unfoldable pub update_job :
    Bool
    → String
    → Option JobUpdateRequest
    → String
    → Time
    → Scheduler
    → Scheduler × Response Reply × List Notice
update_job db_ok sns_url none id now s = (s, error status_bad_request "failed to decode update", [])
update_job db_ok sns_url (some req) id now s =
    if is_allowed req.status
    then update_found db_ok sns_url id req now (lookup id s.jobs) s
    else (s, error status_bad_request "invalid status", [])

-- One pass of `watchJobTimeouts`; `saves` says of each job whether its row is written.
unfoldable pub sweep :
    (String → Bool) → Time → ℤ → GoMap Job → List JobRow → GoMap Job × List JobRow
sweep saves now timeout [] rows = ([], rows)
sweep saves now timeout ((id, j) ∷ rest) rows =
    let late = is_timed_out now timeout j in
    let j' = timed_out_job now j in
    let (jobs, rows') =
      sweep saves now timeout rest (if late then save (saves id) j' rows else rows) in
    ((id, if late then j' else j) ∷ jobs, rows')

unfoldable pub watch_job_timeouts : (String → Bool) → Time → ℤ → Scheduler → Scheduler
watch_job_timeouts saves now timeout s =
    let (jobs, rows) = sweep saves now timeout s.jobs s.rows in
    record s { jobs = jobs; rows = rows }

-- the message that `GET /queues/jobs/messages` answers with
pub record SqsMessage : Type 0 where
  pub id : String
  pub body : String

unfoldable pub poll_picked :
    Bool → JobRequest → Time → String → Result Node → Scheduler → Scheduler × Option String
poll_picked db_ok req now id (err e) s = (s, none)
poll_picked db_ok req now id (ok node) s = ((queue_job db_ok req node now s).0, some id)

unfoldable pub poll_request :
    Bool → Registry → Option JobRequest → Time → String → Scheduler → Scheduler × Option String
poll_request db_ok reg none now id s = (s, some id)
poll_request db_ok reg (some req) now id s =
    let (choice, counter) = pick_node reg req s.counter in
    if is_empty_request req
    then (s, some id)
    else poll_picked db_ok req now id choice (record s { counter = counter })

-- One round of `pollSQSQueue`: the state after it, and the identifier that is acknowledged by a
-- DELETE. `decode` is `json.Unmarshal` of a body; `none` stands for a failed request or answer.
unfoldable pub poll_sqs_queue :
    (String → Option JobRequest)
    → Bool
    → Registry
    → Option SqsMessage
    → Time
    → Scheduler
    → Scheduler × Option String
poll_sqs_queue decode db_ok reg none now s = (s, none)
poll_sqs_queue decode db_ok reg (some msg) now s =
    if msg.id == "" then (s, none) else poll_request db_ok reg (decode msg.body) now msg.id s
