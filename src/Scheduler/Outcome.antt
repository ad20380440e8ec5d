-- ===== src/Scheduler/Outcome.antt =====
-- control-plane/scheduler/main.go: what becomes of queued messages and of reported failures.
use mathlib.Core.Option
use tiny_aws.Prelude.{
  ℕ, String, Bool, true, false, ◌≡◌, ◌≢◌, refl, ap, ◌∙◌, if◌then◌else◌, Option, none, some, [],
  arith, eq_refl, eq_false,
}
use tiny_aws.Go.Errors.{Result, ok, err}
use tiny_aws.Go.Fmt.{next_seq}
use tiny_aws.Go.Map.{lookup, lookup-insert}
use tiny_aws.Go.Time.{Time}
use tiny_aws.Sql
use tiny_aws.Sql.Laws.{find-upsert}
use tiny_aws.Scheduler.Job.{
  Node, Job, JobRequest, JobUpdateRequest, new_job, is_allowed, is_final, can_retry, retried_job,
  reported_job, updated_job,
}
use tiny_aws.Scheduler.Store.{row_key, to_row, save}
use tiny_aws.Scheduler.Server.{
  Scheduler, Registry, pick_node, put_job, queue_job, is_empty_request, SqsMessage, poll_picked,
  poll_request, poll_sqs_queue, status_notice, update_notices, update_found, update_job,
}

-- What a poll does with a message that asks for a job, by the choice of a node.
abbrev pub IsHandled :
    Bool
    → Result Node
    → SqsMessage
    → JobRequest
    → Time
    → Scheduler
    → Scheduler × Option String
    → Type 0
IsHandled db_ok (err e) msg req now s (s', ack) =
    (ack ≡ none) × (s'.jobs ≡ s.jobs) × (s'.rows ≡ s.rows)
IsHandled db_ok (ok node) msg req now s (s', ack) =
    let job = new_job (next_seq s.job_seq) node.id req now in
    (ack ≡ some msg.id)
    × (lookup job.id s'.jobs ≡ some job)
    × (Sql.find row_key job.id s'.rows
        ≡ (if db_ok then some (to_row job) else Sql.find row_key job.id s.rows))

picked-IsHandled :
    (db_ok : Bool) (msg : SqsMessage) (req : JobRequest) (now : Time) (choice : Result Node)
    (counter : ℕ) (s : Scheduler)
    → IsHandled db_ok choice msg req now s
        (poll_picked db_ok req now msg.id choice (record s { counter = counter }))
unfolding poll_picked queue_job put_job save Sql.exec
picked-IsHandled db_ok msg req now (err e) counter s = (refl, refl, refl)
picked-IsHandled false msg req now (ok node) counter s =
    let job = new_job (next_seq s.job_seq) node.id req now in
    (refl, lookup-insert job.id job.id job s.jobs ∙ rw (eq_refl job.id), refl)
picked-IsHandled true msg req now (ok node) counter s =
    let job = new_job (next_seq s.job_seq) node.id req now in
    (
      refl,
      lookup-insert job.id job.id job s.jobs ∙ rw (eq_refl job.id),
      find-upsert row_key (to_row job) job.id s.rows ∙ (unfold to_row in rw (eq_refl job.id)),
    )

-- A poll that gets a message with an identifier, which asks for a job: if no node is found, the
-- message is not acknowledged and no job changes; if one is, the message is acknowledged and the job
-- stands in memory, even where the write of its row fails. The row stands in the table where the
-- write succeeds, and otherwise the table has of this identifier what it had.
pub poll_handles_message :
    (decode : String → Option JobRequest) (db_ok : Bool) (reg : Registry) (msg : SqsMessage)
    (req : JobRequest) (now : Time) (s : Scheduler)
    → msg.id ≢ ""
    → decode msg.body ≡ some req
    → is_empty_request req ≡ false
    → IsHandled db_ok
        (pick_node reg req s.counter).0
        msg
        req
        now
        s
        (poll_sqs_queue decode db_ok reg (some msg) now s)
unfolding poll_sqs_queue poll_request
poll_handles_message decode db_ok reg msg req now s named decoded full =
    rw (eq_false msg.id "" named) (
      rw decoded (
        rw full (
          picked-IsHandled db_ok msg req now (pick_node reg req s.counter).0
            (pick_node reg req s.counter).1 s)))

-- what an allowed report does with a job that is there
pub report-found :
    (db_ok : Bool) (url id : String) (req : JobUpdateRequest) (now : Time) (j : Job) (s : Scheduler)
    → lookup id s.jobs ≡ some j
    → (updated_job req now j).id ≡ id
    → is_allowed req.status ≡ true
    → let (s', reply, notices) = update_job db_ok url (some req) id now s in
      (lookup id s'.jobs ≡ some (updated_job req now j)) × (notices ≡ update_notices url id req j)
unfolding update_job update_found put_job
report-found db_ok url id req now j s held same allowed = rw allowed (
    rw held (
      lookup-insert (updated_job req now j).id id (updated_job req now j) s.jobs
          ∙ rw same (rw (eq_refl id)),
      refl,
    ))

pub updated_job-id :
    (req : JobUpdateRequest) (now : Time) (j : Job) → (updated_job req now j).id ≡ j.id
unfolding updated_job retried_job reported_job
updated_job-id req now j = ground arith

pub is_allowed-failed :
    (req : JobUpdateRequest) → req.status ≡ "failed" → is_allowed req.status ≡ true
unfolding is_allowed
is_allowed-failed req e = rw e

first_failure :
    (req : JobUpdateRequest) (j : Job)
    → req.status ≡ "failed"
    → j.retry_count ≡ 0
    → can_retry req j ≡ true
unfolding can_retry
first_failure req j e z = rw (e, z)

second_failure :
    (req first : JobUpdateRequest) (j : Job)
    → j.retry_count ≡ 0
    → can_retry req (retried_job first j) ≡ false
unfolding can_retry retried_job
second_failure req first j z = ground arith

-- A job that was not retried yet, and two reports that it failed: after the first it is pending
-- again and nobody is notified; after the second it is failed, and one notice goes out if topics
-- are configured. Writes of rows may fail.
pub retry_then_fail :
    (ok1 ok2 : Bool) (url id : String) (first second : JobUpdateRequest) (t1 t2 : Time) (j : Job)
    (s : Scheduler)
    → lookup id s.jobs ≡ some j
    → j.id ≡ id
    → j.retry_count ≡ 0
    → first.status ≡ "failed"
    → second.status ≡ "failed"
    → let (s1, r1, notices1) = update_job ok1 url (some first) id t1 s in
      let (s2, r2, notices2) = update_job ok2 url (some second) id t2 s1 in
      (Option.map (λ x. x.status) (lookup id s1.jobs) ≡ some "pending")
      × (notices1 ≡ [])
      × (Option.map (λ x. x.status) (lookup id s2.jobs) ≡ some "failed")
      × (notices2 ≡ status_notice url id "failed")
retry_then_fail ok1 ok2 url id first second t1 t2 j s held same fresh f1 f2 =
    let j1 = updated_job first t1 j in
    let s1 = (update_job ok1 url (some first) id t1 s).0 in
    let retried : j1 ≡ retried_job first j =
      unfold updated_job in rw (first_failure first j f1 fresh) refl in
    let (here1, n1) =
      report-found ok1 url id first t1 j s held (updated_job-id first t1 j ∙ same)
        (is_allowed-failed first f1) in
    let (here2, n2) =
      report-found ok2 url id second t2 j1 s1 here1
        (updated_job-id second t2 j1 ∙ updated_job-id first t1 j ∙ same)
        (is_allowed-failed second f2) in
    let final : can_retry second j1 ≡ false =
      ap (can_retry second) retried ∙ second_failure second first j fresh in
    (
      ap (Option.map (λ x. x.status)) (here1 ∙ ap some retried) ∙ (unfold retried_job in refl),
      n1 ∙ (unfold update_notices in rw (first_failure first j f1 fresh) refl),
      ap (Option.map (λ x. x.status)) here2
          ∙ (unfold updated_job reported_job in rw final (ap some f2)),
      n2 ∙ (unfold update_notices is_final in rw final (rw f2 refl)),
    )
