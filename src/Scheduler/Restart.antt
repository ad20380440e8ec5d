-- ===== src/Scheduler/Restart.antt =====
-- control-plane/scheduler: a restart after any history in which every row was written.
use mathlib.Core.Option
use tiny_aws.Prelude.{
  String, Bool, true, ◌≡◌, refl, sym, ap, ◌∙◌, subst, fun_ext, Option, none, some, Bool-cases, inl,
  inr, ◌==◌,
}
use tiny_aws.Go.Errors.{Result, ok, err}
use tiny_aws.Sql
use tiny_aws.Prelude.{[]}
use tiny_aws.Go.Map.{lookup}
use tiny_aws.Go.Time.{Time}
use tiny_aws.Scheduler.Job.{
  Node, Job, JobRequest, JobUpdateRequest, new_job, updated_job, is_allowed,
}
use tiny_aws.Scheduler.Store.{to_row, of_row, load_all, load_rows}
use tiny_aws.Scheduler.Pick.{NodesAnswer}
use tiny_aws.Scheduler.Server.{
  Scheduler, Registry, start, handle_schedule, queue_job, is_empty_request, submit_picked,
  submit_job, update_found, update_job, watch_job_timeouts, SqsMessage, poll_picked, poll_request,
  poll_sqs_queue,
}
use tiny_aws.Scheduler.Reach.{
  Reaches, initial, scheduled, submitted, updated, watched, polled, restarted, Reaches-IsValid,
}
use tiny_aws.Scheduler.Durable.{
  InSync, put_job-InSync, sweep-InSync, restored, of_row-to_row, lookup-start, start-InSync,
}

-- the jobs and the table of a state
abbrev IsDurable : Scheduler → Type 0
IsDurable s = InSync s.jobs s.rows

queue_job-IsDurable :
    (req : JobRequest) (node : Node) (now : Time) (s : Scheduler)
    → IsDurable s
    → IsDurable (queue_job true req node now s).0
unfolding queue_job
queue_job-IsDurable req node now s h = put_job-InSync (new_job _ node.id req now) _ h

submit_picked-IsDurable :
    (req : JobRequest) (now : Time) (choice : Result Node) (s : Scheduler)
    → IsDurable s
    → IsDurable (submit_picked true req now choice s).0
unfolding submit_picked
submit_picked-IsDurable req now (err e) s h = h
submit_picked-IsDurable req now (ok node) s h = queue_job-IsDurable req node now s h

submit_job-IsDurable :
    (reg : Registry) (req : Option JobRequest) (now : Time) (s : Scheduler)
    → IsDurable s
    → IsDurable (submit_job true reg req now s).0
unfolding submit_job
submit_job-IsDurable reg none now s h = h
submit_job-IsDurable reg (some req) now s h = elim (Bool-cases (is_empty_request req)) [
  | inl e ↦ rw e h
  | inr e ↦ rw e (submit_picked-IsDurable req now _ _ h)
]

poll_picked-IsDurable :
    (req : JobRequest) (now : Time) (id : String) (choice : Result Node) (s : Scheduler)
    → IsDurable s
    → IsDurable (poll_picked true req now id choice s).0
unfolding poll_picked
poll_picked-IsDurable req now id (err e) s h = h
poll_picked-IsDurable req now id (ok node) s h = queue_job-IsDurable req node now s h

poll_request-IsDurable :
    (reg : Registry) (req : Option JobRequest) (now : Time) (id : String) (s : Scheduler)
    → IsDurable s
    → IsDurable (poll_request true reg req now id s).0
unfolding poll_request
poll_request-IsDurable reg none now id s h = h
poll_request-IsDurable reg (some req) now id s h = elim (Bool-cases (is_empty_request req)) [
  | inl e ↦ rw e h
  | inr e ↦ rw e (poll_picked-IsDurable req now id _ _ h)
]

poll_sqs_queue-IsDurable :
    (decode : String → Option JobRequest) (reg : Registry) (poll : Option SqsMessage) (now : Time)
    (s : Scheduler)
    → IsDurable s
    → IsDurable (poll_sqs_queue decode true reg poll now s).0
unfolding poll_sqs_queue
poll_sqs_queue-IsDurable decode reg none now s h = h
poll_sqs_queue-IsDurable decode reg (some msg) now s h = elim (Bool-cases (msg.id == "")) [
  | inl e ↦ rw e h
  | inr e ↦ rw e (poll_request-IsDurable reg (decode msg.body) now msg.id s h)
]

update_found-IsDurable :
    (url id : String) (req : JobUpdateRequest) (now : Time) (o : Option Job) (s : Scheduler)
    → IsDurable s
    → IsDurable (update_found true url id req now o s).0
unfolding update_found
update_found-IsDurable url id req now none s h = h
update_found-IsDurable url id req now (some j) s h = put_job-InSync (updated_job req now j) s h

update_job-IsDurable :
    (url : String) (req : Option JobUpdateRequest) (id : String) (now : Time) (s : Scheduler)
    → IsDurable s
    → IsDurable (update_job true url req id now s).0
unfolding update_job
update_job-IsDurable url none id now s h = h
update_job-IsDurable url (some req) id now s h = elim (Bool-cases (is_allowed req.status)) [
  | inl e ↦ rw e (update_found-IsDurable url id req now _ s h)
  | inr e ↦ rw e h
]

initial-IsDurable : IsDurable (start [])
unfolding start load_all load_rows lookup Sql.find
initial-IsDurable id = refl

-- every write of a row succeeds
abbrev pub Written : Bool → Type 0
Written b = b ≡ true

Reaches-IsDurable : {s : Scheduler} → Reaches Written s → IsDurable s
Reaches-IsDurable initial = initial-IsDurable
Reaches-IsDurable (scheduled {s} a r) = unfold_schedule a s (Reaches-IsDurable r)
  where
    unfold_schedule :
        (a : NodesAnswer) (s : Scheduler) → IsDurable s → IsDurable (handle_schedule a s).0
    unfold_schedule a s h = unfold handle_schedule in h
Reaches-IsDurable (submitted {s} db_ok reg req now w _ r) =
    subst (λ b. IsDurable (submit_job b reg req now s).0) (sym w)
      (submit_job-IsDurable reg req now s (Reaches-IsDurable r))
Reaches-IsDurable (updated {s} db_ok url req id now w r) =
    subst (λ b. IsDurable (update_job b url req id now s).0) (sym w)
      (update_job-IsDurable url req id now s (Reaches-IsDurable r))
Reaches-IsDurable (watched {s} saves now timeout w r) =
    subst (λ f. IsDurable (watch_job_timeouts f now timeout s)) (sym (fun_ext w))
      (sweep-InSync now timeout s (Reaches-IsValid r) (Reaches-IsDurable r))
Reaches-IsDurable (polled {s} decode db_ok reg poll now w _ r) =
    subst (λ b. IsDurable (poll_sqs_queue decode b reg poll now s).0) (sym w)
      (poll_sqs_queue-IsDurable decode reg poll now s (Reaches-IsDurable r))
Reaches-IsDurable (restarted {s} r) = start-InSync s (Reaches-IsValid r)

-- After any requests, background rounds and restarts in which every write of a row succeeded, a
-- restart finds the same jobs under the same identifiers, and no others; a job comes back with its
-- times cut to whole seconds and an empty map of variables as nil, and is otherwise the same.
pub restart_restores :
    {s : Scheduler} (id : String)
    → Reaches Written s
    → lookup id (start s.rows).jobs ≡ Option.map restored (lookup id s.jobs)
restart_restores {s} id r =
    lookup-start s id (Reaches-IsValid r)
    ∙ ap (Option.map of_row) (Reaches-IsDurable r id)
    ∙ each (lookup id s.jobs)
  where
    each : (o : Option Job) → Option.map of_row (Option.map to_row o) ≡ Option.map restored o
    each none = refl
    each (some j) = ap some (of_row-to_row j)
