-- ===== src/Scheduler/Preserve.antt =====
-- control-plane/scheduler/main.go: each handler and background round keeps the invariant.
use tiny_aws.Prelude.{
  ℕ, ◌+◌, ◌≤◌, ◌<◌, String, Bool, true, false, ◌≡◌, refl, sym, subst, Option, none, some, List, [],
  ◌∷◌, arith, if◌then◌else◌, Bool-cases, inl, inr, ◌==◌,
}
use tiny_aws.Prelude.Int.{ℤ}
use tiny_aws.Go.Fmt.{u64_mod}
use tiny_aws.Go.Errors.{Result, ok, err}
use tiny_aws.Go.Map.{GoMap, lookup, All-lookup}
use tiny_aws.Go.Time.{Time}
use tiny_aws.Scheduler.Job.{
  Node, Job, JobRequest, JobUpdateRequest, is_allowed, can_retry, updated_job, retried_job,
  reported_job, is_timed_out, timed_out_job, max_job_retries,
}
use tiny_aws.Scheduler.Store.{JobRow, save}
use tiny_aws.Scheduler.Server.{
  Scheduler, Registry, pick_node, submit_picked, submit_job, update_found, update_job, sweep,
  watch_job_timeouts, SqsMessage, is_empty_request, poll_picked, poll_request, poll_sqs_queue,
}
use tiny_aws.Scheduler.Invariant.{
  IsGood, IsGoodEntry, AreGood, IsValid, save-AreGood, put_job-IsValid, queue_job-IsValid,
}

submit_picked-IsValid :
    (db_ok : Bool) (req : JobRequest) (now : Time) (choice : Result Node) (s : Scheduler)
    → IsValid s
    → s.job_seq + 1 < u64_mod
    → IsValid (submit_picked db_ok req now choice s).0
unfolding submit_picked
submit_picked-IsValid db_ok req now (err e) s v h = v
submit_picked-IsValid db_ok req now (ok node) s v h = queue_job-IsValid db_ok req node now s v h

-- The counter of the choice is no part of the invariant.
pub counter-IsValid : (s : Scheduler) (c : ℕ) → IsValid s → IsValid (record s { counter = c })
counter-IsValid s c v = record { good = v.good; in_range = v.in_range }

pub submit_job-IsValid :
    (db_ok : Bool) (reg : Registry) (req : Option JobRequest) (now : Time) (s : Scheduler)
    → IsValid s
    → s.job_seq + 1 < u64_mod
    → IsValid (submit_job db_ok reg req now s).0
unfolding submit_job
submit_job-IsValid db_ok reg none now s v h = v
submit_job-IsValid db_ok reg (some req) now s v h = elim (Bool-cases (is_empty_request req)) [
  | inl e ↦ rw e v
  | inr e ↦ rw e (
      submit_picked-IsValid db_ok req now (pick_node reg req s.counter).0
        (record s { counter = (pick_node reg req s.counter).1 }) (counter-IsValid s _ v) h)
]

updated_job-id : (req : JobUpdateRequest) (now : Time) (j : Job) → (updated_job req now j).id ≡ j.id
unfolding updated_job retried_job reported_job
updated_job-id req now j = ground arith

updated_job-retries :
    (req : JobUpdateRequest) (now : Time) (j : Job)
    → j.retry_count ≤ max_job_retries
    → (updated_job req now j).retry_count ≤ max_job_retries
unfolding updated_job retried_job reported_job can_retry
updated_job-retries req now j h = ground arith

update_found-IsValid :
    (db_ok : Bool) (url id : String) (req : JobUpdateRequest) (now : Time) (s : Scheduler)
    (o : Option Job)
    → lookup id s.jobs ≡ o
    → IsValid s
    → IsValid (update_found db_ok url id req now o s).0
unfolding update_found
update_found-IsValid db_ok url id req now s none e v = v
update_found-IsValid db_ok url id req now s (some j) e v =
    let entry = All-lookup (IsGoodEntry s.job_seq) id s.jobs v.good.entries e in
    put_job-IsValid db_ok (updated_job req now j) s
      (subst (λ x. IsGood s.job_seq x (updated_job req now j).retry_count)
        (sym (updated_job-id req now j)) (entry.1.0, updated_job-retries req now j entry.1.1))
      v

pub update_job-IsValid :
    (db_ok : Bool) (url : String) (req : Option JobUpdateRequest) (id : String) (now : Time)
    (s : Scheduler)
    → IsValid s
    → IsValid (update_job db_ok url req id now s).0
unfolding update_job
update_job-IsValid db_ok url none id now s v = v
update_job-IsValid db_ok url (some req) id now s v = elim (Bool-cases (is_allowed req.status)) [
  | inl e ↦ rw e (update_found-IsValid db_ok url id req now s (lookup id s.jobs) refl v)
  | inr e ↦ rw e v
]

poll_picked-IsValid :
    (db_ok : Bool) (req : JobRequest) (now : Time) (id : String) (choice : Result Node)
    (s : Scheduler)
    → IsValid s
    → s.job_seq + 1 < u64_mod
    → IsValid (poll_picked db_ok req now id choice s).0
unfolding poll_picked
poll_picked-IsValid db_ok req now id (err e) s v h = v
poll_picked-IsValid db_ok req now id (ok node) s v h = queue_job-IsValid db_ok req node now s v h

poll_request-IsValid :
    (db_ok : Bool) (reg : Registry) (req : Option JobRequest) (now : Time) (id : String)
    (s : Scheduler)
    → IsValid s
    → s.job_seq + 1 < u64_mod
    → IsValid (poll_request db_ok reg req now id s).0
unfolding poll_request
poll_request-IsValid db_ok reg none now id s v h = v
poll_request-IsValid db_ok reg (some req) now id s v h = elim (Bool-cases (is_empty_request req)) [
  | inl e ↦ rw e v
  | inr e ↦ rw e (
      poll_picked-IsValid db_ok req now id (pick_node reg req s.counter).0
        (record s { counter = (pick_node reg req s.counter).1 }) (counter-IsValid s _ v) h)
]

pub poll_sqs_queue-IsValid :
    (decode : String → Option JobRequest) (db_ok : Bool) (reg : Registry) (poll : Option SqsMessage)
    (now : Time) (s : Scheduler)
    → IsValid s
    → s.job_seq + 1 < u64_mod
    → IsValid (poll_sqs_queue decode db_ok reg poll now s).0
unfolding poll_sqs_queue
poll_sqs_queue-IsValid decode db_ok reg none now s v h = v
poll_sqs_queue-IsValid decode db_ok reg (some msg) now s v h = elim (Bool-cases (msg.id == "")) [
  | inl e ↦ rw e v
  | inr e ↦ rw e (poll_request-IsValid db_ok reg (decode msg.body) now msg.id s v h)
]

sweep_entry-IsGood :
    (n : ℕ) (id : String) (now : Time) (late : Bool) (j : Job)
    → IsGoodEntry n (id, j)
    → IsGoodEntry n (id, if late then timed_out_job now j else j)
unfolding timed_out_job
sweep_entry-IsGood n id now true j h = h
sweep_entry-IsGood n id now false j h = h

sweep_absent :
    (saves : String → Bool) (now : Time) (timeout : ℤ) (k : String) (jobs : GoMap Job)
    (rows : List JobRow)
    → lookup k jobs ≡ none
    → lookup k (sweep saves now timeout jobs rows).0 ≡ none
unfolding lookup sweep
sweep_absent saves now timeout k [] rows h = refl
sweep_absent saves now timeout k ((id, j) ∷ jobs) rows h = elim (Bool-cases (id == k)) [
  | inl e ↦ let p = rw e at h in cc
  | inr e ↦ rw e (sweep_absent saves now timeout k jobs _ (rw e at h))
]

sweep-AreGood :
    (saves : String → Bool) (now : Time) (timeout : ℤ) (n : ℕ) (jobs : GoMap Job)
    (rows : List JobRow)
    → AreGood n jobs rows
    → let (jobs', rows') = sweep saves now timeout jobs rows in AreGood n jobs' rows'
unfolding sweep
sweep-AreGood saves now timeout n [] rows g = g
sweep-AreGood saves now timeout n ((id, j) ∷ jobs) rows g =
    let (fresh, keys) = g.keys in
    let (entry, entries) = g.entries in
    let rest : AreGood n jobs rows = record {
      keys = keys;
      entries = entries;
      row_keys = g.row_keys;
      row_entries = g.row_entries;
    } in
    let saved : AreGood n jobs
        (if is_timed_out now timeout j then save (saves id) (timed_out_job now j) rows else rows) =
      saved_rows (is_timed_out now timeout j) entry.1 rest in
    let done = sweep-AreGood saves now timeout n jobs _ saved in
    record {
      keys = (sweep_absent saves now timeout id jobs _ fresh, done.keys);
      entries = (sweep_entry-IsGood n id now (is_timed_out now timeout j) j entry, done.entries);
      row_keys = done.row_keys;
      row_entries = done.row_entries;
    }
  where
    saved_rows :
        (late : Bool)
        → IsGood n j.id j.retry_count
        → AreGood n jobs rows
        → AreGood n jobs (if late then save (saves id) (timed_out_job now j) rows else rows)
    saved_rows true h g' =
        save-AreGood n (saves id) (timed_out_job now j) jobs jobs rows (unfold timed_out_job in h)
          g'.keys g'.entries g'
    saved_rows false h g' = g'

pub watch_job_timeouts-IsValid :
    (saves : String → Bool) (now : Time) (timeout : ℤ) (s : Scheduler)
    → IsValid s
    → IsValid (watch_job_timeouts saves now timeout s)
unfolding watch_job_timeouts
watch_job_timeouts-IsValid saves now timeout s v = record {
  good = sweep-AreGood saves now timeout s.job_seq s.jobs s.rows v.good;
  in_range = v.in_range;
}
