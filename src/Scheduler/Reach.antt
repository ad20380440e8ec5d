-- ===== src/Scheduler/Reach.antt =====
-- control-plane/scheduler: the states that requests, background rounds and restarts lead to.
use mathlib.Core.Option
use tiny_aws.Prelude.{
  ℕ, ◌+◌, ◌≤◌, ◌<◌, String, Bool, false, ◌≡◌, refl, sym, ap, ◌∙◌, subst, Option, none, some, List,
  [], ◌∷◌, arith, if◌then◌else◌, All, ◌==◌, eq_false, eqb, Bool-cases, inl, inr,
}
use tiny_aws.Prelude.Int.{ℤ}
use tiny_aws.Go.Fmt.{u64_mod, format_id}
use tiny_aws.Go.Fmt.RoundTrip.{format_id-injective, parse_uint-format_id}
use tiny_aws.Go.Errors.{ok}
use tiny_aws.Go.Http.{json, status_created}
use tiny_aws.Go.Map.{
  GoMap, lookup, insert, All-insert, All-lookup, UniqueKeys, insert-UniqueKeys, lookup-insert,
}
use tiny_aws.Go.Time.{Time}
use tiny_aws.Scheduler.Job.{
  Node, Job, JobRequest, JobUpdateRequest, new_job, updated_job, can_retry, retried_job,
  reported_job,
}
use tiny_aws.Scheduler.Outcome.{report-found, updated_job-id, is_allowed-failed}
use tiny_aws.Scheduler.Store.{
  JobRow, of_row, parse_job_seq, number_after, max_seq, load_rows, load_all,
}
use tiny_aws.Scheduler.Pick.{NodesAnswer}
use tiny_aws.Scheduler.Server.{
  Scheduler, Registry, one_job, start, handle_schedule, pick_node, put_job, queue_job,
  is_empty_request, submit_picked, submit_job, update_job, watch_job_timeouts, SqsMessage,
  poll_sqs_queue,
}
use tiny_aws.Scheduler.Invariant.{
  IsGood, IsGoodEntry, IsGoodRow, IsValid, IsGood-mono, entries_mono, next_seq-lt,
}
use tiny_aws.Scheduler.Preserve.{
  counter-IsValid, submit_job-IsValid, update_job-IsValid, poll_sqs_queue-IsValid,
  watch_job_timeouts-IsValid,
}

parse_job_seq-format_id : (k : ℕ) → k < u64_mod → parse_job_seq (format_id "job-" k) ≡ some k
unfolding parse_job_seq
parse_job_seq-format_id k h =
    let (rest, stripped, parsed) = parse_uint-format_id "job-" k h in
    ap number_after stripped ∙ parsed

-- What `LoadAll` has made of the rows that it read.
record IsLoaded (m : ℕ) (rows : List JobRow) (jobs' : GoMap Job) (m' : ℕ) : Type 0 where
  grown : m ≤ m'
  in_range : m' < u64_mod
  keys : UniqueKeys jobs'
  entries : All (IsGoodEntry m') jobs'
  row_entries : All (IsGoodRow m') rows

load_rows-IsLoaded :
    (n : ℕ) (rows : List JobRow) (jobs : GoMap Job) (m : ℕ)
    → n < u64_mod
    → m < u64_mod
    → All (IsGoodRow n) rows
    → UniqueKeys jobs
    → All (IsGoodEntry m) jobs
    → let (jobs', m') = load_rows rows jobs m in IsLoaded m rows jobs' m'
unfolding load_rows of_row
load_rows-IsLoaded n [] jobs m hn hm rs keys entries = record {
  grown = omega arith;
  in_range = hm;
  keys = keys;
  entries = entries;
  row_entries = tt;
}
load_rows-IsLoaded n (r ∷ rows) jobs m hn hm (((k, e, b), retries), rs) keys entries =
    let j : Job = of_row r in
    let seq : parse_job_seq r.id ≡ some k =
      subst (λ id. parse_job_seq id ≡ some k) (sym e) (parse_job_seq-format_id k (omega arith)) in
    let m1 : ℕ = max_seq (parse_job_seq r.id) m in
    let same : m1 ≡ max_seq (some k) m = ap (λ o. max_seq o m) seq in
    let le : m ≤ m1 = ground arith in
    let ge : k ≤ m1 = ground arith in
    let good : IsGood m1 r.id r.retry_count = ((k, e, ge), retries) in
    let rest =
      load_rows-IsLoaded n rows (insert r.id j jobs) m1 hn (ground arith) rs
        (insert-UniqueKeys r.id j jobs keys)
        (All-insert (IsGoodEntry m1) r.id j jobs (refl, good) (entries_mono jobs le entries)) in
    record {
      grown = omega (arith, le, rest.grown);
      in_range = rest.in_range;
      keys = rest.keys;
      entries = rest.entries;
      row_entries = (IsGood-mono rest.grown good, rest.row_entries);
    }

start-IsValid : (s : Scheduler) → IsValid s → IsValid (start s.rows)
unfolding start load_all
start-IsValid s v =
    let loaded =
      load_rows-IsLoaded s.job_seq s.rows [] 0 v.in_range (omega arith) v.good.row_entries tt tt in
    record {
      good = record {
        keys = loaded.keys;
        entries = loaded.entries;
        row_keys = v.good.row_keys;
        row_entries = loaded.row_entries;
      };
      in_range = loaded.in_range;
    }

-- The states that follow from an empty table. `Saves` says which outcomes `jobStore.Save` may have.
pub data Reaches (Saves : Bool → Type 0) : Scheduler → Type 0 where
  initial : Reaches Saves (start [])
  scheduled :
      {s : Scheduler} (a : NodesAnswer) → Reaches Saves s → Reaches Saves (handle_schedule a s).0
  submitted :
      {s : Scheduler} (db_ok : Bool) (reg : Registry) (req : Option JobRequest) (now : Time)
      → Saves db_ok
      → s.job_seq + 1 < u64_mod
      → Reaches Saves s
      → Reaches Saves (submit_job db_ok reg req now s).0
  updated :
      {s : Scheduler} (db_ok : Bool) (url : String) (req : Option JobUpdateRequest) (id : String)
      (now : Time)
      → Saves db_ok
      → Reaches Saves s
      → Reaches Saves (update_job db_ok url req id now s).0
  watched :
      {s : Scheduler} (saves : String → Bool) (now : Time) (timeout : ℤ)
      → ((id : String) → Saves (saves id))
      → Reaches Saves s
      → Reaches Saves (watch_job_timeouts saves now timeout s)
  polled :
      {s : Scheduler} (decode : String → Option JobRequest) (db_ok : Bool) (reg : Registry)
      (poll : Option SqsMessage) (now : Time)
      → Saves db_ok
      → s.job_seq + 1 < u64_mod
      → Reaches Saves s
      → Reaches Saves (poll_sqs_queue decode db_ok reg poll now s).0
  restarted : {s : Scheduler} → Reaches Saves s → Reaches Saves (start s.rows)

initial-IsValid : IsValid (start [])
unfolding start load_all load_rows
initial-IsValid = record {
  good = record { keys = tt; entries = tt; row_keys = tt; row_entries = tt };
  in_range = omega arith;
}

handle_schedule-IsValid :
    (a : NodesAnswer) (s : Scheduler) → IsValid s → IsValid (handle_schedule a s).0
unfolding handle_schedule
handle_schedule-IsValid a s v = counter-IsValid s _ v

-- Every reachable state is valid, whether or not the table could be written.
pub Reaches-IsValid : {Saves : Bool → Type 0} {s : Scheduler} → Reaches Saves s → IsValid s
Reaches-IsValid initial = initial-IsValid
Reaches-IsValid (scheduled {s} a r) = handle_schedule-IsValid a s (Reaches-IsValid r)
Reaches-IsValid (submitted {s} written reg req now _ h r) =
    submit_job-IsValid written reg req now s (Reaches-IsValid r) h
Reaches-IsValid (updated {s} written url req id now _ r) =
    update_job-IsValid written url req id now s (Reaches-IsValid r)
Reaches-IsValid (watched {s} saves now timeout _ r) =
    watch_job_timeouts-IsValid saves now timeout s (Reaches-IsValid r)
Reaches-IsValid (polled {s} decode written reg poll now _ h r) =
    poll_sqs_queue-IsValid decode written reg poll now s (Reaches-IsValid r) h
Reaches-IsValid (restarted {s} r) = start-IsValid s (Reaches-IsValid r)

-- the status of a job, and the retries that it counts
abbrev pub standing : Job → String × ℕ
standing j = (j.status, j.retry_count)

-- what a failure makes of a job that counts so many retries
abbrev pub after_failure : ℕ → String × ℕ
after_failure n = if eqb n 0 then ("pending", 1) else ("failed", 1)

failed_update :
    (req : JobUpdateRequest) (now : Time) (j : Job)
    → req.status ≡ "failed"
    → j.retry_count ≤ 1
    → standing (updated_job req now j) ≡ after_failure j.retry_count
unfolding updated_job can_retry retried_job reported_job
failed_update req now j failure le = elim (Bool-cases (eqb j.retry_count 0)) [
  | inl e ↦ let z : j.retry_count ≡ 0 = ground arith in rw (failure, z) refl
  | inr e ↦ let one : j.retry_count ≡ 1 = ground arith in rw (failure, one) refl
]

-- In every state that requests, background rounds and restarts lead to, whatever writes failed: a
-- job stands under its own identifier, and counts no or one retry. A report that it failed makes it
-- pending again and counts this as its retry, if it counted none; if it counted one, the job
-- becomes failed, and still counts one.
pub retries_bounded :
    {s : Scheduler} (id : String) {j : Job} (db_ok : Bool) (url : String) (req : JobUpdateRequest)
    (now : Time)
    → Reaches (λ b. Unit) s
    → lookup id s.jobs ≡ some j
    → req.status ≡ "failed"
    → let s' = (update_job db_ok url (some req) id now s).0 in
      (j.id ≡ id)
      × (j.retry_count ≤ 1)
      × (Option.map standing (lookup id s'.jobs) ≡ some (after_failure j.retry_count))
retries_bounded {s} id {j} db_ok url req now r e failure =
    let (same, good) =
      All-lookup (IsGoodEntry s.job_seq) id s.jobs (Reaches-IsValid r).good.entries e in
    let (found, notices) =
      report-found db_ok url id req now j s e (updated_job-id req now j ∙ sym same)
        (is_allowed-failed req failure) in
    (
      sym same,
      good.1,
      ap (Option.map standing) found ∙ ap some (failed_update req now j failure good.1),
    )

lookup-fresh :
    (n k : ℕ) (jobs : GoMap Job)
    → All (IsGoodEntry n) jobs
    → n < k
    → lookup (format_id "job-" k) jobs ≡ none
unfolding lookup
lookup-fresh n k [] h lt = refl
lookup-fresh n k ((id, j) ∷ jobs) ((same, ((i, e, b), r)), h) lt =
    rw
      (eq_false id (format_id "job-" k) (λ p.
        let q = format_id-injective "job-" i k (sym e ∙ sym same ∙ p) in absurd (omega arith)))
      (lookup-fresh n k jobs h lt)

-- In every reachable state a submission that names a command or a deployment, and for which a node
-- is found, is answered 201 with a pending job under the next identifier. No job stood under that
-- identifier, also after restarts that lost rows; afterwards the job does, and every other
-- identifier stands for what it stood for.
pub submit_job_fresh :
    {s : Scheduler} (db_ok : Bool) (reg : Registry) (req : JobRequest) (now : Time) (node : Node)
    → Reaches (λ b. Unit) s
    → s.job_seq + 1 < u64_mod
    → is_empty_request req ≡ false
    → (pick_node reg req s.counter).0 ≡ ok node
    → let job = new_job (s.job_seq + 1) node.id req now in
      let (s', reply) = submit_job db_ok reg (some req) now s in
      (reply ≡ json status_created (one_job job))
      × (lookup job.id s.jobs ≡ none)
      × ((id : String) → lookup id s'.jobs ≡ (if job.id == id then some job else lookup id s.jobs))
unfolding submit_job submit_picked queue_job put_job
submit_job_fresh {s} db_ok reg req now node r h full picked = rw full (
    rw picked (
      rw (next_seq-lt s.job_seq h) (
        refl,
        unfold new_job in
            lookup-fresh s.job_seq (s.job_seq + 1) s.jobs (Reaches-IsValid r).good.entries
              (omega arith),
        λ id. lookup-insert _ id _ s.jobs,
      )))
