-- ===== src/Scheduler/Invariant.antt =====
-- control-plane/scheduler/main.go: what holds of the jobs and of their table between requests.
use tiny_aws.Prelude.{ℕ, ◌+◌, ◌≤◌, ◌<◌, String, Bool, ◌≡◌, refl, List, [], ◌∷◌, arith, All}
use tiny_aws.Go.Fmt.{u64_mod, next_seq, format_id}
use tiny_aws.Go.Map.{GoMap, insert, All-insert, UniqueKeys, insert-UniqueKeys}
use tiny_aws.Go.Time.{Time}
use tiny_aws.Sql
use tiny_aws.Sql.Laws.{All-upsert, Unique, Unique-upsert, exec-keeps}
use tiny_aws.Scheduler.Job.{Node, Job, JobRequest, new_job, max_job_retries}
use tiny_aws.Scheduler.Store.{JobRow, row_key, to_row, save}
use tiny_aws.Scheduler.Server.{Scheduler, put_job, queue_job}

-- The identifier is that of a number up to `n`, and the job was not retried too often.
abbrev pub IsGood : ℕ → String → ℕ → Type 0
IsGood n id retries = ((k : ℕ) × (id ≡ format_id "job-" k) × (k ≤ n)) × (retries ≤ max_job_retries)

abbrev pub IsGoodEntry : ℕ → String × Job → Type 0
IsGoodEntry n (k, j) = (k ≡ j.id) × IsGood n j.id j.retry_count

abbrev pub IsGoodRow : ℕ → JobRow → Type 0
IsGoodRow n r = IsGood n r.id r.retry_count

-- The map and the table, apart from the numbers beside them.
pub record AreGood (n : ℕ) (jobs : GoMap Job) (rows : List JobRow) : Type 0 where
  pub keys : UniqueKeys jobs
  pub entries : All (IsGoodEntry n) jobs
  pub row_keys : Unique row_key rows
  pub row_entries : All (IsGoodRow n) rows

-- Every job stands under its own identifier, which the sequence gave out, and was retried at most
-- once; so does and was every row.
pub record IsValid (s : Scheduler) : Type 0 where
  pub good : AreGood s.job_seq s.jobs s.rows
  pub in_range : s.job_seq < u64_mod

save-keeps :
    (P : List JobRow → Type 0) (db_ok : Bool) (j : Job) (rows : List JobRow)
    → P rows
    → P (Sql.upsert row_key (to_row j) rows)
    → P (save db_ok j rows)
unfolding save
save-keeps P db_ok j rows old new = exec-keeps P db_ok _ rows old new

pub save-AreGood :
    (n : ℕ) (db_ok : Bool) (j : Job) (jobs jobs' : GoMap Job) (rows : List JobRow)
    → IsGood n j.id j.retry_count
    → UniqueKeys jobs'
    → All (IsGoodEntry n) jobs'
    → AreGood n jobs rows
    → AreGood n jobs' (save db_ok j rows)
unfolding to_row
save-AreGood n db_ok j jobs jobs' rows h keys entries g = record {
  keys = keys;
  entries = entries;
  row_keys =
      save-keeps (Unique row_key) db_ok j rows g.row_keys
        (Unique-upsert row_key (to_row j) rows g.row_keys);
  row_entries =
      save-keeps (All (IsGoodRow n)) db_ok j rows g.row_entries
        (All-upsert row_key (IsGoodRow n) (to_row j) rows h g.row_entries);
}

pub put_job-IsValid :
    (db_ok : Bool) (j : Job) (s : Scheduler)
    → IsGood s.job_seq j.id j.retry_count
    → IsValid s
    → IsValid (put_job db_ok j s)
unfolding put_job
put_job-IsValid db_ok j s h v = record {
  good =
      save-AreGood s.job_seq db_ok j s.jobs (insert j.id j s.jobs) s.rows h
        (insert-UniqueKeys j.id j s.jobs v.good.keys)
        (All-insert (IsGoodEntry s.job_seq) j.id j s.jobs (refl, h) v.good.entries) v.good;
  in_range = v.in_range;
}

-- A greater bound does for all.
pub IsGood-mono : {n n' r : ℕ} {id : String} → n ≤ n' → IsGood n id r → IsGood n' id r
IsGood-mono le ((k, e, b), r) = ((k, e, omega arith), r)

pub entries_mono :
    {n n' : ℕ} (jobs : GoMap Job) → n ≤ n' → All (IsGoodEntry n) jobs → All (IsGoodEntry n') jobs
entries_mono [] le h = tt
entries_mono ((k, j) ∷ jobs) le ((same, g), h) = ((same, IsGood-mono le g), entries_mono jobs le h)

pub rows_mono :
    {n n' : ℕ} (rows : List JobRow) → n ≤ n' → All (IsGoodRow n) rows → All (IsGoodRow n') rows
rows_mono [] le h = tt
rows_mono (r ∷ rows) le (g, h) = (IsGood-mono le g, rows_mono rows le h)

pub next_seq-lt : (n : ℕ) → n + 1 < u64_mod → next_seq n ≡ n + 1
unfolding next_seq
next_seq-lt n h = omega arith

pub queue_job-IsValid :
    (db_ok : Bool) (req : JobRequest) (node : Node) (now : Time) (s : Scheduler)
    → IsValid s
    → s.job_seq + 1 < u64_mod
    → IsValid (queue_job db_ok req node now s).0
unfolding queue_job
queue_job-IsValid db_ok req node now s v h = rw (next_seq-lt s.job_seq h) (
    put_job-IsValid db_ok (new_job (s.job_seq + 1) node.id req now)
      (record s { job_seq = s.job_seq + 1 })
      (unfold new_job in ((s.job_seq + 1, refl, omega arith), omega arith))
      (record {
        good = record {
          keys = v.good.keys;
          entries = entries_mono s.jobs (omega arith) v.good.entries;
          row_keys = v.good.row_keys;
          row_entries = rows_mono s.rows (omega arith) v.good.row_entries;
        };
        in_range = h;
      }))
