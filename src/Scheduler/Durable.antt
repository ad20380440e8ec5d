-- ===== src/Scheduler/Durable.antt =====
-- control-plane/scheduler/store.go and main.go: the table mirrors the jobs, and a restart restores
-- them.
use mathlib.Core.Option
use tiny_aws.Prelude.{
  ℕ, ◌*◌, ◌/◌, String, Bool, true, false, ◌≡◌, refl, sym, ap, ◌∙◌, subst, Option, none, some, List,
  [], ◌∷◌, arith, if◌then◌else◌, All, Bool-cases, inl, inr, ◌==◌, eq_iff,
}
use tiny_aws.Prelude.Int.{ℤ}
use tiny_aws.Go.Map.{GoMap, lookup, insert, UniqueKeys, lookup-insert}
use tiny_aws.Go.Time.{Time, second, format_rfc3339, parse_rfc3339}
use tiny_aws.Sql
use tiny_aws.Sql.Laws.{Unique, find-upsert, find-absent}
use tiny_aws.Scheduler.Job.{Job, is_timed_out, timed_out_job}
use tiny_aws.Scheduler.Store.{
  JobRow, row_key, to_row, of_row, env_field, env_column, save, load_rows, load_all,
}
use tiny_aws.Scheduler.Server.{Scheduler, start, put_job, sweep, watch_job_timeouts}
use tiny_aws.Scheduler.Invariant.{IsValid, IsGoodEntry}

-- The table holds the row of each job, and no other.
abbrev pub InSync : GoMap Job → List JobRow → Type 0
InSync jobs rows = (id : String) → Sql.find row_key id rows ≡ Option.map to_row (lookup id jobs)

pub put_job-InSync :
    (j : Job) (s : Scheduler)
    → InSync s.jobs s.rows
    → InSync (put_job true j s).jobs (put_job true j s).rows
unfolding put_job save Sql.exec to_row
put_job-InSync j s h id =
    find-upsert row_key (to_row j) id s.rows
    ∙ rw (lookup-insert j.id id j s.jobs) (by_key (j.id == id))
  where
    by_key :
        (same : Bool)
        → (if same then some (to_row j) else Sql.find row_key id s.rows)
          ≡ Option.map to_row (if same then some j else lookup id s.jobs)
    by_key true = refl
    by_key false = h id

-- what one pass makes of a job, and of its row
unfoldable pub swept : Time → ℤ → Job → Job
swept now timeout j = if is_timed_out now timeout j then timed_out_job now j else j

swept_row : Time → ℤ → Option Job → Option JobRow → Option JobRow
swept_row now timeout none old = old
swept_row now timeout (some j) old =
    if is_timed_out now timeout j then some (to_row (timed_out_job now j)) else old

pub lookup-sweep :
    (saves : String → Bool) (now : Time) (timeout : ℤ) (k : String) (jobs : GoMap Job)
    (rows : List JobRow)
    → lookup k (sweep saves now timeout jobs rows).0
      ≡ Option.map (swept now timeout) (lookup k jobs)
unfolding lookup sweep
lookup-sweep saves now timeout k [] rows = refl
lookup-sweep saves now timeout k ((id, j) ∷ jobs) rows = elim (Bool-cases (id == k)) [
  | inl e ↦ rw e (unfold swept in refl)
  | inr e ↦ rw e (lookup-sweep saves now timeout k jobs _)
]

find-saved :
    (late : Bool) (j : Job) (k : String) (rows : List JobRow)
    → Sql.find row_key k (if late then save true j rows else rows) ≡ (
        if late
        then (if j.id == k then some (to_row j) else Sql.find row_key k rows)
        else Sql.find row_key k rows)
unfolding save Sql.exec
find-saved true j k rows = find-upsert row_key (to_row j) k rows ∙ (unfold to_row in refl)
find-saved false j k rows = refl

timed_out_job-id : (now : Time) (j : Job) → (timed_out_job now j).id ≡ j.id
unfolding timed_out_job
timed_out_job-id now j = refl

if_same {ℓ} : {A : Type ℓ} (b : Bool) (x : A) → (if b then x else x) ≡ x
if_same true x = refl
if_same false x = refl

find-sweep :
    (n : ℕ) (now : Time) (timeout : ℤ) (k : String) (jobs : GoMap Job) (rows : List JobRow)
    → UniqueKeys jobs
    → All (IsGoodEntry n) jobs
    → Sql.find row_key k (sweep (λ id. true) now timeout jobs rows).1
      ≡ swept_row now timeout (lookup k jobs) (Sql.find row_key k rows)
unfolding lookup sweep swept_row
find-sweep n now timeout k [] rows keys entries = refl
find-sweep n now timeout k ((id, j) ∷ jobs) rows (fresh, keys) ((same, _), entries) =
    find-sweep n now timeout k jobs _ keys entries
    ∙ rw (find-saved (is_timed_out now timeout j) (timed_out_job now j) k rows)
        (elim (Bool-cases (id == k)) [
          | inl e ↦ rw (subst (λ x. lookup x jobs ≡ none) ((eq_iff id k).0 e) fresh) (
              rw e (rw (subst (λ x. (x == k) ≡ true) (same ∙ sym (timed_out_job-id now j)) e) refl))
          | inr e ↦ rw e (
              rw (subst (λ x. (x == k) ≡ false) (same ∙ sym (timed_out_job-id now j)) e) (
                ap (swept_row now timeout (lookup k jobs))
                  (if_same (is_timed_out now timeout j) _)))
        ])

env_column-env_field : (m : GoMap String) → env_column (env_field m) ≡ m
env_column-env_field [] = refl
env_column-env_field (p ∷ m) = refl

format-parse : (n : ℕ) → format_rfc3339 (parse_rfc3339 n) ≡ n
format-parse n = omega arith

map-format-parse :
    (o : Option ℕ) → Option.map (λ t. format_rfc3339 t) (Option.map (λ t. parse_rfc3339 t) o) ≡ o
map-format-parse none = refl
map-format-parse (some n) = ap some (format-parse n)

to_row-of_row : (r : JobRow) → to_row (of_row r) ≡ r
unfolding to_row of_row
to_row-of_row r = λ i. record r {
  env_vars = env_column-env_field r.env_vars i;
  created_at = format-parse r.created_at i;
  running_at = map-format-parse r.running_at i;
  finished_at = map-format-parse r.finished_at i;
}

swept_row-swept :
    (now : Time) (timeout : ℤ) (o : Option Job)
    → swept_row now timeout o (Option.map to_row o)
      ≡ Option.map to_row (Option.map (swept now timeout) o)
unfolding swept_row swept
swept_row-swept now timeout none = refl
swept_row-swept now timeout (some j) = elim (Bool-cases (is_timed_out now timeout j)) [
  | inl e ↦ rw e
  | inr e ↦ rw e
]

pub sweep-InSync :
    (now : Time) (timeout : ℤ) (s : Scheduler)
    → IsValid s
    → InSync s.jobs s.rows
    → let s' = watch_job_timeouts (λ id. true) now timeout s in InSync s'.jobs s'.rows
unfolding watch_job_timeouts
sweep-InSync now timeout s v h id =
    find-sweep s.job_seq now timeout id s.jobs s.rows v.good.keys v.good.entries
    ∙ ap (swept_row now timeout (lookup id s.jobs)) (h id)
    ∙ swept_row-swept now timeout (lookup id s.jobs)
    ∙ ap (Option.map to_row) (sym (lookup-sweep (λ k. true) now timeout id s.jobs s.rows))

-- What `LoadAll` finds under an identifier: its row, or what the map held before.
loaded : Option JobRow → Option Job → Option Job
loaded none old = old
loaded (some r) old = some (of_row r)

lookup-load_rows :
    (id : String) (rows : List JobRow) (jobs : GoMap Job) (m : ℕ)
    → Unique row_key rows
    → lookup id (load_rows rows jobs m).0 ≡ loaded (Sql.find row_key id rows) (lookup id jobs)
unfolding load_rows Sql.find loaded of_row
lookup-load_rows id [] jobs m u = refl
lookup-load_rows id (r ∷ rows) jobs m (fresh, u) =
    lookup-load_rows id rows (insert r.id (of_row r) jobs) _ u
    ∙ rw (lookup-insert r.id id (of_row r) jobs) (elim (Bool-cases (r.id == id)) [
      | inl e ↦
          rw
            (find-absent row_key id rows
              (subst (λ k. Sql.has row_key k rows ≡ false) ((eq_iff r.id id).0 e) fresh))
            (rw e)
      | inr e ↦ rw e
    ])

-- Times in whole seconds, and no empty map of variables: what the table keeps of a job.
unfoldable pub restored : Job → Job
restored j = record j {
  env_vars = env_field (env_column j.env_vars);
  created_at = j.created_at / second * second;
  running_at = Option.map (λ t. t / second * second) j.running_at;
  finished_at = Option.map (λ t. t / second * second) j.finished_at;
}

map-parse-format :
    (o : Option Time)
    → Option.map (λ t. parse_rfc3339 t) (Option.map (λ t. format_rfc3339 t) o)
      ≡ Option.map (λ t. t / second * second) o
map-parse-format none = refl
map-parse-format (some t) = refl

pub of_row-to_row : (j : Job) → of_row (to_row j) ≡ restored j
unfolding of_row to_row restored
of_row-to_row j = λ i. record j {
  env_vars = env_field (env_column j.env_vars);
  created_at = j.created_at / second * second;
  running_at = map-parse-format j.running_at i;
  finished_at = map-parse-format j.finished_at i;
}

pub lookup-start :
    (s : Scheduler) (id : String)
    → IsValid s
    → lookup id (start s.rows).jobs ≡ Option.map of_row (Sql.find row_key id s.rows)
unfolding start load_all
lookup-start s id v =
    lookup-load_rows id s.rows [] 0 v.good.row_keys ∙ as_map (Sql.find row_key id s.rows)
  where
    as_map : (o : Option JobRow) → loaded o (lookup id []) ≡ Option.map of_row o
    as_map none = unfold loaded lookup in refl
    as_map (some r) = unfold loaded in refl

pub start-InSync : (s : Scheduler) → IsValid s → InSync (start s.rows).jobs (start s.rows).rows
unfolding start
start-InSync s v id =
    rows_of (Sql.find row_key id s.rows) ∙ ap (Option.map to_row) (sym (lookup-start s id v))
  where
    rows_of : (o : Option JobRow) → o ≡ Option.map to_row (Option.map of_row o)
    rows_of none = refl
    rows_of (some r) = ap some (sym (to_row-of_row r))
