-- ===== src/Scheduler/Job.antt =====
-- control-plane/scheduler/main.go: the jobs, and what happens to one of them.
use tiny_aws.Prelude.{
  ℕ, zero, suc, ◌+◌, ◌-◌, ◌*◌, ◌%◌, ◌^◌, String, Bool, ◌&&◌, ◌||◌, Option, none, some, ltb, leb,
  ◌==◌, if◌then◌else◌,
}
use Prim.Native.Nat.{min}
use tiny_aws.Prelude.Int.{ℤ, pos, negsuc, ltb_ℤ}
use tiny_aws.Go.Fmt.{format_id, scan_int}
use tiny_aws.Go.Map.{GoMap}
use tiny_aws.Go.Time.{Time, second}

pub record Node : Type 0 where
  pub id : String
  pub role : String
  pub status : String

-- `env_vars` is `none` for Go's nil map
pub record JobRequest : Type 0 where
  pub command : String
  pub instance_id : String
  pub deploy_url : String
  pub job_type : String
  pub port : ℤ
  pub env_vars : Option (GoMap String)

pub record Job : Type 0 where
  pub id : String
  pub node_id : String
  pub instance_id : String
  pub command : String
  pub deploy_url : String
  pub job_type : String
  pub port : ℤ
  pub env_vars : Option (GoMap String)
  pub status : String
  pub retry_count : ℕ
  pub exit_code : Option ℤ
  pub stdout : String
  pub stderr : String
  pub created_at : Time
  pub running_at : Option Time
  pub finished_at : Option Time

pub record Instance : Type 0 where
  pub id : String
  pub node_id : String
  pub status : String

pub record JobUpdateRequest : Type 0 where
  pub status : String
  pub exit_code : Option ℤ
  pub stdout : String
  pub stderr : String

abbrev pub max_job_retries : ℕ
max_job_retries = 1

-- an `int64` from its bit pattern
abbrev pub signed64 : ℕ → ℤ
signed64 w = if ltb w (2 ^ 63) then pos w else negsuc (2 ^ 64 - w - 1)

abbrev pub seconds_or_default : ℤ → ℤ
seconds_or_default (pos zero) = pos (3600 * second)
seconds_or_default (pos (suc n)) = signed64 ((suc n * second) % 2 ^ 64)
seconds_or_default (negsuc n) = pos (3600 * second)

abbrev pub or_int : ℤ → Option ℤ → ℤ
or_int n none = n
or_int n (some i) = i

-- `jobTimeout()`, in nanoseconds, from the value of JOB_TIMEOUT_SECS
unfoldable pub job_timeout : String → ℤ
job_timeout v =
    if v == "" then pos (3600 * second) else seconds_or_default (or_int (pos 0) (scan_int v))

abbrev pub at_least_one : ℤ → ℕ
at_least_one (pos zero) = 1
at_least_one (pos (suc n)) = suc n
at_least_one (negsuc n) = 1

-- `maxJobsPerNode()`, from the value of MAX_JOBS_PER_NODE
unfoldable pub max_jobs_per_node : String → ℕ
max_jobs_per_node v = if v == "" then 1 else at_least_one (or_int (pos 1) (scan_int v))

unfoldable pub new_job : ℕ → String → JobRequest → Time → Job
new_job seq node_id req now = record {
  id = format_id "job-" seq;
  node_id = node_id;
  instance_id = req.instance_id;
  command = req.command;
  deploy_url = req.deploy_url;
  job_type = req.job_type;
  port = req.port;
  env_vars = req.env_vars;
  status = "pending";
  retry_count = 0;
  exit_code = none;
  stdout = "";
  stderr = "";
  created_at = now;
  running_at = none;
  finished_at = none;
}

-- the map `allowed` of `updateJob`
unfoldable pub is_allowed : String → Bool
is_allowed status = status == "running" || (status == "done" || status == "failed")

unfoldable pub is_final : String → Bool
is_final status = status == "done" || status == "failed"

unfoldable pub can_retry : JobUpdateRequest → Job → Bool
can_retry req job = req.status == "failed" && ltb job.retry_count max_job_retries

-- `if s != "" { field = s }`
abbrev pub keep_if_empty : String → String → String
keep_if_empty s old = if s == "" then old else s

unfoldable pub retried_job : JobUpdateRequest → Job → Job
retried_job req job = record job {
  retry_count = job.retry_count + 1;
  status = "pending";
  exit_code = none;
  stdout = "";
  stderr = keep_if_empty req.stderr job.stderr;
  finished_at = none;
}

abbrev keep_if_none : Option ℤ → Option ℤ → Option ℤ
keep_if_none none old = old
keep_if_none (some c) old = some c

unfoldable pub reported_job : JobUpdateRequest → Time → Job → Job
unfolding is_final
reported_job req now job = record job {
  status = req.status;
  running_at = if req.status == "running" then some now else job.running_at;
  exit_code = keep_if_none req.exit_code job.exit_code;
  stdout = keep_if_empty req.stdout job.stdout;
  stderr = keep_if_empty req.stderr job.stderr;
  finished_at = if is_final req.status then some now else job.finished_at;
}

-- The job after an allowed update.
unfoldable pub updated_job : JobUpdateRequest → Time → Job → Job
updated_job req now job =
    if can_retry req job then retried_job req job else reported_job req now job

-- `now.Sub(start)`, an `int64` that saturates
unfoldable pub sub_time : Time → Time → ℤ
sub_time now start =
    if leb start now
    then pos (min (now - start) (2 ^ 63 - 1))
    else negsuc (min (start - now - 1) (2 ^ 63 - 1))

-- when the job started to run, or was created
abbrev pub start_time : Job → Time
start_time job = elim job.running_at [ none ↦ job.created_at | some t ↦ t ]

-- the two tests of `watchJobTimeouts`
unfoldable pub is_timed_out : Time → ℤ → Job → Bool
unfolding sub_time
is_timed_out now timeout job =
    job.status == "running" && ltb_ℤ timeout (sub_time now (start_time job))

unfoldable pub timed_out_job : Time → Job → Job
timed_out_job now job = record job {
  status = "failed";
  exit_code = some (negsuc 0);
  stderr = "job timed out";
  finished_at = some now;
}
