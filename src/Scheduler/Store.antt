-- ===== src/Scheduler/Store.antt =====
-- control-plane/scheduler/store.go: the table `jobs`. A time column is the second count of its text;
-- the column `env_vars` is the map that its JSON text encodes, `[]` for `{}`.
use tiny_aws.Prelude.{ℕ, String, Bool, Option, none, some, List, [], ◌∷◌, ltb, if◌then◌else◌}
use mathlib.Core.Option
use tiny_aws.Prelude.Int.{ℤ}
use tiny_aws.Go.Fmt.{strip_prefix, parse_uint}
use tiny_aws.Go.Map.{GoMap, insert}
use tiny_aws.Go.Time.{format_rfc3339, parse_rfc3339}
use tiny_aws.Sql
use tiny_aws.Scheduler.Job.{Job}

pub record JobRow : Type 0 where
  pub id : String
  pub node_id : String
  pub instance_id : String
  pub command : String
  pub deploy_url : String
  pub job_type : String
  pub port : ℤ
  pub env_vars : GoMap String
  pub status : String
  pub retry_count : ℕ
  pub exit_code : Option ℤ
  pub stdout : String
  pub stderr : String
  pub created_at : ℕ
  pub running_at : Option ℕ
  pub finished_at : Option ℕ

abbrev pub row_key : JobRow → String
row_key r = r.id

-- `envJSON`
abbrev pub env_column : Option (GoMap String) → GoMap String
env_column none = []
env_column (some m) = m

-- what `LoadAll` makes of it
abbrev pub env_field : GoMap String → Option (GoMap String)
env_field [] = none
env_field (p ∷ m) = some (p ∷ m)

unfoldable pub to_row : Job → JobRow
to_row job = record {
  id = job.id;
  node_id = job.node_id;
  instance_id = job.instance_id;
  command = job.command;
  deploy_url = job.deploy_url;
  job_type = job.job_type;
  port = job.port;
  env_vars = env_column job.env_vars;
  status = job.status;
  retry_count = job.retry_count;
  exit_code = job.exit_code;
  stdout = job.stdout;
  stderr = job.stderr;
  created_at = format_rfc3339 job.created_at;
  running_at = Option.map (λ t. format_rfc3339 t) job.running_at;
  finished_at = Option.map (λ t. format_rfc3339 t) job.finished_at;
}

unfoldable pub of_row : JobRow → Job
of_row r = record {
  id = r.id;
  node_id = r.node_id;
  instance_id = r.instance_id;
  command = r.command;
  deploy_url = r.deploy_url;
  job_type = r.job_type;
  port = r.port;
  env_vars = env_field r.env_vars;
  status = r.status;
  retry_count = r.retry_count;
  exit_code = r.exit_code;
  stdout = r.stdout;
  stderr = r.stderr;
  created_at = parse_rfc3339 r.created_at;
  running_at = Option.map (λ t. parse_rfc3339 t) r.running_at;
  finished_at = Option.map (λ t. parse_rfc3339 t) r.finished_at;
}

-- `jobStore.Save(job)`; its callers only log an error
unfoldable pub save : Bool → Job → List JobRow → List JobRow
save db_ok job rows = (Sql.exec db_ok (some (Sql.upsert row_key (to_row job) rows)) rows).0

abbrev pub number_after : Option String → Option ℕ
number_after none = none
number_after (some rest) = parse_uint rest

unfoldable pub parse_job_seq : String → Option ℕ
parse_job_seq id = number_after (strip_prefix "job-" id)

abbrev pub max_seq : Option ℕ → ℕ → ℕ
max_seq none m = m
max_seq (some n) m = if ltb m n then n else m

-- the loop of `LoadAll`
unfoldable pub load_rows : List JobRow → GoMap Job → ℕ → GoMap Job × ℕ
load_rows [] jobs m = (jobs, m)
load_rows (r ∷ rows) jobs m =
    let job = of_row r in load_rows rows (insert job.id job jobs) (max_seq (parse_job_seq job.id) m)

unfoldable pub load_all : List JobRow → GoMap Job × ℕ
unfolding load_rows
load_all rows = load_rows rows [] 0
