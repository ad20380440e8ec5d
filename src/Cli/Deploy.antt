-- ===== src/Cli/Deploy.antt =====
-- control-plane/cli/deploy.go: deployments from the command line. The archive of a directory is an
-- argument.
pub mod Flags
use tiny_aws.Prelude.{
  ℕ, zero, suc, ◌*◌, String, Bool, true, false, Option, none, some, List, [], ◌∷◌, ◌++◌, ◌==◌,
  if◌then◌else◌,
}
use tiny_aws.Prelude.Int.{ℤ, pos}
use tiny_aws.Cli.{
  Value, text, number, table, Program, print, warn, sleep, unfinished, done, failed, usage, Env,
  object_store_url,
}
use tiny_aws.Cli.Job.{JobRecord, is_final, post_job, fetch_job, print_job, decimal_int, job_payload}
use tiny_aws.Cli.Object.{ensure_bucket, upload_object}
use tiny_aws.Go.Errors.{Result, ok, err}
use tiny_aws.Go.Fmt.{scan_int}
use tiny_aws.Go.Map.{GoMap, insert}
use tiny_aws.Go.Bytes.{cut_at}
use tiny_aws.Go.Text.{concat}
use tiny_aws.Go.Time.{second}

pub record Options : Type 0 where
  pub instance_id : String
  pub wait : Bool
  pub is_service : Bool
  pub port : ℤ
  pub env_vars : GoMap String

abbrev pub no_options : Options
no_options = record {
  instance_id = "";
  wait = false;
  is_service = false;
  port = pos 0;
  env_vars = [];
}

-- the flag whose value is awaited
pub data Flag : Type 0 where
  instance_flag : Flag
  port_flag : Flag
  env_flag : Flag

unfoldable pub flag_of : String → Option Flag
flag_of arg =
    if arg == "--instance"
    then some instance_flag
    else if arg == "--port"
    then some port_flag
    else if arg == "--env"
    then some env_flag
    else none

-- the flags without a value
unfoldable pub switched : String → Options → Options
switched arg o =
    if arg == "--wait"
    then record o { wait = true }
    else if arg == "--service"
    then record o { is_service = true }
    else o

unfoldable pub missing_value : Flag → String
missing_value instance_flag = "--instance requires a value"
missing_value port_flag = "--port requires a value"
missing_value env_flag = "--env requires KEY=VAL"

abbrev scanned_port : Option ℤ → ℤ → ℤ
scanned_port none port = port
scanned_port (some n) port = n

abbrev env_pair : String → Option (String × String) → Options → Result Options
env_pair kv none o = err (concat ("invalid --env format: " ∷ kv ∷ " (expected KEY=VAL)" ∷ []))
env_pair kv (some (key, value)) o =
    if key == ""
    then err (concat ("invalid --env format: " ∷ kv ∷ " (expected KEY=VAL)" ∷ []))
    else ok (record o { env_vars = insert key value o.env_vars })

-- what a flag with its value does
unfoldable pub valued : Flag → String → Options → Result Options
valued instance_flag value o = ok (record o { instance_id = value })
valued port_flag value o = ok (record o { port = scanned_port (scan_int value) o.port })
valued env_flag value o = env_pair value (cut_at "=" value) o

-- the loop over the arguments after the directory
unfoldable pub deploy_flags : Option Flag → List String → Result Options → Result Options
deploy_flags pending args (err e) = err e
deploy_flags none [] (ok o) = ok o
deploy_flags (some flag) [] (ok o) = err (missing_value flag)
deploy_flags none (arg ∷ args) (ok o) = deploy_flags (flag_of arg) args (ok (switched arg o))
deploy_flags (some flag) (value ∷ args) (ok o) = deploy_flags none args (valued flag value o)

-- the JSON object of `submitDeployJob`
unfoldable pub deploy_payload : String → Options → GoMap Value
deploy_payload deploy_url o =
    ("deploy_url", text deploy_url)
      ∷ ("command", text "")
      ∷ (if o.instance_id == "" then [] else ("instance_id", text o.instance_id) ∷ [])
    ++ (if o.is_service then ("job_type", text "service") ∷ ("port", number o.port) ∷ [] else [])
    ++ elim o.env_vars [ [] ↦ [] | v ∷ vs ↦ ("env_vars", table o.env_vars) ∷ [] ]

abbrev started : Options → String → String
started o id =
    if o.is_service
    then concat ("service deploy job " ∷ id ∷ " started (port " ∷ decimal_int o.port ∷ ")\n" ∷ [])
    else concat ("deploy job " ∷ id ∷ " started\n" ∷ [])

-- `decode`, `quote` and `env` are those of jobs; `archive` is `zipDirectory` with the reading of its
-- file, an error being the line that is printed, and `base` is `filepath.Base`.
module _ (decode : String → Result JobRecord) (quote : String → String) (env : Env)
    (archive : String → Result String) (base : String → String) where
  abbrev after_wait : Program → Result JobRecord → Program
  after_wait again (err e) = warn (concat ("error: " ∷ e ∷ "\n" ∷ [])) failed
  after_wait again (ok job) =
      if is_final job then print_job decode quote env job done else sleep (2 * second) again

  -- the loop at the end of `runDeploy`
  unfoldable pub wait_loop : ℕ → String → Program
  wait_loop zero id = unfinished
  wait_loop (suc n) id =
      let again = wait_loop n id in fetch_job decode quote env id (after_wait again)

  abbrev deploy_archive : ℕ → String → Options → Result String → Program
  deploy_archive fuel dir o (err e) = warn (concat (e ∷ "\n" ∷ [])) failed
  deploy_archive fuel dir o (ok content) =
      let key = concat (base dir ∷ ".zip" ∷ []) in
      let url = concat (object_store_url env ∷ "/buckets/deployments/objects/" ∷ key ∷ []) in
      ensure_bucket env "deployments" (
        upload_object env "deployments" key content (
          post_job decode quote env "submit failed: " (deploy_payload url o)
            (λ job. print (started o job.id) (if o.wait then wait_loop fuel job.id else done))))

  abbrev deploy_parsed : ℕ → String → Result Options → Program
  deploy_parsed fuel dir (err message) = usage message
  deploy_parsed fuel dir (ok o) = deploy_archive fuel dir o (archive dir)

  unfoldable pub run_deploy : ℕ → List String → Program
  run_deploy fuel [] =
      usage
        "usage: tinyaws deploy <dir> [--instance i-1] [--wait] [--service] [--port N] [--env KEY=VAL]..."
  run_deploy fuel (dir ∷ args) = deploy_parsed fuel dir (deploy_flags none args (ok no_options))
