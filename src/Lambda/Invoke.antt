-- ===== src/Lambda/Invoke.antt =====
-- data-plane/compute/lambda-runtime/main.go, `handleInvoke`: the job that runs a function, and the
-- wait for its result.
pub mod Poll
pub mod Jobs
use tiny_aws.Prelude.{
  ℕ, zero, suc, ◌+◌, ◌*◌, String, Option, none, some, List, [], ◌∷◌, ◌==◌, if◌then◌else◌,
}
use tiny_aws.Go.Text.{concat}
use tiny_aws.Go.Http.{
  Response, json, error, status_ok, status_not_found, status_internal_server_error,
}
use tiny_aws.Go.Map.{GoMap}
use tiny_aws.Go.Time.{Time, second}
use tiny_aws.Lambda.{Function, function_key, Lambda, InvokeResult, Reply, invoked}
use tiny_aws.Sql

-- the shell command of a runtime, which reads the function from the environment
unfoldable pub build_invoke_command : String → String
build_invoke_command runtime =
    if runtime == "python3"
    then concat (
        "python3 -c \"" ∷ "import urllib.request,zipfile,os,json,importlib,sys; "
        ∷ "d='/tmp/tinyaws-lambda'; os.makedirs(d,exist_ok=True); "
        ∷ "urllib.request.urlretrieve(os.environ['TINYAWS_CODE_URL'],d+'/fn.zip'); "
        ∷ "zipfile.ZipFile(d+'/fn.zip').extractall(d); "
        ∷ "sys.path.insert(0,d); mod,fn=os.environ['TINYAWS_HANDLER'].rsplit('.',1); "
        ∷ "m=importlib.import_module(mod); "
        ∷ "ev=json.loads(os.environ.get('TINYAWS_EVENT','null')); "
        ∷ "r=m.__dict__[fn](ev); print(json.dumps(r))\"" ∷ [])
    else if runtime == "node20"
    then concat (
        "node -e \""
        ∷ "const fs=require('fs'),path=require('path'),{execSync}=require('child_process'); "
        ∷ "const d='/tmp/tinyaws-lambda'; fs.mkdirSync(d,{recursive:true}); "
        ∷ "execSync('curl -s -o '+d+'/fn.zip '+process.env.TINYAWS_CODE_URL); "
        ∷ "execSync('cd '+d+' && unzip -o fn.zip'); "
        ∷ "const [m,f]=process.env.TINYAWS_HANDLER.split('.'); "
        ∷ "const mod=require(path.join(d,m)); "
        ∷ "const ev=JSON.parse(process.env.TINYAWS_EVENT||'null'); "
        ∷ "Promise.resolve(mod[f](ev)).then(r=>console.log(JSON.stringify(r)))\"" ∷ [])
    else "echo unsupported-runtime"

unfoldable pub code_url : String → Function → String
code_url object_store_url f =
    concat (object_store_url ∷ "/buckets/" ∷ f.bucket ∷ "/objects/" ∷ f.key ∷ [])

-- the body of `POST /jobs`
pub record Payload : Type 0 where
  pub command : String
  pub env_vars : GoMap String

unfoldable pub invoke_payload : String → Function → String → Payload
invoke_payload object_store_url f event = record {
  command = build_invoke_command f.runtime;
  env_vars =
      ("TINYAWS_HANDLER", f.handler)
      ∷ ("TINYAWS_CODE_URL", code_url object_store_url f)
      ∷ ("TINYAWS_EVENT", event)
      ∷ [];
}

-- what the loop decodes of an answer of the scheduler
pub record JobAnswer : Type 0 where
  pub status : String
  pub stdout : String
  pub stderr : String

-- The result that ends the loop, if this answer does; `none` is a request that fails.
unfoldable pub final_result : Option JobAnswer → Option InvokeResult
final_result none = none
final_result (some job) =
    if job.status == "done"
    then some (record { status_code = 200; output = job.stdout; error = "" })
    else if job.status == "failed"
    then some (record { status_code = 500; output = job.stdout; error = job.stderr })
    else none

abbrev pub timed_out : InvokeResult
timed_out = record { status_code = 504; output = ""; error = "invocation timed out" }

abbrev pub polls : ℕ
polls = 30

abbrev after_poll : Option InvokeResult → Time → InvokeResult × Time → InvokeResult × Time
after_poll none slept rest = rest
after_poll (some r) slept rest = (r, slept)

-- The rounds that are left, when `i` are over: the result, and how long the loop has slept.
unfoldable pub poll_round : (ℕ → Option JobAnswer) → ℕ → ℕ → InvokeResult × Time
poll_round answers i zero = (timed_out, i * (2 * second))
poll_round answers i (suc n) =
    let rest = poll_round answers (suc i) n in
    after_poll (final_result (answers i)) (suc i * (2 * second)) rest

-- `pollJobResult`, where `answers i` is what the request of round `i` is answered
unfoldable pub poll_job_result : (ℕ → Option JobAnswer) → InvokeResult × Time
poll_job_result answers = poll_round answers 0 polls

abbrev result_of_job : (String → ℕ → Option JobAnswer) → Option String → Response Reply
result_of_job answers none = error status_internal_server_error "scheduler error"
result_of_job answers (some job_id) = json status_ok (invoked (poll_job_result (answers job_id)).0)

unfoldable pub invoke_found :
    String
    → (Payload → Option String)
    → (String → ℕ → Option JobAnswer)
    → String
    → Option Function
    → Response Reply
invoke_found object_store_url submit answers event none =
    error status_not_found "function not found"
invoke_found object_store_url submit answers event (some f) =
    result_of_job answers (submit (invoke_payload object_store_url f event))

-- `POST /functions/{name}/invoke`: `submit` is the request for a job, answered by the identifier
-- that is decoded ("" if none is), or `none` if it fails; `answers` are those of the polls for a
-- job.
unfoldable pub handle_invoke :
    String
    → (Payload → Option String)
    → (String → ℕ → Option JobAnswer)
    → String
    → String
    → Lambda
    → Response Reply
handle_invoke object_store_url submit answers name event s =
    invoke_found object_store_url submit answers event (Sql.find function_key name s.functions)
