-- ===== src/Cli/Lambda.antt =====
-- control-plane/cli/lambda.go: functions from the command line.
use tiny_aws.Prelude.{String, Option, none, some, List, [], ◌∷◌, ◌==◌, if◌then◌else◌}
use tiny_aws.Cli.{
  Value, text, raw, empty, fields, Program, print, print_line, read_file, done, usage, Env, getenv,
  http_request, ask,
}
use tiny_aws.Cli.Object.{ensure_bucket, upload_object, or_read_error}
use tiny_aws.Go.Map.{GoMap}
use tiny_aws.Go.Text.{concat}

abbrev pub lambda_url : Env → String
lambda_url env = getenv env "LAMBDA_URL" "http://127.0.0.1:9007"

pub record CreateArgs : Type 0 where
  pub name : String
  pub runtime : String
  pub handler : String
  pub bucket : String
  pub key : String

-- the flag whose value is awaited
pub data Flag : Type 0 where
  runtime_flag : Flag
  handler_flag : Flag
  bucket_flag : Flag
  key_flag : Flag
  file_flag : Flag

unfoldable pub flag_of : String → Option Flag
flag_of arg =
    if arg == "--runtime"
    then some runtime_flag
    else if arg == "--handler"
    then some handler_flag
    else if arg == "--bucket"
    then some bucket_flag
    else if arg == "--key"
    then some key_flag
    else if arg == "--file"
    then some file_flag
    else none

unfoldable pub create_payload : CreateArgs → GoMap Value
create_payload o =
    ("name", text o.name)
    ∷ ("runtime", text o.runtime)
    ∷ ("handler", text o.handler)
    ∷ ("bucket", text o.bucket)
    ∷ ("key", text o.key)
    ∷ []

unfoldable pub event_of : Option String → List String → String → String
event_of before [] event = event
event_of none (arg ∷ args) event = event_of (some arg) args event
event_of (some before) (arg ∷ args) event =
    event_of (some arg) args (if before == "--event" then arg else event)

-- `functions_of` is what `json.Unmarshal` leaves of an answer, `line` the line of one function.
module _ {Any : Type 0} (functions_of : String → List (String → Option Any))
    (line : (String → Option Any) → String) (env : Env) where
  -- the request at the end of `lambdaCreate`
  unfoldable pub create_function : CreateArgs → Program
  create_function o =
      ask
        (http_request env "POST" (concat (lambda_url env ∷ "/functions" ∷ []))
          (fields (create_payload o)))
        (λ a. print_line a.body done)

  -- the upload of `--file`, to the bucket and the key that were read up to there
  unfoldable pub upload_code : CreateArgs → String → Program → Program
  upload_code o path next = read_file path (
      or_read_error (λ content. ensure_bucket env o.bucket (
        upload_object env o.bucket o.key content (
          print (concat ("uploaded " ∷ path ∷ " -> " ∷ o.bucket ∷ "/" ∷ o.key ∷ "\n" ∷ [])) next))))

  -- The loop of `lambdaCreate`: a flag at the end has no effect.
  unfoldable pub create_flags : Option Flag → List String → CreateArgs → Program
  create_flags pending [] o = create_function o
  create_flags none (arg ∷ args) o = create_flags (flag_of arg) args o
  create_flags (some runtime_flag) (v ∷ args) o = create_flags none args (record o { runtime = v })
  create_flags (some handler_flag) (v ∷ args) o = create_flags none args (record o { handler = v })
  create_flags (some bucket_flag) (v ∷ args) o = create_flags none args (record o { bucket = v })
  create_flags (some key_flag) (v ∷ args) o = create_flags none args (record o { key = v })
  create_flags (some file_flag) (v ∷ args) o = upload_code o v (create_flags none args o)

  unfoldable pub lambda_create : List String → Program
  lambda_create [] = usage "usage: tinyaws lambda create <name> --runtime python3|node20"
  lambda_create (name ∷ args) = create_flags none args (record {
    name = name;
    runtime = "python3";
    handler = "handler.handler";
    bucket = "lambdas";
    key = concat (name ∷ ".zip" ∷ []);
  })

  unfoldable pub print_functions : List (String → Option Any) → Program
  print_functions [] = done
  print_functions (f ∷ functions) = print (line f) (print_functions functions)

  unfoldable pub lambda_list : Program
  lambda_list =
      ask (http_request env "GET" (concat (lambda_url env ∷ "/functions" ∷ [])) empty)
        (λ a. print_functions (functions_of a.body))

  unfoldable pub lambda_invoke : List String → Program
  lambda_invoke [] = usage "usage: tinyaws lambda invoke <name> [--event '{...}']"
  lambda_invoke (name ∷ args) =
      ask
        (http_request env "POST" (concat (lambda_url env ∷ "/functions/" ∷ name ∷ "/invoke" ∷ []))
          (raw (event_of none args "")))
        (λ a. print_line a.body done)

  unfoldable pub run_lambda : List String → Program
  run_lambda [] =
      print_line
        "usage: tinyaws lambda create <name> --runtime python3|node20 [--handler h] [--bucket b] [--key k]"
        (print_line "       tinyaws lambda list"
          (usage "       tinyaws lambda invoke <name> [--event '{...}']"))
  run_lambda (command ∷ args) =
      if command == "create"
      then lambda_create args
      else if command == "list"
      then lambda_list
      else if command == "invoke"
      then lambda_invoke args
      else usage (concat ("unknown lambda command: " ∷ command ∷ []))
