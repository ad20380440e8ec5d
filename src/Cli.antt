-- ===== src/Cli.antt =====
-- control-plane/cli: the command line client. A command is a program that prints, asks services over
-- HTTP, reads files, sleeps and exits.
pub mod Job
pub mod Queue
pub mod Object
pub mod Deploy
pub mod Instance
pub mod Network
pub mod Registry
pub mod Keys
pub mod Commands
pub mod Lambda
mod Examples
use tiny_aws.Prelude.{ℕ, String, Option, none, some, List, [], ◌∷◌, ◌++◌, leb, ◌==◌, if◌then◌else◌}
use tiny_aws.Prelude.Int.{ℤ, pos}
use tiny_aws.Go.Errors.{Result, ok, err}
use tiny_aws.Go.Fmt.{decimal}
use tiny_aws.Go.Map.{GoMap}
use tiny_aws.Go.Text.{concat}
use tiny_aws.Go.Time.{Time}

-- a value of a JSON object that a command sends
pub data Value : Type 0 where
  text : String → Value
  number : ℤ → Value
  texts : List String → Value
  table : GoMap String → Value

pub data Body : Type 0 where
  empty : Body
  raw : String → Body
  fields : GoMap Value → Body

-- `authorization` is the header; "" for none
pub record HttpRequest : Type 0 where
  pub method : String
  pub url : String
  pub body : Body
  pub authorization : String

pub record Answer : Type 0 where
  pub status : ℕ
  pub body : String

-- `print` and `warn` write to the two outputs, `send` is answered or fails, `exit` is `os.Exit` or the
-- end of `main`, and `unfinished` is a loop whose fuel is over.
pub data Program : Type 0 where
  exit : ℤ → Program
  print : String → Program → Program
  warn : String → Program → Program
  send : HttpRequest → (Result Answer → Program) → Program
  sleep : Time → Program → Program
  read_file : String → (Result String → Program) → Program
  unfinished : Program

-- What a program leaves behind: the state of the services, the outputs, and the code that it exits
-- with, if it does.
pub record Outcome {ℓ} (S : Type ℓ) : Type ℓ where
  pub state : S
  pub stdout : List String
  pub stderr : List String
  pub code : Option ℤ

-- A run against services with a state; `files` are the files that can be read.
module _ {ℓ} {S : Type ℓ} (serve : HttpRequest → S → Result Answer × S)
    (files : String → Result String) where
  unfoldable pub run : Program → S → Outcome S
  run (exit code) s = record { state = s; stdout = []; stderr = []; code = some code }
  run (print line p) s =
      let o = run p s in
      record { state = o.state; stdout = line ∷ o.stdout; stderr = o.stderr; code = o.code }
  run (warn line p) s =
      let o = run p s in
      record { state = o.state; stdout = o.stdout; stderr = line ∷ o.stderr; code = o.code }
  run (send req next) s = let (answer, s') = serve req s in run (next answer) s'
  run (sleep time p) s = run p s
  run (read_file path next) s = run (next (files path)) s
  run unfinished s = record { state = s; stdout = []; stderr = []; code = none }

abbrev pub done : Program
done = exit (pos 0)

abbrev pub failed : Program
failed = exit (pos 1)

-- `fmt.Println(line)`
abbrev pub print_line : String → Program → Program
print_line line next = print (concat (line ∷ "\n" ∷ [])) next

-- `fmt.Println(line); os.Exit(1)`
abbrev pub usage : String → Program
usage line = print_line line failed

-- the environment, "" for a variable that is not set
abbrev pub Env : Type 0
Env = String → String

-- `getenv(key, fallback)`
unfoldable pub getenv : Env → String → String → String
getenv env key fallback = if env key == "" then fallback else env key

-- `registryURL`, `schedulerURL` and `objectStoreURL`
unfoldable pub service_url : Env → String → String → String
service_url env key fallback =
    if env "TINYAWS_API_URL" == ""
    then getenv env key fallback
    else concat (env "TINYAWS_API_URL" ∷ "/v1" ∷ [])

abbrev pub registry_url : Env → String
registry_url env = service_url env "REGISTRY_URL" "http://127.0.0.1:9000"

abbrev pub scheduler_url : Env → String
scheduler_url env = service_url env "SCHEDULER_URL" "http://127.0.0.1:9001"

abbrev pub object_store_url : Env → String
object_store_url env = service_url env "OBJECT_STORE_URL" "http://127.0.0.1:7001"

-- `setAuthHeader`
unfoldable pub auth_header : Env → String
auth_header env =
    if env "TINYAWS_API_KEY" == "" then "" else concat ("Bearer " ∷ env "TINYAWS_API_KEY" ∷ [])

-- the request of `httpGet`, `httpPost` and `httpDo`
unfoldable pub http_request : Env → String → String → Body → HttpRequest
http_request env method url body = record {
  method = method;
  url = url;
  body = body;
  authorization = auth_header env;
}

abbrev or_fail : String → (Answer → Program) → Result Answer → Program
or_fail before next (err e) = warn (concat (before ∷ e ∷ "\n" ∷ [])) failed
or_fail before next (ok a) = next a

-- `if err != nil { fmt.Fprintf(os.Stderr, before + "%v\n", err); os.Exit(1) }` after a request
unfoldable pub ask_or : String → HttpRequest → (Answer → Program) → Program
ask_or before req next = send req (or_fail before next)

abbrev pub ask : HttpRequest → (Answer → Program) → Program
ask req next = ask_or "error: " req next

-- `if resp.StatusCode >= 400 { fmt.Fprintf(os.Stderr, what + " failed %d: %s\n", …); os.Exit(1) }`
unfoldable pub check_status : String → Answer → Program → Program
check_status what a next =
    if leb 400 a.status
    then warn (concat (what ∷ " failed " ∷ decimal a.status ∷ ": " ∷ a.body ∷ "\n" ∷ [])) failed
    else next

-- `strings.Join(words, " ")`
unfoldable pub join_words : List String → String
join_words [] = ""
join_words (w ∷ []) = w
join_words (w ∷ v ∷ words) = concat (w ∷ " " ∷ join_words (v ∷ words) ∷ [])
