-- ===== src/Cli/Keys.antt =====
-- control-plane/cli/auth.go: keys from the command line.
use tiny_aws.Prelude.{ℕ, String, Option, none, some, List, [], ◌∷◌, eqb, ◌==◌, if◌then◌else◌}
use tiny_aws.Cli.{
  Value, text, empty, fields, Answer, Program, print, print_line, send, done, usage, Env,
  registry_url, http_request,
}
use tiny_aws.Go.Errors.{Result, ok, err}
use tiny_aws.Go.Fmt.{decimal}
use tiny_aws.Go.Http.{status_ok, status_created}
use tiny_aws.Go.Map.{GoMap}
use tiny_aws.Go.Text.{concat}

pub record KeyArgs : Type 0 where
  pub role : String
  pub expires : String

unfoldable pub key_value : Option String → String → KeyArgs → KeyArgs
key_value none value o = o
key_value (some flag) value o =
    if flag == "--role"
    then record o { role = value }
    else if flag == "--expires"
    then record o { expires = value }
    else o

-- The loop of `authSetKey`: each argument is the value of the one before it, if that is a flag.
unfoldable pub key_flags : Option String → List String → KeyArgs → KeyArgs
key_flags before [] o = o
key_flags before (arg ∷ args) o = key_flags (some arg) args (key_value before arg o)

unfoldable pub key_payload : String → KeyArgs → GoMap Value
key_payload key o =
    ("key", text key)
    ∷ ("role", text o.role)
    ∷ (if o.expires == "" then [] else ("expires_at", text o.expires) ∷ [])

-- a key as `GET /iam/keys` lists it
pub record KeyRecord : Type 0 where
  pub key : String
  pub role : String

unfoldable pub role_of_key : String → List KeyRecord → Option String
role_of_key key [] = none
role_of_key key (k ∷ keys) = if k.key == key then some k.role else role_of_key key keys

-- `keys_of` is what `Decode` leaves of an answer: no keys of one that is not JSON.
module _ (keys_of : String → List KeyRecord) (env : Env) where
  -- `fmt.Println("error:", err); os.Exit(1)`, on the standard output
  abbrev or_print_error : (Answer → Program) → Result Answer → Program
  or_print_error next (err e) = usage (concat ("error: " ∷ e ∷ []))
  or_print_error next (ok a) = next a

  abbrev unless_status : ℕ → Answer → Program → Program
  unless_status wanted a next =
      if eqb a.status wanted
      then next
      else usage (concat ("error " ∷ decimal a.status ∷ ": " ∷ a.body ∷ []))

  unfoldable pub auth_set_key : List String → Program
  auth_set_key [] =
      usage
        "usage: tinyaws auth set-key <key> [--role admin|readonly] [--expires 2026-12-31T00:00:00Z]"
  auth_set_key (key ∷ args) =
      let o = key_flags none args (record { role = "admin"; expires = "" }) in
      send
        (http_request env "POST" (concat (registry_url env ∷ "/iam/keys" ∷ []))
          (fields (key_payload key o)))
        (or_print_error (λ a. unless_status status_created a (
          if o.expires == ""
          then print (concat ("key set (role=" ∷ o.role ∷ ")\n" ∷ [])) done
          else print (concat ("key set (role=" ∷ o.role ∷ " expires=" ∷ o.expires ∷ ")\n" ∷ []))
              done)))

  abbrev key_line : String → Option String → String
  key_line key none = concat ("key: " ∷ key ∷ "  role: admin (env key)\n" ∷ [])
  key_line key (some role) = concat ("key: " ∷ key ∷ "  role: " ∷ role ∷ "\n" ∷ [])

  unfoldable pub auth_whoami : Program
  auth_whoami =
      if env "TINYAWS_API_KEY" == ""
      then print_line "no TINYAWS_API_KEY set — unauthenticated" done
      else send (http_request env "GET" (concat (registry_url env ∷ "/iam/keys" ∷ [])) empty) (
          or_print_error (λ a. unless_status status_ok a (
            print
              (key_line (env "TINYAWS_API_KEY")
                (role_of_key (env "TINYAWS_API_KEY") (keys_of a.body)))
              done)))

  unfoldable pub run_auth : List String → Program
  run_auth [] =
      print_line "usage: tinyaws auth set-key <key> [--role admin|readonly]"
        (usage "       tinyaws auth whoami")
  run_auth (command ∷ args) =
      if command == "set-key"
      then auth_set_key args
      else if command == "whoami"
      then auth_whoami
      else usage (concat ("unknown auth command: " ∷ command ∷ []))
