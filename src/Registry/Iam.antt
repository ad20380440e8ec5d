-- ===== src/Registry/Iam.antt =====
-- control-plane/registry/iam.go and auth.go: API keys, and who may do what. `store.DB()` is set
-- before the server starts, and so `iamDB` is never nil; the table `api_keys` is the state.
pub mod Access
use mathlib.Core.Option
use tiny_aws.Prelude.{
  ℕ, String, Bool, true, false, not, ◌&&◌, ◌||◌, Option, none, some, List, [], ◌∷◌, ltb, ◌==◌, map,
  if◌then◌else◌,
}
use tiny_aws.Go.Fmt.{strip_prefix}
use tiny_aws.Go.Time.{Time}
use tiny_aws.Go.Http.{
  Response, json, error, no_body, status_ok, status_created, status_no_content, status_bad_request,
  status_unauthorized, status_forbidden, status_internal_server_error,
}
use tiny_aws.Sql

-- a key as JSON; `expires_at` is "" for never
pub record ApiKey : Type 0 where
  pub key : String
  pub role : String
  pub expires_at : String

-- a row of `api_keys`; `none` is NULL
pub record KeyRow : Type 0 where
  pub key : String
  pub role : String
  pub expires_at : Option String

abbrev pub row_key : KeyRow → String
row_key r = r.key

unfoldable pub to_row : ApiKey → KeyRow
to_row k = record {
  key = k.key;
  role = k.role;
  expires_at = if k.expires_at == "" then none else some k.expires_at;
}

abbrev or_empty : Option String → String
or_empty none = ""
or_empty (some s) = s

unfoldable pub of_row : KeyRow → ApiKey
of_row r = record { key = r.key; role = r.role; expires_at = or_empty r.expires_at }

pub data Reply : Type 0 where
  one_key : ApiKey → Reply
  key_list : List ApiKey → Reply

abbrev answer_write : Response Reply → Bool → Response Reply
answer_write done true = done
answer_write done false = error status_internal_server_error "db error"

unfoldable pub handle_iam_key_create :
    Bool → Option ApiKey → List KeyRow → List KeyRow × Response Reply
handle_iam_key_create db_ok none rows = (rows, error status_bad_request "bad request")
handle_iam_key_create db_ok (some k) rows =
    if k.key == ""
    then (rows, error status_bad_request "bad request")
    else if not (k.role == "admin") && not (k.role == "readonly")
    then (rows, error status_bad_request "role must be admin or readonly")
    else (let (rows', stored) = Sql.exec db_ok (some (Sql.upsert row_key (to_row k) rows)) rows in
        (rows', answer_write (json status_created (one_key k)) stored))

unfoldable pub handle_iam_key_delete : Bool → String → List KeyRow → List KeyRow × Response Reply
handle_iam_key_delete db_ok key rows =
    if key == ""
    then (rows, error status_bad_request "key required")
    else (let (rows', deleted) = Sql.exec db_ok (some (Sql.remove row_key key rows)) rows in
        (rows', answer_write (no_body status_no_content) deleted))

-- `none` for a query or a scan that fails, with the text of the error
unfoldable pub handle_iam_key_list : Option String → List KeyRow → Response Reply
handle_iam_key_list none rows = json status_ok (key_list (map of_row rows))
handle_iam_key_list (some e) rows = error status_internal_server_error e

-- the key of a header "Bearer …"
unfoldable pub bearer : String → Option String
bearer auth = elim (strip_prefix "Bearer " auth) [
  | none ↦ none
  | some key ↦ if key == "" then none else some key
]

abbrev is_empty : List KeyRow → Bool
is_empty [] = true
is_empty (r ∷ rows) = false

unfoldable pub is_enforced : Bool → String → List KeyRow → Bool
is_enforced db_ok env rows = not (env == "") || (db_ok && not (is_empty rows))

unfoldable pub is_open : String → String → Bool
is_open method path =
    path == "/health"
    || (path == "/nodes/register" && method == "POST")
    || (path == "/nodes/heartbeat" && method == "POST")

-- What is written for a role, if the request is refused.
unfoldable pub refusal : String → String → Option (ℕ × String)
refusal method role =
    if role == ""
    then some (status_unauthorized, "unauthorized")
    else if role == "readonly" && not (method == "GET")
    then some (status_forbidden, "forbidden")
    else none

-- `parse` is `time.Parse(time.RFC3339, …)`, `none` its error.
module _ (parse : String → Option Time) (now : Time) where
  abbrev is_past : Option Time → Bool
  is_past none = false
  is_past (some t) = ltb t now

  -- the expiry of a row is over
  unfoldable pub is_expired : Option String → Bool
  is_expired none = false
  is_expired (some e) = not (e == "") && is_past (parse e)

  abbrev role_of : Option KeyRow → String
  role_of none = ""
  role_of (some r) = if is_expired r.expires_at then "" else r.role

  -- `roleForKey(key)`, where `env` is TINYAWS_API_KEY and `db_ok` says that the query is answered
  unfoldable pub role_for_key : Bool → String → String → List KeyRow → String
  role_for_key db_ok env key rows =
      if not (env == "") && key == env
      then "admin"
      else if db_ok
      then role_of (Sql.find row_key key rows)
      else ""

  abbrev refusal_of_key : Bool → String → String → List KeyRow → Option String → Option (ℕ × String)
  refusal_of_key db_ok env method rows none = some (status_unauthorized, "unauthorized")
  refusal_of_key db_ok env method rows (some key) = refusal method (role_for_key db_ok env key rows)

  -- `requireAuth`: `none` lets the request pass. `count_ok` says that the rows are counted.
  unfoldable pub require_auth :
      Bool → Bool → String → String → String → String → List KeyRow → Option (ℕ × String)
  require_auth count_ok db_ok env method path auth rows =
      if not (is_enforced count_ok env rows)
      then none
      else if is_open method path
      then none
      else refusal_of_key db_ok env method rows (bearer auth)
