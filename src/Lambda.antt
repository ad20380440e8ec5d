-- ===== src/Lambda.antt =====
-- data-plane/compute/lambda-runtime/main.go: functions, their invocation through the scheduler, and
-- the triggers on events. The two tables and the global `trigSeq` are the record `Lambda`.
pub mod Invoke
pub mod Triggers
mod Examples
use tiny_aws.Prelude.{
  ℕ, String, Bool, true, false, ◌||◌, Option, none, some, List, ◌==◌, if◌then◌else◌,
}
use tiny_aws.Go.Time.{Time, format_rfc3339}
use tiny_aws.Go.Http.{
  Response, json, error, status_ok, status_created, status_bad_request, status_not_found,
  status_internal_server_error,
}
use tiny_aws.Sql

-- The text `created_at` of a body is overwritten before any use.
pub record Function : Type 0 where
  pub name : String
  pub runtime : String
  pub handler : String
  pub bucket : String
  pub key : String
  pub created_at : ℕ

pub record Trigger : Type 0 where
  pub id : String
  pub function_name : String
  pub event_source : String
  pub source_name : String
  pub created_at : ℕ

abbrev pub function_key : Function → String
function_key f = f.name

abbrev pub trigger_key : Trigger → String
trigger_key t = t.id

pub record Lambda : Type 0 where
  pub functions : List Function
  pub triggers : List Trigger
  pub trig_seq : ℕ

pub record InvokeResult : Type 0 where
  pub status_code : ℕ
  pub output : String
  pub error : String

pub data Reply : Type 0 where
  one_function : Function → Reply
  function_list : List Function → Reply
  invoked : InvokeResult → Reply
  one_trigger : Trigger → Reply
  trigger_list : List Trigger → Reply

-- `main` at a start: `trigSeq` is 0, whatever the table holds
unfoldable pub start : List Function → List Trigger → Lambda
start functions triggers = record { functions = functions; triggers = triggers; trig_seq = 0 }

abbrev pub or_default : String → String → String
or_default fallback s = if s == "" then fallback else s

unfoldable pub completed : Function → Time → Function
completed f now = record f {
  handler = or_default "handler.handler" f.handler;
  created_at = format_rfc3339 now;
}

abbrev answer_write : Response Reply → Bool → Response Reply
answer_write done true = done
answer_write done false = error status_internal_server_error "db error"

-- `POST /functions`; the body is `none` if it does not decode
unfoldable pub handle_create : Bool → Option Function → Time → Lambda → Lambda × Response Reply
handle_create db_ok none now s = (s, error status_bad_request "name and runtime required")
handle_create db_ok (some f) now s =
    let row = completed f now in
    let (rows, stored) =
      Sql.exec db_ok (some (Sql.upsert function_key row s.functions)) s.functions in
    if f.name == "" || f.runtime == ""
    then (s, error status_bad_request "name and runtime required")
    else (
      record s { functions = rows },
      answer_write (json status_created (one_function row)) stored,
    )

-- `GET /functions`
unfoldable pub handle_list : Lambda → Response Reply
handle_list s = json status_ok (function_list s.functions)

abbrev found_function : Option Function → Response Reply
found_function none = error status_not_found "not found"
found_function (some f) = json status_ok (one_function f)

-- `GET /functions/{name}`
unfoldable pub handle_get : String → Lambda → Response Reply
handle_get name s = found_function (Sql.find function_key name s.functions)
