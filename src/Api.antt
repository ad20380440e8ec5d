-- ===== src/Api.antt =====
-- control-plane/api/main.go: the gateway. It forwards requests to the services and keeps a log of
-- them, the table `audit_log`.
pub mod Routes
pub mod Audit
mod Examples
use tiny_aws.Prelude.{
  ℕ, suc, ◌-◌, ◌/◌, String, Bool, true, false, ◌&&◌, ◌||◌, Option, none, some, List, [], ◌∷◌, ◌++◌,
  ltb, leb, ◌==◌, take, if◌then◌else◌,
}
use tiny_aws.Prelude.Int.{ℤ, pos, negsuc}
use tiny_aws.Go.Bytes.{len, cut}
use tiny_aws.Go.Fmt.{scan_int}
use tiny_aws.Go.Text.{concat, trim_prefix, has_prefix}
use tiny_aws.Go.Time.{Time}
use tiny_aws.Go.Http.{
  Response, json, error, status_ok, status_internal_server_error, status_service_unavailable,
}
use mathlib.Core.List.{reverse}

pub data Backend : Type 0 where
  registry : Backend
  scheduler : Backend
  object_store : Backend

-- `mux.Handle(p+"/", …)` and `mux.Handle(p, …)` for a path `p` of a list
unfoldable pub is_under : List String → String → Bool
is_under [] path = false
is_under (p ∷ ps) path = path == p || (has_prefix (concat (p ∷ "/" ∷ [])) path || is_under ps path)

-- the service that `main` forwards a path to; `none` for the log and for paths without a route
unfoldable pub route : String → Option Backend
route path =
    if path == "/v1/health/registry"
      || is_under ("/v1/nodes" ∷ "/v1/instances" ∷ "/v1/iam" ∷ "/v1/services" ∷ []) path
    then some registry
    else if path == "/v1/health/scheduler" || is_under ("/v1/jobs" ∷ "/v1/schedule" ∷ []) path
    then some scheduler
    else if path == "/v1/health/store" || is_under ("/v1/objects" ∷ "/v1/buckets" ∷ []) path
    then some object_store
    else none

-- the path that `proxy` forwards, and leaves in the request
unfoldable pub proxied_path : String → String
proxied_path path =
    let stripped = trim_prefix "/v1" path in if stripped == "" then "/" else stripped

-- `key[:8] + "..."`, or the key itself if it is short
unfoldable pub masked : String → String
masked key = if ltb 8 (len key) then concat (cut 8 key ∷ "..." ∷ []) else key

-- the column `identity`, from the header Authorization
unfoldable pub identity : String → String
identity auth = if auth == "" then "" else masked (trim_prefix "Bearer " auth)

-- a row of `audit_log`; rows are in the order of their numbers
pub record Entry : Type 0 where
  pub timestamp : Time
  pub method : String
  pub path : String
  pub query : String
  pub source_ip : String
  pub identity : String
  pub status : ℕ
  pub latency_ms : ℕ

pub record Request : Type 0 where
  pub method : String
  pub path : String
  pub query : String
  pub remote_addr : String
  pub authorization : String

-- what the inner handler does to a request: the path that it leaves there, and the code that it
-- gives to `WriteHeader`, if it calls it
pub record Served : Type 0 where
  pub path : String
  pub status : Option ℕ

-- what `statusRecorder` holds at the end
abbrev recorded_status : Option ℕ → ℕ
recorded_status none = 200
recorded_status (some code) = code

-- `auditMiddleware` sees a request from its start to its finish; `db_ok` says that the row is
-- written.
pub record Event : Type 0 where
  pub request : Request
  pub served : Served
  pub start : Time
  pub finish : Time
  pub db_ok : Bool

unfoldable pub entry_of : Event → Entry
entry_of e = record {
  timestamp = e.start;
  method = e.request.method;
  path = e.served.path;
  query = e.request.query;
  source_ip = e.request.remote_addr;
  identity = identity e.request.authorization;
  status = recorded_status e.served.status;
  latency_ms = (e.finish - e.start) / 1_000_000;
}

-- The log after a request; it is `none` where `auditDB` is nil.
unfoldable pub audit_middleware : Event → Option (List Entry) → Option (List Entry)
audit_middleware e none = none
audit_middleware e (some log) = some (if e.db_ok then log ++ entry_of e ∷ [] else log)

abbrev limit_in_range : ℤ → ℕ
limit_in_range (pos n) = if leb n 0 || ltb 1000 n then 50 else n
limit_in_range (negsuc n) = 50

abbrev scanned : Option ℤ → ℤ
scanned none = pos 50
scanned (some n) = n

-- The limit of a query, from its parameter `limit`.
unfoldable pub limit_of : String → ℕ
limit_of l = limit_in_range (if l == "" then pos 50 else scanned (scan_int l))

-- `GET /v1/audit`; `db_ok` says that the query is answered
unfoldable pub handle_audit_log : Bool → String → Option (List Entry) → Response (List Entry)
handle_audit_log db_ok l none = error status_service_unavailable "audit log not enabled"
handle_audit_log false l (some log) = error status_internal_server_error "db error"
handle_audit_log true l (some log) = json status_ok (take (limit_of l) (reverse log))
