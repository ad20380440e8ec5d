-- ===== src/Api/Examples.antt =====
-- control-plane/api/main.go: the gateway at concrete inputs.
use mathlib.Core.List.{reverse}
use tiny_aws.Prelude.{◌≤◌, true, ◌≡◌, some, [], ◌∷◌, ◌++◌, take, length}
use tiny_aws.Go.Fmt.{prefixed}
use tiny_aws.Go.Http.{json, status_ok}
use tiny_aws.Api.{scheduler, route, proxied_path, Event, handle_audit_log, limit_of}
use tiny_aws.Api.Audit.{after, rows_of, audit_newest_first}
use tiny_aws.Api.Routes.{gateway_reaches_scheduler}
use tiny_aws.Scheduler.Auth.{get, path_of}

abbrev listing : Event
listing = record {
  request = record {
    method = "GET";
    path = "/v1/nodes";
    query = "";
    remote_addr = "10.0.0.9:4000";
    authorization = "Bearer admin-key-1";
  };
  served = record { path = "/nodes"; status = some 200 };
  start = 0;
  finish = 3_000_000;
  db_ok = true;
}

abbrev submission : Event
submission = record listing {
  request = record listing.request { method = "POST"; path = "/v1/jobs" };
  served = record { path = "/jobs"; status = some 201 };
}

audit_newest_first_example :
    let rows = take (limit_of "1") (reverse (rows_of (listing ∷ submission ∷ [])) ++ reverse []) in
    (handle_audit_log true "1" (after (listing ∷ submission ∷ []) (some [])) ≡ json status_ok rows)
    × (1 ≤ limit_of "1")
    × (limit_of "1" ≤ 1000)
    × (length rows ≤ limit_of "1")
audit_newest_first_example = audit_newest_first "1" (listing ∷ submission ∷ []) []

gateway_reaches_scheduler_example :
    (route (prefixed "/v1" (path_of (get "job-1"))) ≡ some scheduler)
    × (proxied_path (prefixed "/v1" (path_of (get "job-1"))) ≡ path_of (get "job-1"))
gateway_reaches_scheduler_example = gateway_reaches_scheduler (get "job-1")
