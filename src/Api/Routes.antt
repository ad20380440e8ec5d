-- ===== src/Api/Routes.antt =====
-- control-plane/api/main.go with control-plane/scheduler: the requests that the gateway passes on.
use tiny_aws.Prelude.{
  String, Bool, true, if◌then◌else◌, ◌≡◌, refl, false, none, some, ◌==◌, eq_false,
}
use tiny_aws.Go.Fmt.{prefixed, strip_prefix}
use tiny_aws.Go.Fmt.RoundTrip.{strip_prefix-prefixed, prefixed-ne-nil, prefixed-other}
use tiny_aws.Go.Text.{concat, trim_prefix}
use tiny_aws.Api.{scheduler, is_under, route, proxied_path}
use tiny_aws.Scheduler.Auth.{Request, health, schedule, submit, list, get, update, path_of}

proxied_path-prefixed :
    (path : String) → (path == "") ≡ false → proxied_path (prefixed "/v1" path) ≡ path
unfolding proxied_path trim_prefix
proxied_path-prefixed path full = rw (strip_prefix-prefixed "/v1" path) (rw full refl)

route-job : (id : String) → route (prefixed "/v1/jobs/" id) ≡ some scheduler
unfolding route is_under concat strip_prefix prefixed
route-job id = rw (other "/v1/health/registry" refl) (
    rw (other "/v1/nodes" refl) (
      rw (other "/v1/instances" refl) (
        rw (other "/v1/iam" refl) (
          rw (other "/v1/services" refl)
            (rw (other "/v1/health/scheduler" refl) (rw (other "/v1/jobs" refl) refl))))))
  where
    other :
        (path : String)
        → strip_prefix "/v1/jobs/" path ≡ none
        → (prefixed "/v1/jobs/" id == path) ≡ false
    other path = prefixed-other "/v1/jobs/" id path

job-full : (id : String) → (prefixed "/jobs/" id == "") ≡ false
job-full id = eq_false _ _ (prefixed-ne-nil "/" "jobs/" id)

abbrev pub is_health : Request → Bool
is_health health = true
is_health _ = false

-- A request of the scheduler is sent to the gateway with "/v1" in front of its path: the health
-- check comes to no service, and every other one comes to the scheduler, with its own path.
pub gateway_reaches_scheduler :
    (req : Request)
    → (route (prefixed "/v1" (path_of req)) ≡ (if is_health req then none else some scheduler))
      × (proxied_path (prefixed "/v1" (path_of req)) ≡ path_of req)
unfolding path_of
gateway_reaches_scheduler health = (
  unfold route is_under concat strip_prefix prefixed in refl,
  proxied_path-prefixed "/health" refl,
)
gateway_reaches_scheduler schedule = (
  unfold route is_under concat strip_prefix prefixed in refl,
  proxied_path-prefixed "/schedule" refl,
)
gateway_reaches_scheduler (submit body) =
    (unfold route is_under concat strip_prefix prefixed in refl, proxied_path-prefixed "/jobs" refl)
gateway_reaches_scheduler (list node status) =
    (unfold route is_under concat strip_prefix prefixed in refl, proxied_path-prefixed "/jobs" refl)
gateway_reaches_scheduler (get id) =
    (unfold prefixed in route-job id, proxied_path-prefixed (prefixed "/jobs/" id) (job-full id))
gateway_reaches_scheduler (update id body) =
    (unfold prefixed in route-job id, proxied_path-prefixed (prefixed "/jobs/" id) (job-full id))
