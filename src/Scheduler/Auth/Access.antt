-- ===== src/Scheduler/Auth/Access.antt =====
-- control-plane/scheduler/auth.go: what the key guards.
use tiny_aws.Prelude.{
  String, Bool, true, false, not, ◌≡◌, ◌≢◌, refl, ap, [], ◌==◌, ◌||◌, eq_false, if◌then◌else◌,
}
use tiny_aws.Go.Fmt.{prefixed, strip_prefix}
use tiny_aws.Go.Fmt.RoundTrip.{strip_prefix-prefixed, prefixed-other}
use tiny_aws.Go.Http.{error, status_not_found, status_unauthorized}
use tiny_aws.Scheduler.Server.{Scheduler}
use tiny_aws.Scheduler.Auth.{
  is_id, is_job_path, is_open, require_auth, Request, health, schedule, submit, list, get, update,
  method_of, path_of, Context, is_routed, is_unguarded, handle, serve,
}

-- the requests that need no key: the health check, and those of the agents, which are the list of
-- jobs and the report on a job
unfoldable pub is_worker_request : Request → Bool
is_worker_request health = true
is_worker_request schedule = false
is_worker_request (submit body) = false
is_worker_request (list node status) = true
is_worker_request (get id) = false
is_worker_request (update id body) = not (id == "")

is_job_path-prefixed : (id : String) → is_job_path (prefixed "/jobs/" id) ≡ not (id == "")
unfolding is_job_path
is_job_path-prefixed id = ap is_id (strip_prefix-prefixed "/jobs/" id)

not_health : (id : String) → (prefixed "/jobs/" id == "/health") ≡ false
not_health id = prefixed-other "/jobs/" id "/health" (unfold strip_prefix in refl)

not_jobs : (id : String) → (prefixed "/jobs/" id == "/jobs") ≡ false
not_jobs id = prefixed-other "/jobs/" id "/jobs" (unfold strip_prefix in refl)

is_open-request : (req : Request) → is_open (method_of req) (path_of req) ≡ is_worker_request req
unfolding is_open method_of path_of is_worker_request
is_open-request health = refl
is_open-request schedule = refl
is_open-request (submit body) = refl
is_open-request (list node status) = refl
is_open-request (get id) = rw (not_health id) (rw (not_jobs id) refl)
is_open-request (update id body) = rw (not_health id) (rw (is_job_path-prefixed id) refl)

either : (a b : Bool) → (if a then true else b) ≡ a || b
either true b = refl
either false b = refl

unguarded :
    (req : Request) (b : Bool)
    → (is_unguarded req || (if is_worker_request req then true else b))
      ≡ (is_worker_request req || b)
unfolding is_worker_request
unguarded health b = refl
unguarded schedule b = refl
unguarded (submit body) b = refl
unguarded (list node status) b = refl
unguarded (get id) b = refl
unguarded (update id body) b = either (not (id == "")) b

-- With a key configured, a request that has a route is served if it is the health check, lists jobs
-- or reports on one, whatever its header, and every other one if its header is "Bearer " and the
-- key. All others that have a route are answered 401. A request on a job without an identifier has
-- no route, and is answered 404. Neither answer changes anything.
pub serve_guards :
    (c : Context) (auth : String) (req : Request) (s : Scheduler)
    → c.api_key ≢ ""
    → serve c auth req s ≡ (
        if not (is_routed req)
        then (s, error status_not_found "404 page not found", [])
        else if is_worker_request req || auth == prefixed "Bearer " c.api_key
        then handle c req s
        else (s, error status_unauthorized "unauthorized", []))
unfolding serve require_auth
serve_guards c auth req s keyed =
    simp (eq_false c.api_key "" keyed, is_open-request req)
      (ap
        (λ b.
          if not (is_routed req)
          then (s, error status_not_found "404 page not found", [])
          else if b
          then handle c req s
          else (s, error status_unauthorized "unauthorized", []))
        (unguarded req (auth == prefixed "Bearer " c.api_key)))
