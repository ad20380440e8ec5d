-- ===== src/Scheduler/Auth.antt =====
-- control-plane/scheduler/auth.go and the routes of main.go: who may ask the scheduler for what.
pub mod Access
use tiny_aws.Prelude.{
  ℕ, String, Bool, true, false, not, ◌&&◌, ◌||◌, Option, none, some, List, [], ◌==◌, if◌then◌else◌,
}
use tiny_aws.Go.Fmt.{prefixed, strip_prefix}
use tiny_aws.Go.Http.{
  Response, json, error, status_ok, status_not_found, status_unauthorized, status_bad_request,
}
use tiny_aws.Go.Time.{Time}
use tiny_aws.Scheduler.Job.{JobRequest, JobUpdateRequest}
use tiny_aws.Scheduler.Server.{
  Scheduler, Registry, Reply, healthy, Notice, handle_schedule, submit_job, list_jobs, get_job,
  update_job,
}

abbrev pub is_id : Option String → Bool
is_id none = false
is_id (some id) = not (id == "")

-- `len(path) > len("/jobs/") && path[:len("/jobs/")] == "/jobs/"`
unfoldable pub is_job_path : String → Bool
is_job_path path = is_id (strip_prefix "/jobs/" path)

-- the requests that `requireAuth` lets pass without a key
unfoldable pub is_open : String → String → Bool
is_open method path =
    path == "/health"
    || ((method == "GET" && path == "/jobs") || (method == "PATCH" && is_job_path path))

-- `requireAuth`, where `key` is TINYAWS_API_KEY and `auth` the header Authorization
unfoldable pub require_auth : String → String → String → String → Bool
require_auth key method path auth =
    if key == "" then true else if is_open method path then true else auth == prefixed "Bearer " key

-- the requests of the routes: they carry their decoded bodies
pub data Request : Type 0 where
  health : Request
  schedule : Request
  submit : Option JobRequest → Request
  list : String → String → Request
  get : String → Request
  update : String → Option JobUpdateRequest → Request

unfoldable pub method_of : Request → String
method_of health = "GET"
method_of schedule = "GET"
method_of (submit body) = "POST"
method_of (list node status) = "GET"
method_of (get id) = "GET"
method_of (update id body) = "PATCH"

unfoldable pub path_of : Request → String
path_of health = "/health"
path_of schedule = "/schedule"
path_of (submit body) = "/jobs"
path_of (list node status) = "/jobs"
path_of (get id) = prefixed "/jobs/" id
path_of (update id body) = prefixed "/jobs/" id

-- what a request meets: the environment, the outcome of the calls that it makes, and the time
pub record Context : Type 0 where
  pub api_key : String
  pub max_jobs : ℕ
  pub sns_url : String
  pub db_ok : Bool
  pub registry : Registry
  pub now : Time

abbrev pub Outcome : Type 0
Outcome = Scheduler × Response Reply × List Notice

-- `handleJobByID`
unfoldable pub handle_job_by_id : String → Outcome → Scheduler → Outcome
handle_job_by_id id served s =
    if id == "" then (s, error status_bad_request "job id required", []) else served

-- "/jobs/{id}" is no route for an empty identifier.
unfoldable pub is_routed : Request → Bool
is_routed health = true
is_routed schedule = true
is_routed (submit body) = true
is_routed (list node status) = true
is_routed (get id) = not (id == "")
is_routed (update id body) = not (id == "")

-- the route of the health check is the only one without `authMiddleware`
abbrev pub is_unguarded : Request → Bool
is_unguarded health = true
is_unguarded _ = false

-- the handler behind a route
unfoldable pub handle : Context → Request → Scheduler → Outcome
handle c health s = (s, json status_ok healthy, [])
handle c schedule s = let (s', reply) = handle_schedule c.registry.nodes_answer s in (s', reply, [])
handle c (submit body) s =
    let (s', reply) = submit_job c.db_ok c.registry body c.now s in (s', reply, [])
handle c (list node status) s = (s, list_jobs c.max_jobs node status s, [])
handle c (get id) s = handle_job_by_id id (s, get_job id s, []) s
handle c (update id body) s = handle_job_by_id id (update_job c.db_ok c.sns_url body id c.now s) s

-- The router, with `authMiddleware` around the handlers; `auth` is the header Authorization.
unfoldable pub serve : Context → String → Request → Scheduler → Outcome
serve c auth req s =
    if not (is_routed req)
    then (s, error status_not_found "404 page not found", [])
    else if is_unguarded req || require_auth c.api_key (method_of req) (path_of req) auth
    then handle c req s
    else (s, error status_unauthorized "unauthorized", [])
