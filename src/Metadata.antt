-- ===== src/Metadata.antt =====
-- control-plane/metadata/main.go: one answer with the resources of all services.
use tiny_aws.Prelude.{String, Option, none, some, List, [], ◌∷◌}
use tiny_aws.Go.Http.{Response, json, status_ok}
use tiny_aws.Go.Map.{GoMap}
use tiny_aws.Go.Text.{concat}

-- a name in the answer, the base of a service and a path of it
unfoldable pub sources : String → String → String → List (String × String × String)
sources registry_url scheduler_url networking_url =
    ("nodes", registry_url, "/nodes")
    ∷ ("instances", registry_url, "/instances")
    ∷ ("jobs", scheduler_url, "/jobs")
    ∷ ("vpcs", networking_url, "/vpcs")
    ∷ ("subnets", networking_url, "/subnets")
    ∷ ("security_groups", networking_url, "/security-groups")
    ∷ []

-- `Any` is a decoded JSON value, and `fetch` the function of that name; `none` is its error.
module _ {Any : Type 0} (fetch : String → Option Any) where
  abbrev put : String → Option Any → GoMap Any → GoMap Any
  put name none rest = rest
  put name (some v) rest = (name, v) ∷ rest

  unfoldable pub collect : List (String × String × String) → GoMap Any
  collect [] = []
  collect ((name, base, path) ∷ rest) = put name (fetch (concat (base ∷ path ∷ []))) (collect rest)

  -- `GET /resources`
  unfoldable pub handle_resources : String → String → String → Response (GoMap Any)
  handle_resources registry_url scheduler_url networking_url =
      json status_ok (collect (sources registry_url scheduler_url networking_url))
