-- ===== src/LoadBalancer.antt =====
-- data-plane/networking/load-balancer/main.go: the targets, and the choice of one for a request.
-- The globals `targets` and `counter` are the record `Balancer`; the answers of the registry and of
-- health probes are arguments.
pub mod Choice
pub mod Sync
pub mod Reach
mod Examples
use tiny_aws.Prelude.{
  ℕ, zero, suc, ◌+◌, String, Bool, true, false, not, Option, none, some, List, [], ◌∷◌, ◌++◌, ◌==◌,
  select, length, eqb, if◌then◌else◌,
}
use tiny_aws.Prelude.Int.{ℤ, pos, negsuc}
use tiny_aws.Go.Fmt.{decimal, prefixed}
use tiny_aws.Go.Http.{Response, json, status_ok, status_service_unavailable, status_bad_gateway}
use tiny_aws.Go.Map.{GoMap, lookup}
use tiny_aws.Go.RoundRobin.{round_robin}

pub record Target : Type 0 where
  pub url : String
  pub healthy : Bool
  pub service_id : String
  pub node_id : String

-- what the registry says of a node and of a service
pub record Node : Type 0 where
  pub hostname : String
  pub addr : String
  pub status : String

pub record Service : Type 0 where
  pub id : String
  pub node_id : String
  pub port : ℤ

pub record Balancer : Type 0 where
  pub targets : List Target
  pub counter : ℕ

abbrev is_zero : ℤ → Bool
is_zero (pos zero) = true
is_zero (pos (suc n)) = false
is_zero (negsuc n) = false

abbrev format_int : ℤ → String
format_int (pos n) = decimal n
format_int (negsuc n) = prefixed "-" (decimal (n + 1))

abbrev host_of : Node → String
host_of n = if n.addr == "" then n.hostname else n.addr

-- `agent_addr` is the value of AGENT_ADDR.
unfoldable pub agent_url : String → Node → String
agent_url agent_addr n =
    prefixed "http://" (prefixed (host_of n) (if agent_addr == "" then ":8080" else agent_addr))

unfoldable pub service_url : String → ℤ → String
service_url host port = prefixed "http://" (prefixed host (prefixed ":" (format_int port)))

abbrev is_ok : Option ℕ → Bool
is_ok none = false
is_ok (some status) = eqb status status_ok

-- `checkHealth`; `get` is `http.Get`: the status of the answer, `none` for an error
unfoldable pub check_health : (String → Option ℕ) → String → Bool
check_health get agent_url = is_ok (get (prefixed agent_url "/health"))

-- `probe` is `checkHealth`.
module _ (probe : String → Bool) (agent_addr : String) where
  unfoldable pub agent_target : String → Node → Target
  agent_target id n = record {
    url = agent_url agent_addr n;
    healthy = probe (agent_url agent_addr n);
    service_id = "";
    node_id = id;
  }

  unfoldable pub agent_targets : GoMap Node → List Target
  agent_targets [] = []
  agent_targets ((id, n) ∷ nodes) =
      let rest = agent_targets nodes in
      if n.status == "healthy" then agent_target id n ∷ rest else rest

  unfoldable pub service_target : Service → String → Target
  service_target svc host = record {
    url = service_url host svc.port;
    healthy = probe (service_url host svc.port);
    service_id = svc.id;
    node_id = svc.node_id;
  }

  abbrev add_service : Service → Option Node → List Target → List Target
  add_service svc none rest = rest
  add_service svc (some n) rest =
      if is_zero svc.port then rest else service_target svc n.hostname ∷ rest

  unfoldable pub service_targets : GoMap Node → List Service → List Target
  service_targets nodes [] = []
  service_targets nodes (svc ∷ svcs) =
      add_service svc (lookup svc.node_id nodes) (service_targets nodes svcs)

  abbrev or_no_services : Option (List Service) → List Service
  or_no_services none = []
  or_no_services (some svcs) = svcs

  -- The nodes and the services are `none` where a request or a decoder fails.
  unfoldable pub refresh : Option (GoMap Node) → Option (List Service) → Balancer → Balancer
  refresh none svcs s = s
  refresh (some nodes) svcs s = record s {
    targets = agent_targets nodes ++ service_targets nodes (or_no_services svcs);
  }

-- `nextTarget`: the target, and the state after the counter has moved
unfoldable pub next_target : Balancer → Option Target × Balancer
next_target s =
    let (choice, counter) = round_robin s.counter (select (λ t. t.healthy) s.targets) in
    (choice, record s { counter = counter })

-- `GET /health` has the number of targets in its body, and `GET /targets` the targets.
unfoldable pub handle_health : Balancer → Response ℕ
handle_health s = json status_ok (length s.targets)

unfoldable pub handle_targets : Balancer → Response (List Target)
handle_targets s = json status_ok s.targets

-- what becomes of a request: it goes to a URL, or an error is written
pub data Proxied : Type 0 where
  relayed : String → Proxied
  failed : ℕ → String → Proxied

-- The reverse proxy is a library; `reaches` says whether its request to a URL is answered.
abbrev pub proxied : (String → Bool) → Option Target → Proxied
proxied reaches none = failed status_service_unavailable "no healthy backends"
proxied reaches (some t) =
    if reaches t.url then relayed t.url else failed status_bad_gateway "backend error"

-- every other path
unfoldable pub handle_proxy : (String → Bool) → Balancer → Proxied × Balancer
handle_proxy reaches s = let (t, s') = next_target s in (proxied reaches t, s')
