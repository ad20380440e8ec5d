-- ===== src/Cli/Registry.antt =====
-- control-plane/cli/node.go, storage.go and service.go: nodes and services from the command line.
use tiny_aws.Prelude.{
  ℕ, String, Bool, true, false, not, ◌&&◌, ◌||◌, Option, List, [], ◌∷◌, leb, eqb, ◌==◌,
  if◌then◌else◌,
}
use tiny_aws.Prelude.Int.{ℤ}
use tiny_aws.Cli.{
  empty, Answer, Program, print, print_line, warn, done, failed, usage, Env, registry_url,
  object_store_url, http_request, ask, ask_or, check_status,
}
use tiny_aws.Cli.Job.{decimal_int}
use tiny_aws.Go.Errors.{Result, ok, err}
use tiny_aws.Go.Fmt.{decimal}
use tiny_aws.Go.Text.{concat}

pub record NodeRecord : Type 0 where
  pub id : String
  pub hostname : String
  pub cpu_count : ℤ
  pub role : String
  pub status : String

pub record NodeArgs : Type 0 where
  pub role : String
  pub healthy_only : Bool

-- The flags of `node list`; `pending` says that a value is awaited.
unfoldable pub node_flags : Bool → List String → NodeArgs → Result NodeArgs
node_flags true [] o = err "--role requires a value"
node_flags false [] o = ok o
node_flags true (value ∷ args) o = node_flags false args (record o { role = value })
node_flags false (arg ∷ args) o =
    node_flags (arg == "--role") args
      (record o { healthy_only = arg == "--healthy-only" || o.healthy_only })

unfoldable pub print_nodes : (NodeRecord → Bool) → (NodeRecord → String) → List NodeRecord → Program
print_nodes shown line [] = done
print_nodes shown line (n ∷ nodes) =
    let rest = print_nodes shown line nodes in if shown n then print (line n) rest else rest

-- `decode` is `json.Unmarshal` into a map of nodes, whose values are listed in the order of a range
-- loop. `pad n s` is `%-ns`.
module _ (decode : String → Result (List NodeRecord)) (pad : ℕ → String → String) (env : Env) where
  abbrev nodes_of : Answer → Result (List NodeRecord)
  nodes_of a =
      if leb 400 a.status
      then err (concat ("registry returned " ∷ decimal a.status ∷ ": " ∷ a.body ∷ []))
      else decode a.body

  abbrev or_nodes_error : (List NodeRecord → Program) → Result (List NodeRecord) → Program
  or_nodes_error next (err e) = warn (concat ("error: " ∷ e ∷ "\n" ∷ [])) failed
  or_nodes_error next (ok nodes) = next nodes

  -- `fetchNodes`, with the error of its callers
  unfoldable pub fetch_nodes : String → (List NodeRecord → Program) → Program
  fetch_nodes role next =
      let query = if role == "" then "" else concat ("?role=" ∷ role ∷ []) in
      ask (http_request env "GET" (concat (registry_url env ∷ "/nodes" ∷ query ∷ [])) empty)
        (λ a. or_nodes_error next (nodes_of a))

  abbrev node_line : NodeRecord → String
  node_line n = concat (
      pad 20 n.id
      ∷ " role="
      ∷ pad 8 n.role
      ∷ " status="
      ∷ pad 10 n.status
      ∷ " hostname="
      ∷ n.hostname
      ∷ " cpus="
      ∷ decimal_int n.cpu_count
      ∷ "\n"
      ∷ [])

  abbrev list_parsed : Result NodeArgs → Program
  list_parsed (err message) = usage message
  list_parsed (ok o) =
      fetch_nodes o.role (print_nodes (λ n. not o.healthy_only || n.status == "healthy") node_line)

  unfoldable pub run_node : List String → Program
  run_node [] = usage "usage: tinyaws node list [--role compute|storage] [--healthy-only]"
  run_node (command ∷ args) =
      if command == "list"
      then list_parsed (node_flags false args (record { role = ""; healthy_only = false }))
      else usage "usage: tinyaws node list [--role compute|storage] [--healthy-only]"

  abbrev storage_line : NodeRecord → String
  storage_line n =
      concat (pad 20 n.id ∷ " status=" ∷ pad 10 n.status ∷ " hostname=" ∷ n.hostname ∷ "\n" ∷ [])

  unfoldable pub run_storage : List String → Program
  run_storage (a ∷ b ∷ args) =
      if a == "node" && b == "list"
      then fetch_nodes "storage" (print_nodes (λ n. true) storage_line)
      else usage "usage: tinyaws storage node list"
  run_storage _ = usage "usage: tinyaws storage node list"

-- `Any` is what `json.Unmarshal` puts into a `map[string]any`; `show n` is the verb `%-ns` (`%-nv` for
-- the port) of the value of a key.
module _ {Any : Type 0} (decode : String → Result (List (String → Option Any)))
    (show : ℕ → Option Any → String) (pad : ℕ → String → String) (env : Env) where
  unfoldable pub print_services : List (String → Option Any) → Program
  print_services [] = done
  print_services (s ∷ services) =
      print
        (concat (
          show 12 (s "id")
          ∷ " "
          ∷ show 12 (s "instance_id")
          ∷ " "
          ∷ show 20 (s "node_id")
          ∷ " "
          ∷ show 8 (s "port")
          ∷ " "
          ∷ show 8 (s "status")
          ∷ "\n"
          ∷ []))
        (print_services services)

  abbrev listed_services : Result (List (String → Option Any)) → Program
  listed_services (err e) = print_line "(no services)" done
  listed_services (ok []) = print_line "(no services)" done
  listed_services (ok (s ∷ services)) =
      print
        (concat (
          pad 12 "ID"
          ∷ " "
          ∷ pad 12 "INSTANCE"
          ∷ " "
          ∷ pad 20 "NODE"
          ∷ " "
          ∷ pad 8 "PORT"
          ∷ " "
          ∷ pad 8 "STATUS"
          ∷ "\n"
          ∷ []))
        (print_services (s ∷ services))

  unfoldable pub service_list : Program
  service_list =
      ask (http_request env "GET" (concat (registry_url env ∷ "/services" ∷ [])) empty)
        (λ a. check_status "list" a (listed_services (decode a.body)))

  abbrev service_path : String → String
  service_path id = concat (registry_url env ∷ "/services/" ∷ id ∷ [])

  unfoldable pub service_stop : String → Program
  service_stop id =
      ask (http_request env "DELETE" (service_path id) empty)
        (λ a. check_status "stop" a (print_line (concat ("service " ∷ id ∷ " stopped" ∷ [])) done))

  unfoldable pub service_logs : String → Program
  service_logs id = ask (http_request env "GET" (service_path id) empty) (λ a.
      if eqb a.status 404
      then warn (concat ("service " ∷ id ∷ " not found\n" ∷ [])) failed
      else ask_or "error fetching logs: "
          (http_request env "GET"
            (concat (object_store_url env ∷ "/objects/logs/" ∷ id ∷ "/service.log" ∷ [])) empty)
          (λ log.
            if eqb log.status 404
            then print_line "no logs available yet" done
            else print log.body done))

  abbrev with_id : String → (String → Program) → List String → Program
  with_id command next [] = usage (concat ("usage: tinyaws service " ∷ command ∷ " <id>" ∷ []))
  with_id command next (id ∷ args) = next id

  unfoldable pub run_service : List String → Program
  run_service [] =
      print_line "usage: tinyaws service list"
        (print_line "       tinyaws service stop <id>" (usage "       tinyaws service logs <id>"))
  run_service (command ∷ args) =
      if command == "list"
      then service_list
      else if command == "stop"
      then with_id "stop" service_stop args
      else if command == "logs"
      then with_id "logs" service_logs args
      else usage (concat ("unknown service command: " ∷ command ∷ []))
