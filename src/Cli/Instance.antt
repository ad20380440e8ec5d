-- ===== src/Cli/Instance.antt =====
-- control-plane/cli/instance.go: instances from the command line, and commands inside them.
pub mod Wait
use tiny_aws.Prelude.{
  ℕ, zero, suc, String, Bool, true, false, not, ◌&&◌, ◌||◌, Option, none, some, List, [], ◌∷◌, ◌++◌,
  ◌==◌, if◌then◌else◌,
}
use tiny_aws.Prelude.Int.{ℤ, pos}
use tiny_aws.Cli.{
  Value, text, texts, empty, fields, Answer, Program, exit, print, print_line, warn, sleep,
  unfinished, done, failed, usage, Env, registry_url, http_request, ask, check_status, join_words,
}
use tiny_aws.Cli.Job.{JobRecord, is_final, job_payload, post_job, fetch_job}
use tiny_aws.Go.Errors.{Result, ok, err}
use tiny_aws.Go.Map.{GoMap}
use tiny_aws.Go.Text.{concat}
use tiny_aws.Go.Time.{second}

pub record LaunchArgs : Type 0 where
  pub instance_type : String
  pub volumes : List String

-- the flag whose value is awaited
pub data Flag : Type 0 where
  type_flag : Flag
  volume_flag : Flag

unfoldable pub flag_of : String → Option Flag
flag_of arg =
    if arg == "--type" then some type_flag else if arg == "--volume" then some volume_flag else none

-- The loop of `runInstanceLaunch`: a flag at the end has no effect.
unfoldable pub launch_flags : Option Flag → List String → LaunchArgs → LaunchArgs
launch_flags pending [] o = o
launch_flags none (arg ∷ args) o = launch_flags (flag_of arg) args o
launch_flags (some type_flag) (value ∷ args) o =
    launch_flags none args (record o { instance_type = value })
launch_flags (some volume_flag) (value ∷ args) o =
    launch_flags none args (record o { volumes = o.volumes ++ value ∷ [] })

unfoldable pub launch_payload : LaunchArgs → GoMap Value
launch_payload o =
    ("instance_type", text o.instance_type)
    ∷ elim o.volumes [ [] ↦ [] | v ∷ vs ↦ ("volumes", texts o.volumes) ∷ [] ]

-- what stands after the first "--"; `none` if there is none
unfoldable pub after_dashes : List String → Option (List String)
after_dashes [] = none
after_dashes (a ∷ args) = let rest = after_dashes args in if a == "--" then some args else rest

-- the instance and the words of the command; `none` for the usage
unfoldable pub exec_args : List String → Option (String × List String)
exec_args (id ∷ a ∷ b ∷ args) = elim (after_dashes (id ∷ a ∷ b ∷ args)) [
  | none ↦ none
  | some [] ↦ none
  | some (word ∷ words) ↦ some (id, word ∷ words)
]
exec_args _ = none

-- `Any` is what `json.Unmarshal` puts into a `map[string]any`, and `show` the verbs `%s` and `%v` of
-- the value of a key, if it is there.
module _ {Any : Type 0} (show : Option Any → String) where
  abbrev pub field : (String → Option Any) → String → String
  field row key = show (row key)

  unfoldable pub print_instances : List (String → Option Any) → Program
  print_instances [] = done
  print_instances (row ∷ rows) =
      print
        (concat (
          field row "id"
          ∷ " node="
          ∷ field row "node_id"
          ∷ " status="
          ∷ field row "status"
          ∷ "\n"
          ∷ []))
        (print_instances rows)

  unfoldable pub print_info : (String → Option Any) → Program
  print_info row = print_line (concat ("id:            " ∷ field row "id" ∷ [])) (
      print_line (concat ("node:          " ∷ field row "node_id" ∷ [])) (
        print_line (concat ("status:        " ∷ field row "status" ∷ [])) (
          print_line (concat ("instance_type: " ∷ field row "instance_type" ∷ [])) (
            print_line (concat ("cpu_limit:     " ∷ field row "cpu_limit" ∷ [])) (
              print_line (concat ("mem_limit_mb:  " ∷ field row "mem_limit_mb" ∷ [])) (
                print_line
                  (concat ("workspace:     /var/lib/tinyaws/instances/" ∷ field row "id" ∷ []))
                  done))))))

abbrev pub or_decode_error {ℓ} : {A : Type ℓ} → (A → Program) → Result A → Program
or_decode_error next (err e) = warn (concat ("decode: " ∷ e ∷ "\n" ∷ [])) failed
or_decode_error next (ok a) = next a

module _ (env : Env) where
  abbrev instance_path : String → String
  instance_path id = concat (registry_url env ∷ "/instances/" ∷ id ∷ [])

  unfoldable pub run_instance_launch : List String → Program
  run_instance_launch args =
      let o = launch_flags none args (record { instance_type = "small"; volumes = [] }) in
      ask
        (http_request env "POST" (concat (registry_url env ∷ "/instances" ∷ []))
          (fields (launch_payload o)))
        (λ a. check_status "launch" a (print_line a.body done))

  unfoldable pub run_instance_terminate : String → Program
  run_instance_terminate id =
      ask (http_request env "DELETE" (instance_path id) empty)
        (λ a. check_status "terminate" a (print_line (concat ("terminated " ∷ id ∷ [])) done))

  -- `decode_list` and `decode_one` are `json.Unmarshal` into a list of maps, and into a map. The
  -- shell of an instance is a process of its own, `shell`.
  module _ {Any : Type 0} (show : Option Any → String)
      (decode_list : String → Result (List (String → Option Any)))
      (decode_one : String → Result (String → Option Any)) (shell : String → Program) where
    unfoldable pub run_instance_list : Program
    run_instance_list =
        ask (http_request env "GET" (concat (registry_url env ∷ "/instances" ∷ [])) empty)
          (λ a. check_status "list" a (or_decode_error (print_instances show) (decode_list a.body)))

    unfoldable pub run_instance_info : String → Program
    run_instance_info id =
        ask (http_request env "GET" (instance_path id) empty)
          (λ a. check_status "info" a (or_decode_error (print_info show) (decode_one a.body)))

    abbrev with_id : String → (String → Program) → List String → Program
    with_id command next [] = usage (concat ("usage: tinyaws instance " ∷ command ∷ " <id>" ∷ []))
    with_id command next (id ∷ args) = next id

    unfoldable pub run_instance : List String → Program
    run_instance [] =
        print_line
          "usage: tinyaws instance launch [--type nano|micro|small|medium|large] [--volume host:container]..."
          (print_line "       tinyaws instance list" (
            print_line "       tinyaws instance terminate <id>" (
              print_line "       tinyaws instance info <id>"
                (usage "       tinyaws instance shell <id>"))))
    run_instance (command ∷ args) =
        if command == "launch"
        then run_instance_launch args
        else if command == "list"
        then run_instance_list
        else if command == "terminate"
        then with_id "terminate" run_instance_terminate args
        else if command == "info"
        then with_id "info" run_instance_info args
        else if command == "shell"
        then with_id "shell" shell args
        else usage "usage: tinyaws instance launch|list|terminate|info|shell ..."

-- the outputs of a job, where they are not empty
unfoldable pub print_output : JobRecord → Program → Program
print_output job next =
    let errors = if job.stderr == "" then next else warn job.stderr next in
    if job.stdout == "" then errors else print job.stdout errors

-- the code that `runExec` exits with
unfoldable pub exec_code : JobRecord → ℤ
exec_code job = elim job.exit_code [ none ↦ pos 0 | some code ↦ code ]

-- `decode` and `quote` are those of jobs.
module _ (decode : String → Result JobRecord) (quote : String → String) (env : Env) where
  abbrev after_exec : Program → Result JobRecord → Program
  after_exec again (err e) = warn (concat ("error: " ∷ e ∷ "\n" ∷ [])) failed
  after_exec again (ok job) =
      if is_final job then print_output job (exit (exec_code job)) else sleep second again

  -- the loop of `runExec`
  unfoldable pub exec_loop : ℕ → String → Program
  exec_loop zero id = unfinished
  exec_loop (suc n) id =
      let again = exec_loop n id in fetch_job decode quote env id (after_exec again)

  abbrev exec_parsed : ℕ → Option (String × List String) → Program
  exec_parsed fuel none = usage "usage: tinyaws exec <instance-id> -- <command...>"
  exec_parsed fuel (some (id, words)) =
      post_job decode quote env "submit failed: " (job_payload (join_words words) id) (λ job.
        print (concat ("exec job " ∷ job.id ∷ " on instance " ∷ id ∷ "\n" ∷ []))
          (exec_loop fuel job.id))

  unfoldable pub run_exec : ℕ → List String → Program
  run_exec fuel args = exec_parsed fuel (exec_args args)
