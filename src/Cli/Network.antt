-- ===== src/Cli/Network.antt =====
-- control-plane/cli/vpc.go and lb.go: virtual networks and the load balancer from the command line.
pub mod Rules
use tiny_aws.Prelude.{
  String, Bool, true, false, ◌||◌, Option, none, some, List, [], ◌∷◌, ◌==◌, if◌then◌else◌,
}
use tiny_aws.Cli.{
  Value, text, empty, fields, Answer, Program, print, print_line, warn, send, done, failed, usage,
  Env, getenv, http_request, ask, ask_or,
}
use tiny_aws.Go.Errors.{Result, ok, err}
use tiny_aws.Go.Map.{GoMap}
use tiny_aws.Go.Text.{concat}

abbrev pub networking_url : Env → String
networking_url env = getenv env "NETWORKING_URL" "http://127.0.0.1:9005"

abbrev pub lb_url : Env → String
lb_url env = getenv env "LB_URL" "http://127.0.0.1:8088"

-- the object of `sg allow` and `sg deny`: all its values are texts
unfoldable pub rule_payload : String → String → String → String → String → GoMap Value
rule_payload action direction protocol port cidr =
    ("direction", text direction)
    ∷ ("action", text action)
    ∷ ("protocol", text protocol)
    ∷ ("port", text port)
    ∷ ("cidr", text cidr)
    ∷ []

-- The loop of `subnet list`: each `--vpc` with a value adds to the URL, and its value is looked at
-- as a flag again.
unfoldable pub subnet_query : Bool → List String → String → String
subnet_query pending [] url = url
subnet_query true (arg ∷ args) url =
    subnet_query (arg == "--vpc") args (concat (url ∷ "?vpc_id=" ∷ arg ∷ []))
subnet_query false (arg ∷ args) url = subnet_query (arg == "--vpc") args url

-- a target of the load balancer as it is listed
pub record TargetRecord : Type 0 where
  pub url : String
  pub healthy : Bool

-- `pad` is `%-30s`.
unfoldable pub print_targets : (String → String) → List TargetRecord → Program
print_targets pad [] = done
print_targets pad (t ∷ targets) =
    print (concat (pad t.url ∷ " healthy=" ∷ (if t.healthy then "true" else "false") ∷ "\n" ∷ []))
      (print_targets pad targets)

abbrev listed_targets : (String → String) → String → Result (List TargetRecord) → Program
listed_targets pad body (err e) = print_line body done
listed_targets pad body (ok targets) = print_targets pad targets

module _ (env : Env) where
  -- a POST whose answer is printed, whatever its status is
  unfoldable pub create : String → GoMap Value → Program
  create path payload =
      ask (http_request env "POST" (concat (networking_url env ∷ path ∷ [])) (fields payload))
        (λ a. print_line a.body done)

  unfoldable pub run_lb :
      (String → String) → (String → Result (List TargetRecord)) → List String → Program
  run_lb pad decode [] = usage "usage: tinyaws lb create | tinyaws lb list"
  run_lb pad decode (command ∷ args) =
      if command == "create"
      then ask_or "lb unreachable: "
          (http_request env "GET" (concat (lb_url env ∷ "/health" ∷ [])) empty)
          (λ a. print_line a.body done)
      else if command == "list"
      then ask_or "lb unreachable: "
          (http_request env "GET" (concat (lb_url env ∷ "/targets" ∷ [])) empty)
          (λ a. listed_targets pad a.body (decode a.body))
      else usage (concat ("unknown lb command: " ∷ command ∷ []))

  -- `Any` is what `json.Unmarshal` puts into a `map[string]any`, `decode` the same for a list of
  -- maps; `row` is the line that is printed of one.
  module _ {Any : Type 0} (decode : String → Result (List (String → Option Any))) where
    unfoldable pub print_rows :
        ((String → Option Any) → String) → List (String → Option Any) → Program
    print_rows row [] = done
    print_rows row (x ∷ xs) = print (row x) (print_rows row xs)

    abbrev decoded_rows :
        ((String → Option Any) → String) → Result (List (String → Option Any)) → Program
    decoded_rows row (err e) = warn "error: invalid response from networking service\n" failed
    decoded_rows row (ok xs) = print_rows row xs

    unfoldable pub list : ((String → Option Any) → String) → String → Program
    list row url =
        ask_or "error: networking service unreachable: " (http_request env "GET" url empty)
          (λ a. decoded_rows row (decode a.body))

    -- `show n` is the verb `%-ns` of the value of a key, `plain` the verb `%s`.
    module _ (show12 show15 show20 plain : Option Any → String) where
      abbrev vpc_row : (String → Option Any) → String
      vpc_row v =
          concat
            (show12 (v "id") ∷ " " ∷ show20 (v "name") ∷ " cidr=" ∷ plain (v "cidr") ∷ "\n" ∷ [])

      abbrev subnet_row : (String → Option Any) → String
      subnet_row s = concat (
          show15 (s "id") ∷ " vpc=" ∷ show12 (s "vpc_id") ∷ " cidr=" ∷ plain (s "cidr") ∷ "\n" ∷ [])

      abbrev sg_row : (String → Option Any) → String
      sg_row g =
          concat
            (show12 (g "id") ∷ " " ∷ show20 (g "name") ∷ " vpc=" ∷ plain (g "vpc_id") ∷ "\n" ∷ [])

      abbrev vpc_create : List String → Program
      vpc_create (name ∷ cidr ∷ args) =
          create "/vpcs" (("name", text name) ∷ ("cidr", text cidr) ∷ [])
      vpc_create _ = usage "usage: tinyaws vpc create <name> <cidr>"

      unfoldable pub run_vpc : List String → Program
      run_vpc [] = usage "usage: tinyaws vpc create <name> <cidr> | vpc list"
      run_vpc (command ∷ args) =
          if command == "create"
          then vpc_create args
          else if command == "list"
          then list vpc_row (concat (networking_url env ∷ "/vpcs" ∷ []))
          else usage (concat ("unknown vpc command: " ∷ command ∷ []))

      abbrev subnet_create : List String → Program
      subnet_create (vpc_id ∷ cidr ∷ args) =
          create "/subnets" (("vpc_id", text vpc_id) ∷ ("cidr", text cidr) ∷ [])
      subnet_create _ = usage "usage: tinyaws subnet create <vpc-id> <cidr>"

      -- an unknown command does nothing
      unfoldable pub run_subnet : List String → Program
      run_subnet [] =
          usage "usage: tinyaws subnet create <vpc-id> <cidr> | subnet list [--vpc <id>]"
      run_subnet (command ∷ args) =
          if command == "create"
          then subnet_create args
          else if command == "list"
          then list subnet_row
              (subnet_query false args (concat (networking_url env ∷ "/subnets" ∷ [])))
          else done

      abbrev sg_create : List String → Program
      sg_create (vpc_id ∷ name ∷ args) =
          create "/security-groups" (("vpc_id", text vpc_id) ∷ ("name", text name) ∷ [])
      sg_create _ = usage "usage: tinyaws sg create <vpc-id> <name>"

      abbrev sg_rule : String → List String → Program
      sg_rule action (id ∷ direction ∷ protocol ∷ port ∷ cidr ∷ args) =
          create (concat ("/security-groups/" ∷ id ∷ "/rules" ∷ []))
            (rule_payload action direction protocol port cidr)
      sg_rule action _ = usage "usage: tinyaws sg allow|deny <id> <direction> <proto> <port> <cidr>"

      unfoldable pub run_sg : List String → Program
      run_sg [] =
          usage
            "usage: tinyaws sg create <vpc-id> <name> | sg list | sg allow <id> in|out tcp|udp <port> <cidr>"
      run_sg (command ∷ args) =
          if command == "create"
          then sg_create args
          else if command == "list"
          then list sg_row (concat (networking_url env ∷ "/security-groups" ∷ []))
          else if command == "allow" || command == "deny"
          then sg_rule command args
          else done
