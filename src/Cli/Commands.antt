-- ===== src/Cli/Commands.antt =====
-- control-plane/cli/main.go: the choice of a command.
use tiny_aws.Prelude.{String, List, [], ◌∷◌, ◌==◌, if◌then◌else◌}
use tiny_aws.Cli.{Program, print, failed}
use tiny_aws.Go.Text.{concat}

-- what `printUsage` prints
usage_text : String
unfolding concat
usage_text = concat (
    "tiny-aws CLI\n" ∷ "\n" ∷ "Usage:\n"
    ∷ "  tinyaws node list [--role compute|storage] [--healthy-only]\n"
    ∷ "  tinyaws object put <key> [--data text] [--file path]\n" ∷ "  tinyaws object get <key>\n"
    ∷ "  tinyaws job submit \"<command>\" [--instance i-1]\n"
    ∷ "  tinyaws job status <job-id> [--wait]\n" ∷ "  tinyaws instance launch\n"
    ∷ "  tinyaws instance list\n" ∷ "  tinyaws instance terminate <id>\n"
    ∷ "  tinyaws instance shell <id>\n" ∷ "  tinyaws exec <instance-id> -- <command>\n" ∷ "\n"
    ∷ "  tinyaws bucket create <name>\n" ∷ "  tinyaws bucket list\n"
    ∷ "  tinyaws object put <key> --bucket <name> [--data text] [--file path]\n"
    ∷ "  tinyaws object get <key> --bucket <name>\n" ∷ "\n"
    ∷ "  tinyaws deploy <dir> [--instance i-1] [--wait] [--service] [--port N] [--env KEY=VAL]...\n"
    ∷ "\n" ∷ "  tinyaws auth set-key <key> [--role admin|readonly]\n" ∷ "  tinyaws auth whoami\n"
    ∷ "\n" ∷ "  tinyaws service list\n" ∷ "  tinyaws service stop <id>\n"
    ∷ "  tinyaws service logs <id>\n" ∷ "\n" ∷ "Environment:\n"
    ∷ "  REGISTRY_URL      default http://127.0.0.1:9000\n"
    ∷ "  SCHEDULER_URL     default http://127.0.0.1:9001\n"
    ∷ "  OBJECT_STORE_URL  default http://127.0.0.1:7001\n"
    ∷ "  TINYAWS_API_KEY   optional bearer token\n" ∷ [])

-- the commands that `main` chooses from
pub record Commands : Type 0 where
  pub node_command : List String → Program
  pub object_command : List String → Program
  pub job_command : List String → Program
  pub instance_command : List String → Program
  pub exec_command : List String → Program
  pub bucket_command : List String → Program
  pub deploy_command : List String → Program
  pub auth_command : List String → Program
  pub storage_command : List String → Program
  pub queue_command : List String → Program
  pub lb_command : List String → Program
  pub vpc_command : List String → Program
  pub subnet_command : List String → Program
  pub sg_command : List String → Program
  pub lambda_command : List String → Program
  pub service_command : List String → Program

-- `main`, with the arguments after the name of the program
unfoldable pub main : Commands → List String → Program
unfolding usage_text
main c [] = print usage_text failed
main c (command ∷ args) =
    if command == "node"
    then c.node_command args
    else if command == "object"
    then c.object_command args
    else if command == "job"
    then c.job_command args
    else if command == "instance"
    then c.instance_command args
    else if command == "exec"
    then c.exec_command args
    else if command == "bucket"
    then c.bucket_command args
    else if command == "deploy"
    then c.deploy_command args
    else if command == "auth"
    then c.auth_command args
    else if command == "storage"
    then c.storage_command args
    else if command == "queue"
    then c.queue_command args
    else if command == "lb"
    then c.lb_command args
    else if command == "vpc"
    then c.vpc_command args
    else if command == "subnet"
    then c.subnet_command args
    else if command == "sg"
    then c.sg_command args
    else if command == "lambda"
    then c.lambda_command args
    else if command == "service"
    then c.service_command args
    else print usage_text failed
