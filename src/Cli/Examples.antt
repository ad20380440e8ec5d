-- ===== src/Cli/Examples.antt =====
-- control-plane/cli: commands at concrete inputs.
use tiny_aws.Prelude.{
  Option, ap, ne_of_eq_false, ℕ, zero, suc, ◌<◌, String, true, false, ◌≡◌, refl, ◌∙◌, some, none,
  [], ◌∷◌, arith, All, ◌==◌, ◌&&◌, ◌||◌, if◌then◌else◌,
}
use tiny_aws.Prelude.Int.{ℤ, pos}
use tiny_aws.Cli.{Value, text, number, HttpRequest, Answer, http_request, run}
use tiny_aws.Cli.Deploy.{no_options, deploy_flags}
use tiny_aws.Cli.Deploy.Flags.{flags_of, is_name, deploy_flags-flags_of}
use tiny_aws.Cli.Instance.{exec_loop}
use tiny_aws.Cli.Instance.Wait.{IsJob, exec_exits_with_job}
use tiny_aws.Cli.Job.{JobRecord}
use tiny_aws.Prelude.{List, ◌++◌}
use tiny_aws.Cli.Lambda.{lambda_create, create_flags, flag_of, upload_code, create_function}
use tiny_aws.Cli.Object.{ensure_bucket, upload_object, object_url}
use tiny_aws.Cli.{ask_or, check_status, service_url, getenv}
use tiny_aws.Go.Fmt.{format_id, prefixed}
use tiny_aws.Cli.Network.{rule_payload}
use tiny_aws.Cli.Network.Rules.{IsDecoder, rule_port_lost}
use tiny_aws.Cli.Queue.{QueueMessage, queue_receive}
use tiny_aws.Cli.Queue.Pop.{answer_of, receive_pops}
use tiny_aws.Go.Bytes.Cut.{lacks}
use tiny_aws.Go.Errors.{Result, ok, err}
use tiny_aws.Go.Map.{GoMap, lookup}
use tiny_aws.Go.Text.{concat}
use tiny_aws.Sqs.{
  Sqs, Message, Reply, received, receive_request as receive_message, receive, delete, serve_all,
  is_visible, is_dead, dlq_policy,
}
use tiny_aws.Sqs.Delivery.{receive_oldest}
use tiny_aws.Sqs.DeadLetter.{all_ok}
use tiny_aws.Go.Http.{json, status_ok, status_created}
use tiny_aws.Sqs.Hidden.{Withholds}
use tiny_aws.Vpc.{SgRule, Network, one_rule, handle_sg_rule_add}
use tiny_aws.Sql

deploy_flags-flags_of_example :
    deploy_flags none (flags_of "i-1" true true 8080 (("MODE", "fast") ∷ [])) (ok no_options)
    ≡ ok (record {
      instance_id = "i-1";
      wait = true;
      is_service = true;
      port = pos 8080;
      env_vars = ("MODE", "fast") ∷ [];
    })
deploy_flags-flags_of_example =
    deploy_flags-flags_of "i-1" true true 8080 (("MODE", "fast") ∷ []) (omega arith)
      (unfold is_name lacks in refl, tt) (unfold lookup in refl, tt)

abbrev running : JobRecord
running = record {
  id = "job-1";
  node_id = "n-1";
  command = "make";
  status = "running";
  stdout = "";
  stderr = "";
  exit_code = none;
}

abbrev broken : JobRecord
broken = record running { status = "failed"; stderr = "no rule\n"; exit_code = some (pos 2) }

abbrev running_then_broken : ℕ → Result Answer
running_then_broken zero = ok (record { status = 200; body = "running" })
running_then_broken (suc i) = ok (record { status = 200; body = "failed" })

abbrev decode_job : String → Result JobRecord
decode_job body = if body == "running" then ok running else ok broken

-- a scheduler that knows one job
abbrev serve_job : HttpRequest → ℕ → Result Answer × ℕ
serve_job req i =
    if req.method == "GET" && req.url == "http://127.0.0.1:9001/jobs/job-1"
    then (running_then_broken i, suc i)
    else (err "no such request", i)

exec_exits_with_job_example :
    run serve_job (λ path. err "none") (exec_loop decode_job (λ s. s) (λ key. "") 5 "job-1") 0
    ≡ record { state = 2; stdout = []; stderr = "no rule\n" ∷ []; code = some (pos 2) }
exec_exits_with_job_example =
    exec_exits_with_job decode_job (λ s. s) (λ key. "") (λ path. err "none") running_then_broken
      serve_job 5 1 "job-1" broken (λ i. unfold service_url getenv concat prefixed in refl)
      (omega arith) pending (refl, refl) refl
  where
    pending :
        (j : ℕ)
        → j < 1
        → (waiting : JobRecord) × IsJob decode_job (running_then_broken j) waiting
          × ((waiting.status == "done" || waiting.status == "failed") ≡ false)
    pending zero lt = (running, (refl, refl), refl)
    pending (suc j) lt = absurd (omega arith)

abbrev held : Message
held = record {
  id = "msg-1";
  queue_name = "jobs";
  body = "hello";
  visible_after = 0;
  receive_count = 0;
  deleted = false;
}

abbrev one_message : Sqs
one_message = record { queues = []; messages = held ∷ []; msg_seq = 1 }

abbrev encode : Reply → String
encode r = "{\"id\":\"msg-1\",\"body\":\"hello\",\"receive_count\":1}\n"

abbrev decode : String → Result QueueMessage
decode body = ok (record { id = "msg-1"; body = "hello" })

abbrev serve : HttpRequest → Sqs → Result Answer × Sqs
serve req s =
    if req.method == "GET" && req.url == "http://127.0.0.1:9003/queues/jobs/messages"
    then (let (s', reply) = receive all_ok "jobs" 0 s in (ok (answer_of encode reply), s'))
    else if req.method == "DELETE" && req.url == "http://127.0.0.1:9003/queues/jobs/messages/msg-1"
    then (let (s', reply) = delete true "msg-1" s in (ok (answer_of encode reply), s'))
    else (err "no such request", s)

receive_pops_example :
    let o = run serve (λ path. err "none") (queue_receive (λ key. "") decode "jobs") one_message in
    (o.stdout ≡ concat ("id: " ∷ "msg-1" ∷ "\nbody: " ∷ "hello" ∷ "\n" ∷ []) ∷ [])
    × (o.code ≡ some (pos 0))
    × All
        (Withholds "msg-1")
        (serve_all (receive_message all_ok "jobs" 60_000_000_000 ∷ []) o.state).1
receive_pops_example =
    receive_pops (λ key. "") encode decode all_ok 0 serve (λ path. err "none") "jobs" "msg-1"
      "hello" 1 one_message (record { reads = refl; not_null = refl })
      (record {
        receives = λ s. unfold getenv concat prefixed in refl;
        deletes = λ s. unfold getenv concat prefixed in refl;
      })
      (receive_message all_ok "jobs" 60_000_000_000 ∷ []) refl answered
  where
    answered : (receive all_ok "jobs" 0 one_message).1 ≡ json status_ok (received "msg-1" "hello" 1)
    answered =
        receive_oldest "jobs" 0 one_message [] held [] refl tt (unfold is_visible in refl)
        ∙ (unfold is_dead dlq_policy Sql.find in refl)

abbrev no_network : Network
no_network = record {
  vpcs = [];
  subnets = [];
  route_tables = [];
  security_groups = [];
  sg_rules = [];
  instance_subnets = [];
  seq = 0;
}

abbrev text_field : Option Value → String
text_field (some (text t)) = t
text_field _ = ""

abbrev int_field : Option Value → ℤ
int_field (some (number n)) = n
int_field _ = pos 0

abbrev decode_rule : GoMap Value → SgRule
decode_rule m = record {
  id = text_field (lookup "id" m);
  security_group_id = text_field (lookup "sg_id" m);
  direction = text_field (lookup "direction" m);
  action = text_field (lookup "action" m);
  protocol = text_field (lookup "protocol" m);
  port = int_field (lookup "port" m);
  cidr = text_field (lookup "cidr" m);
}

decode_rule-IsDecoder : IsDecoder decode_rule
decode_rule-IsDecoder = record {
  reads_direction = λ m t e. ap text_field e;
  reads_action = λ m t e. ap text_field e;
  reads_protocol = λ m t e. ap text_field e;
  reads_cidr = λ m t e. ap text_field e;
  skips_port = λ m t e. ap int_field e;
}

abbrev tcp_rule : SgRule
tcp_rule = record {
  id = "rule-1";
  security_group_id = "sg-1";
  direction = "in";
  action = "allow";
  protocol = "tcp";
  port = pos 0;
  cidr = "10.0.0.0/8";
}

rule_port_lost_example :
    let (s', reply) =
      handle_sg_rule_add true "sg-1"
        (decode_rule (rule_payload "allow" "in" "tcp" "22" "10.0.0.0/8"))
        no_network in
    (reply ≡ json status_created (one_rule tcp_rule)) × (s'.sg_rules ≡ tcp_rule ∷ [])
unfolding format_id
rule_port_lost_example =
    rule_port_lost decode_rule "sg-1" "allow" "in" "tcp" "22" "10.0.0.0/8" no_network
      decode_rule-IsDecoder (ne_of_eq_false "in" "" refl) (ne_of_eq_false "allow" "" refl)
      (omega arith) (unfold Sql.has in refl)

-- a service that answers every request, and keeps the requests
abbrev record_urls : HttpRequest → List String → Result Answer × List String
record_urls req urls = (ok (record { status = 200; body = "" }), urls ++ req.url ∷ [])

abbrev code_then_bucket : List String
code_then_bucket = "thumb" ∷ "--file" ∷ "code.zip" ∷ "--bucket" ∷ "mine" ∷ []

-- The code goes to the default bucket, although another one is asked for after it.
early_upload :
    (run record_urls
      (λ path. ok "zip")
      (lambda_create {Any = String} (λ body. []) (λ row. "") (λ key. "") code_then_bucket)
      []).state
    ≡ "http://127.0.0.1:7001/buckets/lambdas"
      ∷ "http://127.0.0.1:7001/buckets/lambdas/objects/thumb.zip"
      ∷ "http://127.0.0.1:9007/functions" ∷ []
unfolding run lambda_create create_flags flag_of upload_code ensure_bucket upload_object
    create_function object_url ask_or check_status http_request service_url getenv concat prefixed
early_upload = refl
