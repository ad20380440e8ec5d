-- ===== src/Cli/Queue.antt =====
-- control-plane/cli/queue.go: queues from the command line.
pub mod Pop
use tiny_aws.Prelude.{String, Option, none, some, List, [], ◌∷◌, ◌||◌, ◌==◌, if◌then◌else◌}
use tiny_aws.Cli.{
  text, empty, fields, HttpRequest, Answer, Program, print, print_line, send, done, usage, Env,
  getenv, http_request, ask, check_status,
}
use tiny_aws.Go.Errors.{Result, ok, err}
use tiny_aws.Go.Text.{concat}

-- the message that an answer holds
pub record QueueMessage : Type 0 where
  pub id : String
  pub body : String

abbrev pub sqs_url : Env → String
sqs_url env = getenv env "SQS_URL" "http://127.0.0.1:9003"

module _ (env : Env) where
  unfoldable pub queue_create : String → Program
  queue_create name =
      ask (http_request env "POST" (concat (sqs_url env ∷ "/queues/" ∷ name ∷ [])) empty)
        (λ a. check_status "create" a (print (concat ("queue created: " ∷ name ∷ "\n" ∷ [])) done))

  -- `sent_id` is `result["id"]` of the decoded answer.
  unfoldable pub queue_send : (String → String) → String → String → Program
  queue_send sent_id name message =
      ask
        (http_request env "POST" (concat (sqs_url env ∷ "/queues/" ∷ name ∷ "/messages" ∷ []))
          (fields (("body", text message) ∷ [])))
        (λ a. check_status "send" a (print (concat ("sent: " ∷ sent_id a.body ∷ "\n" ∷ [])) done))

  abbrev pub receive_request : String → HttpRequest
  receive_request name =
      http_request env "GET" (concat (sqs_url env ∷ "/queues/" ∷ name ∷ "/messages" ∷ [])) empty

  abbrev pub ack_request : String → String → HttpRequest
  ack_request name id =
      http_request env "DELETE" (concat (sqs_url env ∷ "/queues/" ∷ name ∷ "/messages/" ∷ id ∷ []))
        empty

  -- the acknowledgement, whose answer is dropped
  abbrev acknowledge : String → String → Program
  acknowledge name id = send (ack_request name id) (λ r. done)

  abbrev received : String → String → Result QueueMessage → Program
  received name body (err e) = print (concat (body ∷ "\n" ∷ [])) done
  received name body (ok m) =
      print (concat ("id: " ∷ m.id ∷ "\nbody: " ∷ m.body ∷ "\n" ∷ [])) (acknowledge name m.id)

  -- `decode` is `json.Unmarshal` into a message.
  abbrev pub after_receive : (String → Result QueueMessage) → String → Answer → Program
  after_receive decode name a = check_status "receive" a (
      if a.body == "null\n" || a.body == "null"
      then print "(empty)\n" done
      else received name a.body (decode a.body))

  unfoldable pub queue_receive : (String → Result QueueMessage) → String → Program
  queue_receive decode name = ask (receive_request name) (after_receive decode name)

  abbrev create_args : List String → Program
  create_args [] = usage "usage: tinyaws queue create <name>"
  create_args (name ∷ args) = queue_create name

  abbrev send_args : (String → String) → List String → Program
  send_args sent_id [] = usage "usage: tinyaws queue send <name> <message>"
  send_args sent_id (name ∷ []) = usage "usage: tinyaws queue send <name> <message>"
  send_args sent_id (name ∷ message ∷ args) = queue_send sent_id name message

  abbrev receive_args : (String → Result QueueMessage) → List String → Program
  receive_args decode [] = usage "usage: tinyaws queue receive <name>"
  receive_args decode (name ∷ args) = queue_receive decode name

  unfoldable pub run_queue :
      (String → String) → (String → Result QueueMessage) → List String → Program
  run_queue sent_id decode [] = print_line "usage: tinyaws queue create <name>" (
      print_line "       tinyaws queue send <name> <message>"
        (usage "       tinyaws queue receive <name>"))
  run_queue sent_id decode (command ∷ args) =
      if command == "create"
      then create_args args
      else if command == "send"
      then send_args sent_id args
      else if command == "receive"
      then receive_args decode args
      else usage (concat ("unknown queue command: " ∷ command ∷ []))
