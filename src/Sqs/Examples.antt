-- ===== src/Sqs/Examples.antt =====
-- Runs of the queue service, and its theorems at concrete inputs.
use tiny_aws.Prelude.{ℕ, ◌*◌, String, ◌≡◌, ◌≢◌, refl, true, false, some, [], ◌∷◌, arith, eq_iff}
use tiny_aws.Prelude.Int.{pos}
use tiny_aws.Go.Fmt.{format_id}
use tiny_aws.Go.Time.{Time, second}
use tiny_aws.Go.Http.{Response, json, status_ok, status_created}
use tiny_aws.Sql
use tiny_aws.Sqs.{
  Sqs, Queue, Message, message_key, Io, create_queue, sent, received, nothing, created, Request,
  deliver, receive_row, create_request, send_request, receive_request, delete_request, serve,
  serve_all, receive, send, delete, new_message, is_visible,
}
use tiny_aws.Sqs.Invariant.{Reaches, initial, request}
use tiny_aws.Sqs.DeadLetter.{all_ok, receive_each, deliveries, dead_letter_after_max}

abbrev start : Sqs
start = record { queues = []; messages = []; msg_seq = 0 }

abbrev jobs_queue : Queue
jobs_queue = record {
  name = "jobs";
  created_at = 0;
  dead_letter_queue = "dead";
  max_receive_count = 2;
}

abbrev first : Message
first = record {
  id = "msg-1";
  queue_name = "jobs";
  body = "a";
  visible_after = 1;
  receive_count = 0;
  deleted = false;
}

abbrev one_queued : Sqs
one_queued = record { queues = jobs_queue ∷ []; messages = first ∷ []; msg_seq = 1 }

abbrev at_seconds : ℕ → Time
at_seconds n = n * second

-- two texts are sent, the first is received, and a restart loses neither
session :
    serve_all
      (create_request true "jobs" "dead" (pos 2) 0
        ∷ send_request true "jobs" (some "a") (at_seconds 1)
        ∷ send_request true "jobs" (some "") (at_seconds 1)
        ∷ receive_request all_ok "jobs" (at_seconds 2)
        ∷ receive_request all_ok "jobs" (at_seconds 3)
        ∷ [])
      start
    ≡ (
      record {
        queues = jobs_queue ∷ [];
        messages = record first { visible_after = 32; receive_count = 1 } ∷ [];
        msg_seq = 1;
      },
      json status_created (created "jobs" "dead" 2)
          ∷ json status_created (sent "msg-1")
          ∷ Response.error 400 "body required"
          ∷ json status_ok (received "msg-1" "a" 1)
          ∷ json status_ok nothing
          ∷ [],
    )
unfolding serve_all serve create_queue send receive receive_row deliver Sql.exec Sql.insert
    Sql.select_first new_message is_visible format_id tiny_aws.Sqs.is_dead tiny_aws.Sqs.dlq_policy
    Sql.find Sql.insert_or_ignore Sql.update tiny_aws.Go.Fmt.next_seq tiny_aws.Sqs.hide
session = refl

first_received :
    (receive all_ok "jobs" (at_seconds 2) one_queued).1 ≡ json status_ok (received "msg-1" "a" 1)
unfolding receive receive_row deliver Sql.exec Sql.select_first is_visible tiny_aws.Sqs.is_dead
    tiny_aws.Sqs.dlq_policy Sql.find
first_received = refl

first_present : Sql.has message_key "msg-1" one_queued.messages ≡ true
unfolding Sql.has
first_present = refl

after_create : Reaches (serve (create_request true "jobs" "dead" (pos 2) 0) start).0
after_create = request (create_request true "jobs" "dead" (pos 2) 0) (omega arith) initial

text-ne : ◌≢◌ {A = String} "dead" ""
text-ne = ground (arith, eq_iff "dead" "")

dead_letter_after_max_example :
    let (s', replies) = receive_each "jobs" (at_seconds 2 ∷ at_seconds 32 ∷ []) one_queued in
    (replies ≡ deliveries "msg-1" "a" 0 (at_seconds 2 ∷ at_seconds 32 ∷ []))
    × (receive all_ok "jobs" (at_seconds 62) s' ≡ (
      record one_queued {
        messages = record first { queue_name = "dead"; visible_after = 62; receive_count = 3 } ∷ [];
      },
      json status_ok nothing,
    ))
dead_letter_after_max_example =
    dead_letter_after_max jobs_queue first [] one_queued (at_seconds 2 ∷ at_seconds 32 ∷ [])
      (at_seconds 62)
      (record {
        policy = unfold Sql.find in refl;
        table = refl;
        alone = unfold Sql.has in refl;
        queued = refl;
        kept = refl;
      })
      refl text-ne (omega arith) refl (omega arith, (omega arith, tt)) (omega arith)

hello-ne : ◌≢◌ {A = String} "hello" ""
hello-ne = ground (arith, eq_iff "hello" "")

abbrev hidden_message : Message
hidden_message = record first { id = "msg-0"; visible_after = 50 }

abbrev two_queued : Sqs
two_queued = record one_queued { messages = hidden_message ∷ first ∷ [] }
