-- ===== src/Scheduler/Queue.antt =====
-- control-plane/scheduler/main.go with control-plane/messaging/sqs/main.go: a round of pollSQSQueue
-- against the queue service.
mod Examples
use tiny_aws.Prelude.{
  ℕ, ◌+◌, ◌≤◌, ◌<◌, String, Bool, true, false, ◌≡◌, ◌≢◌, refl, sym, ap, ◌∙◌, subst, Option, none,
  some, List, [], All,
}
use tiny_aws.Go.Errors.{ok}
use tiny_aws.Go.Fmt.{u64_mod, decimal, format_id, next_seq}
use tiny_aws.Go.Fmt.RoundTrip.{prefixed-ne-nil}
use tiny_aws.Go.Http.{Response, json, error, no_body, status_ok}
use tiny_aws.Go.Map.{lookup}
use tiny_aws.Go.Time.{Time, format_rfc3339}
use tiny_aws.Sql
use tiny_aws.Sqs
use tiny_aws.Sqs.{
  Sqs, Message, message_key, Reply, created, names, sent, nothing, received, Io, is_visible,
  Request, send, receive, delete, serve_all,
}
use tiny_aws.Sqs.Delivery.{receive-send}
use tiny_aws.Sqs.DeadLetter.{all_ok}
use tiny_aws.Sqs.Hidden.{Withholds}
use tiny_aws.Sqs.Invariant.{Reaches}
use tiny_aws.Sqs.Visibility.{receive-hides, delete_final}
use tiny_aws.Scheduler.Job.{Node, JobRequest, new_job}
use tiny_aws.Scheduler.Store.{row_key, to_row}
use tiny_aws.Scheduler.Server.{
  Scheduler, Registry, pick_node, is_empty_request, SqsMessage, poll_sqs_queue,
}
use tiny_aws.Scheduler.Outcome.{IsHandled, poll_handles_message}

-- What the decoder makes of an answer: fields that it lacks stay "", and so do all after `null`.
abbrev pub message_of : Response Reply → Option SqsMessage
message_of (json status (created name dlq max)) = some (record { id = ""; body = "" })
message_of (json status (names l)) = none
message_of (json status (sent id)) = some (record { id = id; body = "" })
message_of (json status nothing) = some (record { id = ""; body = "" })
message_of (json status (received id body count)) = some (record { id = id; body = body })
message_of (error status text) = none
message_of (no_body status) = none

-- the DELETE of a message that is acknowledged
abbrev pub acknowledged : Bool → Option String → Sqs → Sqs
acknowledged db_ok none q = q
acknowledged db_ok (some id) q = (delete db_ok id q).0

-- One round: the receive, what the scheduler makes of it, and the DELETE, with the outcomes of the
-- database calls of the receive, of the scheduler, and of the DELETE; `received_at` is the time of
-- the queue service, and `now` that of the scheduler.
unfoldable pub poll_queue :
    (String → Option JobRequest)
    → Io
    → Bool
    → Bool
    → Registry
    → Time
    → Time
    → Scheduler × Sqs
    → Scheduler × Sqs
poll_queue decode io db_ok delete_ok reg received_at now (s, q) =
    let (q', reply) = receive io "jobs" received_at q in
    let (s', ack) = poll_sqs_queue decode db_ok reg (message_of reply) now s in
    (s', acknowledged delete_ok ack q')

-- In a state of the queue service that requests and restarts lead to, in which no message of "jobs"
-- is visible, a text that decodes to a request of a job is sent to "jobs". At that time or later the
-- scheduler polls, and a node is found. Then, if all reads and writes succeed, the job stands in memory and
-- in the table under the next identifier, and no response of the queue service to any later
-- requests hands the message out.
pub sent_message_becomes_job :
    (decode : String → Option JobRequest) (reg : Registry) (req : JobRequest) (node : Node)
    (body : String) (sent_at received_at now : Time) (s : Scheduler) (q : Sqs) (rs : List Request)
    → Reaches q
    → q.msg_seq + 1 < u64_mod
    → All (λ m. is_visible "jobs" received_at m ≡ false) q.messages
    → body ≢ ""
    → decode body ≡ some req
    → is_empty_request req ≡ false
    → format_rfc3339 sent_at ≤ format_rfc3339 received_at
    → (pick_node reg req s.counter).0 ≡ ok node
    → let queued = (send true "jobs" (some body) sent_at q).0 in
      let (s', q') = poll_queue decode all_ok true true reg received_at now (s, queued) in
      let job = new_job (next_seq s.job_seq) node.id req now in
      (lookup job.id s'.jobs ≡ some job)
      × (Sql.find row_key job.id s'.rows ≡ some (to_row job))
      × All (Withholds (format_id "msg-" (q.msg_seq + 1))) (serve_all rs q').1
unfolding poll_queue
sent_message_becomes_job decode reg req node body sent_at received_at now s q rs reach room empty
      full decoded asks le picked =
    rw answer (handled.1, handled.2, rw handled.0 (delete_final id received_q.0 rs present))
  where
    id : String
    id = format_id "msg-" (q.msg_seq + 1)

    received_q : Sqs × Response Reply
    received_q = receive all_ok "jobs" received_at (send true "jobs" (some body) sent_at q).0

    msg : SqsMessage
    msg = record { id = id; body = body }

    answer : received_q.1 ≡ json status_ok (received id body 1)
    answer = receive-send q "jobs" body sent_at received_at reach full room le empty

    present : Sql.has message_key id received_q.0.messages ≡ true
    present =
        (receive-hides all_ok "jobs" received_at (send true "jobs" (some body) sent_at q).0 id body
          1 refl answer).present

    named : id ≢ ""
    named = unfold format_id in prefixed-ne-nil "m" "sg-" (decimal (q.msg_seq + 1))

    handled :
        IsHandled true (ok node) msg req now s (poll_sqs_queue decode true reg (some msg) now s)
    handled =
        subst
          (λ choice.
            IsHandled true choice msg req now s (poll_sqs_queue decode true reg (some msg) now s))
          picked (poll_handles_message decode true reg msg req now s named decoded asks)
