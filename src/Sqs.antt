-- ===== src/Sqs.antt =====
-- control-plane/messaging/sqs/main.go: the queue service. The global `db` and `msgSeq` are the
-- record `Sqs`; a handler takes the outcomes of its database calls, the request and the time, and
-- returns the new state with its response.
pub mod Invariant
pub mod Hidden
pub mod Visibility
pub mod DeadLetter
pub mod Delivery
pub mod Threads
mod Examples
use tiny_aws.Prelude.{
  ℕ, zero, suc, ◌+◌, ◌*◌, String, Bool, true, false, not, ◌&&◌, Option, none, some, List, [], ◌∷◌,
  ◌++◌, map, ltb, leb, ◌==◌, if◌then◌else◌,
}
use tiny_aws.Prelude.Int.{ℤ, pos, negsuc}
use tiny_aws.Go.Fmt.{next_seq, format_id, scan_id}
use tiny_aws.Go.Time.{Time, second, format_rfc3339}
use tiny_aws.Go.Http.{
  Response, json, error, no_body, status_ok, status_created, status_no_content, status_bad_request,
  status_internal_server_error,
}
use tiny_aws.Sql

-- a row of `queues`; a time column is the second count of its text
pub record Queue : Type 0 where
  pub name : String
  pub created_at : ℕ
  pub dead_letter_queue : String
  pub max_receive_count : ℕ

-- a row of `messages`
pub record Message : Type 0 where
  pub id : String
  pub queue_name : String
  pub body : String
  pub visible_after : ℕ
  pub receive_count : ℕ
  pub deleted : Bool

pub record Sqs : Type 0 where
  pub queues : List Queue
  pub messages : List Message
  pub msg_seq : ℕ

abbrev pub queue_key : Queue → String
queue_key q = q.name

abbrev pub message_key : Message → String
message_key m = m.id

pub data Reply : Type 0 where
  created : String → String → ℕ → Reply
  names : List String → Reply
  sent : String → Reply
  nothing : Reply
  received : String → String → ℕ → Reply

-- A restart of the service keeps the tables, and `main` reads the sequence number off the last row.
unfoldable pub restart : Sqs → Sqs
restart s = record s { msg_seq = Sql.load_seq "msg-" message_key s.messages }

-- `if req.MaxReceiveCount <= 0 { req.MaxReceiveCount = 5 }`
unfoldable pub default_max : ℤ → ℕ
default_max (pos zero) = 5
default_max (pos (suc n)) = suc n
default_max (negsuc n) = 5

unfoldable pub create_queue : Bool → String → String → ℤ → Time → Sqs → Sqs × Response Reply
unfolding default_max
create_queue db_ok name dlq max now s =
    let q : Queue = record {
      name = name;
      created_at = format_rfc3339 now;
      dead_letter_queue = dlq;
      max_receive_count = default_max max;
    } in
    let (t, ok) = Sql.exec db_ok (some (Sql.insert_or_ignore queue_key q s.queues)) s.queues in
    if ok
    then (record s { queues = t }, json status_created (created name dlq (default_max max)))
    else (s, error status_internal_server_error "db error")

-- The statement asks for no order; here the names come in that of the rows.
unfoldable pub list_queues : Bool → Sqs → Response Reply
list_queues db_ok s =
    if db_ok
    then json status_ok (names (map queue_key s.queues))
    else error status_internal_server_error "db error"

-- `INSERT INTO messages (id, queue_name, body, visible_after)`; the other columns have defaults
unfoldable pub new_message : ℕ → String → String → Time → Message
new_message seq queue body now = record {
  id = format_id "msg-" seq;
  queue_name = queue;
  body = body;
  visible_after = format_rfc3339 now;
  receive_count = 0;
  deleted = false;
}

-- the INSERT of `handleSend`, for a number that is taken
unfoldable pub store_message : Bool → ℕ → String → String → Time → Sqs → Sqs × Response Reply
store_message db_ok seq queue body now s =
    let m = new_message seq queue body now in
    let (t, ok) = Sql.exec db_ok (Sql.insert message_key m s.messages) s.messages in
    (
      record s { messages = t },
      if ok then json status_created (sent m.id) else error status_internal_server_error "db error",
    )

send_body : Bool → String → String → Time → Sqs → Sqs × Response Reply
unfolding store_message
send_body db_ok queue body now s =
    let seq = next_seq s.msg_seq in
    store_message db_ok seq queue body now (record s { msg_seq = seq })

-- `none` is a body that does not decode
unfoldable pub send : Bool → String → Option String → Time → Sqs → Sqs × Response Reply
unfolding send_body
send db_ok queue none now s = (s, error status_bad_request "body required")
send db_ok queue (some body) now s =
    if body == ""
    then (s, error status_bad_request "body required")
    else send_body db_ok queue body now s

-- the outcomes of the three database calls of `handleReceive`
pub record Io : Type 0 where
  pub select_ok : Bool
  pub policy_ok : Bool
  pub update_ok : Bool

-- `WHERE queue_name = ? AND deleted = 0 AND visible_after <= ?`
unfoldable pub is_visible : String → Time → Message → Bool
is_visible queue now m =
    (m.queue_name == queue) && (not m.deleted && leb m.visible_after (format_rfc3339 now))

abbrev policy_row : Option Queue → String × ℕ
policy_row none = ("", 0)
policy_row (some q) = (q.dead_letter_queue, q.max_receive_count)

-- The dead letter queue and the limit; no row, or an error, is no policy.
unfoldable pub dlq_policy : Bool → String → List Queue → String × ℕ
dlq_policy false queue t = ("", 0)
dlq_policy true queue t = policy_row (Sql.find queue_key queue t)

unfoldable pub is_dead : String × ℕ → ℕ → Bool
is_dead (dlq, max) count = not (dlq == "") && (ltb 0 max && ltb max count)

unfoldable pub to_dead_letter : String → ℕ → Time → Message → Message
to_dead_letter dlq count now m = record m {
  queue_name = dlq;
  receive_count = count;
  visible_after = format_rfc3339 now;
}

-- `now.Add(30 * time.Second)`
unfoldable pub hide : ℕ → Time → Message → Message
hide count now m = record m {
  visible_after = format_rfc3339 (now + 30 * second);
  receive_count = count;
}

-- The error of the update is dropped, so the response does not depend on it.
unfoldable pub finish : Io → Time → Message → String × ℕ → Sqs → Sqs × Response Reply
finish io now m policy s =
    let count = m.receive_count + 1 in
    if is_dead policy count
    then (
      record s {
        messages =
            (Sql.exec io.update_ok
              (some (Sql.update message_key m.id (to_dead_letter policy.0 count now) s.messages))
              s.messages).0;
      },
      json status_ok nothing,
    )
    else (
      record s {
        messages =
            (Sql.exec io.update_ok (some (Sql.update message_key m.id (hide count now) s.messages))
              s.messages).0;
      },
      json status_ok (received m.id m.body count),
    )

unfoldable pub deliver : Io → String → Time → Sqs → Message → Sqs × Response Reply
unfolding finish
deliver io queue now s m = finish io now m (dlq_policy io.policy_ok queue s.queues) s

-- what follows the query for the next message
receive_row : Io → String → Time → Sqs → Option Message → Sqs × Response Reply
receive_row io queue now s none = (s, json status_ok nothing)
receive_row io queue now s (some m) = deliver io queue now s m

unfoldable pub receive : Io → String → Time → Sqs → Sqs × Response Reply
unfolding receive_row
receive io queue now s =
    if io.select_ok
    then receive_row io queue now s (Sql.select_first (is_visible queue now) s.messages)
    else (s, error status_internal_server_error "db error")

unfoldable pub mark_deleted : Message → Message
mark_deleted m = record m { deleted = true }

-- `DELETE /queues/{name}/messages/{id}` reads the id alone.
unfoldable pub delete : Bool → String → Sqs → Sqs × Response Reply
unfolding mark_deleted
delete db_ok id s = (
  record s {
    messages =
        (Sql.exec db_ok (some (Sql.update message_key id mark_deleted s.messages)) s.messages).0;
  },
  no_body status_no_content,
)

-- the routes, with what each handler reads of its request
pub data Request : Type 0 where
  create_request : Bool → String → String → ℤ → Time → Request
  list_request : Bool → Request
  send_request : Bool → String → Option String → Time → Request
  receive_request : Io → String → Time → Request
  delete_request : Bool → String → Request

pub serve : Request → Sqs → Sqs × Response Reply
serve (create_request ok name dlq max now) s = create_queue ok name dlq max now s
serve (list_request ok) s = (s, list_queues ok s)
serve (send_request ok queue body now) s = send ok queue body now s
serve (receive_request io queue now) s = receive io queue now s
serve (delete_request ok id) s = delete ok id s

-- requests one after the other, with their responses
pub serve_all : List Request → Sqs → Sqs × List (Response Reply)
serve_all [] s = (s, [])
serve_all (r ∷ rs) s =
    let (t, reply) = serve r s in let (u, replies) = serve_all rs t in (u, reply ∷ replies)
