-- ===== src/Sqs/Threads.antt =====
-- control-plane/messaging/sqs/main.go, requests at the same time: the server runs each request on a
-- goroutine of its own, and no lock spans two statements of a handler. A step is one statement on
-- the database or on `msgSeq`, and a schedule is the order in which the requests take their steps.
pub mod Alone
pub mod Hiding
pub mod Races
mod Examples
use tiny_aws.Prelude.{
  ℕ, zero, suc, String, Bool, Option, none, some, List, [], ◌∷◌, ◌==◌, if◌then◌else◌,
}
use tiny_aws.Go.Fmt.{next_seq}
use tiny_aws.Go.Time.{Time}
use tiny_aws.Go.Http.{
  Response, json, error, status_ok, status_bad_request, status_internal_server_error,
}
use tiny_aws.Sql
use tiny_aws.Sqs.{
  Sqs, Message, Reply, nothing, Io, is_visible, dlq_policy, finish, store_message, create_queue,
  list_queues, delete, Request, create_request, list_request, send_request, receive_request,
  delete_request,
}

-- Where a request stands, with the local variables that are live there.
pub data Pc : Type 0 where
  waiting : Request → Pc  -- no statement has run
  numbered : Bool → ℕ → String → String → Time → Pc  -- `handleSend` before its INSERT
  selected : Io → String → Time → Message → Pc  -- `handleReceive` before it reads the policy
  judged : Io → Time → Message → String × ℕ → Pc  -- `handleReceive` before its UPDATE
  answered : Response Reply → Pc

abbrev pub answer : Sqs × Response Reply → Pc × Sqs
answer (s, reply) = (answered reply, s)

-- what `handleReceive` makes of its first query
abbrev pub after_select : Io → String → Time → Option Message → Pc
after_select io queue now none = answered (json status_ok nothing)
after_select io queue now (some m) = selected io queue now m

-- the number of a message, where its body is not empty
abbrev pub take_number : Bool → String → Option String → Time → Sqs → Pc × Sqs
take_number ok queue none now s = (answered (error status_bad_request "body required"), s)
take_number ok queue (some body) now s =
    if body == "" then (answered (error status_bad_request "body required"), s) else (
      numbered ok (next_seq s.msg_seq) queue body now,
      record s { msg_seq = next_seq s.msg_seq },
    )

-- One statement of a request. One that is answered takes no more steps.
unfoldable pub step : Pc → Sqs → Pc × Sqs
step (waiting (create_request ok name dlq max now)) s = answer (create_queue ok name dlq max now s)
step (waiting (list_request ok)) s = (answered (list_queues ok s), s)
step (waiting (send_request ok queue body now)) s = take_number ok queue body now s
step (waiting (receive_request io queue now)) s =
    if io.select_ok
    then (after_select io queue now (Sql.select_first (is_visible queue now) s.messages), s)
    else (answered (error status_internal_server_error "db error"), s)
step (waiting (delete_request ok id)) s = answer (delete ok id s)
step (numbered ok seq queue body now) s = answer (store_message ok seq queue body now s)
step (selected io queue now m) s = (judged io now m (dlq_policy io.policy_ok queue s.queues), s)
step (judged io now m policy) s = answer (finish io now m policy s)
step (answered reply) s = (answered reply, s)

-- The request at a place takes a step; at no place, none does.
unfoldable pub advance : ℕ → List Pc → Sqs → List Pc × Sqs
advance i [] s = ([], s)
advance zero (p ∷ ps) s = let (p', s') = step p s in (p' ∷ ps, s')
advance (suc i) (p ∷ ps) s = let (ps', s') = advance i ps s in (p ∷ ps', s')

-- the requests after a schedule
unfoldable pub run : List ℕ → List Pc → Sqs → List Pc × Sqs
run [] ps s = (ps, s)
run (i ∷ is) ps s = let (ps', s') = advance i ps s in run is ps' s'
