-- ===== src/Sqs/Invariant.antt =====
-- control-plane/messaging/sqs/main.go: identifiers of messages, across requests and restarts.
use tiny_aws.Prelude.{
  ◌+◌, ◌≤◌, ◌<◌, String, ◌≡◌, ◌≢◌, refl, ◌++◌, true, false, Option, none, some, [], ◌∷◌, arith,
  ◌==◌, eq_false, Bool, Bool-cases, inl, inr,
}
use tiny_aws.Go.Fmt.{u64_mod, next_seq, format_id}
use tiny_aws.Go.Fmt.RoundTrip.{next_seq-lt}
use tiny_aws.Go.Time.{Time}
use tiny_aws.Go.Http.{json, status_created}
use tiny_aws.Sql
use tiny_aws.Sql.Laws.{exec-keeps}
use tiny_aws.Sql.Sequence.{
  IsSequenced, update-IsSequenced, insert_next, append-IsSequenced, skip-IsSequenced,
  load_seq-IsSequenced,
}
use tiny_aws.Sqs.{
  Sqs, Message, message_key, sent, Io, restart, new_message, to_dead_letter, hide, mark_deleted,
  deliver, receive_row, receive, dlq_policy, is_dead, send, send_body, delete, create_queue,
  Request, create_request, list_request, send_request, receive_request, delete_request, serve,
}

-- The messages are those that the sequence named, and the last row has the greatest number.
abbrev pub IsValid : Sqs → Type 0
IsValid s = IsSequenced "msg-" message_key s.msg_seq s.messages

delete-IsValid : (ok : Bool) (id : String) (s : Sqs) → IsValid s → IsValid (delete ok id s).0
unfolding delete
delete-IsValid ok id s v =
    exec-keeps (IsSequenced "msg-" message_key s.msg_seq) ok _ s.messages v
      (update-IsSequenced "msg-" message_key s.msg_seq id mark_deleted s.messages (λ m. refl) v)

deliver-IsValid :
    (io : Io) (queue : String) (now : Time) (s : Sqs) (m : Message)
    → IsValid s
    → IsValid (deliver io queue now s m).0
unfolding deliver
deliver-IsValid io queue now s m v =
    elim (Bool-cases (is_dead (dlq_policy io.policy_ok queue s.queues) (m.receive_count + 1))) [
      | inl e ↦ rw e (moved (to_dead_letter _ _ _) (unfold to_dead_letter in λ x. refl))
      | inr e ↦ rw e (moved (hide _ _) (unfold hide in λ x. refl))
    ]
  where
    moved :
        (f : Message → Message)
        → ((x : Message) → (f x).id ≡ x.id)
        → IsSequenced "msg-" message_key s.msg_seq
            (Sql.exec io.update_ok (some (Sql.update message_key m.id f s.messages)) s.messages).0
    moved f same =
        exec-keeps (IsSequenced "msg-" message_key s.msg_seq) io.update_ok _ s.messages v
          (update-IsSequenced "msg-" message_key s.msg_seq m.id f s.messages same v)

receive_row-IsValid :
    (io : Io) (queue : String) (now : Time) (s : Sqs) (o : Option Message)
    → IsValid s
    → IsValid (receive_row io queue now s o).0
unfolding receive_row
receive_row-IsValid io queue now s none v = v
receive_row-IsValid io queue now s (some m) v = deliver-IsValid io queue now s m v

receive-IsValid :
    (io : Io) (queue : String) (now : Time) (s : Sqs)
    → IsValid s
    → IsValid (receive io queue now s).0
unfolding receive
receive-IsValid io queue now s v = elim (Bool-cases io.select_ok) [
  | inl e ↦ simp e (receive_row-IsValid io queue now s _ v)
  | inr e ↦ simp e v
]

send_body-IsValid :
    (ok : Bool) (queue body : String) (now : Time) (s : Sqs)
    → IsValid s
    → s.msg_seq + 1 < u64_mod
    → IsValid (send_body ok queue body now s).0
unfolding send_body new_message
send_body-IsValid ok queue body now s v h = rw (next_seq-lt s.msg_seq h) (
    rw (insert_next "msg-" message_key s.msg_seq m s.messages v refl) (
      exec-keeps (IsSequenced "msg-" message_key (s.msg_seq + 1)) ok (s.messages ++ m ∷ [])
        s.messages (skip-IsSequenced "msg-" message_key s.msg_seq s.messages v h)
        (append-IsSequenced "msg-" message_key s.msg_seq m s.messages v refl h)))
  where
    m : Message
    m = new_message (s.msg_seq + 1) queue body now

send-IsValid :
    (ok : Bool) (queue : String) (body : Option String) (now : Time) (s : Sqs)
    → IsValid s
    → s.msg_seq + 1 < u64_mod
    → IsValid (send ok queue body now s).0
unfolding send
send-IsValid ok queue none now s v h = v
send-IsValid ok queue (some body) now s v h = elim (Bool-cases (body == "")) [
  | inl e ↦ rw e v
  | inr e ↦ rw e (send_body-IsValid ok queue body now s v h)
]

-- Every request keeps the invariant, whatever fails, while the sequence has numbers left.
serve-IsValid :
    (r : Request) (s : Sqs) → IsValid s → s.msg_seq + 1 < u64_mod → IsValid (serve r s).0
unfolding serve create_queue Sql.exec
serve-IsValid (create_request true name dlq max now) s v h = v
serve-IsValid (create_request false name dlq max now) s v h = v
serve-IsValid (list_request ok) s v h = v
serve-IsValid (send_request ok queue body now) s v h = send-IsValid ok queue body now s v h
serve-IsValid (receive_request io queue now) s v h = receive-IsValid io queue now s v
serve-IsValid (delete_request ok id) s v h = delete-IsValid ok id s v

serve-msg_seq_le : (r : Request) (s : Sqs) → (serve r s).0.msg_seq ≤ s.msg_seq + 1
unfolding serve
serve-msg_seq_le (create_request ok name dlq max now) s = unfold create_queue in ground arith
serve-msg_seq_le (list_request ok) s = omega arith
serve-msg_seq_le (send_request ok queue none now) s = unfold send in omega arith
serve-msg_seq_le (send_request ok queue (some body) now) s =
    unfold send send_body next_seq in ground arith
serve-msg_seq_le (receive_request io queue now) s =
    unfold receive receive_row deliver in ground arith
serve-msg_seq_le (delete_request ok id) s = unfold delete in omega arith

-- A state that requests, with restarts between them, lead to from empty tables.
pub data Reaches : Sqs → Type 0 where
  initial : Reaches (record { queues = []; messages = []; msg_seq = 0 })
  request : {s : Sqs} (r : Request) → s.msg_seq + 1 < u64_mod → Reaches s → Reaches (serve r s).0
  restarted : {s : Sqs} → Reaches s → Reaches (restart s)

restart-IsValid : (s : Sqs) → IsValid s → IsValid (restart s)
unfolding restart
restart-IsValid s v = load_seq-IsSequenced "msg-" message_key s.msg_seq s.messages v

pub Reaches-IsValid : {s : Sqs} → Reaches s → IsValid s
Reaches-IsValid initial = record {
  unique = tt;
  given = tt;
  last = tt;
  bounded = unfold Sql.load_seq Sql.last_row in omega arith;
  in_range = omega arith;
}
Reaches-IsValid (request {s} r h reach) = serve-IsValid r s (Reaches-IsValid reach) h
Reaches-IsValid (restarted {s} reach) = restart-IsValid s (Reaches-IsValid reach)

-- From any state that requests and restarts lead to, with whatever database failures on the way, a
-- send of a text that is not empty is stored under the next identifier behind all other messages,
-- and its identifier is the response, if the database carries it out and numbers are left.
pub send_stores :
    (s : Sqs) (queue body : String) (now : Time)
    → Reaches s
    → body ≢ ""
    → s.msg_seq + 1 < u64_mod
    → send true queue (some body) now s ≡ (
      record s {
        messages = s.messages ++ new_message (s.msg_seq + 1) queue body now ∷ [];
        msg_seq = s.msg_seq + 1;
      },
      json status_created (sent (format_id "msg-" (s.msg_seq + 1))),
    )
unfolding send send_body Sql.exec
send_stores s queue body now reach ne h = rw (eq_false body "" ne) (
    rw (next_seq-lt s.msg_seq h) (
      rw
        (insert_next "msg-" message_key s.msg_seq (new_message (s.msg_seq + 1) queue body now)
          s.messages (Reaches-IsValid reach) (unfold new_message in refl))
        (unfold new_message in refl)))
