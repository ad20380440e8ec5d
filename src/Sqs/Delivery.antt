-- ===== src/Sqs/Delivery.antt =====
-- control-plane/messaging/sqs/main.go: order of delivery, and what a receive leaves alone.
use tiny_aws.Prelude.{
  ℕ, ◌+◌, ◌≤◌, ◌<◌, String, ◌≡◌, ◌≢◌, refl, ap, ◌∙◌, ◌++◌, map, true, false, Option, none, some,
  List, [], ◌∷◌, arith, eq_refl, if◌then◌else◌, Bool, Bool-cases, inl, inr, All,
}
use tiny_aws.Go.Fmt.{u64_mod, format_id}
use tiny_aws.Go.Time.{Time, format_rfc3339}
use tiny_aws.Go.Http.{json, status_ok}
use tiny_aws.Sql
use tiny_aws.Sql.Laws.{map-update, exec-keeps, select_first_lem}
use tiny_aws.Sqs.{
  Sqs, Message, message_key, received, nothing, Io, is_visible, dlq_policy, is_dead, to_dead_letter,
  hide, deliver, receive_row, receive, new_message, send,
}
use tiny_aws.Sqs.DeadLetter.{all_ok}
use tiny_aws.Sqs.Invariant.{Reaches, send_stores}

-- what no receive may change of a message
abbrev pub content : Message → String × String × Bool
content m = (m.id, m.body, m.deleted)

deliver-content :
    (io : Io) (queue : String) (now : Time) (s : Sqs) (m : Message)
    → map content (deliver io queue now s m).0.messages ≡ map content s.messages
unfolding deliver
deliver-content io queue now s m =
    elim (Bool-cases (is_dead (dlq_policy io.policy_ok queue s.queues) (m.receive_count + 1))) [
      | inl e ↦ rw e (same (to_dead_letter _ _ _) (unfold to_dead_letter in λ x. refl))
      | inr e ↦ rw e (same (hide _ _) (unfold hide in λ x. refl))
    ]
  where
    same :
        (f : Message → Message)
        → ((x : Message) → content (f x) ≡ content x)
        → map content
            (Sql.exec io.update_ok (some (Sql.update message_key m.id f s.messages)) s.messages).0
          ≡ map content s.messages
    same f keep =
        exec-keeps (λ t. map content t ≡ map content s.messages) io.update_ok _ s.messages refl
          (map-update message_key content m.id f s.messages keep)

receive_row-content :
    (io : Io) (queue : String) (now : Time) (s : Sqs) (o : Option Message)
    → map content (receive_row io queue now s o).0.messages ≡ map content s.messages
unfolding receive_row
receive_row-content io queue now s none = refl
receive_row-content io queue now s (some m) = deliver-content io queue now s m

-- A receive, whatever its database calls do, neither loses, adds, reorders nor deletes a message,
-- and changes no identifier or body.
pub receive-content :
    (io : Io) (queue : String) (now : Time) (s : Sqs)
    → map content (receive io queue now s).0.messages ≡ map content s.messages
unfolding receive
receive-content io queue now s = elim (Bool-cases io.select_ok) [
  | inl e ↦ simp e (receive_row-content io queue now s _)
  | inr e ↦ simp e
]

-- The first receive of a message is below every limit.
is_dead_first : (p : String × ℕ) → is_dead p 1 ≡ false
unfolding is_dead
is_dead_first (dlq, max) = ground arith

-- From any state that requests and restarts lead to: a text that is sent to a queue in which no
-- message is visible is what the next receive at that time or later hands out, with the count 1.
pub receive-send :
    (s : Sqs) (queue body : String) (sent_at now : Time)
    → Reaches s
    → body ≢ ""
    → s.msg_seq + 1 < u64_mod
    → format_rfc3339 sent_at ≤ format_rfc3339 now
    → All (λ m. is_visible queue now m ≡ false) s.messages
    → (receive all_ok queue now (send true queue (some body) sent_at s).0).1
      ≡ json status_ok (received (format_id "msg-" (s.msg_seq + 1)) body 1)
unfolding receive receive_row deliver
receive-send s queue body sent_at now reach ne h le empty =
    rw (send_stores s queue body sent_at reach ne h) (
      rw (select_first_lem (is_visible queue now) s.messages m [] empty seen)
        (unfold new_message in rw (is_dead_first (dlq_policy true queue s.queues))))
  where
    m : Message
    m = new_message (s.msg_seq + 1) queue body sent_at

    seen : is_visible queue now m ≡ true
    seen = unfold is_visible new_message in ground (arith, eq_refl queue)

-- The oldest visible message of the queue is the one that a receive is about.
pub receive_oldest :
    (queue : String) (now : Time) (s : Sqs) (before : List Message) (m : Message)
    (after : List Message)
    → s.messages ≡ before ++ m ∷ after
    → All (λ x. is_visible queue now x ≡ false) before
    → is_visible queue now m ≡ true
    → (receive all_ok queue now s).1
      ≡ json status_ok (
          if is_dead (dlq_policy true queue s.queues) (m.receive_count + 1)
          then nothing
          else received m.id m.body (m.receive_count + 1))
unfolding receive receive_row deliver
receive_oldest queue now s before m after e hidden seen =
    rw
      (ap (Sql.select_first (is_visible queue now)) e
        ∙ select_first_lem (is_visible queue now) before m after hidden seen)
      (elim (Bool-cases (is_dead (dlq_policy true queue s.queues) (m.receive_count + 1))) [
        | inl d ↦ rw d
        | inr d ↦ rw d
      ])
