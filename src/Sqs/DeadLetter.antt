-- ===== src/Sqs/DeadLetter.antt =====
-- control-plane/messaging/sqs/main.go: the life of a message that nobody deletes.
use tiny_aws.Prelude.{
  ℕ, ◌+◌, ◌*◌, ◌≤◌, ◌<◌, String, ◌≡◌, ◌≢◌, refl, ap, ◌∙◌, true, false, some, List, [], ◌∷◌, arith,
  eq_false, eq_refl, length,
}
use tiny_aws.Go.Time.{Time, second, format_rfc3339}
use tiny_aws.Go.Http.{Response, json, status_ok}
use tiny_aws.Sql
use tiny_aws.Sql.Laws.{update-head}
use tiny_aws.Sqs.{
  Sqs, Queue, queue_key, Message, message_key, Reply, received, nothing, Io, is_visible, dlq_policy,
  policy_row, is_dead, to_dead_letter, hide, deliver, receive_row, receive,
}

-- all three database calls succeed
abbrev pub all_ok : Io
all_ok = record { select_ok = true; policy_ok = true; update_ok = true }

-- receives from one queue, one at each instant
pub receive_each : String → List Time → Sqs → Sqs × List (Response Reply)
receive_each queue [] s = (s, [])
receive_each queue (t ∷ ts) s =
    let (s', reply) = receive all_ok queue t s in
    let (u, replies) = receive_each queue ts s' in (u, reply ∷ replies)

-- Each instant comes at least thirty seconds after the one before, and none before the second `u`.
abbrev pub Spaced : ℕ → List Time → Type 0
Spaced u [] = Unit
Spaced u (t ∷ ts) = (u ≤ format_rfc3339 t) × Spaced (format_rfc3339 (t + 30 * second)) ts

-- the second that the last of the receives hides its message to
abbrev pub hidden_to : ℕ → List Time → ℕ
hidden_to u [] = u
hidden_to u (t ∷ ts) = hidden_to (format_rfc3339 (t + 30 * second)) ts

-- deliveries of one message, counted on from `n`
abbrev pub deliveries : String → String → ℕ → List Time → List (Response Reply)
deliveries id body n [] = []
deliveries id body n (t ∷ ts) =
    json status_ok (received id body (n + 1)) ∷ deliveries id body (n + 1) ts

is_dead-below : (dlq : String) (max n : ℕ) → n ≤ max → is_dead (dlq, max) n ≡ false
unfolding is_dead
is_dead-below dlq max n le = ground arith

is_dead-above :
    (dlq : String) (max n : ℕ) → dlq ≢ "" → 0 < max → max < n → is_dead (dlq, max) n ≡ true
unfolding is_dead
is_dead-above dlq max n ne positive lt = rw (eq_false dlq "" ne) (ground arith)

-- A message at the head of its queue's table, which is there to be received.
pub record IsHead (q : Queue) (m : Message) (rest : List Message) (s : Sqs) : Type 0 where
  pub policy : Sql.find queue_key q.name s.queues ≡ some q
  pub table : s.messages ≡ m ∷ rest
  pub alone : Sql.has message_key m.id rest ≡ false
  pub queued : m.queue_name ≡ q.name
  pub kept : m.deleted ≡ false

module _ (q : Queue) (m : Message) (rest : List Message) (s : Sqs) (head : IsHead q m rest s) where
  head-is_visible : (t : Time) → m.visible_after ≤ format_rfc3339 t → is_visible q.name t m ≡ true
  unfolding is_visible
  head-is_visible t h = ground (arith, head.queued, head.kept, eq_refl q.name)

  receive-head :
      (t : Time)
      → m.visible_after ≤ format_rfc3339 t
      → receive all_ok q.name t s ≡ deliver all_ok q.name t s m
  unfolding receive receive_row Sql.select_first
  receive-head t h = rw (head.table) (rw (head-is_visible t h))

  head-dlq_policy : dlq_policy true q.name s.queues ≡ (q.dead_letter_queue, q.max_receive_count)
  unfolding dlq_policy
  head-dlq_policy = ap policy_row head.policy

  -- Below the limit the message is handed out and hidden.
  receive-live :
      (t : Time)
      → m.visible_after ≤ format_rfc3339 t
      → m.receive_count < q.max_receive_count
      → receive all_ok q.name t s ≡ (
        record s { messages = hide (m.receive_count + 1) t m ∷ rest },
        json status_ok (received m.id m.body (m.receive_count + 1)),
      )
  unfolding deliver Sql.exec
  receive-live t h lt =
      receive-head t h
      ∙ rw head-dlq_policy (
          rw
            (is_dead-below q.dead_letter_queue q.max_receive_count (m.receive_count + 1)
              (omega arith))
            (simp (
              head.table,
              update-head message_key m (hide (m.receive_count + 1) t) rest head.alone,
            )))

  -- At the limit it moves to the dead letter queue, and the response is empty.
  receive-dead :
      (t : Time)
      → m.visible_after ≤ format_rfc3339 t
      → q.dead_letter_queue ≢ ""
      → 0 < q.max_receive_count
      → q.max_receive_count ≤ m.receive_count
      → receive all_ok q.name t s ≡ (
        record s { messages = to_dead_letter q.dead_letter_queue (m.receive_count + 1) t m ∷ rest },
        json status_ok nothing,
      )
  unfolding deliver Sql.exec
  receive-dead t h ne positive le =
      receive-head t h
      ∙ rw head-dlq_policy (
          rw
            (is_dead-above q.dead_letter_queue q.max_receive_count (m.receive_count + 1) ne positive
              (omega arith))
            (simp (
              head.table,
              update-head message_key m (to_dead_letter q.dead_letter_queue (m.receive_count + 1) t)
                  rest head.alone,
            )))

  hide-IsHead :
      (t : Time)
      → IsHead q
          (hide (m.receive_count + 1) t m)
          rest
          (record s { messages = hide (m.receive_count + 1) t m ∷ rest })
  unfolding hide
  hide-IsHead t = record {
    policy = head.policy;
    table = refl;
    alone = head.alone;
    queued = head.queued;
    kept = head.kept;
  }

-- what the receives leave of the message
abbrev pub left_over : ℕ → List Time → Message → Message
left_over n ts m = record m { visible_after = hidden_to m.visible_after ts; receive_count = n }

-- While the limit is not reached, each receive hands the message out, with the count going up.
receive_each-deliveries :
    (q : Queue) (m : Message) (rest : List Message) (s : Sqs) (ts : List Time) (n : ℕ)
    → IsHead q m rest s
    → Spaced m.visible_after ts
    → n ≡ m.receive_count + length ts
    → n ≤ q.max_receive_count
    → receive_each q.name ts s
      ≡ (record s { messages = left_over n ts m ∷ rest }, deliveries m.id m.body m.receive_count ts)
unfolding receive_each hide
receive_each-deliveries q m rest s [] n head spaced count le =
    let same : n ≡ m.receive_count = omega arith in
    rw same (λ i. (record s { messages = head.table i }, []))
receive_each-deliveries q m rest s (t ∷ ts) n head (due, spaced) count le =
    rw (receive-live q m rest s head t due (omega arith)) (
      ap
        (λ (p : Sqs × List (Response Reply)).
          (p.0, json status_ok (received m.id m.body (m.receive_count + 1)) ∷ p.1))
        (receive_each-deliveries q (hide (m.receive_count + 1) t m) rest
          (record s { messages = hide (m.receive_count + 1) t m ∷ rest }) ts n
          (hide-IsHead q m rest s head t) spaced (omega arith) le))

left_over-IsHead :
    (q : Queue) (m : Message) (rest : List Message) (s : Sqs) (ts : List Time) (n : ℕ)
    → IsHead q m rest s
    → IsHead q (left_over n ts m) rest (record s { messages = left_over n ts m ∷ rest })
left_over-IsHead q m rest s ts n head = record {
  policy = head.policy;
  table = refl;
  alone = head.alone;
  queued = head.queued;
  kept = head.kept;
}

-- Take a message that stands first in the table, was never received and is never deleted, in a
-- queue with a dead letter queue and a positive limit. Receives at least thirty seconds apart, as
-- many as the limit, hand it out each time with the count of the receives so far; the next receive
-- is answered with nothing, and leaves it in the dead letter queue, visible there at once, with all
-- other messages as they were.
pub dead_letter_after_max :
    (q : Queue) (m : Message) (rest : List Message) (s : Sqs) (ts : List Time) (t : Time)
    → IsHead q m rest s
    → m.receive_count ≡ 0
    → q.dead_letter_queue ≢ ""
    → 0 < q.max_receive_count
    → length ts ≡ q.max_receive_count
    → Spaced m.visible_after ts
    → hidden_to m.visible_after ts ≤ format_rfc3339 t
    → let (s', replies) = receive_each q.name ts s in
      (replies ≡ deliveries m.id m.body 0 ts)
      × (receive all_ok q.name t s' ≡ (
        record s {
          messages =
              record m {
                queue_name = q.dead_letter_queue;
                visible_after = format_rfc3339 t;
                receive_count = q.max_receive_count + 1;
              }
              ∷ rest;
        },
        json status_ok nothing,
      ))
unfolding to_dead_letter
dead_letter_after_max q m rest s ts t head new ne positive count spaced due =
    let n = q.max_receive_count in
    let run = receive_each-deliveries q m rest s ts n head spaced (omega arith) (omega arith) in
    rw run (
      ap (λ k. deliveries m.id m.body k ts) new,
      receive-dead q (left_over n ts m) rest (record s { messages = left_over n ts m ∷ rest })
          (left_over-IsHead q m rest s ts n head) t due ne positive (omega arith),
    )
