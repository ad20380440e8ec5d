-- ===== src/Sqs/Threads/Races.antt =====
-- control-plane/messaging/sqs/main.go, requests at the same time: what goes wrong where the
-- statements of two handlers fall between one another.
use tiny_aws.Prelude.{
  ℕ, zero, suc, ◌+◌, ◌<◌, String, ◌≡◌, ◌≢◌, refl, ap, ◌∙◌, true, false, none, some, List, [], ◌∷◌,
  ◌++◌, map, length, arith, ◌==◌, All, eq_false, eq_refl,
}
use tiny_aws.Go.Fmt.{u64_mod, format_id}
use tiny_aws.Go.Fmt.RoundTrip.{format_id-injective, next_seq-lt}
use tiny_aws.Go.Time.{Time}
use tiny_aws.Go.Http.{json, error, status_ok, status_created, status_internal_server_error}
use tiny_aws.Sql
use tiny_aws.Sql.Laws.{insert-new, insert-dup, has-append}
use tiny_aws.Sql.Sequence.{has-fresh, load_seq-append}
use tiny_aws.Sqs.{
  Sqs, Message, message_key, received, sent, Io, restart, new_message, is_visible, dlq_policy,
  is_dead, finish, store_message, send, send_body, receive_request, send_request,
}
use tiny_aws.Sqs.Invariant.{Reaches, Reaches-IsValid}
use tiny_aws.Sqs.Threads.{Pc, waiting, selected, judged, answered, step, advance, run}

-- one step of each of `n` requests, in order
unfoldable pub turn : ℕ → List ℕ
turn zero = []
turn (suc n) = zero ∷ map suc (turn n)

run-skip :
    (is : List ℕ) (p : Pc) (ps : List Pc) (s : Sqs)
    → run (map suc is) (p ∷ ps) s ≡ (p ∷ (run is ps s).0, (run is ps s).1)
unfolding run advance
run-skip [] p ps s = refl
run-skip (i ∷ is) p ps s = run-skip is p (advance i ps s).0 (advance i ps s).1

-- what a turn makes of the first request, and then of the others
abbrev first_then : ℕ → List Pc → Pc × Sqs → List Pc × Sqs
first_then n ps (p, s) = let (ps', s') = run (turn n) ps s in (p ∷ ps', s')

run-turn :
    (n : ℕ) (p : Pc) (ps : List Pc) (s : Sqs) {r : Pc × Sqs}
    → step p s ≡ r
    → run (turn (suc n)) (p ∷ ps) s ≡ first_then n ps r
unfolding run advance turn
run-turn n p ps s e = run-skip (turn n) (step p s).0 ps (step p s).1 ∙ ap (first_then n ps) e

run-append :
    (is js : List ℕ) (ps : List Pc) (s : Sqs)
    → run (is ++ js) ps s ≡ run js (run is ps s).0 (run is ps s).1
unfolding run
run-append [] js ps s = refl
run-append (i ∷ is) js ps s = run-append is js (advance i ps s).0 (advance i ps s).1

-- the outcomes of the database calls of a receive, and its time
abbrev pub Call : Type 0
Call = Io × Time

module _ (queue : String) (m : Message) (s : Sqs) where
  -- The calls succeed, and the receive comes at a time at which the message is the next one.
  abbrev pub Reads : Call → Type 0
  Reads (io, now) =
      (io.select_ok ≡ true)
      × (io.policy_ok ≡ true)
      × (Sql.select_first (is_visible queue now) s.messages ≡ some m)

  abbrev pub asks : Call → Pc
  asks (io, now) = waiting (receive_request io queue now)

  abbrev has_read : Call → Pc
  has_read (io, now) = selected io queue now m

  abbrev has_judged : Call → Pc
  has_judged (io, now) = judged io now m (dlq_policy true queue s.queues)

  abbrev pub hands_out : Call → Pc
  hands_out c = answered (json status_ok (received m.id m.body (m.receive_count + 1)))

  step-read : (c : Call) → Reads c → step (asks c) s ≡ (has_read c, s)
  unfolding step
  step-read (io, now) (sel, pol, e) = simp (sel, e)

  step-judge : (c : Call) → Reads c → step (has_read c) s ≡ (has_judged c, s)
  unfolding step
  step-judge (io, now) (sel, pol, e) = simp pol

  step-finish :
      (c : Call) (t : Sqs)
      → is_dead (dlq_policy true queue s.queues) (m.receive_count + 1) ≡ false
      → (step (has_judged c) t).0 ≡ hands_out c
  unfolding step finish
  step-finish (io, now) t alive = rw alive

  turn-read :
      (cs : List Call)
      → All Reads cs
      → run (turn (length cs)) (map asks cs) s ≡ (map has_read cs, s)
  turn-read [] h = unfold run turn in refl
  turn-read (c ∷ cs) (h, hs) =
      run-turn (length cs) (asks c) (map asks cs) s (step-read c h)
      ∙ ap (λ (r : List Pc × Sqs). (has_read c ∷ r.0, r.1)) (turn-read cs hs)

  turn-judge :
      (cs : List Call)
      → All Reads cs
      → run (turn (length cs)) (map has_read cs) s ≡ (map has_judged cs, s)
  turn-judge [] h = unfold run turn in refl
  turn-judge (c ∷ cs) (h, hs) =
      run-turn (length cs) (has_read c) (map has_read cs) s (step-judge c h)
      ∙ ap (λ (r : List Pc × Sqs). (has_judged c ∷ r.0, r.1)) (turn-judge cs hs)

  turn-finish :
      (cs : List Call) (t : Sqs)
      → is_dead (dlq_policy true queue s.queues) (m.receive_count + 1) ≡ false
      → (run (turn (length cs)) (map has_judged cs) t).0 ≡ map hands_out cs
  turn-finish [] t alive = unfold run turn in refl
  turn-finish (c ∷ cs) t alive =
      ap (λ (r : List Pc × Sqs). r.0)
        (run-turn (length cs) (has_judged c) (map has_judged cs) t refl)
      ∙ rw (step-finish c t alive) (ap (λ l. hands_out c ∷ l) (turn-finish cs _ alive))

  -- Any number of receives that run in lockstep: all read the next message, each in its turn, then all
  -- read the policy, then all update the row. A message that is not over its limit is handed out by
  -- all of them, and each counts it as the same receive.
  pub receive_many :
      (cs : List Call)
      → All Reads cs
      → is_dead (dlq_policy true queue s.queues) (m.receive_count + 1) ≡ false
      → let all = turn (length cs) in
        (run (all ++ (all ++ all)) (map asks cs) s).0 ≡ map hands_out cs
  receive_many cs h alive =
      let all = turn (length cs) in
      rw (run-append all (all ++ all) (map asks cs) s, turn-read cs h)
        (rw (run-append all all (map has_read cs) s, turn-judge cs h) (turn-finish cs s alive))

-- From any state that requests and restarts lead to, two texts are sent at the same time, and the
-- first number that is taken is the second to be stored: both sends are answered with their
-- identifiers. If the service then restarts, the next send is answered with status 500, since the
-- sequence goes on from the last row and its number is taken.
pub late_insert_fails_send :
    (s : Sqs) (queue a b c : String) (at now : Time)
    → Reaches s
    → a ≢ ""
    → b ≢ ""
    → c ≢ ""
    → s.msg_seq + 2 < u64_mod
    → let (ps, t) =
        run
          (0 ∷ 1 ∷ 1 ∷ 0 ∷ [])
          (waiting (send_request true queue (some a) at)
            ∷ waiting (send_request true queue (some b) at)
            ∷ [])
          s in
      (ps
        ≡ answered (json status_created (sent (format_id "msg-" (s.msg_seq + 1))))
          ∷ answered (json status_created (sent (format_id "msg-" (s.msg_seq + 2))))
          ∷ [])
      × ((send true queue (some c) now (restart t)).1
          ≡ error status_internal_server_error "db error")
unfolding run advance step store_message Sql.exec send send_body restart
late_insert_fails_send s queue a b c at now reach na nb nc room =
    simp
      (
        eq_false a "" na,
        eq_false b "" nb,
        eq_false c "" nc,
        next_seq-lt s.msg_seq (omega arith),
        next_seq-lt (s.msg_seq + 1) (omega arith),
        second_stored,
        first_stored,
        from_last,
      )
      (unfold new_message in rw plus refl, unfold new_message in rw taken refl)
  where
    plus : s.msg_seq + 1 + 1 ≡ s.msg_seq + 2
    plus = omega arith

    first : Message
    first = new_message (s.msg_seq + 1) queue a at

    second : Message
    second = new_message (s.msg_seq + 1 + 1) queue b at

    third : Message
    third = new_message (s.msg_seq + 1 + 1) queue c now

    stored : List Message
    stored = (s.messages ++ second ∷ []) ++ first ∷ []

    given : (k : ℕ) → s.msg_seq < k → Sql.has message_key (format_id "msg-" k) s.messages ≡ false
    given k lt =
        has-fresh "msg-" message_key s.msg_seq k s.messages (Reaches-IsValid reach).given lt

    second_stored : Sql.insert message_key second s.messages ≡ some (s.messages ++ second ∷ [])
    second_stored =
        insert-new message_key second s.messages (unfold new_message in given _ (omega arith))

    other : (format_id "msg-" (s.msg_seq + 1 + 1) == format_id "msg-" (s.msg_seq + 1)) ≡ false
    other = eq_false _ _ (λ p. let q = format_id-injective "msg-" _ _ p in absurd (omega arith))

    first_stored : Sql.insert message_key first (s.messages ++ second ∷ []) ≡ some stored
    first_stored = insert-new message_key first (s.messages ++ second ∷ []) (
        has-append message_key second _ s.messages
        ∙ unfold new_message in rw other (given _ (omega arith)))

    from_last : Sql.load_seq "msg-" message_key stored ≡ s.msg_seq + 1
    from_last =
        load_seq-append "msg-" message_key (s.messages ++ second ∷ []) first (s.msg_seq + 1)
          (unfold new_message in refl) (omega arith)

    taken : Sql.insert message_key third stored ≡ none
    taken = insert-dup message_key third stored (
        unfold new_message in
        rw (has-append message_key first _ (s.messages ++ second ∷ [])) (
          rw (has-append message_key second _ s.messages)
            (ground (arith, eq_refl (format_id "msg-" (s.msg_seq + 1 + 1))))))
