-- ===== src/Sqs/Threads/Examples.antt =====
-- control-plane/messaging/sqs/main.go, requests at the same time: runs, and the theorems at concrete
-- inputs.
use tiny_aws.Prelude.{
  ℕ, ◌*◌, String, ◌≡◌, ◌≢◌, refl, true, false, some, List, [], ◌∷◌, arith, eq_iff, All,
}
use tiny_aws.Go.Fmt.{format_id}
use tiny_aws.Go.Time.{Time, second}
use tiny_aws.Go.Http.{
  json, error, status_ok, status_created, status_no_content, status_internal_server_error, no_body,
}
use tiny_aws.Sql
use tiny_aws.Sqs.{
  Sqs, Message, message_key, received, sent, Io, restart, is_visible, is_dead, dlq_policy, finish,
  send, receive, receive_row, deliver, delete, Request, receive_request, send_request,
  delete_request, serve,
}
use tiny_aws.Sqs.DeadLetter.{all_ok}
use tiny_aws.Sqs.Invariant.{initial}
use tiny_aws.Sqs.Visibility.{IsEarlier}
use tiny_aws.Sqs.Threads.{Pc, waiting, selected, answered, step, advance, run}
use tiny_aws.Sqs.Threads.Hiding.{IsClear, receive_exclusive_any_order, delete_final_any_order}
use tiny_aws.Sqs.Threads.Races.{Call, receive_many, late_insert_fails_send}

abbrev start : Sqs
start = record { queues = []; messages = []; msg_seq = 0 }

abbrev first : Message
first = record {
  id = "msg-1";
  queue_name = "jobs";
  body = "a";
  visible_after = 1;
  receive_count = 0;
  deleted = false;
}

abbrev one_queued : Sqs
one_queued = record { queues = []; messages = first ∷ []; msg_seq = 1 }

abbrev at_seconds : ℕ → Time
at_seconds n = n * second

abbrev asks_at : ℕ → Pc
asks_at n = waiting (receive_request all_ok "jobs" (at_seconds n))

-- a receive that runs between the query and the update of another gets the same message
overtaken :
    (run (0 ∷ 1 ∷ 1 ∷ 1 ∷ 0 ∷ 0 ∷ []) (asks_at 2 ∷ asks_at 3 ∷ []) one_queued).0
    ≡ answered (json status_ok (received "msg-1" "a" 1))
      ∷ answered (json status_ok (received "msg-1" "a" 1))
      ∷ []
unfolding run advance step is_visible Sql.select_first dlq_policy Sql.find is_dead finish
overtaken = refl

-- a receive that has read the row hands it out after its deletion
deleted_late :
    (run (0 ∷ 1 ∷ 0 ∷ 0 ∷ []) (asks_at 2 ∷ waiting (delete_request true "msg-1") ∷ []) one_queued).0
    ≡ answered (json status_ok (received "msg-1" "a" 1)) ∷ answered (no_body status_no_content) ∷ []
unfolding run advance step is_visible Sql.select_first dlq_policy Sql.find is_dead finish delete
deleted_late = refl

first_present : Sql.has message_key "msg-1" one_queued.messages ≡ true
unfolding Sql.has
first_present = refl

first_handed_out :
    (finish all_ok (at_seconds 2) first ("", 0) one_queued).1
    ≡ json status_ok (received "msg-1" "a" 1)
unfolding finish is_dead
first_handed_out = refl

receive_exclusive_any_order_example :
    All
      (IsClear "msg-1" (IsEarlier 32))
      (run
        (1 ∷ 0 ∷ 1 ∷ 0 ∷ [])
        (asks_at 30 ∷ asks_at 31 ∷ [])
        (finish all_ok (at_seconds 2) first ("", 0) one_queued).0).0
receive_exclusive_any_order_example =
    receive_exclusive_any_order all_ok (at_seconds 2) first ("", 0) one_queued "msg-1" "a" 1
      (asks_at 30 ∷ asks_at 31 ∷ []) (1 ∷ 0 ∷ 1 ∷ 0 ∷ []) refl first_present first_handed_out
      (omega arith, (omega arith, tt))

delete_final_any_order_example :
    All
      (IsClear "msg-1" (λ now. Unit))
      (run (1 ∷ 0 ∷ 1 ∷ 0 ∷ []) (asks_at 90 ∷ asks_at 80 ∷ []) (delete true "msg-1" one_queued).0).0
delete_final_any_order_example =
    delete_final_any_order "msg-1" one_queued (asks_at 90 ∷ asks_at 80 ∷ []) (1 ∷ 0 ∷ 1 ∷ 0 ∷ [])
      first_present (tt, (tt, tt))

abbrev three_calls : List Call
three_calls = (all_ok, at_seconds 2) ∷ (all_ok, at_seconds 3) ∷ (all_ok, at_seconds 3) ∷ []

receive_many_example :
    (run
      (0 ∷ 1 ∷ 2 ∷ 0 ∷ 1 ∷ 2 ∷ 0 ∷ 1 ∷ 2 ∷ [])
      (asks_at 2 ∷ asks_at 3 ∷ asks_at 3 ∷ [])
      one_queued).0
    ≡ answered (json status_ok (received "msg-1" "a" 1))
      ∷ answered (json status_ok (received "msg-1" "a" 1))
      ∷ answered (json status_ok (received "msg-1" "a" 1))
      ∷ []
unfolding tiny_aws.Sqs.Threads.Races.turn Sql.select_first is_visible is_dead dlq_policy Sql.find
receive_many_example =
    receive_many "jobs" first one_queued three_calls
      ((refl, refl, refl), ((refl, refl, refl), ((refl, refl, refl), tt))) refl

a-ne-nil : ◌≢◌ {A = String} "a" ""
a-ne-nil = ground (arith, eq_iff "a" "")

late_insert_fails_send_example :
    let (ps, t) =
      run
        (0 ∷ 1 ∷ 1 ∷ 0 ∷ [])
        (waiting (send_request true "jobs" (some "a") (at_seconds 1))
          ∷ waiting (send_request true "jobs" (some "a") (at_seconds 1))
          ∷ [])
        start in
    (ps
      ≡ answered (json status_created (sent (format_id "msg-" 1)))
        ∷ answered (json status_created (sent (format_id "msg-" 2)))
        ∷ [])
    × ((send true "jobs" (some "a") (at_seconds 2) (restart t)).1
        ≡ error status_internal_server_error "db error")
late_insert_fails_send_example =
    late_insert_fails_send start "jobs" "a" "a" "a" (at_seconds 1) (at_seconds 2) initial a-ne-nil
      a-ne-nil a-ne-nil (omega arith)
