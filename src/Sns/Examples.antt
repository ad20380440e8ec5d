-- ===== src/Sns/Examples.antt =====
-- control-plane/messaging/sns/main.go: subscriptions at concrete inputs.
use tiny_aws.Prelude.{◌+◌, true, ◌≡◌, refl, some, [], ◌∷◌, ◌++◌, arith, ne_of_eq_false}
use tiny_aws.Go.Fmt.{format_id, next_seq}
use tiny_aws.Go.Http.{json, status_created}
use tiny_aws.Sns.{Sns, Subscription, subscribed, start, subscribe, handle_subscribe, handle_publish}
use tiny_aws.Sns.Fanout.{initial, subscribed_to, publish-subscribe}

abbrev one_subscribed : Sns
one_subscribed = (handle_subscribe true "jobs" (some "http://a") (start [] [])).0

publish-subscribe_example :
    let (s', reply) = handle_subscribe true "jobs" (some "http://b") one_subscribed in
    (reply ≡ json status_created (subscribed (format_id "sub-" (one_subscribed.sub_seq + 1))))
    × ((handle_publish true "jobs" (some "done") s').1
        ≡ (handle_publish true "jobs" (some "done") one_subscribed).1
          ++ record { endpoint = "http://b"; topic = "jobs"; message = "done" } ∷ [])
publish-subscribe_example =
    publish-subscribe {s = one_subscribed} "jobs" "http://b" "jobs" "done"
      (subscribed_to {s = start [] []} true "jobs" (some "http://a") (unfold start in omega arith)
        initial)
      (unfold start handle_subscribe subscribe next_seq in omega arith)
      (ne_of_eq_false "http://b" "" refl) (ne_of_eq_false "done" "" refl)

abbrev held : Subscription
held = record { id = "sub-1"; topic = "jobs"; endpoint = "http://a" }
