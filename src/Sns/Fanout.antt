-- ===== src/Sns/Fanout.antt =====
-- control-plane/messaging/sns/main.go: who gets a message, and what a restart changes.
use tiny_aws.Prelude.{
  ◌+◌, ◌<◌, String, Bool, true, ◌≡◌, ◌≢◌, refl, Option, none, some, List, [], ◌∷◌, ◌++◌, arith,
  ◌==◌, eq_false, select, select-append, map-append, if◌then◌else◌, Bool-cases, inl, inr,
}
use tiny_aws.Go.Fmt.{u64_mod, format_id, next_seq}
use tiny_aws.Go.Fmt.RoundTrip.{next_seq-lt}
use tiny_aws.Go.Time.{Time}
use tiny_aws.Go.Http.{json, status_created}
use tiny_aws.Sql
use tiny_aws.Sql.Laws.{exec-keeps, exec-none, insert-dup}
use tiny_aws.Sql.Sequence.{IsSequenced, append-IsSequenced, skip-IsSequenced, insert_next}
use tiny_aws.Sns.{
  Sns, Topic, Subscription, subscription_key, subscribed, start, handle_create_topic, subscribe,
  handle_subscribe, endpoints_of, deliveries, handle_publish,
}

-- The states of one run that starts on an empty table.
pub data Reaches : Sns → Type 0 where
  initial : Reaches (start [] [])
  created :
      {s : Sns} (db_ok : Bool) (name : String) (now : Time)
      → Reaches s
      → Reaches (handle_create_topic db_ok name now s).0
  subscribed_to :
      {s : Sns} (db_ok : Bool) (topic : String) (endpoint : Option String)
      → s.sub_seq + 1 < u64_mod
      → Reaches s
      → Reaches (handle_subscribe db_ok topic endpoint s).0

abbrev IsValid : Sns → Type 0
IsValid s = IsSequenced "sub-" subscription_key s.sub_seq s.subscriptions

subscribe-IsValid :
    (db_ok : Bool) (topic endpoint : String) (s : Sns)
    → s.sub_seq + 1 < u64_mod
    → IsValid s
    → IsValid (subscribe db_ok topic endpoint s).0
unfolding subscribe
subscribe-IsValid db_ok topic endpoint s h v = rw (next_seq-lt s.sub_seq h) (
    rw (insert_next "sub-" subscription_key s.sub_seq row s.subscriptions v refl) (
      exec-keeps (IsSequenced "sub-" subscription_key (s.sub_seq + 1)) db_ok
        (s.subscriptions ++ row ∷ []) s.subscriptions
        (skip-IsSequenced "sub-" subscription_key s.sub_seq s.subscriptions v h)
        (append-IsSequenced "sub-" subscription_key s.sub_seq row s.subscriptions v refl h)))
  where
    row : Subscription
    row = record { id = format_id "sub-" (s.sub_seq + 1); topic = topic; endpoint = endpoint }

handle_subscribe-IsValid :
    (db_ok : Bool) (topic : String) (endpoint : Option String) (s : Sns)
    → s.sub_seq + 1 < u64_mod
    → IsValid s
    → IsValid (handle_subscribe db_ok topic endpoint s).0
unfolding handle_subscribe
handle_subscribe-IsValid db_ok topic none s h v = v
handle_subscribe-IsValid db_ok topic (some e) s h v = elim (Bool-cases (e == "")) [
  | inl p ↦ rw p v
  | inr p ↦ rw p (subscribe-IsValid db_ok topic e s h v)
]

initial-IsValid : IsValid (start [] [])
unfolding start
initial-IsValid = record {
  unique = tt;
  given = tt;
  last = tt;
  bounded = unfold Sql.load_seq Sql.last_row in omega arith;
  in_range = omega arith;
}

topic-IsValid :
    (db_ok : Bool) (name : String) (now : Time) (s : Sns)
    → IsValid s
    → IsValid (handle_create_topic db_ok name now s).0
unfolding handle_create_topic
topic-IsValid db_ok name now s v = v

Reaches-IsValid : {s : Sns} → Reaches s → IsValid s
Reaches-IsValid initial = initial-IsValid
Reaches-IsValid (created {s} db_ok name now r) = topic-IsValid db_ok name now s (Reaches-IsValid r)
Reaches-IsValid (subscribed_to {s} db_ok topic endpoint h r) =
    handle_subscribe-IsValid db_ok topic endpoint s h (Reaches-IsValid r)

deliveries-append :
    (to message : String) (subs : List Subscription) (x : Subscription)
    → deliveries to message (endpoints_of to (subs ++ x ∷ []))
      ≡ deliveries to message (endpoints_of to subs)
        ++ (if x.topic == to
            then record { endpoint = x.endpoint; topic = to; message = message } ∷ []
            else [])
unfolding deliveries endpoints_of
deliveries-append to message subs x =
    rw (select-append (λ y. y.topic == to) subs x) (elim (Bool-cases (x.topic == to)) [
      | inl e ↦ rw e (
          rw (map-append (λ y. y.endpoint) (select (λ y. y.topic == to) subs) (x ∷ []))
            (map-append _ _ _))
      | inr e ↦ rw e (
          rw (map-append (λ y. y.endpoint) (select (λ y. y.topic == to) subs) [])
            (map-append _ _ _))
    ])

-- In one run from an empty table, a subscription that the table takes is answered 201. From then on
-- a message to its topic goes to the new endpoint too, after those it went to before; a message to
-- another topic goes where it went.
pub publish-subscribe :
    {s : Sns} (topic endpoint to message : String)
    → Reaches s
    → s.sub_seq + 1 < u64_mod
    → endpoint ≢ ""
    → message ≢ ""
    → let (s', reply) = handle_subscribe true topic (some endpoint) s in
      (reply ≡ json status_created (subscribed (format_id "sub-" (s.sub_seq + 1))))
      × ((handle_publish true to (some message) s').1
          ≡ (handle_publish true to (some message) s).1
            ++ (if topic == to
                then record { endpoint = endpoint; topic = to; message = message } ∷ []
                else []))
unfolding handle_subscribe subscribe handle_publish Sql.exec
publish-subscribe {s} topic endpoint to message r h named full = rw (eq_false endpoint "" named) (
    rw (eq_false message "" full) (
      rw (next_seq-lt s.sub_seq h) (
        rw
          (insert_next "sub-" subscription_key s.sub_seq row s.subscriptions (Reaches-IsValid r)
            refl)
          (refl, deliveries-append to message s.subscriptions row))))
  where
    row : Subscription
    row = record { id = format_id "sub-" (s.sub_seq + 1); topic = topic; endpoint = endpoint }

-- After a restart on a table that holds the identifier sub-1, the first subscription is answered
-- 201 with that identifier, and is not stored.
pub restart_loses_subscription :
    (db_ok : Bool) (topics : List Topic) (subs : List Subscription) (topic endpoint : String)
    → Sql.has subscription_key "sub-1" subs ≡ true
    → endpoint ≢ ""
    → handle_subscribe db_ok topic (some endpoint) (start topics subs) ≡ (
      record { topics = topics; subscriptions = subs; sub_seq = 1 },
      json status_created (subscribed "sub-1"),
    )
unfolding handle_subscribe subscribe start Sql.exec format_id
restart_loses_subscription db_ok topics subs topic endpoint held named =
    rw (eq_false endpoint "" named) (
      rw first (
        rw
          (
            insert-dup subscription_key
                (record { id = "sub-1"; topic = topic; endpoint = endpoint }) subs held,
            exec-none db_ok subs,
          )
          refl))
  where
    first : next_seq 0 ≡ 1
    first = unfold next_seq in refl
