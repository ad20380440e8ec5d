-- ===== src/Sns.antt =====
-- control-plane/messaging/sns/main.go: topics, subscriptions and the fan-out of a message. The two
-- tables and the global `subSeq` are the record `Sns`. The service discards the errors of its
-- inserts, and so do the definitions.
pub mod Fanout
mod Examples
use tiny_aws.Prelude.{
  ℕ, ◌+◌, String, Bool, true, false, Option, none, some, List, [], ◌∷◌, ◌==◌, map, select, length,
  if◌then◌else◌,
}
use tiny_aws.Go.Fmt.{format_id, next_seq}
use tiny_aws.Go.Time.{Time, format_rfc3339}
use tiny_aws.Go.Http.{
  Response, json, error, status_ok, status_created, status_bad_request,
  status_internal_server_error,
}
use tiny_aws.Sql

pub record Topic : Type 0 where
  pub name : String
  pub created_at : ℕ

pub record Subscription : Type 0 where
  pub id : String
  pub topic : String
  pub endpoint : String

abbrev pub topic_key : Topic → String
topic_key t = t.name

abbrev pub subscription_key : Subscription → String
subscription_key s = s.id

pub record Sns : Type 0 where
  pub topics : List Topic
  pub subscriptions : List Subscription
  pub sub_seq : ℕ

pub data Reply : Type 0 where
  created : String → Reply
  names : List String → Reply
  subscribed : String → Reply
  delivered : ℕ → Reply

-- `main` at a start: `subSeq` is 0, whatever the table holds
unfoldable pub start : List Topic → List Subscription → Sns
start topics subscriptions = record { topics = topics; subscriptions = subscriptions; sub_seq = 0 }

unfoldable pub handle_create_topic : Bool → String → Time → Sns → Sns × Response Reply
handle_create_topic db_ok name now s =
    let row : Topic = record { name = name; created_at = format_rfc3339 now } in
    let topics = (Sql.exec db_ok (some (Sql.insert_or_ignore topic_key row s.topics)) s.topics).0 in
    (record s { topics = topics }, json status_created (created name))

unfoldable pub handle_list_topics : Sns → Response Reply
handle_list_topics s = json status_ok (names (map topic_key s.topics))

unfoldable pub subscribe : Bool → String → String → Sns → Sns × String
subscribe db_ok topic endpoint s =
    let seq = next_seq s.sub_seq in
    let id = format_id "sub-" seq in
    let row : Subscription = record { id = id; topic = topic; endpoint = endpoint } in
    let rows =
      (Sql.exec db_ok (Sql.insert subscription_key row s.subscriptions) s.subscriptions).0 in
    (record s { subscriptions = rows; sub_seq = seq }, id)

-- The endpoint is `none` if the body does not decode.
unfoldable pub handle_subscribe : Bool → String → Option String → Sns → Sns × Response Reply
handle_subscribe db_ok topic none s = (s, error status_bad_request "endpoint required")
handle_subscribe db_ok topic (some endpoint) s =
    let (s', id) = subscribe db_ok topic endpoint s in
    if endpoint == ""
    then (s, error status_bad_request "endpoint required")
    else (s', json status_created (subscribed id))

unfoldable pub endpoints_of : String → List Subscription → List String
endpoints_of topic subs = map (λ x. x.endpoint) (select (λ x. x.topic == topic) subs)

-- a POST that the service sends: its endpoint, and the topic and the message of its body
pub record Delivery : Type 0 where
  pub endpoint : String
  pub topic : String
  pub message : String

unfoldable pub deliveries : String → String → List String → List Delivery
deliveries topic message eps =
    map (λ e. record { endpoint = e; topic = topic; message = message }) eps

abbrev fan_out : Bool → String → String → Sns → Response Reply × List Delivery
fan_out true topic message s =
    let eps = endpoints_of topic s.subscriptions in
    (json status_ok (delivered (length eps)), deliveries topic message eps)
fan_out false topic message s = (error status_internal_server_error "db error", [])

-- The deliveries run at the same time, on goroutines; the list has them in the order in which they
-- start. The message is `none` if the body does not decode; `db_ok` says that the query is answered.
unfoldable pub handle_publish : Bool → String → Option String → Sns → Response Reply × List Delivery
handle_publish db_ok topic none s = (error status_bad_request "message required", [])
handle_publish db_ok topic (some message) s =
    if message == ""
    then (error status_bad_request "message required", [])
    else fan_out db_ok topic message s
