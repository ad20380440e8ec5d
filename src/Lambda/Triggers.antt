-- ===== src/Lambda/Triggers.antt =====
-- data-plane/compute/lambda-runtime/main.go: triggers, and the invocations that an event causes.
pub mod Fire
use tiny_aws.Prelude.{
  String, Bool, true, false, ◌&&◌, ◌||◌, Option, none, some, List, [], ◌∷◌, ◌==◌, map, select,
  if◌then◌else◌,
}
use tiny_aws.Prelude.Int.{ℤ}
use tiny_aws.Go.Fmt.{format_id, next_seq}
use tiny_aws.Go.Text.{concat}
use tiny_aws.Go.Time.{Time, format_rfc3339}
use tiny_aws.Go.Http.{
  Response, json, error, no_body, status_ok, status_created, status_no_content, status_bad_request,
}
use tiny_aws.Lambda.{Trigger, trigger_key, Lambda, Reply, one_trigger, trigger_list, answer_write}
use tiny_aws.Sql

unfoldable pub stored_trigger : Trigger → String → Time → Trigger
stored_trigger t id now = record t { id = id; created_at = format_rfc3339 now }

-- `POST /triggers`; the body is `none` if it does not decode
unfoldable pub handle_create_trigger :
    Bool → Option Trigger → Time → Lambda → Lambda × Response Reply
handle_create_trigger db_ok none now s =
    (s, error status_bad_request "function_name and event_source required")
handle_create_trigger db_ok (some t) now s =
    let seq = next_seq s.trig_seq in
    let row = stored_trigger t (format_id "trig-" seq) now in
    let (rows, stored) = Sql.exec db_ok (Sql.insert trigger_key row s.triggers) s.triggers in
    if t.function_name == "" || t.event_source == ""
    then (s, error status_bad_request "function_name and event_source required")
    else (
      record s { triggers = rows; trig_seq = seq },
      answer_write (json status_created (one_trigger row)) stored,
    )

-- `GET /triggers`
unfoldable pub handle_list_triggers : Lambda → Response Reply
handle_list_triggers s = json status_ok (trigger_list s.triggers)

-- `DELETE /triggers/{id}`
unfoldable pub handle_delete_trigger : Bool → String → Lambda → Lambda × Response Reply
handle_delete_trigger db_ok id s =
    let rows = (Sql.exec db_ok (some (Sql.remove trigger_key id s.triggers)) s.triggers).0 in
    (record s { triggers = rows }, no_body status_no_content)

-- the event of the object store that a notification carries
pub record Event : Type 0 where
  pub event : String
  pub bucket : String
  pub key : String
  pub size : ℤ

-- the WHERE clause of `handleTriggerNotify`
unfoldable pub is_fired : String → Trigger → Bool
is_fired bucket t =
    t.event_source == "s3:ObjectCreated" && (t.source_name == bucket || t.source_name == "")

-- a POST to the service's own address: the function, and the event as its body
pub record Invocation : Type 0 where
  pub url : String
  pub payload : String

-- `triggerInvoke`, where `addr` is LAMBDA_ADDR or its default
unfoldable pub trigger_invoke : String → String → String → Invocation
trigger_invoke addr name payload = record {
  url = concat ("http://127.0.0.1" ∷ addr ∷ "/functions/" ∷ name ∷ "/invoke" ∷ []);
  payload = payload;
}

-- `decode` is `json.Unmarshal` of a message, `encode` `json.Marshal` of an event.
module _ (decode : String → Option Event) (encode : Event → String) (addr : String) where
  -- The invocations run at the same time, on goroutines; the list has them in the order in which
  -- they start.
  unfoldable pub invocations : Event → List Trigger → List Invocation
  invocations e triggers =
      map (λ t. trigger_invoke addr t.function_name (encode e))
        (select (is_fired e.bucket) triggers)

  abbrev fire : Bool → Option Event → List Trigger → List Invocation
  fire db_ok none triggers = []
  fire false (some e) triggers = []
  fire true (some e) triggers = invocations e triggers

  -- `POST /trigger-notify`: the response, and the invocations in the background. The message is
  -- `none` if the body does not decode; `db_ok` says that the query is answered.
  unfoldable pub handle_trigger_notify :
      Bool → Option String → Lambda → Response Reply × List Invocation
  handle_trigger_notify db_ok none s = (error status_bad_request "bad request", [])
  handle_trigger_notify db_ok (some message) s =
      (no_body status_ok, fire db_ok (decode message) s.triggers)

-- a POST that `subscribeToS3Events` makes: its URL, and the endpoint of its body
abbrev pub Call : Type 0
Call = String × Option String

-- `subscribeToS3Events`, from the values of SNS_URL and LAMBDA_ADVERTISE_ADDR
unfoldable pub subscribe_to_s3_events : String → String → String → List Call
subscribe_to_s3_events sns_url advertised listen_addr =
    let addr =
      if advertised == "" then concat ("http://127.0.0.1" ∷ listen_addr ∷ []) else advertised in
    if sns_url == ""
    then []
    else (concat (sns_url ∷ "/topics/s3:ObjectCreated" ∷ []), none)
      ∷ (
        concat (sns_url ∷ "/topics/s3:ObjectCreated/subscribe" ∷ []),
        some (concat (addr ∷ "/trigger-notify" ∷ [])),
      )
      ∷ []
