-- ===== src/Lambda/Triggers/Fire.antt =====
-- data-plane/compute/lambda-runtime/main.go: which functions an event invokes.
use tiny_aws.Prelude.{
  ◌+◌, ◌<◌, String, Bool, true, false, ◌≡◌, ◌≢◌, refl, Option, none, some, List, [], ◌∷◌, ◌++◌,
  arith, ◌==◌, ◌||◌, ◌&&◌, eq_false, select-append, map-append, All, All-append, if◌then◌else◌,
  Bool-cases, inl, inr,
}
use tiny_aws.Go.Fmt.{u64_mod, format_id}
use tiny_aws.Go.Fmt.RoundTrip.{next_seq-lt}
use tiny_aws.Go.Http.{json, status_created}
use tiny_aws.Go.Text.{concat}
use tiny_aws.Go.Time.{Time, format_rfc3339}
use tiny_aws.Lambda.{Function, Trigger, trigger_key, Lambda, one_trigger, start, handle_create}
use tiny_aws.Lambda.Triggers.{
  stored_trigger, handle_create_trigger, handle_delete_trigger, Event, is_fired, trigger_invoke,
  invocations, handle_trigger_notify,
}
use tiny_aws.Sql
use tiny_aws.Sql.Laws.{exec-keeps, insert-new, All-remove, remove-append}
use tiny_aws.Sql.Sequence.{IsNumbered, IsNumbered-mono, has-fresh}

-- The states of one run that starts without triggers.
pub data Reaches : Lambda → Type 0 where
  initial : (functions : List Function) → Reaches (start functions [])
  function_created :
      {s : Lambda} (db_ok : Bool) (body : Option Function) (now : Time)
      → Reaches s
      → Reaches (handle_create db_ok body now s).0
  trigger_created :
      {s : Lambda} (db_ok : Bool) (body : Option Trigger) (now : Time)
      → s.trig_seq + 1 < u64_mod
      → Reaches s
      → Reaches (handle_create_trigger db_ok body now s).0
  trigger_deleted :
      {s : Lambda} (db_ok : Bool) (id : String)
      → Reaches s
      → Reaches (handle_delete_trigger db_ok id s).0

-- Every trigger has a number that was given out.
abbrev IsValid : Lambda → Type 0
IsValid s = All (IsNumbered "trig-" trigger_key s.trig_seq) s.triggers

start-IsValid : (functions : List Function) → IsValid (start functions [])
unfolding start
start-IsValid functions = tt

create-IsValid :
    (db_ok : Bool) (body : Option Function) (now : Time) (s : Lambda)
    → IsValid s
    → IsValid (handle_create db_ok body now s).0
unfolding handle_create
create-IsValid db_ok none now s v = v
create-IsValid db_ok (some f) now s v = elim (Bool-cases (f.name == "" || f.runtime == "")) [
  | inl e ↦ rw e v
  | inr e ↦ rw e v
]

delete-IsValid :
    (db_ok : Bool) (id : String) (s : Lambda)
    → IsValid s
    → IsValid (handle_delete_trigger db_ok id s).0
unfolding handle_delete_trigger
delete-IsValid db_ok id s v =
    exec-keeps (All (IsNumbered "trig-" trigger_key s.trig_seq)) db_ok
      (Sql.remove trigger_key id s.triggers) s.triggers v
      (All-remove trigger_key (IsNumbered "trig-" trigger_key s.trig_seq) id s.triggers v)

module _ (s : Lambda) (room : s.trig_seq + 1 < u64_mod) (v : IsValid s) where
  fresh : Sql.has trigger_key (format_id "trig-" (s.trig_seq + 1)) s.triggers ≡ false
  fresh = has-fresh "trig-" trigger_key s.trig_seq (s.trig_seq + 1) s.triggers v (omega arith)

  -- the next trigger is inserted
  insert_trigger :
      (t : Trigger) (now : Time)
      → let row = stored_trigger t (format_id "trig-" (s.trig_seq + 1)) now in
        Sql.insert trigger_key row s.triggers ≡ some (s.triggers ++ row ∷ [])
  unfolding stored_trigger
  insert_trigger t now = insert-new trigger_key _ s.triggers fresh

  numbered :
      (t : Trigger) (now : Time)
      → All
          (IsNumbered "trig-" trigger_key (s.trig_seq + 1))
          (s.triggers ++ stored_trigger t (format_id "trig-" (s.trig_seq + 1)) now ∷ [])
  unfolding stored_trigger
  numbered t now =
      All-append (IsNumbered "trig-" trigger_key (s.trig_seq + 1)) s.triggers _
        (IsNumbered-mono "trig-" trigger_key s.triggers (omega arith) v)
        ((s.trig_seq + 1, refl, omega arith), tt)

  create_trigger-IsValid :
      (db_ok : Bool) (body : Option Trigger) (now : Time)
      → IsValid (handle_create_trigger db_ok body now s).0
  unfolding handle_create_trigger
  create_trigger-IsValid db_ok none now = v
  create_trigger-IsValid db_ok (some t) now =
      elim (Bool-cases (t.function_name == "" || t.event_source == "")) [
        | inl e ↦ rw e v
        | inr e ↦ rw e (
            rw (next_seq-lt s.trig_seq room) (
              rw (insert_trigger t now) (
                exec-keeps (All (IsNumbered "trig-" trigger_key (s.trig_seq + 1))) db_ok _
                  s.triggers (IsNumbered-mono "trig-" trigger_key s.triggers (omega arith) v)
                  (numbered t now))))
      ]

Reaches-IsValid : {s : Lambda} → Reaches s → IsValid s
Reaches-IsValid (initial functions) = start-IsValid functions
Reaches-IsValid (function_created {s} db_ok body now r) =
    create-IsValid db_ok body now s (Reaches-IsValid r)
Reaches-IsValid (trigger_created {s} db_ok body now room r) =
    create_trigger-IsValid s room (Reaches-IsValid r) db_ok body now
Reaches-IsValid (trigger_deleted {s} db_ok id r) = delete-IsValid db_ok id s (Reaches-IsValid r)

module _ (encode : Event → String) (addr : String) where
  invocations-append :
      (decode : String → Option Event) (e : Event) (ts : List Trigger) (t : Trigger)
      → invocations decode encode addr e (ts ++ t ∷ [])
        ≡ invocations decode encode addr e ts
          ++ (if is_fired e.bucket t
              then trigger_invoke addr t.function_name (encode e) ∷ []
              else [])
  unfolding invocations
  invocations-append decode e ts t =
      rw (select-append (is_fired e.bucket) ts t) (elim (Bool-cases (is_fired e.bucket t)) [
        | inl p ↦ rw p (map-append _ _ _)
        | inr p ↦ rw p (map-append _ _ _)
      ])

-- In one run that starts without triggers: a trigger with a function and a source is answered 201,
-- and from then on a notification of an event invokes its function too, after those that it invoked
-- before, by a POST of the event to its address, if the trigger is on uploads to the bucket of the
-- event or to all buckets; an event of another bucket invokes what it did. The deletion of the trigger leaves the triggers that there were.
pub notify-create_trigger :
    (decode : String → Option Event) (encode : Event → String) (addr message : String) (e : Event)
    (t : Trigger) (now : Time) {s : Lambda}
    → Reaches s
    → s.trig_seq + 1 < u64_mod
    → t.function_name ≢ ""
    → t.event_source ≢ ""
    → decode message ≡ some e
    → let id = format_id "trig-" (s.trig_seq + 1) in
      let (s', reply) = handle_create_trigger true (some t) now s in
      (reply
        ≡ json status_created (one_trigger (record t { id = id; created_at = format_rfc3339 now })))
      × ((handle_trigger_notify decode encode addr true (some message) s').1
          ≡ (handle_trigger_notify decode encode addr true (some message) s).1
            ++ (if t.event_source == "s3:ObjectCreated"
                  && (t.source_name == e.bucket || t.source_name == "")
                then record {
                  url = concat (
                      "http://127.0.0.1" ∷ addr ∷ "/functions/" ∷ t.function_name ∷ "/invoke" ∷ []);
                  payload = encode e;
                }
                  ∷ []
                else []))
      × ((handle_delete_trigger true id s').0.triggers ≡ s.triggers)
unfolding handle_create_trigger handle_trigger_notify handle_delete_trigger stored_trigger Sql.exec
notify-create_trigger decode encode addr message e t now {s} r room named sourced decoded =
    rw (eq_false t.function_name "" named) (
      rw (eq_false t.event_source "" sourced) (
        rw (next_seq-lt s.trig_seq room) (
          rw (insert_trigger s room (Reaches-IsValid r) t now) (
            rw decoded (
              refl,
              (unfold is_fired trigger_invoke in
                  invocations-append encode addr decode e s.triggers _),
              remove-append trigger_key _ s.triggers (fresh s room (Reaches-IsValid r)),
            )))))
