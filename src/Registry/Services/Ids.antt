-- ===== src/Registry/Services/Ids.antt =====
-- control-plane/registry/services.go: the identifiers of services, across requests and restarts.
use tiny_aws.Prelude.{
  ◌+◌, ◌<◌, String, Bool, true, ◌≡◌, ◌≢◌, refl, ◌∙◌, Option, none, some, [], ◌∷◌, ◌++◌, arith, ◌==◌,
  eq_false, if◌then◌else◌, Bool-cases, inl, inr,
}
use tiny_aws.Go.Fmt.{u64_mod, format_id}
use tiny_aws.Go.Fmt.RoundTrip.{next_seq-lt}
use tiny_aws.Go.Time.{Time}
use tiny_aws.Go.Http.{json, status_created}
use tiny_aws.Sql
use tiny_aws.Sql.Laws.{exec-keeps, find-upsert}
use tiny_aws.Sql.Sequence.{
  IsSequenced, append-IsSequenced, skip-IsSequenced, update-IsSequenced, load_seq-IsSequenced,
  upsert_next, find_next,
}
use tiny_aws.Registry.Services.{
  ServiceRow, ServiceStore, CreateRequest, row_key, to_row, one_service, open_store, save,
  new_service, create, update_status, handle_service_create, change_status, handle_service_patch,
  handle_service_delete,
}

-- The states that follow from an empty table, whatever writes fail.
pub data Reaches : ServiceStore → Type 0 where
  initial : Reaches (open_store [])
  created :
      {s : ServiceStore} (db_ok : Bool) (req : Option CreateRequest) (now : Time)
      → s.seq + 1 < u64_mod
      → Reaches s
      → Reaches (handle_service_create db_ok req now s).0
  patched :
      {s : ServiceStore} (db_ok : Bool) (id : String) (status : Option String)
      → Reaches s
      → Reaches (handle_service_patch db_ok id status s).0
  deleted :
      {s : ServiceStore} (db_ok : Bool) (id : String)
      → Reaches s
      → Reaches (handle_service_delete db_ok id s).0
  restarted : {s : ServiceStore} → Reaches s → Reaches (open_store s.rows)

abbrev IsValid : ServiceStore → Type 0
IsValid s = IsSequenced "svc-" row_key s.seq s.rows

create-IsValid :
    (db_ok : Bool) (req : CreateRequest) (now : Time) (s : ServiceStore)
    → s.seq + 1 < u64_mod
    → IsValid s
    → IsValid (create db_ok req now s).0
unfolding create save
create-IsValid db_ok req now s h v = rw (next_seq-lt s.seq h) (
    rw (upsert_next "svc-" row_key s.seq row s.rows v key) (
      exec-keeps (IsSequenced "svc-" row_key (s.seq + 1)) db_ok (s.rows ++ row ∷ []) s.rows
        (skip-IsSequenced "svc-" row_key s.seq s.rows v h)
        (append-IsSequenced "svc-" row_key s.seq row s.rows v key h)))
  where
    row : ServiceRow
    row = to_row (new_service (s.seq + 1) req now)

    key : row.id ≡ format_id "svc-" (s.seq + 1)
    key = unfold to_row new_service in refl

handle_service_create-IsValid :
    (db_ok : Bool) (req : Option CreateRequest) (now : Time) (s : ServiceStore)
    → s.seq + 1 < u64_mod
    → IsValid s
    → IsValid (handle_service_create db_ok req now s).0
unfolding handle_service_create
handle_service_create-IsValid db_ok none now s h v = v
handle_service_create-IsValid db_ok (some req) now s h v = elim (Bool-cases (req.node_id == "")) [
  | inl e ↦ rw e v
  | inr e ↦ rw e (create-IsValid db_ok req now s h v)
]

change_status-IsValid :
    (db_ok : Bool) (id status : String) (s : ServiceStore)
    → IsValid s
    → IsValid (change_status db_ok id status s).0
unfolding change_status update_status
change_status-IsValid db_ok id status s v =
    exec-keeps (IsSequenced "svc-" row_key s.seq) db_ok _ s.rows v (
      update-IsSequenced "svc-" row_key s.seq id (λ r. record r { status = status }) s.rows
        (λ r. refl) v)

handle_service_patch-IsValid :
    (db_ok : Bool) (id : String) (status : Option String) (s : ServiceStore)
    → IsValid s
    → IsValid (handle_service_patch db_ok id status s).0
unfolding handle_service_patch
handle_service_patch-IsValid db_ok id none s v = v
handle_service_patch-IsValid db_ok id (some status) s v = elim (Bool-cases (status == "")) [
  | inl e ↦ rw e v
  | inr e ↦ rw e (change_status-IsValid db_ok id status s v)
]

handle_service_delete-IsValid :
    (db_ok : Bool) (id : String) (s : ServiceStore)
    → IsValid s
    → IsValid (handle_service_delete db_ok id s).0
unfolding handle_service_delete
handle_service_delete-IsValid db_ok id s v = change_status-IsValid db_ok id "stopped" s v

initial-IsValid : IsValid (open_store [])
unfolding open_store Sql.load_seq Sql.last_row
initial-IsValid = record {
  unique = tt;
  given = tt;
  last = tt;
  bounded = omega arith;
  in_range = omega arith;
}

restarted-IsValid : (s : ServiceStore) → IsValid s → IsValid (open_store s.rows)
unfolding open_store
restarted-IsValid s v = load_seq-IsSequenced "svc-" row_key s.seq s.rows v

Reaches-IsValid : {s : ServiceStore} → Reaches s → IsValid s
Reaches-IsValid initial = initial-IsValid
Reaches-IsValid (created {s} db_ok req now h r) =
    handle_service_create-IsValid db_ok req now s h (Reaches-IsValid r)
Reaches-IsValid (patched {s} db_ok id status r) =
    handle_service_patch-IsValid db_ok id status s (Reaches-IsValid r)
Reaches-IsValid (deleted {s} db_ok id r) =
    handle_service_delete-IsValid db_ok id s (Reaches-IsValid r)
Reaches-IsValid (restarted {s} r) = restarted-IsValid s (Reaches-IsValid r)

-- After any requests, failed writes and restarts, a request that names a node is answered 201 with a
-- running service under an identifier that no row has. If the row can be written, the table then
-- has it under that identifier, and under every other what it had.
pub create_service_fresh :
    {s : ServiceStore} (db_ok : Bool) (req : CreateRequest) (now : Time)
    → Reaches s
    → s.seq + 1 < u64_mod
    → req.node_id ≢ ""
    → let svc = new_service (s.seq + 1) req now in
      ((handle_service_create db_ok (some req) now s).1 ≡ json status_created (one_service svc))
      × (Sql.find row_key svc.id s.rows ≡ none)
      × ((id : String)
          → Sql.find row_key id (handle_service_create true (some req) now s).0.rows
            ≡ (if svc.id == id then some (to_row svc) else Sql.find row_key id s.rows))
unfolding handle_service_create create save Sql.exec
create_service_fresh {s} db_ok req now r h named = rw (eq_false req.node_id "" named) (
    rw (next_seq-lt s.seq h) (
      refl,
      unfold new_service in find_next "svc-" row_key s.seq s.rows (Reaches-IsValid r),
      λ id.
          find-upsert row_key (to_row (new_service (s.seq + 1) req now)) id s.rows
          ∙ (unfold to_row in refl),
    ))
