-- ===== src/Registry/Instances/Overlap.antt =====
-- control-plane/registry/instances.go: the handlers write the row of an instance without the lock
-- that they take for memory, and so two of them may do this in different orders.
use mathlib.Core.Option
use tiny_aws.Prelude.{
  String, true, ◌≡◌, ◌≢◌, refl, ap, ◌∙◌, Option, some, if◌then◌else◌, List, [], ◌∷◌, ◌==◌, map,
  eq_false, Bool-cases, inl, inr,
}
use tiny_aws.Go.Map.{GoMap}
use tiny_aws.Registry.Nodes.{Node}
use tiny_aws.Sql
use tiny_aws.Sql.Laws.{has-update}
use tiny_aws.Registry.Instances.{
  Instance, InstanceRow, Instances, row_key, instance_key, of_row, open_store, set_status,
  set_first,
}
use tiny_aws.Registry.Instances.Handlers.{
  handle_instance_patch, handle_instance_by_id, terminate_instance,
}
use tiny_aws.Registry.Instances.Ids.{Reaches, Reaches-IsValid}
use tiny_aws.Registry.Instances.Mirror.{Mirrors}

-- The two steps of a handler that sets a status: the UPDATE of the row, and the change of memory.
abbrev pub write_row : String → String → Instances → Instances
write_row id status s = record s { rows = (set_status true id status s.rows).0 }

abbrev pub show_status : String → String → Instances → Instances
show_status id status s = record s { instances = set_first id status s.instances }

patch_steps :
    (id status : String) (s : Instances)
    → status ≢ ""
    → (handle_instance_patch true id (some status) s).0
      ≡ show_status id status (write_row id status s)
unfolding handle_instance_patch set_status Sql.exec
patch_steps id status s full = rw (eq_false status "" full) refl

terminate_steps :
    (id : String) (nodes : GoMap Node) (s : Instances)
    → id ≢ ""
    → (handle_instance_by_id true id nodes s).0
      ≡ show_status id "terminated" (write_row id "terminated" s)
unfolding handle_instance_by_id terminate_instance set_status Sql.exec
terminate_steps id nodes s named = rw (eq_false id "" named) refl

has-rows :
    (id : String) (xs : List Instance) (rows : List InstanceRow)
    → Mirrors xs rows
    → Sql.has row_key id rows ≡ Sql.has instance_key id xs
unfolding Sql.has
has-rows id [] [] m = refl
has-rows id [] (r ∷ rows) m = elim m [ ]
has-rows id (x ∷ xs) [] m = elim m [ ]
has-rows id (x ∷ xs) (r ∷ rows) (e, e', m) =
    λ i. if e i == id then true else has-rows id xs rows m i

has-set_first :
    (id k status : String) (xs : List Instance)
    → Sql.has instance_key k (set_first id status xs) ≡ Sql.has instance_key k xs
unfolding Sql.has set_first
has-set_first id k status [] = refl
has-set_first id k status (x ∷ xs) = elim (Bool-cases (x.id == id)) [
  | inl e ↦ rw e refl
  | inr e ↦ rw e (ap (λ b. if x.id == k then true else b) (has-set_first id k status xs))
]

-- the status that memory has for an instance, if it has the instance
abbrev pub status_of : String → List Instance → Option String
status_of id xs = Option.map (λ x. x.status) (Sql.find instance_key id xs)

status_of-set_first :
    (id status : String) (xs : List Instance)
    → Sql.has instance_key id xs ≡ true
    → status_of id (set_first id status xs) ≡ some status
unfolding Sql.has Sql.find set_first
status_of-set_first id status [] h = cc
status_of-set_first id status (x ∷ xs) h = elim (Bool-cases (x.id == id)) [
  | inl e ↦ rw e (rw e refl)
  | inr e ↦ rw e (rw e (status_of-set_first id status xs (rw e at h)))
]

status_of-update :
    (id status : String) (rows : List InstanceRow)
    → Sql.has row_key id rows ≡ true
    → status_of id (map of_row (Sql.update row_key id (λ r. record r { status = status }) rows))
      ≡ some status
unfolding Sql.has Sql.find Sql.update of_row
status_of-update id status [] h = cc
status_of-update id status (r ∷ rows) h = elim (Bool-cases (r.id == id)) [
  | inl e ↦ rw e (rw e refl)
  | inr e ↦ rw e (rw e (status_of-update id status rows (rw e at h)))
]

-- A PATCH of a status and a termination are each a write of the row and then a change of memory. An
-- instance that the registry has is terminated, and a status is reported of it at the same time: the row gets the status "terminated" and then the reported one, memory the reported one and then
-- "terminated". The instance is terminated; but after a restart it has the reported status.
pub overlapping_updates_diverge :
    (id status : String) (nodes : GoMap Node) {s : Instances}
    → Reaches s
    → id ≢ ""
    → status ≢ ""
    → Sql.has instance_key id s.instances ≡ true
    → let s' =
        show_status id "terminated"
          (show_status id status (write_row id status (write_row id "terminated" s))) in
      ((handle_instance_patch true id (some status) s).0
        ≡ show_status id status (write_row id status s))
      × ((handle_instance_by_id true id nodes s).0
          ≡ show_status id "terminated" (write_row id "terminated" s))
      × (status_of id s'.instances ≡ some "terminated")
      × (status_of id (open_store s'.rows).instances ≡ some status)
unfolding set_status Sql.exec open_store
overlapping_updates_diverge id status nodes {s} r named full known = (
  patch_steps id status s full,
  terminate_steps id nodes s named,
  status_of-set_first id "terminated" (set_first id status s.instances)
      (has-set_first id id status s.instances ∙ known),
  status_of-update id status _ (
      has-update row_key id id (λ r. record r { status = "terminated" }) s.rows (λ r. refl)
      ∙ has-rows id s.instances s.rows (Reaches-IsValid r).mirrored
      ∙ known),
)
