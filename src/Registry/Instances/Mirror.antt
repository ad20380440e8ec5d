-- ===== src/Registry/Instances/Mirror.antt =====
-- control-plane/registry/instances.go: memory and table have the same instances, after each operation.
use tiny_aws.Prelude.{
  ◌+◌, ◌<◌, String, Bool, true, false, ◌≡◌, refl, subst, Option, none, some, List, [], ◌∷◌, ◌++◌,
  arith, ◌==◌, eq_iff, Bool-cases, inl, inr, map,
}
use tiny_aws.Go.Fmt.{u64_mod, format_id}
use tiny_aws.Go.Fmt.RoundTrip.{next_seq-lt}
use tiny_aws.Go.Map.{GoMap}
use tiny_aws.Go.Time.{Time}
use tiny_aws.Go.Http.{Response}
use tiny_aws.Sql
use tiny_aws.Sql.Laws.{Unique, update-absent}
use tiny_aws.Sql.Sequence.{
  IsSequenced, append-IsSequenced, update-IsSequenced, load_seq-IsSequenced, upsert_next,
}
use tiny_aws.Registry.Nodes.{Node}
use tiny_aws.Registry.Instances.{
  Instance, InstanceRow, Instances, row_key, to_row, of_row, open_store, new_instance, create,
  set_status, set_first,
}
use tiny_aws.Registry.Instances.Handlers.{
  Call, Reply, handle_instance_patch, launch_on, launched, launch_instance, provision_failed,
  terminate_instance, handle_instance_by_id,
}

-- Memory and table have the same instances, in the same order: identifiers and status agree.
abbrev pub Mirrors : List Instance → List InstanceRow → Type 0
Mirrors [] [] = Unit
Mirrors [] (r ∷ rows) = ⊥
Mirrors (x ∷ xs) [] = ⊥
Mirrors (x ∷ xs) (r ∷ rows) = (r.id ≡ x.id) × (r.status ≡ x.status) × Mirrors xs rows

pub record IsValid (s : Instances) : Type 0 where
  pub sequenced : IsSequenced "i-" row_key s.seq s.rows
  pub mirrored : Mirrors s.instances s.rows

Mirrors-append :
    (xs : List Instance) (rows : List InstanceRow) (x : Instance) (r : InstanceRow)
    → r.id ≡ x.id
    → r.status ≡ x.status
    → Mirrors xs rows
    → Mirrors (xs ++ x ∷ []) (rows ++ r ∷ [])
Mirrors-append [] [] x r e e' m = (e, e', tt)
Mirrors-append [] (y ∷ rows) x r e e' m = elim m [ ]
Mirrors-append (y ∷ xs) [] x r e e' m = elim m [ ]
Mirrors-append (y ∷ xs) (z ∷ rows) x r e e' (p, p', m) = (p, p', Mirrors-append xs rows x r e e' m)

Mirrors-of_row : (rows : List InstanceRow) → Mirrors (map of_row rows) rows
unfolding of_row
Mirrors-of_row [] = tt
Mirrors-of_row (r ∷ rows) = (refl, refl, Mirrors-of_row rows)

-- A status that is set on the row of an identifier, and on the first instance that has it.
Mirrors-set :
    (id status : String) (xs : List Instance) (rows : List InstanceRow)
    → Unique row_key rows
    → Mirrors xs rows
    → Mirrors
        (set_first id status xs)
        (Sql.update row_key id (λ r. record r { status = status }) rows)
unfolding set_first Sql.update
Mirrors-set id status [] [] u m = tt
Mirrors-set id status [] (r ∷ rows) u m = elim m [ ]
Mirrors-set id status (x ∷ xs) [] u m = elim m [ ]
Mirrors-set id status (x ∷ xs) (r ∷ rows) (fresh, u) (e, e', m) = elim (Bool-cases (r.id == id)) [
  | inl p ↦
      let alone : Sql.has row_key id rows ≡ false =
        subst (λ k. Sql.has row_key k rows ≡ false) ((eq_iff r.id id).0 p) fresh in
      rw (update-absent row_key id (λ y. record y { status = status }) rows alone)
        (rw (p, subst (λ k. (k == id) ≡ true) e p) (e, refl, m))
  | inr p ↦ rw (p, subst (λ k. (k == id) ≡ false) e p) (e, e', Mirrors-set id status xs rows u m)
]

-- The state after a launch. A process that ended has no state; the last one stands for it here.
abbrev pub after_launch : Option (Instances × Response Reply × List Call) → Instances → Instances
after_launch none s = s
after_launch (some (s', reply, calls)) s = s'

create-IsValid :
    (sns_url : String) (node : Node) (instance_type : String) (now : Time) (s : Instances)
    → s.seq + 1 < u64_mod
    → IsValid s
    → IsValid (after_launch (launched sns_url node (create true node.id instance_type now s)) s)
unfolding create
create-IsValid sns_url node instance_type now s h v = rw (next_seq-lt s.seq h) (
    rw (upsert_next "i-" row_key s.seq row s.rows v.sequenced key) (record {
      sequenced = append-IsSequenced "i-" row_key s.seq row s.rows v.sequenced key h;
      mirrored =
          Mirrors-append s.instances s.rows x row (unfold to_row in refl) (unfold to_row in refl)
            v.mirrored;
    }))
  where
    x : Instance
    x = new_instance (s.seq + 1) node.id instance_type now

    row : InstanceRow
    row = to_row x

    key : row.id ≡ format_id "i-" (s.seq + 1)
    key = unfold to_row new_instance in refl

launch_on-IsValid :
    (db_ok : Bool) (sns_url instance_type : String) (now : Time) (o : Option Node) (s : Instances)
    → s.seq + 1 < u64_mod
    → IsValid s
    → IsValid (after_launch (launch_on db_ok sns_url instance_type now o s) s)
launch_on-IsValid db_ok sns_url instance_type now none s h v = v
launch_on-IsValid true sns_url instance_type now (some node) s h v =
    create-IsValid sns_url node instance_type now s h v
launch_on-IsValid false sns_url instance_type now (some node) s h v = unfold create in v

pub launch_instance-IsValid :
    (db_ok : Bool) (sns_url instance_type : String) (now : Time) (nodes : GoMap Node)
    (s : Instances)
    → s.seq + 1 < u64_mod
    → IsValid s
    → IsValid (after_launch (launch_instance db_ok sns_url instance_type now nodes s) s)
unfolding launch_instance
launch_instance-IsValid db_ok sns_url instance_type now nodes s h v =
    launch_on-IsValid db_ok sns_url instance_type now _ s h v

-- both places take the status
set_both-IsValid :
    (id status : String) (s : Instances)
    → IsValid s
    → IsValid (record s {
      rows = (set_status true id status s.rows).0;
      instances = set_first id status s.instances;
    })
unfolding set_status Sql.exec
set_both-IsValid id status s v = record {
  sequenced =
      update-IsSequenced "i-" row_key s.seq id (λ r. record r { status = status }) s.rows
        (λ r. refl) v.sequenced;
  mirrored = Mirrors-set id status s.instances s.rows v.sequenced.unique v.mirrored;
}

pub handle_instance_patch-IsValid :
    (db_ok : Bool) (id : String) (status : Option String) (s : Instances)
    → IsValid s
    → IsValid (handle_instance_patch db_ok id status s).0
unfolding handle_instance_patch
handle_instance_patch-IsValid db_ok id none s v = v
handle_instance_patch-IsValid true id (some status) s v = elim (Bool-cases (status == "")) [
  | inl e ↦ rw e v
  | inr e ↦ rw e (unfold set_status Sql.exec in set_both-IsValid id status s v)
]
handle_instance_patch-IsValid false id (some status) s v = elim (Bool-cases (status == "")) [
  | inl e ↦ rw e v
  | inr e ↦ rw e (unfold set_status Sql.exec in v)
]

terminate_instance-IsValid :
    (db_ok : Bool) (id : String) (nodes : GoMap Node) (s : Instances)
    → IsValid s
    → IsValid (terminate_instance db_ok id nodes s).0
unfolding terminate_instance
terminate_instance-IsValid true id nodes s v =
    unfold set_status Sql.exec in set_both-IsValid id "terminated" s v
terminate_instance-IsValid false id nodes s v = unfold set_status Sql.exec in v

pub handle_instance_by_id-IsValid :
    (db_ok : Bool) (id : String) (nodes : GoMap Node) (s : Instances)
    → IsValid s
    → IsValid (handle_instance_by_id db_ok id nodes s).0
unfolding handle_instance_by_id
handle_instance_by_id-IsValid db_ok id nodes s v = elim (Bool-cases (id == "")) [
  | inl e ↦ rw e v
  | inr e ↦ rw e (terminate_instance-IsValid db_ok id nodes s v)
]

pub initial-IsValid : IsValid (open_store [])
unfolding open_store Sql.load_seq Sql.last_row
initial-IsValid = record {
  sequenced = record {
    unique = tt;
    given = tt;
    last = tt;
    bounded = omega arith;
    in_range = omega arith;
  };
  mirrored = tt;
}

pub restarted-IsValid : (s : Instances) → IsValid s → IsValid (open_store s.rows)
unfolding open_store
restarted-IsValid s v = record {
  sequenced = load_seq-IsSequenced "i-" row_key s.seq s.rows v.sequenced;
  mirrored = Mirrors-of_row s.rows;
}

pub failed-IsValid :
    (id : String) (s : Instances) → IsValid s → IsValid (provision_failed true id s)
unfolding provision_failed
failed-IsValid id s v = set_both-IsValid id "failed" s v
