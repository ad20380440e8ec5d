-- ===== src/Controller/Lasting.antt =====
-- control-plane/controller/main.go with control-plane/registry/instances.go: how long the registry
-- lists an instance as terminated.
use tiny_aws.Prelude.{
  ◌+◌, ◌<◌, String, Bool, true, false, not, ◌&&◌, ◌||◌, ◌≡◌, refl, ◌∙◌, sym, subst, Option, none,
  some, List, [], ◌∷◌, ◌++◌, map, arith, ◌==◌, eq_iff, Bool-cases, inl, inr,
}
use tiny_aws.Go.Fmt.{u64_mod}
use tiny_aws.Go.Map.{GoMap}
use tiny_aws.Go.Time.{Time}
use tiny_aws.Sql
use tiny_aws.Registry.Nodes.{Node}
use tiny_aws.Registry.Instances
use tiny_aws.Registry.Instances.{
  InstanceRow, Instances, instance_key, of_row, open_store, create, set_status, set_first,
}
use tiny_aws.Registry.Instances.Handlers.{
  handle_instance_patch, launch_on, launch_instance, provision_failed, terminate_instance,
  handle_instance_by_id,
}
use tiny_aws.Registry.Instances.Mirror.{
  Mirrors, IsValid, after_launch, launch_instance-IsValid, handle_instance_patch-IsValid,
  handle_instance_by_id-IsValid, restarted-IsValid, failed-IsValid,
}
use tiny_aws.Controller.{Instance, has_terminated}

-- The fields of an instance that the controller decodes.
unfoldable pub instance_of : Instances.Instance → Instance
instance_of x = record { id = x.id; status = x.status }

-- the registry lists a terminated instance of the identifier
abbrev pub is_terminated : String → List Instances.Instance → Bool
is_terminated id xs = has_terminated id (map instance_of xs)

-- A status other than "terminated", for this identifier.
abbrev pub revives : String → String → String → Bool
revives id other status = other == id && not (status == "terminated")

set_first-lasts :
    (id other status : String) (xs : List Instances.Instance)
    → revives id other status ≡ false
    → is_terminated id xs ≡ true
    → is_terminated id (set_first other status xs) ≡ true
unfolding set_first has_terminated instance_of
set_first-lasts id other status [] kept e = e
set_first-lasts id other status (x ∷ xs) kept e = elim (Bool-cases (x.id == other)) [
  | inl p ↦
      let same : x.id ≡ other = (eq_iff x.id other).0 p in
      rw p (
        let kept' : revives id x.id status ≡ false =
          subst (λ k. revives id k status ≡ false) (sym same) kept in
        ground arith)
  | inr p ↦ let rest = set_first-lasts id other status xs kept in rw p (ground arith)
]

set_first-ends :
    (id : String) (xs : List Instances.Instance)
    → Sql.has instance_key id xs ≡ true
    → is_terminated id (set_first id "terminated" xs) ≡ true
unfolding set_first has_terminated instance_of Sql.has
set_first-ends id [] e = e
set_first-ends id (x ∷ xs) e = elim (Bool-cases (x.id == id)) [
  | inl p ↦ rw p (rw p refl)
  | inr p ↦ rw p (rw p (set_first-ends id xs (rw p at e)))
]

append-lasts :
    (id : String) (xs ys : List Instances.Instance)
    → is_terminated id xs ≡ true
    → is_terminated id (xs ++ ys) ≡ true
unfolding has_terminated
append-lasts id [] ys e = absurd (ground arith)
append-lasts id (x ∷ xs) ys e = let rest = append-lasts id xs ys in ground arith

of_row-lasts :
    (id : String) (xs : List Instances.Instance) (rows : List InstanceRow)
    → Mirrors xs rows
    → is_terminated id (map of_row rows) ≡ is_terminated id xs
unfolding has_terminated instance_of of_row
of_row-lasts id [] [] m = refl
of_row-lasts id [] (r ∷ rows) m = elim m [ ]
of_row-lasts id (x ∷ xs) [] m = elim m [ ]
of_row-lasts id (x ∷ xs) (r ∷ rows) (e, e', m) =
    λ i. (e i == id && e' i == "terminated") || of_row-lasts id xs rows m i

-- Memory and table agree, and the instance is terminated.
pub record IsOver (id : String) (s : Instances) : Type 0 where
  pub valid : IsValid s
  pub over : is_terminated id s.instances ≡ true

launch-over :
    (id sns_url instance_type : String) (db_ok : Bool) (now : Time) (o : Option Node)
    (s : Instances)
    → is_terminated id s.instances ≡ true
    → is_terminated id (after_launch (launch_on db_ok sns_url instance_type now o s) s).instances
      ≡ true
unfolding create
launch-over id sns_url instance_type db_ok now none s e = e
launch-over id sns_url instance_type false now (some node) s e = e
launch-over id sns_url instance_type true now (some node) s e = append-lasts id s.instances _ e

pub launch-IsOver :
    (id sns_url instance_type : String) (db_ok : Bool) (now : Time) (nodes : GoMap Node)
    (s : Instances)
    → s.seq + 1 < u64_mod
    → IsOver id s
    → IsOver id (after_launch (launch_instance db_ok sns_url instance_type now nodes s) s)
launch-IsOver id sns_url instance_type db_ok now nodes s room o = record {
  valid = launch_instance-IsValid db_ok sns_url instance_type now nodes s room o.valid;
  over = unfold launch_instance in launch-over id sns_url instance_type db_ok now _ s o.over;
}

patch-over :
    (id other status : String) (db_ok : Bool) (s : Instances)
    → revives id other status ≡ false
    → is_terminated id s.instances ≡ true
    → is_terminated id (handle_instance_patch db_ok other (some status) s).0.instances ≡ true
unfolding handle_instance_patch set_status Sql.exec
patch-over id other status db_ok s kept e =
    let changed = set_first-lasts id other status s.instances kept e in
    elim (Bool-cases (status == "")) [
      | inl p ↦ rw p e
      | inr p ↦ elim (Bool-cases db_ok) [ inl q ↦ rw (p, q) changed | inr q ↦ rw (p, q) e ]
    ]

-- The request that sets a status other than "terminated" on the instance.
abbrev pub revived_by : String → String → Option String → Bool
revived_by id other none = false
revived_by id other (some status) = revives id other status

pub patch-IsOver :
    (id other : String) (db_ok : Bool) (status : Option String) (s : Instances)
    → revived_by id other status ≡ false
    → IsOver id s
    → IsOver id (handle_instance_patch db_ok other status s).0
patch-IsOver id other db_ok none s kept o = unfold handle_instance_patch in o
patch-IsOver id other db_ok (some status) s kept o = record {
  valid = handle_instance_patch-IsValid db_ok other (some status) s o.valid;
  over = patch-over id other status db_ok s kept o.over;
}

terminate-over :
    (id other : String) (db_ok : Bool) (nodes : GoMap Node) (s : Instances)
    → is_terminated id s.instances ≡ true
    → is_terminated id (handle_instance_by_id db_ok other nodes s).0.instances ≡ true
unfolding handle_instance_by_id terminate_instance set_status Sql.exec
terminate-over id other db_ok nodes s e =
    let kept : revives id other "terminated" ≡ false = ground arith in
    let changed = set_first-lasts id other "terminated" s.instances kept e in
    elim (Bool-cases (other == "")) [
      | inl p ↦ rw p e
      | inr p ↦ elim (Bool-cases db_ok) [ inl q ↦ rw (p, q) changed | inr q ↦ rw (p, q) e ]
    ]

pub terminate-IsOver :
    (id other : String) (db_ok : Bool) (nodes : GoMap Node) (s : Instances)
    → IsOver id s
    → IsOver id (handle_instance_by_id db_ok other nodes s).0
terminate-IsOver id other db_ok nodes s o = record {
  valid = handle_instance_by_id-IsValid db_ok other nodes s o.valid;
  over = terminate-over id other db_ok nodes s o.over;
}

pub restart-IsOver : (id : String) (s : Instances) → IsOver id s → IsOver id (open_store s.rows)
restart-IsOver id s o = record {
  valid = restarted-IsValid s o.valid;
  over = unfold open_store in of_row-lasts id s.instances s.rows o.valid.mirrored ∙ o.over;
}

pub failed-IsOver :
    (id other : String) (s : Instances)
    → (other == id) ≡ false
    → IsOver id s
    → IsOver id (provision_failed true other s)
failed-IsOver id other s ne o = record {
  valid = failed-IsValid other s o.valid;
  over =
      let kept : revives id other "failed" ≡ false = ground arith in
      unfold provision_failed in set_first-lasts id other "failed" s.instances kept o.over;
}

-- The termination of an instance that the registry has, whose row is written.
pub terminated-IsOver :
    (id : String) (nodes : GoMap Node) (s : Instances)
    → IsValid s
    → (id == "") ≡ false
    → Sql.has instance_key id s.instances ≡ true
    → IsOver id (handle_instance_by_id true id nodes s).0
terminated-IsOver id nodes s v named known = record {
  valid = handle_instance_by_id-IsValid true id nodes s v;
  over =
      unfold handle_instance_by_id terminate_instance set_status Sql.exec in
      rw named (set_first-ends id s.instances known);
}
