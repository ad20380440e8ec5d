-- ===== src/Registry/Instances/Ids.antt =====
-- control-plane/registry/instances.go: the identifiers and the status of instances, across requests
-- and restarts.
use tiny_aws.Prelude.{◌+◌, ◌<◌, String, Bool, true, ◌≡◌, refl, Option, List, [], ◌∷◌, map}
use tiny_aws.Go.Fmt.{u64_mod}
use tiny_aws.Go.Map.{GoMap}
use tiny_aws.Go.Time.{Time}
use tiny_aws.Registry.Nodes.{Node}
use tiny_aws.Registry.Instances.{Instance, InstanceRow, Instances, of_row, open_store}
use tiny_aws.Registry.Instances.Handlers.{
  handle_instance_patch, launch_instance, provision_failed, handle_instance_by_id,
}
use tiny_aws.Registry.Instances.Mirror.{
  Mirrors, IsValid, after_launch, launch_instance-IsValid, handle_instance_patch-IsValid,
  handle_instance_by_id-IsValid, initial-IsValid, restarted-IsValid, failed-IsValid,
}

-- The states that follow from an empty table. Writes may fail, but for the one after a call of an
-- agent that failed, whose error the code drops.
pub data Reaches : Instances → Type 0 where
  initial : Reaches (open_store [])
  launch :
      {s : Instances} (db_ok : Bool) (sns_url instance_type : String) (now : Time)
      (nodes : GoMap Node)
      → s.seq + 1 < u64_mod
      → Reaches s
      → Reaches (after_launch (launch_instance db_ok sns_url instance_type now nodes s) s)
  patch :
      {s : Instances} (db_ok : Bool) (id : String) (status : Option String)
      → Reaches s
      → Reaches (handle_instance_patch db_ok id status s).0
  delete :
      {s : Instances} (db_ok : Bool) (id : String) (nodes : GoMap Node)
      → Reaches s
      → Reaches (handle_instance_by_id db_ok id nodes s).0
  agent_failed : {s : Instances} (id : String) → Reaches s → Reaches (provision_failed true id s)
  restarted : {s : Instances} → Reaches s → Reaches (open_store s.rows)

pub Reaches-IsValid : {s : Instances} → Reaches s → IsValid s
Reaches-IsValid initial = initial-IsValid
Reaches-IsValid (launch {s} db_ok sns_url instance_type now nodes h r) =
    launch_instance-IsValid db_ok sns_url instance_type now nodes s h (Reaches-IsValid r)
Reaches-IsValid (patch {s} db_ok id status r) =
    handle_instance_patch-IsValid db_ok id status s (Reaches-IsValid r)
Reaches-IsValid (delete {s} db_ok id nodes r) =
    handle_instance_by_id-IsValid db_ok id nodes s (Reaches-IsValid r)
Reaches-IsValid (agent_failed {s} id r) = failed-IsValid id s (Reaches-IsValid r)
Reaches-IsValid (restarted {s} r) = restarted-IsValid s (Reaches-IsValid r)

-- what a client asks an instance for: its identifier and its status
abbrev pub identity : Instance → String × String
identity x = (x.id, x.status)

identities-of_row :
    (xs : List Instance) (rows : List InstanceRow)
    → Mirrors xs rows
    → map identity (map of_row rows) ≡ map identity xs
unfolding of_row
identities-of_row [] [] m = refl
identities-of_row [] (r ∷ rows) m = elim m [ ]
identities-of_row (x ∷ xs) [] m = elim m [ ]
identities-of_row (x ∷ xs) (r ∷ rows) (e, e', m) = λ i. (e i, e' i) ∷ identities-of_row xs rows m i

-- After any launches, updates and terminations that do not overlap, restarts, whose writes may fail,
-- and failed calls of agents that are recorded, a restart has the same instances with the same status in the same order.
pub restart_keeps_status :
    {s : Instances}
    → Reaches s
    → map identity (open_store s.rows).instances ≡ map identity s.instances
unfolding open_store
restart_keeps_status {s} r = identities-of_row s.instances s.rows (Reaches-IsValid r).mirrored
