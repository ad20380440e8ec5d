-- ===== src/Controller/Reach.antt =====
-- control-plane/controller/main.go with control-plane/registry: from the termination of an instance
-- to the removal of its workspace.
use tiny_aws.Prelude.{
  ℕ, ◌+◌, ◌<◌, String, Bool, true, false, not, ◌≡◌, ◌≢◌, refl, ap, ◌∙◌, Option, none, some, List,
  [], ◌∷◌, map, ◌==◌, eq_false, arith, Bool-cases, inl, inr, select,
}
use tiny_aws.Go.Fmt.{u64_mod}
use tiny_aws.Go.Time.{Time}
use tiny_aws.Go.Http.{Response, json, error, no_body}
use tiny_aws.Sql
use tiny_aws.Registry.Nodes.{check_nodes_health}
use tiny_aws.Registry.Instances
use tiny_aws.Registry.Instances.{Instances, instance_key}
use tiny_aws.Registry.Instances.Handlers
use tiny_aws.Registry.Instances.Handlers.{Call, launch_instance, provision_failed}
use tiny_aws.Registry.Instances.Mirror.{after_launch}
use tiny_aws.Registry.Instances.Ids.{Reaches, Reaches-IsValid}
use tiny_aws.Registry.Routes.{
  RegistryState, Context, Outcome, Request, Reply, health, list_nodes, register, heartbeat,
  remove_node, list_instances, launch, get_instance, patch_instance, terminate, create_key,
  delete_key, list_keys, create_service, list_services, get_service, patch_service, stop_service,
  handle, or_exit, unless_refused, refusal_for, serve, is_unguarded, restart, healthy, of_nodes,
  of_instances, of_services, of_keys,
}
use tiny_aws.Controller.{
  Instance, is_cleaned, reconcile_once, reconcile_cleans_terminated, reconcile_tries_terminated,
}
use tiny_aws.Controller.Lasting.{
  instance_of, revived_by, IsOver, launch-IsOver, patch-IsOver, terminate-IsOver, restart-IsOver,
  failed-IsOver, terminated-IsOver,
}

-- What the decoder makes of an answer: nothing of the text of an error, or of no answer.
abbrev instances_of_reply : Reply → Option (List Instance)
instances_of_reply healthy = none
instances_of_reply (of_nodes r) = none
instances_of_reply (of_instances (Handlers.instance_list xs)) = some (map instance_of xs)
instances_of_reply (of_instances (Handlers.one_instance x)) = none
instances_of_reply (of_services r) = none
instances_of_reply (of_keys r) = none

abbrev pub decoded : Outcome → Option (List Instance)
decoded none = none
decoded (some (g, json status reply, calls)) = instances_of_reply reply
decoded (some (g, error status text, calls)) = none
decoded (some (g, no_body status, calls)) = none

-- The registry after a request; one in which the process ended has the tables of before.
abbrev pub after : RegistryState → Outcome → RegistryState
after g none = g
after g (some (g', reply, calls)) = g'

-- The request sets another status than "terminated" on the instance.
abbrev pub is_revival : String → Request → Bool
is_revival id (patch_instance other status) = revived_by id other status
is_revival id _ = false

after-or_exit :
    (g : RegistryState) (o : Option (Instances × Response Handlers.Reply × List Call))
    → (after g (or_exit o g)).instances ≡ after_launch o g.instances
after-or_exit g none = refl
after-or_exit g (some (s, reply, calls)) = refl

handle-IsOver :
    (id : String) (c : Context) (req : Request) (g : RegistryState)
    → is_revival id req ≡ false
    → g.instances.seq + 1 < u64_mod
    → IsOver id g.instances
    → IsOver id (after g (handle c req g)).instances
unfolding handle
handle-IsOver id c (launch instance_type) g kept room o =
    rw
      (after-or_exit g
        (launch_instance c.db_ok c.sns_url instance_type c.now g.nodes.nodes g.instances))
      (launch-IsOver id c.sns_url instance_type c.db_ok c.now g.nodes.nodes g.instances room o)
handle-IsOver id c (patch_instance other status) g kept room o =
    patch-IsOver id other c.db_ok status g.instances kept o
handle-IsOver id c (terminate other) g kept room o =
    terminate-IsOver id other c.db_ok g.nodes.nodes g.instances o
handle-IsOver id c health g kept room o = o
handle-IsOver id c (list_nodes role) g kept room o = o
handle-IsOver id c (register body) g kept room o = o
handle-IsOver id c (heartbeat body) g kept room o = o
handle-IsOver id c (remove_node k) g kept room o = o
handle-IsOver id c (list_instances node status) g kept room o = o
handle-IsOver id c (get_instance k) g kept room o = o
handle-IsOver id c (create_key body) g kept room o = o
handle-IsOver id c (delete_key key) g kept room o = o
handle-IsOver id c list_keys g kept room o = o
handle-IsOver id c (create_service body) g kept room o = o
handle-IsOver id c (list_services node status) g kept room o = o
handle-IsOver id c (get_service k) g kept room o = o
handle-IsOver id c (patch_service k status) g kept room o = o
handle-IsOver id c (stop_service k) g kept room o = o

unless_refused-IsOver :
    (id : String) (refusal : Option (ℕ × String)) (g : RegistryState) (served : Outcome)
    → IsOver id g.instances
    → IsOver id (after g served).instances
    → IsOver id (after g (unless_refused refusal served g)).instances
unless_refused-IsOver id none g served o o' = o'
unless_refused-IsOver id (some (status, text)) g served o o' = o

all_listed : (xs : List Instances.Instance) → select (Handlers.is_listed "" "") xs ≡ xs
unfolding select Handlers.is_listed
all_listed [] = refl
all_listed (x ∷ xs) = ap (λ rest. x ∷ rest) (all_listed xs)

module _ (parse : String → Option Time) where
  -- One pass of the controller, whose request carries no key.
  unfoldable pub reconcile_from :
      (String → Bool) → Context → RegistryState → List String → List String × List String
  reconcile_from removes c g cleaned =
      reconcile_once removes (decoded (serve parse c "" (list_instances "" "") g)) cleaned

  -- What happens at a registry, other than that the status of the instance is set to another one
  -- than "terminated": requests, health passes, failed calls of agents, and restarts.
  pub data Without (id : String) : RegistryState → RegistryState → Type 0 where
    nothing : {g : RegistryState} → Without id g g
    served :
        {g g' : RegistryState} (c : Context) (auth : String) (req : Request)
        → is_revival id req ≡ false
        → g'.instances.seq + 1 < u64_mod
        → Without id g g'
        → Without id g (after g' (serve parse c auth req g'))
    checked :
        {g g' : RegistryState} (saves : String → Bool) (now : Time)
        → Without id g g'
        → Without id g (record g' { nodes = check_nodes_health saves now g'.nodes })
    agent_failed :
        {g g' : RegistryState} (other : String)
        → (other == id) ≡ false
        → Without id g g'
        → Without id g (record g' { instances = provision_failed true other g'.instances })
    restarted : {g g' : RegistryState} → Without id g g' → Without id g (restart g')

  serve-IsOver :
      (id : String) (c : Context) (auth : String) (req : Request) (g : RegistryState)
      → is_revival id req ≡ false
      → g.instances.seq + 1 < u64_mod
      → IsOver id g.instances
      → IsOver id (after g (serve parse c auth req g)).instances
  unfolding serve
  serve-IsOver id c auth req g kept room o =
      let o' = handle-IsOver id c req g kept room o in
      let o'' = unless_refused-IsOver id (refusal_for parse c auth req g) g (handle c req g) o o' in
      elim (Bool-cases (is_unguarded req)) [ inl e ↦ rw e o' | inr e ↦ rw e o'' ]

  restarted-instances :
      (id : String) (g : RegistryState) → IsOver id g.instances → IsOver id (restart g).instances
  unfolding restart
  restarted-instances id g o = restart-IsOver id g.instances o

  Without-IsOver :
      (id : String) {g g' : RegistryState}
      → Without id g g'
      → IsOver id g.instances
      → IsOver id g'.instances
  Without-IsOver id nothing o = o
  Without-IsOver id (served c auth req kept room w) o =
      serve-IsOver id c auth req _ kept room (Without-IsOver id w o)
  Without-IsOver id (checked saves now w) o = Without-IsOver id w o
  Without-IsOver id (agent_failed other ne w) o =
      failed-IsOver id other _ ne (Without-IsOver id w o)
  Without-IsOver id (restarted w) o = restarted-instances id _ (Without-IsOver id w o)

  -- An instance of a registry whose instances are a reachable state is terminated, by a request
  -- that is let pass and whose row is written. From then on requests, health passes, recorded
  -- failures of agents and restarts may follow, as long as none sets the status of the instance to
  -- another one than "terminated", and a number is left in the sequence at each request. Then a
  -- pass of the controller whose request is let pass, and to which the removal of the workspace
  -- succeeds, tries the workspace unless it counted as removed before, and counts it as removed.
  pub workspace_removed_after_termination :
      (id auth : String) (c c' : Context) (g g' : RegistryState) (removes : String → Bool)
      (cleaned : List String)
      → Reaches g.instances
      → Sql.has instance_key id g.instances.instances ≡ true
      → id ≢ ""
      → c.db_ok ≡ true
      → refusal_for parse c auth (terminate id) g ≡ none
      → Without id (after g (serve parse c auth (terminate id) g)) g'
      → refusal_for parse c' "" (list_instances "" "") g' ≡ none
      → removes id ≡ true
      → let (cleaned', tried) = reconcile_from removes c' g' cleaned in
        (is_cleaned id tried ≡ not (is_cleaned id cleaned)) × (is_cleaned id cleaned' ≡ true)
  unfolding reconcile_from
  workspace_removed_after_termination id auth c c' g g' removes cleaned r known named written passes
        w passes' removed =
      (
        ap (λ o. is_cleaned id (reconcile_once removes o cleaned).1) listed
            ∙ reconcile_tries_terminated removes _ cleaned id
            ∙ rw over.over refl,
        ap (λ o. is_cleaned id (reconcile_once removes o cleaned).0) listed
            ∙ reconcile_cleans_terminated removes _ cleaned id
            ∙ rw (removed, over.over) (ground arith),
      )
    where
      ended : IsOver id (after g (serve parse c auth (terminate id) g)).instances
      ended =
          unfold serve handle in
          rw (passes, written)
            (terminated-IsOver id g.nodes.nodes g.instances (Reaches-IsValid r)
              (eq_false id "" named) known)

      over : IsOver id g'.instances
      over = Without-IsOver id w ended

      listed :
          decoded (serve parse c' "" (list_instances "" "") g')
          ≡ some (map instance_of g'.instances.instances)
      listed =
          unfold serve handle Handlers.list_instances in
          rw passes' (ap (λ xs. some (map instance_of xs)) (all_listed g'.instances.instances))
