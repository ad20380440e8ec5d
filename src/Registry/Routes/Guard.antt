-- ===== src/Registry/Routes/Guard.antt =====
-- control-plane/registry/main.go and auth.go: what a key of the environment guards.
use tiny_aws.Prelude.{
  String, Bool, true, false, ◌≡◌, ◌≢◌, refl, ◌∙◌, Option, none, some, [], ◌==◌, eq_false,
  if◌then◌else◌, arith, Bool-cases, inl, inr,
}
use tiny_aws.Go.Fmt.{prefixed, strip_prefix}
use tiny_aws.Go.Fmt.RoundTrip.{prefixed-other}
use tiny_aws.Go.Time.{Time}
use tiny_aws.Go.Http.{error, status_unauthorized, status_forbidden}
use tiny_aws.Sql
use tiny_aws.Registry.Iam.{KeyRow, row_key, is_expired, bearer, is_enforced, is_open, require_auth}
use tiny_aws.Registry.Iam.Access.{readonly_cannot_mutate}
use tiny_aws.Registry.Routes.{
  RegistryState, Request, health, list_nodes, register, heartbeat, remove_node, list_instances,
  launch, get_instance, patch_instance, terminate, create_key, delete_key, list_keys,
  create_service, list_services, get_service, patch_service, stop_service, method_of, path_of,
  Context, handle, is_unguarded, refusal_for, serve,
}

-- the requests that need no key: the health check, and those by which agents join and stay
unfoldable pub needs_no_key : Request → Bool
needs_no_key health = true
needs_no_key (list_nodes role) = false
needs_no_key (register body) = true
needs_no_key (heartbeat body) = true
needs_no_key (remove_node id) = false
needs_no_key (list_instances node status) = false
needs_no_key (launch instance_type) = false
needs_no_key (get_instance id) = false
needs_no_key (patch_instance id status) = false
needs_no_key (terminate id) = false
needs_no_key (create_key body) = false
needs_no_key (delete_key key) = false
needs_no_key list_keys = false
needs_no_key (create_service body) = false
needs_no_key (list_services node status) = false
needs_no_key (get_service id) = false
needs_no_key (patch_service id status) = false
needs_no_key (stop_service id) = false

closed :
    (method path : String)
    → (path == "/health") ≡ false
    → (method == "POST") ≡ false
    → is_open method path ≡ false
unfolding is_open
closed method path h m = ground arith

is_open-request : (req : Request) → is_open (method_of req) (path_of req) ≡ needs_no_key req
unfolding method_of path_of needs_no_key
is_open-request health = unfold is_open in refl
is_open-request (list_nodes role) = unfold is_open in refl
is_open-request (register body) = unfold is_open in refl
is_open-request (heartbeat body) = unfold is_open in refl
is_open-request (remove_node id) =
    closed _ _ (prefixed-other "/nodes/" id "/health" (unfold strip_prefix in refl)) refl
is_open-request (list_instances node status) = unfold is_open in refl
is_open-request (launch instance_type) = unfold is_open in refl
is_open-request (get_instance id) =
    closed _ _ (prefixed-other "/instances/" id "/health" (unfold strip_prefix in refl)) refl
is_open-request (patch_instance id status) =
    closed _ _ (prefixed-other "/instances/" id "/health" (unfold strip_prefix in refl)) refl
is_open-request (terminate id) =
    closed _ _ (prefixed-other "/instances/" id "/health" (unfold strip_prefix in refl)) refl
is_open-request (create_key body) = unfold is_open in refl
is_open-request (delete_key key) =
    closed _ _ (prefixed-other "/iam/keys/" key "/health" (unfold strip_prefix in refl)) refl
is_open-request list_keys = unfold is_open in refl
is_open-request (create_service body) = unfold is_open in refl
is_open-request (list_services node status) = unfold is_open in refl
is_open-request (get_service id) =
    closed _ _ (prefixed-other "/services/" id "/health" (unfold strip_prefix in refl)) refl
is_open-request (patch_service id status) =
    closed _ _ (prefixed-other "/services/" id "/health" (unfold strip_prefix in refl)) refl
is_open-request (stop_service id) =
    closed _ _ (prefixed-other "/services/" id "/health" (unfold strip_prefix in refl)) refl

unguarded_needs_none : (req : Request) → is_unguarded req ≡ true → needs_no_key req ≡ true
unfolding needs_no_key
unguarded_needs_none health u = refl
unguarded_needs_none req u = cc

module _ (parse : String → Option Time) where
  -- With a key in the environment, a request whose header carries no key is served if it needs
  -- none; every other one is answered 401 and changes nothing.
  pub serve_without_key :
      (c : Context) (auth : String) (req : Request) (g : RegistryState)
      → c.api_key ≢ ""
      → bearer auth ≡ none
      → serve parse c auth req g ≡ (
          if needs_no_key req
          then handle c req g
          else some (g, error status_unauthorized "unauthorized", []))
  unfolding serve refusal_for require_auth is_enforced
  serve_without_key c auth req g keyed bare =
      rw (eq_false c.api_key "" keyed, is_open-request req, bare)
        (elim (Bool-cases (is_unguarded req)) [
          | inl u ↦ rw (u, unguarded_needs_none req u) refl
          | inr u ↦ elim (Bool-cases (needs_no_key req)) [
            | inl e ↦ rw (u, e) refl
            | inr e ↦ rw (u, e) refl
          ]
        ])

  -- With a key of the table that has the role "readonly", and is not the key of the environment,
  -- every request with another method than GET, but the registration and the heartbeat of an agent,
  -- is refused and changes nothing: it is answered 401 if the key has expired, and 403 otherwise.
  pub readonly_changes_nothing :
      (c : Context) (key : String) (req : Request) (g : RegistryState) (r : KeyRow)
      → c.count_ok ≡ true
      → c.key_ok ≡ true
      → Sql.find row_key key g.keys ≡ some r
      → r.role ≡ "readonly"
      → key ≢ ""
      → key ≢ c.api_key
      → method_of req ≢ "GET"
      → needs_no_key req ≡ false
      → serve parse c (prefixed "Bearer " key) req g
        ≡ some (
          g,
          if is_expired parse c.now r.expires_at
              then error status_unauthorized "unauthorized"
              else error status_forbidden "forbidden",
          [],
        )
  unfolding serve refusal_for
  readonly_changes_nothing c key req g r counted looked found role named other mutates closed_path =
      simp
        (
          counted,
          looked,
          readonly_cannot_mutate parse c.now c.api_key key (method_of req) (path_of req) g.keys r
              found role named other mutates (is_open-request req ∙ closed_path),
          guarded,
        )
        (elim (Bool-cases (is_expired parse c.now r.expires_at)) [
          | inl e ↦ rw e refl
          | inr e ↦ rw e refl
        ])
    where
      guarded : is_unguarded req ≡ false
      guarded = elim (Bool-cases (is_unguarded req)) [
        | inl u ↦ let p = unguarded_needs_none req u in cc
        | inr u ↦ u
      ]
