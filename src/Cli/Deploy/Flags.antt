-- ===== src/Cli/Deploy/Flags.antt =====
-- control-plane/cli/deploy.go: the flags of a deployment are read as they are written.
use mathlib.Core.List.{append_assoc, append-nil}
use tiny_aws.Prelude.{
  ℕ, ◌<◌, ◌^◌, String, Bool, true, false, ◌≡◌, refl, sym, ap, subst, ◌∙◌, none, List, [], ◌∷◌, ◌++◌,
  arith, ◌==◌, eq_iff, if◌then◌else◌, All, Bool-cases, inl, inr,
}
use tiny_aws.Prelude.Int.{pos}
use tiny_aws.Cli.Deploy.{
  Options, no_options, flag_of, switched, valued, env_pair, scanned_port, deploy_flags,
}
use tiny_aws.Go.Bytes.{cut_at}
use tiny_aws.Go.Bytes.Cut.{lacks, cut_at-joined}
use tiny_aws.Go.Errors.{ok}
use tiny_aws.Go.Fmt.{decimal, prefixed}
use tiny_aws.Go.Fmt.RoundTrip.{scan_int-decimal}
use tiny_aws.Go.Map.{GoMap, insert, lookup, UniqueKeys}

-- a pair as a value of `--env`
unfoldable pub env_word : String × String → String
env_word (k, v) = prefixed k (prefixed "=" v)

unfoldable pub env_words : GoMap String → List String
env_words [] = []
env_words ((k, v) ∷ vars) = "--env" ∷ env_word (k, v) ∷ env_words vars

abbrev when : Bool → List String → List String
when b words = if b then words else []

-- The flags that ask for a deployment with a port.
unfoldable pub flags_of : String → Bool → Bool → ℕ → GoMap String → List String
flags_of instance_id wait is_service port vars =
    "--instance"
    ∷ instance_id
    ∷ "--port"
    ∷ decimal port
    ∷ (when wait ("--wait" ∷ []) ++ (when is_service ("--service" ∷ []) ++ env_words vars))

-- a name that `--env` takes
unfoldable pub is_name : String → Bool
is_name k = if k == "" then false else lacks "=" k

lookup-middle :
    (j k : String) (v : String) (before after : GoMap String)
    → lookup j (before ++ (k, v) ∷ after) ≡ none
    → (j == k) ≡ false
unfolding lookup
lookup-middle j k v [] after h = ground (arith, eq_iff k j, eq_iff j k)
lookup-middle j k v ((i, w) ∷ before) after h = elim (Bool-cases (i == j)) [
  | inl e ↦ let p = rw e at h in cc
  | inr e ↦ lookup-middle j k v before after (rw e at h)
]

-- A key comes once.
fresh_key :
    (k v : String) (before after : GoMap String)
    → UniqueKeys (before ++ (k, v) ∷ after)
    → lookup k before ≡ none
unfolding lookup
fresh_key k v [] after u = refl
fresh_key k v ((j, w) ∷ before) after (first, u) =
    rw (lookup-middle j k v before after first) (fresh_key k v before after u)

insert-fresh :
    (k v : String) (m : GoMap String) → lookup k m ≡ none → insert k v m ≡ m ++ (k, v) ∷ []
unfolding lookup insert
insert-fresh k v [] h = refl
insert-fresh k v ((j, w) ∷ m) h = elim (Bool-cases (j == k)) [
  | inl e ↦ let p = rw e at h in cc
  | inr e ↦ rw e (ap (λ rest. (j, w) ∷ rest) (insert-fresh k v m (rw e at h)))
]

name-full : (k : String) → is_name k ≡ true → (k == "") ≡ false
unfolding is_name
name-full k h = ground arith

name-lacks : (k : String) → is_name k ≡ true → lacks "=" k ≡ true
unfolding is_name
name-lacks k h = ground arith

env_pair-env_word :
    (k v : String) (o : Options)
    → is_name k ≡ true
    → lookup k o.env_vars ≡ none
    → env_pair (env_word (k, v)) (cut_at "=" (env_word (k, v))) o
      ≡ ok (record o { env_vars = o.env_vars ++ (k, v) ∷ [] })
unfolding env_word prefixed
env_pair-env_word k v o name fresh = rw (cut_at-joined "=" k v (name-lacks k name)) (
    rw (name-full k name)
      (ap (λ m. ok (record o { env_vars = m })) (insert-fresh k v o.env_vars fresh)))

-- one `--env` with its value
deploy_flags-env :
    (k v : String) (args : List String) (o : Options)
    → is_name k ≡ true
    → lookup k o.env_vars ≡ none
    → deploy_flags none ("--env" ∷ env_word (k, v) ∷ args) (ok o)
      ≡ deploy_flags none args (ok (record o { env_vars = o.env_vars ++ (k, v) ∷ [] }))
unfolding deploy_flags flag_of switched valued
deploy_flags-env k v args o name fresh =
    ap (deploy_flags none args) (env_pair-env_word k v o name fresh)

deploy_flags-env_words :
    (vars : GoMap String) (o : Options)
    → All (λ (k, v). is_name k ≡ true) vars
    → UniqueKeys (o.env_vars ++ vars)
    → deploy_flags none (env_words vars) (ok o) ≡ ok (record o { env_vars = o.env_vars ++ vars })
unfolding env_words deploy_flags
deploy_flags-env_words [] o names u =
    ap (λ m. ok (record o { env_vars = m })) (sym (append-nil o.env_vars))
deploy_flags-env_words ((k, v) ∷ vars) o (name, names) u =
    let longer = o.env_vars ++ (k, v) ∷ [] in
    let same : longer ++ vars ≡ o.env_vars ++ (k, v) ∷ vars = append_assoc o.env_vars _ vars in
    deploy_flags-env k v (env_words vars) o name (fresh_key k v o.env_vars vars u)
    ∙ deploy_flags-env_words vars (record o { env_vars = longer }) names
        (subst UniqueKeys (sym same) u)
    ∙ ap (λ m. ok (record o { env_vars = m })) same

-- The flags of a deployment are read as they are written: its instance, its port, its switches and
-- its variables, for a port that fits an `int` and variables with different names, which are not
-- empty and have no "=".
pub deploy_flags-flags_of :
    (instance_id : String) (wait is_service : Bool) (port : ℕ) (vars : GoMap String)
    → port < 2 ^ 63
    → All (λ (k, v). is_name k ≡ true) vars
    → UniqueKeys vars
    → deploy_flags none (flags_of instance_id wait is_service port vars) (ok no_options)
      ≡ ok (record {
        instance_id = instance_id;
        wait = wait;
        is_service = is_service;
        port = pos port;
        env_vars = vars;
      })
unfolding deploy_flags flag_of switched valued flags_of
deploy_flags-flags_of instance_id wait is_service port vars small names u =
    ap
      (λ n.
        deploy_flags none
          (when wait ("--wait" ∷ []) ++ (when is_service ("--service" ∷ []) ++ env_words vars))
          (ok (record no_options { instance_id = instance_id; port = scanned_port n (pos 0) })))
      (scan_int-decimal port small)
    ∙ after_switches wait is_service
    ∙ deploy_flags-env_words vars (record placed { wait = wait; is_service = is_service }) names u
  where
    placed : Options
    placed = record no_options { instance_id = instance_id; port = pos port }

    after_switches :
        (w s : Bool)
        → deploy_flags none
            (when w ("--wait" ∷ []) ++ (when s ("--service" ∷ []) ++ env_words vars))
            (ok (record no_options { instance_id = instance_id; port = pos port }))
          ≡ deploy_flags none (env_words vars) (
              ok (record no_options {
                instance_id = instance_id;
                wait = w;
                is_service = s;
                port = pos port;
              }))
    after_switches true true = refl
    after_switches true false = refl
    after_switches false true = refl
    after_switches false false = refl
