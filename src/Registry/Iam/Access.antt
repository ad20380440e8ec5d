-- ===== src/Registry/Iam/Access.antt =====
-- control-plane/registry/auth.go and iam.go: what a key allows, and when it stops.
use tiny_aws.Prelude.{
  String, Bool, true, false, not, ◌&&◌, ◌||◌, ◌≡◌, ◌≢◌, refl, ap, ◌∙◌, Option, none, some, ltb,
  List, [], ◌∷◌, arith, ◌==◌, eq_iff, eq_false, if◌then◌else◌, Bool-cases, inl, inr,
}
use tiny_aws.Go.Fmt.{prefixed, strip_prefix}
use tiny_aws.Go.Time.{Time}
use tiny_aws.Go.Http.{status_unauthorized, status_forbidden}
use tiny_aws.Sql
use tiny_aws.Sql.Laws.{find-upsert, find-remove}
use tiny_aws.Registry.Iam.{
  ApiKey, KeyRow, row_key, to_row, handle_iam_key_create, handle_iam_key_delete, is_past,
  is_expired, role_for_key, bearer, is_enforced, is_empty, is_open, refusal, require_auth,
}

bearer-prefixed : (key : String) → (key == "") ≡ false → bearer (prefixed "Bearer " key) ≡ some key
unfolding bearer prefixed strip_prefix
bearer-prefixed key h = rw h

is_empty-find :
    (key : String) (rows : List KeyRow) {r : KeyRow}
    → Sql.find row_key key rows ≡ some r
    → is_empty rows ≡ false
unfolding Sql.find
is_empty-find key [] e = cc
is_empty-find key (x ∷ rows) e = refl

is_not_env : (key env : String) → key ≢ env → (not (env == "") && key == env) ≡ false
is_not_env key env h = rw (eq_false key env h) (and_false (not (env == "")))
  where
    and_false : (b : Bool) → (b && false) ≡ false
    and_false true = refl
    and_false false = refl

or_true : (b : Bool) → (b || true) ≡ true
or_true true = refl
or_true false = refl

module _ (parse : String → Option Time) (now : Time) where
  -- With a key of the table that has the role "readonly", and is not the key of the environment, a
  -- request with another method than GET, that is not one of the three open ones, is refused: 401
  -- if the key has expired, and 403 otherwise.
  pub readonly_cannot_mutate :
      (env key method path : String) (rows : List KeyRow) (r : KeyRow)
      → Sql.find row_key key rows ≡ some r
      → r.role ≡ "readonly"
      → key ≢ ""
      → key ≢ env
      → method ≢ "GET"
      → is_open method path ≡ false
      → require_auth parse now true true env method path (prefixed "Bearer " key) rows
        ≡ some (
            if is_expired parse now r.expires_at
            then (status_unauthorized, "unauthorized")
            else (status_forbidden, "forbidden"))
  unfolding require_auth is_enforced role_for_key refusal
  readonly_cannot_mutate env key method path rows r found role named other mutates closed =
      rw
        (
          is_empty-find key rows found,
          bearer-prefixed key (eq_false key "" named),
          closed,
          found,
          is_not_env key env other,
          role,
          eq_false method "GET" mutates,
          or_true (not (env == "")),
        )
        (elim (Bool-cases (is_expired parse now r.expires_at)) [ inl e ↦ rw e | inr e ↦ rw e ])

  -- the time is over
  abbrev is_before : Option Time → Bool
  is_before none = false
  is_before (some t) = ltb t now

  is_past-before : (o : Option Time) → is_past parse now o ≡ is_before o
  is_past-before none = refl
  is_past-before (some t) = refl

  is_expired-stored :
      (k : ApiKey)
      → is_expired parse now (to_row k).expires_at
        ≡ (not (k.expires_at == "") && is_before (parse k.expires_at))
  unfolding is_expired to_row
  is_expired-stored k = elim (Bool-cases (k.expires_at == "")) [
    | inl e ↦ rw e refl
    | inr e ↦ rw e (rw e (is_past-before (parse k.expires_at)))
  ]

  -- A key that is created with a role, and is not the key of the environment: from then on its role
  -- is that role, unless its expiry is a time that has passed (a text that is no time never does),
  -- and the roles of all other keys are as before.
  pub created_key_has_role :
      (env key : String) (k : ApiKey) (rows : List KeyRow)
      → k.key ≢ ""
      → (k.role == "admin" || k.role == "readonly") ≡ true
      → k.key ≢ env
      → let rows' = (handle_iam_key_create true (some k) rows).0 in
        role_for_key parse now true env key rows' ≡ (
          if k.key == key
          then (if not (k.expires_at == "") && is_before (parse k.expires_at) then "" else k.role)
          else role_for_key parse now true env key rows)
  unfolding handle_iam_key_create role_for_key Sql.exec to_row
  created_key_has_role env key k rows named role other =
      rw (eq_false k.key "" named, create_guard, find-upsert row_key (to_row k) key rows)
        (elim (Bool-cases (k.key == key)) [
          | inl e ↦
              let same = (eq_iff k.key key).0 e in
              rw (e, is_not_env key env (λ p. other (same ∙ p)))
                (ap (λ b. if b then "" else k.role) (is_expired-stored k))
          | inr e ↦ rw e
        ])
    where
      create_guard : (not (k.role == "admin") && not (k.role == "readonly")) ≡ false
      create_guard = ground arith

  -- A key that is deleted, and is not the key of the environment, has no role; all other keys keep
  -- theirs.
  pub deleted_key_has_no_role :
      (env gone key : String) (rows : List KeyRow)
      → gone ≢ ""
      → gone ≢ env
      → let rows' = (handle_iam_key_delete true gone rows).0 in
        role_for_key parse now true env key rows'
        ≡ (if gone == key then "" else role_for_key parse now true env key rows)
  unfolding handle_iam_key_delete role_for_key Sql.exec
  deleted_key_has_no_role env gone key rows named other =
      rw (eq_false gone "" named, find-remove row_key gone key rows)
        (elim (Bool-cases (gone == key)) [
          | inl e ↦ rw (e, is_not_env key env (λ p. other ((eq_iff gone key).0 e ∙ p)))
          | inr e ↦ rw e
        ])
