-- ===== src/Sql/Laws/Find.antt =====
-- How a row is found after each statement.
use mathlib.Core.Option
use tiny_aws.Prelude.{
  String, ◌≡◌, refl, ap, Bool, true, false, none, some, List, [], ◌∷◌, ◌++◌, arith, ◌==◌, eq_iff,
  eq_refl, if◌then◌else◌, Bool-cases, inl, inr,
}
use mathlib.Core.Option.{none-ne-some, some-injective}
use tiny_aws.Sql.{find, has, insert, upsert, update, remove, select_first}

module _ {ℓ} {R : Type ℓ} (key : R → String) where
  pub find-upsert :
      (r : R) (j : String) (t : List R)
      → find key j (upsert key r t) ≡ (if key r == j then some r else find key j t)
  unfolding find upsert
  find-upsert r j [] = refl
  find-upsert r j (x ∷ t) =
      ground (arith, eq_iff (key r) j, eq_iff (key x) (key r), eq_iff (key x) j, find-upsert r j t)

  pub has-upsert :
      (r : R) (j : String) (t : List R)
      → has key j (upsert key r t) ≡ (if key r == j then true else has key j t)
  unfolding has upsert
  has-upsert r j [] = refl
  has-upsert r j (x ∷ t) =
      ground (arith, eq_iff (key r) j, eq_iff (key x) (key r), eq_iff (key x) j, has-upsert r j t)

  pub find-remove :
      (k j : String) (t : List R)
      → find key j (remove key k t) ≡ (if k == j then none else find key j t)
  unfolding find remove
  find-remove k j [] = ground arith
  find-remove k j (x ∷ t) =
      ground (arith, find-remove k j t, eq_iff (key x) k, eq_iff (key x) j, eq_iff k j)

  pub has-remove :
      (k j : String) (t : List R)
      → has key j (remove key k t) ≡ (if k == j then false else has key j t)
  unfolding has remove
  has-remove k j [] = ground arith
  has-remove k j (x ∷ t) =
      ground (arith, has-remove k j t, eq_iff (key x) k, eq_iff (key x) j, eq_iff k j)

  pub find-absent : (k : String) (t : List R) → has key k t ≡ false → find key k t ≡ none
  unfolding find has
  find-absent k [] h = refl
  find-absent k (x ∷ t) h = ground (arith, find-absent k t)

  pub insert-new :
      (r : R) (t : List R) → has key (key r) t ≡ false → insert key r t ≡ some (t ++ r ∷ [])
  unfolding insert
  insert-new r t h = rw h

  pub insert-dup : (r : R) (t : List R) → has key (key r) t ≡ true → insert key r t ≡ none
  unfolding insert
  insert-dup r t h = rw h

  pub find-append :
      (r : R) (j : String) (t : List R)
      → has key j t ≡ false
      → find key j (t ++ r ∷ []) ≡ (if key r == j then some r else none)
  unfolding find has
  find-append r j [] h = refl
  find-append r j (x ∷ t) h = ground (arith, find-append r j t)

  pub has-append :
      (r : R) (j : String) (t : List R)
      → has key j (t ++ r ∷ []) ≡ (if key r == j then true else has key j t)
  unfolding has
  has-append r j [] = refl
  has-append r j (x ∷ t) = ground (arith, has-append r j t)

  -- The deletion of a new row leaves the rows that there were.
  pub remove-append :
      (r : R) (t : List R) → has key (key r) t ≡ false → remove key (key r) (t ++ r ∷ []) ≡ t
  unfolding has remove
  remove-append r [] h = rw (eq_refl (key r)) refl
  remove-append r (x ∷ t) h = elim (Bool-cases (key x == key r)) [
    | inl e ↦ let p = rw e at h in cc
    | inr e ↦ rw e (ap (λ rest. x ∷ rest) (remove-append r t (rw e at h)))
  ]

  -- An update that keeps the key touches only the rows of its key.
  pub has-update :
      (k j : String) (f : R → R) (t : List R)
      → ((r : R) → key (f r) ≡ key r)
      → has key j (update key k f t) ≡ has key j t
  unfolding has update
  has-update k j f [] h = refl
  has-update k j f (x ∷ t) h = ground (arith, h x, has-update k j f t h)

  pub find-update :
      (k j : String) (f : R → R) (t : List R)
      → ((r : R) → key (f r) ≡ key r)
      → find key j (update key k f t)
        ≡ (if k == j then Option.map f (find key j t) else find key j t)
  unfolding find update
  find-update k j f [] h = ground arith
  find-update k j f (x ∷ t) h =
      ground (arith, h x, eq_iff (key x) k, eq_iff (key x) j, eq_iff k j, find-update k j f t h)

  pub has-select_first :
      (p : R → Bool) (t : List R) {r : R} → select_first p t ≡ some r → has key (key r) t ≡ true
  unfolding has select_first
  has-select_first p [] e = absurd (none-ne-some _ e)
  has-select_first p (x ∷ t) {r} e = elim (Bool-cases (p x)) [
    | inl q ↦ rw (eq_of_row (some-injective _ _ (rw q at e))) refl
    | inr q ↦ ground (arith, has-select_first p t {r = r} (rw q at e))
  ]
    where
      eq_of_row : x ≡ r → (key x == key r) ≡ true
      eq_of_row same = rw same (eq_refl (key r))
