-- ===== src/Sql/Laws/Rows.antt =====
-- What the statements do to the rows, and what holds of all of them.
use mathlib.Core.Option
use tiny_aws.Prelude.{
  String, ◌≡◌, refl, subst, Bool, true, false, none, some, List, [], ◌∷◌, ◌++◌, map, arith, ◌==◌,
  eq_iff, eq_refl, All, ne_of_eq_false, ◌≢◌, Bool-cases, Option-cases, inl, inr,
}
use mathlib.Core.Option.{none-ne-some, some-injective}
use tiny_aws.Sql.{exec, has, upsert, update, remove, select_first, last_row}

module _ {ℓ} {R : Type ℓ} (key : R → String) where
  pub All-upsert {κ} :
      (P : R → Type κ) (r : R) (t : List R) → P r → All P t → All P (upsert key r t)
  unfolding upsert
  All-upsert P r [] h hs = (h, tt)
  All-upsert P r (x ∷ t) h (hx, hs) = elim (Bool-cases (key x == key r)) [
    | inl e ↦ rw e (h, hs)
    | inr e ↦ rw e (hx, All-upsert P r t h hs)
  ]

  pub All-remove {κ} : (P : R → Type κ) (k : String) (t : List R) → All P t → All P (remove key k t)
  unfolding remove
  All-remove P k [] h = tt
  All-remove P k (x ∷ t) (hx, h) = elim (Bool-cases (key x == k)) [
    | inl e ↦ rw e (All-remove P k t h)
    | inr e ↦ rw e (hx, All-remove P k t h)
  ]

  pub All-update {κ} :
      (P : R → Type κ) (k : String) (f : R → R) (t : List R)
      → ((r : R) → P r → key r ≡ k → P (f r))
      → All P t
      → All P (update key k f t)
  unfolding update
  All-update P k f [] step h = tt
  All-update P k f (x ∷ t) step (px, h) = elim (Bool-cases (key x == k)) [
    | inl e ↦ rw e (step x px ((eq_iff _ _).0 e), All-update P k f t step h)
    | inr e ↦ rw e (px, All-update P k f t step h)
  ]

  -- What holds of the updated rows of the key, and of every other row, holds throughout.
  pub All-update_each {κ} :
      (P : R → Type κ) (k : String) (f : R → R) (t : List R)
      → ((r : R) → key r ≡ k → P (f r))
      → ((r : R) → key r ≢ k → P r)
      → All P (update key k f t)
  unfolding update
  All-update_each P k f [] hit miss = tt
  All-update_each P k f (x ∷ t) hit miss = elim (Bool-cases (key x == k)) [
    | inl e ↦ rw e (hit x ((eq_iff _ _).0 e), All-update_each P k f t hit miss)
    | inr e ↦ rw e (miss x (ne_of_eq_false _ _ e), All-update_each P k f t hit miss)
  ]

  -- A column that an update leaves alone reads the same, row by row.
  pub map-update {κ} :
      {B : Type κ} (g : R → B) (k : String) (f : R → R) (t : List R)
      → ((r : R) → g (f r) ≡ g r)
      → map g (update key k f t) ≡ map g t
  unfolding update
  map-update g k f [] h = refl
  map-update g k f (x ∷ t) h = elim (Bool-cases (key x == k)) [
    | inl e ↦ rw (e, h x, map-update g k f t h)
    | inr e ↦ rw (e, map-update g k f t h)
  ]

  -- An update of a key that no row has changes nothing.
  pub update-absent :
      (k : String) (f : R → R) (t : List R) → has key k t ≡ false → update key k f t ≡ t
  unfolding has update
  update-absent k f [] h = refl
  update-absent k f (x ∷ t) h = elim (Bool-cases (key x == k)) [
    | inl e ↦ let p = rw e at h in cc
    | inr e ↦ rw (e, update-absent k f t (rw e at h))
  ]

  pub update-head :
      (r : R) (f : R → R) (t : List R)
      → has key (key r) t ≡ false
      → update key (key r) f (r ∷ t) ≡ f r ∷ t
  unfolding update
  update-head r f t h = rw (eq_refl (key r), update-absent (key r) f t h)

-- What holds of the table before and after a statement holds whether or not it is carried out.
pub exec-keeps {ℓ κ} :
    {T : Type ℓ} (P : T → Type κ) (ok : Bool) (t' t : T) → P t → P t' → P (exec ok (some t') t).0
unfolding exec
exec-keeps P true t' t h h' = h'
exec-keeps P false t' t h h' = h

pub exec-none {ℓ} : {T : Type ℓ} (ok : Bool) (t : T) → exec ok none t ≡ (t, false)
unfolding exec
exec-none true t = refl
exec-none false t = refl

-- The row that `LIMIT 1` picks: the first that passes the test.
pub select_first_lem {ℓ} :
    {R : Type ℓ} (p : R → Bool) (before : List R) (r : R) (after : List R)
    → All (λ x. p x ≡ false) before
    → p r ≡ true
    → select_first p (before ++ r ∷ after) ≡ some r
unfolding select_first
select_first_lem p [] r after h e = rw e
select_first_lem p (x ∷ before) r after (hx, h) e = rw hx (select_first_lem p before r after h e)

pub select_first-test {ℓ} :
    {R : Type ℓ} (p : R → Bool) (t : List R) {r : R} → select_first p t ≡ some r → p r ≡ true
unfolding select_first
select_first-test p [] e = cc
select_first-test p (x ∷ t) {r} e = ground (arith, select_first-test p t {r = r})

pub All-select_first {ℓ κ} :
    {R : Type ℓ} (P : R → Type κ) (p : R → Bool) (t : List R) {r : R}
    → All P t
    → select_first p t ≡ some r
    → P r
unfolding select_first
All-select_first P p [] h e = absurd (none-ne-some _ e)
All-select_first P p (x ∷ t) {r} (px, h) e = elim (Bool-cases (p x)) [
  | inl q ↦ subst P (some-injective _ _ (rw q at e)) px
  | inr q ↦ All-select_first P p t h (rw q at e)
]

pub last_row-map {ℓ κ} :
    {R : Type ℓ} {B : Type κ} (g : R → B) (t : List R)
    → last_row (map g t) ≡ Option.map g (last_row t)
unfolding last_row
last_row-map g [] = refl
last_row-map g (x ∷ t) = elim (Option-cases (last_row t)) [
  | inl e ↦ rw (last_row-map g t, e)
  | inr (r, e) ↦ rw (last_row-map g t, e)
]

pub last_row-append {ℓ} : {R : Type ℓ} (t : List R) (r : R) → last_row (t ++ r ∷ []) ≡ some r
unfolding last_row
last_row-append [] r = refl
last_row-append (x ∷ t) r = rw (last_row-append t r)
