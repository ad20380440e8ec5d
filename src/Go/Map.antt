-- ===== src/Go/Map.antt =====
-- A Go map with string keys: a list of its pairs, in the order in which `range` visits them. Go
-- leaves that order open, and theorems hold for every list.
pub mod Order
use mathlib.Core.Option.{none-ne-some, some-injective}
use tiny_aws.Prelude.{
  String, ◌≡◌, refl, Option, none, some, List, [], ◌∷◌, arith, ◌==◌, eq_iff, if◌then◌else◌, All,
  Bool-cases, inl, inr, subst,
}

abbrev pub GoMap {ℓ} : Type ℓ → Type ℓ
GoMap V = List (String × V)

module _ {ℓ} {V : Type ℓ} where
  -- `m[k] = v`
  unfoldable pub insert : String → V → GoMap V → GoMap V
  insert key new [] = (key, new) ∷ []
  insert key new ((k, old) ∷ rest) =
      if k == key then (key, new) ∷ rest else (k, old) ∷ insert key new rest

  -- the values, as `range` visits them
  unfoldable pub values : GoMap V → List V
  values [] = []
  values ((_, v) ∷ rest) = v ∷ values rest

  -- `v, ok := m[k]`
  unfoldable pub lookup : String → GoMap V → Option V
  lookup key [] = none
  lookup key ((k, v) ∷ rest) = if k == key then some v else lookup key rest

  -- `delete(m, k)`
  unfoldable pub delete : String → GoMap V → GoMap V
  delete key [] = []
  delete key ((k, v) ∷ m) = let rest = delete key m in if k == key then rest else (k, v) ∷ rest

  pub lookup-delete :
      (gone key : String) (m : GoMap V)
      → lookup key (delete gone m) ≡ (if gone == key then none else lookup key m)
  unfolding lookup delete
  lookup-delete gone key [] = ground arith
  lookup-delete gone key ((k, v) ∷ rest) =
      ground (arith, eq_iff gone key, lookup-delete gone key rest, eq_iff k gone, eq_iff k key)

  pub lookup-insert :
      (set key : String) (new : V) (m : GoMap V)
      → lookup key (insert set new m) ≡ (if set == key then some new else lookup key m)
  unfolding lookup insert
  lookup-insert set key new ((k, old) ∷ rest) =
      ground (lookup-insert set key new rest, arith, eq_iff k key, eq_iff set key, eq_iff k set)
  lookup-insert set key new [] = refl

module _ {ℓ κ} {V : Type ℓ} (P : String × V → Type κ) where
  pub All-insert : (k : String) (v : V) (m : GoMap V) → P (k, v) → All P m → All P (insert k v m)
  unfolding insert
  All-insert k v [] h hs = (h, tt)
  All-insert k v ((j, w) ∷ m) h (hj, hs) = elim (Bool-cases (j == k)) [
    | inl e ↦ rw e (h, hs)
    | inr e ↦ rw e (hj, All-insert k v m h hs)
  ]

  pub All-lookup : (k : String) (m : GoMap V) {v : V} → All P m → lookup k m ≡ some v → P (k, v)
  unfolding lookup
  All-lookup k [] h e = absurd (none-ne-some _ e)
  All-lookup k ((j, w) ∷ m) {v} (hj, hs) e = elim (Bool-cases (j == k)) [
    | inl t ↦
        subst (λ x. P (x, v)) ((eq_iff j k).0 t)
          (subst (λ x. P (j, x)) (some-injective _ _ (rw t at e)) hj)
    | inr t ↦ All-lookup k m hs (rw t at e)
  ]

module _ {ℓ} {V : Type ℓ} where
  -- A Go map has each key once.
  abbrev pub UniqueKeys : GoMap V → Type ℓ
  UniqueKeys [] = Unit
  UniqueKeys ((k, v) ∷ m) = (lookup k m ≡ none) × UniqueKeys m

  pub insert-UniqueKeys :
      (k : String) (v : V) (m : GoMap V) → UniqueKeys m → UniqueKeys (insert k v m)
  unfolding insert
  insert-UniqueKeys k v [] u = (unfold lookup in refl, tt)
  insert-UniqueKeys k v ((j, w) ∷ m) (fresh, u) = elim (Bool-cases (j == k)) [
    | inl e ↦ rw e (subst (λ x. lookup x m ≡ none) ((eq_iff j k).0 e) fresh, u)
    | inr e ↦ rw e (
      rw (lookup-insert k j v m) (ground (arith, eq_iff j k, eq_iff k j, fresh)),
      insert-UniqueKeys k v m u,
    )
  ]

  pub delete-UniqueKeys : (k : String) (m : GoMap V) → UniqueKeys m → UniqueKeys (delete k m)
  unfolding delete
  delete-UniqueKeys k [] u = tt
  delete-UniqueKeys k ((j, w) ∷ m) (fresh, u) = elim (Bool-cases (j == k)) [
    | inl e ↦ rw e (delete-UniqueKeys k m u)
    | inr e ↦
        rw e (rw (lookup-delete k j m) (ground (arith, eq_iff k j, fresh)), delete-UniqueKeys k m u)
  ]

module _ {ℓ κ} {V : Type ℓ} (P : String × V → Type κ) where
  pub All-delete : (k : String) (m : GoMap V) → All P m → All P (delete k m)
  unfolding delete
  All-delete k [] h = tt
  All-delete k ((j, w) ∷ m) (hj, hs) = elim (Bool-cases (j == k)) [
    | inl e ↦ rw e (All-delete k m hs)
    | inr e ↦ rw e (hj, All-delete k m hs)
  ]
