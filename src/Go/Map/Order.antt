-- ===== src/Go/Map/Order.antt =====
-- What a `range` loop over a Go map visits, whatever the order: the same values, as often.
use mathlib.Core.Option.{none-ne-some, some-injective}
use mathlib.Core.List.{Permᴰ}
use mathlib.Core.List.Permᴰ
use tiny_aws.Prelude.{
  suc, String, Bool, ◌≡◌, refl, sym, ap, ◌∙◌, subst, none, some, List, [], ◌∷◌, ◌==◌, eq_iff,
  eq_refl, Bool-cases, inl, inr, select, length,
}
use tiny_aws.Go.Map.{delete-UniqueKeys, GoMap, lookup, delete, values, lookup-delete, UniqueKeys}

module _ {ℓ} {V : Type ℓ} where
  -- Two lists of pairs are one map.
  abbrev pub IsSameMap : GoMap V → GoMap V → Type ℓ
  IsSameMap m m' = (k : String) → lookup k m ≡ lookup k m'

  delete-absent : (k : String) (m : GoMap V) → lookup k m ≡ none → delete k m ≡ m
  unfolding lookup delete
  delete-absent k [] h = refl
  delete-absent k ((j, w) ∷ m) h = elim (Bool-cases (j == k)) [
    | inl e ↦ let p = rw e at h in cc
    | inr e ↦ rw e (ap (λ rest. (j, w) ∷ rest) (delete-absent k m (rw e at h)))
  ]

  -- The value of a key comes once, beside those of the other keys.
  values-delete :
      (k : String) (m : GoMap V) {v : V}
      → UniqueKeys m
      → lookup k m ≡ some v
      → Permᴰ (values m) (v ∷ values (delete k m))
  unfolding lookup delete values
  values-delete k [] u h = absurd (none-ne-some _ h)
  values-delete k ((j, w) ∷ m) {v} (fresh, u) h = elim (Bool-cases (j == k)) [
    | inl e ↦ rw e (
        Permᴰ.cons (some-injective _ _ (rw e at h)) (
          subst (λ rest. Permᴰ (values m) (values rest))
            (sym (delete-absent k m (subst (λ x. lookup x m ≡ none) ((eq_iff j k).0 e) fresh)))
            (Permᴰ.refl (values m))))
    | inr e ↦
        rw e
          (Permᴰ.trans (Permᴰ.cons refl (values-delete k m u (rw e at h))) (Permᴰ.swap refl refl))
  ]

  only_empty : (m : GoMap V) → IsSameMap [] m → m ≡ []
  unfolding lookup
  only_empty [] same = refl
  only_empty ((j, w) ∷ m) same = absurd (none-ne-some w (same j ∙ rw (eq_refl j) refl))

  pub values-Perm :
      (m m' : GoMap V)
      → UniqueKeys m
      → UniqueKeys m'
      → IsSameMap m m'
      → Permᴰ (values m) (values m')
  unfolding lookup values
  values-Perm [] m' u u' same =
      subst (λ x. Permᴰ [] (values x)) (sym (only_empty m' same)) Permᴰ.nil
  values-Perm ((k, v) ∷ m) m' (fresh, u) u' same =
      Permᴰ.trans (Permᴰ.cons refl (values-Perm m (delete k m') u (delete-UniqueKeys k m' u') rest))
        (Permᴰ.symm (values-delete k m' u' (sym (same k) ∙ rw (eq_refl k) refl)))
    where
      rest : IsSameMap m (delete k m')
      rest j = elim (Bool-cases (k == j)) [
        | inl e ↦
            subst (λ x. lookup x m ≡ none) ((eq_iff k j).0 e) fresh
            ∙ sym (lookup-delete k j m' ∙ rw e refl)
        | inr e ↦ (rw e at (same j)) ∙ sym (lookup-delete k j m' ∙ rw e refl)
      ]

module _ {ℓ} {A : Type ℓ} where
  kept :
      (p : A → Bool) (a : A) (xs ys : List A)
      → Permᴰ (select p xs) (select p ys)
      → Permᴰ (select p (a ∷ xs)) (select p (a ∷ ys))
  unfolding select
  kept p a xs ys h = elim (Bool-cases (p a)) [ inl e ↦ rw e (Permᴰ.cons refl h) | inr e ↦ rw e h ]

  swapped :
      (p : A → Bool) (a b : A) (xs : List A) → Permᴰ (select p (a ∷ b ∷ xs)) (select p (b ∷ a ∷ xs))
  unfolding select
  swapped p a b xs = elim (Bool-cases (p a)) [
    | inl e ↦ elim (Bool-cases (p b)) [
      | inl f ↦ rw e (rw f (Permᴰ.swap refl refl))
      | inr f ↦ rw e (rw f (Permᴰ.refl _))
    ]
    | inr e ↦ rw e (Permᴰ.refl _)
  ]

  -- A loop that keeps elements keeps them in any order.
  pub select-Perm :
      (p : A → Bool) {xs ys : List A} → Permᴰ xs ys → Permᴰ (select p xs) (select p ys)
  unfolding select
  select-Perm p Permᴰ.nil = Permᴰ.nil
  select-Perm p (Permᴰ.cons {a} {b} {l₁ = xs} {l₂ = ys} e h) =
      subst (λ z. Permᴰ (select p (a ∷ xs)) (select p (z ∷ ys))) e
        (kept p a xs ys (select-Perm p h))
  select-Perm p (Permᴰ.swap {a} {b} {a' = c} {b' = d} {l = xs} e f) =
      subst (λ z. Permᴰ (select p (a ∷ b ∷ xs)) (select p (z ∷ d ∷ xs))) f
        (subst (λ z. Permᴰ (select p (a ∷ b ∷ xs)) (select p (b ∷ z ∷ xs))) e (swapped p a b xs))
  select-Perm p (Permᴰ.trans h h') = Permᴰ.trans (select-Perm p h) (select-Perm p h')

  pub length-Perm : {xs ys : List A} → Permᴰ xs ys → length xs ≡ length ys
  length-Perm Permᴰ.nil = refl
  length-Perm (Permᴰ.cons e h) = ap suc (length-Perm h)
  length-Perm (Permᴰ.swap e f) = refl
  length-Perm (Permᴰ.trans h h') = length-Perm h ∙ length-Perm h'
