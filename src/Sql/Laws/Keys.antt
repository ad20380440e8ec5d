-- ===== src/Sql/Laws/Keys.antt =====
-- The statements keep the keys unique.
use tiny_aws.Prelude.{
  String, ◌≡◌, refl, subst, false, List, [], ◌∷◌, ◌++◌, arith, ◌==◌, eq_iff, Bool-cases, inl, inr,
}
use tiny_aws.Sql.{has, upsert, update, remove}
use tiny_aws.Sql.Laws.Find.{has-upsert, has-append, has-update, has-remove}

module _ {ℓ} {R : Type ℓ} (key : R → String) where
  -- No two rows have the same key.
  abbrev pub Unique : List R → Type 0
  Unique [] = Unit
  Unique (r ∷ t) = (has key (key r) t ≡ false) × Unique t

  pub Unique-append :
      (r : R) (t : List R) → has key (key r) t ≡ false → Unique t → Unique (t ++ r ∷ [])
  unfolding has
  Unique-append r [] h u = (refl, tt)
  Unique-append r (x ∷ t) h (ux, u) = (
    ground (arith, has-append key r (key x) t, eq_iff (key x) (key r), eq_iff (key r) (key x)),
    Unique-append r t (ground arith) u,
  )

  pub Unique-upsert : (r : R) (t : List R) → Unique t → Unique (upsert key r t)
  unfolding upsert
  Unique-upsert r [] u = (unfold has in refl, tt)
  Unique-upsert r (x ∷ t) (ux, u) = elim (Bool-cases (key x == key r)) [
    | inl e ↦ rw e (subst (λ k. has key k t ≡ false) ((eq_iff _ _).0 e) ux, u)
    | inr e ↦ rw e (
      rw (has-upsert key r (key x) t)
          (ground (arith, eq_iff (key r) (key x), eq_iff (key x) (key r), ux)),
      Unique-upsert r t u,
    )
  ]

  pub Unique-remove : (k : String) (t : List R) → Unique t → Unique (remove key k t)
  unfolding remove
  Unique-remove k [] u = tt
  Unique-remove k (x ∷ t) (ux, u) = elim (Bool-cases (key x == k)) [
    | inl e ↦ rw e (Unique-remove k t u)
    | inr e ↦ rw e (
      rw (has-remove key k (key x) t) (ground (arith, eq_iff k (key x), ux)),
      Unique-remove k t u,
    )
  ]

  pub Unique-update :
      (k : String) (f : R → R) (t : List R)
      → ((r : R) → key (f r) ≡ key r)
      → Unique t
      → Unique (update key k f t)
  unfolding update
  Unique-update k f [] h u = tt
  Unique-update k f (x ∷ t) h (ux, u) = elim (Bool-cases (key x == k)) [
    | inl e ↦ rw (e, h x, has-update key k (key x) f t h) (ux, Unique-update k f t h u)
    | inr e ↦ rw (e, has-update key k (key x) f t h) (ux, Unique-update k f t h u)
  ]
