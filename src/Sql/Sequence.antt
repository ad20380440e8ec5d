-- ===== src/Sql/Sequence.antt =====
-- Tables whose keys are a prefix and a number that a sequence gave out.
use mathlib.Core.Option
use tiny_aws.Prelude.{
  ℕ, ◌+◌, ◌≤◌, ◌<◌, String, ◌≡◌, refl, sym, ap, ◌∙◌, ◌++◌, false, none, some, List, [], ◌∷◌, arith,
  eq_false, All, All-append, ◌==◌, Bool-cases, inl, inr,
}
use tiny_aws.Go.Fmt.{u64_mod, format_id, scan_id}
use tiny_aws.Go.Fmt.RoundTrip.{scan_id-format_id, format_id-injective}
use tiny_aws.Sql.{find, upsert, has, insert, update, last_row, load_seq, scan_last}
use tiny_aws.Sql.Laws.{
  Unique, find-absent, Unique-append, Unique-update, All-update, map-update, last_row-map,
  last_row-append,
}

module _ {ℓ} {R : Type ℓ} (prefix : String) (key : R → String) where
  -- The key is that of a number up to `n`.
  abbrev pub IsNumbered : ℕ → R → Type 0
  IsNumbered n r = (k : ℕ) × (key r ≡ format_id prefix k) × (k ≤ n)

  -- Keys are unique, those of numbers up to `n`, and the last row has the greatest.
  pub record IsSequenced (n : ℕ) (t : List R) : Type ℓ where
    pub unique : Unique key t
    pub given : All (IsNumbered n) t
    pub last : All (IsNumbered (load_seq prefix key t)) t
    pub bounded : load_seq prefix key t ≤ n
    pub in_range : n < u64_mod

  pub IsNumbered-mono :
      {n n' : ℕ} (t : List R) → n ≤ n' → All (IsNumbered n) t → All (IsNumbered n') t
  IsNumbered-mono [] le h = tt
  IsNumbered-mono (r ∷ t) le ((k, e, b), h) = ((k, e, omega arith), IsNumbered-mono t le h)

  -- A number that was not given out is no key.
  pub has-fresh :
      (n k : ℕ) (t : List R) → All (IsNumbered n) t → n < k → has key (format_id prefix k) t ≡ false
  unfolding has
  has-fresh n k [] h lt = refl
  has-fresh n k (r ∷ t) ((j, e, b), h) lt =
      rw
        (eq_false (key r) (format_id prefix k)
          (λ p. let q = format_id-injective prefix j k (sym e ∙ p) in absurd (omega arith)))
        (has-fresh n k t h lt)

  load_seq-update :
      (k : String) (f : R → R) (t : List R)
      → ((r : R) → key (f r) ≡ key r)
      → load_seq prefix key (update key k f t) ≡ load_seq prefix key t
  unfolding load_seq
  load_seq-update k f t same = ap (scan_last prefix) (
      sym (last_row-map key (update key k f t))
      ∙ ap last_row (map-update key key k f t same)
      ∙ last_row-map key t)

  pub load_seq-append :
      (t : List R) (r : R) (k : ℕ)
      → key r ≡ format_id prefix k
      → k < u64_mod
      → load_seq prefix key (t ++ r ∷ []) ≡ k
  unfolding load_seq
  load_seq-append t r k e h =
      ap (λ o. scan_last prefix (Option.map key o)) (last_row-append t r)
      ∙ ap (scan_id prefix) e
      ∙ scan_id-format_id prefix k h

  pub update-IsSequenced :
      (n : ℕ) (k : String) (f : R → R) (t : List R)
      → ((r : R) → key (f r) ≡ key r)
      → IsSequenced n t
      → IsSequenced n (update key k f t)
  update-IsSequenced n k f t same v = record {
    unique = Unique-update key k f t same v.unique;
    given = renumber n v.given;
    last = rw (load_seq-update k f t same) (renumber (load_seq prefix key t) v.last);
    bounded = rw (load_seq-update k f t same) v.bounded;
    in_range = v.in_range;
  }
    where
      renumber : (b : ℕ) → All (IsNumbered b) t → All (IsNumbered b) (update key k f t)
      renumber b = All-update key (IsNumbered b) k f t (λ r (j, e, le) at. (j, same r ∙ e, le))

  -- The next number is free: the row is inserted, and the table stays in order.
  pub insert_next :
      (n : ℕ) (r : R) (t : List R)
      → IsSequenced n t
      → key r ≡ format_id prefix (n + 1)
      → insert key r t ≡ some (t ++ r ∷ [])
  unfolding insert
  insert_next n r t v e = rw (ap (λ k. has key k t) e ∙ has-fresh n (n + 1) t v.given (omega arith))

  upsert-fresh : (r : R) (t : List R) → has key (key r) t ≡ false → upsert key r t ≡ t ++ r ∷ []
  unfolding upsert has
  upsert-fresh r [] h = refl
  upsert-fresh r (x ∷ t) h = elim (Bool-cases (key x == key r)) [
    | inl e ↦ let p = rw e at h in cc
    | inr e ↦ rw (e, upsert-fresh r t (rw e at h))
  ]

  pub upsert_next :
      (n : ℕ) (r : R) (t : List R)
      → IsSequenced n t
      → key r ≡ format_id prefix (n + 1)
      → upsert key r t ≡ t ++ r ∷ []
  upsert_next n r t v e =
      upsert-fresh r t (ap (λ k. has key k t) e ∙ has-fresh n (n + 1) t v.given (omega arith))

  -- The next number is that of no row.
  pub find_next :
      (n : ℕ) (t : List R) → IsSequenced n t → find key (format_id prefix (n + 1)) t ≡ none
  find_next n t v = find-absent key _ t (has-fresh n (n + 1) t v.given (omega arith))

  pub append-IsSequenced :
      (n : ℕ) (r : R) (t : List R)
      → IsSequenced n t
      → key r ≡ format_id prefix (n + 1)
      → n + 1 < u64_mod
      → IsSequenced (n + 1) (t ++ r ∷ [])
  append-IsSequenced n r t v e h = record {
    unique =
        Unique-append key r t
          (ap (λ k. has key k t) e ∙ has-fresh n (n + 1) t v.given (omega arith)) v.unique;
    given = grown;
    last = rw (load_seq-append t r (n + 1) e h) grown;
    bounded = rw (load_seq-append t r (n + 1) e h) (omega arith);
    in_range = h;
  }
    where
      grown : All (IsNumbered (n + 1)) (t ++ r ∷ [])
      grown =
          All-append (IsNumbered (n + 1)) t (r ∷ []) (IsNumbered-mono t (omega arith) v.given)
            ((n + 1, e, omega arith), tt)

  -- A number may be given out to a row that is not stored.
  pub skip-IsSequenced :
      (n : ℕ) (t : List R) → IsSequenced n t → n + 1 < u64_mod → IsSequenced (n + 1) t
  skip-IsSequenced n t v h = record {
    unique = v.unique;
    given = IsNumbered-mono t (omega arith) v.given;
    last = v.last;
    bounded = omega (arith, v.bounded);
    in_range = h;
  }

  -- After a restart the sequence goes on from the last row.
  pub load_seq-IsSequenced :
      (n : ℕ) (t : List R) → IsSequenced n t → IsSequenced (load_seq prefix key t) t
  load_seq-IsSequenced n t v = record {
    unique = v.unique;
    given = v.last;
    last = v.last;
    bounded = omega arith;
    in_range = omega (arith, v.bounded, v.in_range);
  }
