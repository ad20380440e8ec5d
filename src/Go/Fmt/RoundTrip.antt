-- ===== src/Go/Fmt/RoundTrip.antt =====
-- A formatted identifier reads back as its number, and so no two numbers share one.
use Prim.Native.String.{[], ◌∷◌}
use mathlib.Core.Option.{none-ne-some, some-injective}
use tiny_aws.Prelude.{
  ℕ, zero, suc, ◌+◌, ◌-◌, ◌*◌, ◌/◌, ◌%◌, ◌≤◌, ◌<◌, ◌≡◌, ◌≢◌, refl, sym, ap, ◌∙◌, Char, code, String,
  ◌^◌, some, none, arith, eqb, ◌==◌, eq_false, Bool-cases, inl, inr, lt→ltb, true, false,
}
use tiny_aws.Prelude.Int.{pos}
use tiny_aws.Go.Fmt.{
  signed_digits, scan_int, next_seq, u64_mod, digit, emit, decimal, prefixed, format_id,
  strip_prefix, is_digit, whole, parse_uint, is_space, skip_space, leading, leading_digits, in_u64,
  or_zero, scan_uint, scan_rest, scan_id,
}

suc-ne-zero : (n : ℕ) → eqb (suc n) 0 ≡ false
suc-ne-zero n = ground arith

code-digit : (d : ℕ) → d < 10 → code (digit d) ≡ 48 + d
unfolding digit
code-digit zero h = refl
code-digit (suc zero) h = refl
code-digit (suc (suc zero)) h = refl
code-digit (suc (suc (suc zero))) h = refl
code-digit (suc (suc (suc (suc zero)))) h = refl
code-digit (suc (suc (suc (suc (suc zero))))) h = refl
code-digit (suc (suc (suc (suc (suc (suc zero)))))) h = refl
code-digit (suc (suc (suc (suc (suc (suc (suc zero))))))) h = refl
code-digit (suc (suc (suc (suc (suc (suc (suc (suc zero)))))))) h = refl
code-digit (suc (suc (suc (suc (suc (suc (suc (suc (suc zero))))))))) h = refl
code-digit (suc (suc (suc (suc (suc (suc (suc (suc (suc (suc d)))))))))) h = absurd (omega arith)

is_digit-digit : (c : Char) (d : ℕ) → code c ≡ 48 + d → d < 10 → is_digit c ≡ true
unfolding is_digit
is_digit-digit c d e h = rw e (ground arith)

whole-step :
    (k d : ℕ) (c : Char) (s : String)
    → code c ≡ 48 + d
    → d < 10
    → whole k (c ∷ s) ≡ whole (k * 10 + d) s
unfolding whole
whole-step k d c s e h = rw (is_digit-digit c d e h) (ap (λ j. whole (k * 10 + j) s) (omega arith))

whole-digit : (n : ℕ) (out : String) → whole (n / 10) (digit (n % 10) ∷ out) ≡ whole n out
whole-digit n out =
    whole-step (n / 10) (n % 10) (digit (n % 10)) out (code-digit (n % 10) (omega arith))
      (omega arith)
    ∙ ap (λ k. whole k out) (omega arith)

whole-emit : (f n : ℕ) (out : String) → n ≤ f → whole 0 (emit f n out) ≡ whole n out
unfolding emit
whole-emit zero n out h = ap (λ k. whole k out) (omega arith)
whole-emit (suc f) n out h = elim (Bool-cases (eqb n 0)) [
  | inl e ↦ rw e (ap (λ k. whole k out) (ground arith))
  | inr e ↦ rw e (whole-emit f (n / 10) (digit (n % 10) ∷ out) (ground arith) ∙ whole-digit n out)
]

emit-ne-nil : (f n : ℕ) (c : Char) (out : String) → emit f n (c ∷ out) ≢ []
unfolding emit
emit-ne-nil zero n c out e = cc
emit-ne-nil (suc f) n c out e = elim (Bool-cases (eqb n 0)) [
  | inl z ↦ let p = rw z at e in cc
  | inr z ↦ emit-ne-nil f (n / 10) (digit (n % 10)) (c ∷ out) (rw z at e)
]

pub decimal-ne-nil : (n : ℕ) → decimal n ≢ []
unfolding decimal emit
decimal-ne-nil zero e = cc
decimal-ne-nil (suc n) e =
    emit-ne-nil n (suc n / 10) (digit (suc n % 10)) [] (rw (suc-ne-zero n) at e)

whole-decimal : (n : ℕ) → whole 0 (decimal n) ≡ some n
unfolding decimal whole is_digit
whole-decimal zero = refl
whole-decimal (suc n) =
    rw (suc-ne-zero n) (rw (suc-ne-zero n) at (whole-emit (suc n) (suc n) [] (omega arith)))

pub strip_prefix-prefixed : (p s : String) → strip_prefix p (prefixed p s) ≡ some s
unfolding strip_prefix prefixed
strip_prefix-prefixed [] s = refl
strip_prefix-prefixed (c ∷ p) s = ground (arith, strip_prefix-prefixed p s)

pub prefixed-ne-nil : (c : Char) (p t : String) → prefixed (c ∷ p) t ≢ ""
unfolding prefixed
prefixed-ne-nil c p t e = cc

-- A text with a prefix is none that lacks it.
pub prefixed-other :
    (p t other : String) → strip_prefix p other ≡ none → (prefixed p t == other) ≡ false
prefixed-other p t other bare =
    eq_false _ _
      (λ e. none-ne-some t (sym bare ∙ ap (strip_prefix p) (sym e) ∙ strip_prefix-prefixed p t))

leading_of_whole : (k : ℕ) (s : String) {n : ℕ} → whole k s ≡ some n → leading k s ≡ n
unfolding whole leading
leading_of_whole k [] e = cc
leading_of_whole k (c ∷ s) e = elim (Bool-cases (is_digit c)) [
  | inl d ↦ rw d (leading_of_whole (k * 10 + (code c - 48)) s (rw d at e))
  | inr d ↦ let p = rw d at e in cc
]

is_digit_of_whole : (k n : ℕ) (c : Char) (s : String) → whole k (c ∷ s) ≡ some n → is_digit c ≡ true
unfolding whole
is_digit_of_whole k n c s e = ground arith

not-is_space : (c : Char) → is_digit c ≡ true → is_space (code c) ≡ false
unfolding is_digit is_space
not-is_space c h = ground arith

leading_digits-cons :
    (c : Char) (s : String) → is_digit c ≡ true → leading_digits (c ∷ s) ≡ some (leading 0 (c ∷ s))
unfolding leading_digits
leading_digits-cons c s h = rw h

leading_digits_of_whole :
    (n : ℕ) (s : String) → s ≢ [] → whole 0 s ≡ some n → leading_digits (skip_space s) ≡ some n
unfolding skip_space
leading_digits_of_whole n [] ne e = absurd (ne refl)
leading_digits_of_whole n (c ∷ s) ne e =
    let d = is_digit_of_whole 0 n c s e in
    rw (not-is_space c d) (leading_digits-cons c s d ∙ ap some (leading_of_whole 0 (c ∷ s) e))

in_u64-lt : (n : ℕ) → n < u64_mod → in_u64 (some n) ≡ some n
in_u64-lt n h = rw (lt→ltb n u64_mod h)

parse_uint_of_whole :
    (n : ℕ) (s : String) → s ≢ [] → whole 0 s ≡ some n → n < u64_mod → parse_uint s ≡ some n
unfolding parse_uint
parse_uint_of_whole n [] ne e h = absurd (ne refl)
parse_uint_of_whole n (c ∷ s) ne e h = ap in_u64 e ∙ in_u64-lt n h

parse_uint-decimal : (n : ℕ) → n < u64_mod → parse_uint (decimal n) ≡ some n
parse_uint-decimal n = parse_uint_of_whole n (decimal n) (decimal-ne-nil n) (whole-decimal n)

-- `ParseUint` reads what stands after the prefix of an identifier as its number.
pub parse_uint-format_id :
    (p : String) (n : ℕ)
    → n < u64_mod
    → (s : String) × (strip_prefix p (format_id p n) ≡ some s) × (parse_uint s ≡ some n)
parse_uint-format_id p n h =
    (decimal n, unfold format_id in strip_prefix-prefixed p (decimal n), parse_uint-decimal n h)

scan_uint-decimal : (n : ℕ) → n < u64_mod → scan_uint (decimal n) ≡ n
unfolding scan_uint
scan_uint-decimal n h =
    ap (λ o. or_zero (in_u64 o))
      (leading_digits_of_whole n (decimal n) (decimal-ne-nil n) (whole-decimal n))
    ∙ ap or_zero (in_u64-lt n h)

pub scan_id-format_id : (p : String) (n : ℕ) → n < u64_mod → scan_id p (format_id p n) ≡ n
unfolding scan_id format_id
scan_id-format_id p n h = ap scan_rest (strip_prefix-prefixed p (decimal n)) ∙ scan_uint-decimal n h

-- Two numbers never share an identifier.
pub format_id-injective : (p : String) (m n : ℕ) → format_id p m ≡ format_id p n → m ≡ n
unfolding format_id
format_id-injective p m n e =
    let digits : decimal m ≡ decimal n = some-injective _ _ (
      sym (strip_prefix-prefixed p (decimal m))
      ∙ ap (strip_prefix p) e
      ∙ strip_prefix-prefixed p (decimal n)) in
    some-injective _ _ (sym (whole-decimal m) ∙ ap (whole 0) digits ∙ whole-decimal n)

not-sign : (c : Char) → is_digit c ≡ true → (eqb (code c) 45 ≡ false) × (eqb (code c) 43 ≡ false)
unfolding is_digit
not-sign c h = ground arith

signed_digits-cons :
    (c : Char) (s : String) (n : ℕ)
    → is_digit c ≡ true
    → leading_digits (c ∷ s) ≡ some n
    → n < 2 ^ 63
    → signed_digits (c ∷ s) ≡ some (pos n)
unfolding signed_digits
signed_digits-cons c s n d e h =
    rw (not-sign c d).0 (rw (not-sign c d).1 (rw e (rw (lt→ltb n (2 ^ 63) h) refl)))

signed_digits_of_whole :
    (n : ℕ) (s : String)
    → s ≢ []
    → whole 0 s ≡ some n
    → n < 2 ^ 63
    → signed_digits (skip_space s) ≡ some (pos n)
unfolding skip_space
signed_digits_of_whole n [] ne e h = absurd (ne refl)
signed_digits_of_whole n (c ∷ s) ne e h =
    let d = is_digit_of_whole 0 n c s e in
    rw (not-is_space c d) (
      signed_digits-cons c s n d
        (leading_digits-cons c s d ∙ ap some (leading_of_whole 0 (c ∷ s) e)) h)

-- `Sscanf` reads a decimal number that fits an `int`.
pub scan_int-decimal : (n : ℕ) → n < 2 ^ 63 → scan_int (decimal n) ≡ some (pos n)
unfolding scan_int
scan_int-decimal n h = signed_digits_of_whole n (decimal n) (decimal-ne-nil n) (whole-decimal n) h

pub next_seq-lt : (n : ℕ) → n + 1 < u64_mod → next_seq n ≡ n + 1
unfolding next_seq
next_seq-lt n h = omega arith
