-- ===== src/Go/Fmt.antt =====
-- What the services use of Go's `fmt`, `strconv` and `strings`: `%d`, a literal prefix, and the
-- readers of decimal numbers. A text is a `String`, walked character by character.
pub mod RoundTrip
use Prim.Native.String.{[], ◌∷◌}
use tiny_aws.Prelude.{
  ℕ, zero, suc, ◌+◌, ◌-◌, ◌*◌, ◌/◌, ◌%◌, ◌^◌, Char, code, String, Bool, true, false, ◌&&◌, ◌||◌,
  Option, none, some, leb, ltb, eqb, if◌then◌else◌,
}
use tiny_aws.Prelude.Int.{ℤ, pos, negsuc}

abbrev pub u64_mod : ℕ
u64_mod = 2 ^ 64

-- `atomic.AddUint64(&n, 1)`
unfoldable pub next_seq : ℕ → ℕ
next_seq n = (n + 1) % u64_mod

digit : ℕ → Char
digit zero = "0"
digit (suc zero) = "1"
digit (suc (suc zero)) = "2"
digit (suc (suc (suc zero))) = "3"
digit (suc (suc (suc (suc zero)))) = "4"
digit (suc (suc (suc (suc (suc zero))))) = "5"
digit (suc (suc (suc (suc (suc (suc zero)))))) = "6"
digit (suc (suc (suc (suc (suc (suc (suc zero))))))) = "7"
digit (suc (suc (suc (suc (suc (suc (suc (suc zero)))))))) = "8"
digit _ = "9"

-- The digits of `n` in front of `out`; the fuel `n` is enough, since each round divides by ten.
emit : ℕ → ℕ → String → String
emit zero n out = out
emit (suc f) n out =
    let rest = emit f (n / 10) (digit (n % 10) ∷ out) in if eqb n 0 then out else rest

-- `fmt.Sprintf("%d", n)` of an unsigned number
pub decimal : ℕ → String
unfolding emit digit
decimal n = if eqb n 0 then "0" else emit n n []

unfoldable pub prefixed : String → String → String
prefixed [] t = t
prefixed (c ∷ s) t = c ∷ prefixed s t

-- `fmt.Sprintf(p + "%d", n)`
unfoldable pub format_id : String → ℕ → String
unfolding decimal prefixed
format_id p n = prefixed p (decimal n)

-- `strings.HasPrefix` with `strings.TrimPrefix`
unfoldable pub strip_prefix : String → String → Option String
strip_prefix [] s = some s
strip_prefix (c ∷ p) [] = none
strip_prefix (c ∷ p) (d ∷ s) =
    let rest = strip_prefix p s in if eqb (code c) (code d) then rest else none

pub is_digit : Char → Bool
is_digit c = leb 48 (code c) && leb (code c) 57

whole : ℕ → String → Option ℕ
whole n [] = some n
whole n (c ∷ s) = let rest = whole (n * 10 + (code c - 48)) s in if is_digit c then rest else none

abbrev in_u64 : Option ℕ → Option ℕ
in_u64 none = none
in_u64 (some n) = if ltb n u64_mod then some n else none

-- `strconv.ParseUint(s, 10, 64)`; `none` is its error
unfoldable pub parse_uint : String → Option ℕ
unfolding whole is_digit
parse_uint [] = none
parse_uint (c ∷ s) = in_u64 (whole 0 (c ∷ s))

-- the spaces of package `fmt`, the newline apart
is_space : ℕ → Bool
is_space c =
    eqb c 9
    || (leb 11 c && leb c 13)
    || eqb c 32
    || eqb c 0x85
    || eqb c 0xa0
    || eqb c 0x1680
    || (leb 0x2000 c && leb c 0x200a)
    || eqb c 0x2028
    || eqb c 0x2029
    || eqb c 0x202f
    || eqb c 0x205f
    || eqb c 0x3000

-- A newline is an error of `Sscanf`; it is left in place, where it is no digit.
skip_space : String → String
skip_space [] = []
skip_space (c ∷ s) = let rest = skip_space s in if is_space (code c) then rest else c ∷ s

leading : ℕ → String → ℕ
leading n [] = n
leading n (c ∷ s) = let rest = leading (n * 10 + (code c - 48)) s in if is_digit c then rest else n

leading_digits : String → Option ℕ
leading_digits [] = none
leading_digits (c ∷ s) = if is_digit c then some (leading 0 (c ∷ s)) else none

abbrev or_zero : Option ℕ → ℕ
or_zero none = 0
or_zero (some n) = n

-- `fmt.Sscanf(s, "%d", &n)` into a `uint64`; on an error `n` keeps its value 0
unfoldable pub scan_uint : String → ℕ
unfolding skip_space is_space leading_digits leading is_digit
scan_uint s = or_zero (in_u64 (leading_digits (skip_space s)))

abbrev scan_rest : Option String → ℕ
scan_rest none = 0
scan_rest (some rest) = scan_uint rest

-- `fmt.Sscanf(s, p + "%d", &n)` into a `uint64` that is 0 before
unfoldable pub scan_id : String → String → ℕ
unfolding strip_prefix scan_uint
scan_id p s = scan_rest (strip_prefix p s)

signed_digits : String → Option ℤ
unfolding leading_digits leading is_digit
signed_digits [] = none
signed_digits (c ∷ s) =
    if eqb (code c) b'-'
    then elim (leading_digits s) [
      | none ↦ none
      | some n ↦ if leb n (2 ^ 63) then some (if eqb n 0 then pos 0 else negsuc (n - 1)) else none
    ]
    else elim (leading_digits (if eqb (code c) b'+' then s else c ∷ s)) [
      | none ↦ none
      | some n ↦ if ltb n (2 ^ 63) then some (pos n) else none
    ]

-- `fmt.Sscanf(s, "%d", &n)` into an `int`; `none` is an error, which leaves `n` as it was
unfoldable pub scan_int : String → Option ℤ
unfolding skip_space is_space signed_digits
scan_int s = signed_digits (skip_space s)
