-- ===== src/Go/Bytes.antt =====
-- Texts that hold one character for each byte, as HTTP headers do.
pub mod Cut
use Prim.Native.String.{[], ◌∷◌}
use mathlib.Core.Option
use tiny_aws.Prelude.{ℕ, zero, suc, String, Char, code, Option, none, some, eqb, if◌then◌else◌}

-- `len(s)`
unfoldable pub len : String → ℕ
len [] = 0
len (c ∷ s) = suc (len s)

-- `s[:n]`, where `n` is at most the length
unfoldable pub cut : ℕ → String → String
cut zero s = ""
cut (suc n) [] = ""
cut (suc n) (c ∷ s) = c ∷ cut n s

-- `s[:i]` and `s[i+1:]` where `i` is the first index of a character; `none` if there is none
unfoldable pub cut_at : Char → String → Option (String × String)
cut_at mark [] = none
cut_at mark (c ∷ s) =
    let rest = cut_at mark s in
    if eqb (code c) (code mark) then some ("", s) else Option.map (λ (k, v). (c ∷ k, v)) rest
