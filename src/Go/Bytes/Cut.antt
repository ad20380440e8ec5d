-- ===== src/Go/Bytes/Cut.antt =====
-- A text is cut where two texts were joined.
use Prim.Native.String.{[], ◌∷◌}
use mathlib.Core.Option
use tiny_aws.Prelude.{
  String, Char, code, Bool, true, not, ◌&&◌, ◌≡◌, ap, some, arith, eqb, Bool-cases, inl, inr,
}
use tiny_aws.Go.Bytes.{cut_at}
use tiny_aws.Go.Fmt.{prefixed}

-- A text without a character.
unfoldable pub lacks : Char → String → Bool
lacks mark [] = true
lacks mark (c ∷ s) = let rest = lacks mark s in not (eqb (code c) (code mark)) && rest

pub cut_at-joined :
    (mark : Char) (k v : String)
    → lacks mark k ≡ true
    → cut_at mark (prefixed k (mark ∷ v)) ≡ some (k, v)
unfolding cut_at prefixed lacks
cut_at-joined mark [] v h = ground arith
cut_at-joined mark (c ∷ k) v h = elim (Bool-cases (eqb (code c) (code mark))) [
  | inl e ↦ let p = rw e at h in cc
  | inr e ↦ rw e (ap (Option.map (λ (a, b). (c ∷ a, b))) (cut_at-joined mark k v (rw e at h)))
]
