-- ===== src/Go/Errors.antt =====
-- A value and an error, of which one is nil; an error is its text.
use tiny_aws.Prelude.{String}

pub data Result {ℓ} (A : Type ℓ) : Type ℓ where
  ok : A → Result A
  err : String → Result A
