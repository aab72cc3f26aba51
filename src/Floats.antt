-- ===== src/Floats.antt =====
-- The `float` of the sources: the values with the operations that the code applies to them. Rounding
-- is the platform's, so the operations are an instance argument.
use esphome_alpha_hwr.Base.{ℕ, Bool}

pub record Floats (F : Type 0) : Type 0 where
  pub nan : F
  pub is_nan : F → Bool
  pub is_finite : F → Bool
  pub lt : F → F → Bool
  pub le : F → F → Bool
  pub eq : F → F → Bool
  pub add : F → F → F
  pub sub : F → F → F
  pub mul : F → F → F
  pub div : F → F → F
  pub fabs : F → F
  -- The float with these 32 bits.
  pub of_bits : ℕ → F
  -- The float nearest to `m / 10 ^ d`: a literal of the source, or, with `d` 0, an integer that is converted.
  pub decimal : ℕ → ℕ → F
