-- ===== src/Thousandths.antt =====
-- A concrete number type for the tests: thousandths, with `none` for NaN.
use esphome_alpha_hwr.Base.{
  ℕ, ◌+◌, ◌-◌, ◌*◌, ◌/◌, ◌^◌, Bool, true, false, Option, none, some, ltb, leb, ◌==◌,
}
use esphome_alpha_hwr.Floats.{Floats}

abbrev pub Milli : Type 0
Milli = Option ℕ

abbrev is_none : Milli → Bool
is_none none = true
is_none (some a) = false

abbrev is_some : Milli → Bool
is_some none = false
is_some (some a) = true

abbrev on_two : (ℕ → ℕ → Bool) → Milli → Milli → Bool
on_two f (some a) (some b) = f a b
on_two f _ _ = false

abbrev both : (ℕ → ℕ → ℕ) → Milli → Milli → Milli
both f (some a) (some b) = some (f a b)
both f _ _ = none

-- The tests take differences for their size alone.
instance abbrev pub milli_floats : Floats Milli
milli_floats = record {
  nan = none;
  is_nan = is_none;
  is_finite = is_some;
  lt = on_two ltb;
  le = on_two leb;
  eq = on_two λ a b. a == b;
  add = both λ a b. a + b;
  sub = both λ a b. a - b + (b - a);
  mul = both λ a b. a * b / 1000;
  div = both λ a b. a * 1000 / b;
  fabs = λ a. a;
  of_bits = λ n. some n;
  decimal = λ m d. some (m * 1000 / 10 ^ d);
}
