-- ===== src/Base/Xor.antt =====
-- The laws of `^` on numbers of any width, from the digits that the native operation stands for.
use Prim.Native.Nat.{
  ℕ, zero, suc, ◌+◌, ◌*◌, ◌/◌, ◌%◌, ◌^◌, ◌≤◌, ◌<◌, bit_xor, digits, differ, bit_xor-bitwise,
}
use mathlib.Core.Path.{◌≡◌, refl, sym, ap, ◌∙◌}
use native.Mathlib.Nat.{pow-suc}
use native.Mathlib.Omega.{arith}

abbrev sum_digits : ℕ → ℕ → ℕ → ℕ
sum_digits fuel a b = digits (λ y. y) differ fuel a b

no_digits : (fuel b : ℕ) → sum_digits fuel 0 b ≡ b
no_digits zero b = refl
no_digits (suc fuel) b = refl

-- Fuel beyond what the number needs does nothing.
spare_fuel : (a n b m : ℕ) → a ≤ m → a ≤ n → sum_digits m a b ≡ sum_digits n a b
spare_fuel zero n b m p q = no_digits m b ∙ sym (no_digits n b)
spare_fuel (suc a) zero b m p q = absurd (omega arith)
spare_fuel (suc a) (suc n) b zero p q = absurd (omega arith)
spare_fuel (suc a) (suc n) b (suc m) p q =
    let halves = spare_fuel (suc a / 2) n (b / 2) m (omega arith) (omega arith) in rw halves

zero-bit_xor : (b : ℕ) → bit_xor 0 b ≡ b
zero-bit_xor b = bit_xor-bitwise 0 b

differ_lem : (x y : ℕ) → x < 2 → y < 2 → differ x y ≡ (x + y) % 2
differ_lem zero y p q = omega arith
differ_lem (suc zero) zero p q = refl
differ_lem (suc zero) (suc zero) p q = refl
differ_lem (suc zero) (suc (suc y)) p q = absurd (omega arith)
differ_lem (suc (suc x)) y p q = absurd (omega arith)

-- The lowest digit of `a ^ b`, and the rest.
pub bit_xor_step : (a b : ℕ) → bit_xor a b ≡ bit_xor (a / 2) (b / 2) * 2 + (a % 2 + b % 2) % 2
bit_xor_step zero b = omega (arith, zero-bit_xor b, zero-bit_xor (b / 2))
bit_xor_step (suc a) b =
    let last = differ_lem (suc a % 2) (b % 2) (omega arith) (omega arith) in
    let upper = spare_fuel (suc a / 2) (suc a / 2) (b / 2) a (omega arith) (omega arith) in
    omega (arith, last, upper, bit_xor-bitwise (suc a / 2) (b / 2), bit_xor-bitwise (suc a) b)

comm_fuel : (n a b : ℕ) → a ≤ n → b ≤ n → bit_xor a b ≡ bit_xor b a
comm_fuel zero zero zero p q = refl
comm_fuel zero zero (suc b) p q = absurd (omega arith)
comm_fuel zero (suc a) b p q = absurd (omega arith)
comm_fuel (suc n) a b p q = omega (
  arith,
  bit_xor_step a b,
  bit_xor_step b a,
  comm_fuel n (a / 2) (b / 2) (omega arith) (omega arith),
)

pub bit_xor_comm : (a b : ℕ) → bit_xor a b ≡ bit_xor b a
bit_xor_comm a b = comm_fuel (a + b) a b (omega arith) (omega arith)

assoc_step :
    (a b c : ℕ)
    → bit_xor (bit_xor (a / 2) (b / 2)) (c / 2) ≡ bit_xor (a / 2) (bit_xor (b / 2) (c / 2))
    → bit_xor (bit_xor a b) c ≡ bit_xor a (bit_xor b c)
assoc_step a b c ih = omega (
  arith,
  ih,
  bit_xor_step (bit_xor a b) c,
  bit_xor_step a (bit_xor b c),
  bit_xor_step a b,
  bit_xor_step b c,
  ap (λ t. bit_xor t (c / 2)) half_left,
  ap (bit_xor (a / 2)) half_right,
)
  where
    half_left : bit_xor a b / 2 ≡ bit_xor (a / 2) (b / 2)
    half_left = omega (arith, bit_xor_step a b)

    half_right : bit_xor b c / 2 ≡ bit_xor (b / 2) (c / 2)
    half_right = omega (arith, bit_xor_step b c)

assoc_zero : (a b c : ℕ) → a ≤ 0 → b ≤ 0 → c ≤ 0 → bit_xor (bit_xor a b) c ≡ bit_xor a (bit_xor b c)
assoc_zero zero zero zero p q r = refl
assoc_zero zero zero (suc c) p q r = absurd (omega arith)
assoc_zero zero (suc b) c p q r = absurd (omega arith)
assoc_zero (suc a) b c p q r = absurd (omega arith)

assoc_fuel :
    (n a b c : ℕ) → a ≤ n → b ≤ n → c ≤ n → bit_xor (bit_xor a b) c ≡ bit_xor a (bit_xor b c)
assoc_fuel zero a b c p q r = assoc_zero a b c p q r
assoc_fuel (suc n) a b c p q r =
    assoc_step a b c
      (assoc_fuel n (a / 2) (b / 2) (c / 2) (omega arith) (omega arith) (omega arith))

pub bit_xor_assoc : (a b c : ℕ) → bit_xor (bit_xor a b) c ≡ bit_xor a (bit_xor b c)
bit_xor_assoc a b c = assoc_fuel (a + b + c) a b c (omega arith) (omega arith) (omega arith)

self_fuel : (n a : ℕ) → a ≤ n → bit_xor a a ≡ 0
self_fuel zero zero p = refl
self_fuel zero (suc a) p = absurd (omega arith)
self_fuel (suc n) a p = omega (arith, bit_xor_step a a, self_fuel n (a / 2) (omega arith))

pub bit_xor_self : (a : ℕ) → bit_xor a a ≡ 0
bit_xor_self a = self_fuel a a (omega arith)

pub bit_xor-zero : (a : ℕ) → bit_xor a 0 ≡ a
bit_xor-zero a = bit_xor_comm a 0 ∙ zero-bit_xor a

mul-two-pow-suc : (q k : ℕ) → q * 2 ^ suc k ≡ 2 * (q * 2 ^ k)
mul-two-pow-suc q k =
    let power = ap (λ (power : ℕ). q * power) (pow-suc 2 k) in omega (arith, power)

-- The fields above and below bit `k` do not mix.
pub bit_xor_fields :
    (k h l h' l' : ℕ)
    → l < 2 ^ k
    → l' < 2 ^ k
    → bit_xor (h * 2 ^ k + l) (h' * 2 ^ k + l') ≡ bit_xor h h' * 2 ^ k + bit_xor l l'
bit_xor_fields zero h l h' l' p q = ground (arith)
bit_xor_fields (suc k) h l h' l' p q = ground (
  arith,
  bit_xor_step (h * 2 ^ suc k + l) (h' * 2 ^ suc k + l'),
  bit_xor_step l l',
  mul-two-pow-suc h k,
  mul-two-pow-suc h' k,
  mul-two-pow-suc (bit_xor h h') k,
  pow-suc 2 k,
  bit_xor_fields k h (l / 2) h' (l' / 2) (omega (arith, pow-suc 2 k)) (omega (arith, pow-suc 2 k)),
)

pub bit_xor-lt : (k a b : ℕ) → a < 2 ^ k → b < 2 ^ k → bit_xor a b < 2 ^ k
bit_xor-lt zero zero zero p q = omega arith
bit_xor-lt zero zero (suc b) p q = absurd (omega arith)
bit_xor-lt zero (suc a) b p q = absurd (omega arith)
bit_xor-lt (suc k) a b p q = omega (
  arith,
  pow-suc 2 k,
  bit_xor_step a b,
  bit_xor-lt k (a / 2) (b / 2) (omega (arith, pow-suc 2 k)) (omega (arith, pow-suc 2 k)),
)
