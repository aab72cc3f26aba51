-- ===== src/Codec/Shift.antt =====
-- The shift register that the table of `calc_crc16` stands for: CRC-16-CCITT, polynomial 0x1021.
use esphome_alpha_hwr.Base.{
  ℕ, zero, suc, ◌+◌, ◌*◌, ◌/◌, ◌%◌, ◌<◌, ◌≡◌, refl, sym, ap, ap₂, ◌∙◌, Bool, true, ◌&&◌, List, [],
  ◌∷◌, bit_xor, arith, leb, ◌==◌, ==_iff, if◌then◌else◌, u16, IsByte, IsU16,
}
use esphome_alpha_hwr.Base.Xor.{
  bit_xor_comm, bit_xor_assoc, bit_xor-zero, bit_xor_fields, bit_xor_step, bit_xor-lt,
}
use esphome_alpha_hwr.Codec.{crc_table, byte_at}

-- One bit leaves at the top; if it is set, the polynomial is subtracted.
unfoldable pub shift_bit : ℕ → ℕ
shift_bit c = if leb 32768 c then bit_xor (u16 (c * 2)) 0x1021 else u16 (c * 2)

unfoldable pub shift_bits : ℕ → ℕ → ℕ
shift_bits zero c = c
shift_bits (suc n) c = shift_bits n (shift_bit c)

unfoldable pub shift_byte : ℕ → ℕ → ℕ
shift_byte crc b = shift_bits 8 (bit_xor crc (b * 256))

unfoldable pub crc_register : List ℕ → ℕ → ℕ
crc_register [] crc = crc
crc_register (b ∷ bytes) crc = crc_register bytes (shift_byte crc b)

-- The register written by its top bit and the rest.
pub shift_bit_lem :
    (t r : ℕ) → t < 2 → r < 32768 → shift_bit (t * 32768 + r) ≡ bit_xor (r * 2) (t * 0x1021)
unfolding shift_bit
shift_bit_lem zero r p q = ground (arith, bit_xor-zero (r * 2))
shift_bit_lem (suc zero) r p q = ground arith
shift_bit_lem (suc (suc t)) r p q = absurd (omega arith)

bit_xor-double : (a b : ℕ) → bit_xor (a * 2) (b * 2) ≡ bit_xor a b * 2
bit_xor-double a b = omega (arith, bit_xor_step (a * 2) (b * 2), ap₂ bit_xor half_a half_b)
  where
    half_a : a * 2 / 2 ≡ a
    half_a = omega arith

    half_b : b * 2 / 2 ≡ b
    half_b = omega arith

bit_xor_four :
    (a b c d : ℕ) → bit_xor (bit_xor a b) (bit_xor c d) ≡ bit_xor (bit_xor a c) (bit_xor b d)
bit_xor_four a b c d =
    bit_xor_assoc a b (bit_xor c d)
    ∙ ap (bit_xor a)
        (sym (bit_xor_assoc b c d) ∙ ap (λ t. bit_xor t d) (bit_xor_comm b c) ∙ bit_xor_assoc c b d)
    ∙ sym (bit_xor_assoc a c (bit_xor b d))

-- The polynomial's share is linear in the top bit.
poly_linear : (s t : ℕ) → s < 2 → t < 2 → bit_xor (s * 0x1021) (t * 0x1021) ≡ bit_xor s t * 0x1021
poly_linear zero zero p q = refl
poly_linear zero (suc zero) p q = refl
poly_linear (suc zero) zero p q = refl
poly_linear (suc zero) (suc zero) p q = refl
poly_linear s (suc (suc t)) p q = absurd (omega arith)
poly_linear (suc (suc s)) t p q = absurd (omega arith)

shift_bit_linear_parts :
    (s q t r : ℕ)
    → s < 2
    → t < 2
    → q < 32768
    → r < 32768
    → shift_bit (bit_xor (s * 32768 + q) (t * 32768 + r))
      ≡ bit_xor (shift_bit (s * 32768 + q)) (shift_bit (t * 32768 + r))
shift_bit_linear_parts s q t r hs ht hq hr =
    ap shift_bit (bit_xor_fields 15 s q t r hq hr)
    ∙ shift_bit_lem (bit_xor s t) (bit_xor q r) (bit_xor-lt 1 s t hs ht) (bit_xor-lt 15 q r hq hr)
    ∙ ap₂ bit_xor (sym (bit_xor-double q r)) (sym (poly_linear s t hs ht))
    ∙ bit_xor_four (q * 2) (r * 2) (s * 0x1021) (t * 0x1021)
    ∙ ap₂ bit_xor (sym (shift_bit_lem s q hs hq)) (sym (shift_bit_lem t r ht hr))

pub split_top : (a : ℕ) → a / 32768 * 32768 + a % 32768 ≡ a
split_top a = omega arith

shift_bit_linear :
    (a b : ℕ) → IsU16 a → IsU16 b → shift_bit (bit_xor a b) ≡ bit_xor (shift_bit a) (shift_bit b)
shift_bit_linear a b ha hb =
    ap shift_bit (ap₂ bit_xor (sym (split_top a)) (sym (split_top b)))
    ∙ shift_bit_linear_parts (a / 32768) (a % 32768) (b / 32768) (b % 32768) (omega arith)
        (omega arith) (omega arith) (omega arith)
    ∙ ap₂ bit_xor (ap shift_bit (split_top a)) (ap shift_bit (split_top b))

pub shift_bit-lt : (c : ℕ) → IsU16 (shift_bit c)
unfolding shift_bit
shift_bit-lt c = ground (arith, bit_xor-lt 16 (u16 (c * 2)) 0x1021)

pub shift_bits-lt : (n c : ℕ) → IsU16 c → IsU16 (shift_bits n c)
unfolding shift_bits
shift_bits-lt zero c h = h
shift_bits-lt (suc n) c h = shift_bits-lt n (shift_bit c) (shift_bit-lt c)

pub shift_bits_linear :
    (n a b : ℕ)
    → IsU16 a
    → IsU16 b
    → shift_bits n (bit_xor a b) ≡ bit_xor (shift_bits n a) (shift_bits n b)
unfolding shift_bits
shift_bits_linear zero a b ha hb = refl
shift_bits_linear (suc n) a b ha hb =
    ap (shift_bits n) (shift_bit_linear a b ha hb)
    ∙ shift_bits_linear n (shift_bit a) (shift_bit b) (shift_bit-lt a) (shift_bit-lt b)

holds_below : (ℕ → Bool) → ℕ → Bool
holds_below test zero = true
holds_below test (suc bound) = holds_below test bound && test bound

-- A test that was run on each number below the bound holds there.
holds_below-lt :
    (test : ℕ → Bool) (bound i : ℕ) → i < bound → holds_below test bound ≡ true → test i ≡ true
unfolding holds_below
holds_below-lt test zero i below checked = elim below [ ]
holds_below-lt test (suc bound) i below checked =
    let earlier = holds_below-lt test bound i in ground (arith, earlier)

table_checked : holds_below (λ i. byte_at crc_table i == shift_bits 8 (i * 256)) 256 ≡ true
unfolding holds_below crc_table shift_bits shift_bit
table_checked = refl

low_checked : holds_below (λ l. shift_bits 8 l == l * 256) 256 ≡ true
unfolding holds_below shift_bits shift_bit
low_checked = refl

-- A byte at the bottom of the register only moves.
pub shift_byte_low : (l : ℕ) → IsByte l → shift_bits 8 l ≡ l * 256
shift_byte_low l h = (==_iff _ _).0 (holds_below-lt _ 256 l h low_checked)

-- The table holds what the register does to each byte.
pub crc_table_lem : (i : ℕ) → IsByte i → byte_at crc_table i ≡ shift_bits 8 (i * 256)
crc_table_lem i h = (==_iff _ _).0 (holds_below-lt _ 256 i h table_checked)
