-- ===== src/Codec/Inverse.antt =====
-- The shift register of `calc_crc16` can be run backwards, so that a step forgets nothing.
use esphome_alpha_hwr.Base.{
  ℕ, zero, suc, ◌+◌, ◌*◌, ◌/◌, ◌%◌, ◌<◌, ◌≡◌, sym, ap, ◌∙◌, bit_xor, arith, IsByte, IsU16,
}
use esphome_alpha_hwr.Base.Xor.{
  bit_xor_comm, bit_xor_assoc, bit_xor_self, bit_xor-zero, bit_xor_step, bit_xor-lt,
}
use esphome_alpha_hwr.Codec.Shift.{
  shift_bit, shift_bits, shift_byte, shift_bit_lem, shift_bit-lt, split_top,
}

unshift_bit : ℕ → ℕ
unshift_bit d = bit_xor d (d % 2 * 0x1021) / 2 + d % 2 * 32768

-- `b` drops out when it is added again.
pub bit_xor_cancel : (a b : ℕ) → bit_xor (bit_xor a b) b ≡ a
bit_xor_cancel a b = bit_xor_assoc a b b ∙ ap (bit_xor a) (bit_xor_self b) ∙ bit_xor-zero a

-- The polynomial is odd, so the bit that left at the top stands at the bottom.
low_digit : (t r : ℕ) → t < 2 → bit_xor (r * 2) (t * 0x1021) % 2 ≡ t
low_digit t r h = omega (arith, bit_xor_step (r * 2) (t * 0x1021))

unshift_parts :
    (t r : ℕ) → t < 2 → r < 32768 → unshift_bit (bit_xor (r * 2) (t * 0x1021)) ≡ t * 32768 + r
unfolding unshift_bit
unshift_parts t r ht hr = omega (
  arith,
  low_digit t r ht,
  ap (λ d. bit_xor (bit_xor (r * 2) (t * 0x1021)) (d * 0x1021)) (low_digit t r ht),
  bit_xor_cancel (r * 2) (t * 0x1021),
)

unshift_bit-shift_bit : (c : ℕ) → IsU16 c → unshift_bit (shift_bit c) ≡ c
unshift_bit-shift_bit c h =
    ap (λ t. unshift_bit (shift_bit t)) (sym (split_top c))
    ∙ ap unshift_bit (shift_bit_lem (c / 32768) (c % 32768) (omega arith) (omega arith))
    ∙ unshift_parts (c / 32768) (c % 32768) (omega arith) (omega arith)
    ∙ split_top c

shift_bits_inj : (n a b : ℕ) → IsU16 a → IsU16 b → shift_bits n a ≡ shift_bits n b → a ≡ b
unfolding shift_bits
shift_bits_inj zero a b ha hb e = e
shift_bits_inj (suc n) a b ha hb e =
    sym (unshift_bit-shift_bit a ha)
    ∙ ap unshift_bit (shift_bits_inj n _ _ (shift_bit-lt a) (shift_bit-lt b) e)
    ∙ unshift_bit-shift_bit b hb

pub bit_xor_right_inj : (a b c : ℕ) → bit_xor a c ≡ bit_xor b c → a ≡ b
bit_xor_right_inj a b c e = sym (bit_xor_cancel a c) ∙ ap (λ t. bit_xor t c) e ∙ bit_xor_cancel b c

bit_xor_left_inj : (a b c : ℕ) → bit_xor c a ≡ bit_xor c b → a ≡ b
bit_xor_left_inj a b c e = bit_xor_right_inj a b c (bit_xor_comm a c ∙ e ∙ bit_xor_comm c b)

pub enter-lt : (c b : ℕ) → IsU16 c → IsByte b → IsU16 (bit_xor c (b * 256))
enter-lt c b hc hb = bit_xor-lt 16 c (b * 256) hc (omega arith)

pub shift_byte_inj :
    (c d b : ℕ) → IsU16 c → IsU16 d → IsByte b → shift_byte c b ≡ shift_byte d b → c ≡ d
unfolding shift_byte
shift_byte_inj c d b hc hd hb e =
    bit_xor_right_inj c d (b * 256)
      (shift_bits_inj 8 _ _ (enter-lt c b hc hb) (enter-lt d b hd hb) e)

-- Two bytes that differ leave the register different.
pub shift_byte_byte_inj :
    (c a b : ℕ) → IsU16 c → IsByte a → IsByte b → shift_byte c a ≡ shift_byte c b → a ≡ b
unfolding shift_byte
shift_byte_byte_inj c a b hc ha hb e = omega (
  arith,
  bit_xor_left_inj (a * 256) (b * 256) c
      (shift_bits_inj 8 _ _ (enter-lt c a hc ha) (enter-lt c b hc hb) e),
)
