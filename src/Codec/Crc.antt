-- ===== src/Codec/Crc.antt =====
-- The checksum as a whole: the table computes the shift register, and one wrong byte is always seen.
use esphome_alpha_hwr.Base.{
  ℕ, ◌+◌, ◌*◌, ◌/◌, ◌%◌, ◌≡◌, ◌≢◌, refl, sym, ap, ap₂, ◌∙◌, List, [], ◌∷◌, ◌++◌, bit_xor, arith,
  u16, IsByte, IsU16, All,
}
use esphome_alpha_hwr.Base.Xor.{bit_xor_comm, bit_xor-zero, bit_xor_fields, bit_xor-lt}
use esphome_alpha_hwr.Codec.Inverse.{shift_byte_inj, shift_byte_byte_inj, bit_xor_right_inj}
use esphome_alpha_hwr.Codec.{crc_table, crc_step, byte_at, calc_crc16, calc_crc16_read, crc_init}
use esphome_alpha_hwr.Codec.Shift.{
  shift_bits, shift_byte, crc_register, shift_bits-lt, shift_bits_linear, shift_byte_low,
  crc_table_lem,
}

split_byte : (a : ℕ) → a / 256 * 256 + a % 256 ≡ a
split_byte a = omega arith

-- A byte enters at the top of the register.
enter_top : (crc b : ℕ) → bit_xor crc (b * 256) ≡ bit_xor (crc / 256) b * 256 + crc % 256
enter_top crc b =
    ap₂ bit_xor (sym (split_byte crc)) (sym pad)
    ∙ bit_xor_fields 8 (crc / 256) (crc % 256) b 0 (omega arith) (omega arith)
    ∙ ap (λ t. bit_xor (crc / 256) b * 256 + t) (bit_xor-zero (crc % 256))
  where
    pad : b * 256 + 0 ≡ b * 256
    pad = omega arith

bit_xor_disjoint : (h l : ℕ) → IsByte l → bit_xor (h * 256) l ≡ h * 256 + l
bit_xor_disjoint h l p =
    ap₂ bit_xor (sym pad) (sym lift)
    ∙ bit_xor_fields 8 h 0 0 l (omega arith) p
    ∙ ap₂ (λ s t. s * 256 + t) (bit_xor-zero h) (bit_xor_comm 0 l ∙ bit_xor-zero l)
  where
    pad : h * 256 + 0 ≡ h * 256
    pad = omega arith

    lift : 0 * 256 + l ≡ l
    lift = omega arith

-- What leaves at the top of a 16-bit register is cut off.
cut_top : (c s : ℕ) → IsU16 c → IsU16 s → u16 (bit_xor (c * 256) s) ≡ bit_xor (c % 256 * 256) s
cut_top c s hc hs = omega (
  arith,
  bit_xor-lt 16 (c % 256 * 256) s (omega arith) hs,
  ap₂ bit_xor split lift,
  bit_xor_fields 16 (c / 256) (c % 256 * 256) 0 s (omega arith) hs,
)
  where
    split : c * 256 ≡ c / 256 * 65536 + c % 256 * 256
    split = omega arith

    lift : s ≡ 0 * 65536 + s
    lift = omega arith

shift_byte_split :
    (c b : ℕ)
    → IsU16 c
    → IsByte b
    → shift_byte c b ≡ bit_xor (c % 256 * 256) (shift_bits 8 (bit_xor (c / 256) b * 256))
unfolding shift_byte
shift_byte_split c b hc hb =
    ap (shift_bits 8) (enter_top c b ∙ sym (bit_xor_disjoint i l (omega arith)))
    ∙ shift_bits_linear 8 (i * 256) l (omega (arith, index-lt)) (omega arith)
    ∙ ap (bit_xor (shift_bits 8 (i * 256))) (shift_byte_low l (omega arith))
    ∙ bit_xor_comm (shift_bits 8 (i * 256)) (l * 256)
  where
    i : ℕ
    i = bit_xor (c / 256) b

    l : ℕ
    l = c % 256

    index-lt : IsByte i
    index-lt = bit_xor-lt 8 (c / 256) b (omega arith) hb

pub crc_step-shift_byte : (c b : ℕ) → IsU16 c → IsByte b → crc_step c b ≡ shift_byte c b
unfolding crc_step
crc_step-shift_byte c b hc hb =
    ap (λ j. u16 (bit_xor (c * 256) (byte_at crc_table j))) (omega (arith, index-lt))
    ∙ ap (λ s. u16 (bit_xor (c * 256) s)) (crc_table_lem i index-lt)
    ∙ cut_top c (shift_bits 8 (i * 256)) hc (shift_bits-lt 8 (i * 256) (omega (arith, index-lt)))
    ∙ sym (shift_byte_split c b hc hb)
  where
    i : ℕ
    i = bit_xor (c / 256) b

    index-lt : IsByte i
    index-lt = bit_xor-lt 8 (c / 256) b (omega arith) hb

pub crc_step-lt : (c b : ℕ) → IsU16 (crc_step c b)
unfolding crc_step
crc_step-lt c b = omega arith

pub calc_crc16-lt : (bytes : List ℕ) (c : ℕ) → IsU16 c → IsU16 (calc_crc16 bytes c)
unfolding calc_crc16
calc_crc16-lt [] c h = h
calc_crc16-lt (b ∷ bytes) c h = calc_crc16-lt bytes (crc_step c b) (crc_step-lt c b)

-- The table-driven loop computes what the bitwise shift register of CRC-16-CCITT computes, on every
-- sequence of bytes and from every 16-bit start.
pub calc_crc16-crc_register :
    (bytes : List ℕ) (c : ℕ)
    → All IsByte bytes
    → IsU16 c
    → calc_crc16 bytes c ≡ crc_register bytes c
unfolding calc_crc16 crc_register
calc_crc16-crc_register [] c hb hc = refl
calc_crc16-crc_register (b ∷ bytes) c hb hc =
    calc_crc16-crc_register bytes (crc_step c b) hb.1 (crc_step-lt c b)
    ∙ ap (crc_register bytes) (crc_step-shift_byte c b hc hb.0)

crc_step_inj : (c d b : ℕ) → IsU16 c → IsU16 d → IsByte b → crc_step c b ≡ crc_step d b → c ≡ d
crc_step_inj c d b hc hd hb e =
    shift_byte_inj c d b hc hd hb
      (sym (crc_step-shift_byte c b hc hb) ∙ e ∙ crc_step-shift_byte d b hd hb)

calc_crc16_inj :
    (bytes : List ℕ) (c d : ℕ)
    → All IsByte bytes
    → IsU16 c
    → IsU16 d
    → calc_crc16 bytes c ≡ calc_crc16 bytes d
    → c ≡ d
unfolding calc_crc16
calc_crc16_inj [] c d hb hc hd e = e
calc_crc16_inj (b ∷ bytes) c d hb hc hd e =
    crc_step_inj c d b hc hd hb.0 (
      calc_crc16_inj bytes (crc_step c b) (crc_step d b) hb.1 (crc_step-lt c b) (crc_step-lt d b) e)

pub calc_crc16-append :
    (xs ys : List ℕ) (c : ℕ) → calc_crc16 (xs ++ ys) c ≡ calc_crc16 ys (calc_crc16 xs c)
unfolding calc_crc16
calc_crc16-append [] ys c = refl
calc_crc16-append (x ∷ xs) ys c = calc_crc16-append xs ys (crc_step c x)

pub calc_crc16_read-lt : (bytes : List ℕ) → IsU16 (calc_crc16_read bytes)
unfolding calc_crc16_read
calc_crc16_read-lt bytes =
    bit_xor-lt 16 (calc_crc16 bytes crc_init) 0xffff (calc_crc16-lt bytes crc_init (omega arith))
      (omega arith)

one_byte :
    (ys : List ℕ) (c a b : ℕ)
    → IsU16 c
    → IsByte a
    → IsByte b
    → All IsByte ys
    → calc_crc16 (a ∷ ys) c ≡ calc_crc16 (b ∷ ys) c
    → a ≡ b
unfolding calc_crc16
one_byte ys c a b hc ha hb hy e = shift_byte_byte_inj c a b hc ha hb (
    sym (crc_step-shift_byte c a hc ha)
    ∙ calc_crc16_inj ys (crc_step c a) (crc_step c b) hy (crc_step-lt c a) (crc_step-lt c b) e
    ∙ crc_step-shift_byte c b hc hb)

-- Two messages that differ in exactly one byte never have the same checksum.
pub calc_crc16_read_one_byte :
    (xs ys : List ℕ) (a b : ℕ)
    → IsByte a
    → IsByte b
    → All IsByte ys
    → a ≢ b
    → calc_crc16_read (xs ++ a ∷ ys) ≢ calc_crc16_read (xs ++ b ∷ ys)
unfolding calc_crc16_read
calc_crc16_read_one_byte xs ys a b ha hb hy ne e = ne (
    one_byte ys (calc_crc16 xs crc_init) a b (calc_crc16-lt xs crc_init (omega arith)) ha hb hy (
      sym (calc_crc16-append xs (a ∷ ys) crc_init)
      ∙ bit_xor_right_inj _ _ 0xffff e
      ∙ calc_crc16-append xs (b ∷ ys) crc_init))
