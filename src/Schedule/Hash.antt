-- ===== src/Schedule/Hash.antt =====
-- schedule_codec.cpp: the hash of a schedule, without its text in hexadecimal.
use esphome_alpha_hwr.Base.{
  ℕ, ◌*◌, ◌%◌, ◌<◌, ◌≡◌, ◌≢◌, ◌∙◌, bit_xor, Bool, List, [], ◌∷◌, ◌++◌, arith, if◌then◌else◌, IsByte,
  All,
}
use esphome_alpha_hwr.Base.Xor.{bit_xor-lt, bit_xor_comm}
use esphome_alpha_hwr.Codec.Inverse.{bit_xor_right_inj}
use esphome_alpha_hwr.Schedule.Image.{canonicalize_layer_image}

abbrev pub fnv_offset : ℕ
fnv_offset = 0xcbf29ce484222325

unfoldable pub fnv_step : ℕ → ℕ → ℕ
fnv_step h b = bit_xor h b * 0x100000001b3 % 18446744073709551616

-- The loop of `fnv1a64`, from the value `h`.
unfoldable pub fnv_from : List ℕ → ℕ → ℕ
unfolding fnv_step
fnv_from [] h = h
fnv_from (b ∷ bytes) h = fnv_from bytes (fnv_step h b)

unfoldable pub fnv1a64 : List ℕ → ℕ
unfolding fnv_from
fnv1a64 bytes = fnv_from bytes fnv_offset

-- The bytes that are hashed.
unfoldable pub canonical_bytes : List (List ℕ) → Bool → List ℕ
unfolding canonicalize_layer_image
canonical_bytes [] schedule_enabled = (if schedule_enabled then 0x01 else 0x00) ∷ []
canonical_bytes (image ∷ images) schedule_enabled =
    canonicalize_layer_image image ++ canonical_bytes images schedule_enabled

unfoldable pub schedule_hash : List (List ℕ) → Bool → ℕ
unfolding canonical_bytes fnv1a64
schedule_hash images schedule_enabled = fnv1a64 (canonical_bytes images schedule_enabled)

abbrev IsU64 : ℕ → Type 0
IsU64 n = n < 18446744073709551616

-- The prime has an inverse modulo 2^64.
prime_inverse :
    (x : ℕ)
    → IsU64 x
    → x * 0x100000001b3 % 18446744073709551616 * 14886173955864302971 % 18446744073709551616 ≡ x
prime_inverse x h = omega arith

fnv_step-lt : (h b : ℕ) → IsU64 (fnv_step h b)
unfolding fnv_step
fnv_step-lt h b = omega arith

xor-lt : (h b : ℕ) → IsU64 h → IsByte b → IsU64 (bit_xor h b)
xor-lt h b p q = bit_xor-lt 64 h b p (omega arith)

fnv_step_left_inj : (g h b : ℕ) → IsU64 g → IsU64 h → IsByte b → fnv_step g b ≡ fnv_step h b → g ≡ h
unfolding fnv_step
fnv_step_left_inj g h b pg ph q e = bit_xor_right_inj g h b (
    omega (
      arith,
      e,
      prime_inverse (bit_xor g b) (xor-lt g b pg q),
      prime_inverse (bit_xor h b) (xor-lt h b ph q),
    ))

fnv_step_right_inj :
    (h a b : ℕ) → IsU64 h → IsByte a → IsByte b → fnv_step h a ≡ fnv_step h b → a ≡ b
unfolding fnv_step
fnv_step_right_inj h a b ph qa qb e = bit_xor_right_inj a b h (
    bit_xor_comm a h
    ∙ omega (
      arith,
      e,
      prime_inverse (bit_xor h a) (xor-lt h a ph qa),
      prime_inverse (bit_xor h b) (xor-lt h b ph qb),
    )
    ∙ bit_xor_comm h b)

fnv_from_inj :
    (bytes : List ℕ) (g h : ℕ)
    → All IsByte bytes
    → IsU64 g
    → IsU64 h
    → fnv_from bytes g ≡ fnv_from bytes h
    → g ≡ h
unfolding fnv_from
fnv_from_inj [] g h bs pg ph e = e
fnv_from_inj (b ∷ bytes) g h bs pg ph e =
    fnv_step_left_inj g h b pg ph bs.0
      (fnv_from_inj bytes (fnv_step g b) (fnv_step h b) bs.1 (fnv_step-lt g b) (fnv_step-lt h b) e)

fnv_from_one_byte :
    (xs ys : List ℕ) (a b h : ℕ)
    → IsU64 h
    → IsByte a
    → IsByte b
    → All IsByte ys
    → fnv_from (xs ++ a ∷ ys) h ≡ fnv_from (xs ++ b ∷ ys) h
    → a ≡ b
unfolding fnv_from
fnv_from_one_byte [] ys a b h ph qa qb bs e =
    fnv_step_right_inj h a b ph qa qb
      (fnv_from_inj ys (fnv_step h a) (fnv_step h b) bs (fnv_step-lt h a) (fnv_step-lt h b) e)
fnv_from_one_byte (x ∷ xs) ys a b h ph qa qb bs e =
    fnv_from_one_byte xs ys a b (fnv_step h x) (fnv_step-lt h x) qa qb bs e

-- Two schedules whose canonical bytes differ in exactly one byte never have the same hash.
pub fnv1a64_one_byte :
    (xs ys : List ℕ) (a b : ℕ)
    → IsByte a
    → IsByte b
    → All IsByte ys
    → a ≢ b
    → fnv1a64 (xs ++ a ∷ ys) ≢ fnv1a64 (xs ++ b ∷ ys)
unfolding fnv1a64
fnv1a64_one_byte xs ys a b qa qb bs ne e =
    ne (fnv_from_one_byte xs ys a b fnv_offset (omega arith) qa qb bs e)
