-- ===== src/Codec/Bytes.antt =====
-- The big-endian encodings read back, wherever in a buffer they stand.
use esphome_alpha_hwr.Base.{
  ℕ, ◌+◌, ◌*◌, ◌/◌, ◌%◌, ◌≡◌, ap₂, ap, List, [], ◌∷◌, ◌++◌, arith, length, get_or-append_right,
  IsU16, IsU32, IsByte, u32,
}
use esphome_alpha_hwr.Codec.{
  byte_at, encode_uint16_be, decode_uint16_be, encode_uint32_be, decode_uint32_be, encode_float_be,
  decode_float_be,
}

-- A byte behind `pre` is the byte of what follows.
pub byte_at_behind :
    (pre rest : List ℕ) (i : ℕ) → byte_at (pre ++ rest) (length pre + i) ≡ byte_at rest i
byte_at_behind pre rest i = get_or-append_right pre rest i 0

pub byte_at_start : (pre rest : List ℕ) → byte_at (pre ++ rest) (length pre) ≡ byte_at rest 0
byte_at_start pre rest = omega (arith, byte_at_behind pre rest 0, ap (byte_at (pre ++ rest)) end)
  where
    end : length pre + 0 ≡ length pre
    end = omega arith

-- A 16-bit value that was encoded anywhere in a buffer is read back.
pub decode-encode_uint16_be :
    (pre post : List ℕ) (w : ℕ)
    → IsU16 w
    → decode_uint16_be (pre ++ (encode_uint16_be w ++ post)) (length pre) ≡ w
unfolding decode_uint16_be encode_uint16_be
decode-encode_uint16_be pre post w h = omega (
  arith,
  byte_at_start pre (w / 256 % 256 ∷ w % 256 ∷ post),
  byte_at_behind pre (w / 256 % 256 ∷ w % 256 ∷ post) 1,
)

word_bytes : ℕ → List ℕ → List ℕ
word_bytes w post = w / 16777216 % 256 ∷ w / 65536 % 256 ∷ w / 256 % 256 ∷ w % 256 ∷ post

word_read : List ℕ → ℕ → ℕ
word_read bytes offset =
    u32 (byte_at bytes offset * 16777216)
    + byte_at bytes (offset + 1) * 65536
    + byte_at bytes (offset + 2) * 256
    + byte_at bytes (offset + 3)

word_read-word_bytes :
    (pre post : List ℕ) (w : ℕ) → IsU32 w → word_read (pre ++ word_bytes w post) (length pre) ≡ w
unfolding word_read word_bytes
word_read-word_bytes pre post w h = omega (
  arith,
  byte_at_start pre (word_bytes w post),
  byte_at_behind pre (word_bytes w post) 1,
  byte_at_behind pre (word_bytes w post) 2,
  byte_at_behind pre (word_bytes w post) 3,
)

-- A 32-bit value, and a float by its pattern, that was encoded anywhere in a buffer is read back.
pub decode-encode_uint32_be :
    (pre post : List ℕ) (w : ℕ)
    → IsU32 w
    → (decode_uint32_be (pre ++ (encode_uint32_be w ++ post)) (length pre) ≡ w)
      × (decode_float_be (pre ++ (encode_float_be w ++ post)) (length pre) ≡ w)
unfolding decode_uint32_be encode_uint32_be decode_float_be encode_float_be
decode-encode_uint32_be pre post w h =
    unfold word_read word_bytes in
    (word_read-word_bytes pre post w h, word_read-word_bytes pre post w h)

-- Two bytes are the encoding of the value that they decode to.
pub encode-decode_uint16_be :
    (h l : ℕ)
    → IsByte h
    → IsByte l
    → encode_uint16_be (decode_uint16_be (h ∷ l ∷ []) 0) ≡ h ∷ l ∷ []
unfolding encode_uint16_be decode_uint16_be
encode-decode_uint16_be h l hh hl = ap₂ (λ a b. a ∷ b ∷ []) (omega arith) (omega arith)
