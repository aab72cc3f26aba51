-- ===== src/Codec.antt =====
-- components/alpha_hwr/codec.cpp: the checksum and the big-endian encodings. A buffer is the list of
-- its bytes, a `float` is its 32-bit pattern (the code copies the pattern by `memcpy`), and `|` of
-- bytes shifted to different places is a sum. A read past the end of a buffer, undefined in C++,
-- reads 0 here.
mod Table
pub mod Shift
pub mod Inverse
pub mod Crc
pub mod Bytes
mod Examples
unfoldable pub use Table.{crc_table}
use esphome_alpha_hwr.Base.{ℕ, ◌+◌, ◌*◌, ◌/◌, ◌%◌, List, [], ◌∷◌, bit_xor, u8, u16, u32, get_or}

abbrev pub byte_at : List ℕ → ℕ → ℕ
byte_at bytes i = get_or bytes i 0

-- One round of the loop of `calc_crc16`.
unfoldable pub crc_step : ℕ → ℕ → ℕ
crc_step crc b = u16 (bit_xor (crc * 256) (byte_at crc_table (u8 (bit_xor (crc / 256) b))))

-- The loop over the bytes of the buffer, from the value `crc`.
unfoldable pub calc_crc16 : List ℕ → ℕ → ℕ
calc_crc16 [] crc = crc
calc_crc16 (b ∷ bytes) crc = calc_crc16 bytes (crc_step crc b)

abbrev pub crc_init : ℕ
crc_init = 0xffff

unfoldable pub calc_crc16_read : List ℕ → ℕ
calc_crc16_read bytes = bit_xor (calc_crc16 bytes crc_init) 0xffff

abbrev pub hi_byte : ℕ → ℕ
hi_byte w = u8 (w / 256)

abbrev pub lo_byte : ℕ → ℕ
lo_byte w = u8 w

unfoldable pub encode_uint16_be : ℕ → List ℕ
encode_uint16_be value = hi_byte value ∷ lo_byte value ∷ []

unfoldable pub decode_uint16_be : List ℕ → ℕ → ℕ
decode_uint16_be bytes offset = u16 (byte_at bytes offset * 256) + byte_at bytes (offset + 1)

unfoldable pub encode_uint32_be : ℕ → List ℕ
encode_uint32_be value =
    u8 (value / 16777216) ∷ u8 (value / 65536) ∷ u8 (value / 256) ∷ u8 value ∷ []

unfoldable pub decode_uint32_be : List ℕ → ℕ → ℕ
decode_uint32_be bytes offset =
    u32 (byte_at bytes offset * 16777216)
    + byte_at bytes (offset + 1) * 65536
    + byte_at bytes (offset + 2) * 256
    + byte_at bytes (offset + 3)

-- The argument and the result are the pattern of the float.
unfoldable pub encode_float_be : ℕ → List ℕ
encode_float_be bits = u8 (bits / 16777216) ∷ u8 (bits / 65536) ∷ u8 (bits / 256) ∷ u8 bits ∷ []

unfoldable pub decode_float_be : List ℕ → ℕ → ℕ
decode_float_be bytes offset =
    u32 (byte_at bytes offset * 16777216)
    + byte_at bytes (offset + 1) * 65536
    + byte_at bytes (offset + 2) * 256
    + byte_at bytes (offset + 3)
