-- ===== src/Frame/Bounds.antt =====
-- What the parser hands out lies inside the telegram.
use esphome_alpha_hwr.Base.{ℕ, ◌+◌, ◌-◌, ◌≤◌, ◌≡◌, List, none, some, refl, length, arith}
use esphome_alpha_hwr.Codec.{byte_at, decode_uint16_be}
use esphome_alpha_hwr.Frame.Parser.{
  FrameType, request, response, ParsedFrame, set_payload, parse_class, parse_window, parse_declared,
  parse_frame, apdu1_end_of,
}

set_payload_bounds :
    (apdu1_end offset naive : ℕ) (f : ParsedFrame) {at : ℕ}
    → (set_payload apdu1_end offset naive f).payload ≡ some at
    → (at ≡ offset) × (at + (set_payload apdu1_end offset naive f).payload_len ≤ apdu1_end)
unfolding set_payload
set_payload_bounds apdu1_end offset naive f h = ground arith

apdu1_end_of-le : (bytes : List ℕ) (len : ℕ) → apdu1_end_of bytes len ≤ len - 2
unfolding apdu1_end_of
apdu1_end_of-le bytes len = ground arith

abbrev with_ids : ParsedFrame → List ℕ → ParsedFrame
with_ids f bytes = record f { sub_id = decode_uint16_be bytes 6; obj_id = decode_uint16_be bytes 8 }

parse_class_bounds :
    (bytes : List ℕ) (len apdu1_end : ℕ) (f : ParsedFrame) {at : ℕ}
    → f.payload ≡ none
    → (parse_class bytes len apdu1_end f).payload ≡ some at
    → (6 ≤ at) × (at + (parse_class bytes len apdu1_end f).payload_len ≤ apdu1_end)
unfolding parse_class
parse_class_bounds bytes len apdu1_end f {at} u h = ground (
  arith,
  set_payload_bounds apdu1_end 13 (len - 15) (with_ids f bytes) {at = at},
  set_payload_bounds apdu1_end 10 (len - 12) (with_ids f bytes) {at = at},
  set_payload_bounds apdu1_end 6 (len - 8) f {at = at},
)

parse_window_bounds :
    (t : FrameType) (bytes : List ℕ) (len : ℕ) {at : ℕ}
    → (parse_window t bytes len).payload ≡ some at
    → (6 ≤ at) × (at + (parse_window t bytes len).payload_len ≤ len - 2)
unfolding parse_window
parse_window_bounds t bytes len h =
    let within = parse_class_bounds bytes len (apdu1_end_of bytes len) _ refl h in
    omega (arith, within, apdu1_end_of-le bytes len)

parse_declared_bounds :
    (t : FrameType) (bytes : List ℕ) {at : ℕ}
    → (parse_declared t bytes).payload ≡ some at
    → (6 ≤ at)
      × (at + (parse_declared t bytes).payload_len ≤ byte_at bytes 1 + 2)
      × (byte_at bytes 1 + 4 ≤ length bytes)
unfolding parse_declared
parse_declared_bounds t bytes {at} h = ground (
  arith,
  parse_window_bounds t bytes (length bytes) {at = at},
  parse_window_bounds t bytes (byte_at bytes 1 + 4) {at = at},
)

-- A payload that `parse_frame` reports starts behind the six header bytes and ends before the
-- checksum, at the place that the length byte gives, which is inside the buffer; so a reader that
-- keeps to `payload_len` never leaves the buffer, for any bytes at all.
pub parse_frame_bounds :
    (bytes : List ℕ) (at : ℕ)
    → (parse_frame bytes).payload ≡ some at
    → (6 ≤ at)
      × (at + (parse_frame bytes).payload_len ≤ byte_at bytes 1 + 2)
      × (byte_at bytes 1 + 4 ≤ length bytes)
unfolding parse_frame
parse_frame_bounds bytes at h = ground (
  arith,
  parse_declared_bounds request bytes {at = at},
  parse_declared_bounds response bytes {at = at},
)
