-- ===== src/Frame/Parser.antt =====
-- components/alpha_hwr/frame_parser.cpp. The buffer is the list of its bytes, so the null check of
-- `frame_crc_valid` has no counterpart; a payload pointer is its offset into the buffer.
use esphome_alpha_hwr.Base.{
  ℕ, ◌+◌, ◌-◌, ◌%◌, Bool, true, false, not, ◌&&◌, ◌||◌, List, [], Option, none, some, length, take,
  drop, ltb, leb, ◌==◌, if◌then◌else◌,
}
use esphome_alpha_hwr.Codec.{byte_at, calc_crc16_read, decode_uint16_be}
use esphome_alpha_hwr.Frame.Layout.{frame_start, response_start, class_10}

pub data FrameType : Type 0 where
  invalid request response : FrameType

pub record ParsedFrame : Type 0 where
  pub valid : Bool
  pub frame_type : FrameType
  pub class_byte : ℕ
  pub opspec : ℕ
  pub sub_id : ℕ
  pub obj_id : ℕ
  pub payload : Option ℕ
  pub payload_len : ℕ
  pub crc_valid : Bool
  pub multi_apdu : Bool

abbrev pub empty_frame : ParsedFrame
empty_frame = record {
  valid = false;
  frame_type = invalid;
  class_byte = 0;
  opspec = 0;
  sub_id = 0;
  obj_id = 0;
  payload = none;
  payload_len = 0;
  crc_valid = false;
  multi_apdu = false;
}

-- `len` is the length of the window, which may be shorter than the buffer.
unfoldable pub frame_crc_valid : List ℕ → ℕ → Bool
frame_crc_valid bytes len =
    if ltb len 4
    then false
    else calc_crc16_read (take (len - 3) (drop 1 bytes)) == decode_uint16_be bytes (len - 2)

-- The lambda `set_payload`.
unfoldable pub set_payload : ℕ → ℕ → ℕ → ParsedFrame → ParsedFrame
set_payload apdu1_end offset naive_len f =
    let bounded = apdu1_end - offset in
    if leb apdu1_end offset then record f { payload = none; payload_len = 0 } else record f {
      payload = some offset;
      payload_len = if ltb naive_len bounded then naive_len else bounded;
    }

-- The OpSpecs of register-read replies.
abbrev pub is_register_reply : ℕ → Bool
is_register_reply opspec =
    (opspec == 0x30)
    || (opspec == 0x2b)
    || (opspec == 0x14)
    || (opspec == 0x09)
    || (opspec == 0x2e)
    || (opspec == 0x2d)

-- The arms "Parse based on class".
unfoldable pub parse_class : List ℕ → ℕ → ℕ → ParsedFrame → ParsedFrame
parse_class bytes len apdu1_end f =
    let ids = record f { sub_id = decode_uint16_be bytes 6; obj_id = decode_uint16_be bytes 8 } in
    if (f.class_byte == class_10) && ltb 5 len
    then (if is_register_reply f.opspec
        then (if leb 15 len then set_payload apdu1_end 13 (len - 15) ids else f)
        else (if leb 12 len then set_payload apdu1_end 10 (len - 12) ids else f))
    else (if leb 8 len then set_payload apdu1_end 6 (len - 8) f else f)

-- Where the first APDU ends.
unfoldable pub apdu1_end_of : List ℕ → ℕ → ℕ
apdu1_end_of bytes len =
    let declared = if ltb 5 len then 6 + byte_at bytes 5 % 64 else 6 in
    if ltb (len - 2) declared then len - 2 else declared

-- From the checksum on, in the window of `len` bytes.
unfoldable pub parse_window : FrameType → List ℕ → ℕ → ParsedFrame
parse_window frame_type bytes len =
    let apdu1_end = apdu1_end_of bytes len in
    parse_class bytes len apdu1_end (record empty_frame {
      valid = true;
      frame_type = frame_type;
      crc_valid = frame_crc_valid bytes len;
      class_byte = if ltb 4 len then byte_at bytes 4 else 0;
      opspec = if ltb 5 len then byte_at bytes 5 else 0;
      multi_apdu = ltb apdu1_end (len - 2);
    })

-- The checks of the length byte, and the clamp to the declared length.
unfoldable pub parse_declared : FrameType → List ℕ → ParsedFrame
parse_declared frame_type bytes =
    let len = length bytes in
    let expected_total = byte_at bytes 1 + 4 in
    if ltb len expected_total
    then record empty_frame { frame_type = frame_type }
    else if ltb expected_total 8
    then record empty_frame { frame_type = frame_type }
    else parse_window frame_type bytes (if ltb expected_total len then expected_total else len)

unfoldable pub parse_frame : List ℕ → ParsedFrame
parse_frame bytes =
    if ltb (length bytes) 8
    then empty_frame
    else if byte_at bytes 0 == response_start
    then parse_declared response bytes
    else if byte_at bytes 0 == frame_start
    then parse_declared request bytes
    else empty_frame

unfoldable pub validate_frame_integrity : ParsedFrame → Bool
validate_frame_integrity f =
    if not f.valid
    then false
    else if not f.crc_valid
    then false
    else if f.class_byte == 0
    then false
    else true

-- One line of the table of telemetry objects.
abbrev names_object : ParsedFrame → ℕ → ℕ → Bool
names_object f obj_id sub_id = (f.obj_id == obj_id) && (f.sub_id == sub_id)

unfoldable pub is_telemetry_frame : ParsedFrame → Bool
is_telemetry_frame f =
    if not f.valid || not (f.class_byte == class_10)
    then false
    else names_object f 87 69
      || names_object f 93 290
      || names_object f 93 300
      || names_object f 88 0
      || names_object f 88 11
      || names_object f 3 1
      || names_object f 0x2d01 1
      || names_object f 0x1602 2

-- The payload bytes that a frame shows its reader.
abbrev pub payload_bytes : List ℕ → ParsedFrame → List ℕ
payload_bytes bytes f = elim f.payload [
  | none ↦ []
  | some offset ↦ take f.payload_len (drop offset bytes)
]
