-- ===== src/Frame/RoundTrip.antt =====
-- The parser reads back what the builders write.
use esphome_alpha_hwr.Base.{
  ℕ, suc, ◌+◌, ◌≤◌, ◌<◌, ◌≡◌, refl, sym, ap, ap₂, ◌∙◌, true, false, List, [], ◌∷◌, none, some,
  arith, length, length-append, take-append, append-nil, IsU16, ◌==◌, if◌then◌else◌,
}
use esphome_alpha_hwr.Codec.{byte_at, calc_crc16_read, decode_uint16_be, hi_byte, lo_byte}
use esphome_alpha_hwr.Frame.Layout.{frame_start, service_id_high, class_10}
use esphome_alpha_hwr.Frame.Builder.{append_crc, build_data_object_set}
use esphome_alpha_hwr.Frame.Parser.{
  request, ParsedFrame, frame_crc_valid, set_payload, parse_class, apdu1_end_of, parse_window,
  parse_declared, parse_frame, payload_bytes,
}
use esphome_alpha_hwr.Frame.Sealed.{frame_crc_valid-append_crc}

pub length-append_crc : (packet : List ℕ) → length (append_crc packet) ≡ length packet + 2
unfolding append_crc
length-append_crc packet = length-append packet _

-- A request whose length byte is true reaches the class-specific part with its checksum accepted.
parse_frame_request :
    (rest : List ℕ)
    → 4 ≤ length rest
    → length rest < 256
    → (parse_frame (append_crc (frame_start ∷ length rest ∷ rest))
        ≡ parse_window request (append_crc (frame_start ∷ length rest ∷ rest)) (length rest + 4))
      × (frame_crc_valid (append_crc (frame_start ∷ length rest ∷ rest)) (length rest + 4) ≡ true)
unfolding parse_frame parse_declared
parse_frame_request rest lo hi = (ground (arith, size, first, second), checked)
  where
    packet : List ℕ
    packet = append_crc (frame_start ∷ length rest ∷ rest)

    size : length packet ≡ suc (suc (length rest)) + 2
    size = length-append_crc (frame_start ∷ length rest ∷ rest)

    first : byte_at packet 0 ≡ frame_start
    first = unfold append_crc in refl

    second : byte_at packet 1 ≡ length rest
    second = unfold append_crc in refl

    checked : frame_crc_valid packet (length rest + 4) ≡ true
    checked =
        ap₂ frame_crc_valid (sym (append-nil packet)) (omega arith)
        ∙ frame_crc_valid-append_crc frame_start (length rest ∷ rest) [] (omega arith)

-- What the parser should report of a SET of `bytes` to an object.
abbrev pub set_frame : ℕ → ℕ → List ℕ → ParsedFrame
set_frame sub_id obj_id bytes = record {
  valid = true;
  frame_type = request;
  class_byte = class_10;
  opspec = 0x84 + length bytes;
  sub_id = sub_id;
  obj_id = obj_id;
  payload = if length bytes == 0 then none else some 10;
  payload_len = length bytes;
  crc_valid = true;
  multi_apdu = false;
}

abbrev set_rest : ℕ → ℕ → List ℕ → ℕ → List ℕ
set_rest sub_id obj_id bytes source =
    service_id_high
    ∷ source
    ∷ class_10
    ∷ (0x84 + length bytes)
    ∷ hi_byte sub_id
    ∷ lo_byte sub_id
    ∷ hi_byte obj_id
    ∷ lo_byte obj_id
    ∷ bytes

abbrev set_packet : ℕ → ℕ → List ℕ → ℕ → List ℕ
set_packet sub_id obj_id bytes source = append_crc (
    frame_start
    ∷ length (set_rest sub_id obj_id bytes source)
    ∷ set_rest sub_id obj_id bytes source)

build_data_object_set_lem :
    (sub_id obj_id source : ℕ) (bytes : List ℕ)
    → length bytes ≤ 59
    → build_data_object_set sub_id obj_id bytes source
      ≡ some (set_packet sub_id obj_id bytes source)
unfolding build_data_object_set
build_data_object_set_lem sub_id obj_id source bytes h = ground arith

parse_set_window :
    (sub_id obj_id source : ℕ) (bytes : List ℕ)
    → IsU16 sub_id
    → IsU16 obj_id
    → length bytes ≤ 59
    → frame_crc_valid (set_packet sub_id obj_id bytes source) (length bytes + 8 + 4) ≡ true
    → parse_window request (set_packet sub_id obj_id bytes source) (length bytes + 8 + 4)
      ≡ set_frame sub_id obj_id bytes
unfolding parse_window parse_class apdu1_end_of set_payload append_crc decode_uint16_be
parse_set_window sub_id obj_id source bytes hs ho h c = ground arith

set_payload_read :
    (sub_id obj_id source : ℕ) (bytes : List ℕ)
    → payload_bytes (set_packet sub_id obj_id bytes source) (set_frame sub_id obj_id bytes) ≡ bytes
unfolding append_crc
set_payload_read sub_id obj_id source [] = refl
set_payload_read sub_id obj_id source (b ∷ bytes) =
    ground (arith, take-append (b ∷ bytes) (hi_byte crc ∷ lo_byte crc ∷ []))
  where
    rest : List ℕ
    rest = set_rest sub_id obj_id (b ∷ bytes) source

    crc : ℕ
    crc = calc_crc16_read (length rest ∷ rest)

-- The parser reads a SET back as it was built: for 16-bit ids and at most 59 bytes of data it
-- reports a valid request with an accepted checksum, class 10, both ids, no further APDU, and exactly
-- the data as payload.
pub parse_frame-build_data_object_set :
    (sub_id obj_id source : ℕ) (bytes packet : List ℕ)
    → IsU16 sub_id
    → IsU16 obj_id
    → length bytes ≤ 59
    → build_data_object_set sub_id obj_id bytes source ≡ some packet
    → (parse_frame packet ≡ set_frame sub_id obj_id bytes)
      × (payload_bytes packet (parse_frame packet) ≡ bytes)
parse_frame-build_data_object_set sub_id obj_id source bytes packet hs ho h e =
    rw (← same)
      (parsed, ap (payload_bytes built) parsed ∙ set_payload_read sub_id obj_id source bytes)
  where
    built : List ℕ
    built = set_packet sub_id obj_id bytes source

    same : built ≡ packet
    same = cc (build_data_object_set_lem sub_id obj_id source bytes h)

    through :
        (parse_frame built
          ≡ parse_window request built (length (set_rest sub_id obj_id bytes source) + 4))
        × (frame_crc_valid built (length (set_rest sub_id obj_id bytes source) + 4) ≡ true)
    through = parse_frame_request (set_rest sub_id obj_id bytes source) (omega arith) (omega arith)

    size : length (set_rest sub_id obj_id bytes source) + 4 ≡ length bytes + 8 + 4
    size = omega arith

    parsed : parse_frame built ≡ set_frame sub_id obj_id bytes
    parsed =
        through.0
        ∙ ap (parse_window request built) size
        ∙ parse_set_window sub_id obj_id source bytes hs ho h
            (ap (frame_crc_valid built) (sym size) ∙ through.1)
