-- ===== src/Frame/Examples.antt =====
-- Runs of the builders and of the parser on fixed telegrams.
use esphome_alpha_hwr.Base.{
  ℕ, ◌+◌, ◌≤◌, ◌<◌, ◌≡◌, ◌↔◌, refl, arith, true, false, List, [], ◌∷◌, ◌++◌, none, some, length,
}
use esphome_alpha_hwr.Codec.{
  crc_table, crc_step, calc_crc16, calc_crc16_read, byte_at, decode_uint16_be,
}
use esphome_alpha_hwr.Frame.Builder.{
  append_crc, build_class10_read, build_data_object_set, register_bytes, build_command_info,
  build_geni_packet,
}
use esphome_alpha_hwr.Frame.Parser.{
  frame_crc_valid, parse_frame, payload_bytes, set_payload, parse_class, apdu1_end_of, parse_window,
  parse_declared,
}
use esphome_alpha_hwr.Frame.Sealed.{frame_crc_valid_corrupt}
use esphome_alpha_hwr.Frame.RoundTrip.{parse_frame-build_data_object_set, set_frame}
use esphome_alpha_hwr.Frame.Bounds.{parse_frame_bounds}
use esphome_alpha_hwr.Frame.Generic.{build_geni_packet_refuses}

codec : Unit {0}
unfolding calc_crc16_read calc_crc16 crc_step crc_table decode_uint16_be
codec = tt

builders : Unit {0}
unfolding codec append_crc build_class10_read build_data_object_set build_command_info
    build_geni_packet register_bytes
builders = tt

-- A SET of two bytes.
abbrev set_telegram : List ℕ
set_telegram =
    0x27 ∷ 0x0a ∷ 0xe7 ∷ 0xf8 ∷ 0x0a ∷ 0x86 ∷ 0x01 ∷ 0xae ∷ 0x00 ∷ 0x5b ∷ 0x11 ∷ 0x22 ∷ 0x06 ∷ 0x13
    ∷ []

set_built : build_data_object_set 430 91 (0x11 ∷ 0x22 ∷ []) 0xf8 ≡ some set_telegram
unfolding builders
set_built = refl

parse_frame-build_data_object_set_example :
    (parse_frame set_telegram ≡ set_frame 430 91 (0x11 ∷ 0x22 ∷ []))
    × (payload_bytes set_telegram (parse_frame set_telegram) ≡ 0x11 ∷ 0x22 ∷ [])
parse_frame-build_data_object_set_example =
    parse_frame-build_data_object_set 430 91 0xf8 (0x11 ∷ 0x22 ∷ []) set_telegram (omega arith)
      (omega arith) (omega arith) set_built

set_read : (parse_frame set_telegram).payload ≡ some 10
unfolding codec parse_frame parse_declared parse_window parse_class set_payload apdu1_end_of
    frame_crc_valid
set_read = refl

parse_frame_bounds_example :
    (6 ≤ 10)
    × (10 + (parse_frame set_telegram).payload_len ≤ byte_at set_telegram 1 + 2)
    × (byte_at set_telegram 1 + 4 ≤ length set_telegram)
parse_frame_bounds_example = parse_frame_bounds set_telegram 10 set_read

read_telegram :
    build_geni_packet 0xe7 0xf8 (0x03 ∷ 0x01 ∷ 0x02 ∷ [])
    ≡ some (0x27 ∷ 0x05 ∷ 0xe7 ∷ 0xf8 ∷ 0x03 ∷ 0x01 ∷ 0x02 ∷ 0xbe ∷ 0x9b ∷ [])
unfolding builders
read_telegram = refl

build_geni_packet_refuses_example :
    (build_geni_packet 0xe7 0xf8 (0x03 ∷ 0x01 ∷ 0x02 ∷ []) ≡ none) ↔ (251 < 3)
build_geni_packet_refuses_example = build_geni_packet_refuses 0xe7 0xf8 (0x03 ∷ 0x01 ∷ 0x02 ∷ [])

good_telegram :
    frame_crc_valid
      (0x27 ∷ (((0x05 ∷ 0xe7 ∷ []) ++ 0xf8 ∷ (0x03 ∷ 0x01 ∷ 0x02 ∷ 0xbe ∷ 0x9b ∷ [])) ++ []))
      9
    ≡ true
unfolding codec frame_crc_valid
good_telegram = refl

frame_crc_valid_corrupt_example :
    frame_crc_valid
      (0x27 ∷ (((0x05 ∷ 0xe7 ∷ []) ++ 0x78 ∷ (0x03 ∷ 0x01 ∷ 0x02 ∷ 0xbe ∷ 0x9b ∷ [])) ++ []))
      9
    ≡ false
frame_crc_valid_corrupt_example =
    frame_crc_valid_corrupt 0x27 (0x05 ∷ 0xe7 ∷ []) (0x03 ∷ 0x01 ∷ 0x02 ∷ 0xbe ∷ 0x9b ∷ []) [] 0xf8
      0x78 (omega arith) (omega arith) (omega arith) (λ e. omega (arith, e)) (omega arith)
      good_telegram
