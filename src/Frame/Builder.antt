-- ===== src/Frame/Builder.antt =====
-- components/alpha_hwr/frame_builder.cpp. A builder returns the bytes that it writes to `packet_out`;
-- `none` is the result 0, with nothing sent.
use esphome_alpha_hwr.Base.{
  ℕ, ◌+◌, ◌-◌, ◌/◌, ◌%◌, List, [], ◌∷◌, ◌++◌, Option, none, some, u8, length, drop, ltb,
  if◌then◌else◌,
}
use esphome_alpha_hwr.Codec.{calc_crc16_read, hi_byte, lo_byte}
use esphome_alpha_hwr.Frame.Layout.{frame_start, service_id_high, class_10, max_pdu_len}

-- The end of each builder: the checksum over everything behind the start byte.
unfoldable pub append_crc : List ℕ → List ℕ
append_crc packet =
    let crc = calc_crc16_read (drop 1 packet) in packet ++ (hi_byte crc ∷ lo_byte crc ∷ [])

unfoldable pub build_class10_read : ℕ → ℕ → List ℕ
unfolding append_crc
build_class10_read register_addr source = append_crc (
    frame_start
    ∷ 0x07
    ∷ service_id_high
    ∷ source
    ∷ class_10
    ∷ 0x03
    ∷ u8 (register_addr / 65536)
    ∷ u8 (register_addr / 256)
    ∷ u8 register_addr
    ∷ [])

-- The bits of `0x80 | op_bits`, where `op_bits` is below 64, do not overlap.
unfoldable pub build_data_object_set : ℕ → ℕ → List ℕ → ℕ → Option (List ℕ)
unfolding append_crc
build_data_object_set sub_id obj_id bytes source =
    let len = 1 + 1 + 1 + 1 + 2 + 2 + length bytes in
    let op_bits = (len - 4) % 64 in
    if ltb 59 (length bytes)
    then none
    else some (
        append_crc (
          frame_start
          ∷ u8 len
          ∷ service_id_high
          ∷ source
          ∷ class_10
          ∷ (0x80 + op_bits)
          ∷ hi_byte sub_id
          ∷ lo_byte sub_id
          ∷ hi_byte obj_id
          ∷ lo_byte obj_id
          ∷ bytes))

-- The register address in as few bytes as it needs.
unfoldable pub register_bytes : ℕ → List ℕ
register_bytes register_addr =
    if ltb 0xffff register_addr
    then u8 (register_addr / 65536) ∷ u8 (register_addr / 256) ∷ u8 register_addr ∷ []
    else if ltb 0xff register_addr
    then u8 (register_addr / 256) ∷ u8 register_addr ∷ []
    else u8 register_addr ∷ []

unfoldable pub build_command_info : ℕ → ℕ → ℕ → List ℕ
unfolding append_crc
build_command_info class_byte register_addr source =
    let reg = register_bytes register_addr in
    let len = 1 + 1 + 1 + 1 + length reg in
    append_crc
      (frame_start ∷ u8 len ∷ service_id_high ∷ source ∷ class_byte ∷ u8 (length reg) ∷ reg)

unfoldable pub build_geni_packet : ℕ → ℕ → List ℕ → Option (List ℕ)
unfolding append_crc
build_geni_packet service_id source apdu =
    let len = 1 + 1 + length apdu in
    if ltb max_pdu_len len
    then none
    else some (append_crc (frame_start ∷ u8 len ∷ service_id ∷ source ∷ apdu))
