-- ===== src/Frame/Generic.antt =====
-- Every builder is the generic one, `build_geni_packet`, at its own APDU.
use esphome_alpha_hwr.Base.{
  ℕ, suc, ◌+◌, ◌/◌, ◌≤◌, ◌<◌, ◌≡◌, ◌↔◌, refl, sym, ap₂, ◌∙◌, append-nil, true, List, [], ◌∷◌, none,
  some, arith, length, u8,
}
use esphome_alpha_hwr.Codec.{byte_at, hi_byte, lo_byte}
use esphome_alpha_hwr.Frame.Layout.{frame_start, service_id_high, class_10}
use esphome_alpha_hwr.Frame.Builder.{
  append_crc, build_class10_read, build_data_object_set, register_bytes, build_command_info,
  build_geni_packet,
}
use esphome_alpha_hwr.Frame.Parser.{frame_crc_valid}
use esphome_alpha_hwr.Frame.Sealed.{frame_crc_valid-append_crc}
use esphome_alpha_hwr.Frame.RoundTrip.{length-append_crc}

-- A register address takes one to three bytes.
register_bytes_bounds : (r : ℕ) → (1 ≤ length (register_bytes r)) × (length (register_bytes r) ≤ 3)
unfolding register_bytes
register_bytes_bounds r = ground arith

-- `build_geni_packet` refuses an APDU just when it is longer than 251 bytes.
pub build_geni_packet_refuses :
    (service_id source : ℕ) (apdu : List ℕ)
    → (build_geni_packet service_id source apdu ≡ none) ↔ (251 < length apdu)
unfolding build_geni_packet
build_geni_packet_refuses service_id source apdu = ground arith

accepts :
    (service_id source : ℕ) (apdu : List ℕ) {packet : List ℕ}
    → build_geni_packet service_id source apdu ≡ some packet
    → (packet ≡ append_crc (frame_start ∷ (length apdu + 2) ∷ service_id ∷ source ∷ apdu))
      × (length apdu ≤ 251)
unfolding build_geni_packet
accepts service_id source apdu e = ground arith

-- The three special builders write what the generic one writes for their APDU: the register read,
-- the register command of any class, and, up to 59 bytes of data, the SET.
pub build_geni_packet-builders :
    (class_byte reg sub_id obj_id source : ℕ) (bytes : List ℕ)
    → length bytes ≤ 59
    → (build_geni_packet service_id_high source
          (class_10 ∷ 0x03 ∷ u8 (reg / 65536) ∷ u8 (reg / 256) ∷ u8 reg ∷ [])
        ≡ some (build_class10_read reg source))
      × (build_geni_packet service_id_high source
            (class_byte ∷ length (register_bytes reg) ∷ register_bytes reg)
          ≡ some (build_command_info class_byte reg source))
      × (build_geni_packet service_id_high source (
            class_10
            ∷ (0x84 + length bytes)
            ∷ hi_byte sub_id
            ∷ lo_byte sub_id
            ∷ hi_byte obj_id
            ∷ lo_byte obj_id
            ∷ bytes)
          ≡ build_data_object_set sub_id obj_id bytes source)
unfolding build_geni_packet build_class10_read build_command_info build_data_object_set
build_geni_packet-builders class_byte reg sub_id obj_id source bytes h =
    (refl, ground (arith, register_bytes_bounds reg), ground arith)

-- A telegram from `build_geni_packet` is six bytes longer than its APDU, which has at most 251 bytes,
-- so that it fits the buffer of 259 bytes; it declares its own length and passes the checksum test.
pub build_geni_packet_sealed :
    (service_id source : ℕ) (apdu packet : List ℕ)
    → build_geni_packet service_id source apdu ≡ some packet
    → (length packet ≡ length apdu + 6)
      × (length packet ≤ 257)
      × (length packet ≡ byte_at packet 1 + 4)
      × (frame_crc_valid packet (length packet) ≡ true)
build_geni_packet_sealed service_id source apdu packet e =
    rw shape
      (omega (arith, size, fits), omega (arith, size, fits), omega (arith, size, second), checked)
  where
    body : List ℕ
    body = (length apdu + 2) ∷ service_id ∷ source ∷ apdu

    built : List ℕ
    built = append_crc (frame_start ∷ body)

    shape : packet ≡ built
    shape = (accepts service_id source apdu e).0

    fits : length apdu ≤ 251
    fits = (accepts service_id source apdu e).1

    size : length built ≡ suc (length body) + 2
    size = length-append_crc (frame_start ∷ body)

    second : byte_at built 1 ≡ length apdu + 2
    second = unfold append_crc in refl

    checked : frame_crc_valid built (length built) ≡ true
    checked =
        ap₂ frame_crc_valid (sym (append-nil built)) (omega (arith, size))
        ∙ frame_crc_valid-append_crc frame_start body [] (omega arith)
