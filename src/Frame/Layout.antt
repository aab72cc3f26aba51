-- ===== src/Frame/Layout.antt =====
-- The constants of frame_builder.h and frame_parser.h.
use esphome_alpha_hwr.Base.{ℕ}

abbrev pub frame_start : ℕ
frame_start = 0x27

abbrev pub response_start : ℕ
response_start = 0x24

abbrev pub service_id_high : ℕ
service_id_high = 0xe7

abbrev pub source_address : ℕ
source_address = 0xf8

abbrev pub class_10 : ℕ
class_10 = 0x0a

abbrev pub max_telegram_len : ℕ
max_telegram_len = 259

abbrev pub max_pdu_len : ℕ
max_pdu_len = 253

abbrev pub min_length_field : ℕ
min_length_field = 4
