-- ===== src/Codec/Examples.antt =====
-- Runs of codec.cpp on fixed bytes.
use esphome_alpha_hwr.Base.{ℕ, ◌≡◌, refl, arith, List, [], ◌∷◌}
use esphome_alpha_hwr.Codec.{crc_table, crc_step, calc_crc16, crc_init}
use esphome_alpha_hwr.Codec.Shift.{crc_register}
use esphome_alpha_hwr.Codec.Crc.{calc_crc16-crc_register}

-- The check value of CRC-16-CCITT for "123456789".
abbrev digits : List ℕ
digits = 0x31 ∷ 0x32 ∷ 0x33 ∷ 0x34 ∷ 0x35 ∷ 0x36 ∷ 0x37 ∷ 0x38 ∷ 0x39 ∷ []

check_value : calc_crc16 digits crc_init ≡ 0x29b1
unfolding calc_crc16 crc_step crc_table
check_value = refl

calc_crc16-crc_register_example : calc_crc16 digits crc_init ≡ crc_register digits crc_init
calc_crc16-crc_register_example =
    calc_crc16-crc_register digits crc_init (omega arith) (omega arith)
