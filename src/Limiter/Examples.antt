-- ===== src/Limiter/Examples.antt =====
-- A limit of the flow that is changed.
use esphome_alpha_hwr.Base.{ℕ, ◌≡◌, refl, arith, true, false, List, [], ◌∷◌, some, length}
use esphome_alpha_hwr.Codec.{encode_float_be}
use esphome_alpha_hwr.Limiter.{
  LimiterConfig, max_flow, decode_limiter_config, build_limiter_write_body,
  decode-build_limiter_write_body,
}

abbrev cached : LimiterConfig
cached = record {
  valid = true;
  name = max_flow;
  enabled = false;
  limit_m3s = 0x3a000000;
  pid_raw = 1 ∷ 2 ∷ 3 ∷ 4 ∷ 5 ∷ 6 ∷ 7 ∷ 8 ∷ 9 ∷ 10 ∷ 11 ∷ 12 ∷ [];
}

abbrev body : List ℕ
body = 1 ∷ 1 ∷ 0x39 ∷ 0x80 ∷ 0 ∷ 0 ∷ 1 ∷ 2 ∷ 3 ∷ 4 ∷ 5 ∷ 6 ∷ 7 ∷ 8 ∷ 9 ∷ 10 ∷ 11 ∷ 12 ∷ []

body_written : build_limiter_write_body cached true 0x39800000 ≡ some body
unfolding build_limiter_write_body encode_float_be
body_written = refl

decode-build_limiter_write_body_example :
    (length body ≡ 18)
    × (decode_limiter_config body ≡ record cached { enabled = true; limit_m3s = 0x39800000 })
decode-build_limiter_write_body_example =
    decode-build_limiter_write_body cached true 0x39800000 body (omega arith) refl body_written
