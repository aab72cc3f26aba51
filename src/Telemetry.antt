-- ===== src/Telemetry.antt =====
-- `components/alpha_hwr/telemetry_decoder.h` and `.cpp`: the readings in a telemetry frame. A `has_` member and its
-- value are an option.
use esphome_alpha_hwr.Base.{
  ℕ, ◌+◌, ◌-◌, ◌*◌, ◌≤◌, ◌≡◌, ◌≢◌, Bool, true, false, not, ◌&&◌, ◌||◌, List, [], ◌∷◌, Option, none,
  some, arith, ltb, leb, ◌==◌, if◌then◌else◌, length, take, drop, All, Bool-cases, inl, inr,
}
use esphome_alpha_hwr.Codec.{decode_float_be}
use esphome_alpha_hwr.Floats.{Floats}

pub record MotorStateTelemetry (F : Type 0) : Type 0 where
  pub voltage_ac_v : Option F
  pub voltage_dc_v : Option F
  pub current_a : Option F
  pub power_w : Option F
  pub speed_rpm : Option F
  pub converter_temperature_c : Option F

pub record FlowPressureTelemetry (F : Type 0) : Type 0 where
  pub flow_m3h : Option F
  pub head_m : Option F
  pub inlet_pressure_bar : Option F
  pub outlet_pressure_bar : Option F

pub record TemperatureTelemetry (F : Type 0) : Type 0 where
  pub media_temperature_c : Option F
  pub pcb_temperature_c : Option F
  pub control_box_temperature_c : Option F

-- The codes of the pairs of bytes; 0 is no code.
unfoldable pub codes_of : List ℕ → List ℕ
codes_of (high ∷ low ∷ bytes) =
    let later = codes_of bytes in
    if high * 256 + low == 0 then later else (high * 256 + low) ∷ later
codes_of _ = []

unfoldable pub decode_alarms_warnings_response : List ℕ → (opspec : ℕ) → List ℕ
decode_alarms_warnings_response bytes opspec =
    let start_offset = if opspec == 9 then 13 else 10 in
    if ltb (length bytes) 2 || leb (length bytes) (start_offset + 1)
    then []
    else codes_of (drop start_offset (take (length bytes - 2) bytes))

module _ {F : Type 0} ⦃fl : Floats F⦄ where
  unfoldable pub is_in_range : F → F → F → Bool
  is_in_range low high value = fl.le low value && fl.le value high

  -- The float at an offset, where the frame is long enough and the value is in its range.
  unfoldable pub reading : List ℕ → (needed offset : ℕ) → (low high : F) → Option F
  reading bytes needed offset low high =
      let value = fl.of_bits (decode_float_be bytes offset) in
      if leb needed (length bytes) && (not (fl.is_nan value) && is_in_range low high value)
      then some value
      else none

  -- The same for a sensor that may be missing: NaN is passed on.
  unfoldable pub reading_or_nan : List ℕ → (needed offset : ℕ) → (low high : F) → Option F
  reading_or_nan bytes needed offset low high =
      let value = fl.of_bits (decode_float_be bytes offset) in
      if leb needed (length bytes) && (fl.is_nan value || is_in_range low high value)
      then some value
      else none

  -- An integer of the source that is compared with a float.
  abbrev up_to : ℕ → F
  up_to n = fl.decimal n 0

  abbrev minus_20 : F
  minus_20 = fl.sub (fl.decimal 0 0) (fl.decimal 20 0)

  unfoldable pub decode_motor_state_response : List ℕ → MotorStateTelemetry F
  decode_motor_state_response bytes = record {
    voltage_ac_v = reading bytes 17 13 (up_to 0) (up_to 500);
    voltage_dc_v = reading bytes 21 17 (up_to 0) (up_to 500);
    current_a = reading bytes 25 21 (up_to 0) (up_to 50);
    power_w = reading bytes 29 25 (up_to 0) (up_to 1000);
    speed_rpm = reading bytes 37 33 (up_to 0) (up_to 10000);
    converter_temperature_c = reading_or_nan bytes 41 37 minus_20 (up_to 120);
  }

  unfoldable pub decode_flow_pressure_response : List ℕ → FlowPressureTelemetry F
  decode_flow_pressure_response bytes = record {
    flow_m3h = reading bytes 41 37 (up_to 0) (up_to 100);
    head_m = reading bytes 45 41 (up_to 0) (up_to 50);
    inlet_pressure_bar = reading_or_nan bytes 49 45 (up_to 0) (up_to 20);
    outlet_pressure_bar = reading_or_nan bytes 53 49 (up_to 0) (up_to 20);
  }

  unfoldable pub decode_temperature_response : List ℕ → TemperatureTelemetry F
  decode_temperature_response bytes = record {
    media_temperature_c = reading bytes 17 13 minus_20 (up_to 100);
    pcb_temperature_c = reading bytes 21 17 minus_20 (up_to 150);
    control_box_temperature_c = reading bytes 25 21 minus_20 (up_to 150);
  }

  unfoldable pub decode_passive_motor_state : List ℕ → MotorStateTelemetry F
  decode_passive_motor_state bytes = record {
    voltage_ac_v = reading bytes 14 10 (up_to 0) (up_to 500);
    voltage_dc_v = none;
    current_a = reading bytes 22 18 (up_to 0) (up_to 50);
    power_w = reading bytes 30 26 (up_to 0) (up_to 1000);
    speed_rpm = reading bytes 34 30 (up_to 0) (up_to 10000);
    converter_temperature_c = reading_or_nan bytes 38 34 minus_20 (up_to 120);
  }

  unfoldable pub decode_passive_flow_pressure : List ℕ → FlowPressureTelemetry F
  decode_passive_flow_pressure bytes = record {
    flow_m3h = reading bytes 14 10 (up_to 0) (up_to 100);
    head_m = reading bytes 18 14 (up_to 0) (up_to 50);
    inlet_pressure_bar = none;
    outlet_pressure_bar = none;
  }

  unfoldable pub decode_passive_temperature : List ℕ → TemperatureTelemetry F
  decode_passive_temperature bytes = record {
    media_temperature_c = reading bytes 14 10 minus_20 (up_to 100);
    pcb_temperature_c = reading bytes 18 14 minus_20 (up_to 150);
    control_box_temperature_c = reading bytes 22 18 minus_20 (up_to 150);
  }

  -- A reading that is passed on lies within the frame and in its range.
  pub reading-is_in_range :
      (bytes : List ℕ) (needed offset : ℕ) (low high value : F)
      → reading bytes needed offset low high ≡ some value
      → (needed ≤ length bytes) × (is_in_range low high value ≡ true) × (fl.is_nan value ≡ false)
  unfolding reading
  reading-is_in_range bytes needed offset low high value e =
      (ground (arith, e), ground (arith, e), ground (arith, e))

-- No code of an alarm or a warning is 0, and there is at most one for two bytes.
pub codes_of-real :
    (bytes : List ℕ)
    → All (λ code. code ≢ 0) (codes_of bytes) × (length (codes_of bytes) * 2 ≤ length bytes)
unfolding codes_of
codes_of-real [] = (tt, omega arith)
codes_of-real (high ∷ []) = (tt, omega arith)
codes_of-real (high ∷ low ∷ bytes) =
    let (real, few) = codes_of-real bytes in
    elim (Bool-cases (high * 256 + low == 0)) [
      | inl zero_ ↦ rw zero_ (real, omega (arith, few))
      | inr code ↦ rw code (((λ e. ground (arith, code, e)), real), omega (arith, few))
    ]
