-- ===== src/Dhw/PumpOn.antt =====
-- The verdict of `dhw_demand_logic.h` while the pump runs: the meter sees the loop too, so that a draw is what the meter
-- sees more than the pump, or what goes on from before the start of the pump.
use Prim.Native.String.{String}
use esphome_alpha_hwr.Base.{
  ℕ, ◌+◌, Bool, true, false, not, ◌&&◌, ◌||◌, leb, ◌==◌, if◌then◌else◌, sub_u32,
}
use esphome_alpha_hwr.Floats.{Floats}
use esphome_alpha_hwr.Dhw.{
  reading_is_fresh, reading_predates_pump_start, pump_flow_estimate_is_settled,
  reading_taken_after_settle, min_f,
}

pub record PumpOnThresholds (F : Type 0) : Type 0 where
  pub flow : F
  pub demand_flow : F
  pub min_speed_rpm : F
  pub pump_flow_max_stale_ms : ℕ
  pub flow_max_stale_ms : ℕ
  pub pump_on_settle_ms : ℕ
  pub continuation_max_ms : ℕ
  pub continuation_release : F
  pub continuation_release_ticks : ℕ
  pub dhw_in_use_carry_max_ms : ℕ
  pub dhw_in_use_loop_bias_gpm : F
  pub dhw_in_use_speed_tolerance_rpm : F

pub record ContinuationInputs (F : Type 0) : Type 0 where
  pub pre_pump_on_flow : F
  pub flow : F
  pub flow_threshold : F
  pub demand_gpm : F
  pub demand_flow_threshold : F
  pub release_gpm : F
  pub measured_stopped_ticks : ℕ
  pub release_ticks : ℕ
  pub now_ms : ℕ
  pub continuation_since_ms : ℕ
  pub max_ms : ℕ

pub data ContinuationVerdict : Type 0 where
  going_on not_armed meter_quiet stopping measured_stopped expired confirmed : ContinuationVerdict

pub record PumpOnInputs (F : Type 0) : Type 0 where
  pub pre_pump_on_flow : F
  pub flow : F
  pub pump_flow : F
  pub motor_speed : F
  pub dhw_in_use_sustained : Bool
  pub now_ms : ℕ
  pub flow_last_update_ms : ℕ
  pub pump_flow_last_update_ms : ℕ
  pub pump_on_since_ms : ℕ
  pub continuation_since_ms : ℕ
  pub measured_stopped_ticks : ℕ
  pub dhw_in_use_high_since_ms : ℕ
  pub last_metered_demand_ms : ℕ
  pub last_measured_no_draw_ms : ℕ
  pub pump_flow_speed_at_update : F
  pub flow_speed_at_update : F

pub data DhwInUseSupport : Type 0 where
  not_reached vetoed unsupported carried_draw meter_above_loop : DhwInUseSupport

pub data SubtractionStamp : Type 0 where
  no_stamp metered_draw no_draw : SubtractionStamp

pub record PumpOnResult (F : Type 0) : Type 0 where
  pub demand : Bool
  pub confidence : F
  pub demand_level : F
  pub method : String
  pub demand_gpm : F
  pub continuation : ContinuationVerdict
  pub dhw_in_use_support : DhwInUseSupport

unfoldable pub is_carrying : ContinuationVerdict → Bool
is_carrying going_on = true
is_carrying confirmed = true
is_carrying stopping = true
is_carrying _ = false

unfoldable pub is_supported : DhwInUseSupport → Bool
is_supported carried_draw = true
is_supported meter_above_loop = true
is_supported _ = false

module _ {F : Type 0} ⦃fl : Floats F⦄ where
  abbrev pub default_pump_on_thresholds : PumpOnThresholds F
  default_pump_on_thresholds = record {
    flow = fl.decimal 3 1;
    demand_flow = fl.decimal 3 1;
    min_speed_rpm = fl.decimal 1950 0;
    pump_flow_max_stale_ms = 30000;
    flow_max_stale_ms = 60000;
    pump_on_settle_ms = 10000;
    continuation_max_ms = 300000;
    continuation_release = fl.decimal 0 0;
    continuation_release_ticks = 2;
    dhw_in_use_carry_max_ms = 120000;
    dhw_in_use_loop_bias_gpm = fl.decimal 45 2;
    dhw_in_use_speed_tolerance_rpm = fl.decimal 100 0;
  }

  unfoldable pub pump_on_demand_flow :
      (meter_flow pump_flow motor_speed : F)
      → (meter_fresh pump_flow_fresh : Bool) → (min_speed_rpm : F) → F
  pump_on_demand_flow meter_flow pump_flow motor_speed meter_fresh pump_flow_fresh min_speed_rpm =
      if fl.is_nan meter_flow || fl.is_nan pump_flow
      then fl.nan
      else if not pump_flow_fresh || not meter_fresh
      then fl.nan
      else if fl.is_nan motor_speed || fl.lt motor_speed min_speed_rpm
      then fl.nan
      else fl.sub meter_flow pump_flow

  -- The count of an `uint8_t` and one more does not wrap: it is widened first.
  unfoldable pub pump_on_continuation_verdict : ContinuationInputs F → ContinuationVerdict
  pump_on_continuation_verdict i =
      if fl.is_nan i.pre_pump_on_flow || fl.le i.pre_pump_on_flow i.flow_threshold
      then not_armed
      else if not (fl.is_nan i.demand_gpm) && fl.le i.demand_gpm i.release_gpm
      then (if leb i.release_ticks (i.measured_stopped_ticks + 1)
          then measured_stopped
          else stopping)
      else if not (fl.is_nan i.demand_gpm) && fl.lt i.demand_flow_threshold i.demand_gpm
      then confirmed
      else if i.continuation_since_ms == 0
      then expired
      else if leb i.max_ms (sub_u32 i.now_ms i.continuation_since_ms)
      then expired
      else if fl.is_nan i.flow || fl.le i.flow i.flow_threshold
      then meter_quiet
      else going_on

  unfoldable pub pump_on_continuation_is_active : ContinuationInputs F → Bool
  pump_on_continuation_is_active i = is_carrying (pump_on_continuation_verdict i)

  unfoldable pub meter_reading_at_current_speed : PumpOnInputs F → PumpOnThresholds F → Bool
  meter_reading_at_current_speed i t =
      not (fl.is_nan i.motor_speed)
      && not (fl.is_nan i.flow_speed_at_update)
      && fl.le (fl.fabs (fl.sub i.motor_speed i.flow_speed_at_update))
          t.dhw_in_use_speed_tolerance_rpm

  unfoldable pub is_carried_draw : PumpOnInputs F → PumpOnThresholds F → Bool
  is_carried_draw i t =
      let demand_age = sub_u32 i.now_ms i.last_metered_demand_ms in
      not (i.last_metered_demand_ms == 0)
      && not (i.dhw_in_use_high_since_ms == 0)
      && leb demand_age (sub_u32 i.now_ms i.dhw_in_use_high_since_ms)
      && leb demand_age t.dhw_in_use_carry_max_ms
      && not (
          not (i.last_measured_no_draw_ms == 0)
          && leb (sub_u32 i.now_ms i.last_measured_no_draw_ms) demand_age)

  unfoldable pub is_meter_above_loop : PumpOnInputs F → PumpOnThresholds F → Bool
  is_meter_above_loop i t =
      reading_is_fresh i.flow_last_update_ms i.now_ms t.flow_max_stale_ms
      && not (fl.is_nan i.flow)
      && not (fl.is_nan i.pump_flow)
      && not (fl.is_nan i.motor_speed)
      && not (fl.is_nan i.pump_flow_speed_at_update)
      && reading_is_fresh i.pump_flow_last_update_ms i.now_ms t.flow_max_stale_ms
      && reading_taken_after_settle i.pump_flow_last_update_ms i.pump_on_since_ms i.now_ms
          t.pump_on_settle_ms
      && fl.le (fl.fabs (fl.sub i.motor_speed i.pump_flow_speed_at_update))
          t.dhw_in_use_speed_tolerance_rpm
      && meter_reading_at_current_speed i t
      && not (reading_predates_pump_start i.flow_last_update_ms i.pump_on_since_ms i.now_ms)
      && fl.lt (fl.add t.demand_flow t.dhw_in_use_loop_bias_gpm) (fl.sub i.flow i.pump_flow)

  unfoldable pub dhw_in_use_tap_support : PumpOnInputs F → PumpOnThresholds F → DhwInUseSupport
  dhw_in_use_tap_support i t =
      if reading_is_fresh i.flow_last_update_ms i.now_ms t.flow_max_stale_ms
        && not (fl.is_nan i.flow)
        && fl.le i.flow t.demand_flow
      then vetoed
      else if is_carried_draw i t
      then carried_draw
      else if is_meter_above_loop i t
      then meter_above_loop
      else unsupported

  unfoldable pub subtraction_stamp : PumpOnInputs F → PumpOnThresholds F → F → SubtractionStamp
  subtraction_stamp i t demand_gpm =
      if fl.is_nan demand_gpm
      then no_stamp
      else if fl.le demand_gpm t.demand_flow
      then no_draw
      else if meter_reading_at_current_speed i t
      then metered_draw
      else no_stamp

  unfoldable pub measured_demand : PumpOnInputs F → PumpOnThresholds F → F
  measured_demand i t =
      pump_on_demand_flow i.flow i.pump_flow i.motor_speed
        (reading_is_fresh i.flow_last_update_ms i.now_ms t.flow_max_stale_ms
          && not (reading_predates_pump_start i.flow_last_update_ms i.pump_on_since_ms i.now_ms))
        (reading_is_fresh i.pump_flow_last_update_ms i.now_ms t.pump_flow_max_stale_ms
          && not
              (reading_predates_pump_start i.pump_flow_last_update_ms i.pump_on_since_ms i.now_ms)
          && pump_flow_estimate_is_settled i.pump_on_since_ms i.now_ms t.pump_on_settle_ms)
        t.min_speed_rpm

  unfoldable pub continuation_of :
      PumpOnInputs F → PumpOnThresholds F → (demand_gpm : F) → ContinuationInputs F
  continuation_of i t demand_gpm = record {
    pre_pump_on_flow = i.pre_pump_on_flow;
    flow = i.flow;
    flow_threshold = t.flow;
    demand_gpm = demand_gpm;
    demand_flow_threshold = t.demand_flow;
    release_gpm = t.continuation_release;
    measured_stopped_ticks = i.measured_stopped_ticks;
    release_ticks = t.continuation_release_ticks;
    now_ms = i.now_ms;
    continuation_since_ms = i.continuation_since_ms;
    max_ms = t.continuation_max_ms;
  }

  unfoldable pub decide_pump_on : PumpOnInputs F → PumpOnThresholds F → PumpOnResult F
  decide_pump_on i t =
      let gpm = measured_demand i t in
      let verdict = pump_on_continuation_verdict (continuation_of i t gpm) in
      let support =
        if i.dhw_in_use_sustained && fl.is_nan gpm
        then dhw_in_use_tap_support i t
        else not_reached in
      let uncertain : PumpOnResult F = record {
        demand = false;
        confidence = fl.decimal 5 1;
        demand_level = fl.decimal 0 0;
        method = "pump_on_uncertain";
        demand_gpm = gpm;
        continuation = verdict;
        dhw_in_use_support = not_reached;
      } in
      if is_carrying verdict
      then record uncertain {
        demand = true;
        confidence = fl.decimal 85 2;
        demand_level = min_f (fl.decimal 1 0) (
            if not (fl.is_nan gpm) && fl.lt (fl.decimal 0 0) gpm
            then fl.div gpm (fl.decimal 25 1)
            else fl.div i.pre_pump_on_flow (fl.decimal 25 1));
        method = "deterministic_continuation";
      }
      else if not (fl.is_nan gpm) && fl.lt t.demand_flow gpm
      then record uncertain {
        demand = true;
        confidence = min_f (fl.decimal 9 1) (
            fl.add (fl.decimal 6 1)
              (fl.mul (fl.decimal 3 1) (min_f (fl.decimal 1 0) (fl.sub gpm t.demand_flow))));
        demand_level = min_f (fl.decimal 1 0) (fl.div gpm (fl.decimal 25 1));
        method = "deterministic_pump_on_subtraction";
      }
      else if is_supported support
      then record uncertain {
        demand = true;
        confidence = fl.decimal 6 1;
        demand_level = fl.decimal 4 1;
        method = "deterministic_dhw_in_use";
        dhw_in_use_support = support;
      }
      else record uncertain { dhw_in_use_support = support }
