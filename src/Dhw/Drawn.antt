-- ===== src/Dhw/Drawn.antt =====
-- What the verdict of `dhw_demand_logic.h` with the pump on rests on.
use esphome_alpha_hwr.Base.{
  ◌+◌, ◌≤◌, ◌≡◌, ◌⊎◌, Bool, true, false, not, ◌&&◌, ◌||◌, ltb, ◌==◌, if◌then◌else◌, sub_u32, arith,
}
use esphome_alpha_hwr.Floats.{Floats}
use esphome_alpha_hwr.Dhw.{reading_is_fresh}
use esphome_alpha_hwr.Dhw.PumpOn.{
  PumpOnInputs, PumpOnThresholds, measured_demand, is_carrying, is_supported,
  pump_on_continuation_verdict, continuation_of, dhw_in_use_tap_support, is_carried_draw,
  is_meter_above_loop, decide_pump_on,
}

module _ {F : Type 0} ⦃fl : Floats F⦄ where
  -- A draw is measured.
  unfoldable pub is_measured : PumpOnThresholds F → (demand_gpm : F) → Bool
  is_measured t demand_gpm = not (fl.is_nan demand_gpm) && fl.lt t.demand_flow demand_gpm

  -- A measurement that shows no draw any more.
  unfoldable pub shows_stop : PumpOnThresholds F → (demand_gpm : F) → Bool
  shows_stop t demand_gpm = not (fl.is_nan demand_gpm) && fl.le demand_gpm t.continuation_release

  -- A draw from before the start of the pump, with a flow above the threshold then, goes on. A
  -- measurement that shows no draw ends it once enough of them came in a row. Without one it goes on
  -- while its time, counted from the start of the continuation, is not over and the meter sees flow.
  unfoldable pub goes_on : PumpOnInputs F → PumpOnThresholds F → (demand_gpm : F) → Bool
  goes_on i t demand_gpm =
      not (fl.is_nan i.pre_pump_on_flow)
      && not (fl.le i.pre_pump_on_flow t.flow)
      && (if shows_stop t demand_gpm
          then ltb (i.measured_stopped_ticks + 1) t.continuation_release_ticks
          else not (i.continuation_since_ms == 0)
            && ltb (sub_u32 i.now_ms i.continuation_since_ms) t.continuation_max_ms
            && not (fl.is_nan i.flow)
            && not (fl.le i.flow t.flow))

  -- Nothing is measured, the flag of the heater (dhw_in_use) is on for long, no fresh reading of the
  -- meter denies it, and something beside the loop vouches for it.
  unfoldable pub is_vouched : PumpOnInputs F → PumpOnThresholds F → (demand_gpm : F) → Bool
  is_vouched i t demand_gpm =
      fl.is_nan demand_gpm
      && i.dhw_in_use_sustained
      && not (
          reading_is_fresh i.flow_last_update_ms i.now_ms t.flow_max_stale_ms
          && not (fl.is_nan i.flow)
          && fl.le i.flow t.demand_flow)
      && (is_carried_draw i t || is_meter_above_loop i t)

  -- With the pump on, demand is reported just in one of three cases. First, a draw is measured, above
  -- the threshold for demand. Second, the flow before the start of the pump was above the threshold for
  -- flow, and that draw goes on: where a measurement shows no draw, until there are enough of them in a
  -- row; where none does, while the continuation is under way for less than its longest time and the
  -- meter sees flow above the threshold. Third, nothing is measured, the flag of the heater that hot
  -- water is in use is on for long, no fresh reading of the meter denies it, and something beside the
  -- loop vouches for it: a draw carried over from before, or a meter above the estimate of the loop.
  pub decide_pump_on-drawn :
      (i : PumpOnInputs F) (t : PumpOnThresholds F)
      → (decide_pump_on i t).demand ≡ (
          is_measured t (measured_demand i t)
          || goes_on i t (measured_demand i t)
          || is_vouched i t (measured_demand i t))
  unfolding decide_pump_on pump_on_continuation_verdict continuation_of is_carrying is_supported
      dhw_in_use_tap_support is_measured shows_stop goes_on is_vouched
  decide_pump_on-drawn i t = ground arith

  -- With nothing measured and the heater's flag off, no demand is reported once the time of the
  -- continuation is over, or where none is under way.
  pub decide_pump_on-expires :
      (i : PumpOnInputs F) (t : PumpOnThresholds F)
      → fl.is_nan (measured_demand i t) ≡ true
      → i.dhw_in_use_sustained ≡ false
      → (i.continuation_since_ms ≡ 0)
        ⊎ (t.continuation_max_ms ≤ sub_u32 i.now_ms i.continuation_since_ms)
      → (decide_pump_on i t).demand ≡ false
  unfolding is_measured shows_stop goes_on is_vouched
  decide_pump_on-expires i t unmeasured off over =
      ground (arith, decide_pump_on-drawn i t, unmeasured, off, over)
