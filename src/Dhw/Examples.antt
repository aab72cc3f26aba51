-- ===== src/Dhw/Examples.antt =====
-- Tests of `dhw_demand_logic.h`, and concrete inputs at which its theorems apply.
use esphome_alpha_hwr.Base.{ℕ, ◌≡◌, refl, Bool, true, false, ◌||◌, List, [], ◌∷◌, none, some, arith}
use esphome_alpha_hwr.Thousandths.{Milli, milli_floats}
use esphome_alpha_hwr.Dhw.{
  hold_update, reading_is_fresh, reading_predates_pump_start, pump_flow_estimate_is_settled,
}
use esphome_alpha_hwr.Dhw.Hold.{held_after, IsPaced, last_true, is_within, held_after-is_within}
use esphome_alpha_hwr.Dhw.Sessions.{tracked_after, tracked_after-is_within}
use esphome_alpha_hwr.Dhw.PumpOn.{
  PumpOnInputs, default_pump_on_thresholds, measured_demand, pump_on_demand_flow, is_carrying,
  pump_on_continuation_verdict, continuation_of, is_supported, decide_pump_on,
}
use esphome_alpha_hwr.Dhw.Drawn.{is_measured, goes_on, is_vouched, decide_pump_on-drawn}

-- Demand just before `millis()` wraps, and two quiet ticks behind the wrap.
abbrev over_the_wrap : List (Bool × ℕ)
over_the_wrap = (false, 4294970000) ∷ (true, 4294960000) ∷ []

held_over_the_wrap :
    ((held_after 30000 ((false, 4294980000) ∷ over_the_wrap)).held ≡ true)
    × ((held_after 30000 ((false, 4294990000) ∷ over_the_wrap)).held ≡ false)
unfolding held_after hold_update
held_over_the_wrap = (refl, refl)

held_after-is_within_example :
    (held_after 30000 ((false, 4294980000) ∷ over_the_wrap)).held
    ≡ (false || is_within 30000 4294980000 (last_true over_the_wrap))
held_after-is_within_example =
    held_after-is_within 30000 4294980000 false over_the_wrap (omega arith)
      (unfold IsPaced in (omega arith, omega arith, (omega arith, omega arith, tt)))

tracked_after-is_within_example :
    (tracked_after 30000 ((false, 4294990000) ∷ over_the_wrap)).active
    ≡ (false || is_within 30001 4294990000 (last_true over_the_wrap))
tracked_after-is_within_example =
    tracked_after-is_within 30000 4294990000 false over_the_wrap (omega arith)
      (unfold IsPaced in (omega arith, omega arith, (omega arith, omega arith, tt)))

-- The meter sees 2 gpm, the pump half a gpm of it.
abbrev tap_is_open : PumpOnInputs Milli
tap_is_open = record {
  pre_pump_on_flow = none;
  flow = some 2000;
  pump_flow = some 500;
  motor_speed = some 2500000;
  dhw_in_use_sustained = false;
  now_ms = 100000;
  flow_last_update_ms = 99000;
  pump_flow_last_update_ms = 98000;
  pump_on_since_ms = 50000;
  continuation_since_ms = 0;
  measured_stopped_ticks = 0;
  dhw_in_use_high_since_ms = 0;
  last_metered_demand_ms = 0;
  last_measured_no_draw_ms = 0;
  pump_flow_speed_at_update = none;
  flow_speed_at_update = none;
}

-- The draw is a gallon and a half. With the pump's own reading a minute old, it is not known.
tap_is_seen :
    ((decide_pump_on tap_is_open default_pump_on_thresholds).demand ≡ true)
    × ((decide_pump_on tap_is_open default_pump_on_thresholds).demand_gpm ≡ some 1500)
    × ((decide_pump_on
          (record tap_is_open { pump_flow_last_update_ms = 40000 })
          default_pump_on_thresholds).demand
        ≡ false)
unfolding decide_pump_on measured_demand pump_on_demand_flow reading_is_fresh
    reading_predates_pump_start pump_flow_estimate_is_settled pump_on_continuation_verdict
    continuation_of is_carrying is_supported
tap_is_seen = (refl, refl, refl)

decide_pump_on-drawn_example : (decide_pump_on tap_is_open default_pump_on_thresholds).demand ≡ (
    is_measured default_pump_on_thresholds (measured_demand tap_is_open default_pump_on_thresholds)
    || goes_on tap_is_open default_pump_on_thresholds
        (measured_demand tap_is_open default_pump_on_thresholds)
    || is_vouched tap_is_open default_pump_on_thresholds
        (measured_demand tap_is_open default_pump_on_thresholds))
decide_pump_on-drawn_example = decide_pump_on-drawn tap_is_open default_pump_on_thresholds
