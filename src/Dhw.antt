-- ===== src/Dhw.antt =====
-- `components/dhw_demand/dhw_demand_logic.h`: whether somebody draws hot water, from the meter, the pump and the motor.
-- Here the ages of readings, the state of the pump, and the trackers that go from tick to tick.
use esphome_alpha_hwr.Base.{
  ℕ, ◌+◌, Bool, true, false, not, ◌&&◌, ◌||◌, List, [], ◌∷◌, ltb, leb, ◌==◌, if◌then◌else◌, sub_u32,
}
use esphome_alpha_hwr.Floats.{Floats}
pub mod PumpOn
pub mod Drawn
pub mod Hold
pub mod Sessions
mod Examples

-- 0 is a reading that never came.
unfoldable pub reading_is_fresh : (last_update_ms now_ms max_stale_ms : ℕ) → Bool
reading_is_fresh last_update_ms now_ms max_stale_ms =
    not (last_update_ms == 0) && leb (sub_u32 now_ms last_update_ms) max_stale_ms

unfoldable pub reading_predates_pump_start : (last_update_ms pump_on_since_ms now_ms : ℕ) → Bool
reading_predates_pump_start last_update_ms pump_on_since_ms now_ms =
    last_update_ms == 0
    || (not (pump_on_since_ms == 0)
        && ltb (sub_u32 now_ms pump_on_since_ms) (sub_u32 now_ms last_update_ms))

unfoldable pub pump_flow_estimate_is_settled : (pump_on_since_ms now_ms settle_ms : ℕ) → Bool
pump_flow_estimate_is_settled pump_on_since_ms now_ms settle_ms =
    settle_ms == 0 || pump_on_since_ms == 0 || leb settle_ms (sub_u32 now_ms pump_on_since_ms)

unfoldable pub reading_taken_after_settle :
    (last_update_ms pump_on_since_ms now_ms settle_ms : ℕ) → Bool
reading_taken_after_settle last_update_ms pump_on_since_ms now_ms settle_ms =
    let reading_age = sub_u32 now_ms last_update_ms in
    let run_age = sub_u32 now_ms pump_on_since_ms in
    if last_update_ms == 0
    then false
    else if pump_on_since_ms == 0
    then true
    else leb reading_age run_age && leb settle_ms (sub_u32 run_age reading_age)

unfoldable pub latch_suppressed_after_shutdown : (pump_off_since_ms now_ms window_ms : ℕ) → Bool
latch_suppressed_after_shutdown pump_off_since_ms now_ms window_ms =
    not (window_ms == 0)
    && not (pump_off_since_ms == 0)
    && leb (sub_u32 now_ms pump_off_since_ms) window_ms

unfoldable pub pump_off_flow_onset_is_confirmed :
    (flow_present prev_flow_present_pump_off onset_corroborating : Bool) → Bool
pump_off_flow_onset_is_confirmed flow_present prev_flow_present_pump_off onset_corroborating =
    not flow_present || onset_corroborating || prev_flow_present_pump_off

pub record DemandHold : Type 0 where
  pub release_ms : ℕ
  pub held : Bool
  pub last_true_ms : ℕ

-- `DemandHold::update`, which returns `held`.
unfoldable pub hold_update : (raw_demand : Bool) → (now_ms : ℕ) → DemandHold → DemandHold
hold_update raw_demand now_ms h =
    if raw_demand
    then record h { held = true; last_true_ms = now_ms }
    else if h.held && leb h.release_ms (sub_u32 now_ms h.last_true_ms)
    then record h { held = false }
    else h

pub record SessionTracker : Type 0 where
  pub gap_ms : ℕ
  pub active : Bool
  pub start_ms : ℕ
  pub last_demand_ms : ℕ

-- The durations of a `Tick` are in milliseconds here: the code divides them by 1000.0.
pub record Tick : Type 0 where
  pub just_started : Bool
  pub just_ended : Bool
  pub ended_duration_ms : ℕ
  pub live_duration_ms : ℕ

-- `SessionTracker::update`, on the tracker.
unfoldable pub track : (demand : Bool) → (now_ms : ℕ) → SessionTracker → SessionTracker
track demand now_ms s =
    if demand
    then record s {
      active = true;
      start_ms = if s.active then s.start_ms else now_ms;
      last_demand_ms = now_ms;
    }
    else if s.active && ltb s.gap_ms (sub_u32 now_ms s.last_demand_ms)
    then record s { active = false }
    else s

-- `SessionTracker::update`, on what it returns.
unfoldable pub tick_of : (demand : Bool) → (now_ms : ℕ) → SessionTracker → Tick
unfolding track
tick_of demand now_ms s =
    let ends = not demand && s.active && ltb s.gap_ms (sub_u32 now_ms s.last_demand_ms) in
    let s' = track demand now_ms s in
    record {
      just_started = demand && not s.active;
      just_ended = ends;
      ended_duration_ms = if ends then sub_u32 s.last_demand_ms s.start_ms else 0;
      live_duration_ms = if s'.active then sub_u32 now_ms s'.start_ms else 0;
    }

pub record SustainedHigh : Type 0 where
  pub min_ms : ℕ
  pub high : Bool
  pub high_since_ms : ℕ
  pub active : Bool

pub record PumpStateInputs (F : Type 0) : Type 0 where
  pub motor_speed : F
  pub motor_current : F
  pub motor_speed_last_update_ms : ℕ
  pub motor_current_last_update_ms : ℕ
  pub now_ms : ℕ
  pub motor_max_stale_ms : ℕ
  pub pump_off_current_threshold : F
  pub pump_state_ever_known : Bool
  pub last_known_pump_on : Bool

pub record PumpStateResult (F : Type 0) : Type 0 where
  pub pump_state_known : Bool
  pub motor_frozen : Bool
  pub pump_on : Bool
  pub pump_confirmed_off : Bool
  pub speed_used : F
  pub current_used : F

module _ {F : Type 0} ⦃fl : Floats F⦄ where
  -- `SustainedHigh::update`, which returns `active`.
  unfoldable pub sustain : F → (now_ms : ℕ) → SustainedHigh → SustainedHigh
  sustain value now_ms s =
      if fl.is_nan value || fl.lt value (fl.decimal 5 1)
      then record s { high = false; active = false }
      else let since = if s.high then s.high_since_ms else now_ms in
        record s {
          high = true;
          high_since_ms = since;
          active = leb s.min_ms (sub_u32 now_ms since);
        }

  unfoldable pub motor_reading_indicates_on :
      (motor_speed motor_current pump_off_current_threshold : F) → Bool
  motor_reading_indicates_on motor_speed motor_current pump_off_current_threshold =
      if not (fl.is_nan motor_speed)
      then fl.le (fl.decimal 10 0) motor_speed
      else not (fl.is_nan motor_current) && fl.le pump_off_current_threshold motor_current

  unfoldable pub fresh_or_nan : (reading : F) → (last_update_ms now_ms max_stale_ms : ℕ) → F
  fresh_or_nan reading last_update_ms now_ms max_stale_ms =
      if reading_is_fresh last_update_ms now_ms max_stale_ms then reading else fl.nan

  unfoldable pub decide_pump_state : PumpStateInputs F → PumpStateResult F
  decide_pump_state i =
      let speed =
        fresh_or_nan i.motor_speed i.motor_speed_last_update_ms i.now_ms i.motor_max_stale_ms in
      let current =
        fresh_or_nan i.motor_current i.motor_current_last_update_ms i.now_ms i.motor_max_stale_ms in
      let known = not (fl.is_nan speed) || not (fl.is_nan current) in
      let reported = not (fl.is_nan i.motor_speed) || not (fl.is_nan i.motor_current) in
      let runs = motor_reading_indicates_on speed current i.pump_off_current_threshold in
      record {
        pump_state_known = known;
        motor_frozen = reported && not known;
        pump_on =
            if known
            then runs
            else if reported
            then true
            else if i.pump_state_ever_known
            then i.last_known_pump_on
            else true;
        pump_confirmed_off =
            if known
            then not runs
            else if reported
            then false
            else i.pump_state_ever_known && not i.last_known_pump_on;
        speed_used = speed;
        current_used = current;
      }

  -- `std::min`
  unfoldable pub min_f : F → F → F
  min_f a b = if fl.lt b a then b else a

  unfoldable pub apply_dhw_in_use_boost :
      (confidence : F) → (demand pump_on : Bool) → (dhw_in_use : F) → F
  apply_dhw_in_use_boost confidence demand pump_on dhw_in_use =
      if demand && not pump_on && not (fl.is_nan dhw_in_use) && fl.le (fl.decimal 5 1) dhw_in_use
      then min_f (fl.decimal 1 0) (fl.add confidence (fl.decimal 5 2))
      else confidence

  unfoldable pub prev_tick_confirms_flow_onset :
      (prev_flow flow_threshold : F) → (prev_pump_confirmed_off : Bool) → Bool
  prev_tick_confirms_flow_onset prev_flow flow_threshold prev_pump_confirmed_off =
      prev_pump_confirmed_off && not (fl.is_nan prev_flow) && fl.lt flow_threshold prev_flow
