-- ===== src/WriteOps/Config.antt =====
-- SET_TEMPERATURE_RANGE and SET_CYCLE_TIMES of `write_operation_service.cpp`: a read of the config object, the mode
-- change, the config write, and a readback that decides.
use esphome_alpha_hwr.Base.{
  ℕ, Bool, true, false, not, ◌&&◌, ◌||◌, [], ◌∷◌, Option, none, some, ltb, ◌==◌, if◌then◌else◌,
}
use esphome_alpha_hwr.Floats.{Floats}
use esphome_alpha_hwr.Control.{
  constant_flow, dhw_on_off, temperature_range, Control, note_mode_commanded, get_cached_cycle_flow,
}
use esphome_alpha_hwr.WriteOps.State.{
  accepted, clamped, rejected, invalid, timeout, resolving, writing, confirming, Work, Detail,
  message, about_temperatures, about_cycle, unacked, confirm_after, step_after,
  send_set_mode_request, write_temp_range_config, send_configuration_commit, write_dhw_config,
  waiting, settled, Body,
}
use esphome_alpha_hwr.WriteOps.State.ServiceCall.{read_obj91_config, read_dhw_config}
use esphome_alpha_hwr.WriteOps.RunState.{same_bool, retry}
use esphome_alpha_hwr.WriteOps.Modes.{is_near, setpoint_epsilon, to_native_units}

abbrev pub config_max_attempts : ℕ
config_max_attempts = 1

abbrev pub config_retry_delay_ms : ℕ
config_retry_delay_ms = 1500

unfoldable pub same_flag : Option Bool → Option Bool → Bool
same_flag (some a) (some b) = same_bool a b
same_flag none none = true
same_flag _ _ = false

unfoldable pub is_known : {A : Type 0} → Option A → Bool
is_known none = false
is_known (some a) = true

unfoldable pub same_minutes : Option ℕ → ℕ → Bool
same_minutes none n = false
same_minutes (some m) n = m == n

unfoldable pub same_period : Option ℕ → Option ℕ → Bool
same_period none none = true
same_period (some m) (some n) = m == n
same_period _ _ = false

unfoldable pub minutes_or : ℕ → Option ℕ → ℕ
minutes_or n none = n
minutes_or n (some m) = m

module _ {F : Type 0} where
  -- `unacked_detail`: the text for a write that matched is the same with nothing after it.
  unfoldable pub unacked_detail : Bool → Detail F → Detail F
  unacked_detail was_unacked detail = if was_unacked then unacked detail else detail

module _ {F : Type 0} ⦃fl : Floats F⦄ where
  unfoldable pub run_set_temperature_range : Body F
  run_set_temperature_range c t w =
      let low = fl.decimal 20 0 in
      let high = fl.decimal 70 0 in
      if fl.is_nan w.temp_min
        || fl.is_nan w.temp_max
        || fl.lt w.temp_min low
        || fl.lt high w.temp_min
        || fl.lt w.temp_max low
        || fl.lt high w.temp_max
      then settled w c invalid (message "temperatures out of range 20-70 °C")
      else if fl.le w.temp_max w.temp_min
      then settled w c invalid
          (about_temperatures "min must be below max" w.temp_min w.temp_max false)
      else waiting (record w { phase = resolving }) c (read_obj91_config t.seq ∷ [])

  unfoldable pub resolved_temperature_range : (ok : Bool) → Body F
  resolved_temperature_range ok c t w =
      if not ok
      then settled w c rejected (message "could not read temperature config; write not attempted")
      else if not c.temp_limits_tail_valid
      then settled w c rejected (message "pump on/off-time limits not read yet")
      else waiting
          (record w {
            pre_temp_min = c.cached_temp_min;
            pre_temp_max = c.cached_temp_max;
            pre_autoadapt = c.cached_autoadapt;
            phase = writing;
          })
          (note_mode_commanded temperature_range c)
          (step_after t.seq 400 ∷ send_set_mode_request t.seq temperature_range ∷ [])

  unfoldable pub write_temperature_range : Body F
  write_temperature_range c t w =
      waiting w c (write_temp_range_config t.seq w.temp_min w.temp_max w.autoadapt ∷ [])

  unfoldable pub written_temperature_range : (acked : Bool) → Body F
  written_temperature_range acked c t w =
      waiting (record w { config_unacked = w.config_unacked || not acked; phase = confirming }) c
        (confirm_after t.seq 1200 ∷ send_configuration_commit t.seq ∷ [])

  unfoldable pub holds_temperatures : Control F → F → F → Option Bool → Bool
  holds_temperatures c low high autoadapt =
      is_near (fl.decimal 1 1) c.cached_temp_min low
      && is_near (fl.decimal 1 1) c.cached_temp_max high
      && same_flag c.cached_autoadapt autoadapt

  unfoldable pub judge_temperature_range : Body F
  judge_temperature_range c t w =
      let w' : Work F = record w {
        temp_min = c.cached_temp_min;
        temp_max = c.cached_temp_max;
        autoadapt = same_flag c.cached_autoadapt (some true);
      } in
      let match =
        not (fl.is_nan c.cached_temp_min)
        && not (fl.is_nan c.cached_temp_max)
        && holds_temperatures c w.temp_min w.temp_max (some w.autoadapt) in
      let kept_old =
        not (fl.is_nan w.pre_temp_min)
        && not (fl.is_nan w.pre_temp_max)
        && is_known w.pre_autoadapt
        && holds_temperatures c w.pre_temp_min w.pre_temp_max w.pre_autoadapt in
      if match
      then settled w' c accepted (unacked_detail w.config_unacked (message ""))
      else if kept_old
      then settled w' c rejected (
          unacked_detail w.config_unacked
            (about_temperatures "pump kept" c.cached_temp_min c.cached_temp_max w'.autoadapt))
      else settled w' c clamped (
          unacked_detail w.config_unacked
            (about_temperatures "pump stored" c.cached_temp_min c.cached_temp_max w'.autoadapt))

  unfoldable pub confirm_temperature_range : (ok : Bool) → Body F
  unfolding retry
  confirm_temperature_range ok c t w =
      if ok
      then judge_temperature_range c t w
      else if ltb w.attempts config_max_attempts
      then retry config_retry_delay_ms c t w
      else settled w c timeout (unacked_detail w.config_unacked (message "config readback failed"))

  unfoldable pub run_set_cycle_times : Body F
  run_set_cycle_times c t w =
      let on_asserted = not (w.on_minutes == 0) in
      let off_asserted = not (w.off_minutes == 0) in
      let flow_asserted = not (fl.is_nan w.flow) in
      if on_asserted && (ltb w.on_minutes 1 || ltb 60 w.on_minutes)
        || off_asserted && (ltb w.off_minutes 1 || ltb 60 w.off_minutes)
      then settled w c invalid (message "cycle times must be 1-60 minutes (0 = keep)")
      else if flow_asserted && (fl.lt w.flow (fl.decimal 1 1) || fl.lt (fl.decimal 10 0) w.flow)
      then settled w c invalid (message "flow out of range 0.1-10.0 m3/h (0 = keep)")
      else if not on_asserted && not off_asserted && not flow_asserted
      then settled w c invalid (message "nothing to write: all fields are keep-existing")
      else waiting (record w { phase = resolving }) c (read_dhw_config t.seq ∷ [])

  unfoldable pub resolved_cycle_times : (ok : Bool) → Body F
  resolved_cycle_times ok c t w =
      if not ok
      then settled w c rejected (message "could not read DHW config; write not attempted")
      else let w : Work F = record w {
        pre_on_minutes = c.cached_cycle_time_on;
        pre_off_minutes = c.cached_cycle_time_off;
        pre_flow = get_cached_cycle_flow c;
      } in
        if w.on_minutes == 0 && not (is_known w.pre_on_minutes)
          || w.off_minutes == 0 && not (is_known w.pre_off_minutes)
        then settled w c rejected (message "stored cycle periods unreadable; write not attempted")
        else waiting
            (record w {
              on_minutes =
                  if w.on_minutes == 0 then minutes_or 0 w.pre_on_minutes else w.on_minutes;
              off_minutes =
                  if w.off_minutes == 0 then minutes_or 0 w.pre_off_minutes else w.off_minutes;
              phase = writing;
            })
            (note_mode_commanded dhw_on_off c)
            (step_after t.seq 400 ∷ send_set_mode_request t.seq dhw_on_off ∷ [])

  -- `queued` is the answer of `write_dhw_config`, which refuses when it has no setpoint to keep.
  unfoldable pub write_cycle_times : (queued : Bool) → Body F
  write_cycle_times queued c t w =
      if not queued
      then settled w c rejected (message "DHW setpoint unavailable; write not attempted")
      else waiting w c (
          write_dhw_config t.seq w.on_minutes w.off_minutes
            (if fl.is_nan w.req_flow then none else some (to_native_units constant_flow w.req_flow))
          ∷ [])

  unfoldable pub written_cycle_times : (acked : Bool) → Body F
  written_cycle_times acked c t w =
      waiting (record w { config_unacked = w.config_unacked || not acked; phase = confirming }) c
        (confirm_after t.seq 1200 ∷ [])

  -- The comparisons of the fields that were asked for, with the request and with the values before.
  unfoldable pub shows_cycle : Control F → Work F → Bool
  shows_cycle c w =
      let stored = get_cached_cycle_flow c in
      (w.req_on_minutes == 0 || same_minutes c.cached_cycle_time_on w.on_minutes)
      && (w.req_off_minutes == 0 || same_minutes c.cached_cycle_time_off w.off_minutes)
      && (fl.is_nan w.req_flow
          || not (fl.is_nan stored) && is_near (setpoint_epsilon constant_flow) stored w.req_flow)

  unfoldable pub keeps_cycle : Control F → Work F → Bool
  keeps_cycle c w =
      (w.req_on_minutes == 0 || same_period c.cached_cycle_time_on w.pre_on_minutes)
      && (w.req_off_minutes == 0 || same_period c.cached_cycle_time_off w.pre_off_minutes)
      && (fl.is_nan w.req_flow
          || not (fl.is_nan w.pre_flow)
            && is_near (setpoint_epsilon constant_flow) (get_cached_cycle_flow c) w.pre_flow)

  unfoldable pub judge_cycle_times : (stored_on stored_off : ℕ) → Body F
  judge_cycle_times stored_on stored_off c t w =
      let stored_flow = get_cached_cycle_flow c in
      let w' : Work F = record w {
        on_minutes = stored_on;
        off_minutes = stored_off;
        flow = stored_flow;
      } in
      if shows_cycle c w
      then settled w' c accepted (unacked_detail w.config_unacked (message ""))
      else if keeps_cycle c w
      then settled w' c rejected (
          unacked_detail w.config_unacked
            (about_cycle "pump kept" stored_on stored_off stored_flow))
      else settled w' c clamped (
          unacked_detail w.config_unacked
            (about_cycle "pump stored" stored_on stored_off stored_flow))

  unfoldable pub confirm_cycle_times : (ok : Bool) → Body F
  unfolding retry is_known minutes_or
  confirm_cycle_times ok c t w =
      if ok && is_known c.cached_cycle_time_on && is_known c.cached_cycle_time_off
      then judge_cycle_times (minutes_or 0 c.cached_cycle_time_on)
          (minutes_or 0 c.cached_cycle_time_off) c t w
      else if ltb w.attempts config_max_attempts
      then retry config_retry_delay_ms c t w
      else settled w c timeout
          (unacked_detail w.config_unacked (message "DHW config readback failed"))
