-- ===== src/WriteOps/RunState.antt =====
-- SET_PUMP_ENABLED and SET_REMOTE_MODE of `write_operation_service.cpp`: a Class 3 command, and a readback that
-- decides.
use esphome_alpha_hwr.Base.{
  ℕ, ◌+◌, Bool, true, false, not, ◌&&◌, ◌||◌, [], ◌∷◌, ltb, ◌==◌, if◌then◌else◌,
}
use esphome_alpha_hwr.Floats.{Floats}
use esphome_alpha_hwr.Control.{Control, get_setpoint_for_mode, note_enabled_commanded}
use esphome_alpha_hwr.WriteOps.State.{
  accepted, rejected, timeout, writing, confirming, Work, message, about_run, confirm_after,
  send_run_command, send_remote_mode_command, get_mode, waiting, settled, Body,
}

unfoldable pub same_bool : Bool → Bool → Bool
same_bool true b = b
same_bool false b = not b

abbrev pub enabled_confirm_delay_ms : ℕ
enabled_confirm_delay_ms = 800

abbrev pub enabled_retry_delay_ms : ℕ
enabled_retry_delay_ms = 1000

abbrev pub enabled_max_attempts : ℕ
enabled_max_attempts = 3

module _ {F : Type 0} where
  -- The part of every confirm step before its read: the run state, the control source, the mode and
  -- the setpoint share one.
  unfoldable pub ask_mode : Body F
  ask_mode c t w = waiting w c (get_mode t.seq ∷ [])

  unfoldable pub retry : (delay_ms : ℕ) → Body F
  retry delay_ms c t w =
      waiting (record w { attempts = w.attempts + 1 }) c (confirm_after t.seq delay_ms ∷ [])

  unfoldable pub run_remote_mode : Body F
  run_remote_mode c t w =
      waiting (record w { phase = writing }) c (send_remote_mode_command t.seq w.enabled ∷ [])

  -- The callback of the command, which was answered or whose window has closed.
  unfoldable pub sent_remote_mode : (was_rejected : Bool) → Body F
  sent_remote_mode was_rejected c t w =
      if was_rejected
      then settled w c rejected (about_run "pump rejected remote-mode command" w.enabled)
      else waiting
          (record w { phase = confirming; pre_remote_observations = c.remote_source_observations })
          c (confirm_after t.seq enabled_confirm_delay_ms ∷ [])

  -- The handler of the readback, on the cache that the read has left.
  unfoldable pub confirm_remote_mode : (success : Bool) → Body F
  unfolding retry
  confirm_remote_mode success c t w =
      let fresh = not (c.remote_source_observations == w.pre_remote_observations) in
      if success && fresh && c.remote_state_valid && same_bool c.remote_mode_enabled w.enabled
      then settled w c accepted (message "")
      else if ltb w.attempts enabled_max_attempts
      then retry enabled_retry_delay_ms c t w
      else if not success
      then settled w c timeout (message "control-source readback failed")
      else if not fresh || not c.remote_state_valid
      then settled w c timeout (message "pump reported no usable control_source")
      else settled (record w { enabled = c.remote_mode_enabled }) c rejected
          (about_run "pump still reports control" c.remote_mode_enabled)

module _ {F : Type 0} ⦃fl : Floats F⦄ where
  unfoldable pub with_mode_of : Control F → Work F → Work F
  with_mode_of c w = record w {
    mode = c.current_mode;
    value = get_setpoint_for_mode c.current_mode c;
  }

  unfoldable pub run_set_enabled : Body F
  unfolding with_mode_of
  run_set_enabled c t w =
      waiting (record (with_mode_of c w) { phase = writing }) c
        (send_run_command t.seq w.enabled ∷ [])

  unfoldable pub sent_enabled : (was_rejected : Bool) → Body F
  sent_enabled was_rejected c t w =
      if was_rejected
      then settled w c rejected (about_run "pump rejected command" w.enabled)
      else waiting (record w { phase = confirming }) (note_enabled_commanded w.enabled c)
          (confirm_after t.seq enabled_confirm_delay_ms ∷ [])

  unfoldable pub confirm_enabled : (success : Bool) → Body F
  unfolding retry with_mode_of
  confirm_enabled success c t w =
      if success && c.pump_enabled_valid && same_bool c.pump_enabled w.enabled
      then settled (with_mode_of c w) c accepted (message "")
      else if ltb w.attempts enabled_max_attempts
      then retry enabled_retry_delay_ms c t w
      else if not success
      then settled w c timeout (message "run-state readback failed")
      else settled (record (with_mode_of c w) { enabled = c.pump_enabled }) c rejected
          (about_run "pump still reports" c.pump_enabled)
