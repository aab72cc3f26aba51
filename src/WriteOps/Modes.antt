-- ===== src/WriteOps/Modes.antt =====
-- SET_MODE and SET_SETPOINT of `write_operation_service.cpp`.
use esphome_alpha_hwr.Base.{
  ℕ, Bool, true, false, not, ◌&&◌, ◌||◌, [], ◌∷◌, Option, none, some, ltb, ◌==◌, if◌then◌else◌,
}
use esphome_alpha_hwr.Floats.{Floats}
use esphome_alpha_hwr.Control.{
  ControlMode, constant_pressure, proportional_pressure, constant_speed, constant_flow, Control,
  get_setpoint_for_mode, cache_setpoint_for_mode, note_mode_commanded, notify_mode,
  has_class10_mapping,
}
use esphome_alpha_hwr.WriteOps.State.{
  accepted, clamped, rejected, invalid, timeout, resolving, confirming, Work, message, about_mode,
  other_mode, about_value, about_range, confirm_after, send_set_mode_request, send_control_request,
  get_mode, waiting, settled, Body,
}
use esphome_alpha_hwr.WriteOps.RunState.{retry}

abbrev pub mode_max_attempts : ℕ
mode_max_attempts = 4

abbrev pub setpoint_max_attempts : ℕ
setpoint_max_attempts = 2

unfoldable pub is_scalar_mode : ControlMode → Bool
is_scalar_mode mode =
    mode == constant_pressure
    || mode == proportional_pressure
    || mode == constant_speed
    || mode == constant_flow

module _ {F : Type 0} ⦃fl : Floats F⦄ where
  unfoldable pub to_native_units : ControlMode → F → F
  to_native_units mode v =
      if mode == constant_pressure || mode == proportional_pressure
      then fl.mul v (fl.decimal 980665 2)
      else if mode == constant_flow
      then fl.div v (fl.decimal 3600 0)
      else v

  unfoldable pub setpoint_epsilon : ControlMode → F
  setpoint_epsilon mode =
      if mode == constant_speed
      then fl.decimal 1 0
      else if mode == constant_flow
      then fl.decimal 5 3
      else fl.decimal 1 2

  -- `std::fabs(a - b) <= eps`
  unfoldable pub is_near : F → F → F → Bool
  is_near eps a b = fl.le (fl.fabs (fl.sub a b)) eps

  -- `send_set_mode_request` always answers true.
  unfoldable pub run_set_mode : Body F
  run_set_mode c t w =
      if not (has_class10_mapping w.mode)
      then settled w c invalid (about_mode "unsupported mode" w.mode)
      else waiting (record w { phase = confirming }) (note_mode_commanded w.mode c)
          (confirm_after t.seq 1500 ∷ send_set_mode_request t.seq w.mode ∷ [])

  -- The pump never applied the command: its mode is adopted.
  unfoldable pub adopt_mode : ControlMode → Control F → Control F
  adopt_mode reported c =
      notify_mode reported c.cached_operation_mode (get_setpoint_for_mode reported c) (record c {
        mode_command_pending = false;
        mode_confirm_attempts = 0;
        current_mode = reported;
        mode_valid = true;
      })

  unfoldable pub confirm_mode : (success : Bool) → (reported : ControlMode) → Body F
  unfolding retry
  confirm_mode success reported c t w =
      if success && reported == w.mode
      then settled w c accepted (message "")
      else if ltb w.attempts mode_max_attempts
      then retry 2000 c t w
      else if not success
      then settled w c timeout (message "mode readback failed")
      else settled (record w { mode = reported }) (adopt_mode reported c) rejected
          (about_mode "pump kept" reported)

  -- The continuation of `with_resolved_enabled_state`: `none` is a run state that could not be resolved.
  -- `send_control_request` always answers true.
  unfoldable pub write_setpoint : (run_state : Option Bool) → Body F
  write_setpoint none c t w =
      settled w c rejected (message "could not determine pump enabled state")
  write_setpoint (some enabled) c t w =
      let native = to_native_units w.mode w.value in
      waiting (record w { phase = confirming; enabled = enabled })
        (cache_setpoint_for_mode w.mode native (note_mode_commanded w.mode c))
        (confirm_after t.seq 1600 ∷ send_control_request t.seq w.mode enabled native ∷ [])

  unfoldable pub run_set_setpoint : Body F
  unfolding write_setpoint
  run_set_setpoint c t w =
      if not (is_scalar_mode w.mode)
      then settled w c invalid (about_mode "mode has no scalar setpoint" w.mode)
      else if not (fl.is_finite w.value)
      then settled w c invalid (message "setpoint is not a number")
      else let w : Work F = record w {
        phase = resolving;
        pre_value = get_setpoint_for_mode w.mode c;
      } in
        if c.pump_enabled_valid
        then write_setpoint (some c.pump_enabled) c t w
        else waiting w c (get_mode t.seq ∷ [])

  -- The verdict on a stored value. `range` is the range of the mode, when the pump has published it.
  unfoldable pub judge_setpoint : (range : Option (F × F)) → F → Body F
  judge_setpoint range stored c t w =
      let eps = setpoint_epsilon w.mode in
      let w' : Work F = record w { value = stored } in
      if is_near eps stored w.value
      then settled w' c accepted (message "")
      else if not (fl.is_nan w.pre_value) && is_near eps stored w.pre_value
      then settled w' c rejected (about_value "pump kept" stored)
      else elim range [
        | some (low, high) ↦ settled w' c clamped (about_range stored low high w.mode)
        | none ↦ settled w' c clamped (about_value "pump stored" stored)
      ]

  unfoldable pub confirm_setpoint :
      (range : Option (F × F)) → (success : Bool) → (reported : ControlMode) → Body F
  unfolding retry judge_setpoint
  confirm_setpoint range success reported c t w =
      let stored = get_setpoint_for_mode w.mode c in
      if success && reported == w.mode && not (fl.is_nan stored)
      then judge_setpoint range stored c t w
      else if ltb w.attempts setpoint_max_attempts
      then retry 1500 c t w
      else if success && not (reported == w.mode)
      then settled w c rejected (other_mode w.mode reported)
      else settled w c timeout (message "setpoint readback failed")
