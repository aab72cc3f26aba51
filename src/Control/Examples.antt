-- ===== src/Control/Examples.antt =====
-- Tests of `control_service.cpp`, and concrete inputs at which its theorems apply.
use esphome_alpha_hwr.Base.{◌≡◌, refl, true, false, List, [], ◌∷◌, none, some, arith}
use esphome_alpha_hwr.Codec.{decode_float_be}
use esphome_alpha_hwr.Thousandths.{Milli, milli_floats}
use esphome_alpha_hwr.Control.{
  Control, cold, update_mode_from_notification, note_control_source, note_run_state,
  take_notified_mode, cache_setpoint_for_mode, get_setpoint_for_mode, notify_current, notify_mode,
  handle_mode_reply, adopt_readback, take_readback_mode, header_offset,
}
use esphome_alpha_hwr.Control.Pending.{Change, commanded, notified, mode_reply, synced, IsHeld}
use esphome_alpha_hwr.Control.GiveUp.{IsAdopted, sync_rounds, sync_rounds-gives_up}

-- Constant speed was commanded, and the pump has not confirmed it.
abbrev speed_commanded : Control Milli
speed_commanded = record cold {
  current_mode = 2;
  mode_valid = true;
  commanded_mode = 2;
  mode_command_pending = true;
}

speed_commanded-IsHeld : IsHeld speed_commanded
speed_commanded-IsHeld = ground arith

abbrev traffic : List (Change Milli)
traffic = commanded 2 ∷ notified 8 0 (some 1500) 1 ∷ mode_reply none ∷ synced 2 8 ∷ []

-- A notification of the old mode leaves the commanded one, and the run state and the source are taken.
notified_old_mode :
    let c = update_mode_from_notification 8 1 (some 1500) 2 speed_commanded in
    (c.current_mode ≡ 2)
    × (c.mode_command_pending ≡ true)
    × (c.pump_enabled_valid ≡ true)
    × (c.pump_enabled ≡ false)
    × (c.remote_mode_enabled ≡ true)
    × (c.remote_source_observations ≡ 1)
unfolding update_mode_from_notification note_control_source note_run_state take_notified_mode
    cache_setpoint_for_mode get_setpoint_for_mode notify_current notify_mode
notified_old_mode = (refl, refl, refl, refl, refl, refl)

-- The answer `00 00 07 | 01 00 02 | setpoint` confirms the commanded mode.
mode_confirmed :
    let (c, success, mode) =
      handle_mode_reply (some (0 ∷ 0 ∷ 7 ∷ 1 ∷ 0 ∷ 2 ∷ 0 ∷ 0 ∷ 0 ∷ 9 ∷ [])) speed_commanded in
    (success ≡ true)
    × (mode ≡ 2)
    × (c.mode_command_pending ≡ false)
    × (c.cached_speed_setpoint ≡ some 9)
unfolding handle_mode_reply adopt_readback take_readback_mode note_control_source note_run_state
    cache_setpoint_for_mode get_setpoint_for_mode notify_current notify_mode header_offset
    decode_float_be
mode_confirmed = (refl, refl, refl, refl)

sync_rounds-gives_up_example : IsAdopted 8 (sync_rounds 1 0 8 (some 1500) 5 speed_commanded)
sync_rounds-gives_up_example =
    sync_rounds-gives_up 1 0 8 (some 1500) 5 speed_commanded (omega arith) speed_commanded-IsHeld
      refl (ground arith)
