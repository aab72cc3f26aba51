-- ===== src/WriteOps/Dispatch.antt =====
-- The second switch of `start_front_` in `write_operation_service.cpp`: the machine of each command, and that each of
-- their steps moves its operation on.
use Prim.Native.String.{String}
use esphome_alpha_hwr.Base.{ℕ, refl, Bool, List, [], ◌∷◌, Option, none, some, arith}
use esphome_alpha_hwr.Floats.{Floats}
use esphome_alpha_hwr.WriteOps.State.{
  WriteCommand, set_pump_enabled, set_mode, set_setpoint, set_temperature_range, set_cycle_times,
  set_flow_limiter, set_schedule_entry, clear_schedule_entry, set_schedule_enabled, set_remote_mode,
  set_clock, set_single_event, clear_single_event, refresh_schedule, refresh_single_events,
  upload_schedule, set_pump_state, rejected, resolving, message, settled, Body,
}
use esphome_alpha_hwr.WriteOps.Queue.{is_queued}
use esphome_alpha_hwr.WriteOps.Order.{IsMoving, IsKeeping}
use esphome_alpha_hwr.WriteOps.RunState.{run_remote_mode, run_set_enabled}
use esphome_alpha_hwr.WriteOps.Modes.{run_set_mode, write_setpoint, run_set_setpoint}
use esphome_alpha_hwr.WriteOps.Config.{run_set_temperature_range, run_set_cycle_times}
use esphome_alpha_hwr.WriteOps.Limits.{run_set_clock, run_set_flow_limiter}
use esphome_alpha_hwr.WriteOps.Schedules.{
  ensure_overview, run_schedule_entry, read_layer, run_schedule_enabled, write_schedule_enabled,
}
use esphome_alpha_hwr.WriteOps.Events.{
  Stored, write_event, start_clearing, resolve_slot, choose_slot, run_single_event,
  run_refresh_schedule, ask_single_events, run_refresh_single_events,
}
use esphome_alpha_hwr.WriteOps.Uploads.{run_upload_schedule, begin_upload, upload_next_layer}

-- What a start asks of the other services and of the clock.
pub record Surroundings : Type 0 where
  pub now_ms : ℕ
  pub limiters_reading : Bool
  pub overview_cached : Bool
  pub entry_refused : Option String
  pub stored : Stored
  pub schedule_state : Option Bool

module _ {F : Type 0} ⦃fl : Floats F⦄ where
  unfoldable pub run_of : Surroundings → WriteCommand → Body F
  run_of env set_pump_enabled c t w = run_set_enabled c t w
  run_of env set_mode c t w = run_set_mode c t w
  run_of env set_setpoint c t w = run_set_setpoint c t w
  run_of env set_temperature_range c t w = run_set_temperature_range c t w
  run_of env set_cycle_times c t w = run_set_cycle_times c t w
  run_of env set_flow_limiter c t w = run_set_flow_limiter env.limiters_reading c t w
  run_of env set_schedule_entry c t w =
      run_schedule_entry env.entry_refused env.overview_cached c t w
  run_of env clear_schedule_entry c t w =
      run_schedule_entry env.entry_refused env.overview_cached c t w
  run_of env set_schedule_enabled c t w = run_schedule_enabled env.overview_cached c t w
  run_of env set_remote_mode c t w = run_remote_mode c t w
  run_of env set_clock c t w = run_set_clock env.now_ms c t w
  run_of env set_pump_state c t w =
      settled w c rejected (message "internal: SET_PUMP_STATE is not enqueueable")
  run_of env set_single_event c t w = run_single_event env.stored c t w
  run_of env clear_single_event c t w = run_single_event env.stored c t w
  run_of env refresh_schedule c t w = run_refresh_schedule c t w
  run_of env refresh_single_events c t w = run_refresh_single_events env.overview_cached c t w
  run_of env upload_schedule c t w =
      run_upload_schedule env.overview_cached env.schedule_state c t w

  unfoldable pub run_command : Surroundings → Body F
  run_command env c t w = run_of env t.command c t w

  run_set_setpoint-IsMoving : IsMoving {F = F} run_set_setpoint
  unfolding run_set_setpoint write_setpoint is_queued
  run_set_setpoint-IsMoving c t w = ground arith

  run_schedule_entry-IsMoving :
      (refused : Option String) (cached : Bool)
      → IsMoving {F = F} (run_schedule_entry refused cached)
  unfolding run_schedule_entry ensure_overview read_layer is_queued
  run_schedule_entry-IsMoving refused cached c t w = ground arith

  run_schedule_enabled-IsMoving : (cached : Bool) → IsMoving {F = F} (run_schedule_enabled cached)
  unfolding run_schedule_enabled ensure_overview write_schedule_enabled is_queued
  run_schedule_enabled-IsMoving cached c t w = ground arith

  run_set_temperature_range-IsMoving : IsMoving {F = F} run_set_temperature_range
  unfolding run_set_temperature_range is_queued
  run_set_temperature_range-IsMoving c t w = ground arith

  run_set_cycle_times-IsMoving : IsMoving {F = F} run_set_cycle_times
  unfolding run_set_cycle_times is_queued
  run_set_cycle_times-IsMoving c t w = ground arith

  run_set_flow_limiter-IsMoving : (reading : Bool) → IsMoving {F = F} (run_set_flow_limiter reading)
  unfolding run_set_flow_limiter is_queued
  run_set_flow_limiter-IsMoving reading c t w = ground arith

  write_event-IsMoving :
      (max_events : ℕ) (slot : Option ℕ) → IsMoving {F = F} (write_event max_events slot)
  unfolding write_event is_queued
  write_event-IsMoving max_events none c t w = tt
  write_event-IsMoving max_events (some slot) c t w = ground arith

  start_clearing-IsMoving :
      (st : Stored) (slots : List ℕ) → IsMoving {F = F} (start_clearing st slots)
  unfolding start_clearing
  start_clearing-IsMoving st [] c t w = tt
  start_clearing-IsMoving st (slot ∷ slots) c t w =
      write_event-IsMoving st.max_events (some slot) c t _

  resolve_slot-IsMoving : (st : Stored) → IsMoving {F = F} (resolve_slot st)
  unfolding resolve_slot write_event is_queued
  resolve_slot-IsMoving st c t w =
      let clearing = start_clearing-IsMoving st st.vacations c t w in ground arith

  choose_slot-IsKeeping : (st : Stored) → IsKeeping {F = F} (choose_slot st)
  unfolding choose_slot write_event is_queued
  choose_slot-IsKeeping st c t w begun =
      let resolved = resolve_slot-IsMoving st c t w in ground arith

  run_single_event-IsMoving : (st : Stored) → IsMoving {F = F} (run_single_event st)
  unfolding run_single_event ensure_overview is_queued
  run_single_event-IsMoving st c t w =
      let chosen = choose_slot-IsKeeping st c t (record w { phase = resolving }) refl in
      ground arith

  run_refresh_single_events-IsMoving :
      (cached : Bool) → IsMoving {F = F} (run_refresh_single_events cached)
  unfolding run_refresh_single_events ensure_overview ask_single_events is_queued
  run_refresh_single_events-IsMoving cached c t w = ground arith

  run_upload_schedule-IsMoving :
      (cached : Bool) (state : Option Bool) → IsMoving {F = F} (run_upload_schedule cached state)
  unfolding run_upload_schedule ensure_overview begin_upload upload_next_layer is_queued
  run_upload_schedule-IsMoving cached state c t w = ground arith

  run_of-Leaves : (env : Surroundings) (command : WriteCommand) → IsMoving (run_of env command)
  unfolding run_of run_refresh_schedule run_set_enabled run_set_mode run_remote_mode run_set_clock
      is_queued
  run_of-Leaves env set_pump_enabled c t w = refl
  run_of-Leaves env set_mode c t w = ground arith
  run_of-Leaves env set_setpoint c t w = run_set_setpoint-IsMoving c t w
  run_of-Leaves env set_temperature_range c t w = run_set_temperature_range-IsMoving c t w
  run_of-Leaves env set_cycle_times c t w = run_set_cycle_times-IsMoving c t w
  run_of-Leaves env set_flow_limiter c t w =
      run_set_flow_limiter-IsMoving env.limiters_reading c t w
  run_of-Leaves env set_schedule_entry c t w =
      run_schedule_entry-IsMoving env.entry_refused env.overview_cached c t w
  run_of-Leaves env clear_schedule_entry c t w =
      run_schedule_entry-IsMoving env.entry_refused env.overview_cached c t w
  run_of-Leaves env set_schedule_enabled c t w =
      run_schedule_enabled-IsMoving env.overview_cached c t w
  run_of-Leaves env set_remote_mode c t w = refl
  run_of-Leaves env set_clock c t w = ground arith
  run_of-Leaves env set_pump_state c t w = tt
  run_of-Leaves env set_single_event c t w = run_single_event-IsMoving env.stored c t w
  run_of-Leaves env clear_single_event c t w = run_single_event-IsMoving env.stored c t w
  run_of-Leaves env refresh_schedule c t w = refl
  run_of-Leaves env refresh_single_events c t w =
      run_refresh_single_events-IsMoving env.overview_cached c t w
  run_of-Leaves env upload_schedule c t w =
      run_upload_schedule-IsMoving env.overview_cached env.schedule_state c t w

  -- The start of every command either leaves `QUEUED` or settles the operation.
  pub run_command-IsMoving : (env : Surroundings) → IsMoving (run_command env)
  unfolding run_command
  run_command-IsMoving env c t w = run_of-Leaves env t.command c t w
