-- ===== src/WriteOps/Keys.antt =====
-- The resources by which `submit_` finds the operations that a new one supersedes.
use esphome_alpha_hwr.Base.{
  ℕ, Bool, true, false, ◌&&◌, ◌||◌, List, [], ◌∷◌, ◌++◌, map, leb, ◌==◌, if◌then◌else◌,
}
use esphome_alpha_hwr.Control.{constant_flow, dhw_on_off, temperature_range}
use esphome_alpha_hwr.WriteOps.State.{
  WriteCommand, set_pump_enabled, set_mode, set_setpoint, set_temperature_range, set_cycle_times,
  set_flow_limiter, set_schedule_entry, clear_schedule_entry, set_schedule_enabled, set_remote_mode,
  set_clock, set_single_event, clear_single_event, refresh_schedule, refresh_single_events,
  upload_schedule, set_pump_state, Work, Operation,
}

-- A resource that an operation writes: what the text of the code's key names.
pub data ResourceKey : Type 0 where
  enabled_key mode_key temp_range_key cycle_times_key sched_enabled_key remote_mode_key :
      ResourceKey
  clock_key single_event_key refresh_schedule_key refresh_single_events_key : ResourceKey
  setpoint_key limiter_key : ℕ → ResourceKey
  sched_entry_key : (layer day : ℕ) → ResourceKey

-- The mode in the key `setpoint:`: the modes that `mode_to_string` does not know share a text.
unfoldable pub named_mode : ℕ → ℕ
named_mode m =
    if leb m 2
      || m == 5
      || m == constant_flow
      || m == 13
      || m == 14
      || m == 15
      || m == dhw_on_off
      || m == temperature_range
    then m
    else 254

unfoldable pub same_key : ResourceKey → ResourceKey → Bool
same_key enabled_key enabled_key = true
same_key mode_key mode_key = true
same_key temp_range_key temp_range_key = true
same_key cycle_times_key cycle_times_key = true
same_key sched_enabled_key sched_enabled_key = true
same_key remote_mode_key remote_mode_key = true
same_key clock_key clock_key = true
same_key single_event_key single_event_key = true
same_key refresh_schedule_key refresh_schedule_key = true
same_key refresh_single_events_key refresh_single_events_key = true
same_key (setpoint_key m) (setpoint_key n) = m == n
same_key (limiter_key m) (limiter_key n) = m == n
same_key (sched_entry_key l d) (sched_entry_key m e) = l == m && d == e
same_key _ _ = false

unfoldable pub any_key : (ResourceKey → Bool) → List ResourceKey → Bool
any_key test [] = false
any_key test (k ∷ ks) = test k || any_key test ks

abbrev pub days_of : ℕ → List ResourceKey
days_of layer = map (sched_entry_key layer) (0 ∷ 1 ∷ 2 ∷ 3 ∷ 4 ∷ 5 ∷ 6 ∷ [])

module _ {F : Type 0} where
  unfoldable pub resource_keys : WriteCommand → Work F → List ResourceKey
  resource_keys set_pump_enabled w = enabled_key ∷ []
  resource_keys set_pump_state w = []
  resource_keys set_mode w = mode_key ∷ []
  resource_keys set_setpoint w = setpoint_key (named_mode w.mode) ∷ []
  resource_keys set_temperature_range w = temp_range_key ∷ []
  resource_keys set_cycle_times w = cycle_times_key ∷ []
  resource_keys set_flow_limiter w = limiter_key w.limiter_sub ∷ []
  resource_keys set_schedule_entry w = sched_entry_key w.layer w.day_index ∷ []
  resource_keys clear_schedule_entry w = sched_entry_key w.layer w.day_index ∷ []
  resource_keys set_schedule_enabled w = sched_enabled_key ∷ []
  resource_keys set_remote_mode w = remote_mode_key ∷ []
  resource_keys set_clock w = clock_key ∷ []
  resource_keys set_single_event w = single_event_key ∷ []
  resource_keys clear_single_event w = single_event_key ∷ []
  resource_keys upload_schedule w =
      days_of 0
      ++ (days_of 1 ++ (days_of 2 ++ (days_of 3 ++ (days_of 4 ++ (sched_enabled_key ∷ [])))))
  resource_keys refresh_schedule w = refresh_schedule_key ∷ []
  resource_keys refresh_single_events w = refresh_single_events_key ∷ []

  -- The inner loop of `submit_`: a key of the queued operation is among the new ones.
  unfoldable pub collides : Operation F → Operation F → Bool
  collides new old =
      any_key (λ k. any_key (same_key k) (resource_keys new.ticket.command new.work))
        (resource_keys old.ticket.command old.work)
