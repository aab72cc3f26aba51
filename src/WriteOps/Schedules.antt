-- ===== src/WriteOps/Schedules.antt =====
-- SET_SCHEDULE_ENTRY, CLEAR_SCHEDULE_ENTRY and SET_SCHEDULE_ENABLED of `write_operation_service.cpp`: the overview
-- first, then the write, and a readback that decides.
use Prim.Native.String.{String}
use esphome_alpha_hwr.Base.{
  ℕ, Bool, true, false, not, ◌&&◌, ◌||◌, [], ◌∷◌, Option, none, some, ltb, ◌==◌, if◌then◌else◌,
}
use esphome_alpha_hwr.WriteOps.State.{
  WriteCommand, set_schedule_entry, accepted, rejected, invalid, timeout, resolving, writing,
  confirming, Work, message, about_run, confirm_after, poll_overview, read_entries, set_entry,
  set_state, waiting, settled, Body,
}
use esphome_alpha_hwr.WriteOps.RunState.{same_bool, retry}

abbrev pub sched_max_attempts : ℕ
sched_max_attempts = 1

unfoldable pub is_set_entry : WriteCommand → Bool
is_set_entry set_schedule_entry = true
is_set_entry _ = false

-- What the readback of a layer holds for a day.
pub record CachedEntry : Type 0 where
  pub enabled : Bool
  pub begin_hour : ℕ
  pub begin_minute : ℕ
  pub end_hour : ℕ
  pub end_minute : ℕ

module _ {F : Type 0} where
  -- `ensure_overview_`: `next` runs at once where the overview is cached, and else after its poll.
  unfoldable pub ensure_overview : (cached : Bool) → Body F → Body F
  ensure_overview true next c t w = next c t w
  ensure_overview false next c t w = waiting w c (poll_overview t.seq ∷ [])

  unfoldable pub overview_polled : (ok : Bool) → Body F → Body F
  overview_polled true next c t w = next c t w
  overview_polled false next c t w =
      settled w c rejected (message "overview not readable; write not attempted")

  unfoldable pub read_layer : Body F
  read_layer c t w =
      if ltb 4 w.layer
      then settled w c invalid (message "layer must be 0-4 and day 0-6")
      else waiting w c (read_entries t.seq w.layer ∷ [])

  -- `refused` is the first error of `validate_entries` on the entry that a set asks for.
  unfoldable pub run_schedule_entry : (refused : Option String) → (cached : Bool) → Body F
  unfolding ensure_overview
  run_schedule_entry (some error) cached c t w =
      if ltb 4 w.layer || ltb 6 w.day_index
      then settled w c invalid (message "layer must be 0-4 and day 0-6")
      else if is_set_entry t.command
      then settled w c invalid (message error)
      else ensure_overview cached read_layer c t (record w { phase = resolving })
  run_schedule_entry none cached c t w =
      if ltb 4 w.layer || ltb 6 w.day_index
      then settled w c invalid (message "layer must be 0-4 and day 0-6")
      else ensure_overview cached read_layer c t (record w { phase = resolving })

  unfoldable pub layer_read : (ok : Bool) → Body F
  layer_read ok c t w =
      if not ok
      then settled w c rejected (message "could not read layer; write not attempted")
      else waiting (record w { phase = writing }) c
          (set_entry t.seq w.layer w.day_index (is_set_entry t.command) ∷ [])

  unfoldable pub entry_written : Body F
  entry_written c t w = waiting (record w { phase = confirming }) c (confirm_after t.seq 1500 ∷ [])

  unfoldable pub ask_layer : Body F
  ask_layer c t w = waiting w c (read_entries t.seq w.layer ∷ [])

  unfoldable pub shows_entry : WriteCommand → Work F → CachedEntry → Bool
  shows_entry command w actual =
      let times_match =
        actual.begin_hour == w.begin_hour
        && actual.begin_minute == w.begin_minute
        && actual.end_hour == w.end_hour
        && actual.end_minute == w.end_minute in
      same_bool actual.enabled (is_set_entry command)
      && (if is_set_entry command then times_match else true)

  unfoldable pub hold_entry : CachedEntry → Work F → Work F
  hold_entry actual w = record w {
    enabled = actual.enabled;
    begin_hour = actual.begin_hour;
    begin_minute = actual.begin_minute;
    end_hour = actual.end_hour;
    end_minute = actual.end_minute;
  }

  -- The handler of the readback, with the entry that `get_cached_entry` finds in the layer.
  unfoldable pub confirm_schedule_entry : (ok : Bool) → Option CachedEntry → Body F
  unfolding retry hold_entry
  confirm_schedule_entry false found c t w =
      if ltb w.attempts sched_max_attempts
      then retry 2000 c t w
      else settled w c timeout (message "layer readback failed")
  confirm_schedule_entry true none c t w = settled w c timeout (message "layer readback failed")
  confirm_schedule_entry true (some actual) c t w =
      if shows_entry t.command w actual
      then settled w c accepted (message "")
      else if ltb w.attempts sched_max_attempts
      then retry 2000 c t w
      else settled (hold_entry actual w) c rejected
          (message "layer readback does not match written entry")

  unfoldable pub write_schedule_enabled : Body F
  write_schedule_enabled c t w =
      waiting (record w { phase = writing }) c (set_state t.seq w.enabled ∷ [])

  unfoldable pub run_schedule_enabled : (cached : Bool) → Body F
  unfolding ensure_overview
  run_schedule_enabled cached c t w =
      ensure_overview cached write_schedule_enabled c t (record w { phase = resolving })

  unfoldable pub schedule_enabled_written : (sent : Bool) → Body F
  schedule_enabled_written sent c t w =
      if not sent
      then settled w c rejected (message "schedule state write not attempted")
      else waiting (record w { phase = confirming }) c (confirm_after t.seq 1500 ∷ [])

  unfoldable pub ask_overview : Body F
  ask_overview c t w = waiting w c (poll_overview t.seq ∷ [])

  -- `have` is the state in the overview, where the poll succeeded and holds one.
  unfoldable pub confirm_schedule_enabled : (have : Option Bool) → Body F
  unfolding retry
  confirm_schedule_enabled (some actual) c t w =
      if same_bool actual w.enabled
      then settled w c accepted (message "")
      else if ltb w.attempts sched_max_attempts
      then retry 2000 c t w
      else settled (record w { enabled = actual }) c rejected
          (about_run "pump still reports schedule" actual)
  confirm_schedule_enabled none c t w =
      if ltb w.attempts sched_max_attempts
      then retry 2000 c t w
      else settled w c timeout (message "overview readback failed")
