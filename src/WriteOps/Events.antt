-- ===== src/WriteOps/Events.antt =====
-- SET_SINGLE_EVENT, CLEAR_SINGLE_EVENT and the two refreshes of `write_operation_service.cpp`: the checks, the choice
-- of the slots, one write and readback for each, and one verdict.
use esphome_alpha_hwr.Base.{
  ℕ, ◌+◌, ◌-◌, Bool, true, false, not, ◌&&◌, ◌||◌, List, [], ◌∷◌, Option, none, some, ltb, leb,
  ◌==◌, if◌then◌else◌, get_or, length, take,
}
use esphome_alpha_hwr.Schedule.Events.{SingleEvent, single_event_slot_limit}
use esphome_alpha_hwr.WriteOps.State.{
  WriteCommand, set_single_event, accepted, rejected, invalid, timeout, resolving, writing,
  confirming, Work, Detail, message, about_slot, about_window, about_vacation, about_cleared,
  reused_slot, about_count, confirm_after, read_all_entries, read_single_events, write_single_event,
  waiting, settled, Body,
}
use esphome_alpha_hwr.WriteOps.Queue.{vacation_progress_note}
use esphome_alpha_hwr.WriteOps.RunState.{same_bool, retry}
use esphome_alpha_hwr.WriteOps.Schedules.{sched_max_attempts, ensure_overview}

abbrev pub max_vacations_per_clear : ℕ
max_vacations_per_clear = 8

-- What the other services answer at once: whether both ends of the window have a local time, the node's
-- time or 0, whether the overview and the events are cached, the pump's count of slots, and what
-- `find_vacation_slots` and `find_free_single_event_slot` find, the latter with what the slot held.
pub record Stored : Type 0 where
  pub window_fits : Bool
  pub now_ts : ℕ
  pub overview_cached : Bool
  pub events_cached : Bool
  pub max_events : ℕ
  pub vacations : List ℕ
  pub free_slot : Option ℕ
  pub recycled : Option (ℕ × ℕ)

unfoldable pub is_set_event : WriteCommand → Bool
is_set_event set_single_event = true
is_set_event _ = false

unfoldable pub is_past_limit : Option ℕ → Bool
is_past_limit none = false
is_past_limit (some slot) = leb single_event_slot_limit slot

module _ {F : Type 0} where
  unfoldable pub event_of : WriteCommand → ℕ → Work F → SingleEvent
  event_of command slot w = record {
    enabled = is_set_event command;
    action = w.single_event_action;
    begin_timestamp = w.begin_ts;
    end_timestamp = w.end_ts;
    index = slot;
  }

  unfoldable pub write_event : (max_events : ℕ) → Option ℕ → Body F
  write_event max_events none c t w =
      settled w c rejected (message "single event slot out of range")
  write_event max_events (some slot) c t w =
      if ltb slot max_events
      then waiting (record w { phase = writing; slot = some slot }) c
          (write_single_event t.seq (event_of t.command slot w) ∷ [])
      else settled (record w { slot = some slot }) c rejected
          (about_slot "single event slot out of range" slot)

  unfoldable pub start_clearing : Stored → List ℕ → Body F
  unfolding write_event
  start_clearing st [] c t w = settled w c accepted (message "no active vacation")
  start_clearing st (slot ∷ slots) c t w = write_event st.max_events (some slot) c t (record w {
    vacation_slots = take max_vacations_per_clear (slot ∷ slots);
    vacation_unhandled = length (slot ∷ slots) - max_vacations_per_clear;
    vacation_cursor = 0;
  })

  -- `resolve` of the code, on a warm cache.
  unfoldable pub resolve_slot : Stored → Body F
  unfolding start_clearing write_event
  resolve_slot st c t w =
      if w.clear_by_vacation then start_clearing st st.vacations c t w else elim st.free_slot [
        | none ↦ settled w c rejected (
            if st.now_ts == 0
            then message
                "no free single event slots (node clock not set, so expired events cannot be reused)"
            else message "no free single event slots")
        | some slot ↦
            write_event st.max_events (some slot) c t (record w { slot_note = st.recycled })
      ]

  -- Behind the overview.
  unfoldable pub choose_slot : Stored → Body F
  unfolding resolve_slot write_event
  choose_slot st c t w = elim w.slot [
    | some slot ↦ write_event st.max_events (some slot) c t w
    | none ↦
        if st.events_cached
        then resolve_slot st c t w
        else waiting w c (read_single_events t.seq ∷ [])
  ]

  unfoldable pub events_read : (ok : Bool) → Stored → Body F
  unfolding resolve_slot
  events_read ok st c t w =
      if not ok
      then settled w c rejected (message "could not read single events; write not attempted")
      else resolve_slot st c t w

  unfoldable pub run_single_event : Stored → Body F
  unfolding ensure_overview choose_slot
  run_single_event st c t w =
      if is_set_event t.command && leb w.end_ts w.begin_ts
      then settled w c invalid (message "end timestamp must be after begin timestamp")
      else if is_set_event t.command && not st.window_fits
      then settled w c invalid
          (message "timestamps cannot be represented in the pump's local-time clock program")
      else if is_set_event t.command && (not (st.now_ts == 0) && leb w.end_ts st.now_ts)
      then settled w c invalid (about_window w.end_ts st.now_ts)
      else if is_past_limit w.slot
      then settled w c invalid (message "slot is not a single-event slot")
      else ensure_overview st.overview_cached (choose_slot st) c t (record w { phase = resolving })

  unfoldable pub event_written : Body F
  event_written c t w = waiting (record w { phase = confirming }) c (confirm_after t.seq 1500 ∷ [])

  unfoldable pub shows_event : WriteCommand → Work F → SingleEvent → Bool
  shows_event command w actual =
      same_bool actual.enabled (is_set_event command)
      && (if is_set_event command
          then actual.begin_timestamp == w.begin_ts
            && actual.end_timestamp == w.end_ts
            && actual.action == w.single_event_action
          else true)

  unfoldable pub cleared_detail : Work F → Detail F
  cleared_detail w =
      if (w.clear_by_vacation && ltb 0 w.vacation_cursor) || ltb 0 w.vacation_unhandled
      then about_cleared (take (w.vacation_cursor + 1) w.vacation_slots) w.vacation_unhandled
      else elim w.slot_note [
        | none ↦ message ""
        | some (begin_ts, end_ts) ↦ reused_slot begin_ts end_ts
      ]

  unfoldable pub has_more_vacations : Work F → Bool
  has_more_vacations w =
      w.clear_by_vacation && ltb (w.vacation_cursor + 1) (length w.vacation_slots)

  -- A slot that reads back as written: the next vacation, or the end.
  unfoldable pub next_vacation : (max_events : ℕ) → Body F
  unfolding write_event
  next_vacation max_events c t w =
      if has_more_vacations w
      then write_event max_events (some (get_or w.vacation_slots (w.vacation_cursor + 1) 0)) c t
          (record w { vacation_cursor = w.vacation_cursor + 1; attempts = 0 })
      else if ltb 0 w.vacation_unhandled
      then settled w c rejected (cleared_detail w)
      else settled w c accepted (cleared_detail w)

  unfoldable pub hold_event : SingleEvent → Work F → Work F
  hold_event actual w = record w {
    enabled = actual.enabled;
    begin_ts = actual.begin_timestamp;
    end_ts = actual.end_timestamp;
    single_event_action = actual.action;
  }

  unfoldable pub confirm_single_event : (max_events : ℕ) → (ok : Bool) → SingleEvent → Body F
  unfolding next_vacation retry hold_event
  confirm_single_event max_events ok actual c t w =
      if not ok
      then (if ltb w.attempts sched_max_attempts
          then retry 2000 c t w
          else settled w c timeout
              (about_vacation "single event readback failed" (vacation_progress_note w)))
      else if shows_event t.command w actual
      then next_vacation max_events c t w
      else if ltb w.attempts sched_max_attempts
      then retry 2000 c t w
      else settled (hold_event actual w) c rejected (
          about_vacation "slot readback does not match written event"
            (vacation_progress_note (hold_event actual w)))

  unfoldable pub run_refresh_schedule : Body F
  run_refresh_schedule c t w =
      waiting (record w { phase = writing }) c (read_all_entries t.seq ∷ [])

  unfoldable pub schedule_refreshed : (count : Option ℕ) → Body F
  schedule_refreshed none c t w = settled w c timeout (message "schedule read failed")
  schedule_refreshed (some n) c t w =
      settled (record w { event_count = some n }) c accepted (about_count n)

  unfoldable pub ask_single_events : Body F
  ask_single_events c t w = waiting w c (read_single_events t.seq ∷ [])

  unfoldable pub run_refresh_single_events : (cached : Bool) → Body F
  unfolding ensure_overview ask_single_events
  run_refresh_single_events cached c t w =
      ensure_overview cached ask_single_events c t (record w { phase = writing })

  unfoldable pub events_refreshed : (count : Option ℕ) → Body F
  events_refreshed none c t w = settled w c timeout (message "single event read failed")
  events_refreshed (some n) c t w =
      settled (record w { event_count = some n }) c accepted (message "")
