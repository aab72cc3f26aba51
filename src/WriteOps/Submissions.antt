-- ===== src/WriteOps/Submissions.antt =====
-- The submission calls of `write_operation_service.cpp`. A callback is whether the caller gives one.
use Prim.Native.String.{String}
use esphome_alpha_hwr.Base.{ℕ, Bool, true, false, not, ◌&&◌, [], Option, none, some, if◌then◌else◌}
use esphome_alpha_hwr.Floats.{Floats}
use esphome_alpha_hwr.Control.{ControlMode, no_mode}
use esphome_alpha_hwr.Schedule.Upload.{untouched, UploadRequest}
use esphome_alpha_hwr.WriteOps.State.{
  upload_schedule, WriteCommand, set_pump_enabled, set_mode, set_setpoint, set_temperature_range,
  set_cycle_times, set_flow_limiter, set_schedule_entry, clear_schedule_entry, set_schedule_enabled,
  set_remote_mode, set_clock, set_single_event, clear_single_event, refresh_schedule,
  refresh_single_events, WriteOrigin, queued, Ticket, Work, Body, Service,
}
use esphome_alpha_hwr.WriteOps.Queue.{submit}

-- Who submits: the identifier, the origin and the callbacks given.
pub record Caller : Type 0 where
  pub op_id : String
  pub origin : WriteOrigin
  pub has_done : Bool
  pub has_status_done : Bool

unfoldable pub ticket_of : WriteCommand → Caller → Ticket
ticket_of command caller = record {
  seq = 0;
  command = command;
  op_id = caller.op_id;
  origin = caller.origin;
  has_done = caller.has_done;
  has_status_done = caller.has_status_done;
}

module _ {F : Type 0} ⦃fl : Floats F⦄ where
  -- An `Operation` as its declaration initialises it.
  unfoldable pub blank_work : Work F
  blank_work = record {
    phase = queued;
    attempts = 0;
    mode = no_mode;
    value = fl.nan;
    enabled = false;
    temp_min = fl.nan;
    temp_max = fl.nan;
    autoadapt = false;
    on_minutes = 0;
    off_minutes = 0;
    flow = fl.nan;
    pre_value = fl.nan;
    pre_on_minutes = none;
    pre_off_minutes = none;
    pre_flow = fl.nan;
    pre_temp_min = fl.nan;
    pre_temp_max = fl.nan;
    pre_autoadapt = none;
    config_unacked = false;
    pre_remote_observations = 0;
    clock_now_valid = false;
    clock_now_year = 0;
    clock_submitted_ms = 0;
    layer = 0;
    day_index = 0;
    begin_hour = 0;
    begin_minute = 0;
    end_hour = 0;
    end_minute = 0;
    slot = none;
    begin_ts = 0;
    end_ts = 0;
    single_event_action = 2;
    limiter_sub = 0;
    limiter_enabled = false;
    limiter_limit_gpm = fl.nan;
    pre_limiter_enabled = none;
    pre_limiter_limit_gpm = fl.nan;
    limiter_settled = false;
    requested_limiter_enabled = none;
    requested_limiter_limit_gpm = fl.nan;
    clear_by_vacation = false;
    vacation_slots = [];
    vacation_cursor = 0;
    vacation_unhandled = 0;
    slot_note = none;
    event_count = none;
    upload = record { entries = []; enabled = untouched };
    upload_layer = 0;
    upload_written = [];
    upload_skipped = [];
    upload_failed = [];
    upload_enabled_requested = untouched;
    upload_enabled_mismatch = false;
    upload_enabled_unreadable = false;
    req_mode = no_mode;
    req_value = fl.nan;
    req_temp_min = fl.nan;
    req_temp_max = fl.nan;
    req_on_minutes = 0;
    req_off_minutes = 0;
    req_flow = fl.nan;
  }

  unfoldable pub submit_set_enabled : Body F → Bool → Caller → Service F → Service F
  submit_set_enabled run enabled caller s =
      submit run (ticket_of set_pump_enabled caller) (record blank_work { enabled = enabled }) s

  unfoldable pub submit_set_mode : Body F → ControlMode → Caller → Service F → Service F
  submit_set_mode run mode caller s =
      submit run (ticket_of set_mode caller) (record blank_work { mode = mode; req_mode = mode }) s

  unfoldable pub submit_set_setpoint : Body F → ControlMode → F → Caller → Service F → Service F
  submit_set_setpoint run mode v caller s =
      submit run (ticket_of set_setpoint caller)
        (record blank_work { mode = mode; value = v; req_mode = mode; req_value = v }) s

  unfoldable pub submit_set_temperature_range :
      Body F → (min_c max_c : F) → Bool → Caller → Service F → Service F
  submit_set_temperature_range run min_c max_c autoadapt caller s =
      submit run (ticket_of set_temperature_range caller)
        (record blank_work {
          temp_min = min_c;
          temp_max = max_c;
          autoadapt = autoadapt;
          req_temp_min = min_c;
          req_temp_max = max_c;
        })
        s

  -- A flow of 0 keeps the stored one.
  unfoldable pub asserted_flow : F → F
  asserted_flow flow = if not (fl.is_nan flow) && fl.eq flow (fl.decimal 0 0) then fl.nan else flow

  unfoldable pub submit_set_cycle_times :
      Body F → (on_minutes off_minutes : ℕ) → F → Caller → Service F → Service F
  unfolding asserted_flow
  submit_set_cycle_times run on_minutes off_minutes flow caller s =
      submit run (ticket_of set_cycle_times caller)
        (record blank_work {
          on_minutes = on_minutes;
          off_minutes = off_minutes;
          flow = asserted_flow flow;
          req_on_minutes = on_minutes;
          req_off_minutes = off_minutes;
          req_flow = asserted_flow flow;
        })
        s

  unfoldable pub submit_set_schedule_entry :
      Body F
      → (layer day_index begin_hour begin_minute end_hour end_minute : ℕ) → Caller
      → Service F
      → Service F
  submit_set_schedule_entry run layer day_index begin_hour begin_minute end_hour end_minute caller
        s =
      submit run (ticket_of set_schedule_entry caller)
        (record blank_work {
          layer = layer;
          day_index = day_index;
          begin_hour = begin_hour;
          begin_minute = begin_minute;
          end_hour = end_hour;
          end_minute = end_minute;
          enabled = true;
        })
        s

  unfoldable pub submit_clear_schedule_entry :
      Body F → (layer day_index : ℕ) → Caller → Service F → Service F
  submit_clear_schedule_entry run layer day_index caller s =
      submit run (ticket_of clear_schedule_entry caller)
        (record blank_work { layer = layer; day_index = day_index; enabled = false }) s

  unfoldable pub submit_set_remote_mode : Body F → Bool → Caller → Service F → Service F
  submit_set_remote_mode run enabled caller s =
      submit run (ticket_of set_remote_mode caller) (record blank_work { enabled = enabled }) s

  unfoldable pub submit_set_clock :
      Body F → (valid : Bool) → (year : ℕ) → Caller → Service F → Service F
  submit_set_clock run valid year caller s =
      submit run (ticket_of set_clock caller)
        (record blank_work { clock_now_valid = valid; clock_now_year = year }) s

  unfoldable pub submit_set_schedule_enabled : Body F → Bool → Caller → Service F → Service F
  submit_set_schedule_enabled run enabled caller s =
      submit run (ticket_of set_schedule_enabled caller) (record blank_work { enabled = enabled }) s

  unfoldable pub submit_set_single_event :
      Body F → (begin_ts end_ts : ℕ) → Option ℕ → (action : ℕ) → Caller → Service F → Service F
  submit_set_single_event run begin_ts end_ts slot action caller s =
      submit run (ticket_of set_single_event caller)
        (record blank_work {
          begin_ts = begin_ts;
          end_ts = end_ts;
          slot = slot;
          enabled = true;
          single_event_action = action;
        })
        s

  -- A vacation is a stop over a range of dates, in a slot that is resolved later.
  unfoldable pub submit_set_vacation :
      Body F → (begin_ts end_ts : ℕ) → Caller → Service F → Service F
  submit_set_vacation run begin_ts end_ts caller s =
      submit_set_single_event run begin_ts end_ts none 1 caller s

  unfoldable pub submit_set_flow_limiter :
      Body F → (sub : ℕ) → Bool → F → Caller → Service F → Service F
  submit_set_flow_limiter run sub enabled limit_gpm caller s =
      submit run (ticket_of set_flow_limiter caller)
        (record blank_work {
          limiter_sub = sub;
          limiter_enabled = enabled;
          limiter_limit_gpm = limit_gpm;
          requested_limiter_enabled = some enabled;
          requested_limiter_limit_gpm = limit_gpm;
        })
        s

  unfoldable pub submit_clear_vacation : Body F → Caller → Service F → Service F
  submit_clear_vacation run caller s =
      submit run (ticket_of clear_single_event caller)
        (record blank_work { clear_by_vacation = true; enabled = false }) s

  unfoldable pub submit_clear_single_event : Body F → (slot : ℕ) → Caller → Service F → Service F
  submit_clear_single_event run slot caller s =
      submit run (ticket_of clear_single_event caller)
        (record blank_work { slot = some slot; enabled = false }) s

  unfoldable pub submit_refresh_schedule : Body F → Caller → Service F → Service F
  submit_refresh_schedule run caller s = submit run (ticket_of refresh_schedule caller) blank_work s

  unfoldable pub submit_refresh_single_events : Body F → Caller → Service F → Service F
  submit_refresh_single_events run caller s =
      submit run (ticket_of refresh_single_events caller) blank_work s

  unfoldable pub submit_upload_schedule : Body F → UploadRequest → Caller → Service F → Service F
  submit_upload_schedule run request caller s =
      submit run (ticket_of upload_schedule caller) (record blank_work { upload = request }) s
