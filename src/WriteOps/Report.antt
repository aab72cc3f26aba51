-- ===== src/WriteOps/Report.antt =====
-- The result that `finish_` of `write_operation_service.cpp` builds from a settled operation.
use esphome_alpha_hwr.Base.{
  ℕ, Bool, true, false, Option, none, some, List, [], ◌∷◌, ◌||◌, ltb, if◌then◌else◌,
}
use esphome_alpha_hwr.Floats.{Floats}
use esphome_alpha_hwr.Control.{no_mode}
use esphome_alpha_hwr.Schedule.Upload.{Enabled, untouched, off, on}
use esphome_alpha_hwr.WriteOps.State.{
  WriteCommand, set_pump_enabled, set_mode, set_setpoint, set_temperature_range, set_cycle_times,
  set_flow_limiter, set_schedule_entry, clear_schedule_entry, set_schedule_enabled, set_remote_mode,
  set_single_event, clear_single_event, refresh_schedule, refresh_single_events, upload_schedule,
  accepted, clamped, WriteStatus, Ticket, Work, Detail, WriteResult,
}

-- A field where 0 stands for "kept" is not reported.
unfoldable pub reported_minutes : ℕ → Option ℕ
reported_minutes n = if ltb 0 n then some n else none

unfoldable pub any_layer : List ℕ → Bool
any_layer [] = false
any_layer (layer ∷ layers) = true

unfoldable pub flag_of : Enabled → Option Bool
flag_of untouched = none
flag_of off = some false
flag_of on = some true

module _ {F : Type 0} ⦃fl : Floats F⦄ where
  -- The result with the fields that every command fills, and the request of the operation.
  unfoldable pub blank_result : Ticket → Work F → WriteStatus → Detail F → WriteResult F
  blank_result t w status detail = record {
    of = t;
    status = status;
    detail = detail;
    mode = no_mode;
    value = fl.nan;
    enabled = none;
    temp_min = fl.nan;
    temp_max = fl.nan;
    autoadapt = none;
    on_minutes = none;
    off_minutes = none;
    flow = fl.nan;
    limiter_sub = none;
    limiter_enabled = none;
    limiter_limit_gpm = fl.nan;
    requested_limiter_enabled = none;
    requested_limiter_limit_gpm = fl.nan;
    layer = none;
    day = none;
    slot = none;
    single_event_action = 0;
    begin_hhmm = none;
    end_hhmm = none;
    begin_ts = 0;
    end_ts = 0;
    sched_enabled = none;
    event_count = none;
    layers_written = [];
    layers_skipped = [];
    has_schedule_hash = false;
    requested_mode = w.req_mode;
    requested_value = w.req_value;
    requested_temp_min = w.req_temp_min;
    requested_temp_max = w.req_temp_max;
    requested_on_minutes = none;
    requested_off_minutes = none;
    requested_flow = fl.nan;
  }

  unfoldable pub report_limiter : Work F → WriteResult F → WriteResult F
  report_limiter w r =
      let r : WriteResult F = record r {
        limiter_sub = some w.limiter_sub;
        requested_limiter_enabled = w.requested_limiter_enabled;
        requested_limiter_limit_gpm = w.requested_limiter_limit_gpm;
      } in
      if w.limiter_settled
      then record r {
        limiter_enabled = some w.limiter_enabled;
        limiter_limit_gpm = w.limiter_limit_gpm;
      }
      else r

  unfoldable pub report_entry : Work F → WriteResult F → WriteResult F
  report_entry w r = record r {
    layer = some w.layer;
    day = some w.day_index;
    begin_hhmm = some (w.begin_hour, w.begin_minute);
    end_hhmm = some (w.end_hour, w.end_minute);
    sched_enabled = some w.enabled;
  }

  unfoldable pub report_event : Work F → WriteResult F → WriteResult F
  report_event w r = record r {
    slot = w.slot;
    begin_ts = w.begin_ts;
    end_ts = w.end_ts;
    sched_enabled = some w.enabled;
  }

  unfoldable pub report_upload : Work F → WriteResult F → WriteResult F
  report_upload w r = record r {
    layers_written = w.upload_written;
    layers_skipped = w.upload_skipped;
    has_schedule_hash =
        any_layer w.upload_written || any_layer w.upload_skipped || any_layer w.upload_failed;
    sched_enabled = flag_of w.upload.enabled;
  }

  -- The switch over the commands. The clock offset and the times of an entry's request are left out.
  unfoldable pub report : WriteCommand → Work F → WriteResult F → WriteResult F
  unfolding report_limiter report_entry report_event report_upload
  report set_pump_enabled w r = record r {
    enabled = some w.enabled;
    mode = w.mode;
    value = w.value;
  }
  report set_mode w r = record r { mode = w.mode }
  report set_setpoint w r = record r { mode = w.mode; value = w.value; enabled = some w.enabled }
  report set_temperature_range w r = record r {
    temp_min = w.temp_min;
    temp_max = w.temp_max;
    autoadapt = some w.autoadapt;
  }
  report set_cycle_times w r = record r {
    requested_on_minutes = reported_minutes w.req_on_minutes;
    requested_off_minutes = reported_minutes w.req_off_minutes;
    requested_flow = w.req_flow;
    on_minutes = reported_minutes w.on_minutes;
    off_minutes = reported_minutes w.off_minutes;
    flow = w.flow;
  }
  report set_flow_limiter w r = report_limiter w r
  report set_schedule_entry w r = report_entry w r
  report clear_schedule_entry w r = report_entry w r
  report set_schedule_enabled w r = record r { sched_enabled = some w.enabled }
  report set_remote_mode w r = record r { enabled = some w.enabled }
  report set_single_event w r = record (report_event w r) {
    single_event_action = w.single_event_action;
  }
  report clear_single_event w r = report_event w r
  report refresh_schedule w r = record r { event_count = w.event_count }
  report refresh_single_events w r = record r { event_count = w.event_count }
  report upload_schedule w r = report_upload w r
  report _ w r = r

  unfoldable pub make_result : Ticket → Work F → WriteStatus → Detail F → WriteResult F
  make_result t w status detail = report t.command w (blank_result t w status detail)

unfoldable pub republishes : WriteCommand → (applied : Bool) → (has_hash : Bool) → Bool
republishes set_schedule_entry applied has_hash = applied
republishes clear_schedule_entry applied has_hash = applied
republishes set_schedule_enabled applied has_hash = applied
republishes refresh_schedule applied has_hash = applied
republishes upload_schedule applied has_hash = has_hash
republishes _ applied has_hash = false

unfoldable pub is_applied : WriteStatus → Bool
is_applied accepted = true
is_applied clamped = true
is_applied _ = false

-- Whether the displays of the schedule follow a result.
unfoldable pub result_republishes_schedule : {F : Type 0} → WriteResult F → Bool
unfolding republishes is_applied
result_republishes_schedule r = republishes r.of.command (is_applied r.status) r.has_schedule_hash
