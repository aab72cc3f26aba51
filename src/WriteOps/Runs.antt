-- ===== src/WriteOps/Runs.antt =====
-- Tests of the confirm steps of `write_operation_service.cpp`, and concrete inputs at which their theorems apply.
use esphome_alpha_hwr.Base.{
  ◌≡◌, refl, true, false, List, [], ◌∷◌, Option, none, some, arith, inl, u32,
}
use esphome_alpha_hwr.Thousandths.{Milli, milli_floats}
use esphome_alpha_hwr.Control.{Control, cold, get_setpoint_for_mode}
use esphome_alpha_hwr.WriteOps.State.{
  WriteStatus, set_pump_enabled, accepted, rejected, timeout, service, Ticket, Work, Operation,
  message,
}
use esphome_alpha_hwr.WriteOps.Queue.{emit}
use esphome_alpha_hwr.WriteOps.Reach.{new_service}
use esphome_alpha_hwr.WriteOps.RunState.{
  confirm_enabled, confirm_remote_mode, same_bool, retry, with_mode_of,
}
use esphome_alpha_hwr.WriteOps.Modes.{
  run_set_setpoint, confirm_setpoint, judge_setpoint, is_near, setpoint_epsilon, is_scalar_mode,
}
use esphome_alpha_hwr.WriteOps.Config.{
  written_temperature_range, written_cycle_times, unacked_detail, confirm_temperature_range,
  confirm_cycle_times,
}
use esphome_alpha_hwr.WriteOps.Limits.{
  LimiterReading, written_flow_limiter, judge_flow_limiter, is_same_cap, settle_fields,
  run_set_clock, confirm_flow_limiter, confirm_set_clock,
}
use esphome_alpha_hwr.WriteOps.Ladder.{
  Reply, ladder, verdict, work_after, first_of, any_reply, IsDecided, shows_run_state, shows_remote,
  confirm_enabled-decides, confirm_remote_mode-decides,
}
use esphome_alpha_hwr.WriteOps.Verdicts.{
  confirm_setpoint-accepted, verdict_from, silence-verdict, confirm_set_clock-latency, emit-forgets,
  AsksFirst,
}
use esphome_alpha_hwr.Schedule.Upload.{untouched}
use esphome_alpha_hwr.Schedule.Image.{build_layer_image, write_entries}
use esphome_alpha_hwr.WriteOps.Report.{any_layer}
use esphome_alpha_hwr.WriteOps.Uploads.{
  has_layer, drop_layer, same_image, shows_layer, is_failed_read, next_written, mark_written,
  take_layer, confirm_layer, confirm_upload, finish_upload, start_confirm, is_touched,
  upload_apply_enabled, upload_next_layer, begin_upload, upload_layer_read, upload_layer_written,
  upload_layer_confirmed,
}
use esphome_alpha_hwr.WriteOps.Layers.{Reads}
use esphome_alpha_hwr.WriteOps.Uploaded.{confirm_walk, IsSettled, confirm_walk-shows}
use esphome_alpha_hwr.WriteOps.Uploading.{
  awaits_layer_write, awaits_state, upload_round, upload_rounds, upload_turn,
}
use esphome_alpha_hwr.WriteOps.Submissions.{Caller, ticket_of, blank_work}

abbrev nobody : Caller
nobody = record { op_id = ""; origin = service; has_done = false; has_status_done = false }

abbrev run_ticket : Ticket
run_ticket = ticket_of set_pump_enabled nobody

abbrev start_work : Work Milli
start_work = record blank_work { enabled = true }

abbrev silent : Reply Milli
silent = record { success = false; reported = 254; cache = cold }

abbrev stopped : Reply Milli
stopped = record {
  success = true;
  reported = 2;
  cache = record cold { pump_enabled_valid = true; pump_enabled = false };
}

abbrev running : Reply Milli
running = record {
  success = true;
  reported = 2;
  cache = record cold { pump_enabled_valid = true; pump_enabled = true };
}

abbrev slow_start : List (Reply Milli)
slow_start = silent ∷ stopped ∷ stopped ∷ running ∷ []

-- The fourth readback still counts, and a fifth would not.
slow_start_settles :
    (ladder (λ r. confirm_enabled r.success) run_ticket start_work slow_start ≡ some accepted)
    × (ladder (λ r. confirm_enabled r.success) run_ticket start_work (stopped ∷ slow_start)
        ≡ some rejected)
unfolding ladder first_of verdict work_after confirm_enabled retry with_mode_of same_bool blank_work
slow_start_settles = (refl, refl)

confirm_enabled-decides_example :
    IsDecided
      (ladder (λ r. confirm_enabled r.success) run_ticket start_work slow_start)
      (any_reply (shows_run_state start_work) slow_start)
confirm_enabled-decides_example =
    confirm_enabled-decides run_ticket start_work slow_start (unfold blank_work in refl)
      (omega arith)

confirm_remote_mode-decides_example :
    IsDecided
      (ladder (λ r. confirm_remote_mode r.success) run_ticket start_work slow_start)
      (any_reply (shows_remote start_work) slow_start)
confirm_remote_mode-decides_example =
    confirm_remote_mode-decides run_ticket start_work slow_start (unfold blank_work in refl)
      (omega arith)

abbrev no_limiter : LimiterReading Milli
no_limiter = record { valid = true; enabled = true; limit_gpm = some 1600 }

-- A readback that fails, and one that finds a limiter as it was asked for.
abbrev two_readbacks : List (Reply Milli)
two_readbacks = silent ∷ running ∷ []

abbrev limiter_work : Work Milli
limiter_work = record blank_work { limiter_enabled = true; limiter_limit_gpm = some 1600 }

limiter_is_set :
    verdict_from written_flow_limiter
      (λ r. confirm_flow_limiter r.success no_limiter)
      false
      cold
      run_ticket
      limiter_work
      two_readbacks
    ≡ some accepted
unfolding verdict_from written_flow_limiter confirm_flow_limiter judge_flow_limiter is_same_cap
    settle_fields unacked_detail ladder first_of verdict work_after retry same_bool blank_work
limiter_is_set = refl

silence-verdict_example :
    (verdict_from written_temperature_range
        (λ r. confirm_temperature_range r.success)
        false
        cold
        run_ticket
        limiter_work
        two_readbacks
      ≡ verdict_from written_temperature_range
          (λ r. confirm_temperature_range r.success)
          true
          cold
          run_ticket
          limiter_work
          two_readbacks)
    × (verdict_from written_cycle_times
          (λ r. confirm_cycle_times r.success)
          false
          cold
          run_ticket
          limiter_work
          two_readbacks
        ≡ verdict_from written_cycle_times
            (λ r. confirm_cycle_times r.success)
            true
            cold
            run_ticket
            limiter_work
            two_readbacks)
    × (verdict_from written_flow_limiter
          (λ r. confirm_flow_limiter r.success no_limiter)
          false
          cold
          run_ticket
          limiter_work
          two_readbacks
        ≡ verdict_from written_flow_limiter
            (λ r. confirm_flow_limiter r.success no_limiter)
            true
            cold
            run_ticket
            limiter_work
            two_readbacks)
silence-verdict_example =
    silence-verdict false (λ r. no_limiter) cold run_ticket limiter_work two_readbacks

-- 1700 rpm were asked for, and are stored.
abbrev speed_work : Work Milli
speed_work = record blank_work { mode = 2; value = some 1700000 }

abbrev speed_held : Control Milli
speed_held = record cold { cached_speed_setpoint = some 1700000 }

confirm_setpoint-accepted_example :
    (true ≡ true)
    × (2 ≡ speed_work.mode)
    × (is_near (setpoint_epsilon 2) (get_setpoint_for_mode 2 speed_held) (some 1700000) ≡ true)
    × ((work_after (confirm_setpoint none true 2 speed_held run_ticket speed_work)).value
        ≡ get_setpoint_for_mode 2 speed_held)
confirm_setpoint-accepted_example =
    confirm_setpoint-accepted none true 2 speed_held run_ticket speed_work (
      unfold confirm_setpoint judge_setpoint verdict get_setpoint_for_mode is_near setpoint_epsilon
        blank_work in
      refl)

-- The frame waited for nine seconds behind others, while `millis()` wrapped: the pump is that far behind,
-- and no further.
abbrev clock_work : Work Milli
clock_work = record blank_work { clock_now_valid = true; clock_now_year = 2025 }

confirm_set_clock-latency_example :
    verdict (
      confirm_set_clock
        (u32 4294970500)
        (some (1001, 1010))
        cold
        run_ticket
        (work_after (run_set_clock (u32 4294960000) cold run_ticket clock_work)))
    ≡ some accepted
confirm_set_clock-latency_example =
    confirm_set_clock-latency 4294960000 4294969000 4294970500 1000 1001 1010 cold cold run_ticket
      clock_work refl (omega arith) (omega arith) (omega arith) (omega arith)
      (omega arith, omega arith) (omega arith, omega arith)

abbrev start_op : Operation Milli
start_op = record { ticket = run_ticket; work = start_work }

emit-forgets_example : AsksFirst run_ticket (
    run_set_setpoint
      (emit start_op timeout (message "") (new_service cold none)).control
      run_ticket
      speed_work)
emit-forgets_example =
    emit-forgets start_op timeout (message "") (new_service cold none) run_ticket speed_work
      (unfold ticket_of in refl) (inl refl) (unfold is_scalar_mode blank_work in refl) refl

-- The pump holds other images at first, and takes the desired ones.
abbrev others : Reads
others = λ layer. some []

abbrev taken : Reads
taken = λ layer. some (build_layer_image (record { entries = []; enabled = untouched }) layer)

abbrev upload_work : Work Milli
upload_work = record blank_work { upload = record { entries = []; enabled = untouched } }

-- The readbacks of an upload whose first reads find other images.
abbrev uploaded : (backs : Reads) → Option WriteStatus
uploaded backs =
    let begun =
      upload_rounds others none 5 cold run_ticket (begin_upload none cold run_ticket upload_work) in
    confirm_walk backs 5 cold run_ticket
      (confirm_upload cold run_ticket (work_after (upload_turn none cold run_ticket begun)))

upload_is_taken : (uploaded taken ≡ some accepted) × (uploaded others ≡ some rejected)
unfolding confirm_walk upload_turn upload_rounds upload_round awaits_state awaits_layer_write
    begin_upload upload_next_layer upload_apply_enabled start_confirm is_touched upload_layer_read
    upload_layer_written upload_layer_confirmed take_layer mark_written confirm_upload confirm_layer
    next_written has_layer drop_layer shows_layer is_failed_read same_image build_layer_image
    write_entries finish_upload any_layer first_of verdict work_after blank_work
upload_is_taken = (refl, refl)

confirm_walk-shows_example : IsSettled upload_work.upload others taken (uploaded taken)
confirm_walk-shows_example = confirm_walk-shows others taken none none cold run_ticket upload_work
