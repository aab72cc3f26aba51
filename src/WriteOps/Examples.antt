-- ===== src/WriteOps/Examples.antt =====
-- Tests of `write_operation_service.cpp`, and concrete inputs at which its theorems apply.
use esphome_alpha_hwr.Base.{◌≡◌, refl, true, false, [], none, some, arith}
use esphome_alpha_hwr.Thousandths.{Milli, milli_floats}
use esphome_alpha_hwr.Control.{cold, has_class10_mapping, note_mode_commanded, notify_mode}
use esphome_alpha_hwr.WriteOps.State.{
  set_pump_enabled, set_mode, service, Ticket, Work, Operation, Body, Service,
}
use esphome_alpha_hwr.WriteOps.Keys.{collides, any_key, resource_keys, same_key}
use esphome_alpha_hwr.WriteOps.Modes.{run_set_mode}
use esphome_alpha_hwr.WriteOps.Queue.{
  find, enqueue, finish_all, superseded_seqs, start_front, begin, begin_run, is_queued, is_refusing,
  submit, on_watchdog, on_disconnect,
}
use esphome_alpha_hwr.WriteOps.Accounting.{told, pending}
use esphome_alpha_hwr.WriteOps.Order.{IsMoving}
use esphome_alpha_hwr.WriteOps.Reach.{
  new_service, Reachable, created, submitted, IsSound, Reachable-IsSound,
}
use esphome_alpha_hwr.WriteOps.Endings.{on_watchdog-ends, on_disconnect-ends, submit-supersedes}
use esphome_alpha_hwr.WriteOps.Dispatch.{Surroundings, run_of, run_command, run_command-IsMoving}
use esphome_alpha_hwr.WriteOps.Submissions.{Caller, ticket_of, blank_work}

abbrev quiet : Surroundings
quiet = record {
  now_ms = 5000;
  limiters_reading = false;
  overview_cached = true;
  entry_refused = none;
  stored = record {
    window_fits = true;
    now_ts = 0;
    overview_cached = true;
    events_cached = true;
    max_events = 35;
    vacations = [];
    free_slot = some 0;
    recycled = none;
  };
  schedule_state = some true;
}

abbrev run : Body Milli
run = run_command quiet

run-IsMoving : IsMoving run
run-IsMoving = run_command-IsMoving quiet

abbrev card : Caller
card = record { op_id = "card"; origin = service; has_done = true; has_status_done = false }

abbrev mode_ticket : Ticket
mode_ticket = ticket_of set_mode card

abbrev run_ticket : Ticket
run_ticket = ticket_of set_pump_enabled card

abbrev speed_work : Work Milli
speed_work = record blank_work { mode = 2; req_mode = 2 }

abbrev start_work : Work Milli
start_work = record blank_work { enabled = true }

-- A mode command that runs, and a run command behind it.
abbrev one_running : Service Milli
one_running = submit run mode_ticket speed_work (new_service cold (some true))

abbrev one_waiting : Service Milli
one_waiting = submit run run_ticket start_work one_running

one_waiting-Reachable : Reachable 2 one_waiting
one_waiting-Reachable = submitted 1 one_running run run_ticket start_work run-IsMoving (
    submitted 0 (new_service cold (some true)) run mode_ticket speed_work run-IsMoving
      (created cold (some true)))

Reachable-IsSound_example : IsSound 2 one_waiting
Reachable-IsSound_example = Reachable-IsSound 2 one_waiting one_waiting-Reachable (omega arith)

on_watchdog-ends_example :
    (told 1 (on_watchdog run 1 15000 one_waiting).outputs ≡ 1)
    × (pending 1 (on_watchdog run 1 15000 one_waiting).queue ≡ 0)
on_watchdog-ends_example =
    on_watchdog-ends 2 1 one_waiting run 15000 one_waiting-Reachable (omega arith) run-IsMoving
      (omega arith) (omega arith)

on_disconnect-ends_example :
    ((on_disconnect run one_waiting).queue ≡ [])
    × (told 2 (on_disconnect run one_waiting).outputs ≡ 1)
on_disconnect-ends_example =
    on_disconnect-ends 2 2 one_waiting run one_waiting-Reachable (omega arith) run-IsMoving
      (omega arith) (omega arith)

-- A run command that waits behind the mode command, and another one that supersedes it.
abbrev waiting_start : Operation Milli
waiting_start = record { ticket = record run_ticket { seq = 2 }; work = start_work }

waits_second : find 2 one_waiting.queue ≡ some waiting_start
unfolding find submit enqueue finish_all superseded_seqs start_front begin begin_run is_queued
    is_refusing new_service run_command run_of run_set_mode has_class10_mapping note_mode_commanded
    notify_mode ticket_of blank_work collides any_key resource_keys same_key
waits_second = refl

abbrev stop_work : Work Milli
stop_work = blank_work

submit-supersedes_example :
    (told 2 (submit run run_ticket stop_work one_waiting).outputs ≡ 1)
    × (pending 2 (submit run run_ticket stop_work one_waiting).queue ≡ 0)
submit-supersedes_example =
    submit-supersedes 2 2 one_waiting run run_ticket stop_work waiting_start one_waiting-Reachable
      (omega arith) run-IsMoving (omega arith) (omega arith) waits_second
      (unfold is_queued blank_work in refl)
      (unfold collides any_key resource_keys same_key ticket_of in refl)
