-- ===== src/WriteOps/State.antt =====
-- The data of `WriteOperationService`: commands, verdicts, operations and what the service holds.
use Prim.Native.String.{String}
use esphome_alpha_hwr.Base.{ℕ, Bool, List, Option}
use esphome_alpha_hwr.Control.{ControlMode, Control}
use esphome_alpha_hwr.Schedule.Events.{SingleEvent}
use esphome_alpha_hwr.Schedule.Upload.{Enabled, UploadRequest}

pub data WriteCommand : Type 0 where
  set_pump_enabled set_mode set_setpoint set_temperature_range set_cycle_times set_flow_limiter :
      WriteCommand
  set_schedule_entry clear_schedule_entry set_schedule_enabled set_remote_mode set_clock :
      WriteCommand
  set_single_event clear_single_event refresh_schedule refresh_single_events : WriteCommand
  upload_schedule set_pump_state : WriteCommand

pub data WriteStatus : Type 0 where
  accepted clamped rejected invalid timeout superseded partial : WriteStatus

pub data WriteOrigin : Type 0 where
  service entity internal : WriteOrigin

-- How far a verdict is from the success of a composition of writes: the gravest one decides.
unfoldable pub write_status_severity : WriteStatus → ℕ
write_status_severity accepted = 0
write_status_severity clamped = 1
write_status_severity superseded = 2
write_status_severity timeout = 3
write_status_severity partial = 4
write_status_severity rejected = 5
write_status_severity invalid = 6

-- `DONE` is left out: `finish_` sets it on an operation that it erases before anything else runs.
pub data Phase : Type 0 where
  queued resolving writing confirming : Phase

-- The members of `Operation` that are set at submission and never change. The two callbacks are their
-- presence.
pub record Ticket : Type 0 where
  pub seq : ℕ
  pub command : WriteCommand
  pub op_id : String
  pub origin : WriteOrigin
  pub has_done : Bool
  pub has_status_done : Bool

-- The other members: what the state machines read and write. An integer whose -1 is "unknown" is an
-- option, a mask of layers is the list of the layers whose bits are set, and the note on a reused slot
-- is the times of the event that it held.
pub record Work (F : Type 0) : Type 0 where
  pub phase : Phase
  pub attempts : ℕ
  pub mode : ControlMode
  pub value : F
  pub enabled : Bool
  pub temp_min : F
  pub temp_max : F
  pub autoadapt : Bool
  pub on_minutes : ℕ
  pub off_minutes : ℕ
  pub flow : F
  pub pre_value : F
  pub pre_on_minutes : Option ℕ
  pub pre_off_minutes : Option ℕ
  pub pre_flow : F
  pub pre_temp_min : F
  pub pre_temp_max : F
  pub pre_autoadapt : Option Bool
  pub config_unacked : Bool
  pub pre_remote_observations : ℕ
  pub clock_now_valid : Bool
  pub clock_now_year : ℕ
  pub clock_submitted_ms : ℕ
  pub layer : ℕ
  pub day_index : ℕ
  pub begin_hour : ℕ
  pub begin_minute : ℕ
  pub end_hour : ℕ
  pub end_minute : ℕ
  pub slot : Option ℕ
  pub begin_ts : ℕ
  pub end_ts : ℕ
  pub single_event_action : ℕ
  pub limiter_sub : ℕ
  pub limiter_enabled : Bool
  pub limiter_limit_gpm : F
  pub pre_limiter_enabled : Option Bool
  pub pre_limiter_limit_gpm : F
  pub limiter_settled : Bool
  pub requested_limiter_enabled : Option Bool
  pub requested_limiter_limit_gpm : F
  pub clear_by_vacation : Bool
  pub vacation_slots : List ℕ
  pub vacation_cursor : ℕ
  pub vacation_unhandled : ℕ
  pub slot_note : Option (ℕ × ℕ)
  pub event_count : Option ℕ
  pub upload : UploadRequest
  pub upload_layer : ℕ
  pub upload_written : List ℕ
  pub upload_skipped : List ℕ
  pub upload_failed : List ℕ
  pub upload_enabled_requested : Enabled
  pub upload_enabled_mismatch : Bool
  pub upload_enabled_unreadable : Bool
  pub req_mode : ControlMode
  pub req_value : F
  pub req_temp_min : F
  pub req_temp_max : F
  pub req_on_minutes : ℕ
  pub req_off_minutes : ℕ
  pub req_flow : F

pub record Operation (F : Type 0) : Type 0 where
  pub ticket : Ticket
  pub work : Work F

-- The text of a result with what it quotes, before it is formatted. A progress note is the pair of
-- the vacations cleared and the vacations found.
pub data Detail (F : Type 0) : Type 0 where
  message : String → Detail F
  superseded_by : String → Detail F
  no_confirmation : (budget_ms : ℕ) → Option (ℕ × ℕ) → Detail F
  disconnected : Option (ℕ × ℕ) → Detail F
  about_run : String → Bool → Detail F
  about_mode : String → ControlMode → Detail F
  other_mode : (wanted reported : ControlMode) → Detail F
  about_value : String → F → Detail F
  about_range : (stored low high : F) → ControlMode → Detail F
  about_temperatures : String → (low high : F) → Bool → Detail F
  about_cycle : String → (on_minutes off_minutes : ℕ) → F → Detail F
  about_limiter : (wanted : Bool) → F → (held : Bool) → F → Detail F
  about_clock : (behind : Bool) → (seconds : ℕ) → Detail F
  unacked : Detail F → Detail F
  about_slot : String → (slot : ℕ) → Detail F
  about_window : (end_ts now_ts : ℕ) → Detail F
  about_vacation : String → Option (ℕ × ℕ) → Detail F
  about_cleared : (slots : List ℕ) → (unhandled : ℕ) → Detail F
  reused_slot : (begin_ts end_ts : ℕ) → Detail F
  about_count : ℕ → Detail F
  about_layers : String → List ℕ → Detail F

-- What the service asks of the outside, whose answer comes back as a later event: a timer of its own,
-- and the calls of the other services, for the operation of that number.
pub data ServiceCall (F : Type 0) : Type 0 where
  watchdog : (seq budget_ms : ℕ) → ServiceCall F
  confirm_after : (seq delay_ms : ℕ) → ServiceCall F
  step_after : (seq delay_ms : ℕ) → ServiceCall F
  run_after : (seq delay_ms : ℕ) → ServiceCall F
  send_run_command : ℕ → Bool → ServiceCall F
  send_remote_mode_command : ℕ → Bool → ServiceCall F
  send_set_clock_command : ℕ → ServiceCall F
  send_set_mode_request : ℕ → ControlMode → ServiceCall F
  send_control_request : ℕ → ControlMode → Bool → F → ServiceCall F
  write_temp_range_config : ℕ → (low high : F) → Bool → ServiceCall F
  send_configuration_commit : ℕ → ServiceCall F
  write_dhw_config : ℕ → (on_minutes off_minutes : ℕ) → Option F → ServiceCall F
  write_limiter_config : (seq sub : ℕ) → Bool → F → ServiceCall F
  get_mode : ℕ → ServiceCall F
  get_clock : ℕ → ServiceCall F
  read_obj91_config : ℕ → ServiceCall F
  read_dhw_config : ℕ → ServiceCall F
  read_limiter_configs : ℕ → ServiceCall F
  poll_overview : ℕ → ServiceCall F
  read_entries : (seq layer : ℕ) → ServiceCall F
  set_entry : (seq layer day : ℕ) → Bool → ServiceCall F
  set_state : ℕ → Bool → ServiceCall F
  read_all_entries : ℕ → ServiceCall F
  read_single_events : ℕ → ServiceCall F
  read_single_event : (seq slot : ℕ) → ServiceCall F
  write_single_event : ℕ → SingleEvent → ServiceCall F
  write_layer_image : (seq layer : ℕ) → List ℕ → ServiceCall F

-- Where a step of an operation leaves it: it waits for the answers to its requests, or it is to be
-- finished with a verdict.
pub data Outcome (F : Type 0) : Type 0 where
  waiting : Work F → Control F → List (ServiceCall F) → Outcome F
  settled : Work F → Control F → WriteStatus → Detail F → Outcome F

-- A step of a state machine, and the dispatch of a start to the machine of its command.
abbrev pub Body : Type 0 → Type 0
Body F = Control F → Ticket → Work F → Outcome F

-- The result event. The hash of the schedule is whether there is one. A time of day is its hour and minute, `none` where the code leaves the text empty.
pub record WriteResult (F : Type 0) : Type 0 where
  pub of : Ticket
  pub status : WriteStatus
  pub detail : Detail F
  pub mode : ControlMode
  pub value : F
  pub enabled : Option Bool
  pub temp_min : F
  pub temp_max : F
  pub autoadapt : Option Bool
  pub on_minutes : Option ℕ
  pub off_minutes : Option ℕ
  pub flow : F
  pub limiter_sub : Option ℕ
  pub limiter_enabled : Option Bool
  pub limiter_limit_gpm : F
  pub requested_limiter_enabled : Option Bool
  pub requested_limiter_limit_gpm : F
  pub layer : Option ℕ
  pub day : Option ℕ
  pub slot : Option ℕ
  pub single_event_action : ℕ
  pub begin_hhmm : Option (ℕ × ℕ)
  pub end_hhmm : Option (ℕ × ℕ)
  pub begin_ts : ℕ
  pub end_ts : ℕ
  pub sched_enabled : Option Bool
  pub event_count : Option ℕ
  pub layers_written : List ℕ
  pub layers_skipped : List ℕ
  pub has_schedule_hash : Bool
  pub requested_mode : ControlMode
  pub requested_value : F
  pub requested_temp_min : F
  pub requested_temp_max : F
  pub requested_on_minutes : Option ℕ
  pub requested_off_minutes : Option ℕ
  pub requested_flow : F

-- What the outside is told: the result event, and the two callbacks of an operation.
pub data Output (F : Type 0) : Type 0 where
  result : WriteResult F → Output F
  done : ℕ → Bool → Output F
  status_done : ℕ → WriteStatus → Output F

-- `ready_check` is what the check returns, `none` when there is none. `requests` and `outputs` are the
-- calls made so far, newest first. The scheduler is taken to be wired.
pub record Service (F : Type 0) : Type 0 where
  pub queue : List (Operation F)
  pub next_seq : ℕ
  pub control : Control F
  pub ready_check : Option Bool
  pub requests : List (ServiceCall F)
  pub outputs : List (Output F)
