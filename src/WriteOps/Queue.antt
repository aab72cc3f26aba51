-- ===== src/WriteOps/Queue.antt =====
-- The queue machinery of `write_operation_service.cpp`: `submit_`, `start_front_`, `finish_`, `find_`,
-- the watchdogs and `on_disconnect`. The dispatch of a start is an argument, `run`.
use text.Mathlib.Text.{◌==◌ as str_eq}
use esphome_alpha_hwr.Base.{
  ℕ, ◌+◌, ◌*◌, Bool, true, false, not, ◌&&◌, ◌||◌, List, [], ◌∷◌, ◌++◌, Option, none, some, map,
  leb, ◌==◌, if◌then◌else◌, u32, length,
}
use esphome_alpha_hwr.Floats.{Floats}
use esphome_alpha_hwr.WriteOps.State.{
  WriteCommand, set_pump_enabled, set_mode, set_temperature_range, set_cycle_times,
  set_flow_limiter, set_schedule_entry, clear_schedule_entry, set_schedule_enabled, set_remote_mode,
  set_clock, set_single_event, clear_single_event, refresh_schedule, refresh_single_events,
  upload_schedule, WriteStatus, rejected, timeout, superseded, entity, Phase, queued, WriteOrigin,
  Ticket, Work, Operation, Detail, message, superseded_by, no_confirmation, disconnected, watchdog,
  Outcome, waiting, settled, Body, Output, result, done, status_done, Service,
}
use esphome_alpha_hwr.WriteOps.Keys.{collides}
use esphome_alpha_hwr.WriteOps.Report.{make_result, is_applied}

unfoldable pub is_queued : Phase → Bool
is_queued queued = true
is_queued _ = false

abbrev pub watchdog_budget : WriteCommand → Bool → ℕ
watchdog_budget set_mode _ = 15000
watchdog_budget set_temperature_range _ = 26000
watchdog_budget set_cycle_times _ = 26000
watchdog_budget set_schedule_entry _ = 20000
watchdog_budget clear_schedule_entry _ = 20000
watchdog_budget set_schedule_enabled _ = 12000
watchdog_budget set_remote_mode _ = 12000
watchdog_budget set_clock _ = 30000
watchdog_budget set_flow_limiter _ = 45000
watchdog_budget set_single_event _ = 60000
watchdog_budget clear_single_event by_vacation = if by_vacation then 60000 + 7 * 20000 else 60000
watchdog_budget refresh_schedule _ = 30000
watchdog_budget refresh_single_events _ = 120000
watchdog_budget upload_schedule _ = 150000
watchdog_budget _ _ = 10000

-- `finish_` forgets the commanded run state of a write that no readback has confirmed.
unfoldable pub forgets_run_state : WriteCommand → WriteStatus → Bool
forgets_run_state set_pump_enabled timeout = true
forgets_run_state set_pump_enabled superseded = true
forgets_run_state _ _ = false

unfoldable pub is_entity : WriteOrigin → Bool
is_entity entity = true
is_entity _ = false

module _ {F : Type 0} where
  unfoldable pub superseded_seqs : Operation F → List (Operation F) → List ℕ
  superseded_seqs new [] = []
  superseded_seqs new (op ∷ ops) =
      let later = superseded_seqs new ops in
      if is_queued op.work.phase && collides new op then op.ticket.seq ∷ later else later

  unfoldable pub find : ℕ → List (Operation F) → Option (Operation F)
  find seq [] = none
  find seq (op ∷ ops) = let later = find seq ops in if op.ticket.seq == seq then some op else later

  unfoldable pub set_work : ℕ → Work F → List (Operation F) → List (Operation F)
  set_work seq w [] = []
  set_work seq w (op ∷ ops) =
      let later = set_work seq w ops in
      if op.ticket.seq == seq then record op { work = w } ∷ ops else op ∷ later

  -- The operation of that number and the queue without it.
  unfoldable pub take_out : ℕ → List (Operation F) → Option (Operation F × List (Operation F))
  take_out seq [] = none
  take_out seq (op ∷ ops) =
      let later = take_out seq ops in
      if op.ticket.seq == seq
      then some (op, ops)
      else elim later [ none ↦ none | some (found, rest) ↦ some (found, op ∷ rest) ]

  unfoldable pub vacation_progress_note : Work F → Option (ℕ × ℕ)
  vacation_progress_note w =
      if not w.clear_by_vacation || leb (length w.vacation_slots) 1
      then none
      else some (w.vacation_cursor, length w.vacation_slots)

  unfoldable pub call_done : Ticket → WriteStatus → List (Output F) → List (Output F)
  call_done t status outputs =
      let told = if t.has_done then done t.seq (is_applied status) ∷ outputs else outputs in
      if t.has_status_done then status_done t.seq status ∷ told else told

unfoldable pub is_refusing : Option Bool → Bool
is_refusing (some false) = true
is_refusing _ = false

pub data Begun (F : Type 0) : Type 0 where
  started : Operation F → Service F → Begun F
  ended : Service F → Begun F

module _ {F : Type 0} ⦃fl : Floats F⦄ where
  -- `finish_` once the operation is found, up to the start of the next one: the queue is the caller's.
  unfoldable pub emit : Operation F → WriteStatus → Detail F → Service F → Service F
  emit op status detail s = record s {
    control =
        if forgets_run_state op.ticket.command status
        then record s.control { pump_enabled_valid = false }
        else s.control;
    outputs =
        call_done op.ticket status
          (result (make_result op.ticket op.work status detail) ∷ s.outputs);
  }

  unfoldable pub begin_run : Operation F → Outcome F → Service F → Begun F
  begin_run op (waiting w c asked) s =
      started (record op { work = w }) (record s { control = c; requests = asked ++ s.requests })
  begin_run op (settled w c status detail) s =
      ended (emit (record op { work = w }) status detail (record s { control = c }))

  -- `start_front_` for the operation at the front: one that runs is left alone, and one that is queued
  -- is refused or gets its watchdog and starts.
  unfoldable pub begin : Body F → Operation F → Service F → Begun F
  begin run op s =
      if not (is_queued op.work.phase)
      then started op s
      else if is_refusing s.ready_check
      then ended (emit op rejected (message "pump not connected/synchronized") s)
      else begin_run op (run s.control op.ticket op.work) (record s {
        requests =
            watchdog op.ticket.seq (watchdog_budget op.ticket.command op.work.clear_by_vacation)
            ∷ s.requests;
      })

  -- `start_front_` on this queue, with the starts that follow when one is finished at once.
  unfoldable pub start_front : Body F → List (Operation F) → Service F → Service F
  start_front run [] s = record s { queue = [] }
  start_front run (op ∷ ops) s = elim (begin run op s) [
    | started op' s' ↦ record s' { queue = op' ∷ ops }
    | ended s' ↦ start_front run ops s'
  ]

  -- `finish_` behind the front, where no other operation is started.
  unfoldable pub finish_behind :
      Operation F
      → Option (Operation F × List (Operation F))
      → WriteStatus
      → Detail F
      → Service F
      → Service F
  finish_behind front none status detail s = s
  finish_behind front (some (op, ops)) status detail s =
      emit op status detail (record s { queue = front ∷ ops })

  unfoldable pub finish_in :
      Body F → ℕ → WriteStatus → Detail F → List (Operation F) → Service F → Service F
  finish_in run seq status detail [] s = s
  finish_in run seq status detail (op ∷ ops) s =
      if op.ticket.seq == seq
      then start_front run ops (emit op status detail s)
      else finish_behind op (take_out seq ops) status detail s

  unfoldable pub finish_op : Body F → ℕ → WriteStatus → Detail F → Service F → Service F
  finish_op run seq status detail s = finish_in run seq status detail s.queue s

  unfoldable pub apply : Body F → ℕ → Outcome F → Service F → Service F
  apply run seq (waiting w c asked) s = record s {
    queue = set_work seq w s.queue;
    control = c;
    requests = asked ++ s.requests;
  }
  apply run seq (settled w c status detail) s =
      finish_op run seq status detail (record s { queue = set_work seq w s.queue; control = c })

  -- The frame of every handler: it looks its operation up by `find_`, and does nothing when it is gone.
  unfoldable pub with_op : Body F → ℕ → Body F → Service F → Service F
  with_op run seq body s = elim (find seq s.queue) [
    | none ↦ s
    | some op ↦ apply run seq (body s.control op.ticket op.work) s
  ]

  unfoldable pub finish_all : Body F → List ℕ → WriteStatus → Detail F → Service F → Service F
  finish_all run [] status detail s = s
  finish_all run (seq ∷ seqs) status detail s =
      finish_all run seqs status detail (finish_op run seq status detail s)

  unfoldable pub superseding : Ticket → Detail F
  superseding t =
      if is_entity t.origin
      then message "superseded by entity write"
      else if str_eq t.op_id ""
      then message "superseded by service write"
      else superseded_by t.op_id

  unfoldable pub enqueue : Body F → Operation F → Service F → Service F
  enqueue run op s =
      let s' = finish_all run (superseded_seqs op s.queue) superseded (superseding op.ticket) s in
      start_front run (s'.queue ++ (op ∷ [])) s'

  -- `submit_`: the ticket's own number is replaced by the next one.
  unfoldable pub submit : Body F → Ticket → Work F → Service F → Service F
  submit run t w s =
      enqueue run
        (record { ticket = record t { seq = s.next_seq }; work = record w { phase = queued } })
        (record s { next_seq = u32 (s.next_seq + 1) })

  -- The callback of `arm_watchdog_`.
  unfoldable pub on_watchdog : Body F → (seq budget_ms : ℕ) → Service F → Service F
  on_watchdog run seq budget_ms s =
      with_op run seq
        (λ c t w. settled w c timeout (no_confirmation budget_ms (vacation_progress_note w))) s

  unfoldable pub disconnect_all : Body F → List ℕ → Service F → Service F
  disconnect_all run [] s = s
  disconnect_all run (seq ∷ seqs) s =
      disconnect_all run seqs
        (with_op run seq (λ c t w. settled w c timeout (disconnected (vacation_progress_note w))) s)

  unfoldable pub on_disconnect : Body F → Service F → Service F
  on_disconnect run s = disconnect_all run (map (λ op. op.ticket.seq) s.queue) s
