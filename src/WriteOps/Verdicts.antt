-- ===== src/WriteOps/Verdicts.antt =====
-- What the verdicts of `write_operation_service.cpp` say about the pump.
use esphome_alpha_hwr.Base.{
  ℕ, ◌+◌, ◌-◌, ◌/◌, ◌≤◌, ◌<◌, ◌≡◌, refl, sym, ◌∙◌, ◌⊎◌, Bool, true, not, ◌||◌, List, [], ◌∷◌,
  Option, some, arith, le→leb, u32, sub_u32, inl, inr,
}
use esphome_alpha_hwr.Floats.{Floats}
use esphome_alpha_hwr.Control.{ControlMode, Control, get_setpoint_for_mode}
use esphome_alpha_hwr.WriteOps.State.{
  WriteStatus, accepted, rejected, timeout, superseded, set_pump_enabled, Ticket, Work, Operation,
  Detail, confirming, get_mode, Outcome, waiting, settled, Body, Service,
}
use esphome_alpha_hwr.WriteOps.Queue.{emit, forgets_run_state}
use esphome_alpha_hwr.WriteOps.RunState.{same_bool}
use esphome_alpha_hwr.WriteOps.Modes.{
  is_scalar_mode, is_near, setpoint_epsilon, run_set_setpoint, judge_setpoint, confirm_setpoint,
}
use esphome_alpha_hwr.WriteOps.Config.{
  holds_temperatures, written_temperature_range, written_cycle_times, judge_temperature_range,
  confirm_temperature_range, shows_cycle, judge_cycle_times, confirm_cycle_times,
}
use esphome_alpha_hwr.WriteOps.Limits.{
  LimiterReading, written_flow_limiter, run_set_clock, is_same_cap, judge_flow_limiter,
  confirm_flow_limiter, confirm_set_clock,
}
use esphome_alpha_hwr.WriteOps.Ladder.{Reply, first_of, ladder, verdict, work_after}
use esphome_alpha_hwr.WriteOps.Silence.{
  IsDeaf, IsDeaf-confirm_temperature_range, IsDeaf-confirm_cycle_times, IsDeaf-confirm_flow_limiter,
  ladder-IsDeaf,
}

-- A clock that shows `expected` seconds, up to two.
abbrev pub IsNearly : (shown expected : ℕ) → Type 0
IsNearly shown expected = (shown ≤ expected + 2) × (expected ≤ shown + 2)

module _ {F : Type 0} ⦃fl : Floats F⦄ where
  -- An accepted setpoint was read back: the read succeeded in the mode that was written, the stored value
  -- is within the mode's tolerance of the request, and the result reports the stored value.
  pub confirm_setpoint-accepted :
      (range : Option (F × F)) (success : Bool) (reported : ControlMode) (c : Control F)
      (t : Ticket) (w : Work F)
      → verdict (confirm_setpoint range success reported c t w) ≡ some accepted
      → (success ≡ true)
        × (reported ≡ w.mode)
        × (is_near (setpoint_epsilon w.mode) (get_setpoint_for_mode w.mode c) w.value ≡ true)
        × ((work_after (confirm_setpoint range success reported c t w)).value
            ≡ get_setpoint_for_mode w.mode c)
  unfolding confirm_setpoint judge_setpoint verdict work_after
  confirm_setpoint-accepted range success reported c t w h = ground (arith, h)

  confirm_temperature_range-accepted :
      (ok : Bool) (c : Control F) (t : Ticket) (w : Work F)
      → verdict (confirm_temperature_range ok c t w) ≡ some accepted
      → (ok ≡ true) × (holds_temperatures c w.temp_min w.temp_max (some w.autoadapt) ≡ true)
  unfolding confirm_temperature_range judge_temperature_range verdict
  confirm_temperature_range-accepted ok c t w h = ground (arith, h)

  confirm_cycle_times-accepted :
      (ok : Bool) (c : Control F) (t : Ticket) (w : Work F)
      → verdict (confirm_cycle_times ok c t w) ≡ some accepted
      → (ok ≡ true) × (shows_cycle c w ≡ true)
  unfolding confirm_cycle_times judge_cycle_times verdict
  confirm_cycle_times-accepted ok c t w h = ground (arith, h)

  confirm_flow_limiter-accepted :
      (ok : Bool) (actual : LimiterReading F) (c : Control F) (t : Ticket) (w : Work F)
      → verdict (confirm_flow_limiter ok actual c t w) ≡ some accepted
      → (ok ≡ true)
        × (same_bool actual.enabled w.limiter_enabled ≡ true)
        × (is_same_cap actual.limit_gpm w.limiter_limit_gpm ≡ true)
  unfolding confirm_flow_limiter judge_flow_limiter verdict
  confirm_flow_limiter-accepted ok actual c t w h = ground (arith, h)

  -- The verdict of a config write from the end of its wait for the acknowledge on: what the code does
  -- there, and then its confirm step on one reply after the other, until it settles.
  unfoldable pub verdict_from :
      (written : Bool → Body F)
      → (confirm : Reply F → Body F) → (acked : Bool) → Control F
      → Ticket
      → Work F
      → List (Reply F)
      → Option WriteStatus
  verdict_from written confirm acked c t w replies =
      let o = written acked c t w in first_of (verdict o) (ladder confirm t (work_after o) replies)

  -- A config write that was never acknowledged gets the verdict of one that was: from the end of the wait
  -- for the acknowledge on, whatever the readbacks reply, for temperature ranges, cycle times and flow
  -- limiters alike.
  pub silence-verdict :
      (acked : Bool) (shown : Reply F → LimiterReading F) (c : Control F) (t : Ticket) (w : Work F)
      (replies : List (Reply F))
      → let same = λ (written : Bool → Body F) (confirm : Reply F → Body F).
        verdict_from written confirm acked c t w replies
        ≡ verdict_from written confirm true c t w replies in
        same written_temperature_range (λ r. confirm_temperature_range r.success)
        × same written_cycle_times (λ r. confirm_cycle_times r.success)
        × same written_flow_limiter (λ r. confirm_flow_limiter r.success (shown r))
  unfolding verdict_from written_temperature_range written_cycle_times written_flow_limiter verdict
      work_after first_of
  silence-verdict acked shown c t w replies =
      let from = λ (confirm : Reply F → Body F) (deaf : IsDeaf confirm) (a b : Bool).
        ladder-IsDeaf confirm deaf a t (record w { phase = confirming }) replies
        ∙ sym (ladder-IsDeaf confirm deaf b t (record w { phase = confirming }) replies) in
      (
        from _ IsDeaf-confirm_temperature_range (w.config_unacked || not acked)
            (w.config_unacked || not true),
        from _ IsDeaf-confirm_cycle_times (w.config_unacked || not acked)
            (w.config_unacked || not true),
        from _ (IsDeaf-confirm_flow_limiter shown) (not acked) (not true),
      )

  -- The latency of the node's own queue is never held against the pump. Where the time in the frame,
  -- `sent`, is the node's at the start of SET_CLOCK, the frame sets the pump's clock to it at any later
  -- time `taken`, both clocks go on from then, and each is off by at most two seconds when they are read
  -- back, less than 2^32 ms after the start, the sync is accepted: however long the frame waited, and with
  -- a wrap of `millis()` between.
  pub confirm_set_clock-latency :
      (start taken now sent pump node : ℕ) (c c' : Control F) (t : Ticket) (w : Work F)
      → w.clock_now_valid ≡ true
      → 2021 ≤ w.clock_now_year
      → start ≤ taken
      → taken ≤ now
      → now < start + 4294967296
      → IsNearly pump (sent + (now - taken) / 1000)
      → IsNearly node (sent + (now - start) / 1000)
      → verdict (
          confirm_set_clock
            (u32 now)
            (some (pump, node))
            c'
            t
            (work_after (run_set_clock (u32 start) c t w)))
        ≡ some accepted
  unfolding confirm_set_clock run_set_clock verdict work_after
  confirm_set_clock-latency start taken now sent pump node c c' t w valid year later then below p
        n =
      let elapsed : sub_u32 (u32 now) (u32 start) ≡ now - start =
        omega (arith, later, then, below) in
      let waited : (now - taken) / 1000 ≤ (now - start) / 1000 = omega (arith, later, then) in
      let late = (now - start) / 1000 + 5 in
      rw
        (
          valid,
          le→leb 2021 w.clock_now_year year,
          elapsed,
          le→leb node (pump + late) (omega (arith, p.0, p.1, n.0, n.1)),
          le→leb pump (node + 5) (omega (arith, p.0, p.1, n.0, n.1, waited)),
        )
        refl

  -- The time that SET_CLOCK writes is the one of its submission, `asked`. Where the operation waited for
  -- its turn longer than from its start to the readback and seven seconds more, the sync is rejected,
  -- though the pump took the frame at once and no clock is off.
  confirm_set_clock-stale :
      (asked start now sent : ℕ) (c c' : Control F) (t : Ticket) (w : Work F)
      → w.clock_now_valid ≡ true
      → 2021 ≤ w.clock_now_year
      → start ≤ now
      → now < start + 4294967296
      → asked + (now - start) + 7000 ≤ start
      → verdict (
          confirm_set_clock
            (u32 now)
            (some (sent + (now - start) / 1000, sent + (now - asked) / 1000))
            c'
            t
            (work_after (run_set_clock (u32 start) c t w)))
        ≡ some rejected
  unfolding confirm_set_clock run_set_clock verdict work_after
  confirm_set_clock-stale asked start now sent c c' t w valid year then below long =
      let elapsed : sub_u32 (u32 now) (u32 start) ≡ now - start = omega (arith, then, below) in
      let late = (now - start) / 1000 + 5 in
      let pump = sent + (now - start) / 1000 in
      let node = sent + (now - asked) / 1000 in
      let behind : pump + late < node = omega (arith, then, long) in
      rw (valid, le→leb 2021 w.clock_now_year year, elapsed) (ground (arith, behind))

  abbrev pub AsksFirst : Ticket → Outcome F → Type 0
  AsksFirst t (waiting w c asked) = asked ≡ get_mode t.seq ∷ []
  AsksFirst t (settled w c status detail) = ⊥

  -- A run command that timed out or was superseded is not believed: the next setpoint write, whose frame
  -- carries the run state, reads the pump first and sends nothing before.
  pub emit-forgets :
      (op : Operation F) (status : WriteStatus) (detail : Detail F) (s : Service F) (t : Ticket)
      (w : Work F)
      → op.ticket.command ≡ set_pump_enabled
      → (status ≡ timeout) ⊎ (status ≡ superseded)
      → is_scalar_mode w.mode ≡ true
      → fl.is_finite w.value ≡ true
      → AsksFirst t (run_set_setpoint (emit op status detail s).control t w)
  unfolding emit run_set_setpoint forgets_run_state
  emit-forgets op status detail s t w e (inl h) scalar finite = rw (e, h, scalar, finite) refl
  emit-forgets op status detail s t w e (inr h) scalar finite = rw (e, h, scalar, finite) refl
