-- ===== src/WriteOps/Limits.antt =====
-- SET_FLOW_LIMITER and SET_CLOCK of `write_operation_service.cpp`.
use esphome_alpha_hwr.Base.{
  ℕ, ◌+◌, ◌-◌, ◌/◌, Bool, true, false, not, ◌&&◌, ◌||◌, [], ◌∷◌, Option, none, some, ltb, leb, ◌==◌,
  if◌then◌else◌, sub_u32,
}
use esphome_alpha_hwr.Floats.{Floats}
use esphome_alpha_hwr.WriteOps.State.{
  accepted, clamped, rejected, invalid, timeout, resolving, writing, confirming, Work, message,
  about_limiter, about_clock, confirm_after, run_after, send_set_clock_command, waiting, settled,
  Body,
}
use esphome_alpha_hwr.WriteOps.State.ServiceCall.{read_limiter_configs, write_limiter_config}
use esphome_alpha_hwr.WriteOps.RunState.{same_bool, retry}
use esphome_alpha_hwr.WriteOps.Config.{
  config_max_attempts, config_retry_delay_ms, same_flag, unacked_detail,
}

abbrev pub clock_max_attempts : ℕ
clock_max_attempts = 2

abbrev pub clock_tolerance_s : ℕ
clock_tolerance_s = 5

-- A limiter record as the service holds it.
pub record LimiterReading (F : Type 0) : Type 0 where
  pub valid : Bool
  pub enabled : Bool
  pub limit_gpm : F

module _ {F : Type 0} where
  unfoldable pub run_set_clock : (now_ms : ℕ) → Body F
  run_set_clock now_ms c t w =
      if not (w.clock_now_valid && leb 2021 w.clock_now_year)
      then settled w c invalid (message "no valid system time to write")
      else waiting (record w { phase = confirming; clock_submitted_ms = now_ms }) c
          (confirm_after t.seq 1500 ∷ send_set_clock_command t.seq ∷ [])

  -- The readback: the pump's time, if its fields are in range, and the node's time at that moment, if it
  -- has one, in seconds.
  unfoldable pub confirm_set_clock : (now_ms : ℕ) → (times : Option (ℕ × ℕ)) → Body F
  unfolding retry
  confirm_set_clock now_ms none c t w =
      if leb clock_max_attempts w.attempts
      then settled w c timeout (message "pump clock unreadable")
      else retry 1500 c t w
  confirm_set_clock now_ms (some (pump, node)) c t w =
      let late_allowance = sub_u32 now_ms w.clock_submitted_ms / 1000 + clock_tolerance_s in
      if leb node (pump + late_allowance) && leb pump (node + clock_tolerance_s)
      then settled w c accepted (message "")
      else if ltb pump node
      then settled w c rejected (about_clock true (node - pump))
      else settled w c rejected (about_clock false (pump - node))

module _ {F : Type 0} ⦃fl : Floats F⦄ where
  -- `reading` is `limiters_reading()`: a chain that is running already is waited for.
  unfoldable pub run_set_flow_limiter : (reading : Bool) → Body F
  run_set_flow_limiter reading c t w =
      if not (w.limiter_sub == 600 || w.limiter_sub == 601)
      then settled w c invalid (message "Sub is not a flow limiter (600 = MaxFlow, 601 = MinFlow)")
      else if not (fl.is_nan w.limiter_limit_gpm)
          && (fl.le w.limiter_limit_gpm (fl.decimal 0 0)
              || fl.lt (fl.decimal 100 0) w.limiter_limit_gpm)
      then settled w c invalid
          (message "limiter cap must be greater than 0 and at most 100 gpm (NAN = keep)")
      else if reading
      then waiting (record w { phase = resolving }) c (run_after t.seq config_retry_delay_ms ∷ [])
      else waiting (record w { phase = resolving }) c (read_limiter_configs t.seq ∷ [])

  -- `cached` is the record of the operation's limiter, and `sent` the answer of `write_limiter_config`.
  unfoldable pub resolved_flow_limiter : (ok : Bool) → LimiterReading F → (sent : Bool) → Body F
  resolved_flow_limiter ok cached sent c t w =
      if not ok
      then settled w c rejected (message "could not read flow limiters; write not attempted")
      else if not cached.valid
      then settled w c rejected (message "limiter record did not decode; write not attempted")
      else let cap =
          if fl.is_nan w.limiter_limit_gpm then cached.limit_gpm else w.limiter_limit_gpm in
        let w : Work F = record w {
          pre_limiter_enabled = some cached.enabled;
          pre_limiter_limit_gpm = cached.limit_gpm;
          limiter_limit_gpm = cap;
          phase = writing;
        } in
        if not sent
        then settled w c rejected (message "limiter write could not be built")
        else waiting w c (
            write_limiter_config t.seq w.limiter_sub w.limiter_enabled
              (fl.div cap (fl.decimal 15850323 3))
            ∷ [])

  unfoldable pub written_flow_limiter : (answered : Bool) → Body F
  written_flow_limiter answered c t w =
      waiting (record w { config_unacked = not answered; phase = confirming }) c
        (confirm_after t.seq 1200 ∷ [])

  unfoldable pub is_same_cap : F → F → Bool
  is_same_cap a b = fl.lt (fl.fabs (fl.sub a b)) (fl.decimal 1 2)

  unfoldable pub settle_fields : LimiterReading F → Work F → Work F
  settle_fields actual w = record w {
    limiter_enabled = actual.enabled;
    limiter_limit_gpm = actual.limit_gpm;
    limiter_settled = true;
  }

  unfoldable pub keeps_limiter : LimiterReading F → Work F → Bool
  keeps_limiter actual w =
      not (fl.is_nan w.pre_limiter_limit_gpm)
      && is_same_cap actual.limit_gpm w.pre_limiter_limit_gpm
      && (same_flag w.pre_limiter_enabled none
          || same_flag w.pre_limiter_enabled (some actual.enabled))

  unfoldable pub judge_flow_limiter : LimiterReading F → Body F
  unfolding retry
  judge_flow_limiter actual c t w =
      let told =
        about_limiter w.limiter_enabled w.limiter_limit_gpm actual.enabled actual.limit_gpm in
      if same_bool actual.enabled w.limiter_enabled
        && is_same_cap actual.limit_gpm w.limiter_limit_gpm
      then settled (settle_fields actual w) c accepted
          (unacked_detail w.config_unacked (message ""))
      else if ltb w.attempts config_max_attempts
      then retry config_retry_delay_ms c t w
      else if keeps_limiter actual w
      then settled (settle_fields actual w) c rejected (unacked_detail w.config_unacked told)
      else settled (settle_fields actual w) c clamped (unacked_detail w.config_unacked told)

  -- The handler of the readback, where no other chain holds the reads.
  unfoldable pub confirm_flow_limiter : (ok : Bool) → LimiterReading F → Body F
  unfolding retry
  confirm_flow_limiter ok actual c t w =
      if not ok
      then (if ltb w.attempts config_max_attempts
          then retry config_retry_delay_ms c t w
          else settled w c timeout (message "limiter readback failed"))
      else if not actual.valid
      then settled w c timeout (message "limiter readback did not decode")
      else judge_flow_limiter actual c t w
