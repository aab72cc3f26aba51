-- ===== src/WriteOps/Ladder.antt =====
-- The retries of the confirm steps of `write_operation_service.cpp`: a readback that does not match is asked for
-- again, a bounded number of times.
use esphome_alpha_hwr.Base.{
  ℕ, suc, zero, ◌+◌, ◌≤◌, ◌<◌, ◌≡◌, ◌⊎◌, refl, Bool, true, false, not, ◌&&◌, ◌||◌, List, [], ◌∷◌,
  Option, none, some, arith, ◌==◌, length, take, Bool-cases, inl, inr,
}
use esphome_alpha_hwr.Floats.{Floats}
use esphome_alpha_hwr.Control.{ControlMode, Control}
use esphome_alpha_hwr.WriteOps.State.{
  WriteStatus, accepted, rejected, timeout, Ticket, Work, Outcome, waiting, settled, Body,
}
use esphome_alpha_hwr.WriteOps.RunState.{
  same_bool, confirm_enabled, confirm_remote_mode, enabled_max_attempts,
}
use esphome_alpha_hwr.WriteOps.Modes.{confirm_mode, mode_max_attempts}

-- The end of a readback: whether it succeeded, the mode it reported, and the cache it left.
pub record Reply (F : Type 0) : Type 0 where
  pub success : Bool
  pub reported : ControlMode
  pub cache : Control F

unfoldable pub first_of : Option WriteStatus → Option WriteStatus → Option WriteStatus
first_of (some status) later = some status
first_of none later = later

module _ {F : Type 0} where
  unfoldable pub verdict : Outcome F → Option WriteStatus
  verdict (waiting w c asked) = none
  verdict (settled w c status detail) = some status

  unfoldable pub work_after : Outcome F → Work F
  work_after (waiting w c asked) = w
  work_after (settled w c status detail) = w

  -- The confirm step on one reply after the other, until it settles.
  unfoldable pub ladder : (Reply F → Body F) → Ticket → Work F → List (Reply F) → Option WriteStatus
  ladder confirm t w [] = none
  ladder confirm t w (r ∷ rs) =
      let o = confirm r r.cache t w in first_of (verdict o) (ladder confirm t (work_after o) rs)

  unfoldable pub any_reply : (Reply F → Bool) → List (Reply F) → Bool
  any_reply test [] = false
  any_reply test (r ∷ rs) = test r || any_reply test rs

-- The shape of a confirm step: a reply that matches settles accepted, another is retried up to `most` times,
-- and then settles in another verdict.
pub record IsLadder {F : Type 0} (confirm : Reply F → Body F) (most : ℕ)
    (matches : Work F → Reply F → Bool) : Type 0 where
  pub accepts :
      (r : Reply F) (t : Ticket) (w : Work F)
      → matches w r ≡ true
      → verdict (confirm r r.cache t w) ≡ some accepted
  pub retries :
      (r : Reply F) (t : Ticket) (w : Work F)
      → matches w r ≡ false
      → w.attempts < most
      → (verdict (confirm r r.cache t w) ≡ none)
        × (work_after (confirm r r.cache t w) ≡ record w { attempts = w.attempts + 1 })
  pub gives_up :
      (r : Reply F) (t : Ticket) (w : Work F)
      → matches w r ≡ false
      → most ≤ w.attempts
      → (verdict (confirm r r.cache t w) ≡ some rejected)
        ⊎ (verdict (confirm r r.cache t w) ≡ some timeout)
  pub steady : (w : Work F) (k : ℕ) → matches (record w { attempts = k }) ≡ matches w

-- A verdict: accepted exactly when a reply of those that count matches, and else rejected or timeout.
abbrev pub IsDecided : Option WriteStatus → Bool → Type 0
IsDecided o true = o ≡ some accepted
IsDecided o false = (o ≡ some rejected) ⊎ (o ≡ some timeout)

module _ {F : Type 0} (confirm : Reply F → Body F) (most : ℕ) (matches : Work F → Reply F → Bool)
    (shape : IsLadder confirm most matches) (t : Ticket) where
  pub ladder_lem :
      (left : ℕ) (w : Work F) (rs : List (Reply F))
      → w.attempts + left ≡ most
      → left < length rs
      → IsDecided (ladder confirm t w rs) (any_reply (matches w) (take (suc left) rs))
  unfolding ladder any_reply first_of
  ladder_lem left w [] e enough = absurd (omega (arith, enough))
  ladder_lem zero w (r ∷ rs) e enough = elim (Bool-cases (matches w r)) [
    | inl hit ↦ rw (shape.accepts r t w hit, hit) refl
    | inr miss ↦ rw miss (elim (shape.gives_up r t w miss (omega (arith, e))) [
      | inl told ↦ rw told (inl refl)
      | inr told ↦ rw told (inr refl)
    ])
  ]
  ladder_lem (suc left) w (r ∷ rs) e enough = elim (Bool-cases (matches w r)) [
    | inl hit ↦ rw (shape.accepts r t w hit, hit) refl
    | inr miss ↦
        let (quiet, next) = shape.retries r t w miss (omega (arith, e)) in
        let w' : Work F = record w { attempts = w.attempts + 1 } in
        let later : IsDecided (ladder confirm t w' rs)
            (any_reply (matches w) (take (suc left) rs)) =
          rw (shape.steady w (w.attempts + 1)) at
            (ladder_lem left w' rs (omega (arith, e)) (omega (arith, enough))) in
        rw (quiet, next, miss) later
  ]

module _ {F : Type 0} where
  -- The readback after a run command, or a remote-mode command, that shows what was asked for.
  unfoldable pub shows_run_state : Work F → Reply F → Bool
  shows_run_state w r =
      r.success && r.cache.pump_enabled_valid && same_bool r.cache.pump_enabled w.enabled

  unfoldable pub shows_remote : Work F → Reply F → Bool
  shows_remote w r =
      r.success
      && not (r.cache.remote_source_observations == w.pre_remote_observations)
      && r.cache.remote_state_valid
      && same_bool r.cache.remote_mode_enabled w.enabled

  unfoldable pub shows_mode : Work F → Reply F → Bool
  shows_mode w r = r.success && r.reported == w.mode

  confirm_remote_mode-IsLadder :
      IsLadder {F = F} (λ r. confirm_remote_mode r.success) enabled_max_attempts shows_remote
  unfolding confirm_remote_mode verdict work_after shows_remote
  confirm_remote_mode-IsLadder = record {
    accepts = λ r t w hit. ground (arith, hit);
    retries = λ r t w miss few. ground (arith, miss, few);
    gives_up = λ r t w miss many. ground (arith, miss, many);
    steady = λ w k. refl;
  }

  confirm_mode-IsLadder :
      ⦃fl : Floats F⦄
      → IsLadder {F = F} (λ r. confirm_mode r.success r.reported) mode_max_attempts shows_mode
  unfolding confirm_mode verdict work_after shows_mode
  confirm_mode-IsLadder ⦃fl⦄ = record {
    accepts = λ r t w hit. ground (arith, hit);
    retries = λ r t w miss few. ground (arith, miss, few);
    gives_up = λ r t w miss many. ground (arith, miss, many);
    steady = λ w k. refl;
  }

  confirm_enabled-IsLadder :
      ⦃fl : Floats F⦄
      → IsLadder {F = F} (λ r. confirm_enabled r.success) enabled_max_attempts shows_run_state
  unfolding confirm_enabled verdict work_after shows_run_state
  confirm_enabled-IsLadder ⦃fl⦄ = record {
    accepts = λ r t w hit. ground (arith, hit);
    retries = λ r t w miss few. ground (arith, miss, few);
    gives_up = λ r t w miss many. ground (arith, miss, many);
    steady = λ w k. refl;
  }

  -- The readbacks of a run command decide it within four: it is accepted exactly when one of the first
  -- four succeeds and shows the run state asked for, as valid, and else it is rejected or times out.
  pub confirm_enabled-decides :
      ⦃fl : Floats F⦄ (t : Ticket) (w : Work F) (rs : List (Reply F))
      → w.attempts ≡ 0
      → 4 ≤ length rs
      → IsDecided
          (ladder (λ r. confirm_enabled r.success) t w rs)
          (any_reply (shows_run_state w) (take 4 rs))
  confirm_enabled-decides ⦃fl⦄ t w rs start enough =
      ladder_lem (λ r. confirm_enabled r.success) enabled_max_attempts shows_run_state
        confirm_enabled-IsLadder t 3 w rs (omega (arith, start)) (omega (arith, enough))

  -- The readbacks of a remote-mode command decide it within four: it is accepted exactly when one of the
  -- first four succeeds, shows the mode asked for, as valid, and comes with a control source that was
  -- observed since the command; else it is rejected or times out.
  pub confirm_remote_mode-decides :
      (t : Ticket) (w : Work F) (rs : List (Reply F))
      → w.attempts ≡ 0
      → 4 ≤ length rs
      → IsDecided
          (ladder (λ r. confirm_remote_mode r.success) t w rs)
          (any_reply (shows_remote w) (take 4 rs))
  confirm_remote_mode-decides t w rs start enough =
      ladder_lem (λ r. confirm_remote_mode r.success) enabled_max_attempts shows_remote
        confirm_remote_mode-IsLadder t 3 w rs (omega (arith, start)) (omega (arith, enough))

  -- The readbacks of a mode command decide it within five: it is accepted exactly when one of the first
  -- five succeeds and reports the mode asked for, and else it is rejected or times out.
  pub confirm_mode-decides :
      ⦃fl : Floats F⦄ (t : Ticket) (w : Work F) (rs : List (Reply F))
      → w.attempts ≡ 0
      → 5 ≤ length rs
      → IsDecided
          (ladder (λ r. confirm_mode r.success r.reported) t w rs)
          (any_reply (shows_mode w) (take 5 rs))
  confirm_mode-decides ⦃fl⦄ t w rs start enough =
      ladder_lem (λ r. confirm_mode r.success r.reported) mode_max_attempts shows_mode
        confirm_mode-IsLadder t 4 w rs (omega (arith, start)) (omega (arith, enough))
