-- ===== src/Control/GiveUp.antt =====
-- The bounded retries of `sync_cache_async`: a command that the pump never applies is given up.
use esphome_alpha_hwr.Base.{
  ℕ, zero, suc, ◌+◌, ◌≤◌, ◌<◌, ◌≡◌, ◌≢◌, ◌⊎◌, true, false, arith, inl, inr,
}
use esphome_alpha_hwr.Floats.{Floats}
use esphome_alpha_hwr.Control.{
  ControlMode, no_mode, max_mode_confirm_attempts, Control, adopt_readback, reconcile_mode,
  sync_mode, take_readback_mode, note_control_source, note_run_state, notify_current, notify_mode,
}
use esphome_alpha_hwr.Control.Pending.{
  IsHeld, SameMode, note_control_source-SameMode, cache_setpoint_for_mode-SameMode,
}

pub record IsAdopted {F : Type 0} (mode : ControlMode) (c : Control F) : Type 0 where
  pub adopted : c.current_mode ≡ mode
  pub adopted_valid : c.mode_valid ≡ true
  pub settled : c.mode_command_pending ≡ false

-- A read of another mode than the commanded one, which is waited for.
pub record IsWaiting {F : Type 0} (mode : ControlMode) (c d : Control F) : Type 0 where
  pub differs : mode ≢ c.commanded_mode
  pub kept : SameMode c d
  pub still_pending : c.mode_command_pending ≡ true

module _ {F : Type 0} ⦃fl : Floats F⦄ (source operation_mode mode : ℕ) (setpoint : F) where
  pub adopt_readback_outcome :
      (c : Control F)
      → IsWaiting mode c (adopt_readback source operation_mode mode setpoint c)
        ⊎ IsAdopted mode (adopt_readback source operation_mode mode setpoint c)
  unfolding adopt_readback take_readback_mode notify_current notify_mode note_run_state
  adopt_readback_outcome c =
      let c₁ : Control F =
        note_run_state operation_mode (record c { cached_operation_mode = operation_mode }) in
      let c₂ : Control F = note_control_source source c₁ in
      ground (
        arith,
        note_control_source-SameMode source c₁,
        cache_setpoint_for_mode-SameMode mode setpoint c₂,
      )

  -- `n` rounds of `sync_cache_async`, each answered with the same mode.
  unfoldable pub sync_rounds : ℕ → Control F → Control F
  sync_rounds zero c = c
  sync_rounds (suc n) c = sync_rounds n (sync_mode source operation_mode mode setpoint c).0

  sync_mode-IsAdopted :
      (c : Control F)
      → IsAdopted mode c
      → IsAdopted mode ((sync_mode source operation_mode mode setpoint c).0)
  unfolding sync_mode reconcile_mode notify_mode
  sync_mode-IsAdopted c h = ground (arith, adopt_readback_outcome c)

  rounds-IsAdopted : (n : ℕ) (c : Control F) → IsAdopted mode c → IsAdopted mode (sync_rounds n c)
  unfolding sync_rounds
  rounds-IsAdopted zero c h = h
  rounds-IsAdopted (suc n) c h = rounds-IsAdopted n _ (sync_mode-IsAdopted c h)

  -- A round that does not adopt the mode counts one attempt more, and there are four at most.
  sync_mode_outcome :
      (c : Control F)
      → IsHeld c
      → c.mode_command_pending ≡ true
      → c.commanded_mode ≢ no_mode
      → let d = (sync_mode source operation_mode mode setpoint c).0 in
        IsAdopted mode d
        ⊎ ((d.mode_command_pending ≡ true)
            × (d.commanded_mode ≡ c.commanded_mode)
            × (d.mode_confirm_attempts ≡ c.mode_confirm_attempts + 1)
            × IsHeld d)
  unfolding sync_mode reconcile_mode notify_mode
  sync_mode_outcome c h p q = ground (arith, adopt_readback_outcome c)

  rounds-give_up :
      (n : ℕ) (c : Control F)
      → IsHeld c
      → c.mode_command_pending ≡ true
      → c.commanded_mode ≢ no_mode
      → max_mode_confirm_attempts < n + c.mode_confirm_attempts
      → IsAdopted mode (sync_rounds n c)
  unfolding sync_rounds
  rounds-give_up zero c h p q enough = ground arith
  rounds-give_up (suc n) c h p q enough = elim (sync_mode_outcome c h p q) [
    | inl a ↦ rounds-IsAdopted n _ a
    | inr (p', k, t, h') ↦
        rounds-give_up n _ h' p' (λ e. ground (arith, q, k)) (omega (arith, enough, t))
  ]

  -- A pump that answers five reads or more with one mode is believed: whatever mode was commanded, after
  -- five rounds of `sync_cache_async` that mode is the current one and no command is pending.
  pub sync_rounds-gives_up :
      (n : ℕ) (c : Control F)
      → 5 ≤ n
      → IsHeld c
      → c.mode_command_pending ≡ true
      → c.commanded_mode ≢ no_mode
      → IsAdopted mode (sync_rounds n c)
  sync_rounds-gives_up n c enough h p q = rounds-give_up n c h p q (omega (arith, enough))
