-- ===== src/Control/Pending.antt =====
-- The coordination of a commanded mode with the readers of `control_service.cpp`: a command that the
-- pump has not confirmed yet is not overwritten, and it is given up after a bounded number of reads.
use esphome_alpha_hwr.Base.{ℕ, ◌≤◌, ◌≡◌, Bool, true, List, [], ◌∷◌, Option, arith}
use esphome_alpha_hwr.Floats.{Floats}
use esphome_alpha_hwr.Control.{
  ControlMode, Control, note_mode_commanded, note_enabled_commanded, note_control_source,
  cache_setpoint_for_mode, update_mode_from_notification, take_notified_mode, take_readback_mode,
  note_run_state, notify_current, adopt_readback, handle_mode_reply, reconcile_mode,
  handle_obj91_reply, handle_dhw_reply, notify_mode, max_mode_confirm_attempts,
}

-- While a command is pending, the current mode is the commanded one, and valid; and the attempts
-- stay within their bound.
pub record IsHeld {F : Type 0} (c : Control F) : Type 0 where
  pub mode_held : c.mode_command_pending ≡ true → c.current_mode ≡ c.commanded_mode
  pub valid_held : c.mode_command_pending ≡ true → c.mode_valid ≡ true
  pub attempts_bound : c.mode_confirm_attempts ≤ max_mode_confirm_attempts

-- What changes the cache: a command of ours, a notification, and the answers to the reads, with the
-- mode that `sync_cache_async` expected when it asked.
pub data Change (F : Type 0) : Type 0 where
  commanded : ControlMode → Change F
  run_commanded : Bool → Change F
  notified : (mode operation_mode : ℕ) → F → ℕ → Change F
  mode_reply : Option (List ℕ) → Change F
  synced : (expected reported : ControlMode) → Change F
  obj91_reply : Option (List ℕ) → Change F
  dhw_reply : Option (List ℕ) → Change F

module _ {F : Type 0} ⦃fl : Floats F⦄ where
  unfoldable pub change : Change F → Control F → Control F
  change (commanded mode) c = note_mode_commanded mode c
  change (run_commanded enabled) c = note_enabled_commanded enabled c
  change (notified mode operation_mode setpoint source) c =
      update_mode_from_notification mode operation_mode setpoint source c
  change (mode_reply reply) c = (handle_mode_reply reply c).0
  change (synced expected reported) c = (reconcile_mode expected reported c).0
  change (obj91_reply reply) c = (handle_obj91_reply reply c).0
  change (dhw_reply reply) c = (handle_dhw_reply reply c).0

  unfoldable pub changes : List (Change F) → Control F → Control F
  changes [] c = c
  changes (e ∷ es) c = changes es (change e c)

-- The fields that the helpers on the other fields leave alone.
pub record SameMode {F : Type 0} (c d : Control F) : Type 0 where
  pub same_current : d.current_mode ≡ c.current_mode
  pub same_valid : d.mode_valid ≡ c.mode_valid
  pub same_commanded : d.commanded_mode ≡ c.commanded_mode
  pub same_pending : d.mode_command_pending ≡ c.mode_command_pending
  pub same_attempts : d.mode_confirm_attempts ≡ c.mode_confirm_attempts

module _ {F : Type 0} where
  pub note_control_source-SameMode :
      (source : ℕ) (c : Control F) → SameMode c (note_control_source source c)
  unfolding note_control_source
  note_control_source-SameMode source c = ground arith

module _ {F : Type 0} ⦃fl : Floats F⦄ where
  pub cache_setpoint_for_mode-SameMode :
      (mode : ControlMode) (raw : F) (c : Control F)
      → SameMode c (cache_setpoint_for_mode mode raw c)
  unfolding cache_setpoint_for_mode
  cache_setpoint_for_mode-SameMode mode raw c = ground arith

  same-IsHeld : (c d : Control F) → SameMode c d → IsHeld c → IsHeld d
  same-IsHeld c d s h = ground arith

  pub update_mode_from_notification-IsHeld :
      (mode operation_mode : ℕ) (setpoint : F) (source : ℕ) (c : Control F)
      → IsHeld c
      → IsHeld (update_mode_from_notification mode operation_mode setpoint source c)
  unfolding update_mode_from_notification notify_current notify_mode note_run_state
  update_mode_from_notification-IsHeld mode operation_mode setpoint source c h =
      let c₁ : Control F = record c { cached_operation_mode = operation_mode } in
      let c₂ : Control F = cache_setpoint_for_mode mode setpoint c₁ in
      let c₃ : Control F = take_notified_mode mode c₂ in
      let h₃ : IsHeld c₃ =
        unfold take_notified_mode in
        ground (arith, cache_setpoint_for_mode-SameMode mode setpoint c₁) in
      let c₄ : Control F = note_run_state operation_mode c₃ in
      ground (arith, note_control_source-SameMode source c₄)

  pub adopt_readback-IsHeld :
      (source operation_mode mode : ℕ) (setpoint : F) (c : Control F)
      → IsHeld c
      → IsHeld (adopt_readback source operation_mode mode setpoint c)
  unfolding adopt_readback take_readback_mode notify_current notify_mode note_run_state
  adopt_readback-IsHeld source operation_mode mode setpoint c h =
      let c₁ : Control F =
        note_run_state operation_mode (record c { cached_operation_mode = operation_mode }) in
      let c₂ : Control F = note_control_source source c₁ in
      ground (
        arith,
        note_control_source-SameMode source c₁,
        cache_setpoint_for_mode-SameMode mode setpoint c₂,
      )

  pub reconcile_mode-IsHeld :
      (expected reported : ControlMode) (c : Control F)
      → IsHeld c
      → IsHeld ((reconcile_mode expected reported c).0)
  unfolding reconcile_mode notify_mode
  reconcile_mode-IsHeld expected reported c h = ground arith
