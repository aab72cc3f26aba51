-- ===== src/WriteOps/Silence.antt =====
-- The confirm steps of the config writes of `write_operation_service.cpp`, and the note that the acknowledge is missing.
use esphome_alpha_hwr.Base.{◌≡◌, refl, Bool, List, [], ◌∷◌, arith}
use esphome_alpha_hwr.Floats.{Floats}
use esphome_alpha_hwr.WriteOps.State.{Ticket, Work, Body}
use esphome_alpha_hwr.WriteOps.RunState.{retry}
use esphome_alpha_hwr.WriteOps.Config.{
  keeps_cycle, judge_temperature_range, confirm_temperature_range, shows_cycle, judge_cycle_times,
  confirm_cycle_times,
}
use esphome_alpha_hwr.WriteOps.Limits.{
  LimiterReading, settle_fields, keeps_limiter, judge_flow_limiter, confirm_flow_limiter,
}
use esphome_alpha_hwr.WriteOps.Ladder.{Reply, ladder, verdict, work_after}

module _ {F : Type 0} ⦃fl : Floats F⦄ where
  -- A confirm step that does nothing else with the note of a missing acknowledge than to keep it.
  abbrev pub IsDeaf : (Reply F → Body F) → Type 0
  IsDeaf confirm =
      (unacked : Bool) (r : Reply F) (t : Ticket) (w : Work F)
      → (verdict (confirm r r.cache t (record w { config_unacked = unacked }))
          ≡ verdict (confirm r r.cache t w))
        × (work_after (confirm r r.cache t (record w { config_unacked = unacked }))
            ≡ record (work_after (confirm r r.cache t w)) { config_unacked = unacked })

  pub IsDeaf-confirm_temperature_range : IsDeaf (λ r. confirm_temperature_range r.success)
  unfolding confirm_temperature_range judge_temperature_range verdict work_after retry
  IsDeaf-confirm_temperature_range unacked r t w = (ground arith, ground arith)

  pub IsDeaf-confirm_cycle_times : IsDeaf (λ r. confirm_cycle_times r.success)
  unfolding confirm_cycle_times judge_cycle_times shows_cycle keeps_cycle verdict work_after retry
  IsDeaf-confirm_cycle_times unacked r t w = (ground arith, ground arith)

  pub IsDeaf-confirm_flow_limiter :
      (shown : Reply F → LimiterReading F) → IsDeaf (λ r. confirm_flow_limiter r.success (shown r))
  unfolding confirm_flow_limiter judge_flow_limiter keeps_limiter settle_fields verdict work_after
      retry
  IsDeaf-confirm_flow_limiter shown unacked r t w = (ground arith, ground arith)

  pub ladder-IsDeaf :
      (confirm : Reply F → Body F)
      → IsDeaf confirm
      → (unacked : Bool) (t : Ticket) (w : Work F) (replies : List (Reply F))
      → ladder confirm t (record w { config_unacked = unacked }) replies
        ≡ ladder confirm t w replies
  unfolding ladder
  ladder-IsDeaf confirm deaf unacked t w [] = refl
  ladder-IsDeaf confirm deaf unacked t w (r ∷ rs) =
      let (same, kept) = deaf unacked r t w in
      rw (same, kept, ladder-IsDeaf confirm deaf unacked t (work_after (confirm r r.cache t w)) rs)
        refl
