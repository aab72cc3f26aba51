-- ===== src/Dhw/Sessions.antt =====
-- `SessionTracker` of `dhw_demand_logic.h` over a run of ticks.
use esphome_alpha_hwr.Base.{
  ℕ, ◌+◌, ◌<◌, ◌≡◌, ◌∙◌, refl, Bool, true, false, ◌&&◌, ◌||◌, List, [], ◌∷◌, arith, ltb, leb,
  Bool-cases, inl, inr, u32, sub_u32,
}
use esphome_alpha_hwr.Dhw.{DemandHold, hold_update, SessionTracker, track}
use esphome_alpha_hwr.Dhw.Hold.{
  held_after, IsPaced, last_true, is_within, held_after-is_within, held_after_release,
}

-- The tracker after the ticks with these real times, the newest first.
unfoldable pub tracked_after : (gap_ms : ℕ) → List (Bool × ℕ) → SessionTracker
tracked_after gap_ms [] = record {
  gap_ms = gap_ms;
  active = false;
  start_ms = 0;
  last_demand_ms = 0;
}
tracked_after gap_ms ((demand, at) ∷ ticks) = track demand (u32 at) (tracked_after gap_ms ticks)

tracked_after_gap :
    (gap_ms : ℕ) (ticks : List (Bool × ℕ)) → (tracked_after gap_ms ticks).gap_ms ≡ gap_ms
unfolding tracked_after track
tracked_after_gap gap_ms [] = refl
tracked_after_gap gap_ms ((demand, at) ∷ ticks) = ground (arith, tracked_after_gap gap_ms ticks)

-- A tick keeps a session open just where it keeps on the hold with a release time of a millisecond more.
track_lem :
    (demand : Bool) (now_ms : ℕ) (s : SessionTracker) (h : DemandHold)
    → s.active ≡ h.held
    → s.last_demand_ms ≡ h.last_true_ms
    → h.release_ms ≡ s.gap_ms + 1
    → ((track demand now_ms s).active ≡ (hold_update demand now_ms h).held)
      × ((track demand now_ms s).last_demand_ms ≡ (hold_update demand now_ms h).last_true_ms)
unfolding track hold_update
track_lem true now_ms s h on last release = (refl, refl)
track_lem false now_ms s h on last release =
    let same : sub_u32 now_ms s.last_demand_ms ≡ sub_u32 now_ms h.last_true_ms = rw last refl in
    let passed : ltb s.gap_ms (sub_u32 now_ms s.last_demand_ms)
        ≡ leb h.release_ms (sub_u32 now_ms h.last_true_ms) =
      rw (same, release) (ground arith) in
    elim (Bool-cases (h.held && leb h.release_ms (sub_u32 now_ms h.last_true_ms))) [
      | inl over ↦ (ground (arith, over, passed, on), ground (arith, over, passed, on, last))
      | inr open_ ↦ (ground (arith, open_, passed, on), ground (arith, open_, passed, on, last))
    ]

tracked_after-held_after :
    (gap_ms : ℕ) (ticks : List (Bool × ℕ))
    → ((tracked_after gap_ms ticks).active ≡ (held_after (gap_ms + 1) ticks).held)
      × ((tracked_after gap_ms ticks).last_demand_ms ≡ (held_after (gap_ms + 1) ticks).last_true_ms)
unfolding tracked_after held_after
tracked_after-held_after gap_ms [] = (refl, refl)
tracked_after-held_after gap_ms ((demand, at) ∷ ticks) =
    let (open_, last) = tracked_after-held_after gap_ms ticks in
    track_lem demand (u32 at) (tracked_after gap_ms ticks) (held_after (gap_ms + 1) ticks) open_
      last (held_after_release (gap_ms + 1) ticks ∙ omega (arith, tracked_after_gap gap_ms ticks))

-- A session is open just at a tick with demand, and at one that comes at most the gap after the last
-- tick with demand: however long the run, with wraps of `millis()` within it, if each tick follows the
-- one before by less than 2^32 - 1 ms less the gap.
pub tracked_after-is_within :
    (gap_ms now : ℕ) (demand : Bool) (ticks : List (Bool × ℕ))
    → gap_ms + 1 < 4294967296
    → IsPaced (gap_ms + 1) now ticks
    → (tracked_after gap_ms ((demand, now) ∷ ticks)).active
      ≡ (demand || is_within (gap_ms + 1) now (last_true ticks))
tracked_after-is_within gap_ms now demand ticks small p =
    (tracked_after-held_after gap_ms ((demand, now) ∷ ticks)).0
    ∙ held_after-is_within (gap_ms + 1) now demand ticks small p
