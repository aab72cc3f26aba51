-- ===== src/Dhw/Hold.antt =====
-- `DemandHold` of `dhw_demand_logic.h` over a run of ticks, with the wrap of `millis()`.
use esphome_alpha_hwr.Base.{
  ℕ, ◌+◌, ◌-◌, ◌≤◌, ◌<◌, ◌≡◌, ◌⊎◌, refl, sym, Bool, true, false, ◌||◌, List, [], ◌∷◌, Option, none,
  some, arith, ltb, leb, if◌then◌else◌, Bool-cases, inl, inr, u32, sub_u32,
}
use esphome_alpha_hwr.Dhw.{DemandHold, hold_update}

-- The ticks with their real times, the newest first.
unfoldable pub held_after : (release_ms : ℕ) → List (Bool × ℕ) → DemandHold
held_after release_ms [] = record { release_ms = release_ms; held = false; last_true_ms = 0 }
held_after release_ms ((raw, at) ∷ ticks) = hold_update raw (u32 at) (held_after release_ms ticks)

-- Each tick follows the one before it by less than 2^32 ms less the release time.
unfoldable pub IsPaced : (release_ms now : ℕ) → List (Bool × ℕ) → Type 0
IsPaced release_ms now [] = Unit {0}
IsPaced release_ms now ((raw, at) ∷ ticks) =
    (at ≤ now) × (now + release_ms < at + 4294967296) × IsPaced release_ms at ticks

unfoldable pub last_true : List (Bool × ℕ) → Option ℕ
last_true [] = none
last_true ((raw, at) ∷ ticks) = if raw then some at else last_true ticks

unfoldable pub is_within : (release_ms now : ℕ) → Option ℕ → Bool
is_within release_ms now none = false
is_within release_ms now (some at) = ltb (now - at) release_ms

-- What the hold knows of the last tick with demand, at the time `prev` of the newest tick.
data Tracked (release_ms prev : ℕ) (last : Option ℕ) (h : DemandHold) : Type 0 where
  never : h.held ≡ false → last ≡ none → Tracked release_ms prev last h
  released :
      (at : ℕ)
      → h.held ≡ false
      → last ≡ some at
      → at ≤ prev
      → release_ms ≤ prev - at
      → Tracked release_ms prev last h
  held_since :
      (at : ℕ)
      → h.held ≡ true
      → last ≡ some at
      → at ≤ prev
      → h.last_true_ms ≡ u32 at
      → (prev - at < release_ms) ⊎ (at ≡ prev)
      → Tracked release_ms prev last h

elapsed : (now at : ℕ) → at ≤ now → now < at + 4294967296 → sub_u32 (u32 now) (u32 at) ≡ now - at
elapsed now at low high = omega (arith, low, high)

pub held_after_release :
    (release_ms : ℕ) (ticks : List (Bool × ℕ))
    → (held_after release_ms ticks).release_ms ≡ release_ms
unfolding held_after hold_update
held_after_release release_ms [] = refl
held_after_release release_ms ((raw, at) ∷ ticks) =
    ground (arith, held_after_release release_ms ticks)

-- The next tick, without demand.
quiet_step :
    (prev now : ℕ) (last : Option ℕ) (h : DemandHold)
    → prev ≤ now
    → now + h.release_ms < prev + 4294967296
    → Tracked h.release_ms prev last h
    → (Tracked h.release_ms now last (hold_update false (u32 now) h))
      × ((hold_update false (u32 now) h).held ≡ is_within h.release_ms now last)
unfolding hold_update is_within
quiet_step prev now last h order pace (never off e) =
    (never (ground (arith, off)) e, rw e (ground (arith, off)))
quiet_step prev now last h order pace (released at off e low over) = (
  released at (ground (arith, off)) e (omega (arith, low, order)) (omega (arith, over, order)),
  rw e (ground (arith, off, over, order, low)),
)
quiet_step prev now last h order pace (held_since at on e low stored recent) =
    let near : now < at + 4294967296 = ground (arith, pace, low, recent) in
    let gap : sub_u32 (u32 now) h.last_true_ms ≡ now - at =
      rw stored (elapsed now at (omega (arith, low, order)) near) in
    elim (Bool-cases (leb h.release_ms (now - at))) [
      | inl over ↦
          rw (gap, on, over, e)
            (
              released at refl refl (omega (arith, low, order)) (ground (arith, over)),
              ground (arith, over),
            )
      | inr early ↦
          rw (gap, on, early, e)
            (
              held_since at refl refl (omega (arith, low, order)) stored
                  (inl (ground (arith, early))),
              ground (arith, early),
            )
    ]

-- The next tick, with demand.
true_step :
    (now : ℕ) (h : DemandHold) → Tracked h.release_ms now (some now) (hold_update true (u32 now) h)
unfolding hold_update
true_step now h = held_since now refl refl (omega arith) refl (inr refl)

quiet_step_of :
    (release_ms prev now : ℕ) (last : Option ℕ) (h : DemandHold)
    → release_ms ≡ h.release_ms
    → prev ≤ now
    → now + release_ms < prev + 4294967296
    → Tracked release_ms prev last h
    → (Tracked release_ms now last (hold_update false (u32 now) h))
      × ((hold_update false (u32 now) h).held ≡ is_within release_ms now last)
quiet_step_of release_ms prev now last h e = rw e (quiet_step prev now last h)

held_after-Tracked :
    (release_ms now : ℕ) (ticks : List (Bool × ℕ))
    → release_ms < 4294967296
    → IsPaced release_ms now ticks
    → (prev : ℕ) × (prev ≤ now)
      × (now + release_ms < prev + 4294967296)
      × Tracked release_ms prev (last_true ticks) (held_after release_ms ticks)
unfolding held_after IsPaced last_true
held_after-Tracked release_ms now [] small p =
    (now, omega arith, omega (arith, small), never refl refl)
held_after-Tracked release_ms now ((true, at) ∷ ticks) small (low, pace, p) = (
  at,
  low,
  pace,
  rw (held_after_release release_ms ticks) at (true_step at (held_after release_ms ticks)),
)
held_after-Tracked release_ms now ((false, at) ∷ ticks) small (low, pace, p) =
    let (prev, order, near, tracked) = held_after-Tracked release_ms at ticks small p in
    let quiet =
      quiet_step_of release_ms prev at (last_true ticks) (held_after release_ms ticks)
        (sym (held_after_release release_ms ticks)) order near tracked in
    (at, low, pace, quiet.0)

-- The output of the hold is on just at a tick with demand, and at one that comes less than the release
-- time after the last tick with demand: however long the run, with wraps of `millis()` within it, if
-- each tick follows the one before by less than 2^32 ms less the release time.
pub held_after-is_within :
    (release_ms now : ℕ) (raw : Bool) (ticks : List (Bool × ℕ))
    → release_ms < 4294967296
    → IsPaced release_ms now ticks
    → (held_after release_ms ((raw, now) ∷ ticks)).held
      ≡ (raw || is_within release_ms now (last_true ticks))
unfolding held_after
held_after-is_within release_ms now true ticks small p = unfold hold_update in refl
held_after-is_within release_ms now false ticks small p =
    let (prev, order, near, tracked) = held_after-Tracked release_ms now ticks small p in
    let quiet =
      quiet_step_of release_ms prev now (last_true ticks) (held_after release_ms ticks)
        (sym (held_after_release release_ms ticks)) order near tracked in
    quiet.1
