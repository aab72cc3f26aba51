-- ===== src/Schedule/Slots.antt =====
-- The slots that `schedule_service.cpp` chooses for single events.
use esphome_alpha_hwr.Base.{
  ℕ, suc, zero, ◌+◌, ◌≡◌, ◌∙◌, ◌≢◌, ◌⊎◌, refl, inl, inr, Bool, true, false, not, ◌&&◌, ◌||◌, List,
  [], ◌∷◌, ◌++◌, Option, none, some, arith, ltb, ◌==◌, ==_refl, if◌then◌else◌, Bool-cases,
  Option-cases, All, IsU32,
}
use esphome_alpha_hwr.Codec.{encode_uint32_be, decode_uint32_be}
use esphome_alpha_hwr.Codec.Bytes.{decode-encode_uint32_be}
use esphome_alpha_hwr.Schedule.Events.{
  SingleEvent, event_bytes, event_of_bytes, is_live, ended_at, next_stalest, find_stalest,
  is_stored, first_empty, slot_or, find_free_single_event_slot, covers_now, is_vacation,
  is_covering, covering_slots, find_vacation_slots,
}

-- No two events are stored in one slot.
abbrev pub AreDistinct : List SingleEvent → Type 0
AreDistinct [] = Unit {0}
AreDistinct (ev ∷ events) = (is_stored ev.index events ≡ false) × AreDistinct events

-- No event of the slot is live.
abbrev pub HoldsNoLive : ℕ → ℕ → List SingleEvent → Type 0
HoldsNoLive now_ts slot events = All (λ ev. ev.index ≡ slot → is_live now_ts ev ≡ false) events

abbrev IsOver : ℕ → ℕ → List SingleEvent → Type 0
IsOver now_ts slot [] = ⊥
IsOver now_ts slot (ev ∷ events) =
    ((ev.index ≡ slot) × (is_live now_ts ev ≡ false)) ⊎ IsOver now_ts slot events

first_empty_lem :
    (count from slot : ℕ) (events : List SingleEvent)
    → first_empty count from events ≡ some slot
    → is_stored slot events ≡ false
unfolding first_empty
first_empty_lem zero from slot events e = ground (arith, e)
first_empty_lem (suc count) from slot events e = elim (Bool-cases (is_stored from events)) [
  | inl taken ↦ first_empty_lem count (from + 1) slot events (ground (arith, e, taken))
  | inr free ↦
      let same : some from ≡ some slot = ground (arith, e, free) in
      let equal : from ≡ slot = ground (arith, same) in rw equal at free
]

empty-HoldsNoLive :
    (now_ts slot : ℕ) (events : List SingleEvent)
    → is_stored slot events ≡ false
    → HoldsNoLive now_ts slot events
unfolding is_stored
empty-HoldsNoLive now_ts slot [] e = tt
empty-HoldsNoLive now_ts slot (ev ∷ events) e = (
  λ same. ground (arith, e, same, ==_refl slot),
  empty-HoldsNoLive now_ts slot events (ground (arith, e)),
)

stored_elsewhere :
    (now_ts slot : ℕ) (ev : SingleEvent) (events : List SingleEvent)
    → ev.index ≡ slot
    → is_stored ev.index events ≡ false
    → IsOver now_ts slot events
    → ⊥
unfolding is_stored
stored_elsewhere now_ts slot ev [] same e h = h
stored_elsewhere now_ts slot ev (o ∷ events) same e (inl h) =
    ground (arith, e, h.0, same, ==_refl slot)
stored_elsewhere now_ts slot ev (o ∷ events) same e (inr h) =
    stored_elsewhere now_ts slot ev events same (ground (arith, e)) h

over-HoldsNoLive :
    (now_ts slot : ℕ) (events : List SingleEvent)
    → AreDistinct events
    → IsOver now_ts slot events
    → HoldsNoLive now_ts slot events
over-HoldsNoLive now_ts slot [] d h = absurd h
over-HoldsNoLive now_ts slot (ev ∷ events) d (inl h) =
    (λ same. h.1, empty-HoldsNoLive now_ts slot events (rw h.0 at d.0))
over-HoldsNoLive now_ts slot (ev ∷ events) d (inr h) = (
  λ same. absurd (stored_elsewhere now_ts slot ev events same d.0 h),
  over-HoldsNoLive now_ts slot events d.1 h,
)

next_stalest_lem :
    (now_ts slot from : ℕ) (ev : SingleEvent) (events : List SingleEvent) (stalest : Option (ℕ × ℕ))
    → next_stalest now_ts ev stalest ≡ some (slot, from)
    → ((since : ℕ) × (stalest ≡ some (slot, since))) ⊎ IsOver now_ts slot (ev ∷ events)
unfolding next_stalest
next_stalest_lem now_ts slot from ev events none e = elim (Bool-cases (is_live now_ts ev)) [
  | inl live ↦ ground (arith, e, live)
  | inr over ↦ let same : ev.index ≡ slot = ground (arith, e, over) in inr (inl (same, over))
]
next_stalest_lem now_ts slot from ev events (some (old, since)) e =
    elim (Bool-cases (is_live now_ts ev)) [
      | inl live ↦
          inl (from, (let h : some (old, since) ≡ some (slot, from) = ground (arith, e, live) in h))
      | inr over ↦ elim (Bool-cases (ltb (ended_at ev) since)) [
        | inl staler ↦
            let same : ev.index ≡ slot = ground (arith, e, over, staler) in inr (inl (same, over))
        | inr fresher ↦ inl (
          from,
          (let h : some (old, since) ≡ some (slot, from) = ground (arith, e, over, fresher) in h),
        )
      ]
    ]

find_stalest_lem :
    (now_ts slot since : ℕ) (events : List SingleEvent) (stalest : Option (ℕ × ℕ))
    → find_stalest now_ts events stalest ≡ some (slot, since)
    → ((from : ℕ) × (stalest ≡ some (slot, from))) ⊎ IsOver now_ts slot events
unfolding find_stalest
find_stalest_lem now_ts slot since [] stalest e = inl (since, e)
find_stalest_lem now_ts slot since (ev ∷ events) stalest e =
    elim (find_stalest_lem now_ts slot since events (next_stalest now_ts ev stalest) e) [
      | inr over ↦ inr (inr over)
      | inl (from, same) ↦ next_stalest_lem now_ts slot from ev events stalest same
    ]

flag_lem : (b : Bool) → not ((if b then 1 else 0) == 0) ≡ b
flag_lem true = refl
flag_lem false = refl

end_lem :
    (flag : ℕ) (ev : SingleEvent)
    → IsU32 ev.end_timestamp
    → decode_uint32_be
        (flag
          ∷ ev.action
          ∷ (encode_uint32_be ev.begin_timestamp ++ encode_uint32_be ev.end_timestamp))
        6
      ≡ ev.end_timestamp
unfolding encode_uint32_be
end_lem flag ev e =
    (decode-encode_uint32_be (flag ∷ ev.action ∷ encode_uint32_be ev.begin_timestamp) []
      ev.end_timestamp e).0

-- An event is read back from its ten bytes and its slot.
pub event_of_bytes-event_bytes :
    (ev : SingleEvent)
    → IsU32 ev.begin_timestamp
    → IsU32 ev.end_timestamp
    → event_of_bytes (event_bytes ev) ev.index ≡ ev
unfolding event_of_bytes event_bytes
event_of_bytes-event_bytes ev b e =
    let flag : ℕ = if ev.enabled then 1 else 0 in
    let first =
      decode-encode_uint32_be (flag ∷ ev.action ∷ []) (encode_uint32_be ev.end_timestamp)
        ev.begin_timestamp b in
    simp (flag_lem ev.enabled, first.0, end_lem flag ev e) refl

-- The slot that is chosen for a new event holds no live one: none that is enabled and not yet over, and,
-- with no clock, none that is enabled. The slots of the cache are taken to be distinct.
pub find_free_single_event_slot-HoldsNoLive :
    (cached : Bool) (max_events now_ts slot : ℕ) (events : List SingleEvent)
    → AreDistinct events
    → find_free_single_event_slot cached max_events now_ts events ≡ some slot
    → HoldsNoLive now_ts slot events
unfolding find_free_single_event_slot slot_or
find_free_single_event_slot-HoldsNoLive false max_events now_ts slot events d e =
    absurd (ground (arith, e))
find_free_single_event_slot-HoldsNoLive true max_events now_ts slot events d e =
    elim (Option-cases (first_empty max_events 0 events)) [
      | inr (found, f) ↦
          let same : found ≡ slot = ground (arith, e, f) in
          empty-HoldsNoLive now_ts slot events
            (rw same at (first_empty_lem max_events 0 found events f))
      | inl f ↦ elim (Option-cases (find_stalest now_ts events none)) [
        | inl g ↦ absurd (ground (arith, e, f, g))
        | inr ((found, since), g) ↦
            let same : found ≡ slot = ground (arith, e, f, g) in
            elim (find_stalest_lem now_ts found since events none g) [
              | inl (from, never) ↦ absurd (ground (arith, never))
              | inr over ↦ over-HoldsNoLive now_ts slot events d (rw same at over)
            ]
      ]
    ]

List-cases : (xs : List ℕ) → (xs ≡ []) ⊎ ((x : ℕ) × (ys : List ℕ) × (xs ≡ x ∷ ys))
List-cases [] = inl refl
List-cases (x ∷ xs) = inr (x, xs, refl)

unfoldable pub covers : ℕ → ℕ → List SingleEvent → Bool
covers now_ts slot [] = false
covers now_ts slot (ev ∷ events) =
    (is_vacation ev && is_covering now_ts ev && ev.index == slot) || covers now_ts slot events

unfoldable pub is_listed : ℕ → List ℕ → Bool
is_listed slot [] = false
is_listed slot (s ∷ slots) = s == slot || is_listed slot slots

covering_slots_lem :
    (now_ts slot : ℕ) (events : List SingleEvent)
    → is_listed slot (covering_slots now_ts events) ≡ covers now_ts slot events
unfolding covering_slots covers is_listed
covering_slots_lem now_ts slot [] = refl
covering_slots_lem now_ts slot (ev ∷ events) = ground (arith, covering_slots_lem now_ts slot events)

-- Where the clock is known and a stored vacation covers now, the slots to clear are just those of the
-- vacations that do, all of them.
pub find_vacation_slots-covers :
    (now_ts slot : ℕ) (events : List SingleEvent)
    → now_ts ≢ 0
    → covers now_ts slot events ≡ true
    → ((find_vacation_slots true now_ts events).0 ≡ covers_now)
      × ((other : ℕ)
          → is_listed other (find_vacation_slots true now_ts events).1 ≡ covers now_ts other events)
unfolding find_vacation_slots
find_vacation_slots-covers now_ts slot events known c =
    let here : is_listed slot (covering_slots now_ts events) ≡ true =
      covering_slots_lem now_ts slot events ∙ c in
    elim (List-cases (covering_slots now_ts events)) [
      | inl e ↦
          absurd (
            unfold is_listed in
            let h : is_listed slot [] ≡ true = rw e at here in ground (arith, h))
      | inr (s, slots, e) ↦
          let zero_clock : now_ts == 0 ≡ false = ground (arith, known) in
          rw (zero_clock, e) (refl, λ other. rw⁻¹ e (covering_slots_lem now_ts other events))
    ]
