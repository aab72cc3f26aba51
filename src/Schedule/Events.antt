-- ===== src/Schedule/Events.antt =====
-- `SingleEvent` of `components/alpha_hwr/schedule_service.h`, and the choice of slots in `schedule_service.cpp`: a
-- free slot for a new event, and the slots of a vacation.
use esphome_alpha_hwr.Base.{
  ℕ, ◌+◌, Bool, false, not, ◌&&◌, ◌||◌, List, [], ◌∷◌, ◌++◌, Option, none, some, ltb, leb, ◌==◌,
  if◌then◌else◌, suc, zero,
}
use esphome_alpha_hwr.Codec.{byte_at, encode_uint32_be, decode_uint32_be}

pub record SingleEvent : Type 0 where
  pub enabled : Bool
  pub action : ℕ
  pub begin_timestamp : ℕ
  pub end_timestamp : ℕ
  pub index : ℕ

abbrev pub single_event_slot_limit : ℕ
single_event_slot_limit = 100

-- The action of a stop, which is what a vacation is.
abbrev pub stop_action : ℕ
stop_action = 1

unfoldable pub event_bytes : SingleEvent → List ℕ
event_bytes ev =
    (if ev.enabled then 1 else 0)
    ∷ ev.action
    ∷ (encode_uint32_be ev.begin_timestamp ++ encode_uint32_be ev.end_timestamp)

unfoldable pub event_of_bytes : List ℕ → ℕ → SingleEvent
event_of_bytes bytes slot = record {
  enabled = not (byte_at bytes 0 == 0);
  action = byte_at bytes 1;
  begin_timestamp = decode_uint32_be bytes 2;
  end_timestamp = decode_uint32_be bytes 6;
  index = slot;
}

-- `reported` is the count in the overview, or 35 without one.
unfoldable pub get_max_single_events : (reported : ℕ) → ℕ
get_max_single_events reported =
    if ltb single_event_slot_limit reported then single_event_slot_limit else reported

unfoldable pub is_live : ℕ → SingleEvent → Bool
is_live now_ts ev = ev.enabled && not (ltb 0 now_ts && ltb ev.end_timestamp now_ts)

-- `ended` of the loop: an event that is disabled counts as over since ever.
unfoldable pub ended_at : SingleEvent → ℕ
ended_at ev = if ev.enabled then ev.end_timestamp else 0

-- A step of the first loop of `find_free_single_event_slot`: the slot that has been over the longest, and since when.
unfoldable pub next_stalest : ℕ → SingleEvent → Option (ℕ × ℕ) → Option (ℕ × ℕ)
next_stalest now_ts ev none = if is_live now_ts ev then none else some (ev.index, ended_at ev)
next_stalest now_ts ev (some (slot, since)) =
    if is_live now_ts ev
    then some (slot, since)
    else if ltb (ended_at ev) since
    then some (ev.index, ended_at ev)
    else some (slot, since)

unfoldable pub find_stalest : ℕ → List SingleEvent → Option (ℕ × ℕ) → Option (ℕ × ℕ)
find_stalest now_ts [] stalest = stalest
find_stalest now_ts (ev ∷ events) stalest =
    find_stalest now_ts events (next_stalest now_ts ev stalest)

unfoldable pub is_stored : ℕ → List SingleEvent → Bool
is_stored slot [] = false
is_stored slot (ev ∷ events) = ev.index == slot || is_stored slot events

-- The loop over the slots, from `slot` on for `count` more.
unfoldable pub first_empty : (count slot : ℕ) → List SingleEvent → Option ℕ
first_empty zero slot events = none
first_empty (suc count) slot events =
    let later = first_empty count (slot + 1) events in
    if is_stored slot events then later else some slot

unfoldable pub slot_or : Option ℕ → Option (ℕ × ℕ) → Option ℕ
slot_or (some slot) stalest = some slot
slot_or none none = none
slot_or none (some (slot, since)) = some slot

-- `none` is -1; a cache that was never read has no free slot.
unfoldable pub find_free_single_event_slot :
    (cached : Bool) → (max_events now_ts : ℕ) → List SingleEvent → Option ℕ
unfolding slot_or
find_free_single_event_slot cached max_events now_ts events =
    if not cached
    then none
    else slot_or (first_empty max_events 0 events) (find_stalest now_ts events none)

pub data VacationWhen : Type 0 where
  no_vacation covers_now upcoming vacation_ended unknown_clock : VacationWhen

unfoldable pub is_vacation : SingleEvent → Bool
is_vacation ev = ev.enabled && ev.action == stop_action

unfoldable pub is_covering : ℕ → SingleEvent → Bool
is_covering now_ts ev = leb ev.begin_timestamp now_ts && ltb now_ts ev.end_timestamp

-- The pointers of `pick_vacation_`.
pub record Ranking : Type 0 where
  pub covering : Option SingleEvent
  pub soonest_upcoming : Option SingleEvent
  pub latest_ended : Option SingleEvent
  pub first_stored : Option SingleEvent

unfoldable pub or_first : Option SingleEvent → SingleEvent → Option SingleEvent
or_first none ev = some ev
or_first (some old) ev = some old

unfoldable pub or_sooner : Option SingleEvent → SingleEvent → Option SingleEvent
or_sooner none ev = some ev
or_sooner (some old) ev = if ltb ev.begin_timestamp old.begin_timestamp then some ev else some old

unfoldable pub or_later : Option SingleEvent → SingleEvent → Option SingleEvent
or_later none ev = some ev
or_later (some old) ev = if ltb old.end_timestamp ev.end_timestamp then some ev else some old

unfoldable pub rank_event : ℕ → SingleEvent → Ranking → Ranking
rank_event now_ts ev r =
    if not (is_vacation ev)
    then r
    else let r : Ranking = record r { first_stored = or_first r.first_stored ev } in
      if now_ts == 0
      then r
      else if is_covering now_ts ev
      then record r { covering = or_first r.covering ev }
      else if ltb now_ts ev.begin_timestamp
      then record r { soonest_upcoming = or_sooner r.soonest_upcoming ev }
      else record r { latest_ended = or_later r.latest_ended ev }

unfoldable pub rank_events : ℕ → List SingleEvent → Ranking → Ranking
rank_events now_ts [] r = r
rank_events now_ts (ev ∷ events) r = rank_events now_ts events (rank_event now_ts ev r)

unfoldable pub pick_of : ℕ → Ranking → Option (SingleEvent × VacationWhen)
pick_of now_ts r =
    if now_ts == 0
    then elim r.first_stored [ none ↦ none | some ev ↦ some (ev, unknown_clock) ]
    else elim r.covering [
      | some ev ↦ some (ev, covers_now)
      | none ↦ elim r.soonest_upcoming [
        | some ev ↦ some (ev, upcoming)
        | none ↦ elim r.latest_ended [ none ↦ none | some ev ↦ some (ev, vacation_ended) ]
      ]
    ]

unfoldable pub pick_vacation : (now_ts : ℕ) → List SingleEvent → Option (SingleEvent × VacationWhen)
pick_vacation now_ts events = pick_of now_ts (
    rank_events now_ts events (record {
      covering = none;
      soonest_upcoming = none;
      latest_ended = none;
      first_stored = none;
    }))

unfoldable pub covering_slots : ℕ → List SingleEvent → List ℕ
covering_slots now_ts [] = []
covering_slots now_ts (ev ∷ events) =
    let later = covering_slots now_ts events in
    if is_vacation ev && is_covering now_ts ev then ev.index ∷ later else later

unfoldable pub slots_of_pick : Option (SingleEvent × VacationWhen) → VacationWhen × List ℕ
slots_of_pick none = (no_vacation, [])
slots_of_pick (some (ev, when)) = (when, ev.index ∷ [])

unfoldable pub find_vacation_slots :
    (cached : Bool) → (now_ts : ℕ) → List SingleEvent → VacationWhen × List ℕ
unfolding slots_of_pick
find_vacation_slots cached now_ts events =
    if not cached
    then (no_vacation, [])
    else if now_ts == 0
    then slots_of_pick (pick_vacation now_ts events)
    else elim (covering_slots now_ts events) [
      | [] ↦ slots_of_pick (pick_vacation now_ts events)
      | slot ∷ slots ↦ (covers_now, slot ∷ slots)
    ]
