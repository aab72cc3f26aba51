-- ===== src/Schedule/Overlap.antt =====
-- What `overlaps_with` says of the minutes in which two entries run.
use esphome_alpha_hwr.Base.{
  ℕ, max, ◌<◌, ◌≡◌, ◌≢◌, Bool, true, false, not, ◌&&◌, ◌||◌, arith, ltb, leb, if◌then◌else◌,
}
use esphome_alpha_hwr.Schedule.Entry.{
  ScheduleEntry, begin_mins, end_mins, crosses_midnight, overlaps_with,
}

-- Does the entry run in minute `m` of its day, the begin included and the end not? One that crosses
-- midnight runs in the evening and in the morning.
abbrev pub runs_at : ScheduleEntry → ℕ → Bool
runs_at e m =
    if ltb (end_mins e) (begin_mins e)
    then leb (begin_mins e) m || ltb m (end_mins e)
    else leb (begin_mins e) m && ltb m (end_mins e)

-- Two enabled entries of one day of the week and one layer, with real times of day.
pub record Comparable (a b : ScheduleEntry) : Type 0 where
  pub real_day : a.day_index < 7
  pub same_day : b.day_index ≡ a.day_index
  pub same_layer : b.layer ≡ a.layer
  pub a_enabled : a.enabled ≡ true
  pub b_enabled : b.enabled ≡ true

-- The case that the test does not see: one entry crosses midnight, and the other begins after its
-- morning part and before its evening part, but ends in the evening part.
abbrev pub unseen : ScheduleEntry → ScheduleEntry → Bool
unseen a b =
    (crossing a && not (crossing b) && late_into b a)
    || (crossing b && not (crossing a) && late_into a b)
  where
    crossing : ScheduleEntry → Bool
    crossing e = ltb (end_mins e) (begin_mins e)

    late_into : ScheduleEntry → ScheduleEntry → Bool
    late_into e night =
        leb (end_mins night) (begin_mins e)
        && ltb (begin_mins e) (begin_mins night)
        && ltb (begin_mins night) (end_mins e)

-- A minute that both run in is found, but for the unseen case.
pub overlaps_with_complete :
    (a b : ScheduleEntry) (m : ℕ)
    → Comparable a b
    → runs_at a m ≡ true
    → runs_at b m ≡ true
    → unseen a b ≡ false
    → overlaps_with a b ≡ true
unfolding overlaps_with crosses_midnight
overlaps_with_complete a b m c ra rb u = ground arith

-- The unseen case is an overlap that the test denies.
pub overlaps_with_misses :
    (a b : ScheduleEntry)
    → Comparable a b
    → unseen a b ≡ true
    → (overlaps_with a b ≡ false) × ((m : ℕ) × (runs_at a m ≡ true) × (runs_at b m ≡ true))
unfolding overlaps_with crosses_midnight
overlaps_with_misses a b c u =
    (ground arith, (max (begin_mins a) (begin_mins b), ground arith, ground arith))

-- A minute in which both run, where the test finds an overlap.
abbrev meeting : ScheduleEntry → ScheduleEntry → ℕ
meeting a b =
    if ltb (end_mins a) (begin_mins a) && leb (begin_mins b) (end_mins b)
    then begin_mins b
    else if ltb (end_mins b) (begin_mins b) && leb (begin_mins a) (end_mins a)
    then begin_mins a
    else max (begin_mins a) (begin_mins b)

-- An overlap that is reported between entries that are not empty is one: there is a minute in which
-- both run, they are enabled, and their day and layer are the same.
pub overlaps_with_sound :
    (a b : ScheduleEntry)
    → begin_mins a ≢ end_mins a
    → begin_mins b ≢ end_mins b
    → overlaps_with a b ≡ true
    → Comparable a b × ((m : ℕ) × (runs_at a m ≡ true) × (runs_at b m ≡ true))
unfolding overlaps_with crosses_midnight
overlaps_with_sound a b na nb h = (ground arith, (meeting a b, ground arith, ground arith))
