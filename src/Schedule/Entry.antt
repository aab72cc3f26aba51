-- ===== src/Schedule/Entry.antt =====
-- The class `ScheduleEntry`. Its texts for log lines are left out.
use Prim.Native.String.{String}
use text.Mathlib.Text.{◌==◌ as str_eq}
use esphome_alpha_hwr.Base.{
  ℕ, zero, suc, ◌+◌, ◌-◌, ◌*◌, ◌<◌, ◌≡◌, refl, Bool, true, false, not, ◌&&◌, ◌||◌, List, [], ◌∷◌,
  arith, ltb, leb, ◌==◌, if◌then◌else◌, get_or,
}

abbrev pub valid_days : List String
valid_days = "Monday" ∷ "Tuesday" ∷ "Wednesday" ∷ "Thursday" ∷ "Friday" ∷ "Saturday" ∷ "Sunday" ∷ []

abbrev pub invalid_day_index : ℕ
invalid_day_index = 7

pub record ScheduleEntry : Type 0 where
  pub day_index : ℕ
  pub begin_hour : ℕ
  pub begin_minute : ℕ
  pub end_hour : ℕ
  pub end_minute : ℕ
  pub action : ℕ
  pub layer : ℕ
  pub enabled : Bool

-- The loop of `set_day`, from the index `i` on.
unfoldable pub find_day : String → List String → ℕ → ℕ
find_day day [] i = invalid_day_index
find_day day (valid ∷ days) i =
    let later = find_day day days (suc i) in if str_eq day valid then i else later

unfoldable pub set_day : String → ScheduleEntry → ScheduleEntry
unfolding find_day
set_day day e = record e { day_index = find_day day valid_days 0 }

unfoldable pub get_day : ScheduleEntry → String
get_day e = if ltb e.day_index 7 then get_or valid_days e.day_index "" else ""

unfoldable pub is_valid_day : String → Bool
is_valid_day day = listed valid_days
  where
    listed : List String → Bool
    listed [] = false
    listed (valid ∷ days) = str_eq day valid || listed days

abbrev pub begin_mins : ScheduleEntry → ℕ
begin_mins e = e.begin_hour * 60 + e.begin_minute

abbrev pub end_mins : ScheduleEntry → ℕ
end_mins e = e.end_hour * 60 + e.end_minute

-- An `int`: the times of bytes that are no time of day can make the difference negative.
pub data ℤ : Type 0 where
  pos negsuc : ℕ → ℤ

abbrev minus : ℕ → ℕ → ℤ
minus a b = if leb b a then pos (a - b) else negsuc (b - a - 1)

unfoldable pub get_duration_minutes : ScheduleEntry → ℤ
get_duration_minutes e =
    if ltb (end_mins e) (begin_mins e)
    then minus (24 * 60 + end_mins e) (begin_mins e)
    else pos (end_mins e - begin_mins e)

unfoldable pub crosses_midnight : ScheduleEntry → Bool
crosses_midnight e = ltb (end_mins e) (begin_mins e)

unfoldable pub is_valid_time_range : ScheduleEntry → Bool
unfolding get_duration_minutes
is_valid_time_range e = elim (get_duration_minutes e) [ pos n ↦ not (n == 0) | negsuc n ↦ true ]

unfoldable pub overlaps_with : ScheduleEntry → ScheduleEntry → Bool
unfolding crosses_midnight
overlaps_with self other =
    if leb invalid_day_index self.day_index || leb invalid_day_index other.day_index
    then false
    else if not (self.day_index == other.day_index)
    then false
    else if not (self.layer == other.layer)
    then false
    else if not self.enabled || not other.enabled
    then false
    else if not (crosses_midnight self) && not (crosses_midnight other)
    then ltb (begin_mins self) (end_mins other) && ltb (begin_mins other) (end_mins self)
    else if crosses_midnight self && not (crosses_midnight other)
    then leb (begin_mins self) (begin_mins other)
      || (ltb (begin_mins other) (end_mins self) || leb (end_mins other) (end_mins self))
    else if not (crosses_midnight self) && crosses_midnight other
    then leb (begin_mins other) (begin_mins self)
      || (ltb (begin_mins self) (end_mins other) || leb (end_mins self) (end_mins other))
    else true

-- The six bytes that are written to the buffer.
unfoldable pub to_bytes : ScheduleEntry → List ℕ
to_bytes e =
    (if e.enabled then 0x01 else 0x00)
    ∷ e.action
    ∷ e.begin_hour
    ∷ e.begin_minute
    ∷ e.end_hour
    ∷ e.end_minute
    ∷ []

unfoldable pub from_bytes : List ℕ → String → ℕ → ScheduleEntry
unfolding set_day
from_bytes bytes day layer = set_day day (record {
  day_index = invalid_day_index;
  begin_hour = get_or bytes 2 0;
  begin_minute = get_or bytes 3 0;
  end_hour = get_or bytes 4 0;
  end_minute = get_or bytes 5 0;
  action = get_or bytes 1 0;
  layer = layer;
  enabled = not (get_or bytes 0 0 == 0);
})

day_found : (i : ℕ) → i < 7 → find_day (get_or valid_days i "") valid_days 0 ≡ i
unfolding find_day
day_found zero h = refl
day_found (suc zero) h = refl
day_found (suc (suc zero)) h = refl
day_found (suc (suc (suc zero))) h = refl
day_found (suc (suc (suc (suc zero)))) h = refl
day_found (suc (suc (suc (suc (suc zero))))) h = refl
day_found (suc (suc (suc (suc (suc (suc zero)))))) h = refl
day_found (suc (suc (suc (suc (suc (suc (suc i))))))) h = absurd (omega arith)

-- An entry with a day of the week is read back from its six bytes, its day's name and its layer.
pub from_bytes-to_bytes :
    (e : ScheduleEntry) → e.day_index < 7 → from_bytes (to_bytes e) (get_day e) e.layer ≡ e
unfolding from_bytes to_bytes get_day set_day
from_bytes-to_bytes e h = ground (arith, day_found e.day_index h)
