-- ===== src/Dst.antt =====
-- components/alpha_hwr/dst_rule.h: on which day of a year a change of the clock falls.
pub mod Days
pub mod Rules
mod Examples
use esphome_alpha_hwr.Base.{
  ℕ, zero, suc, ◌+◌, ◌-◌, ◌*◌, ◌/◌, ◌%◌, ◌≤◌, ◌<◌, ◌≡◌, refl, sym, ap, ◌∙◌, Bool, true, false, not,
  ◌&&◌, ◌||◌, List, [], ◌∷◌, arith, ltb, leb, ◌==◌, if◌then◌else◌, get_or, ◌⊎◌, inl, inr,
  Bool-cases, leb→le,
}

pub record DstTransition : Type 0 where
  pub month : ℕ
  pub weekday : ℕ
  pub occurrence : ℕ
  pub hour : ℕ

unfoldable pub dst_year_is_leap : ℕ → Bool
dst_year_is_leap y = ((y % 4 == 0) && not (y % 100 == 0)) || (y % 400 == 0)

abbrev pub days_of_months : List ℕ
days_of_months = 31 ∷ 28 ∷ 31 ∷ 30 ∷ 31 ∷ 30 ∷ 31 ∷ 31 ∷ 30 ∷ 31 ∷ 30 ∷ 31 ∷ []

unfoldable pub dst_days_in_month : ℕ → ℕ → ℕ
unfolding dst_year_is_leap
dst_days_in_month month year =
    if ltb month 1 || ltb 12 month
    then 0
    else if (month == 2) && dst_year_is_leap year
    then 29
    else get_or days_of_months (month - 1) 0

-- The loop over the years from `y` on.
unfoldable pub days_of_years : ℕ → ℕ → ℕ
unfolding dst_year_is_leap
days_of_years zero y = 0
days_of_years (suc n) y = (if dst_year_is_leap y then 366 else 365) + days_of_years n (y + 1)

-- The loop over the months from `m` on.
unfoldable pub days_of_year_months : ℕ → ℕ → ℕ → ℕ
unfolding dst_days_in_month
days_of_year_months zero m year = 0
days_of_year_months (suc n) m year = dst_days_in_month m year + days_of_year_months n (m + 1) year

-- The day is at least 1.
unfoldable pub dst_days_from_epoch : ℕ → ℕ → ℕ → ℕ
unfolding days_of_years days_of_year_months
dst_days_from_epoch year month day =
    days_of_years (year - 1970) 1970 + days_of_year_months (month - 1) 1 year + (day - 1)

-- Monday is 1. The number of days is never negative here.
unfoldable pub dst_weekday_of : ℕ → ℕ → ℕ → ℕ
unfolding dst_days_from_epoch
dst_weekday_of year month day = (dst_days_from_epoch year month day + 3) % 7 + 1

-- The loop over the first days of the month, from `day` on.
unfoldable pub find_first : ℕ → ℕ → ℕ → ℕ → ℕ → ℕ
unfolding dst_weekday_of
find_first zero day year month weekday = 0
find_first (suc n) day year month weekday =
    let later = find_first n (day + 1) year month weekday in
    if dst_weekday_of year month day == weekday then day else later

-- The loop to the last such day; a month has no more than five of them.
unfoldable pub find_last : ℕ → ℕ → ℕ → ℕ
find_last zero last dim = last
find_last (suc fuel) last dim =
    let later = find_last fuel (last + 7) dim in if leb (last + 7) dim then later else last

unfoldable pub resolve_transition_day : DstTransition → ℕ → ℕ
resolve_transition_day d year =
    let dim = dst_days_in_month d.month year in
    let first = find_first 7 1 year d.month d.weekday in
    if dim == 0
    then 0
    else if ltb d.weekday 1 || ltb 7 d.weekday
    then 0
    else if ltb d.occurrence 1
    then 0
    else if first == 0
    then 0
    else if leb 5 d.occurrence
    then find_last 5 first dim
    else if ltb dim (first + 7 * (d.occurrence - 1))
    then 0
    else first + 7 * (d.occurrence - 1)
