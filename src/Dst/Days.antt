-- ===== src/Dst/Days.antt =====
-- The day that a transition names.
use esphome_alpha_hwr.Base.{
  ℕ, zero, suc, ◌+◌, ◌-◌, ◌*◌, ◌/◌, ◌%◌, ◌≤◌, ◌<◌, ◌≡◌, ap, ◌∙◌, arith, leb, get_or, ◌⊎◌, inl, inr,
  Bool-cases, leb→le,
}
use esphome_alpha_hwr.Dst.{
  DstTransition, days_of_months, dst_days_in_month, dst_days_from_epoch, dst_weekday_of, find_first,
  find_last, resolve_transition_day,
}

-- The weekday of a day, from that of the first of the month.
weekday_from_first :
    (year month day : ℕ)
    → 1 ≤ day
    → dst_weekday_of year month day ≡ (dst_days_from_epoch year month 1 + (day - 1) + 3) % 7 + 1
unfolding dst_weekday_of dst_days_from_epoch
weekday_from_first year month day h = omega arith

find_first_lem :
    (year month weekday : ℕ)
    → 1 ≤ weekday
    → weekday ≤ 7
    → (1 ≤ find_first 7 1 year month weekday)
      × (find_first 7 1 year month weekday ≤ 7)
      × (dst_weekday_of year month (find_first 7 1 year month weekday) ≡ weekday)
unfolding find_first
find_first_lem year month weekday lo hi = ground (
  arith,
  weekday_from_first year month 1 (omega arith),
  weekday_from_first year month 2 (omega arith),
  weekday_from_first year month 3 (omega arith),
  weekday_from_first year month 4 (omega arith),
  weekday_from_first year month 5 (omega arith),
  weekday_from_first year month 6 (omega arith),
  weekday_from_first year month 7 (omega arith),
)

month_len : (m : ℕ) → m < 12 → (28 ≤ get_or days_of_months m 0) × (get_or days_of_months m 0 ≤ 31)
month_len zero h = omega arith
month_len (suc zero) h = omega arith
month_len (suc (suc zero)) h = omega arith
month_len (suc (suc (suc zero))) h = omega arith
month_len (suc (suc (suc (suc zero)))) h = omega arith
month_len (suc (suc (suc (suc (suc zero))))) h = omega arith
month_len (suc (suc (suc (suc (suc (suc zero)))))) h = omega arith
month_len (suc (suc (suc (suc (suc (suc (suc zero))))))) h = omega arith
month_len (suc (suc (suc (suc (suc (suc (suc (suc zero)))))))) h = omega arith
month_len (suc (suc (suc (suc (suc (suc (suc (suc (suc zero))))))))) h = omega arith
month_len (suc (suc (suc (suc (suc (suc (suc (suc (suc (suc zero)))))))))) h = omega arith
month_len (suc (suc (suc (suc (suc (suc (suc (suc (suc (suc (suc zero))))))))))) h = omega arith
month_len (suc (suc (suc (suc (suc (suc (suc (suc (suc (suc (suc (suc m)))))))))))) h =
    absurd (omega arith)

dim_range :
    (month year : ℕ)
    → 1 ≤ month
    → month ≤ 12
    → (28 ≤ dst_days_in_month month year) × (dst_days_in_month month year ≤ 31)
unfolding dst_days_in_month
dim_range month year lo hi = ground (arith, month_len (month - 1) (omega arith))

find_last_lem :
    (first dim : ℕ)
    → 1 ≤ first
    → first ≤ 7
    → 28 ≤ dim
    → dim ≤ 31
    → ((find_last 5 first dim ≡ first + 7 * 3) ⊎ (find_last 5 first dim ≡ first + 7 * 4))
      × (find_last 5 first dim ≤ dim)
      × (dim < find_last 5 first dim + 7)
unfolding find_last
find_last_lem first dim lo hi a b = ground arith

weeks_later :
    (year month first weeks : ℕ)
    → 1 ≤ first
    → dst_weekday_of year month (first + 7 * weeks) ≡ dst_weekday_of year month first
weeks_later year month first weeks h = omega (
  arith,
  weekday_from_first year month first h,
  weekday_from_first year month (first + 7 * weeks) (omega arith),
)

-- A day of the month on the weekday of the transition: the occurrence that it names, or the last one
-- if it names the fifth or a later one.
pub record IsTransitionDay (d : DstTransition) (year day : ℕ) : Type 0 where
  pub in_month : (1 ≤ day) × (day ≤ dst_days_in_month d.month year)
  pub on_weekday : dst_weekday_of year d.month day ≡ d.weekday
  pub named :
      ((day - 1) / 7 + 1 ≡ d.occurrence)
      ⊎ ((5 ≤ d.occurrence) × (dst_days_in_month d.month year < day + 7))

-- A transition whose fields are real.
pub record IsReal (d : DstTransition) : Type 0 where
  pub real_month : (1 ≤ d.month) × (d.month ≤ 12)
  pub real_weekday : (1 ≤ d.weekday) × (d.weekday ≤ 7)
  pub real_occurrence : 1 ≤ d.occurrence

module _ (d : DstTransition) (year : ℕ) (real : IsReal d) where
  abbrev first : ℕ
  first = find_first 7 1 year d.month d.weekday

  abbrev dim : ℕ
  dim = dst_days_in_month d.month year

  first_found : (1 ≤ first) × (first ≤ 7) × (dst_weekday_of year d.month first ≡ d.weekday)
  first_found = find_first_lem year d.month d.weekday real.real_weekday.0 real.real_weekday.1

  dim_found : (28 ≤ dim) × (dim ≤ 31)
  dim_found = dim_range d.month year real.real_month.0 real.real_month.1

  resolved_last : 5 ≤ d.occurrence → resolve_transition_day d year ≡ find_last 5 first dim
  unfolding resolve_transition_day
  resolved_last h = ground (arith, real, first_found.0, dim_found.0)

  resolved_nth : d.occurrence ≤ 4 → resolve_transition_day d year ≡ first + 7 * (d.occurrence - 1)
  unfolding resolve_transition_day
  resolved_nth h = ground (arith, real, first_found.0, first_found.1, dim_found.0)

  last-IsTransitionDay : 5 ≤ d.occurrence → IsTransitionDay d year (find_last 5 first dim)
  last-IsTransitionDay h =
      let last = find_last_lem first dim first_found.0 first_found.1 dim_found.0 dim_found.1 in
      ground (
        arith,
        last,
        first_found,
        weeks_later year d.month first 3 first_found.0,
        weeks_later year d.month first 4 first_found.0,
        ap (dst_weekday_of year d.month) {x = find_last 5 first dim} {y = first + 7 * 3},
        ap (dst_weekday_of year d.month) {x = find_last 5 first dim} {y = first + 7 * 4},
      )

  nth-IsTransitionDay : d.occurrence ≤ 4 → IsTransitionDay d year (first + 7 * (d.occurrence - 1))
  nth-IsTransitionDay h = record {
    in_month = (omega (arith, first_found.0), omega (arith, first_found.1, dim_found.0));
    on_weekday = weeks_later year d.month first (d.occurrence - 1) first_found.0 ∙ first_found.2;
    named = inl (omega (arith, first_found.0, first_found.1, real.real_occurrence));
  }

  -- A transition with a real month and weekday and an occurrence that is not 0 falls in every year on
  -- a day: one of its month, on its weekday, and the occurrence that it names, or the last of the
  -- month where it names the fifth or a later one.
  pub resolve_transition_day-IsTransitionDay :
      IsTransitionDay d year (resolve_transition_day d year)
  resolve_transition_day-IsTransitionDay = elim (Bool-cases (leb 5 d.occurrence)) [
    | inl h ↦ rw (resolved_last (leb→le _ _ h)) (last-IsTransitionDay (leb→le _ _ h))
    | inr h ↦ rw (resolved_nth (ground arith)) (nth-IsTransitionDay (ground arith))
  ]
