-- ===== src/Dst/Examples.antt =====
-- The last Sunday of March, in 2026.
use esphome_alpha_hwr.Base.{◌≡◌, refl, arith}
use esphome_alpha_hwr.Dst.{
  DstTransition, dst_year_is_leap, dst_days_in_month, days_of_years, days_of_year_months,
  dst_days_from_epoch, dst_weekday_of, find_first, find_last, resolve_transition_day,
}
use esphome_alpha_hwr.Dst.Days.{IsReal, IsTransitionDay, resolve_transition_day-IsTransitionDay}

abbrev last_sunday : DstTransition
last_sunday = record { month = 3; weekday = 7; occurrence = 5; hour = 1 }

in_2026 : resolve_transition_day last_sunday 2026 ≡ 29
unfolding resolve_transition_day find_first find_last dst_weekday_of dst_days_from_epoch
    days_of_years days_of_year_months dst_days_in_month dst_year_is_leap
in_2026 = refl

last_sunday-IsReal : IsReal last_sunday
last_sunday-IsReal = record {
  real_month = omega arith;
  real_weekday = omega arith;
  real_occurrence = omega arith;
}

resolve_transition_day-IsTransitionDay_example :
    IsTransitionDay last_sunday 2026 (resolve_transition_day last_sunday 2026)
resolve_transition_day-IsTransitionDay_example =
    resolve_transition_day-IsTransitionDay last_sunday 2026 last_sunday-IsReal
