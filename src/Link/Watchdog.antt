-- ===== src/Link/Watchdog.antt =====
-- link_watchdog.h, readiness_watchdog.h and initial_read_retry.h: timeouts across the wrap of the
-- clock, and their backoff.
use native.Mathlib.Nat.{pow-suc, mul_assoc, mul_comm}
use esphome_alpha_hwr.Base.{
  ℕ, zero, suc, ◌+◌, ◌*◌, ◌^◌, ◌≤◌, ◌<◌, ◌≡◌, refl, sym, ap, ◌∙◌, min, Bool, true, false, not, ◌&&◌,
  ◌||◌, arith, ltb, leb, ◌==◌, if◌then◌else◌, u32, sub_u32, IsU32, Bool-cases, inl, inr, ltb→lt,
}

unfoldable pub link_data_timeout_expired : Bool → ℕ → ℕ → ℕ → Bool
link_data_timeout_expired connected now_ms last_inbound_ms timeout_ms =
    if not connected || (timeout_ms == 0)
    then false
    else ltb timeout_ms (sub_u32 now_ms last_inbound_ms)

unfoldable pub link_data_timeout_next : ℕ → ℕ → ℕ
link_data_timeout_next current_ms cap_ms =
    let doubled = u32 (current_ms * 2) in
    if current_ms == 0
    then 0
    else if leb cap_ms current_ms
    then current_ms
    else if ltb doubled current_ms
    then cap_ms
    else if ltb cap_ms doubled
    then cap_ms
    else doubled

unfoldable pub link_gap_thresholds_censored : ℕ → ℕ → Bool
link_gap_thresholds_censored data_timeout_ms top_rung_ms =
    if (data_timeout_ms == 0) || (top_rung_ms == 0) then false else leb data_timeout_ms top_rung_ms

unfoldable pub link_readiness_timeout_expired : Bool → Bool → ℕ → ℕ → ℕ → Bool
link_readiness_timeout_expired connected pump_ready now_ms connected_since_ms timeout_ms =
    if not connected
    then false
    else if pump_ready
    then false
    else if timeout_ms == 0
    then false
    else ltb timeout_ms (sub_u32 now_ms connected_since_ms)

unfoldable pub link_readiness_timeout_next : ℕ → ℕ → ℕ
unfolding link_data_timeout_next
link_readiness_timeout_next current_ms cap_ms = link_data_timeout_next current_ms cap_ms

unfoldable pub link_ready_may_recycle : ℕ → ℕ → Bool
link_ready_may_recycle limit consecutive = ltb consecutive limit

unfoldable pub should_rearm_initial_read : Bool → Bool → Bool → Bool → ℕ → ℕ → ℕ → Bool
should_rearm_initial_read session_ready chain_done caches_synchronized chain_products_complete
      now_ms attempt_started_ms timeout_ms =
    if not session_ready || not chain_done
    then false
    else if caches_synchronized && chain_products_complete
    then false
    else leb timeout_ms (sub_u32 now_ms attempt_started_ms)

unfoldable pub next_initial_read_backoff_ms : ℕ → ℕ → ℕ
next_initial_read_backoff_ms current_ms max_ms =
    let doubled = u32 (current_ms * 2) in
    if ltb doubled current_ms || ltb max_ms doubled then max_ms else doubled

-- The windows of the following cycles.
abbrev pub windows : ℕ → ℕ → ℕ → ℕ
windows zero current cap = current
windows (suc n) current cap = windows n (link_data_timeout_next current cap) cap

next_lem :
    (current cap : ℕ)
    → IsU32 cap
    → 0 < current
    → current < cap
    → link_data_timeout_next current cap ≡ min (current * 2) cap
unfolding link_data_timeout_next
next_lem current cap h pos below = ground arith

windows_capped : (n current cap : ℕ) → 0 < current → cap ≤ current → windows n current cap ≡ current
unfolding link_data_timeout_next
windows_capped zero current cap pos over = refl
windows_capped (suc n) current cap pos over =
    ap (λ w. windows n w cap) {y = current} (ground arith) ∙ windows_capped n current cap pos over

twice_more : (a n : ℕ) → a * 2 * 2 ^ n ≡ a * 2 ^ suc n
twice_more a n = mul_assoc a 2 (2 ^ n) ∙ ap (λ p. a * p) (omega (arith, pow-suc 2 n))

pow_pos : (n : ℕ) → 0 < 2 ^ n
pow_pos zero = omega arith
pow_pos (suc n) = omega (arith, pow-suc 2 n, pow_pos n)

grown : (a n : ℕ) → a ≤ a * 2 ^ n
grown a zero = omega arith
grown a (suc n) = omega (arith, grown a n, twice_more a n, swap)
  where
    swap : a * 2 * 2 ^ n ≡ a * 2 ^ n * 2
    swap =
        mul_assoc a 2 (2 ^ n) ∙ ap (λ p. a * p) (mul_comm 2 (2 ^ n)) ∙ sym (mul_assoc a (2 ^ n) 2)

-- The window of a link that stays deaf doubles from each recycle to the next until it reaches the cap,
-- with no overflow on the way, and stays there: so after enough recycles it is the cap.
pub windows_double :
    (n current cap : ℕ)
    → IsU32 cap
    → 0 < current
    → current < cap
    → windows n current cap ≡ min (current * 2 ^ n) cap
windows_double zero current cap h pos below = omega arith
windows_double (suc n) current cap h pos below = elim (Bool-cases (ltb (current * 2) cap)) [
  | inl more ↦
      ap (λ w. windows n w cap) {y = current * 2}
        (omega (arith, next_lem current cap h pos below, ltb→lt _ _ more))
      ∙ windows_double n (current * 2) cap h (omega arith) (ltb→lt _ _ more)
      ∙ ap (λ p. min p cap) (twice_more current n)
  | inr reached ↦
      ap (λ w. windows n w cap) {y = cap} (ground (arith, next_lem current cap h pos below))
      ∙ windows_capped n cap cap (omega arith) (omega arith)
      ∙ ground (arith, twice_more current n, grown (current * 2) n)
]

-- The three clocks read the time that really went by since their start, as long as it is less than
-- 2^32 ms, also where `millis()` wraps in between.
pub elapsed_timeouts :
    (start elapsed timeout_ms : ℕ)
    → IsU32 start
    → IsU32 elapsed
    → (link_data_timeout_expired true (u32 (start + elapsed)) start timeout_ms
        ≡ not (timeout_ms == 0) && ltb timeout_ms elapsed)
      × (link_readiness_timeout_expired true false (u32 (start + elapsed)) start timeout_ms
          ≡ not (timeout_ms == 0) && ltb timeout_ms elapsed)
      × (should_rearm_initial_read true true false false (u32 (start + elapsed)) start timeout_ms
          ≡ leb timeout_ms elapsed)
unfolding link_data_timeout_expired link_readiness_timeout_expired should_rearm_initial_read
elapsed_timeouts start elapsed timeout_ms hs he =
    let e = went_by start elapsed hs he in (ground (arith, e), ground (arith, e), ground (arith, e))
  where
    went_by :
        (start elapsed : ℕ)
        → IsU32 start
        → IsU32 elapsed
        → sub_u32 (u32 (start + elapsed)) start ≡ elapsed
    went_by start elapsed hs he = omega arith
