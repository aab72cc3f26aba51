-- ===== src/Link/Counters.antt =====
-- What the counters of the sampler count.
use esphome_alpha_hwr.Base.{
  ℕ, zero, suc, ◌+◌, ◌≡◌, refl, sym, ap, ◌∙◌, Bool, true, false, not, List, [], ◌∷◌, arith, ltb,
  if◌then◌else◌, u32, sub_u32, get_or, length, All, IsU32, ◌<◌, if_case, ◌==◌,
}
use esphome_alpha_hwr.Link.Watchdog.{link_data_timeout_expired}
use esphome_alpha_hwr.Link.Sampler.{
  LinkGapSampler, link_gap_thresholds_ms, fresh, threshold_ms, count_over, sample, on_open,
  on_inbound, on_recycle, on_disconnect, disarm, over_count,
}

-- What happens to the link.
pub data Happening : Type 0 where
  opened inbound recycled disconnected : ℕ → Happening
  disarmed : Happening

abbrev pub observe : Happening → LinkGapSampler → LinkGapSampler
observe (opened now) s = on_open now s
observe (inbound now) s = on_inbound now s
observe (recycled now) s = on_recycle now s
observe (disconnected now) s = on_disconnect now s
observe disarmed s = disarm s

abbrev pub observe_all : List Happening → LinkGapSampler → LinkGapSampler
observe_all [] s = s
observe_all (h ∷ hs) s = observe_all hs (observe h s)

-- Is the link watched after what happened, latest first? It is from an opening or an inbound frame on, to
-- a recycle, a disconnect or the disarming.
abbrev pub is_watched : (past : List Happening) → Bool
is_watched [] = false
is_watched (opened now ∷ past) = true
is_watched (inbound now ∷ past) = true
is_watched (recycled now ∷ past) = false
is_watched (disconnected now ∷ past) = false
is_watched (disarmed ∷ past) = false

-- When the quiet time after what happened began: at the last opening, inbound frame or recycle, or at the
-- last disconnect of a watched link, or at 0 before any of them.
abbrev pub quiet_since : (past : List Happening) → ℕ
quiet_since [] = 0
quiet_since (opened now ∷ past) = now
quiet_since (inbound now ∷ past) = now
quiet_since (recycled now ∷ past) = now
quiet_since (disconnected now ∷ past) =
    let before = quiet_since past in if is_watched past then now else before
quiet_since (disarmed ∷ past) = quiet_since past

-- Would a data timeout of `budget` have cut off the quiet time that ends now?
abbrev cut_off : (budget now since : ℕ) → ℕ
cut_off budget now since = if link_data_timeout_expired true now since budget then 1 else 0

-- A quiet time ends with an inbound frame or a disconnect, where the link is watched, and with a recycle.
abbrev pub firings : ℕ → (past : List Happening) → Happening → ℕ
firings budget past (opened now) = 0
firings budget past (inbound now) =
    if is_watched past then cut_off budget now (quiet_since past) else 0
firings budget past (recycled now) = cut_off budget now (quiet_since past)
firings budget past (disconnected now) =
    if is_watched past then cut_off budget now (quiet_since past) else 0
firings budget past disarmed = 0

abbrev pub firings_in : ℕ → (past coming : List Happening) → ℕ
firings_in budget past [] = 0
firings_in budget past (h ∷ hs) = firings budget past h + firings_in budget (h ∷ past) hs

-- The sampler knows whether the link is watched, and since when it is quiet.
record Follows (past : List Happening) (s : LinkGapSampler) : Type 0 where
  armed_when : s.armed ≡ is_watched past
  stamped : s.last_ms ≡ quiet_since past

observe-Follows :
    (past : List Happening) (h : Happening) (s : LinkGapSampler)
    → Follows past s
    → Follows (h ∷ past) (observe h s)
unfolding on_open on_inbound on_recycle on_disconnect disarm sample
observe-Follows past (opened now) s f = record { armed_when = refl; stamped = refl }
observe-Follows past (inbound now) s f = record {
  armed_when = ground (arith, f.armed_when);
  stamped = ground (arith, f.stamped);
}
observe-Follows past (recycled now) s f = record { armed_when = refl; stamped = refl }
observe-Follows past (disconnected now) s f = record {
  armed_when = ground (arith, f.armed_when);
  stamped = ground (arith, f.armed_when, f.stamped);
}
observe-Follows past disarmed s f = record { armed_when = refl; stamped = f.stamped }

-- A sampler has a 32-bit counter for each threshold.
pub record HasCounters (s : LinkGapSampler) : Type 0 where
  pub six : length s.over_counts ≡ 6
  pub words : All IsU32 s.over_counts

pub fresh-HasCounters : HasCounters fresh
fresh-HasCounters = record { six = refl; words = omega arith }

length-count_over :
    (gap : ℕ) (ts cs : List ℕ) → length ts ≡ length cs → length (count_over gap ts cs) ≡ length cs
unfolding count_over
length-count_over gap [] cs e = refl
length-count_over gap (t ∷ ts) [] e = refl
length-count_over gap (t ∷ ts) (c ∷ cs) e = omega (arith, length-count_over gap ts cs (omega arith))

words-count_over : (gap : ℕ) (ts cs : List ℕ) → All IsU32 cs → All IsU32 (count_over gap ts cs)
unfolding count_over
words-count_over gap [] cs w = w
words-count_over gap (t ∷ ts) [] w = w
words-count_over gap (t ∷ ts) (c ∷ cs) w = (ground (arith, w.0), words-count_over gap ts cs w.1)

-- One counter of the loop.
get_or-count_over :
    (gap i : ℕ) (ts cs : List ℕ)
    → i < length ts
    → length ts ≡ length cs
    → All IsU32 cs
    → get_or (count_over gap ts cs) i 0
      ≡ u32 (get_or cs i 0 + (if ltb (get_or ts i 0) gap then 1 else 0))
unfolding count_over
get_or-count_over gap i [] cs h e w = absurd (omega arith)
get_or-count_over gap i (t ∷ ts) [] h e w = absurd (omega arith)
get_or-count_over gap zero (t ∷ ts) (c ∷ cs) h e w = ground (arith, w.0)
get_or-count_over gap (suc i) (t ∷ ts) (c ∷ cs) h e w =
    get_or-count_over gap i ts cs (omega arith) (omega arith) w.1

sample-HasCounters :
    (now : ℕ) (b : Bool) (s : LinkGapSampler) → HasCounters s → HasCounters (sample now b s)
unfolding sample
sample-HasCounters now b s g = record {
  six =
      length-count_over (sub_u32 now s.last_ms) link_gap_thresholds_ms s.over_counts (sym g.six)
      ∙ g.six;
  words = words-count_over (sub_u32 now s.last_ms) link_gap_thresholds_ms s.over_counts g.words;
}

-- The operations keep the counters, or count one sample in them.
module _ (armed : Bool) (s : LinkGapSampler) (g : HasCounters s) where
  armed-HasCounters : (now : ℕ) → HasCounters (record s { last_ms = now; armed = armed })
  armed-HasCounters now = record { six = g.six; words = g.words }

observe-HasCounters :
    (h : Happening) (s : LinkGapSampler) → HasCounters s → HasCounters (observe h s)
unfolding on_open on_inbound on_recycle on_disconnect disarm
observe-HasCounters (opened now) s g = record { six = g.six; words = g.words }
observe-HasCounters (inbound now) s g =
    if_case HasCounters (not s.armed) (λ off. armed-HasCounters true s g now)
      (λ on. sample-HasCounters now true s g)
observe-HasCounters (recycled now) s g = record {
  six = (sample-HasCounters now false s g).six;
  words = (sample-HasCounters now false s g).words;
}
observe-HasCounters (disconnected now) s g =
    if_case HasCounters (not s.armed) (λ off. g)
      (λ on. record {
        six = (sample-HasCounters now false s g).six;
        words = (sample-HasCounters now false s g).words;
      })
observe-HasCounters disarmed s g = record { six = g.six; words = g.words }

thresholds_positive : (index : ℕ) → index < 6 → 0 < threshold_ms index
thresholds_positive zero h = omega arith
thresholds_positive (suc zero) h = omega arith
thresholds_positive (suc (suc zero)) h = omega arith
thresholds_positive (suc (suc (suc zero))) h = omega arith
thresholds_positive (suc (suc (suc (suc zero)))) h = omega arith
thresholds_positive (suc (suc (suc (suc (suc zero))))) h = omega arith
thresholds_positive (suc (suc (suc (suc (suc (suc index)))))) h = absurd (omega arith)

over_cut_off :
    (index gap : ℕ)
    → index < 6
    → ltb (threshold_ms index) gap
      ≡ (if threshold_ms index == 0 then false else ltb (threshold_ms index) gap)
over_cut_off index gap h = ground (arith, thresholds_positive index h)

sample-over_count :
    (index now : ℕ) (b : Bool) (s : LinkGapSampler)
    → index < 6
    → HasCounters s
    → get_or (sample now b s).over_counts index 0
      ≡ u32 (get_or s.over_counts index 0 + cut_off (threshold_ms index) now s.last_ms)
unfolding sample link_data_timeout_expired
sample-over_count index now b s h g =
    get_or-count_over (sub_u32 now s.last_ms) index link_gap_thresholds_ms s.over_counts h
      (sym g.six) g.words
    ∙ ap (λ over. u32 (get_or s.over_counts index 0 + (if over then 1 else 0)))
        (over_cut_off index (sub_u32 now s.last_ms) h)

u32_zero : (n : ℕ) → IsU32 n → n ≡ u32 (n + 0)
u32_zero n h = omega arith

counter-lt : (index : ℕ) (cs : List ℕ) → All IsU32 cs → IsU32 (get_or cs index 0)
counter-lt index [] w = omega arith
counter-lt zero (c ∷ cs) w = w.0
counter-lt (suc index) (c ∷ cs) w = counter-lt index cs w.1

counter-fresh : (index : ℕ) → get_or fresh.over_counts index 0 ≡ 0
counter-fresh zero = refl
counter-fresh (suc zero) = refl
counter-fresh (suc (suc zero)) = refl
counter-fresh (suc (suc (suc zero))) = refl
counter-fresh (suc (suc (suc (suc zero)))) = refl
counter-fresh (suc (suc (suc (suc (suc zero))))) = refl
counter-fresh (suc (suc (suc (suc (suc (suc index)))))) = refl

observe-firings :
    (index : ℕ) (past : List Happening) (h : Happening) (s : LinkGapSampler)
    → index < 6
    → HasCounters s
    → Follows past s
    → get_or (observe h s).over_counts index 0
      ≡ u32 (get_or s.over_counts index 0 + firings (threshold_ms index) past h)
unfolding on_open on_inbound on_recycle on_disconnect disarm
observe-firings index past (opened now) s h g f =
    u32_zero _ (counter-lt index s.over_counts g.words)
observe-firings index past (inbound now) s h g f =
    rw (← f.armed_when, ← f.stamped)
      (ground
        (arith, sample-over_count index now true s h g, counter-lt index s.over_counts g.words))
observe-firings index past (recycled now) s h g f =
    rw (← f.stamped) (sample-over_count index now false s h g)
observe-firings index past (disconnected now) s h g f =
    rw (← f.armed_when, ← f.stamped)
      (ground
        (arith, sample-over_count index now false s h g, counter-lt index s.over_counts g.words))
observe-firings index past disarmed s h g f = u32_zero _ (counter-lt index s.over_counts g.words)

over_count-from :
    (index : ℕ) (past hs : List Happening) (s : LinkGapSampler)
    → index < 6
    → HasCounters s
    → Follows past s
    → over_count index (observe_all hs s)
      ≡ u32 (over_count index s + firings_in (threshold_ms index) past hs)
unfolding over_count
over_count-from index past [] s h g f = ground (arith, counter-lt index s.over_counts g.words)
over_count-from index past (x ∷ hs) s h g f = ground (
  arith,
  over_count-from index (x ∷ past) hs (observe x s) h (observe-HasCounters x s g)
      (observe-Follows past x s f),
  observe-firings index past x s h g f,
)

-- From a fresh sampler on, whatever happens to the link, the counter of a threshold is the number of the
-- quiet times that a data timeout of that length would have cut off, up to the wrap of its 32 bits. A
-- quiet time begins with an opening, an inbound frame, a recycle or the disconnect of a watched link, the
-- first one at the time 0, and ends with an inbound frame or a disconnect where the link is watched, and with a recycle. The link is
-- watched from an opening or an inbound frame to a recycle, a disconnect or the disarming.
pub over_count-firings :
    (index : ℕ) (hs : List Happening)
    → index < 6
    → over_count index (observe_all hs fresh) ≡ u32 (firings_in (threshold_ms index) [] hs)
unfolding over_count
over_count-firings index hs h = ground (
  arith,
  over_count-from index [] hs fresh h fresh-HasCounters
      (record { armed_when = refl; stamped = refl }),
  counter-fresh index,
)
