-- ===== src/Link/Sampler.antt =====
-- LinkGapSampler of link_watchdog.h: statistics of the quiet times of the link.
use esphome_alpha_hwr.Base.{
  ℕ, ◌+◌, ◌%◌, Bool, true, false, not, List, [], ◌∷◌, ltb, if◌then◌else◌, u32, sub_u32, get_or,
  length,
}

abbrev pub link_gap_thresholds_ms : List ℕ
link_gap_thresholds_ms = 15000 ∷ 20000 ∷ 30000 ∷ 45000 ∷ 60000 ∷ 90000 ∷ []

pub record LinkGapSampler : Type 0 where
  pub last_ms : ℕ
  pub max_ms : ℕ
  pub armed : Bool
  pub over_counts : List ℕ
  pub truncated : ℕ
  pub watched_ms : ℕ

abbrev u64 : ℕ → ℕ
u64 n = n % 18446744073709551616

abbrev pub fresh : LinkGapSampler
fresh = record {
  last_ms = 0;
  max_ms = 0;
  armed = false;
  over_counts = 0 ∷ 0 ∷ 0 ∷ 0 ∷ 0 ∷ 0 ∷ [];
  truncated = 0;
  watched_ms = 0;
}

-- The loop over the thresholds, with the counters beside them.
unfoldable pub count_over : ℕ → List ℕ → List ℕ → List ℕ
count_over gap [] counts = counts
count_over gap (threshold ∷ thresholds) [] = []
count_over gap (threshold ∷ thresholds) (n ∷ counts) =
    (if ltb threshold gap then u32 (n + 1) else n) ∷ count_over gap thresholds counts

unfoldable pub sample : ℕ → Bool → LinkGapSampler → LinkGapSampler
unfolding count_over
sample now_ms closed_by_data s =
    let gap = sub_u32 now_ms s.last_ms in
    record s {
      max_ms = if ltb s.max_ms gap then gap else s.max_ms;
      watched_ms = u64 (s.watched_ms + gap);
      truncated = if not closed_by_data then u32 (s.truncated + 1) else s.truncated;
      over_counts = count_over gap link_gap_thresholds_ms s.over_counts;
      last_ms = now_ms;
    }

unfoldable pub on_open : ℕ → LinkGapSampler → LinkGapSampler
on_open now_ms s = record s { last_ms = now_ms; armed = true }

unfoldable pub on_inbound : ℕ → LinkGapSampler → LinkGapSampler
unfolding sample
on_inbound now_ms s =
    if not s.armed then record s { last_ms = now_ms; armed = true } else sample now_ms true s

unfoldable pub on_recycle : ℕ → LinkGapSampler → LinkGapSampler
unfolding sample
on_recycle now_ms s = record (sample now_ms false s) { armed = false }

unfoldable pub on_disconnect : ℕ → LinkGapSampler → LinkGapSampler
unfolding sample
on_disconnect now_ms s = if not s.armed then s else record (sample now_ms false s) { armed = false }

unfoldable pub disarm : LinkGapSampler → LinkGapSampler
disarm s = record s { armed = false }

unfoldable pub over_count : ℕ → LinkGapSampler → ℕ
over_count index s =
    if ltb index (length link_gap_thresholds_ms) then get_or s.over_counts index 0 else 0

abbrev pub threshold_ms : ℕ → ℕ
threshold_ms index = get_or link_gap_thresholds_ms index 0
