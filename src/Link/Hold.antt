-- ===== src/Link/Hold.antt =====
-- failure_hold.h: which failure the status shows, and what takes it away again.
use esphome_alpha_hwr.Base.{
  ℕ, max, ap, ◌∙◌, ◌==◌, ◌≡◌, refl, Bool, true, false, not, ◌&&◌, ◌||◌, List, [], ◌∷◌, arith, leb,
  if◌then◌else◌,
}

pub data FailureHold : Type 0 where
  none_held ready not_answering pairing_stall subscribe auth : FailureHold

-- The values of the enumerators.
abbrev pub value : FailureHold → ℕ
value none_held = 0
value ready = 1
value not_answering = 2
value pairing_stall = 3
value subscribe = 4
value auth = 5

unfoldable pub failure_hold_admits : FailureHold → FailureHold → Bool
failure_hold_admits held incoming = leb (value held) (value incoming)

unfoldable pub failure_hold_released_by_data : FailureHold → Bool
failure_hold_released_by_data none_held = false
failure_hold_released_by_data ready = false
failure_hold_released_by_data not_answering = true
failure_hold_released_by_data pairing_stall = true
failure_hold_released_by_data subscribe = true
failure_hold_released_by_data auth = false

unfoldable pub failure_hold_released_by_auth : FailureHold → Bool
failure_hold_released_by_auth none_held = false
failure_hold_released_by_auth ready = false
failure_hold_released_by_auth not_answering = false
failure_hold_released_by_auth pairing_stall = true
failure_hold_released_by_auth subscribe = false
failure_hold_released_by_auth auth = true

unfoldable pub failure_hold_released_by_pump_ready : FailureHold → Bool
failure_hold_released_by_pump_ready none_held = false
failure_hold_released_by_pump_ready ready = true
failure_hold_released_by_pump_ready not_answering = false
failure_hold_released_by_pump_ready pairing_stall = false
failure_hold_released_by_pump_ready subscribe = false
failure_hold_released_by_pump_ready auth = false

unfoldable pub failure_hold_released_by_session_ready : FailureHold → Bool
failure_hold_released_by_session_ready none_held = false
failure_hold_released_by_session_ready ready = false
failure_hold_released_by_session_ready not_answering = false
failure_hold_released_by_session_ready pairing_stall = true
failure_hold_released_by_session_ready subscribe = false
failure_hold_released_by_session_ready auth = true

-- What may happen to the failure that is shown.
pub data Signal : Type 0 where
  data_arrived authenticated pump_ready session_ready : Signal

abbrev pub releases : Signal → FailureHold → Bool
releases data_arrived h = failure_hold_released_by_data h
releases authenticated h = failure_hold_released_by_auth h
releases pump_ready h = failure_hold_released_by_pump_ready h
releases session_ready h = failure_hold_released_by_session_ready h

-- A failure is shown if the one that is held admits it.
abbrev pub raise : FailureHold → FailureHold → FailureHold
raise incoming held = if failure_hold_admits held incoming then incoming else held

abbrev pub raise_all : List FailureHold → FailureHold → FailureHold
raise_all [] held = held
raise_all (f ∷ fs) held = raise_all fs (raise f held)

abbrev pub gravest : List FailureHold → ℕ → ℕ
gravest [] v = v
gravest (f ∷ fs) v = gravest fs (max v (value f))

value-raise : (f held : FailureHold) → value (raise f held) ≡ max (value held) (value f)
unfolding failure_hold_admits
value-raise f held = ground arith

-- Whatever failures are reported, in any order, the one that is shown has the greatest value of them
-- and of the one that was held before.
pub raise_all-gravest :
    (fs : List FailureHold) (held : FailureHold)
    → value (raise_all fs held) ≡ gravest fs (value held)
raise_all-gravest [] held = refl
raise_all-gravest (f ∷ fs) held =
    raise_all-gravest fs (raise f held) ∙ ap (gravest fs) (value-raise f held)

-- Every failure that can be shown is taken away by something, and where nothing is shown nothing is.
-- Only the pump's becoming ready takes READY away, only data takes away DATA and SUBSCRIBE, and AUTH
-- goes just with an authentication or a session that is ready.
pub releases_table :
    (f : FailureHold)
    → ((releases data_arrived f
          || releases authenticated f
          || releases pump_ready f
          || releases session_ready f)
        ≡ not (value f == 0))
      × (releases pump_ready f ≡ (value f == 1))
      × (releases data_arrived f ≡ leb 2 (value f) && leb (value f) 4)
      × (releases authenticated f ≡ releases session_ready f)
      × (releases authenticated f ≡ (value f == 3) || (value f == 5))
unfolding failure_hold_released_by_data failure_hold_released_by_auth
    failure_hold_released_by_pump_ready failure_hold_released_by_session_ready
releases_table f = ground arith
