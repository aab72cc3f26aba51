-- ===== src/Link/Gates.antt =====
-- clock_sync_gate.h, subscribe_outcome.h, gap_security_policy.h and pump_schedule_ux.h.
use Prim.Native.String.{String}
use text.Mathlib.Text.{◌==◌ as str_eq}
use esphome_alpha_hwr.Base.{
  ℕ, ◌≡◌, ◌↔◌, refl, Bool, true, false, not, ◌&&◌, ◌||◌, List, [], ◌∷◌, Option, none, some, arith,
  ltb, leb, ◌==◌, if◌then◌else◌,
}

abbrev pub clock_source_grace_ms : ℕ
clock_source_grace_ms = 900000

pub data ClockSyncAction : Type 0 where
  sync wait warn_no_time_id warn_no_source : ClockSyncAction

unfoldable pub clock_sync_action : Bool → Bool → ℕ → ℕ → ClockSyncAction
clock_sync_action has_time_id wall_clock_set uptime_ms grace_ms =
    if not has_time_id
    then warn_no_time_id
    else if wall_clock_set
    then sync
    else if ltb uptime_ms grace_ms
    then wait
    else warn_no_source

unfoldable pub clock_sync_blocked : ClockSyncAction → Bool
clock_sync_blocked sync = false
clock_sync_blocked _ = true

unfoldable pub clock_sync_warns : ClockSyncAction → Bool
clock_sync_warns warn_no_time_id = true
clock_sync_warns warn_no_source = true
clock_sync_warns _ = false

-- A sync runs just with a clock that is configured and set; else it is blocked, with a warning just
-- where no clock is configured or the grace time is over.
pub clock_sync_gate :
    (has_time_id wall_clock_set : Bool) (uptime_ms grace_ms : ℕ)
    → (clock_sync_blocked (clock_sync_action has_time_id wall_clock_set uptime_ms grace_ms)
        ≡ not (has_time_id && wall_clock_set))
      × (clock_sync_warns (clock_sync_action has_time_id wall_clock_set uptime_ms grace_ms)
          ≡ not has_time_id || (not wall_clock_set && leb grace_ms uptime_ms))
unfolding clock_sync_action clock_sync_blocked clock_sync_warns
clock_sync_gate has_time_id wall_clock_set uptime_ms grace_ms = (ground arith, ground arith)

pub data SubscribeOutcome : Type 0 where
  ok no_client no_service no_characteristic register_failed cccd_write_failed : SubscribeOutcome

unfoldable pub subscribe_failed : SubscribeOutcome → Bool
subscribe_failed ok = false
subscribe_failed _ = true

unfoldable pub subscribe_outcome_blocks_session : SubscribeOutcome → Bool
subscribe_outcome_blocks_session no_client = true
subscribe_outcome_blocks_session no_service = true
subscribe_outcome_blocks_session no_characteristic = true
subscribe_outcome_blocks_session register_failed = true
subscribe_outcome_blocks_session _ = false

unfoldable pub subscribe_outcome_holds_fault : SubscribeOutcome → Bool
unfolding subscribe_outcome_blocks_session
subscribe_outcome_holds_fault o = subscribe_outcome_blocks_session o

-- A null pointer is `none`, else the six bytes behind it.
unfoldable pub gap_addr_is_set : Option (List ℕ) → Bool
gap_addr_is_set none = false
gap_addr_is_set (some addr) = any_set addr
  where
    any_set : List ℕ → Bool
    any_set [] = false
    any_set (b ∷ bytes) = not (b == 0) || any_set bytes

unfoldable pub same_bytes : List ℕ → List ℕ → Bool
same_bytes [] [] = true
same_bytes (a ∷ as_) (b ∷ bs) = (a == b) && same_bytes as_ bs
same_bytes _ _ = false

unfoldable pub gap_addr_matches : Option (List ℕ) → Option (List ℕ) → Bool
unfolding gap_addr_is_set same_bytes
gap_addr_matches event_addr peer_addr =
    if not (gap_addr_is_set peer_addr) then false else elim event_addr [
      | none ↦ false
      | some event ↦ elim peer_addr [ none ↦ false | some peer ↦ same_bytes event peer ]
    ]

pub data GapSecurityAction : Type 0 where
  accept decline ignore : GapSecurityAction

unfoldable pub gap_security_action : Bool → Bool → GapSecurityAction
gap_security_action addr_is_ours pairing_enabled =
    if not addr_is_ours then ignore else if pairing_enabled then accept else decline

same_bytes_refl : (bytes : List ℕ) → same_bytes bytes bytes ≡ true
unfolding same_bytes
same_bytes_refl [] = refl
same_bytes_refl (b ∷ bytes) = ground (arith, same_bytes_refl bytes)

same_bytes_eq : (xs ys : List ℕ) → same_bytes xs ys ≡ true → xs ≡ ys
unfolding same_bytes
same_bytes_eq [] [] h = refl
same_bytes_eq [] (y ∷ ys) h = ground arith
same_bytes_eq (x ∷ xs) [] h = ground arith
same_bytes_eq (x ∷ xs) (y ∷ ys) h = ground (arith, same_bytes_eq xs ys)

-- A pairing request is accepted just where pairing is enabled, the own peer's address is known, not
-- all zeros, and is that of the request.
pub gap_security_accepts :
    (event peer : List ℕ) (pairing_enabled : Bool)
    → (gap_security_action (gap_addr_matches (some event) (some peer)) pairing_enabled ≡ accept)
      ↔ ((event ≡ peer) × (gap_addr_is_set (some peer) ≡ true) × (pairing_enabled ≡ true))
unfolding gap_security_action gap_addr_matches
gap_security_accepts event peer pairing_enabled =
    ground (arith, same_bytes_eq event peer, same_bytes_refl peer)

pub record PumpScheduleTarget : Type 0 where
  pub pump_enabled : Bool
  pub schedule_enabled : Bool

unfoldable pub engage_pump_display : Bool → Bool → Bool
engage_pump_display pump_auto schedule_on = pump_auto && not schedule_on

unfoldable pub is_dead_schedule : Bool → Bool → Bool → Bool
is_dead_schedule pump_auto schedule_on stop_event_active =
    schedule_on && not pump_auto && not stop_event_active

abbrev target : Bool → Bool → PumpScheduleTarget
target pump schedule = record { pump_enabled = pump; schedule_enabled = schedule }

unfoldable pub parse_pump_state : String → Option PumpScheduleTarget
parse_pump_state s =
    if str_eq s "off"
    then some (target false false)
    else if str_eq s "engaged"
    then some (target true false)
    else if str_eq s "scheduled"
    then some (target true true)
    else none

unfoldable pub state_name : Bool → Bool → String
state_name pump_auto schedule_on =
    if not pump_auto then "off" else if schedule_on then "scheduled" else "engaged"

unfoldable pub run_state_display : Bool → Bool → Bool → String
unfolding is_dead_schedule state_name
run_state_display pump_auto schedule_on stop_event_active =
    if is_dead_schedule pump_auto schedule_on stop_event_active
    then "stalled"
    else state_name pump_auto schedule_on

-- The name of each state is read as the target that leads to it, and no target that is named leaves a
-- dead schedule: a target has its schedule on only with the pump on.
pub parse_pump_state-state_name :
    (pump_auto schedule_on : Bool)
    → (parse_pump_state (state_name pump_auto schedule_on)
        ≡ some (record { pump_enabled = pump_auto; schedule_enabled = pump_auto && schedule_on }))
      × (is_dead_schedule pump_auto (pump_auto && schedule_on) false ≡ false)
      × (run_state_display pump_auto (pump_auto && schedule_on) false
          ≡ state_name pump_auto schedule_on)
unfolding parse_pump_state state_name is_dead_schedule run_state_display
parse_pump_state-state_name true true = (refl, refl, refl)
parse_pump_state-state_name true false = (refl, refl, refl)
parse_pump_state-state_name false true = (refl, refl, refl)
parse_pump_state-state_name false false = (refl, refl, refl)
