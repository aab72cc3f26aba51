-- ===== src/Link/Stall.antt =====
-- pairing_stall.h: a pump that drops the link again and again before anything got through.
use esphome_alpha_hwr.Base.{
  ℕ, suc, ◌+◌, ◌-◌, ◌%◌, ◌≡◌, min, Bool, true, false, not, ◌&&◌, ◌||◌, List, [], ◌∷◌, arith, length,
  ltb, leb, ◌==◌, if◌then◌else◌, u8,
}

abbrev pub pairing_stall_cycles : ℕ
pairing_stall_cycles = 3

abbrev pub pairing_stall_reminder_cycles : ℕ
pairing_stall_reminder_cycles = 12

unfoldable pub disconnect_reason_is_link_loss : ℕ → Bool
disconnect_reason_is_link_loss reason =
    (reason == 0x0001)
    || (reason == 0x0008)
    || (reason == 0x0016)
    || (reason == 0x0022)
    || (reason == 0x003e)
    || (reason == 0x0100)

pub record PairingStallDetector : Type 0 where
  pub saw_open : Bool
  pub progress : Bool
  pub consecutive : ℕ
  pub since_report : ℕ

abbrev pub fresh_detector : PairingStallDetector
fresh_detector = record { saw_open = false; progress = false; consecutive = 0; since_report = 0 }

unfoldable pub note_progress : PairingStallDetector → PairingStallDetector
note_progress d = record d { progress = true; consecutive = 0 }

unfoldable pub on_connection_opened : Bool → PairingStallDetector → PairingStallDetector
unfolding note_progress
on_connection_opened bonded_at_open d =
    let d' : PairingStallDetector = record d { saw_open = true; progress = false } in
    if bonded_at_open then note_progress d' else d'

unfoldable pub note_security_request : PairingStallDetector → PairingStallDetector
unfolding note_progress
note_security_request d = note_progress d

unfoldable pub note_bond_established : PairingStallDetector → PairingStallDetector
unfolding note_progress
note_bond_established d = note_progress d

unfoldable pub note_data : PairingStallDetector → PairingStallDetector
unfolding note_progress
note_data d = note_progress d

unfoldable pub note_local_teardown : PairingStallDetector → PairingStallDetector
note_local_teardown d = record d { progress = true }

-- The new state, and whether to report.
unfoldable pub on_disconnected : ℕ → PairingStallDetector → PairingStallDetector × Bool
unfolding disconnect_reason_is_link_loss
on_disconnected reason d =
    let d' : PairingStallDetector = record d { saw_open = false } in
    let n = if ltb d.consecutive 255 then d.consecutive + 1 else d.consecutive in
    let since = u8 (d.since_report + 1) in
    if not d.saw_open
    then (d, false)
    else if d.progress || disconnect_reason_is_link_loss reason
    then (record d' { consecutive = 0; since_report = 0 }, false)
    else if ltb n pairing_stall_cycles
    then (record d' { consecutive = n }, false)
    else if n == pairing_stall_cycles
    then (record d' { consecutive = n }, true)
    else if leb pairing_stall_reminder_cycles since
    then (record d' { consecutive = n; since_report = 0 }, true)
    else (record d' { consecutive = n; since_report = since }, false)

unfoldable pub stalled : PairingStallDetector → Bool
stalled d = leb pairing_stall_cycles d.consecutive

-- A cycle in which the peer ends the link and nothing got through.
abbrev pub silent_cycle : ℕ → PairingStallDetector → PairingStallDetector × Bool
silent_cycle reason d = on_disconnected reason (on_connection_opened false d)

-- Such cycles, one for each reason.
abbrev pub silent_cycles : List ℕ → PairingStallDetector → PairingStallDetector
silent_cycles [] d = d
silent_cycles (reason ∷ reasons) d = silent_cycles reasons (silent_cycle reason d).0

abbrev pub PeerEnds : List ℕ → Type 0
PeerEnds [] = Unit
PeerEnds (reason ∷ reasons) = (disconnect_reason_is_link_loss reason ≡ false) × PeerEnds reasons

-- The counters after `n` cycles.
pub record After (n : ℕ) (d : PairingStallDetector) : Type 0 where
  pub counted : d.consecutive ≡ min n 255
  pub reminded : d.since_report ≡ (n - 3) % 12

silent_cycle-After :
    (n reason : ℕ) (d : PairingStallDetector)
    → disconnect_reason_is_link_loss reason ≡ false
    → After n d
    → After (suc n) (silent_cycle reason d).0
unfolding on_disconnected on_connection_opened
silent_cycle-After n reason d h a = ground arith

silent_cycle_reports :
    (n reason : ℕ) (d : PairingStallDetector)
    → disconnect_reason_is_link_loss reason ≡ false
    → After n d
    → (silent_cycle reason d).1 ≡ leb 2 n && ((n - 2) % 12 == 0)
unfolding on_disconnected on_connection_opened
silent_cycle_reports n reason d h a = ground arith

silent_cycles-After :
    (reasons : List ℕ) (n : ℕ) (d : PairingStallDetector)
    → PeerEnds reasons
    → After n d
    → After (length reasons + n) (silent_cycles reasons d)
silent_cycles-After [] n d h a = ground (arith, a)
silent_cycles-After (reason ∷ reasons) n d h a =
    let later =
      silent_cycles-After reasons (suc n) (silent_cycle reason d).0 h.1
        (silent_cycle-After n reason d h.0 a) in
    ground (arith, later)

pub fresh_detector-After : After 0 fresh_detector
fresh_detector-After = record { counted = omega arith; reminded = omega arith }

-- A cycle in which data arrived starts the count again, whatever was before.
pub on_disconnected-After :
    (reason : ℕ) (bonded : Bool) (d : PairingStallDetector)
    → After 0 (on_disconnected reason (note_data (on_connection_opened bonded d))).0
unfolding on_disconnected note_data on_connection_opened note_progress
on_disconnected-After reason bonded d = ground arith

-- From a detector that counts nothing, cycles in which the peer ends the link and nothing got through
-- are reported just at the third one in a row and at each twelfth after it, without an end, also where
-- the counter of 8 bits has stopped.
pub silent_cycles_report :
    (reasons : List ℕ) (reason : ℕ) (d : PairingStallDetector)
    → PeerEnds reasons
    → disconnect_reason_is_link_loss reason ≡ false
    → After 0 d
    → (silent_cycle reason (silent_cycles reasons d)).1
      ≡ leb 2 (length reasons) && ((length reasons - 2) % 12 == 0)
silent_cycles_report reasons reason d h r a =
    silent_cycle_reports (length reasons) reason (silent_cycles reasons d) r
      (ground (arith, silent_cycles-After reasons 0 d h a))
