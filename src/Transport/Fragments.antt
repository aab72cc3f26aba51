-- ===== src/Transport/Fragments.antt =====
-- How a telegram is cut into notifications does not matter.
use esphome_alpha_hwr.Base.{
  ℕ, ◌+◌, ◌≤◌, ◌<◌, ◌≡◌, refl, sym, ap, ◌∙◌, true, false, List, [], ◌∷◌, ◌++◌, some, arith, length,
  length-append, append_assoc, append-nil, ltb, if◌then◌else◌, sub_u32, get_or-append_left,
}
use esphome_alpha_hwr.Codec.{byte_at}
use esphome_alpha_hwr.Frame.Layout.{response_start}
use esphome_alpha_hwr.Transport.State.{Transport, React}
use esphome_alpha_hwr.Transport.Receive.{
  calculate_expected_length, drop_stale, take_fragment, complete_frame, check_complete,
  on_notification,
}

-- The transport in the middle of a reassembly that began at `started` and holds `bytes`.
abbrev pub holding : ℕ → List ℕ → Transport → Transport
holding started bytes t = record t {
  reassembling = true;
  buffer = bytes;
  reassembly_started_ms = started;
  expected_len = calculate_expected_length bytes;
}

-- Notifications one after the other, each with its time.
abbrev pub receive : React → List (ℕ × List ℕ) → Transport → Transport
receive react [] t = t
receive react ((now, bytes) ∷ more) t = receive react more (on_notification react now bytes t)

abbrev pub joined : List (ℕ × List ℕ) → List ℕ
joined [] = []
joined ((now, bytes) ∷ more) = bytes ++ joined more

abbrev pub last_time : ℕ → List (ℕ × List ℕ) → ℕ
last_time now [] = now
last_time now ((later, bytes) ∷ more) = last_time later more

-- No fragment is empty, and each comes at most a second after the first.
abbrev pub InTime : ℕ → List (ℕ × List ℕ) → Type 0
InTime started [] = Unit
InTime started ((now, bytes) ∷ more) =
    (0 < length bytes) × (sub_u32 now started ≤ 1000) × InTime started more

-- A telegram of the pump: its start byte, and the length that its second byte gives.
pub record IsTelegram (f : List ℕ) : Type 0 where
  pub starts : byte_at f 0 ≡ response_start
  pub possible : 4 ≤ byte_at f 1
  pub declared : byte_at f 1 + 4 ≡ length f
  pub fits : length f ≤ 259

byte_at-append : (xs ys : List ℕ) (i : ℕ) → i < length xs → byte_at (xs ++ ys) i ≡ byte_at xs i
byte_at-append xs ys i h = get_or-append_left xs ys i 0 h

pub calculate_expected_length_of :
    (bytes : List ℕ)
    → calculate_expected_length bytes ≡ (if ltb (length bytes) 2 then 0 else byte_at bytes 1 + 4)
unfolding calculate_expected_length
calculate_expected_length_of bytes = refl

module _ (react : React) (f : List ℕ) (tele : IsTelegram f) where
  -- One more fragment is appended.
  take_fragment-holding :
      (now started : ℕ) (held bytes : List ℕ) (t : Transport)
      → take_fragment now bytes (holding started held t) ≡ some (holding started (held ++ bytes) t)
  unfolding take_fragment
  take_fragment-holding now started held bytes t = ground (
    arith,
    calculate_expected_length_of held,
    calculate_expected_length_of (held ++ bytes),
    length-append held bytes,
    byte_at-append held bytes 1,
  )

  -- A part of the telegram that is not all of it waits for the rest.
  check_complete_part :
      (now started : ℕ) (held rest : List ℕ) (t : Transport)
      → held ++ rest ≡ f
      → 0 < length rest
      → check_complete react now (holding started held t) ≡ holding started held t
  unfolding check_complete
  check_complete_part now started held rest t e h = ground (
    arith,
    tele,
    calculate_expected_length_of held,
    length-append held rest,
    ap length e,
    byte_at-append held rest 1,
    ap (λ xs. byte_at xs 1) e,
  )

  check_complete_all :
      (now started : ℕ) (t : Transport)
      → check_complete react now (holding started f t)
        ≡ complete_frame react now (holding started f t)
  unfolding check_complete
  check_complete_all now started t = ground (arith, tele, calculate_expected_length_of f)

  drop_stale-holding :
      (now started : ℕ) (held : List ℕ) (t : Transport)
      → sub_u32 now started ≤ 1000
      → drop_stale now (holding started held t) ≡ holding started held t
  unfolding drop_stale
  drop_stale-holding now started held t h = ground arith

  on_notification-holding :
      (now started : ℕ) (held bytes : List ℕ) (t : Transport)
      → 0 < length bytes
      → sub_u32 now started ≤ 1000
      → on_notification react now bytes (holding started held t)
        ≡ check_complete react now (holding started (held ++ bytes) t)
  unfolding on_notification
  on_notification-holding now started held bytes t h early = ground (
    arith,
    drop_stale-holding now started held t early,
    take_fragment-holding now started held bytes t,
    ap (take_fragment now bytes) (drop_stale-holding now started held t early),
  )

  receive_rest :
      (now started : ℕ) (held bytes : List ℕ) (more : List (ℕ × List ℕ)) (t : Transport)
      → held ++ (bytes ++ joined more) ≡ f
      → InTime started ((now, bytes) ∷ more)
      → receive react ((now, bytes) ∷ more) (holding started held t)
        ≡ complete_frame react (last_time now more) (holding started f t)
  receive_rest now started held bytes [] t e h =
      on_notification-holding now started held bytes t h.0 h.1
      ∙ ap (λ xs. check_complete react now (holding started xs t))
          (ap (◌++◌ held) (sym (append-nil bytes)) ∙ e)
      ∙ check_complete_all now started t
  receive_rest now started held bytes ((later, next) ∷ more) t e h =
      ap (receive react ((later, next) ∷ more)) (
        on_notification-holding now started held bytes t h.0 h.1
        ∙ check_complete_part now started (held ++ bytes) (next ++ joined more) t behind
            (omega (arith, length-append next (joined more), h.2.0)))
      ∙ receive_rest later started (held ++ bytes) next more t behind h.2
    where
      behind : (held ++ bytes) ++ (next ++ joined more) ≡ f
      behind = append_assoc held bytes (next ++ joined more) ∙ e

  -- The first fragment starts the reassembly.
  on_notification_first :
      (now : ℕ) (bytes rest : List ℕ) (t : Transport)
      → bytes ++ rest ≡ f
      → 0 < length bytes
      → t.reassembling ≡ false
      → t.expected_len ≡ 0
      → on_notification react now bytes t ≡ check_complete react now (holding now bytes t)
  unfolding on_notification drop_stale take_fragment
  on_notification_first now bytes rest t e h idle none_expected = ground (
    arith,
    tele,
    calculate_expected_length_of bytes,
    byte_at-append bytes rest 0,
    byte_at-append bytes rest 1,
    ap (λ xs. byte_at xs 0) e,
    ap (λ xs. byte_at xs 1) e,
  )

  -- A telegram that arrives outside a reassembly, cut into fragments in any way, none empty and each
  -- at most a second behind the first, is completed just once, by the last fragment, with all its
  -- bytes in the buffer; the fragments before it change nothing but the buffer.
  pub receive-complete_frame :
      (now : ℕ) (bytes : List ℕ) (more : List (ℕ × List ℕ)) (t : Transport)
      → t.reassembling ≡ false
      → t.expected_len ≡ 0
      → 0 < length bytes
      → InTime now more
      → bytes ++ joined more ≡ f
      → receive react ((now, bytes) ∷ more) t
        ≡ complete_frame react (last_time now more) (holding now f t)
  receive-complete_frame now bytes [] t idle none_expected h timely e =
      on_notification_first now bytes [] t e h idle none_expected
      ∙ ap (λ xs. check_complete react now (holding now xs t)) (sym (append-nil bytes) ∙ e)
      ∙ check_complete_all now now t
  receive-complete_frame now bytes ((later, next) ∷ more) t idle none_expected h timely e =
      ap (receive react ((later, next) ∷ more)) (
        on_notification_first now bytes (next ++ joined more) t e h idle none_expected
        ∙ check_complete_part now now bytes (next ++ joined more) t e
            (omega (arith, length-append next (joined more), timely.0)))
      ∙ receive_rest later now bytes next more t e timely
