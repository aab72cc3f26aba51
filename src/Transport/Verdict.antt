-- ===== src/Transport/Verdict.antt =====
-- Which telegram settles which command, and with what verdict.
use esphome_alpha_hwr.Base.{
  ℕ, zero, suc, [], ◌∷◌, ◌≤◌, ◌≡◌, ◌+◌, ◌*◌, Bool, true, false, not, ◌&&◌, ◌||◌, List, some, arith,
  length, ltb, leb, ◌==◌, if◌then◌else◌, IsByte, All,
}
use esphome_alpha_hwr.Codec.{byte_at, decode_uint16_be}
use esphome_alpha_hwr.Frame.Match.{
  is_wildcard_matched_class, class_wildcard_matches, ignore_unrelated_while_awaiting_wildcard_class,
  apdu_payload_len, apdu_ack, apdu_ack_is_ok, class10_reply_is_ok, decode_short_class10_reply,
}
use esphome_alpha_hwr.Transport.State.{Command, Transport, React}
use esphome_alpha_hwr.Transport.Dispatch.{
  queued_class, is_wildcard, short_ack_shape, short_read_refusal_shape, short_reply,
  data_object_payload, type_matches, finish, answer_short, answer_data_object, answer,
}

-- The verdict of a short frame of class 10, written out: the two top bits of the head are the APDU's
-- acknowledge, and a payload of one byte, which only a frame of nine bytes has, must be 0.
pub short_reply_ok :
    (frame : List ℕ)
    → IsByte (byte_at frame 5)
    → (short_reply frame).ok
      ≡ ltb (byte_at frame 5) 64
        && (not ((byte_at frame 5 == 1) && leb 9 (length frame)) || (byte_at frame 6 == 0))
unfolding short_reply decode_short_class10_reply apdu_ack apdu_ack_is_ok apdu_payload_len
    class10_reply_is_ok
short_reply_ok frame h = ground arith

byte_at_lt : (frame : List ℕ) (i : ℕ) → All IsByte frame → IsByte (byte_at frame i)
byte_at_lt [] i h = omega arith
byte_at_lt (b ∷ frame) zero h = h.0
byte_at_lt (b ∷ frame) (suc i) h = byte_at_lt frame i h.1

-- Bytes 6 and 7 of a frame are the high part of its type, and bytes 8 and 9 the low part with the version.
-- The expected type is there with its high part or with 0 in its place.
unfoldable pub bears_type : (high low_ver : ℕ) → List ℕ → Bool
bears_type high low_ver frame =
    (byte_at frame 8 * 256 + byte_at frame 9 == low_ver)
    && ((byte_at frame 6 * 256 + byte_at frame 7 == high)
        || (byte_at frame 6 == 0) && (byte_at frame 7 == 0))

-- The exception for Object 91: a frame of at least twelve bytes whose sixth byte is the one of the object
-- that is read, whatever its type.
unfoldable pub is_object_91_reply : (high low_ver : ℕ) → List ℕ → Bool
is_object_91_reply high low_ver frame =
    leb 12 (length frame)
    && (low_ver == 91)
    && ((high == 430) && (byte_at frame 5 == 0x15) || (high == 421) && (byte_at frame 5 == 0x0d))

-- The test of `type_matches` for a command that is sent with a type, in the bytes of the frame.
bears_type_lem :
    (high low_ver : ℕ) (frame : List ℕ)
    → All IsByte frame
    → (decode_uint16_be frame 8 == low_ver)
        && ((decode_uint16_be frame 6 == high) || (decode_uint16_be frame 6 == 0))
      ≡ bears_type high low_ver frame
unfolding decode_uint16_be bears_type
bears_type_lem high low_ver frame bytes = ground (
  arith,
  byte_at_lt frame 6 bytes,
  byte_at_lt frame 7 bytes,
  byte_at_lt frame 8 bytes,
  byte_at_lt frame 9 bytes,
)

type_matches_bytes :
    (cmd : Command) (frame : List ℕ)
    → is_wildcard cmd ≡ false
    → All IsByte frame
    → type_matches cmd frame ≡ (
        bears_type cmd.expect_type_high cmd.expect_type_low_ver frame
        || is_object_91_reply cmd.expect_type_high cmd.expect_type_low_ver frame)
unfolding type_matches is_object_91_reply
type_matches_bytes cmd frame w bytes =
    rw (w, bears_type_lem cmd.expect_type_high cmd.expect_type_low_ver frame bytes) (ground arith)

module _ (react : React) (now : ℕ) (cmd : Command) (rest : List Command) (frame : List ℕ)
    (t : Transport) where
  -- A command of class 2, 3, 5, 7 or 11 succeeds with the first telegram of its own class if it is
  -- sent without a type, and no other telegram settles it or changes anything.
  pub answer_by_class :
      is_wildcard_matched_class (queued_class cmd) ≡ true
      → 5 ≤ length frame
      → answer react now cmd rest frame t ≡ (
          if (byte_at frame 4 == queued_class cmd) && is_wildcard cmd
          then (finish react true (some frame) t, true)
          else (t, false))
  unfolding answer answer_short answer_data_object class_wildcard_matches
      ignore_unrelated_while_awaiting_wildcard_class is_wildcard_matched_class short_ack_shape
      short_read_refusal_shape
  answer_by_class h len = ground arith

  answer_by_type_test :
      queued_class cmd ≡ 10
      → is_wildcard cmd ≡ false
      → cmd.expect_short_read_refusal ≡ false
      → answer react now cmd rest frame t ≡ (
          if leb 11 (length frame) && (byte_at frame 4 == 10) && type_matches cmd frame
          then (finish react true (data_object_payload frame) t, true)
          else (t, false))
  unfolding answer answer_short answer_data_object class_wildcard_matches
      ignore_unrelated_while_awaiting_wildcard_class is_wildcard_matched_class short_ack_shape
      short_read_refusal_shape
  answer_by_type_test q w r = ground arith

  -- A command of class 10 that is sent with a type, and that a short refusal may not answer, succeeds
  -- with the first telegram of class 10 that has at least 11 bytes and the expected type, where a high
  -- part of 0 fits every high part, or that the exception for Object 91 lets through; no other telegram
  -- settles it or changes anything.
  pub answer_by_type :
      queued_class cmd ≡ 10
      → is_wildcard cmd ≡ false
      → cmd.expect_short_read_refusal ≡ false
      → All IsByte frame
      → answer react now cmd rest frame t ≡ (
          if leb 11 (length frame)
            && (byte_at frame 4 == 10)
            && (bears_type cmd.expect_type_high cmd.expect_type_low_ver frame
                || is_object_91_reply cmd.expect_type_high cmd.expect_type_low_ver frame)
          then (finish react true (data_object_payload frame) t, true)
          else (t, false))
  answer_by_type q w r bytes =
      rw (← type_matches_bytes cmd frame w bytes) (answer_by_type_test q w r)
