-- ===== src/Transport/Dispatch.antt =====
-- `try_dispatch_response`: which command or handler a telegram answers. `frame` is the telegram, cut
-- to its declared length. Log lines are left out, and the values computed for them only.
use esphome_alpha_hwr.Base.{
  ℕ, ◌-◌, Bool, true, false, not, ◌&&◌, ◌||◌, List, [], ◌∷◌, Option, none, some, ltb, leb, ◌==◌,
  if◌then◌else◌, length, drop, take,
}
use esphome_alpha_hwr.Codec.{byte_at, decode_uint16_be}
use esphome_alpha_hwr.Frame.Match.{
  ShortClass10Reply, class_wildcard_matches, ignore_unrelated_while_awaiting_wildcard_class,
  apdu_payload_len, apdu_is_set, apdu_op, decode_short_class10_reply,
}
use esphome_alpha_hwr.Transport.State.{
  Command, PendingHandler, idle, awaiting_response, Event, handled, Transport, React,
  consume_owed_reply, stale_reply_possible,
}
use esphome_alpha_hwr.Transport.Queue.{complete_front_command}

unfoldable pub queued_class : Command → ℕ
queued_class cmd = if ltb 4 (length cmd.packet) then byte_at cmd.packet 4 else 0

abbrev pub is_wildcard : Command → Bool
is_wildcard cmd = (cmd.expect_type_low_ver == 0) && (cmd.expect_type_high == 0)

unfoldable pub short_ack_shape : Command → List ℕ → Bool
unfolding queued_class
short_ack_shape cmd frame =
    (queued_class cmd == 0x0a)
    && leb 6 (length frame)
    && (byte_at frame 4 == 0x0a)
    && leb (apdu_payload_len (byte_at frame 5)) 1
    && is_wildcard cmd
    && cmd.expect_short_ack
    && ltb 5 (length cmd.packet)
    && apdu_is_set (byte_at cmd.packet 5)

unfoldable pub short_read_refusal_shape : Command → List ℕ → Bool
unfolding queued_class
short_read_refusal_shape cmd frame =
    (queued_class cmd == 0x0a)
    && (byte_at frame 4 == 0x0a)
    && leb 8 (length frame)
    && leb (length frame) 9
    && cmd.expect_short_read_refusal
    && ltb 5 (length cmd.packet)
    && (apdu_op (byte_at cmd.packet 5) == 0)

-- `data[6]` where it exists, read with the length of the whole frame.
unfoldable pub short_reply : List ℕ → ShortClass10Reply
short_reply frame =
    decode_short_class10_reply (byte_at frame 5)
      (if leb 7 (length frame) then byte_at frame 6 else 0) (length frame)

-- The payload behind a Class 10 header, a null pointer on a shorter frame.
unfoldable pub data_object_payload : List ℕ → Option (List ℕ)
data_object_payload frame =
    if leb 12 (length frame) then some (take (length frame - 12) (drop 10 frame)) else none

abbrev pub is_register_read : ℕ → Bool
is_register_read opspec =
    (opspec == 0x30)
    || (opspec == 0x2b)
    || (opspec == 0x14)
    || (opspec == 0x2e)
    || (opspec == 0x2d)
    || (opspec == 0x09)

-- The head of the queue while it awaits its response, with what stands behind it.
unfoldable pub awaiting : Transport → Option (Command × List Command)
awaiting t = elim t.state [
  | awaiting_response ↦ elim t.queue [ [] ↦ none | cmd ∷ rest ↦ some (cmd, rest) ]
  | _ ↦ none
]

-- Does the frame carry the object type that the command waits for? The last disjunct is the
-- exception for Object 91.
unfoldable pub type_matches : Command → List ℕ → Bool
type_matches cmd frame =
    let opspec = byte_at frame 5 in
    let type_high = decode_uint16_be frame 6 in
    let type_low_ver = decode_uint16_be frame 8 in
    let matched =
      (if is_wildcard cmd && not cmd.expect_short_ack
        then true
        else (type_low_ver == cmd.expect_type_low_ver)
          && ((type_high == cmd.expect_type_high) || (type_high == 0))) in
    matched
    || ((cmd.expect_type_low_ver == 91)
        && leb 12 (length frame)
        && (((cmd.expect_type_high == 430) && (opspec == 0x15))
            || ((cmd.expect_type_high == 421) && (opspec == 0x0d))))

-- The first handler for the two ids, taken out of the list.
unfoldable pub take_handler :
    ℕ → ℕ → List PendingHandler → Option (PendingHandler × List PendingHandler)
take_handler object_id sub_id [] = none
take_handler object_id sub_id (h ∷ hs) =
    let later : Option (PendingHandler × List PendingHandler) =
      elim (take_handler object_id sub_id hs) [ none ↦ none | some (k, ks) ↦ some (k, h ∷ ks) ] in
    if (h.object_id == object_id) && (h.sub_id == sub_id) then some (h, hs) else later

-- The callback of a handler is a leaf: it is given the payload.
abbrev pub note_handled : Option ℕ → Option (List ℕ) → List Event → List Event
note_handled none payload log = log
note_handled (some id) payload log = handled id payload ∷ log

unfoldable pub dispatch_handlers : Transport → List ℕ → Transport × Bool
dispatch_handlers t frame =
    if ltb (length frame) 12
    then (t, false)
    else if not (byte_at frame 4 == 0x0a)
    then (t, false)
    else if is_register_read (byte_at frame 5)
    then (t, false)
    else elim (take_handler (decode_uint16_be frame 6) (decode_uint16_be frame 8) t.handlers) [
      | none ↦ (t, false)
      | some (h, hs) ↦ (
        record t { handlers = hs; log = note_handled h.callback (data_object_payload frame) t.log },
        true,
      )
    ]

module _ (react : React) where
  -- `complete_front_command_` and the return to IDLE.
  unfoldable pub finish : Bool → Option (List ℕ) → Transport → Transport
  finish verdict bytes t = record (complete_front_command react verdict bytes t) { state = idle }

  -- A short frame that answers a SET: first the replies still owed, then the two acknowledges.
  unfoldable pub answer_set : ℕ → Command → List Command → List ℕ → Transport → Transport × Bool
  answer_set now cmd rest frame t =
      let (t', stale) = stale_reply_possible now t in
      if stale
      then (consume_owed_reply cmd rest t', false)
      else (finish (short_reply frame).ok (some frame) t', true)

  -- A short frame that declines a GET. One that does not decline says nothing.
  unfoldable pub answer_refusal :
      ℕ → Command → List Command → List ℕ → Transport → Option (Transport × Bool)
  answer_refusal now cmd rest frame t =
      let (t', stale) = stale_reply_possible now t in
      if (short_reply frame).ok
      then none
      else if stale
      then some (consume_owed_reply cmd rest t', false)
      else some (finish false (some frame) t', true)

  -- What the first block returns, and `none` where it falls through.
  unfoldable pub answer_short :
      ℕ → Command → List Command → List ℕ → Transport → Option (Transport × Bool)
  answer_short now cmd rest frame t =
      if ltb (length frame) 5
      then none
      else if class_wildcard_matches (queued_class cmd) (byte_at frame 4) (is_wildcard cmd)
      then some (finish true (some frame) t, true)
      else if ignore_unrelated_while_awaiting_wildcard_class (queued_class cmd) (byte_at frame 4)
      then some (t, false)
      else if short_ack_shape cmd frame
      then some (answer_set now cmd rest frame t)
      else if short_read_refusal_shape cmd frame
      then answer_refusal now cmd rest frame t
      else none

  -- The Class 10 arm, for a frame of at least 11 bytes.
  unfoldable pub answer_data_object : Command → List ℕ → Transport → Transport × Bool
  answer_data_object cmd frame t =
      if not (byte_at frame 4 == 0x0a)
      then (t, false)
      else if is_register_read (byte_at frame 5) && is_wildcard cmd && not cmd.allow_register_read
      then (t, false)
      else if type_matches cmd frame
      then (finish true (data_object_payload frame) t, true)
      else (t, false)

  -- The answer to the awaited command.
  unfoldable pub answer : ℕ → Command → List Command → List ℕ → Transport → Transport × Bool
  answer now cmd rest frame t = elim (answer_short now cmd rest frame t) [
    | some r ↦ r
    | none ↦ if ltb (length frame) 11 then (t, false) else answer_data_object cmd frame t
  ]

  unfoldable pub try_dispatch_response : ℕ → List ℕ → Transport → Transport × Bool
  try_dispatch_response now frame t = elim (awaiting t) [
    | some (cmd, rest) ↦ answer now cmd rest frame t
    | none ↦ if ltb (length frame) 11 then (t, false) else dispatch_handlers t frame
  ]
