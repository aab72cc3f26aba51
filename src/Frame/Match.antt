-- ===== src/Frame/Match.antt =====
-- components/alpha_hwr/response_match.h: what a reply acknowledges, and which replies may answer a
-- command. The name tables for log lines are left out. `(x >> 6) & 3` and `x & 0x3f` are written by
-- `/` and `%`.
use esphome_alpha_hwr.Base.{
  ℕ, ◌+◌, ◌*◌, ◌/◌, ◌%◌, Bool, true, false, not, ◌&&◌, u8, u16, leb, ◌==◌, if◌then◌else◌,
}

unfoldable pub is_wildcard_matched_class : ℕ → Bool
is_wildcard_matched_class class_byte =
    if class_byte == 0x02
    then true
    else if class_byte == 0x03
    then true
    else if class_byte == 0x05
    then true
    else if class_byte == 0x07
    then true
    else class_byte == 0x0b

pub data ApduAck : Type 0 where
  ok unknown_class unknown_data_item illegal_operation : ApduAck

-- The enumerators by their values.
unfoldable pub apdu_ack : ℕ → ApduAck
apdu_ack head =
    let bits = head / 64 % 4 in
    if bits == 0
    then ok
    else if bits == 1
    then unknown_class
    else if bits == 2
    then unknown_data_item
    else illegal_operation

unfoldable pub apdu_payload_len : ℕ → ℕ
apdu_payload_len head = head % 64

abbrev ack_is_ok : ApduAck → Bool
ack_is_ok ok = true
ack_is_ok _ = false

unfoldable pub apdu_ack_is_ok : ℕ → Bool
unfolding apdu_ack
apdu_ack_is_ok head = ack_is_ok (apdu_ack head)

-- Class10Ack: OK, BUSY and OPERATION_FAILED.
abbrev pub class10_ok : ℕ
class10_ok = 0

abbrev pub class10_busy : ℕ
class10_busy = 2

abbrev pub class10_operation_failed : ℕ
class10_operation_failed = 4

unfoldable pub class10_reply_is_ok : ℕ → Bool → ℕ → Bool
unfolding apdu_ack_is_ok
class10_reply_is_ok head has_payload first_payload =
    if not (apdu_ack_is_ok head)
    then false
    else if not has_payload
    then true
    else first_payload == class10_ok

pub record ShortClass10Reply : Type 0 where
  pub head_ok : Bool
  pub has_payload : Bool
  pub class10_ack : ℕ
  pub ok : Bool

unfoldable pub decode_short_class10_reply : ℕ → ℕ → ℕ → ShortClass10Reply
unfolding apdu_ack_is_ok apdu_payload_len class10_reply_is_ok
decode_short_class10_reply head byte_after_head frame_len =
    let head_ok = apdu_ack_is_ok head in
    let has_payload = (apdu_payload_len head == 1) && leb 9 frame_len in
    let ack = if head_ok && has_payload then byte_after_head else 0 in
    record {
      head_ok = head_ok;
      has_payload = has_payload;
      class10_ack = ack;
      ok = class10_reply_is_ok head has_payload ack;
    }

-- ApduOp: GET is 0, SET is 2, INFO is 3.
unfoldable pub apdu_op : ℕ → ℕ
apdu_op head = head / 64 % 4

unfoldable pub apdu_is_set : ℕ → Bool
unfolding apdu_op
apdu_is_set head = apdu_op head == 2

unfoldable pub apdu_object_type : ℕ → ℕ → ℕ
apdu_object_type type_high type_low_ver = u16 (type_high % 256 * 256) + u16 (type_low_ver / 256)

unfoldable pub apdu_object_version : ℕ → ℕ
apdu_object_version type_low_ver = u8 type_low_ver

unfoldable pub class_wildcard_matches : ℕ → ℕ → Bool → Bool
unfolding is_wildcard_matched_class
class_wildcard_matches queued_class incoming_class wildcard_expect =
    if not (is_wildcard_matched_class incoming_class)
    then false
    else if not (incoming_class == queued_class)
    then false
    else wildcard_expect

unfoldable pub ignore_unrelated_while_awaiting_wildcard_class : ℕ → ℕ → Bool
unfolding is_wildcard_matched_class
ignore_unrelated_while_awaiting_wildcard_class queued_class incoming_class =
    if not (is_wildcard_matched_class queued_class)
    then false
    else not (is_wildcard_matched_class incoming_class)
