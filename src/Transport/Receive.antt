-- ===== src/Transport/Receive.antt =====
-- `on_notification`: fragments are put together to telegrams. `now` stands for each call of `millis()`
-- within one notification.
use esphome_alpha_hwr.Base.{
  ℕ, ◌+◌, Bool, true, false, not, ◌&&◌, ◌||◌, List, [], ◌∷◌, ◌++◌, Option, none, some, ltb, leb,
  ◌==◌, if◌then◌else◌, length, take, sub_u32,
}
use esphome_alpha_hwr.Codec.{byte_at}
use esphome_alpha_hwr.Frame.Layout.{response_start, max_telegram_len, min_length_field}
use esphome_alpha_hwr.Frame.Parser.{frame_crc_valid}
use esphome_alpha_hwr.Transport.State.{Transport, delivered, React, reassembly_timeout_ms}
use esphome_alpha_hwr.Transport.Dispatch.{try_dispatch_response}

abbrev pub is_frame_start : ℕ → Bool
is_frame_start byte = byte == response_start

unfoldable pub calculate_expected_length : List ℕ → ℕ
calculate_expected_length buffer = if ltb (length buffer) 2 then 0 else byte_at buffer 1 + 4

-- The three assignments that end a reassembly.
unfoldable pub stop_reassembly : Transport → Transport
stop_reassembly t = record t { reassembling = false; buffer = []; expected_len = 0 }

unfoldable pub drop_stale : ℕ → Transport → Transport
unfolding stop_reassembly
drop_stale now t =
    if t.reassembling && ltb reassembly_timeout_ms (sub_u32 now t.reassembly_started_ms)
    then stop_reassembly t
    else t

abbrev pub declares_a_possible_frame : List ℕ → Bool
declares_a_possible_frame bytes =
    if leb 2 (length bytes) then leb min_length_field (byte_at bytes 1) else true

-- The fragment is taken into the buffer; `none` where it is ignored.
unfoldable pub take_fragment : ℕ → List ℕ → Transport → Option Transport
unfolding calculate_expected_length
take_fragment now bytes t =
    let joined = t.buffer ++ bytes in
    if is_frame_start (byte_at bytes 0) && declares_a_possible_frame bytes && not t.reassembling
    then some (record t {
      buffer = bytes;
      reassembling = true;
      reassembly_started_ms = now;
      expected_len =
          if leb 2 (length bytes) then calculate_expected_length bytes else t.expected_len;
    })
    else if t.reassembling
    then some (record t {
      buffer = joined;
      expected_len =
          if (t.expected_len == 0) && leb 2 (length joined)
          then calculate_expected_length joined
          else t.expected_len;
    })
    else none

-- The bytes of the telegram at the head of the buffer.
unfoldable pub frame_len_of : Transport → ℕ
frame_len_of t =
    if leb 4 t.expected_len && ltb t.expected_len (length t.buffer)
    then t.expected_len
    else length t.buffer

module _ (react : React) where
  -- A complete telegram is dropped, answers something, or goes to the packet callback.
  unfoldable pub complete_frame : ℕ → Transport → Transport
  complete_frame now t =
      let frame = take (frame_len_of t) t.buffer in
      let (t', dispatched) = try_dispatch_response react now frame t in
      if not (frame_crc_valid t.buffer (frame_len_of t))
      then stop_reassembly (record t {
        crc_drops = if ltb t.crc_drops 0xffffffff then t.crc_drops + 1 else t.crc_drops;
      })
      else stop_reassembly (
          if not dispatched && t'.has_packet_callback
          then record t' { log = delivered frame ∷ t'.log }
          else t')

  -- From the overflow check on.
  unfoldable pub check_complete : ℕ → Transport → Transport
  check_complete now t =
      let size = length t.buffer in
      let still_incomplete = (t.expected_len == 0) || ltb size t.expected_len in
      if ltb max_telegram_len size && still_incomplete
      then stop_reassembly t
      else if t.reassembling && ltb 0 t.expected_len && leb t.expected_len size
      then complete_frame now t
      else t

  unfoldable pub on_notification : ℕ → List ℕ → Transport → Transport
  on_notification now bytes t =
      let t' = drop_stale now t in
      if length bytes == 0
      then t
      else elim (take_fragment now bytes t') [ none ↦ t' | some u ↦ check_complete now u ]
