-- ===== src/Transport/Examples.antt =====
-- Runs of the transport on a register read of class 3 and its answer.
use esphome_alpha_hwr.Base.{
  ℕ, ◌+◌, ◌≤◌, ◌≡◌, refl, arith, true, false, List, [], ◌∷◌, ◌++◌, none, some, length, replicate,
  drop, ltb, if◌then◌else◌, ◌&&◌, ◌||◌, not, ◌==◌, leb,
}
use esphome_alpha_hwr.Codec.{byte_at}
use esphome_alpha_hwr.Frame.Match.{
  is_wildcard_matched_class, class_wildcard_matches, ignore_unrelated_while_awaiting_wildcard_class,
  apdu_payload_len, apdu_is_set, apdu_op,
}
use esphome_alpha_hwr.Transport.State.{
  Command, idle, awaiting_response, settled, Transport, React, new,
}
use esphome_alpha_hwr.Transport.Queue.{Request, command, send_command, reset}
use esphome_alpha_hwr.Transport.Dispatch.{
  queued_class, is_wildcard, short_ack_shape, short_read_refusal_shape, short_reply, type_matches,
  data_object_payload, finish, answer, answer_short, answer_data_object, try_dispatch_response,
}
use esphome_alpha_hwr.Transport.Loop.{
  has_callback, chunk_of, chunk_sent, send_chunk, start_command, step, loop,
}
use esphome_alpha_hwr.Transport.Receive.{complete_frame, on_notification}
use esphome_alpha_hwr.Transport.Order.{Keeps}
use esphome_alpha_hwr.Transport.Fifo.{loop-Keeps}
use esphome_alpha_hwr.Transport.Claims.{on_notification-Keeps}
use esphome_alpha_hwr.Transport.WellFormed.{WellFormed}
use esphome_alpha_hwr.Transport.Reach.{created, ticked, sent, was_reset, Reachable-WellFormed}
use esphome_alpha_hwr.Transport.Abandon.{
  Cleared, calls, silent, refusals, reset-Cleared, reset-refusals,
}
use esphome_alpha_hwr.Transport.Fragments.{IsTelegram, receive, holding, receive-complete_frame}
use esphome_alpha_hwr.Transport.Sending.{written, ticks, sending, out_at, ticks-written}
use esphome_alpha_hwr.Codec.{crc_table, crc_step, calc_crc16, calc_crc16_read, decode_uint16_be}
use esphome_alpha_hwr.Frame.Parser.{frame_crc_valid}
use esphome_alpha_hwr.Transport.Exchange.{Settled, receive-Settled}
use esphome_alpha_hwr.Transport.Verdict.{bears_type, is_object_91_reply, answer_by_type}
use esphome_alpha_hwr.Transport.Debt.{owing, dispatch_all, dispatch_all-owing}
use esphome_alpha_hwr.Transport.Timeout.{waiting_for, is_late, loop_waiting}

runs : Unit {0}
unfolding new command send_command loop step start_command send_chunk chunk_sent chunk_of
runs = tt

abbrev read_class3 : List ℕ
read_class3 = 0x27 ∷ 0x05 ∷ 0xe7 ∷ 0xf8 ∷ 0x03 ∷ 0x01 ∷ 0x02 ∷ 0xbe ∷ 0x9b ∷ []

abbrev any_answer : Request
any_answer = record {
  expect_type_low_ver = 0;
  expect_type_high = 0;
  callback = some 1;
  timeout_ms = 3000;
  allow_register_read = false;
  expect_short_ack = false;
  expect_short_read_refusal = false;
}

-- A client that sends one more read whenever it is told something.
abbrev insists : React
insists id verdict bytes = command read_class3 any_answer ∷ []

abbrev one_waits : Transport
one_waits = send_command read_class3 any_answer new

abbrev one_is_out : Transport
one_is_out = loop insists 100 true one_waits

loop-Keeps_example : Keeps one_is_out (loop insists 4000 true one_is_out)
loop-Keeps_example = loop-Keeps insists 4000 true one_is_out

abbrev reply_class3 : List ℕ
reply_class3 = 0x24 ∷ 0x05 ∷ 0xf8 ∷ 0xe7 ∷ 0x03 ∷ 0x01 ∷ 0x02 ∷ 0x00 ∷ 0x00 ∷ []

on_notification-Keeps_example :
    Keeps one_is_out (on_notification insists 200 reply_class3 one_is_out)
on_notification-Keeps_example = on_notification-Keeps insists 200 reply_class3 one_is_out

-- The answer to the register read, with its checksum, in three fragments.
abbrev answer_class3 : List ℕ
answer_class3 = 0x24 ∷ 0x05 ∷ 0xf8 ∷ 0xe7 ∷ 0x03 ∷ 0x01 ∷ 0x02 ∷ 0x00 ∷ 0x00 ∷ []

answer_class3-IsTelegram : IsTelegram answer_class3
answer_class3-IsTelegram = record {
  starts = refl;
  possible = omega arith;
  declared = omega arith;
  fits = omega arith;
}

one_is_out-quiet : (one_is_out.reassembling ≡ false) × (one_is_out.expected_len ≡ 0)
unfolding runs
one_is_out-quiet = (refl, refl)

receive-complete_frame_example :
    receive insists
      ((200, 0x24 ∷ [])
        ∷ (210, 0x05 ∷ 0xf8 ∷ 0xe7 ∷ [])
        ∷ (220, 0x03 ∷ 0x01 ∷ 0x02 ∷ 0x00 ∷ 0x00 ∷ [])
        ∷ [])
      one_is_out
    ≡ complete_frame insists 220 (holding 200 answer_class3 one_is_out)
receive-complete_frame_example =
    receive-complete_frame insists answer_class3 answer_class3-IsTelegram 200 (0x24 ∷ [])
      ((210, 0x05 ∷ 0xf8 ∷ 0xe7 ∷ []) ∷ (220, 0x03 ∷ 0x01 ∷ 0x02 ∷ 0x00 ∷ 0x00 ∷ []) ∷ [])
      one_is_out one_is_out-quiet.0 one_is_out-quiet.1 (omega arith) (omega arith) refl

Reachable-WellFormed_example : WellFormed (reset insists one_is_out)
Reachable-WellFormed_example =
    Reachable-WellFormed insists (reset insists one_is_out)
      (was_reset one_is_out (ticked 100 true one_waits (sent read_class3 any_answer new created)))

one_is_out-awake : (one_is_out.abandoning ≡ false) × (length one_is_out.queue ≤ 512)
unfolding runs
one_is_out-awake = (refl, omega arith)

reset-Cleared_example :
    Cleared (reset insists one_is_out) × (calls (reset insists one_is_out) ≤ calls one_is_out + 512)
reset-Cleared_example = reset-Cleared insists one_is_out one_is_out-awake.0

reset-refusals_example : (reset silent one_is_out).log ≡ refusals one_is_out.queue one_is_out.log
reset-refusals_example = reset-refusals one_is_out one_is_out-awake.0 one_is_out-awake.1

-- A packet of 30 bytes takes two chunks.
abbrev long_read : Command
long_read = command (replicate 30 7) any_answer

long_read-owned : has_callback long_read ≡ true
unfolding runs
long_read-owned = refl

ticks-written_example :
    (written (ticks insists (100 ∷ 150 ∷ []) (sending 0 long_read [] new)).log
      ≡ written new.log ++ drop 0 long_read.packet)
    × ((ticks insists (100 ∷ 150 ∷ []) (sending 0 long_read [] new)).state ≡ awaiting_response)
    × ((ticks insists (100 ∷ 150 ∷ []) (sending 0 long_read [] new)).queue
        ≡ out_at 150 long_read ∷ [])
unfolding runs
ticks-written_example =
    ticks-written insists long_read [] long_read-owned 100 (150 ∷ []) 0 new refl (omega arith)
      (omega arith) (omega arith)

long_class3 : (is_wildcard_matched_class (queued_class (command read_class3 any_answer)) ≡ true)
unfolding runs queued_class is_wildcard_matched_class
long_class3 = refl

-- A read of object 91, sub-object 430.
abbrev object_read : Command
object_read =
    command (0x27 ∷ 0x07 ∷ 0xe7 ∷ 0xf8 ∷ 0x0a ∷ 0x03 ∷ 0x5b ∷ 0x01 ∷ 0xae ∷ 0 ∷ 0 ∷ [])
      (record any_answer { expect_type_low_ver = 91; expect_type_high = 430 })

object_read-typed :
    (queued_class object_read ≡ 10)
    × (is_wildcard object_read ≡ false)
    × (object_read.expect_short_read_refusal ≡ false)
unfolding runs queued_class
object_read-typed = (refl, refl, refl)

-- The answer to it, with 0 in the place of the high part of its type.
abbrev object_answer : List ℕ
object_answer = 0x24 ∷ 0x09 ∷ 0xf8 ∷ 0xe7 ∷ 0x0a ∷ 0x05 ∷ 0 ∷ 0 ∷ 0 ∷ 91 ∷ 0x11 ∷ 0x12 ∷ 0x13 ∷ []

object_answer_settles : (answer insists 200 object_read [] object_answer one_is_out).1 ≡ true
unfolding runs queued_class answer answer_short answer_data_object class_wildcard_matches
    ignore_unrelated_while_awaiting_wildcard_class is_wildcard_matched_class short_ack_shape
    short_read_refusal_shape type_matches apdu_payload_len decode_uint16_be
object_answer_settles = refl

answer_by_type_example : answer insists 200 object_read [] object_answer one_is_out ≡ (
    if leb 11 (length object_answer)
      && (byte_at object_answer 4 == 10)
      && (bears_type 430 91 object_answer || is_object_91_reply 430 91 object_answer)
    then (finish insists true (data_object_payload object_answer) one_is_out, true)
    else (one_is_out, false))
unfolding command
answer_by_type_example =
    answer_by_type insists 200 object_read [] object_answer one_is_out object_read-typed.0
      object_read-typed.1 object_read-typed.2 (omega arith)

-- A SET, and the acknowledge that fits it.
abbrev set_command : Command
set_command =
    command
      (0x27 ∷ 0x0a ∷ 0xe7 ∷ 0xf8 ∷ 0x0a ∷ 0x86 ∷ 0x01 ∷ 0xae ∷ 0 ∷ 0x5b ∷ 0x11 ∷ 0x22 ∷ 6 ∷ 0x13
        ∷ [])
      (record any_answer { expect_short_ack = true })

abbrev acknowledge : List ℕ
acknowledge = 0x24 ∷ 0x05 ∷ 0xf8 ∷ 0xe7 ∷ 0x0a ∷ 0x01 ∷ 0x00 ∷ 0x00 ∷ 0x00 ∷ []

acknowledge-fits : short_ack_shape set_command acknowledge ≡ true
unfolding runs short_ack_shape queued_class apdu_payload_len apdu_is_set apdu_op
acknowledge-fits = refl

abbrev late_acknowledge : List (ℕ × List ℕ)
late_acknowledge = (100, acknowledge) ∷ []

dispatch_all-owing_example :
    try_dispatch_response insists 120 acknowledge (
      dispatch_all insists late_acknowledge
        (owing 1 false set_command [] (record one_is_out { owed_since_ms = 50 })))
    ≡ (
      finish insists
          (short_reply acknowledge).ok
          (some acknowledge)
          (owing 0 true set_command [] (record one_is_out { owed_since_ms = 50 })),
      true,
    )
dispatch_all-owing_example =
    dispatch_all-owing insists set_command [] late_acknowledge 120 acknowledge
      (record one_is_out { owed_since_ms = 50 }) (acknowledge-fits, omega arith, tt)
      acknowledge-fits

loop_waiting_example :
    ((loop insists 9000 true (waiting_for 1 long_read [] new)).log
      ≡ (if is_late 9000 long_read then settled 1 false none ∷ new.log else new.log))
    × ((loop insists 9000 true (waiting_for 1 long_read [] new)).state
        ≡ (if is_late 9000 long_read then idle else awaiting_response))
    × ((loop insists 9000 true (waiting_for 1 long_read [] new)).queue ≡ (
        if is_late 9000 long_read
        then [] ++ insists 1 false none
        else (waiting_for 1 long_read [] new).queue))
    × ((loop insists 9000 true (waiting_for 1 long_read [] new)).owed_replies ≡ (
        if is_late 9000 long_read && not long_read.suppressed_a_frame && ltb new.owed_replies 255
        then new.owed_replies + 1
        else new.owed_replies))
loop_waiting_example = loop_waiting insists 9000 1 true long_read [] new

-- The answer with its right checksum.
abbrev sealed_answer : List ℕ
sealed_answer = 0x24 ∷ 0x05 ∷ 0xf8 ∷ 0xe7 ∷ 0x03 ∷ 0x01 ∷ 0x02 ∷ 0x10 ∷ 0x71 ∷ []

sealed_answer-IsTelegram : IsTelegram sealed_answer
sealed_answer-IsTelegram = record {
  starts = refl;
  possible = omega arith;
  declared = omega arith;
  fits = omega arith;
}

sealed_answer-good : frame_crc_valid sealed_answer 9 ≡ true
unfolding frame_crc_valid calc_crc16_read calc_crc16 crc_step crc_table decode_uint16_be
sealed_answer-good = refl

abbrev class3_read : Command
class3_read = command read_class3 any_answer

class3_read-class :
    (is_wildcard_matched_class (queued_class class3_read) ≡ true)
    × (byte_at sealed_answer 4 ≡ queued_class class3_read)
    × (is_wildcard class3_read ≡ true)
unfolding runs queued_class is_wildcard_matched_class
class3_read-class = (refl, refl, refl)

new-quiet : (new.reassembling ≡ false) × (new.expected_len ≡ 0)
unfolding runs
new-quiet = (refl, refl)

receive-Settled_example : Settled insists sealed_answer 1 [] new (
    receive insists
      ((200, 0x24 ∷ [])
        ∷ (210, 0x05 ∷ 0xf8 ∷ 0xe7 ∷ [])
        ∷ (220, 0x03 ∷ 0x01 ∷ 0x02 ∷ 0x10 ∷ 0x71 ∷ [])
        ∷ [])
      (waiting_for 1 class3_read [] new))
unfolding runs
receive-Settled_example =
    receive-Settled insists sealed_answer sealed_answer-IsTelegram 1 class3_read [] new 200
      (0x24 ∷ [])
      ((210, 0x05 ∷ 0xf8 ∷ 0xe7 ∷ []) ∷ (220, 0x03 ∷ 0x01 ∷ 0x02 ∷ 0x10 ∷ 0x71 ∷ []) ∷ [])
      new-quiet.0 new-quiet.1 (omega arith) (omega arith) refl sealed_answer-good
      class3_read-class.0 class3_read-class.1 class3_read-class.2
