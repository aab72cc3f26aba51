-- ===== src/Transport/WellFormed.antt =====
-- What every operation of the transport keeps: the fields that belong together agree.
use esphome_alpha_hwr.Base.{
  ℕ, ◌≤◌, ◌≡◌, refl, Bool, true, false, ◌&&◌, ◌||◌, List, [], ◌∷◌, ◌++◌, Option, arith, length,
  length-append, ltb, leb, ◌==◌, if◌then◌else◌,
}
use esphome_alpha_hwr.Transport.State.{
  Command, PendingHandler, State, idle, sending_chunks, awaiting_response, Transport, new,
  note_reply_owed, consume_owed_reply, stale_reply_possible,
}
use esphome_alpha_hwr.Transport.Queue.{
  Request, send_command, register_response_handler, young_handlers, check_timeouts,
}
use esphome_alpha_hwr.Transport.Loop.{has_callback}

-- The head of the queue in each state: a part of it is unsent while chunks are sent, and it was sent in
-- full, and has a callback, while its response is awaited.
abbrev pub head_fits : State → List Command → Bool
head_fits idle queue = true
head_fits sending_chunks [] = false
head_fits sending_chunks (cmd ∷ rest) = ltb cmd.bytes_sent (length cmd.packet)
head_fits awaiting_response [] = false
head_fits awaiting_response (cmd ∷ rest) =
    cmd.waiting_for_response && (cmd.bytes_sent == length cmd.packet) && has_callback cmd

-- Outside a reassembly nothing is buffered; inside, the buffer is not longer than a telegram, and
-- shorter than what it announces.
abbrev pub buffer_fits : Bool → ℕ → ℕ → Bool
buffer_fits reassembling size expected_len =
    if reassembling
    then leb size 259 && ((expected_len == 0) || ltb size expected_len)
    else (size == 0) && (expected_len == 0)

-- Replies are owed just while the mark says so, and their count fits a byte.
abbrev pub debt_fits : Bool → ℕ → Bool
debt_fits pending owed = if pending then ltb 0 owed && leb owed 255 else owed == 0

pub record WellFormed (t : Transport) : Type 0 where
  pub head : head_fits t.state t.queue ≡ true
  pub buffered : buffer_fits t.reassembling (length t.buffer) t.expected_len ≡ true
  pub debt : debt_fits t.owed_pending t.owed_replies ≡ true
  pub few_handlers : length t.handlers ≤ 10
  pub not_abandoning : t.abandoning ≡ false

pub new-WellFormed : WellFormed new
unfolding new
new-WellFormed = record {
  head = refl;
  buffered = refl;
  debt = refl;
  few_handlers = omega arith;
  not_abandoning = refl;
}

-- What is appended does not change the head.
pub head_fits-append :
    (s : State) (xs ys : List Command) → head_fits s xs ≡ true → head_fits s (xs ++ ys) ≡ true
head_fits-append idle xs ys h = refl
head_fits-append sending_chunks [] ys h = ground arith
head_fits-append sending_chunks (x ∷ xs) ys h = h
head_fits-append awaiting_response [] ys h = ground arith
head_fits-append awaiting_response (x ∷ xs) ys h = h

pub send_command-WellFormed :
    (packet : List ℕ) (r : Request) (t : Transport)
    → WellFormed t
    → WellFormed (send_command packet r t)
unfolding send_command
send_command-WellFormed packet r t w = record {
  head = head_fits-append t.state t.queue _ w.head;
  buffered = w.buffered;
  debt = w.debt;
  few_handlers = w.few_handlers;
  not_abandoning = w.not_abandoning;
}

pub register_response_handler-WellFormed :
    (now object_id sub_id : ℕ) (callback : Option ℕ) (t : Transport)
    → WellFormed t
    → WellFormed (register_response_handler now object_id sub_id callback t)
unfolding register_response_handler
register_response_handler-WellFormed now object_id sub_id callback t w =
    ground (arith, length-append t.handlers (handler ∷ []))
  where
    handler : PendingHandler
    handler = record {
      object_id = object_id;
      sub_id = sub_id;
      callback = callback;
      timestamp_ms = now;
    }

young_handlers-le :
    (now timeout_ms : ℕ) (hs : List PendingHandler)
    → length (young_handlers now timeout_ms hs) ≤ length hs
unfolding young_handlers
young_handlers-le now timeout_ms [] = omega arith
young_handlers-le now timeout_ms (h ∷ hs) = ground (arith, young_handlers-le now timeout_ms hs)

pub check_timeouts-WellFormed :
    (now timeout_ms : ℕ) (t : Transport)
    → WellFormed t
    → WellFormed (check_timeouts now timeout_ms t)
unfolding check_timeouts
check_timeouts-WellFormed now timeout_ms t w =
    ground (arith, young_handlers-le now timeout_ms t.handlers)

-- `t` without its queue: the rest of the invariant.
pub note_reply_owed-WellFormed :
    (now : ℕ) (b : Bool) (t : Transport) → WellFormed t → WellFormed (note_reply_owed now b t)
unfolding note_reply_owed
note_reply_owed-WellFormed now b t w = ground arith

pub stale_reply_possible-WellFormed :
    (now : ℕ) (t : Transport) → WellFormed t → WellFormed (stale_reply_possible now t).0
unfolding stale_reply_possible
stale_reply_possible-WellFormed now t w = ground arith

-- A reply that is consumed, after the look at the window.
pub consumed-WellFormed :
    (now : ℕ) (cmd : Command) (rest : List Command) (t : Transport)
    → t.queue ≡ cmd ∷ rest
    → WellFormed t
    → WellFormed (consume_owed_reply cmd rest (stale_reply_possible now t).0)
unfolding stale_reply_possible consume_owed_reply
consumed-WellFormed now cmd rest t e w = ground arith
