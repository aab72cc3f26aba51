-- ===== src/Transport/Timeout.antt =====
-- A command without an answer.
use esphome_alpha_hwr.Base.{
  ℕ, ◌+◌, ◌≡◌, Bool, false, List, ◌∷◌, ◌++◌, none, some, arith, not, ◌&&◌, ltb, sub_u32,
  if◌then◌else◌,
}
use esphome_alpha_hwr.Transport.State.{
  Command, idle, awaiting_response, settled, Transport, React, note_reply_owed,
}
use esphome_alpha_hwr.Transport.Queue.{notify, complete_front_command, fail_front_command}
use esphome_alpha_hwr.Transport.Loop.{fail, check_timeout, step, loop}

abbrev pub waiting_for : ℕ → Command → List Command → Transport → Transport
waiting_for id cmd rest t = record t {
  state = awaiting_response;
  queue = record cmd { callback = some id } ∷ rest;
}

abbrev pub is_late : ℕ → Command → Bool
is_late now cmd = ltb cmd.timeout_ms (sub_u32 now cmd.timestamp_ms)

module _ (react : React) (now id : ℕ) (accepted : Bool) (cmd : Command) (rest : List Command)
    (t : Transport) where
  -- A command that waits for its response is left alone until its time is over. The first tick after
  -- that calls its callback once, with a failure, and frees the queue for the next command, behind
  -- which comes what the callback sends. One reply more is then owed, up to 255, unless the command
  -- has itself taken a reply that was owed.
  pub loop_waiting :
      ((loop react now accepted (waiting_for id cmd rest t)).log
        ≡ (if is_late now cmd then settled id false none ∷ t.log else t.log))
      × ((loop react now accepted (waiting_for id cmd rest t)).state
          ≡ (if is_late now cmd then idle else awaiting_response))
      × ((loop react now accepted (waiting_for id cmd rest t)).queue ≡ (
          if is_late now cmd
          then rest ++ react id false none
          else (waiting_for id cmd rest t).queue))
      × ((loop react now accepted (waiting_for id cmd rest t)).owed_replies ≡ (
          if is_late now cmd && not cmd.suppressed_a_frame && ltb t.owed_replies 255
          then t.owed_replies + 1
          else t.owed_replies))
  unfolding loop step check_timeout fail fail_front_command complete_front_command notify
      note_reply_owed
  loop_waiting = (ground arith, ground arith, ground arith, ground arith)
