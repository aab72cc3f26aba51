-- ===== src/Transport/Keeping.antt =====
-- `loop`, `on_notification` and `reset` keep `WellFormed`.
use esphome_alpha_hwr.Base.{
  ℕ, ◌≤◌, ◌≡◌, refl, Bool, true, false, not, ◌||◌, List, [], ◌∷◌, Option, none, some, arith, length,
  ltb, sub_u32,
}
use esphome_alpha_hwr.Transport.State.{
  Command, idle, sending_chunks, Transport, React, note_reply_owed,
}
use esphome_alpha_hwr.Transport.Queue.{notify, complete_front_command, fail_front_command}
use esphome_alpha_hwr.Transport.Dispatch.{finish}
use esphome_alpha_hwr.Transport.Loop.{
  fail, chunk_sent, chunk_refused, send_chunk, start_command, check_timeout, step, loop,
}
use esphome_alpha_hwr.Transport.WellFormed.{head_fits, WellFormed, note_reply_owed-WellFormed}

-- Two transports that differ in the queue, the log and the state only.
pub record SameRest (t u : Transport) : Type 0 where
  pub same_reassembling : u.reassembling ≡ t.reassembling
  pub same_buffer : u.buffer ≡ t.buffer
  pub same_expected : u.expected_len ≡ t.expected_len
  pub same_pending : u.owed_pending ≡ t.owed_pending
  pub same_owed : u.owed_replies ≡ t.owed_replies
  pub same_handlers : u.handlers ≡ t.handlers
  pub same_abandoning : u.abandoning ≡ t.abandoning

module _ (react : React) where
  notify-SameRest :
      (cb : Option ℕ) (verdict : Bool) (bytes : Option (List ℕ)) (t : Transport)
      → SameRest t (notify react cb verdict bytes t)
  unfolding notify
  notify-SameRest none verdict bytes t = ground arith
  notify-SameRest (some id) verdict bytes t = ground arith

  complete-SameRest :
      (q : List Command) (verdict : Bool) (bytes : Option (List ℕ)) (t : Transport)
      → SameRest t (complete_front_command react verdict bytes (record t { queue = q }))
  unfolding complete_front_command
  complete-SameRest [] verdict bytes t = ground arith
  complete-SameRest (cmd ∷ rest) verdict bytes t =
      ground (arith, notify-SameRest cmd.callback verdict bytes (record t { queue = rest }))

  pub complete_front_command-SameRest :
      (verdict : Bool) (bytes : Option (List ℕ)) (t : Transport)
      → SameRest t (complete_front_command react verdict bytes t)
  complete_front_command-SameRest verdict bytes t = complete-SameRest t.queue verdict bytes t

  -- The head does not matter where the state becomes `idle`.
  pub finish-WellFormed :
      (verdict : Bool) (bytes : Option (List ℕ)) (t : Transport)
      → WellFormed (record t { state = idle })
      → WellFormed (finish react verdict bytes t)
  unfolding finish
  finish-WellFormed verdict bytes t w =
      ground (arith, complete_front_command-SameRest verdict bytes t)

  fail-WellFormed :
      (t : Transport) → WellFormed (record t { state = idle }) → WellFormed (fail react t)
  unfolding fail fail_front_command
  fail-WellFormed t w = ground (arith, complete_front_command-SameRest false none t)

  pub settled-WellFormed : (t : Transport) → WellFormed t → WellFormed (record t { state = idle })
  settled-WellFormed t w = record {
    head = refl;
    buffered = w.buffered;
    debt = w.debt;
    few_handlers = w.few_handlers;
    not_abandoning = w.not_abandoning;
  }

  module _ (now : ℕ) (accepted : Bool) where
    chunk_sent-WellFormed :
        (cmd : Command) (rest : List Command) (t : Transport)
        → WellFormed (record t { state = idle })
        → t.state ≡ sending_chunks
        → cmd.bytes_sent ≤ length cmd.packet
        → WellFormed (chunk_sent react now cmd rest t)
    unfolding chunk_sent
    chunk_sent-WellFormed cmd rest t w s h = ground arith

    -- The log, the pacing and the resync hold are not in the invariant.
    chunk_refused-WellFormed :
        (cmd : Command) (t : Transport)
        → WellFormed (record t { state = idle })
        → WellFormed (chunk_refused react now cmd t)
    unfolding chunk_refused
    chunk_refused-WellFormed cmd t w = fail-WellFormed _ (ground arith)

    -- A chunk that the pacing holds back leaves all as it was.
    send_chunk-WellFormed :
        (cmd : Command) (rest : List Command) (t : Transport)
        → WellFormed (record t { state = idle })
        → t.state ≡ sending_chunks
        → cmd.bytes_sent ≤ length cmd.packet
        → (head_fits t.state t.queue || not (ltb (sub_u32 now t.last_send_time) t.send_pacing_ms))
          ≡ true
        → WellFormed (send_chunk react now accepted cmd rest t)
    unfolding send_chunk
    send_chunk-WellFormed cmd rest t w s h early = ground (
      arith,
      w,
      fail-WellFormed t w,
      chunk_sent-WellFormed cmd rest t w s h,
      chunk_refused-WellFormed cmd t w,
    )

    start_command-WellFormed :
        (cmd : Command) (rest : List Command) (t : Transport)
        → t.state ≡ idle
        → WellFormed t
        → WellFormed (start_command react now accepted cmd rest t)
    unfolding start_command
    start_command-WellFormed cmd rest t s w = ground (
      arith,
      w,
      λ (e : ltb (sub_u32 now t.last_send_time) t.send_pacing_ms ≡ false).
          begun-WellFormed cmd rest t w e,
    )
      where
        begun : Command → List Command → Transport → Transport
        begun cmd rest t = record t {
          peer_resync_pending = false;
          state = sending_chunks;
          queue = record cmd { bytes_sent = 0 } ∷ rest;
        }

        begun-WellFormed :
            (cmd : Command) (rest : List Command) (t : Transport)
            → WellFormed t
            → ltb (sub_u32 now t.last_send_time) t.send_pacing_ms ≡ false
            → WellFormed (
                send_chunk react now accepted
                  (record cmd { bytes_sent = 0 })
                  rest
                  (begun cmd rest t))
        begun-WellFormed cmd rest t w e =
            send_chunk-WellFormed (record cmd { bytes_sent = 0 }) rest (begun cmd rest t)
              (ground (arith, w)) refl (omega arith) (ground (arith, e))

    check_timeout-WellFormed :
        (cmd : Command) (t : Transport) → WellFormed t → WellFormed (check_timeout react now cmd t)
    unfolding check_timeout
    check_timeout-WellFormed cmd t w = ground (
      arith,
      w,
      fail-WellFormed (note_reply_owed now cmd.suppressed_a_frame t) (
          settled-WellFormed (note_reply_owed now cmd.suppressed_a_frame t)
            (note_reply_owed-WellFormed now cmd.suppressed_a_frame t w)),
    )

    step-WellFormed :
        (cmd : Command) (rest : List Command) (t : Transport)
        → t.queue ≡ cmd ∷ rest
        → WellFormed t
        → WellFormed (step react now accepted t.state cmd rest t)
    unfolding step
    step-WellFormed cmd rest t e w = ground (
      arith,
      w,
      w.head,
      check_timeout-WellFormed cmd t w,
      λ (s : t.state ≡ idle). start_command-WellFormed cmd rest t s w,
      λ (s : t.state ≡ sending_chunks). send_chunk-WellFormed cmd rest t (settled-WellFormed t w) s,
    )

    loop_queue-WellFormed :
        (q : List Command) (t : Transport)
        → WellFormed (record t { queue = q })
        → WellFormed (loop react now accepted (record t { queue = q }))
    unfolding loop
    loop_queue-WellFormed [] t w = settled-WellFormed (record t { queue = [] }) w
    loop_queue-WellFormed (cmd ∷ rest) t w =
        step-WellFormed cmd rest (record t { queue = cmd ∷ rest }) refl w

    -- The timer tick keeps the invariant, whether or not the peer takes the chunk, and whatever the
    -- callbacks send.
    pub loop-WellFormed : (t : Transport) → WellFormed t → WellFormed (loop react now accepted t)
    loop-WellFormed t w = loop_queue-WellFormed t.queue t w
