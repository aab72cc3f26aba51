-- ===== src/Transport/Fifo.antt =====
-- The operations keep the account of the callbacks: `loop`, `on_notification` and `reset`.
use esphome_alpha_hwr.Base.{
  ℕ, ◌≡◌, refl, sym, ap, ◌∙◌, Bool, true, false, List, [], ◌∷◌, ◌++◌, arith, ltb, if◌then◌else◌,
}
use esphome_alpha_hwr.Transport.State.{
  Command, State, wrote, Transport, React, idle, sending_chunks, awaiting_response, note_reply_owed,
}
use esphome_alpha_hwr.Transport.Loop.{
  chunk_of, chunk_sent, chunk_refused, send_chunk, start_command, check_timeout, step, loop,
}
use esphome_alpha_hwr.Transport.Order.{
  answered, queued, account, Keeps, Keeps-refl, Keeps-same, Keeps-trans, fail-Keeps,
}

note_reply_owed-account :
    (now : ℕ) (b : Bool) (t : Transport) → account (note_reply_owed now b t) ≡ account t
unfolding note_reply_owed
note_reply_owed-account now b t = ground arith

module _ (react : React) (now : ℕ) (accepted : Bool) where
  chunk_sent-account :
      (cmd : Command) (rest : List Command) (t : Transport)
      → account (chunk_sent react now cmd rest t) ≡ account (record t { queue = cmd ∷ rest })
  unfolding chunk_sent
  chunk_sent-account cmd rest t = ground arith

  -- What is noted when a chunk was refused.
  abbrev tried : Command → Transport → Transport
  tried cmd t =
      let u = record t { log = wrote (chunk_of cmd) ∷ t.log } in
      if ltb 0 cmd.bytes_sent
      then record u { peer_resync_pending = true; peer_resync_started_ms = now }
      else u

  tried-account : (cmd : Command) (t : Transport) → account (tried cmd t) ≡ account t
  tried-account cmd t = ground arith

  chunk_refused-Keeps : (cmd : Command) (t : Transport) → Keeps t (chunk_refused react now cmd t)
  unfolding chunk_refused
  chunk_refused-Keeps cmd t = fail-Keeps react t (tried cmd t) (tried-account cmd t)

  send_chunk-Keeps :
      (cmd : Command) (rest : List Command) (t : Transport)
      → t.queue ≡ cmd ∷ rest
      → Keeps t (send_chunk react now accepted cmd rest t)
  unfolding send_chunk
  send_chunk-Keeps cmd rest t e = ground (
    arith,
    Keeps-refl t,
    fail-Keeps react t t refl,
    Keeps-same t (chunk_sent react now cmd rest t)
        (chunk_sent-account cmd rest t ∙ ap (λ q. answered t.log ++ queued q) (sym e)),
    chunk_refused-Keeps cmd t,
  )

  start_command-Keeps :
      (cmd : Command) (rest : List Command) (t : Transport)
      → t.queue ≡ cmd ∷ rest
      → Keeps t (start_command react now accepted cmd rest t)
  unfolding start_command
  start_command-Keeps cmd rest t e = ground (
    arith,
    Keeps-refl t,
    Keeps-trans t begun (send_chunk react now accepted (record cmd { bytes_sent = 0 }) rest begun)
        (Keeps-same t begun (ap (λ q. answered t.log ++ queued q) (sym e)))
        (send_chunk-Keeps (record cmd { bytes_sent = 0 }) rest begun refl),
  )
    where
      begun : Transport
      begun = record t {
        peer_resync_pending = false;
        state = sending_chunks;
        queue = record cmd { bytes_sent = 0 } ∷ rest;
      }

  check_timeout-Keeps : (cmd : Command) (t : Transport) → Keeps t (check_timeout react now cmd t)
  unfolding check_timeout
  check_timeout-Keeps cmd t = ground (
    arith,
    Keeps-refl t,
    fail-Keeps react t (note_reply_owed now cmd.suppressed_a_frame t)
        (note_reply_owed-account now cmd.suppressed_a_frame t),
  )

  step-Keeps :
      (s : State) (cmd : Command) (rest : List Command) (t : Transport)
      → t.queue ≡ cmd ∷ rest
      → Keeps t (step react now accepted s cmd rest t)
  unfolding step
  step-Keeps idle cmd rest t e = start_command-Keeps cmd rest t e
  step-Keeps sending_chunks cmd rest t e = send_chunk-Keeps cmd rest t e
  step-Keeps awaiting_response cmd rest t e = check_timeout-Keeps cmd t

  loop_queue-Keeps :
      (q : List Command) (t : Transport)
      → t.queue ≡ q
      → Keeps t (loop react now accepted (record t { queue = q }))
  unfolding loop
  loop_queue-Keeps [] t e = Keeps-same t _ (ap (λ q. answered t.log ++ queued q) (sym e))
  loop_queue-Keeps (cmd ∷ rest) t e =
      Keeps-trans t (record t { queue = cmd ∷ rest }) _
        (Keeps-same t _ (ap (λ q. answered t.log ++ queued q) (sym e)))
        (step-Keeps t.state cmd rest (record t { queue = cmd ∷ rest }) refl)

  -- `loop` neither loses a callback nor calls one twice or out of turn: the callbacks called so far
  -- with those that wait behind them only grow at the end, whatever the callbacks send themselves.
  pub loop-Keeps : (t : Transport) → Keeps t (loop react now accepted t)
  loop-Keeps t = loop_queue-Keeps t.queue t refl
