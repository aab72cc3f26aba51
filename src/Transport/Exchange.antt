-- ===== src/Transport/Exchange.antt =====
-- A whole answer: its fragments, the checksum, the command that it settles.
use esphome_alpha_hwr.Base.{
  ℕ, ◌<◌, ◌≡◌, refl, ap, ◌∙◌, true, false, List, ◌∷◌, ◌++◌, some, arith, length, take, take_all,
}
use esphome_alpha_hwr.Codec.{byte_at}
use esphome_alpha_hwr.Frame.Match.{is_wildcard_matched_class}
use esphome_alpha_hwr.Frame.Parser.{frame_crc_valid}
use esphome_alpha_hwr.Transport.State.{Command, idle, settled, Transport, React}
use esphome_alpha_hwr.Transport.Queue.{notify, complete_front_command}
use esphome_alpha_hwr.Transport.Dispatch.{
  queued_class, is_wildcard, awaiting, finish, try_dispatch_response,
}
use esphome_alpha_hwr.Transport.Receive.{stop_reassembly, frame_len_of, complete_frame}
use esphome_alpha_hwr.Transport.Fragments.{
  IsTelegram, InTime, receive, joined, last_time, holding, receive-complete_frame,
  calculate_expected_length_of,
}
use esphome_alpha_hwr.Transport.Timeout.{waiting_for}
use esphome_alpha_hwr.Transport.Verdict.{answer_by_class}

-- What is left after the answer: the callback has heard of its success once, with the whole
-- telegram, and the transport is free for the next command, behind which comes what it sent.
pub record Settled (react : React) (f : List ℕ) (id : ℕ) (rest : List Command) (t u : Transport)
    : Type 0 where
  pub told : u.log ≡ settled id true (some f) ∷ t.log
  pub free : u.state ≡ idle
  pub next : u.queue ≡ rest ++ react id true (some f)
  pub put_away : u.reassembling ≡ false

module _ (react : React) (f : List ℕ) (tele : IsTelegram f) (id : ℕ) (cmd : Command)
    (rest : List Command) (t : Transport) where
  abbrev asked : Command
  asked = record cmd { callback = some id }

  telegram_len : (now : ℕ) → frame_len_of (holding now f (waiting_for id cmd rest t)) ≡ length f
  unfolding frame_len_of
  telegram_len now = ground (arith, tele, calculate_expected_length_of f)

  answered_by_class :
      (now last : ℕ)
      → is_wildcard_matched_class (queued_class asked) ≡ true
      → byte_at f 4 ≡ queued_class asked
      → is_wildcard cmd ≡ true
      → try_dispatch_response react last f (holding now f (waiting_for id cmd rest t))
        ≡ (finish react true (some f) (holding now f (waiting_for id cmd rest t)), true)
  unfolding try_dispatch_response awaiting
  answered_by_class now last k c w = ground (
    arith,
    tele,
    k,
    c,
    w,
    answer_by_class react last asked rest f (holding now f (waiting_for id cmd rest t)) k
        (omega (arith, tele.possible, tele.declared)),
  )

  completed :
      (now last : ℕ)
      → frame_crc_valid f (length f) ≡ true
      → is_wildcard_matched_class (queued_class asked) ≡ true
      → byte_at f 4 ≡ queued_class asked
      → is_wildcard cmd ≡ true
      → complete_frame react last (holding now f (waiting_for id cmd rest t))
        ≡ stop_reassembly (finish react true (some f) (holding now f (waiting_for id cmd rest t)))
  unfolding complete_frame
  completed now last crc k c w = ground (
    arith,
    crc,
    telegram_len now,
    ap (frame_crc_valid f) (telegram_len now),
    ap (λ n. take n f) (telegram_len now) ∙ take_all f,
    ap (λ xs. try_dispatch_response react last xs (holding now f (waiting_for id cmd rest t)))
          (ap (λ n. take n f) (telegram_len now) ∙ take_all f)
        ∙ answered_by_class now last k c w,
  )

  finish-Settled :
      (now : ℕ)
      → Settled react f id rest t
          (stop_reassembly (finish react true (some f) (holding now f (waiting_for id cmd rest t))))
  unfolding stop_reassembly finish complete_front_command notify
  finish-Settled now = record { told = refl; free = refl; next = refl; put_away = refl }

  -- A command of class 2, 3, 5, 7 or 11 that waits without a type is settled by the telegram of its
  -- class, with a right checksum, that arrives outside a
  -- reassembly and within a second, however it is cut: its callback is
  -- called once, with success and the telegram, and the transport is free again.
  pub receive-Settled :
      (now : ℕ) (bytes : List ℕ) (more : List (ℕ × List ℕ))
      → t.reassembling ≡ false
      → t.expected_len ≡ 0
      → 0 < length bytes
      → InTime now more
      → bytes ++ joined more ≡ f
      → frame_crc_valid f (length f) ≡ true
      → is_wildcard_matched_class (queued_class asked) ≡ true
      → byte_at f 4 ≡ queued_class asked
      → is_wildcard cmd ≡ true
      → Settled react f id rest t (receive react ((now, bytes) ∷ more) (waiting_for id cmd rest t))
  receive-Settled now bytes more quiet none_expected h timely e crc k c w =
      rw
        (receive-complete_frame react f tele now bytes more (waiting_for id cmd rest t) quiet
            none_expected h timely e
          ∙ completed now (last_time now more) crc k c w)
        (finish-Settled now)
