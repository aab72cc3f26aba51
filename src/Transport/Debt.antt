-- ===== src/Transport/Debt.antt =====
-- Replies that are still owed to commands that timed out do not settle the command that waits now.
use esphome_alpha_hwr.Base.{
  ℕ, suc, ◌<◌, ◌≡◌, ap, ◌∙◌, Bool, true, false, ◌||◌, List, [], ◌∷◌, some, arith, length, ltb,
  sub_u32,
}
use esphome_alpha_hwr.Frame.Match.{
  is_wildcard_matched_class, class_wildcard_matches, ignore_unrelated_while_awaiting_wildcard_class,
}
use esphome_alpha_hwr.Transport.State.{
  Command, awaiting_response, Transport, React, consume_owed_reply, stale_reply_possible,
}
use esphome_alpha_hwr.Transport.Dispatch.{
  queued_class, short_ack_shape, short_reply, awaiting, finish, answer_set, answer_short, answer,
  try_dispatch_response,
}

-- A transport that owes `n` replies while `cmd` waits.
abbrev pub owing : ℕ → Bool → Command → List Command → Transport → Transport
owing n suppressed cmd rest t = record t {
  state = awaiting_response;
  queue = record cmd { suppressed_a_frame = suppressed } ∷ rest;
  owed_replies = n;
  owed_pending = ltb 0 n;
}

-- Telegrams one after the other, each with its time.
abbrev pub dispatch_all : React → List (ℕ × List ℕ) → Transport → Transport
dispatch_all react [] t = t
dispatch_all react ((now, frame) ∷ more) t =
    dispatch_all react more (try_dispatch_response react now frame t).0

-- Acknowledges that would fit the command, within the window after the timeout.
abbrev pub Late : Command → ℕ → List (ℕ × List ℕ) → Type 0
Late cmd since [] = Unit
Late cmd since ((now, frame) ∷ more) =
    (short_ack_shape cmd frame ≡ true) × (sub_u32 now since < 500) × Late cmd since more

module _ (react : React) (cmd : Command) (rest : List Command) where
  answer_acknowledge :
      (now : ℕ) (suppressed : Bool) (frame : List ℕ) (t : Transport)
      → short_ack_shape cmd frame ≡ true
      → answer react now (record cmd { suppressed_a_frame = suppressed }) rest frame t
        ≡ answer_set react now (record cmd { suppressed_a_frame = suppressed }) rest frame t
  unfolding answer answer_short class_wildcard_matches
      ignore_unrelated_while_awaiting_wildcard_class is_wildcard_matched_class short_ack_shape
      queued_class
  answer_acknowledge now suppressed frame t h = ground arith

  -- One owed reply.
  dispatch_owed :
      (now n : ℕ) (suppressed : Bool) (frame : List ℕ) (t : Transport)
      → short_ack_shape cmd frame ≡ true
      → sub_u32 now t.owed_since_ms < 500
      → (try_dispatch_response react now frame (owing (suc n) suppressed cmd rest t)).0
        ≡ owing n true cmd rest t
  unfolding try_dispatch_response awaiting answer_set stale_reply_possible consume_owed_reply
  dispatch_owed now n suppressed frame t h early =
      ground
        (arith, answer_acknowledge now suppressed frame (owing (suc n) suppressed cmd rest t) h)

  absorbed :
      (frames : List (ℕ × List ℕ)) (suppressed : Bool) (t : Transport)
      → Late cmd t.owed_since_ms frames
      → dispatch_all react frames (owing (length frames) suppressed cmd rest t)
        ≡ owing 0 (suppressed || ltb 0 (length frames)) cmd rest t
  absorbed [] suppressed t late = ground arith
  absorbed ((now, frame) ∷ more) suppressed t late =
      ap (dispatch_all react more)
        (dispatch_owed now (length more) suppressed frame t late.0 late.1)
      ∙ absorbed more true t late.2
      ∙ ap (λ b. owing 0 b cmd rest t) (ground arith)

  -- While `n` replies are owed, the first `n` acknowledges that arrive within the window are taken for
  -- them: none settles the SET that waits, and each pays one. The next acknowledge then settles it,
  -- once, with its own verdict.
  pub dispatch_all-owing :
      (frames : List (ℕ × List ℕ)) (now : ℕ) (own : List ℕ) (t : Transport)
      → Late cmd t.owed_since_ms frames
      → short_ack_shape cmd own ≡ true
      → try_dispatch_response react now own
          (dispatch_all react frames (owing (length frames) false cmd rest t))
        ≡ (
          finish react (short_reply own).ok (some own) (owing 0 (ltb 0 (length frames)) cmd rest t),
          true,
        )
  unfolding try_dispatch_response awaiting answer_set stale_reply_possible
  dispatch_all-owing frames now own t late h = ground (
    arith,
    absorbed frames false t late,
    answer_acknowledge now (ltb 0 (length frames)) own (owing 0 (ltb 0 (length frames)) cmd rest t)
        h,
  )
