-- ===== src/Transport/Receiving.antt =====
-- The answer to a command keeps `WellFormed`, but for the buffer.
use esphome_alpha_hwr.Base.{
  ℕ, ◌≡◌, Bool, true, false, List, ◌∷◌, Option, some, arith, Option-cases, inl, inr,
}
use esphome_alpha_hwr.Transport.State.{
  Command, Transport, React, consume_owed_reply, stale_reply_possible,
}
use esphome_alpha_hwr.Transport.Dispatch.{
  short_reply, data_object_payload, finish, answer_set, answer_refusal, answer_short,
  answer_data_object, answer,
}
use esphome_alpha_hwr.Transport.Receive.{stop_reassembly}
use esphome_alpha_hwr.Transport.WellFormed.{WellFormed}
use esphome_alpha_hwr.Transport.Keeping.{complete_front_command-SameRest}

-- The invariant but for the buffer: a dispatch works on a complete telegram that is still there.
pub record Between (t : Transport) : Type 0 where
  pub between : WellFormed (stop_reassembly t)

module _ (react : React) (now : ℕ) where
  finish-Between :
      (verdict : Bool) (bytes : Option (List ℕ)) (t : Transport)
      → Between t
      → Between (finish react verdict bytes t)
  unfolding finish stop_reassembly
  finish-Between verdict bytes t w =
      ground (arith, w.between, complete_front_command-SameRest react verdict bytes t)

  stale-Between : (t : Transport) → Between t → Between (stale_reply_possible now t).0
  unfolding stale_reply_possible stop_reassembly
  stale-Between t w = ground (arith, w.between)

  consumed-Between :
      (cmd : Command) (rest : List Command) (t : Transport)
      → t.queue ≡ cmd ∷ rest
      → Between t
      → Between (consume_owed_reply cmd rest (stale_reply_possible now t).0)
  unfolding stale_reply_possible consume_owed_reply stop_reassembly
  consumed-Between cmd rest t e w = ground (arith, w.between)

  answer_set-Between :
      (cmd : Command) (rest : List Command) (frame : List ℕ) (t : Transport)
      → t.queue ≡ cmd ∷ rest
      → Between t
      → Between (answer_set react now cmd rest frame t).0
  unfolding answer_set
  answer_set-Between cmd rest frame t e w = ground (
    arith,
    finish-Between (short_reply frame).ok (some frame) (stale_reply_possible now t).0
        (stale-Between t w),
    consumed-Between cmd rest t e w,
  )

  answer_refusal-Between :
      (cmd : Command) (rest : List Command) (frame : List ℕ) (t : Transport) (r : Transport × Bool)
      → t.queue ≡ cmd ∷ rest
      → Between t
      → answer_refusal react now cmd rest frame t ≡ some r
      → Between r.0
  unfolding answer_refusal
  answer_refusal-Between cmd rest frame t r e w h = ground (
    arith,
    finish-Between false (some frame) (stale_reply_possible now t).0 (stale-Between t w),
    consumed-Between cmd rest t e w,
  )

  answer_short-Between :
      (cmd : Command) (rest : List Command) (frame : List ℕ) (t : Transport) (r : Transport × Bool)
      → t.queue ≡ cmd ∷ rest
      → Between t
      → answer_short react now cmd rest frame t ≡ some r
      → Between r.0
  unfolding answer_short
  answer_short-Between cmd rest frame t r e w h = ground (
    arith,
    w,
    finish-Between true (some frame) t w,
    answer_set-Between cmd rest frame t e w,
    answer_refusal-Between cmd rest frame t r e w,
  )

  answer_data_object-Between :
      (cmd : Command) (frame : List ℕ) (t : Transport)
      → Between t
      → Between (answer_data_object react cmd frame t).0
  unfolding answer_data_object
  answer_data_object-Between cmd frame t w =
      ground (arith, w, finish-Between true (data_object_payload frame) t w)

  pub answer-Between :
      (cmd : Command) (rest : List Command) (frame : List ℕ) (t : Transport)
      → t.queue ≡ cmd ∷ rest
      → Between t
      → Between (answer react now cmd rest frame t).0
  unfolding answer
  answer-Between cmd rest frame t e w =
      elim (Option-cases (answer_short react now cmd rest frame t)) [
        | inl h ↦ ground (arith, h, w, answer_data_object-Between cmd frame t w)
        | inr (r, h) ↦ ground (arith, h, answer_short-Between cmd rest frame t r e w h)
      ]
