-- ===== src/Transport/Claims.antt =====
-- `on_notification` keeps the account of the callbacks.
use esphome_alpha_hwr.Base.{
  ℕ, ◌+◌, ◌≡◌, refl, ◌∙◌, Bool, true, false, not, List, ◌∷◌, Option, none, some, arith, take, ltb,
  if◌then◌else◌, inl, inr, Option-cases, ◌&&◌,
}
use esphome_alpha_hwr.Transport.State.{
  Command, Event, delivered, Transport, React, consume_owed_reply, stale_reply_possible,
}
use esphome_alpha_hwr.Transport.Dispatch.{
  short_reply, data_object_payload, awaiting, note_handled, dispatch_handlers, answer_set,
  answer_refusal, answer_short, answer_data_object, answer, try_dispatch_response,
}
use esphome_alpha_hwr.Transport.Receive.{
  stop_reassembly, drop_stale, take_fragment, frame_len_of, complete_frame, check_complete,
  on_notification,
}
use esphome_alpha_hwr.Transport.Order.{
  answered, account, Keeps, Keeps-refl, Keeps-same, Keeps-trans, finish-Keeps,
}

stale_reply_possible-account :
    (now : ℕ) (t : Transport) → account (stale_reply_possible now t).0 ≡ account t
unfolding stale_reply_possible
stale_reply_possible-account now t = ground arith

consume_owed_reply-account :
    (cmd : Command) (rest : List Command) (t : Transport)
    → account (consume_owed_reply cmd rest t) ≡ account (record t { queue = cmd ∷ rest })
unfolding consume_owed_reply
consume_owed_reply-account cmd rest t = ground arith

-- A reply that is consumed, after the look at the window.
consumed-account :
    (now : ℕ) (cmd : Command) (rest : List Command) (t : Transport)
    → t.queue ≡ cmd ∷ rest
    → account (consume_owed_reply cmd rest (stale_reply_possible now t).0) ≡ account t
unfolding stale_reply_possible consume_owed_reply
consumed-account now cmd rest t e = ground arith

drop_stale-account : (now : ℕ) (t : Transport) → account (drop_stale now t) ≡ account t
unfolding drop_stale stop_reassembly
drop_stale-account now t = ground arith

stopped-account : (t : Transport) → account (stop_reassembly t) ≡ account t
unfolding stop_reassembly
stopped-account t = refl

note_handled-answered :
    (cb : Option ℕ) (payload : Option (List ℕ)) (log : List Event)
    → answered (note_handled cb payload log) ≡ answered log
note_handled-answered none payload log = refl
note_handled-answered (some id) payload log = refl

pub awaiting_queue :
    (t : Transport) (cmd : Command) (rest : List Command)
    → awaiting t ≡ some (cmd, rest)
    → t.queue ≡ cmd ∷ rest
unfolding awaiting
awaiting_queue t cmd rest h = ground arith

module _ (react : React) (now : ℕ) where
  answer_set-Keeps :
      (cmd : Command) (rest : List Command) (frame : List ℕ) (t : Transport)
      → t.queue ≡ cmd ∷ rest
      → Keeps t (answer_set react now cmd rest frame t).0
  unfolding answer_set
  answer_set-Keeps cmd rest frame t e = ground (
    arith,
    finish-Keeps react (short_reply frame).ok (some frame) t (stale_reply_possible now t).0
        (stale_reply_possible-account now t),
    Keeps-same t (consume_owed_reply cmd rest (stale_reply_possible now t).0)
        (consumed-account now cmd rest t e),
  )

  answer_refusal-Keeps :
      (cmd : Command) (rest : List Command) (frame : List ℕ) (t : Transport) (r : Transport × Bool)
      → t.queue ≡ cmd ∷ rest
      → answer_refusal react now cmd rest frame t ≡ some r
      → Keeps t r.0
  unfolding answer_refusal
  answer_refusal-Keeps cmd rest frame t r e h = ground (
    arith,
    finish-Keeps react false (some frame) t (stale_reply_possible now t).0
        (stale_reply_possible-account now t),
    Keeps-same t (consume_owed_reply cmd rest (stale_reply_possible now t).0)
        (consumed-account now cmd rest t e),
  )

  answer_short-Keeps :
      (cmd : Command) (rest : List Command) (frame : List ℕ) (t : Transport) (r : Transport × Bool)
      → t.queue ≡ cmd ∷ rest
      → answer_short react now cmd rest frame t ≡ some r
      → Keeps t r.0
  unfolding answer_short
  answer_short-Keeps cmd rest frame t r e h = ground (
    arith,
    Keeps-refl t,
    finish-Keeps react true (some frame) t t refl,
    answer_set-Keeps cmd rest frame t e,
    answer_refusal-Keeps cmd rest frame t r e,
  )

  answer_data_object-Keeps :
      (cmd : Command) (frame : List ℕ) (t : Transport)
      → Keeps t (answer_data_object react cmd frame t).0
  unfolding answer_data_object
  answer_data_object-Keeps cmd frame t =
      ground (arith, Keeps-refl t, finish-Keeps react true (data_object_payload frame) t t refl)

  answer-Keeps :
      (cmd : Command) (rest : List Command) (frame : List ℕ) (t : Transport)
      → t.queue ≡ cmd ∷ rest
      → Keeps t (answer react now cmd rest frame t).0
  unfolding answer
  answer-Keeps cmd rest frame t e = elim (Option-cases (answer_short react now cmd rest frame t)) [
    | inl h ↦ ground (arith, h, Keeps-refl t, answer_data_object-Keeps cmd frame t)
    | inr (r, h) ↦ ground (arith, h, answer_short-Keeps cmd rest frame t r e h)
  ]

  dispatch_handlers-account :
      (frame : List ℕ) (t : Transport) → account (dispatch_handlers t frame).0 ≡ account t
  unfolding dispatch_handlers
  dispatch_handlers-account frame t = grind (arith, note_handled-answered)

  try_dispatch_response-Keeps :
      (frame : List ℕ) (t : Transport) → Keeps t (try_dispatch_response react now frame t).0
  unfolding try_dispatch_response
  try_dispatch_response-Keeps frame t = elim (Option-cases (awaiting t)) [
    | inl h ↦ ground (
      arith,
      h,
      Keeps-refl t,
      Keeps-same t (dispatch_handlers t frame).0 (dispatch_handlers-account frame t),
    )
    | inr ((cmd, rest), h) ↦
        ground (arith, h, answer-Keeps cmd rest frame t (awaiting_queue t cmd rest h))
  ]

  -- What is left of a telegram's dispatch.
  after_dispatch-account :
      (t u : Transport)
      → Keeps t u
      → (frame : List ℕ) (told : Bool)
      → Keeps t (stop_reassembly (if told then record u { log = delivered frame ∷ u.log } else u))
  unfolding stop_reassembly
  after_dispatch-account t u k frame true = record { kept = k.kept }
  after_dispatch-account t u k frame false = record { kept = k.kept }

  complete_frame-Keeps : (t : Transport) → Keeps t (complete_frame react now t)
  unfolding complete_frame
  complete_frame-Keeps t =
      let frame : List ℕ = take (frame_len_of t) t.buffer in
      let r : Transport × Bool = try_dispatch_response react now frame t in
      ground (
        arith,
        Keeps-same t
            (stop_reassembly (record t {
              crc_drops = if ltb t.crc_drops 0xffffffff then t.crc_drops + 1 else t.crc_drops;
            }))
            (stopped-account _),
        after_dispatch-account t r.0 (try_dispatch_response-Keeps frame t) frame
            (not r.1 && r.0.has_packet_callback),
      )

  check_complete-Keeps : (t : Transport) → Keeps t (check_complete react now t)
  unfolding check_complete
  check_complete-Keeps t = ground (
    arith,
    Keeps-refl t,
    complete_frame-Keeps t,
    Keeps-same t (stop_reassembly t) (stopped-account t),
  )

  take_fragment-account :
      (bytes : List ℕ) (t u : Transport)
      → take_fragment now bytes t ≡ some u
      → account u ≡ account t
  unfolding take_fragment
  take_fragment-account bytes t u h = ground arith

  -- A notification neither loses a callback nor calls one twice or out of turn, whatever bytes it
  -- holds and whatever the callbacks send themselves.
  pub on_notification-Keeps :
      (bytes : List ℕ) (t : Transport) → Keeps t (on_notification react now bytes t)
  unfolding on_notification
  on_notification-Keeps bytes t =
      let t' : Transport = drop_stale now t in
      elim (Option-cases (take_fragment now bytes t')) [
        | inl h ↦ ground (arith, h, Keeps-refl t, Keeps-same t t' (drop_stale-account now t))
        | inr (u, h) ↦ ground (
          arith,
          h,
          Keeps-refl t,
          Keeps-trans t u (check_complete react now u)
              (Keeps-same t u (take_fragment-account bytes t' u h ∙ drop_stale-account now t))
              (check_complete-Keeps u),
        )
      ]
