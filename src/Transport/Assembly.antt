-- ===== src/Transport/Assembly.antt =====
-- `on_notification` keeps `WellFormed`, from the dispatch on.
use esphome_alpha_hwr.Base.{
  ℕ, ◌+◌, ◌≤◌, ◌≡◌, refl, Bool, true, false, not, ◌&&◌, ◌||◌, List, [], ◌∷◌, some, arith, length,
  ltb, leb, ◌==◌, if◌then◌else◌, take, Option-cases, inl, inr, if_case,
}
use esphome_alpha_hwr.Transport.State.{PendingHandler, Event, delivered, Transport, React}
use esphome_alpha_hwr.Transport.Dispatch.{
  data_object_payload, awaiting, dispatch_handlers, take_handler, note_handled,
  try_dispatch_response,
}
use esphome_alpha_hwr.Transport.Receive.{
  stop_reassembly, drop_stale, take_fragment, frame_len_of, complete_frame, check_complete,
  on_notification,
}
use esphome_alpha_hwr.Codec.{decode_uint16_be}
use esphome_alpha_hwr.Frame.Layout.{max_telegram_len}
use esphome_alpha_hwr.Transport.Claims.{awaiting_queue}
use esphome_alpha_hwr.Transport.WellFormed.{WellFormed, buffer_fits}
use esphome_alpha_hwr.Transport.Receiving.{Between, answer-Between}

stopped-WellFormed : (t : Transport) → WellFormed t → WellFormed (stop_reassembly t)
unfolding stop_reassembly
stopped-WellFormed t w = record {
  head = w.head;
  buffered = refl;
  debt = w.debt;
  few_handlers = w.few_handlers;
  not_abandoning = w.not_abandoning;
}

drop_stale-WellFormed : (now : ℕ) (t : Transport) → WellFormed t → WellFormed (drop_stale now t)
unfolding drop_stale
drop_stale-WellFormed now t w = ground (arith, w, stopped-WellFormed t w)

take_handler-length :
    (object_id sub_id : ℕ) (hs ks : List PendingHandler) (k : PendingHandler)
    → take_handler object_id sub_id hs ≡ some (k, ks)
    → length ks ≤ length hs
unfolding take_handler
take_handler-length object_id sub_id [] ks k e = ground arith
take_handler-length object_id sub_id (h ∷ hs) ks k e =
    elim (Option-cases (take_handler object_id sub_id hs)) [
      | inl none_later ↦ ground (arith, none_later)
      | inr ((later, behind), found) ↦
          ground (arith, found, take_handler-length object_id sub_id hs behind later found)
    ]

dropped-WellFormed :
    (t : Transport) (n : ℕ) → Between t → WellFormed (stop_reassembly (record t { crc_drops = n }))
unfolding stop_reassembly
dropped-WellFormed t n w = ground (arith, w.between)

kept-WellFormed :
    (t : Transport)
    → t.reassembling ≡ true
    → Between t
    → buffer_fits true (length t.buffer) t.expected_len ≡ true
    → WellFormed t
unfolding stop_reassembly
kept-WellFormed t r w h = ground (arith, w.between)

incomplete_fits :
    (t : Transport)
    → t.reassembling ≡ true
    → ltb max_telegram_len (length t.buffer)
        && ((t.expected_len == 0) || ltb (length t.buffer) t.expected_len)
      ≡ false
    → t.reassembling && ltb 0 t.expected_len && leb t.expected_len (length t.buffer) ≡ false
    → buffer_fits true (length t.buffer) t.expected_len ≡ true
incomplete_fits t r fits incomplete = ground arith

module _ (react : React) (now : ℕ) where
  handled-Between :
      (t : Transport) (hs : List PendingHandler) (log : List Event)
      → length hs ≤ length t.handlers
      → Between t
      → Between (record t { handlers = hs; log = log })
  unfolding stop_reassembly
  handled-Between t hs log h w = ground (arith, w.between)

  dispatch_handlers-Between :
      (frame : List ℕ) (t : Transport) → Between t → Between (dispatch_handlers t frame).0
  unfolding dispatch_handlers
  dispatch_handlers-Between frame t w =
      elim (Option-cases
        (take_handler (decode_uint16_be frame 6) (decode_uint16_be frame 8) t.handlers)) [
          | inl h ↦ ground (arith, h, w)
          | inr ((k, ks), h) ↦ ground (
            arith,
            h,
            w,
            handled-Between t ks (note_handled k.callback (data_object_payload frame) t.log)
                (take_handler-length _ _ t.handlers ks k h) w,
          )
        ]

  try_dispatch_response-Between :
      (frame : List ℕ) (t : Transport)
      → Between t
      → Between (try_dispatch_response react now frame t).0
  unfolding try_dispatch_response
  try_dispatch_response-Between frame t w = elim (Option-cases (awaiting t)) [
    | inl h ↦ ground (arith, h, w, dispatch_handlers-Between frame t w)
    | inr ((cmd, rest), h) ↦
        ground (arith, h, answer-Between react now cmd rest frame t (awaiting_queue t cmd rest h) w)
  ]

  -- What is left of a telegram's dispatch.
  told-WellFormed :
      (u : Transport) (frame : List ℕ) (told : Bool)
      → Between u
      → WellFormed
          (stop_reassembly (if told then record u { log = delivered frame ∷ u.log } else u))
  unfolding stop_reassembly
  told-WellFormed u frame told w = ground (arith, w.between)

  complete_frame-WellFormed : (t : Transport) → Between t → WellFormed (complete_frame react now t)
  unfolding complete_frame
  complete_frame-WellFormed t w =
      let frame : List ℕ = take (frame_len_of t) t.buffer in
      let r : Transport × Bool = try_dispatch_response react now frame t in
      ground (
        arith,
        dropped-WellFormed t (if ltb t.crc_drops 0xffffffff then t.crc_drops + 1 else t.crc_drops)
            w,
        told-WellFormed r.0 frame (not r.1 && r.0.has_packet_callback)
            (try_dispatch_response-Between frame t w),
      )

  -- The end of a notification: a buffer that is kept is no longer than a telegram and incomplete.
  check_complete-WellFormed :
      (t : Transport) → t.reassembling ≡ true → Between t → WellFormed (check_complete react now t)
  unfolding check_complete
  check_complete-WellFormed t r w =
      let size : ℕ = length t.buffer in
      if_case WellFormed
        (ltb max_telegram_len size && ((t.expected_len == 0) || ltb size t.expected_len))
        (λ over. w.between)
        (λ fits.
          if_case WellFormed (t.reassembling && ltb 0 t.expected_len && leb t.expected_len size)
            (λ complete. complete_frame-WellFormed t w)
            (λ incomplete. kept-WellFormed t r w (incomplete_fits t r fits incomplete)))

  taken-Between :
      (bytes : List ℕ) (t u : Transport)
      → take_fragment now bytes t ≡ some u
      → WellFormed t
      → (u.reassembling ≡ true) × Between u
  unfolding take_fragment stop_reassembly
  taken-Between bytes t u h w = ground arith

  -- A notification keeps the invariant, whatever bytes it holds and whatever the callbacks send.
  pub on_notification-WellFormed :
      (bytes : List ℕ) (t : Transport)
      → WellFormed t
      → WellFormed (on_notification react now bytes t)
  unfolding on_notification
  on_notification-WellFormed bytes t w =
      let t' : Transport = drop_stale now t in
      let w' : WellFormed t' = drop_stale-WellFormed now t w in
      elim (Option-cases (take_fragment now bytes t')) [
        | inl h ↦ ground (arith, h, w, w')
        | inr (u, h) ↦
            let taken = taken-Between bytes t' u h w' in
            ground (arith, h, w, check_complete-WellFormed u taken.0 taken.1)
      ]
