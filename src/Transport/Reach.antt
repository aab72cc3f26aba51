-- ===== src/Transport/Reach.antt =====
-- The transports that the public operations reach.
use esphome_alpha_hwr.Base.{ℕ, Bool, List, Option, none, some, arith, Option-cases, inl, inr, false}
use esphome_alpha_hwr.Frame.Layout.{service_id_high, source_address}
use esphome_alpha_hwr.Frame.Builder.{build_geni_packet}
use esphome_alpha_hwr.Transport.State.{Transport, React, new}
use esphome_alpha_hwr.Transport.Queue.{
  Request, send_command, send_apdu_command, register_response_handler, check_timeouts, notify,
  reset,
}
use esphome_alpha_hwr.Transport.Loop.{loop}
use esphome_alpha_hwr.Transport.Receive.{on_notification}
use esphome_alpha_hwr.Transport.WellFormed.{
  WellFormed, new-WellFormed, send_command-WellFormed, register_response_handler-WellFormed,
  check_timeouts-WellFormed, head_fits-append,
}
use esphome_alpha_hwr.Transport.Keeping.{loop-WellFormed}
use esphome_alpha_hwr.Transport.Assembly.{on_notification-WellFormed}
use esphome_alpha_hwr.Transport.Abandon.{reset-WellFormed}

-- Any interleaving of the public operations, with any times, bytes and answers of the write.
pub data Reachable (react : React) : Transport → Type 0 where
  created : Reachable react new
  ticked :
      (now : ℕ) (accepted : Bool) (t : Transport)
      → Reachable react t
      → Reachable react (loop react now accepted t)
  notified :
      (now : ℕ) (bytes : List ℕ) (t : Transport)
      → Reachable react t
      → Reachable react (on_notification react now bytes t)
  sent :
      (packet : List ℕ) (r : Request) (t : Transport)
      → Reachable react t
      → Reachable react (send_command packet r t)
  sent_apdu :
      (apdu : List ℕ) (r : Request) (t : Transport)
      → Reachable react t
      → Reachable react (send_apdu_command react apdu r t)
  registered :
      (now object_id sub_id : ℕ) (callback : Option ℕ) (t : Transport)
      → Reachable react t
      → Reachable react (register_response_handler now object_id sub_id callback t)
  aged :
      (now timeout_ms : ℕ) (t : Transport)
      → Reachable react t
      → Reachable react (check_timeouts now timeout_ms t)
  was_reset : (t : Transport) → Reachable react t → Reachable react (reset react t)

module _ (react : React) where
  notify-WellFormed :
      (cb : Option ℕ) (t : Transport) → WellFormed t → WellFormed (notify react cb false none t)
  unfolding notify
  notify-WellFormed none t w = w
  notify-WellFormed (some id) t w = record {
    head = head_fits-append t.state t.queue _ w.head;
    buffered = w.buffered;
    debt = w.debt;
    few_handlers = w.few_handlers;
    not_abandoning = w.not_abandoning;
  }

  send_apdu_command-WellFormed :
      (apdu : List ℕ) (r : Request) (t : Transport)
      → WellFormed t
      → WellFormed (send_apdu_command react apdu r t)
  unfolding send_apdu_command
  send_apdu_command-WellFormed apdu r t w =
      elim (Option-cases (build_geni_packet service_id_high source_address apdu)) [
        | inl h ↦ ground (arith, h, notify-WellFormed r.callback t w)
        | inr (packet, h) ↦ ground (arith, h, send_command-WellFormed packet r t w)
      ]

  -- Whatever the public operations, in any order, at any times, with any bytes received and whatever
  -- the callbacks send, the transport stays well-formed: the head of the queue has an unsent part
  -- while chunks are sent and was sent in full, with a callback, while a response is awaited; nothing
  -- is buffered outside a reassembly, and inside it at most 259 bytes, fewer than announced; replies
  -- are owed just while the mark says so, at most 255; and at most 10 handlers are registered.
  pub Reachable-WellFormed : (t : Transport) → Reachable react t → WellFormed t
  Reachable-WellFormed _ created = new-WellFormed
  Reachable-WellFormed _ (ticked now accepted t r) =
      loop-WellFormed react now accepted t (Reachable-WellFormed t r)
  Reachable-WellFormed _ (notified now bytes t r) =
      on_notification-WellFormed react now bytes t (Reachable-WellFormed t r)
  Reachable-WellFormed _ (sent packet q t r) =
      send_command-WellFormed packet q t (Reachable-WellFormed t r)
  Reachable-WellFormed _ (sent_apdu apdu q t r) =
      send_apdu_command-WellFormed apdu q t (Reachable-WellFormed t r)
  Reachable-WellFormed _ (registered now object_id sub_id callback t r) =
      register_response_handler-WellFormed now object_id sub_id callback t
        (Reachable-WellFormed t r)
  Reachable-WellFormed _ (aged now timeout_ms t r) =
      check_timeouts-WellFormed now timeout_ms t (Reachable-WellFormed t r)
  Reachable-WellFormed _ (was_reset t r) = reset-WellFormed react t (Reachable-WellFormed t r)
