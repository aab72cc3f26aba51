-- ===== src/Transport/Queue.antt =====
-- The command queue: sending, settling the head, and abandoning all of it.
use esphome_alpha_hwr.Base.{
  ℕ, zero, suc, Bool, true, false, List, [], ◌∷◌, ◌++◌, Option, none, some, ltb, leb, if◌then◌else◌,
  length, sub_u32,
}
use esphome_alpha_hwr.Frame.Layout.{service_id_high, source_address}
use esphome_alpha_hwr.Frame.Builder.{build_geni_packet}
use esphome_alpha_hwr.Transport.State.{
  Command, PendingHandler, idle, settled, Transport, React, max_abandon_steps, max_pending_handlers,
}

-- The parameters of `send_command`, on a packet that is built.
pub record Request : Type 0 where
  pub expect_type_low_ver : ℕ
  pub expect_type_high : ℕ
  pub callback : Option ℕ
  pub timeout_ms : ℕ
  pub allow_register_read : Bool
  pub expect_short_ack : Bool
  pub expect_short_read_refusal : Bool

unfoldable pub command : List ℕ → Request → Command
command packet r = record {
  packet = packet;
  bytes_sent = 0;
  expect_type_low_ver = r.expect_type_low_ver;
  expect_type_high = r.expect_type_high;
  callback = r.callback;
  timeout_ms = r.timeout_ms;
  timestamp_ms = 0;
  waiting_for_response = false;
  allow_register_read = r.allow_register_read;
  expect_short_ack = r.expect_short_ack;
  expect_short_read_refusal = r.expect_short_read_refusal;
  suppressed_a_frame = false;
}

unfoldable pub send_command : List ℕ → Request → Transport → Transport
unfolding command
send_command packet r t = record t { queue = t.queue ++ (command packet r ∷ []) }

unfoldable pub register_response_handler : ℕ → ℕ → ℕ → Option ℕ → Transport → Transport
register_response_handler now object_id sub_id callback t =
    let handler : PendingHandler = record {
      object_id = object_id;
      sub_id = sub_id;
      callback = callback;
      timestamp_ms = now;
    } in
    if leb max_pending_handlers (length t.handlers)
    then t
    else record t { handlers = t.handlers ++ (handler ∷ []) }

-- `remove_if` by age.
unfoldable pub young_handlers : ℕ → ℕ → List PendingHandler → List PendingHandler
young_handlers now timeout_ms [] = []
young_handlers now timeout_ms (h ∷ hs) =
    let kept = young_handlers now timeout_ms hs in
    if ltb timeout_ms (sub_u32 now h.timestamp_ms) then kept else h ∷ kept

unfoldable pub check_timeouts : ℕ → ℕ → Transport → Transport
unfolding young_handlers
check_timeouts now timeout_ms t = record t { handlers = young_handlers now timeout_ms t.handlers }

module _ (react : React) where
  -- A call of `callback`, if there is one.
  unfoldable pub notify : Option ℕ → Bool → Option (List ℕ) → Transport → Transport
  notify none verdict bytes t = t
  notify (some id) verdict bytes t = record t {
    log = settled id verdict bytes ∷ t.log;
    queue = t.queue ++ react id verdict bytes;
  }

  -- The head is off the queue before its callback runs.
  unfoldable pub complete_front_command : Bool → Option (List ℕ) → Transport → Transport
  complete_front_command verdict bytes t = elim t.queue [
    | [] ↦ t
    | cmd ∷ rest ↦ notify cmd.callback verdict bytes (record t { queue = rest })
  ]

  unfoldable pub fail_front_command : Transport → Transport
  fail_front_command t = complete_front_command false none t

  -- The drain loop of `abandon_queue_`, with the steps left to the cap. What the callbacks send while
  -- it runs is taken over after each step.
  unfoldable pub drain : ℕ → List Command → Transport → Transport
  drain left [] t = t
  drain zero (cmd ∷ abandoned) t = t
  drain (suc left) (cmd ∷ abandoned) t =
      let t' = notify cmd.callback false none t in
      drain left (abandoned ++ t'.queue) (record t' { queue = [] })

  abbrev pub is_empty : List Command → Bool
  is_empty [] = true
  is_empty (_ ∷ _) = false

  unfoldable pub abandon_queue : Transport → Transport
  abandon_queue t =
      let drained = drain max_abandon_steps t.queue (record t { queue = []; abandoning = true }) in
      if is_empty t.queue
      then t
      else if t.abandoning
      then t
      else record drained { abandoning = false; state = idle }

  unfoldable pub reset : Transport → Transport
  reset t = abandon_queue (record t {
    reassembling = false;
    buffer = [];
    expected_len = 0;
    handlers = [];
    peer_resync_pending = false;
    owed_pending = false;
    owed_replies = 0;
    state = idle;
  })

  -- An APDU that cannot be framed is reported at once.
  unfoldable pub send_apdu_command : List ℕ → Request → Transport → Transport
  send_apdu_command apdu r t = elim (build_geni_packet service_id_high source_address apdu) [
    | none ↦ notify r.callback false none t
    | some packet ↦ send_command packet r t
  ]
