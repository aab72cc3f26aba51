-- ===== src/Transport/Loop.antt =====
-- `Transport::loop`: chunks, pacing and timeouts. `now` is `millis()`, and `accepted` is what the
-- write callback answers if it is called.
use esphome_alpha_hwr.Base.{
  ℕ, ◌+◌, ◌-◌, min, Bool, true, false, not, ◌&&◌, List, [], ◌∷◌, none, some, ltb, if◌then◌else◌,
  length, take, drop, sub_u32,
}
use esphome_alpha_hwr.Transport.State.{
  Command, State, idle, sending_chunks, awaiting_response, wrote, Transport, React, ble_mtu_limit,
  peer_resync_hold_ms, note_reply_owed,
}
use esphome_alpha_hwr.Transport.Queue.{fail_front_command}

abbrev pub has_callback : Command → Bool
has_callback cmd = elim cmd.callback [ none ↦ false | some _ ↦ true ]

-- The next chunk of the packet.
unfoldable pub chunk_of : Command → List ℕ
chunk_of cmd =
    take (min (length cmd.packet - cmd.bytes_sent) ble_mtu_limit) (drop cmd.bytes_sent cmd.packet)

module _ (react : React) where
  -- `fail_front_command_` and the return to IDLE.
  unfoldable pub fail : Transport → Transport
  fail t = record (fail_front_command react t) { state = idle }

  -- After an accepted chunk.
  unfoldable pub chunk_sent : ℕ → Command → List Command → Transport → Transport
  chunk_sent now cmd rest t =
      let sent = cmd.bytes_sent + min (length cmd.packet - cmd.bytes_sent) ble_mtu_limit in
      let u = record t { log = wrote (chunk_of cmd) ∷ t.log; last_send_time = now } in
      if ltb sent (length cmd.packet)
      then record u { queue = record cmd { bytes_sent = sent } ∷ rest }
      else if has_callback cmd
      then record u {
        state = awaiting_response;
        queue =
            record cmd { bytes_sent = sent; timestamp_ms = now; waiting_for_response = true }
            ∷ rest;
      }
      else record u { queue = rest; state = idle }

  -- After a refused chunk: a frame begun at the peer holds the next send back.
  unfoldable pub chunk_refused : ℕ → Command → Transport → Transport
  chunk_refused now cmd t =
      let u = record t { log = wrote (chunk_of cmd) ∷ t.log } in
      fail (
        if ltb 0 cmd.bytes_sent
        then record u { peer_resync_pending = true; peer_resync_started_ms = now }
        else u)

  -- The case SENDING_CHUNKS.
  unfoldable pub send_chunk : ℕ → Bool → Command → List Command → Transport → Transport
  send_chunk now accepted cmd rest t =
      if ltb (sub_u32 now t.last_send_time) t.send_pacing_ms
      then t
      else if not t.has_write_callback
      then fail t
      else if accepted
      then chunk_sent now cmd rest t
      else chunk_refused now cmd t

  -- The case IDLE, which falls through to the first chunk.
  unfoldable pub start_command : ℕ → Bool → Command → List Command → Transport → Transport
  start_command now accepted cmd rest t =
      let fresh = record cmd { bytes_sent = 0 } in
      let u = record t { peer_resync_pending = false } in
      if t.peer_resync_pending && ltb (sub_u32 now t.peer_resync_started_ms) peer_resync_hold_ms
      then t
      else if ltb (sub_u32 now t.last_send_time) t.send_pacing_ms
      then u
      else send_chunk now accepted fresh rest
          (record u { state = sending_chunks; queue = fresh ∷ rest })

  -- The case AWAITING_RESPONSE.
  unfoldable pub check_timeout : ℕ → Command → Transport → Transport
  check_timeout now cmd t =
      if ltb cmd.timeout_ms (sub_u32 now cmd.timestamp_ms)
      then fail (note_reply_owed now cmd.suppressed_a_frame t)
      else t

  unfoldable pub step : ℕ → Bool → State → Command → List Command → Transport → Transport
  step now accepted idle cmd rest t = start_command now accepted cmd rest t
  step now accepted sending_chunks cmd rest t = send_chunk now accepted cmd rest t
  step now accepted awaiting_response cmd rest t = check_timeout now cmd t

  unfoldable pub loop : ℕ → Bool → Transport → Transport
  loop now accepted t = elim t.queue [
    | [] ↦ record t { state = idle }
    | cmd ∷ rest ↦ step now accepted t.state cmd rest t
  ]
