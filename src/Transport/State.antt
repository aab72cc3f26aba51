-- ===== src/Transport/State.antt =====
-- The data members of `Transport`, and the parts that its operations share.
use esphome_alpha_hwr.Base.{
  ℕ, ◌+◌, ◌-◌, Bool, true, false, List, [], ◌∷◌, Option, ltb, leb, ◌==◌, if◌then◌else◌, sub_u32, u8,
}

-- A callback is its number, `none` where the code has an empty `std::function`. `quiet_timeout`, which
-- chooses the level of a log line, is left out.
pub record Command : Type 0 where
  pub packet : List ℕ
  pub bytes_sent : ℕ
  pub expect_type_low_ver : ℕ
  pub expect_type_high : ℕ
  pub callback : Option ℕ
  pub timeout_ms : ℕ
  pub timestamp_ms : ℕ
  pub waiting_for_response : Bool
  pub allow_register_read : Bool
  pub expect_short_ack : Bool
  pub expect_short_read_refusal : Bool
  pub suppressed_a_frame : Bool

pub record PendingHandler : Type 0 where
  pub object_id : ℕ
  pub sub_id : ℕ
  pub callback : Option ℕ
  pub timestamp_ms : ℕ

pub data State : Type 0 where
  idle sending_chunks awaiting_response : State

-- What the outside sees: a command's callback with its verdict and bytes (`none` is a null pointer), a
-- chunk given to the BLE write, a handler's payload, and a telegram that nothing claimed.
pub data Event : Type 0 where
  settled : ℕ → Bool → Option (List ℕ) → Event
  wrote : List ℕ → Event
  handled : ℕ → Option (List ℕ) → Event
  delivered : List ℕ → Event

pub record Transport : Type 0 where
  pub state : State
  pub queue : List Command
  pub last_send_time : ℕ
  pub send_pacing_ms : ℕ
  pub reassembling : Bool
  pub buffer : List ℕ
  pub expected_len : ℕ
  pub reassembly_started_ms : ℕ
  pub peer_resync_pending : Bool
  pub peer_resync_started_ms : ℕ
  pub handlers : List PendingHandler
  pub owed_replies : ℕ
  pub owed_pending : Bool
  pub owed_since_ms : ℕ
  pub crc_drops : ℕ
  pub abandoning : Bool
  pub has_write_callback : Bool
  pub has_packet_callback : Bool
  -- The events so far, newest first.
  pub log : List Event

-- The commands that a callback sends while it runs, by its number, verdict and bytes.
abbrev pub React : Type 0
React = ℕ → Bool → Option (List ℕ) → List Command

abbrev pub stale_reply_window_ms : ℕ
stale_reply_window_ms = 500

abbrev pub max_abandon_steps : ℕ
max_abandon_steps = 512

abbrev pub reassembly_timeout_ms : ℕ
reassembly_timeout_ms = 1000

abbrev pub peer_resync_hold_ms : ℕ
peer_resync_hold_ms = reassembly_timeout_ms + 100

abbrev pub ble_mtu_limit : ℕ
ble_mtu_limit = 20

abbrev pub max_pending_handlers : ℕ
max_pending_handlers = 10

-- A transport as its constructor leaves it, with a write and a packet callback set.
unfoldable pub new : Transport
new = record {
  state = idle;
  queue = [];
  last_send_time = 0;
  send_pacing_ms = 50;
  reassembling = false;
  buffer = [];
  expected_len = 0;
  reassembly_started_ms = 0;
  peer_resync_pending = false;
  peer_resync_started_ms = 0;
  handlers = [];
  owed_replies = 0;
  owed_pending = false;
  owed_since_ms = 0;
  crc_drops = 0;
  abandoning = false;
  has_write_callback = true;
  has_packet_callback = true;
  log = [];
}

unfoldable pub note_reply_owed : ℕ → Bool → Transport → Transport
note_reply_owed now already_suppressed t = if already_suppressed then t else record t {
  owed_replies = if ltb t.owed_replies 0xff then u8 (t.owed_replies + 1) else t.owed_replies;
  owed_pending = true;
  owed_since_ms = now;
}

-- `cmd` is the command at the head of the queue, and `rest` stands behind it.
unfoldable pub consume_owed_reply : Command → List Command → Transport → Transport
consume_owed_reply cmd rest t =
    let left = if ltb 0 t.owed_replies then t.owed_replies - 1 else t.owed_replies in
    record t {
      owed_replies = left;
      owed_pending = if left == 0 then false else t.owed_pending;
      queue = record cmd { suppressed_a_frame = true } ∷ rest;
    }

unfoldable pub stale_reply_possible : ℕ → Transport → Transport × Bool
stale_reply_possible now t =
    if t.owed_pending
    then (if leb stale_reply_window_ms (sub_u32 now t.owed_since_ms)
        then (record t { owed_pending = false; owed_replies = 0 }, false)
        else (t, ltb 0 t.owed_replies))
    else (t, false)
