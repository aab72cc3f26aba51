-- ===== src/Transport/Abandon.antt =====
-- `reset` and `abandon_queue`: nothing is left over, and every callback hears of it.
use esphome_alpha_hwr.Base.{
  ℕ, zero, suc, ◌+◌, ◌≤◌, ◌≡◌, refl, ap, ◌∙◌, true, false, List, [], ◌∷◌, ◌++◌, Option, none, some,
  arith, length, length-append, append-nil,
}
use esphome_alpha_hwr.Transport.State.{Command, idle, Event, settled, Transport, React}
use esphome_alpha_hwr.Transport.Queue.{notify, drain, abandon_queue, reset}
use esphome_alpha_hwr.Transport.Order.{answered}
use esphome_alpha_hwr.Transport.WellFormed.{WellFormed}

-- A transport as a new one, but for the settings, the pacing, the statistics and the events.
pub record Cleared (t : Transport) : Type 0 where
  pub no_state : t.state ≡ idle
  pub no_queue : t.queue ≡ []
  pub no_reassembly : t.reassembling ≡ false
  pub no_buffer : t.buffer ≡ []
  pub no_length : t.expected_len ≡ 0
  pub no_handlers : t.handlers ≡ []
  pub no_hold : t.peer_resync_pending ≡ false
  pub no_debt : t.owed_replies ≡ 0
  pub no_mark : t.owed_pending ≡ false
  pub no_abandon : t.abandoning ≡ false

-- Between two steps of the loop.
record Draining (t : Transport) : Type 0 where
  empty : t.queue ≡ []
  not_reassembling : t.reassembling ≡ false
  no_bytes : t.buffer ≡ []
  no_expected : t.expected_len ≡ 0
  none_pending : t.handlers ≡ []
  not_held : t.peer_resync_pending ≡ false
  owes_nothing : t.owed_replies ≡ 0
  not_marked : t.owed_pending ≡ false

-- How many callbacks were called so far.
abbrev pub calls : Transport → ℕ
calls t = length (answered t.log)

abbrev wiped : Transport → Transport
wiped t = record t {
  reassembling = false;
  buffer = [];
  expected_len = 0;
  handlers = [];
  peer_resync_pending = false;
  owed_pending = false;
  owed_replies = 0;
  state = idle;
}

begun-Draining : (t : Transport) → Draining (record (wiped t) { queue = []; abandoning = true })
begun-Draining t = ground arith

module _ (react : React) where
  notify-Draining :
      (cb : Option ℕ) (t : Transport)
      → Draining t
      → Draining (record (notify react cb false none t) { queue = [] })
  unfolding notify
  notify-Draining none t d = ground (arith, d)
  notify-Draining (some id) t d = ground (arith, d)

  drain-Draining :
      (left : ℕ) (q : List Command) (t : Transport) → Draining t → Draining (drain react left q t)
  unfolding drain
  drain-Draining zero [] t d = d
  drain-Draining zero (cmd ∷ q) t d = d
  drain-Draining (suc left) [] t d = d
  drain-Draining (suc left) (cmd ∷ q) t d =
      drain-Draining left (q ++ (notify react cmd.callback false none t).queue) _
        (notify-Draining cmd.callback t d)

  -- Each step calls at most one callback.
  notify-calls :
      (cb : Option ℕ) (t : Transport) → calls (notify react cb false none t) ≤ calls t + 1
  unfolding notify
  notify-calls none t = omega arith
  notify-calls (some id) t = omega (arith, length-append (answered t.log) (id ∷ []))

  drain-calls :
      (left : ℕ) (q : List Command) (t : Transport) → calls (drain react left q t) ≤ calls t + left
  unfolding drain
  drain-calls zero [] t = omega arith
  drain-calls zero (cmd ∷ q) t = omega arith
  drain-calls (suc left) [] t = omega arith
  drain-calls (suc left) (cmd ∷ q) t = omega (
    arith,
    notify-calls cmd.callback t,
    drain-calls left (q ++ (notify react cmd.callback false none t).queue)
        (record (notify react cmd.callback false none t) { queue = [] }),
  )

  drained-Cleared :
      (u : Transport) → Draining u → Cleared (record u { abandoning = false; state = idle })
  drained-Cleared u d = ground (arith, d)

  reset_queue-Cleared :
      (q : List Command) (t : Transport)
      → t.abandoning ≡ false
      → Cleared (reset react (record t { queue = q }))
        × (calls (reset react (record t { queue = q })) ≤ calls t + 512)
  unfolding reset abandon_queue
  reset_queue-Cleared [] t a = (ground arith, omega arith)
  reset_queue-Cleared (cmd ∷ q) t a = (
    ground (arith, drained-Cleared _ (drain-Draining 512 (cmd ∷ q) _ (begun-Draining t))),
    ground (arith, drain-calls 512 (cmd ∷ q) (record (wiped t) { queue = []; abandoning = true })),
  )

  -- `reset` leaves a transport as a new one, but for the settings, the pacing, the statistics and the
  -- events: idle, with nothing queued, buffered, registered, held or owed. It calls at most 512
  -- callbacks, even where each of them sends again.
  pub reset-Cleared :
      (t : Transport)
      → t.abandoning ≡ false
      → Cleared (reset react t) × (calls (reset react t) ≤ calls t + 512)
  reset-Cleared t a = reset_queue-Cleared t.queue t a

  Cleared-WellFormed : (t : Transport) → Cleared t → WellFormed t
  Cleared-WellFormed t c = ground (arith, c)

  pub reset-WellFormed : (t : Transport) → WellFormed t → WellFormed (reset react t)
  reset-WellFormed t w = Cleared-WellFormed (reset react t) (reset-Cleared t w.not_abandoning).0

-- Clients that send nothing from a callback.
abbrev pub silent : React
silent id verdict bytes = []

abbrev hears : Option ℕ → List Event → List Event
hears none log = log
hears (some id) log = settled id false none ∷ log

-- What a queue hears when it is given up: each callback a failure, the head first.
abbrev pub refusals : List Command → List Event → List Event
refusals [] log = log
refusals (cmd ∷ queue) log = refusals queue (hears cmd.callback log)

silence :
    (cb : Option ℕ) (t : Transport)
    → t.queue ≡ []
    → ((notify silent cb false none t).queue ≡ [])
      × ((notify silent cb false none t).log ≡ hears cb t.log)
unfolding notify
silence none t e = (e, refl)
silence (some id) t e = (append-nil t.queue ∙ e, refl)

drain-refusals :
    (left : ℕ) (q : List Command) (t : Transport)
    → length q ≤ left
    → t.queue ≡ []
    → (drain silent left q t).log ≡ refusals q t.log
unfolding drain
drain-refusals zero [] t h e = refl
drain-refusals (suc left) [] t h e = refl
drain-refusals zero (cmd ∷ q) t h e = absurd (omega arith)
drain-refusals (suc left) (cmd ∷ q) t h e =
    ap (λ xs. (drain silent left (q ++ xs) u).log) (silence cmd.callback t e).0
    ∙ ap (λ xs. (drain silent left xs u).log) (append-nil q)
    ∙ drain-refusals left q u (omega arith) refl
    ∙ ap (refusals q) (silence cmd.callback t e).1
  where
    u : Transport
    u = record (notify silent cmd.callback false none t) { queue = [] }

reset_queue-refusals :
    (q : List Command) (t : Transport)
    → t.abandoning ≡ false
    → length q ≤ 512
    → (reset silent (record t { queue = q })).log ≡ refusals q t.log
unfolding reset abandon_queue
reset_queue-refusals [] t a h = ground arith
reset_queue-refusals (cmd ∷ q) t a h = ground (
  arith,
  drain-refusals 512 (cmd ∷ q) (record (wiped t) { queue = []; abandoning = true }) h refl,
)

-- A reset with at most 512 commands in the queue, whose clients send nothing from a callback, tells
-- every one of them the failure, once, the oldest first, and says nothing else.
pub reset-refusals :
    (t : Transport)
    → t.abandoning ≡ false
    → length t.queue ≤ 512
    → (reset silent t).log ≡ refusals t.queue t.log
reset-refusals t a h = reset_queue-refusals t.queue t a h
