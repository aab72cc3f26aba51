-- ===== src/WriteOps/Order.antt =====
-- The order of the queue of `write_operation_service.cpp`: only the front runs, its watchdog is armed, and
-- the others wait behind it as they were submitted.
use esphome_alpha_hwr.Base.{
  ℕ, ◌+◌, ◌≤◌, ◌≡◌, refl, ◌⊎◌, true, false, List, [], ◌∷◌, arith, Bool-cases, inl, inr,
}
use esphome_alpha_hwr.Floats.{Floats}
use esphome_alpha_hwr.Control.{Control}
use esphome_alpha_hwr.WriteOps.State.{
  Ticket, Work, Operation, ServiceCall, Outcome, waiting, settled, Body, Service,
}
use esphome_alpha_hwr.WriteOps.Queue.{
  is_queued, is_refusing, Begun, started, ended, begin_run, begin, start_front,
}
use esphome_alpha_hwr.WriteOps.Accounting.{Begun-cases}
use esphome_alpha_hwr.WriteOps.Keeping.{is_armed, is_armed-append}

module _ {F : Type 0} where
  -- The numbers of the queue increase, from `low` on and below `high`.
  abbrev pub IsBetween : ℕ → List (Operation F) → ℕ → Type 0
  IsBetween low [] high = low ≤ high
  IsBetween low (op ∷ ops) high = (low ≤ op.ticket.seq) × IsBetween (op.ticket.seq + 1) ops high

  abbrev pub AllQueued : List (Operation F) → Type 0
  AllQueued [] = Unit {0}
  AllQueued (op ∷ ops) = (is_queued op.work.phase ≡ true) × AllQueued ops

  abbrev pub IsRunning : Operation F → List (ServiceCall F) → Type 0
  IsRunning op requests =
      (is_queued op.work.phase ≡ false) × (is_armed op.ticket.seq requests ≡ true)

  abbrev pub HasFront : List (Operation F) → List (ServiceCall F) → Type 0
  HasFront [] requests = Unit {0}
  HasFront (op ∷ ops) requests = IsRunning op requests × AllQueued ops

  -- What `start_front_` is called on: its front runs already, or waits like the others.
  abbrev pub IsStartable : List (Operation F) → List (ServiceCall F) → Type 0
  IsStartable [] requests = Unit {0}
  IsStartable (op ∷ ops) requests =
      ((is_queued op.work.phase ≡ true) ⊎ IsRunning op requests) × AllQueued ops

  abbrev pub Leaves : Outcome F → Type 0
  Leaves (waiting w c asked) = is_queued w.phase ≡ false
  Leaves (settled w c status detail) = Unit {0}

  -- A step that waits for something has taken its operation out of `QUEUED`.
  abbrev pub IsMoving : Body F → Type 0
  IsMoving body = (c : Control F) (t : Ticket) (w : Work F) → Leaves (body c t w)

  -- A step of an operation that has been started leaves it so.
  abbrev pub IsKeeping : Body F → Type 0
  IsKeeping body =
      (c : Control F) (t : Ticket) (w : Work F) → is_queued w.phase ≡ false → Leaves (body c t w)

  pub Between-weaken :
      (low low' : ℕ) (q : List (Operation F)) (high : ℕ)
      → low' ≤ low
      → IsBetween low q high
      → IsBetween low' q high
  Between-weaken low low' [] high le h = omega arith
  Between-weaken low low' (op ∷ ops) high le h = (omega (arith, h.0), h.1)

  pub queued-IsStartable :
      (q : List (Operation F)) (requests : List (ServiceCall F))
      → AllQueued q
      → IsStartable q requests
  queued-IsStartable [] requests h = h
  queued-IsStartable (op ∷ ops) requests h = (inl h.0, h.1)

pub record IsOrdered {F : Type 0} (low high : ℕ) (s : Service F) : Type 0 where
  pub between : IsBetween low s.queue high
  pub front : HasFront s.queue s.requests

module _ {F : Type 0} ⦃fl : Floats F⦄ where
  abbrev BegunFront : Operation F → Begun F → Type 0
  BegunFront op (started op' s) = IsRunning op' s.requests × (op'.ticket ≡ op.ticket)
  BegunFront op (ended s) = Unit {0}

  begin_run_front :
      (op : Operation F) (o : Outcome F) (s : Service F)
      → Leaves o
      → is_armed op.ticket.seq s.requests ≡ true
      → BegunFront op (begin_run op o s)
  unfolding begin_run
  begin_run_front op (waiting w c asked) s leaves armed =
      ((leaves, is_armed-append op.ticket.seq asked s.requests armed), refl)
  begin_run_front op (settled w c status detail) s leaves armed = leaves

  begin_front :
      (run : Body F) (op : Operation F) (s : Service F)
      → IsMoving run
      → (is_queued op.work.phase ≡ true) ⊎ IsRunning op s.requests
      → BegunFront op (begin run op s)
  unfolding begin
  begin_front run op s moving (inr h) = rw (h.0) (h, refl)
  begin_front run op s moving (inl e) = elim (Bool-cases (is_refusing s.ready_check)) [
    | inl bad ↦ rw (e, bad) tt
    | inr go ↦
        rw (e, go)
          (begin_run_front op (run s.control op.ticket op.work) _
            (moving s.control op.ticket op.work) (unfold is_armed in ground arith))
  ]

  pub start_front-IsOrdered :
      (low high : ℕ) (run : Body F) (q : List (Operation F)) (s : Service F)
      → IsMoving run
      → IsBetween low q high
      → IsStartable q s.requests
      → IsOrdered low high (start_front run q s)
  unfolding start_front
  start_front-IsOrdered low high run [] s moving b h = record { between = b; front = tt }
  start_front-IsOrdered low high run (op ∷ ops) s moving b h = elim (Begun-cases (begin run op s)) [
    | inl (op', s', e) ↦
        let f : BegunFront op (started op' s') = rw e at (begin_front run op s moving h.0) in
        rw (e, start_front) (record { between = rw f.1 b; front = (f.0, h.1) })
    | inr (s', e) ↦
        rw (e, start_front)
          (start_front-IsOrdered low high run ops s' moving
            (Between-weaken (op.ticket.seq + 1) low ops high (omega (arith, b.0)) b.1)
            (queued-IsStartable ops s'.requests h.1))
  ]
