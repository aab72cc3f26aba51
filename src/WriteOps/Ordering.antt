-- ===== src/WriteOps/Ordering.antt =====
-- The operations of `write_operation_service.cpp` that finish one operation keep the queue in order.
use esphome_alpha_hwr.Base.{
  ℕ, ◌+◌, ◌≤◌, ◌≡◌, refl, List, [], ◌∷◌, Option, none, some, arith, ◌==◌, Bool-cases, Option-cases,
  inl, inr,
}
use esphome_alpha_hwr.Floats.{Floats}
use esphome_alpha_hwr.Control.{Control}
use esphome_alpha_hwr.WriteOps.State.{
  WriteStatus, Work, Operation, Detail, Outcome, waiting, settled, Body, Service,
}
use esphome_alpha_hwr.WriteOps.Queue.{
  find, set_work, take_out, emit, start_front, finish_behind, finish_in, finish_op, apply, with_op,
}
use esphome_alpha_hwr.WriteOps.Order.{
  IsBetween, AllQueued, IsRunning, HasFront, IsMoving, IsKeeping, Leaves, Between-weaken,
  queued-IsStartable, IsOrdered, start_front-IsOrdered,
}
use esphome_alpha_hwr.WriteOps.Lookup.{
  Behind, set_work-Behind, set_work_same, find-take_out, IsStarted, IsWaiting, wait-HasFront,
  wait-Between,
}

module _ {F : Type 0} ⦃fl : Floats F⦄ where
  finish_front-IsOrdered :
      (low high : ℕ) (run : Body F) (seq : ℕ) (status : WriteStatus) (detail : Detail F)
      (op : Operation F) (ops : List (Operation F)) (s : Service F)
      → IsMoving run
      → IsBetween low (op ∷ ops) high
      → AllQueued ops
      → IsOrdered low high (start_front run ops (emit op status detail s))
  finish_front-IsOrdered low high run seq status detail op ops s moving b h =
      start_front-IsOrdered low high run ops (emit op status detail s) moving
        (Between-weaken (op.ticket.seq + 1) low ops high (omega (arith, b.0)) b.1)
        (queued-IsStartable ops _ h)

  finish_behind-IsOrdered :
      (low high : ℕ) (op : Operation F) (q : List (Operation F))
      (r : Option (Operation F × List (Operation F))) (status : WriteStatus) (detail : Detail F)
      (s : Service F)
      → s.queue ≡ op ∷ q
      → low ≤ op.ticket.seq
      → IsRunning op s.requests
      → Behind (op.ticket.seq + 1) q r high
      → IsOrdered low high (finish_behind op r status detail s)
  unfolding finish_behind emit
  finish_behind-IsOrdered low high op q none status detail s e le running h = record {
    between = rw e (le, h.0);
    front = rw e (running, h.1);
  }
  finish_behind-IsOrdered low high op q (some (found, rest)) status detail s e le running h =
      record { between = (le, h.0); front = (running, h.1) }

  -- A step that settles its operation, wherever it stands.
  settle-IsOrdered :
      (low high : ℕ) (run : Body F) (seq : ℕ) (w : Work F) (c : Control F) (status : WriteStatus)
      (detail : Detail F) (q : List (Operation F)) (s : Service F)
      → s.queue ≡ q
      → IsMoving run
      → IsOrdered low high s
      → IsOrdered low high (
          finish_in run seq status detail
            (set_work seq w q)
            (record s { queue = set_work seq w q; control = c }))
  unfolding finish_in set_work
  settle-IsOrdered low high run seq w c status detail [] s e moving h = record {
    between = rw e at h.between;
    front = tt;
  }
  settle-IsOrdered low high run seq w c status detail (op ∷ ops) s e moving h =
      let b : IsBetween low (op ∷ ops) high = rw e at h.between in
      let f : HasFront (op ∷ ops) s.requests = rw e at h.front in
      elim (Bool-cases (op.ticket.seq == seq)) [
        | inl here ↦
            rw (here, here)
              (finish_front-IsOrdered low high run seq status detail (record op { work = w }) ops
                (record s { queue = record op { work = w } ∷ ops; control = c }) moving b f.1)
        | inr there ↦
            rw (there, there)
              (finish_behind-IsOrdered low high op (set_work seq w ops)
                (take_out seq (set_work seq w ops)) status detail
                (record s { queue = op ∷ set_work seq w ops; control = c }) refl b.0 f.0
                (set_work-Behind (op.ticket.seq + 1) high seq w ops b.1 f.1))
      ]

  -- Where there is nothing to settle, `finish_` does nothing.
  finish_absent :
      (run : Body F) (seq : ℕ) (status : WriteStatus) (detail : Detail F) (q : List (Operation F))
      (s : Service F)
      → find seq q ≡ none
      → finish_in run seq status detail q s ≡ s
  unfolding finish_in finish_behind find
  finish_absent run seq status detail [] s e = refl
  finish_absent run seq status detail (op ∷ ops) s e =
      ground (arith, λ (f : find seq ops ≡ none). find-take_out seq ops f)

  -- `finish_` as a handler's step that settles its operation as it is.
  pub finish_op-with_op :
      (run : Body F) (seq : ℕ) (status : WriteStatus) (detail : Detail F) (s : Service F)
      → finish_op run seq status detail s ≡ with_op run seq (λ c t w. settled w c status detail) s
  unfolding finish_op with_op apply
  finish_op-with_op run seq status detail s = elim (Option-cases (find seq s.queue)) [
    | inl e ↦ rw (e, with_op) (finish_absent run seq status detail s.queue s e)
    | inr (op, e) ↦ rw (e, with_op) (simp (set_work_same seq s.queue op e) refl)
  ]

  pub apply-IsOrdered :
      (low high : ℕ) (run : Body F) (seq : ℕ) (o : Outcome F) (s : Service F)
      → IsMoving run
      → Leaves o
      → (IsWaiting o → IsStarted seq s.queue)
      → IsOrdered low high s
      → IsOrdered low high (apply run seq o s)
  unfolding apply finish_op
  apply-IsOrdered low high run seq (waiting w c asked) s moving leaves started h = record {
    between = wait-Between low high seq w s.queue h.between;
    front = wait-HasFront seq w s.queue asked s.requests leaves (started tt) h.front;
  }
  apply-IsOrdered low high run seq (settled w c status detail) s moving leaves started h =
      settle-IsOrdered low high run seq w c status detail s.queue s refl moving h

  -- A handler keeps the order, if it settles its operation or its operation has been started.
  pub with_op-IsOrdered :
      (low high : ℕ) (run : Body F) (seq : ℕ) (body : Body F) (s : Service F)
      → IsMoving run
      → IsKeeping body
      → IsStarted seq s.queue
      → IsOrdered low high s
      → IsOrdered low high (with_op run seq body s)
  unfolding with_op
  with_op-IsOrdered low high run seq body s moving leaves started h =
      elim (Option-cases (find seq s.queue)) [
        | inl e ↦ rw (e, with_op) h
        | inr (op, e) ↦
            rw (e, with_op)
              (apply-IsOrdered low high run seq (body s.control op.ticket op.work) s moving
                (leaves s.control op.ticket op.work (started op e)) (λ _. started) h)
      ]

  pub settling-IsOrdered :
      (low high : ℕ) (run : Body F) (seq : ℕ) (status : WriteStatus) (detail : Work F → Detail F)
      (s : Service F)
      → IsMoving run
      → IsOrdered low high s
      → IsOrdered low high (with_op run seq (λ c t w. settled w c status (detail w)) s)
  unfolding with_op
  settling-IsOrdered low high run seq status detail s moving h =
      elim (Option-cases (find seq s.queue)) [
        | inl e ↦ rw (e, with_op) h
        | inr (op, e) ↦
            rw (e, with_op)
              (apply-IsOrdered low high run seq (settled op.work s.control status (detail op.work))
                s moving tt (λ never. absurd never) h)
      ]
