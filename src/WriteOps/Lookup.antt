-- ===== src/WriteOps/Lookup.antt =====
-- What the lookups of `write_operation_service.cpp` leave of an ordered queue.
use esphome_alpha_hwr.Base.{
  ℕ, ◌+◌, ◌≡◌, refl, true, false, List, [], ◌∷◌, ◌++◌, Option, none, some, arith, ◌==◌, Bool-cases,
  Option-cases, inl, inr,
}
use esphome_alpha_hwr.WriteOps.State.{Work, Operation, ServiceCall, Outcome, waiting, settled}
use esphome_alpha_hwr.WriteOps.Queue.{is_queued, find, set_work, take_out}
use esphome_alpha_hwr.WriteOps.Keeping.{is_armed-append}
use esphome_alpha_hwr.WriteOps.Order.{IsBetween, AllQueued, HasFront, Between-weaken}

module _ {F : Type 0} where
  -- The queue that `set_work` and `take_out` leave behind the front.
  abbrev pub Behind :
      ℕ → List (Operation F) → Option (Operation F × List (Operation F)) → ℕ → Type 0
  Behind low q none high = IsBetween low q high × AllQueued q
  Behind low q (some (op, rest)) high = IsBetween low rest high × AllQueued rest

  pub set_work-Behind :
      (low high seq : ℕ) (w : Work F) (q : List (Operation F))
      → IsBetween low q high
      → AllQueued q
      → Behind low (set_work seq w q) (take_out seq (set_work seq w q)) high
  unfolding set_work take_out
  set_work-Behind low high seq w [] b h = (b, h)
  set_work-Behind low high seq w (op ∷ ops) b h = elim (Bool-cases (op.ticket.seq == seq)) [
    | inl here ↦
        rw (here, here)
          (Between-weaken (op.ticket.seq + 1) low ops high (omega (arith, b.0)) b.1, h.1)
    | inr there ↦
        let ih = set_work-Behind (op.ticket.seq + 1) high seq w ops b.1 h.1 in
        elim (Option-cases (take_out seq (set_work seq w ops))) [
          | inl e ↦
              let k : Behind (op.ticket.seq + 1) (set_work seq w ops) none high = rw e at ih in
              rw (there, there, e) ((b.0, k.0), (h.0, k.1))
          | inr ((found, rest), e) ↦
              let k : Behind (op.ticket.seq + 1) (set_work seq w ops) (some (found, rest)) high =
                rw e at ih in
              rw (there, there, e) ((b.0, k.0), (h.0, k.1))
        ]
  ]

  pub set_work_same :
      (seq : ℕ) (q : List (Operation F)) (op : Operation F)
      → find seq q ≡ some op
      → set_work seq op.work q ≡ q
  unfolding set_work find
  set_work_same seq [] op e = refl
  set_work_same seq (o ∷ ops) op e =
      ground (arith, λ (f : find seq ops ≡ some op). set_work_same seq ops op f)

  pub find-take_out : (seq : ℕ) (q : List (Operation F)) → find seq q ≡ none → take_out seq q ≡ none
  unfolding take_out find
  find-take_out seq [] e = refl
  find-take_out seq (op ∷ ops) e =
      ground (arith, λ (f : find seq ops ≡ none). find-take_out seq ops f)

  -- The operation of that number has been started.
  abbrev pub IsStarted : ℕ → List (Operation F) → Type 0
  IsStarted seq q = (op : Operation F) → find seq q ≡ some op → is_queued op.work.phase ≡ false

  pub find-AllQueued :
      (seq : ℕ) (q : List (Operation F)) (op : Operation F)
      → AllQueued q
      → find seq q ≡ some op
      → is_queued op.work.phase ≡ true
  unfolding find
  find-AllQueued seq [] op h e = ground arith
  find-AllQueued seq (o ∷ ops) op h e =
      ground (arith, h.0, λ (f : find seq ops ≡ some op). find-AllQueued seq ops op h.1 f)

  pub set_work_absent :
      (seq : ℕ) (w : Work F) (q : List (Operation F)) → find seq q ≡ none → set_work seq w q ≡ q
  unfolding set_work find
  set_work_absent seq w [] e = refl
  set_work_absent seq w (op ∷ ops) e =
      ground (arith, λ (f : find seq ops ≡ none). set_work_absent seq w ops f)

  abbrev pub IsWaiting : Outcome F → Type 0
  IsWaiting (waiting w c asked) = Unit {0}
  IsWaiting (settled w c status detail) = ⊥

  pub wait-HasFront :
      (seq : ℕ) (w : Work F) (q : List (Operation F)) (more old : List (ServiceCall F))
      → is_queued w.phase ≡ false
      → IsStarted seq q
      → HasFront q old
      → HasFront (set_work seq w q) (more ++ old)
  unfolding set_work
  wait-HasFront seq w [] more old leaves started h = tt
  wait-HasFront seq w (op ∷ ops) more old leaves started h =
      let waiters : op.ticket.seq == seq ≡ false → AllQueued (set_work seq w ops) = λ there.
        elim (Option-cases (find seq ops)) [
          | inl e ↦ rw (set_work_absent seq w ops e) (h.1)
          | inr (o, e) ↦
              ground (
                arith,
                find-AllQueued seq ops o h.1 e,
                started o (unfold find in rw (there, e) refl),
              )
        ] in
      elim (Bool-cases (op.ticket.seq == seq)) [
        | inl here ↦ rw here ((leaves, is_armed-append op.ticket.seq more old h.0.1), h.1)
        | inr there ↦
            rw there ((h.0.0, is_armed-append op.ticket.seq more old h.0.1), waiters there)
      ]

  pub wait-Between :
      (low high seq : ℕ) (w : Work F) (q : List (Operation F))
      → IsBetween low q high
      → IsBetween low (set_work seq w q) high
  unfolding set_work
  wait-Between low high seq w [] b = b
  wait-Between low high seq w (op ∷ ops) b = elim (Bool-cases (op.ticket.seq == seq)) [
    | inl here ↦ rw here b
    | inr there ↦ rw there (b.0, wait-Between (op.ticket.seq + 1) high seq w ops b.1)
  ]
