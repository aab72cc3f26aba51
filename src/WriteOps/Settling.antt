-- ===== src/WriteOps/Settling.antt =====
-- What settles an operation of `write_operation_service.cpp`: `finish_`, its watchdog, a disconnect, and the
-- submission of another one for the same resource.
use esphome_alpha_hwr.Base.{
  ℕ, ◌≤◌, ◌≡◌, refl, List, [], ◌∷◌, none, some, arith, ltb, ◌==◌, ==_refl, Bool-cases, Option-cases,
  inl, inr,
}
use esphome_alpha_hwr.Floats.{Floats}
use esphome_alpha_hwr.WriteOps.State.{
  WriteStatus, Work, Operation, Detail, Outcome, waiting, settled, Body, Service,
}
use esphome_alpha_hwr.WriteOps.Queue.{
  started, ended, find, set_work, take_out, emit, begin, start_front, finish_behind, finish_in,
  finish_op, apply, with_op,
}
use esphome_alpha_hwr.WriteOps.Accounting.{
  pending, told, accounted, Begun-cases, BegunAccounts, begin_accounts, emit_accounted, TakesOne,
  take_out-TakesOne, pending-set_work,
}

module _ {F : Type 0} where
  find-pending : (k : ℕ) (q : List (Operation F)) → find k q ≡ none → pending k q ≡ 0
  unfolding find pending
  find-pending k [] e = refl
  find-pending k (op ∷ ops) e = ground (arith, λ (f : find k ops ≡ none). find-pending k ops f)

module _ {F : Type 0} ⦃fl : Floats F⦄ where
  pub start_front_told :
      (k : ℕ) (run : Body F) (q : List (Operation F)) (s : Service F)
      → told k s.outputs ≤ told k (start_front run q s).outputs
  unfolding start_front
  start_front_told k run [] s = omega arith
  start_front_told k run (op ∷ ops) s = elim (Begun-cases (begin run op s)) [
    | inl (op', s', e) ↦
        let h : BegunAccounts k op s (started op' s') = rw e at (begin_accounts k run op s) in
        rw (e, start_front) (omega (arith, h.1))
    | inr (s', e) ↦
        let h : BegunAccounts k op s (ended s') = rw e at (begin_accounts k run op s) in
        rw (e, start_front) (ground (arith, h, start_front_told k run ops s'))
  ]

  finish_in_told :
      (k seq : ℕ) (run : Body F) (status : WriteStatus) (detail : Detail F) (q : List (Operation F))
      (s : Service F)
      → told k s.outputs ≤ told k (finish_in run seq status detail q s).outputs
  unfolding finish_in finish_behind
  finish_in_told k seq run status detail [] s = omega arith
  finish_in_told k seq run status detail (op ∷ ops) s = elim (Bool-cases (op.ticket.seq == seq)) [
    | inl here ↦ rw here (
        ground (
          arith,
          emit_accounted k op status detail s,
          start_front_told k run ops (emit op status detail s),
        ))
    | inr there ↦ elim (Option-cases (take_out seq ops)) [
      | inl e ↦ rw (there, e) (omega arith)
      | inr ((found, rest), e) ↦
          rw (there, e)
            (ground (arith, emit_accounted k found status detail (record s { queue = op ∷ rest })))
    ]
  ]

  -- `finish_` on an operation of the queue tells its result.
  finish_in_settles :
      (k : ℕ) (run : Body F) (status : WriteStatus) (detail : Detail F) (q : List (Operation F))
      (s : Service F)
      → 1 ≤ pending k q
      → 1 ≤ told k (finish_in run k status detail q s).outputs
  unfolding finish_in finish_behind
  finish_in_settles k run status detail [] s h = unfold pending in omega (arith, h)
  finish_in_settles k run status detail (op ∷ ops) s h = elim (Bool-cases (op.ticket.seq == k)) [
    | inl here ↦ rw here (
        ground (
          arith,
          here,
          emit_accounted k op status detail s,
          start_front_told k run ops (emit op status detail s),
        ))
    | inr there ↦
        let taken = take_out-TakesOne k k ops in
        elim (Option-cases (take_out k ops)) [
          | inl e ↦
              let t : pending k ops ≡ 0 = rw e at taken in
              unfold pending in ground (arith, h, t, there)
          | inr ((found, rest), e) ↦
              let t : TakesOne k k ops (some (found, rest)) = rw e at taken in
              rw (there, e)
                (ground (
                  arith,
                  t.1,
                  ==_refl k,
                  emit_accounted k found status detail (record s { queue = op ∷ rest }),
                ))
        ]
  ]

  apply_told :
      (k seq : ℕ) (run : Body F) (o : Outcome F) (s : Service F)
      → told k s.outputs ≤ told k (apply run seq o s).outputs
  unfolding apply finish_op
  apply_told k seq run (waiting w c asked) s = omega arith
  apply_told k seq run (settled w c status detail) s =
      finish_in_told k seq run status detail (set_work seq w s.queue)
        (record s { queue = set_work seq w s.queue; control = c })

  pub with_op_told :
      (k seq : ℕ) (run body : Body F) (s : Service F)
      → told k s.outputs ≤ told k (with_op run seq body s).outputs
  unfolding with_op
  with_op_told k seq run body s = elim (Option-cases (find seq s.queue)) [
    | inl e ↦ rw (e, with_op) (omega arith)
    | inr (op, e) ↦ rw (e, with_op) (apply_told k seq run (body s.control op.ticket op.work) s)
  ]

  -- A handler that settles its operation whatever it is.
  pub settling_told :
      (k : ℕ) (run : Body F) (status : WriteStatus) (detail : Work F → Detail F) (s : Service F)
      → 1 ≤ accounted k s
      → 1 ≤ told k (with_op run k (λ c t w. settled w c status (detail w)) s).outputs
  unfolding with_op apply finish_op accounted
  settling_told k run status detail s h = elim (Option-cases (find k s.queue)) [
    | inl e ↦ rw (e, with_op) (omega (arith, h, find-pending k s.queue e))
    | inr (op, e) ↦ elim (Bool-cases (ltb 0 (pending k s.queue))) [
      | inl some_pending ↦
          rw (e, with_op)
            (finish_in_settles k run status (detail op.work) (set_work k op.work s.queue)
              (record s { queue = set_work k op.work s.queue })
              (ground (arith, pending-set_work k k op.work s.queue, some_pending)))
      | inr none_pending ↦
          rw (e, with_op)
            (ground (
              arith,
              h,
              none_pending,
              finish_in_told k k run status (detail op.work) (set_work k op.work s.queue)
                  (record s { queue = set_work k op.work s.queue }),
            ))
    ]
  ]
