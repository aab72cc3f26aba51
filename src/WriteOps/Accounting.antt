-- ===== src/WriteOps/Accounting.antt =====
-- Each operation of the queue of `write_operation_service.cpp` is in it or has been told its result, once.
use esphome_alpha_hwr.Base.{
  ℕ, ◌+◌, ◌≡◌, refl, sym, ◌⊎◌, List, [], ◌∷◌, ◌++◌, Option, none, some, arith, ◌==◌, if◌then◌else◌,
  ==_iff, Bool-cases, Option-cases, inl, inr,
}
use esphome_alpha_hwr.Floats.{Floats}
use esphome_alpha_hwr.WriteOps.State.{
  WriteStatus, rejected, Ticket, Work, Operation, Detail, Outcome, waiting, settled, Body, Output,
  result, done, status_done, Service, superseded,
}
use esphome_alpha_hwr.WriteOps.Report.{make_result, report, blank_result}
use esphome_alpha_hwr.WriteOps.Queue.{
  is_queued, is_refusing, Begun, started, ended, find, set_work, take_out, call_done, emit,
  begin_run, begin, start_front, finish_behind, finish_in, finish_op, apply, with_op, finish_all,
  superseded_seqs, enqueue, disconnect_all, superseding,
}

module _ {F : Type 0} where
  -- How many operations of the queue have this number, and how many results have been told for it.
  unfoldable pub pending : ℕ → List (Operation F) → ℕ
  pending n [] = 0
  pending n (op ∷ ops) = (if op.ticket.seq == n then 1 else 0) + pending n ops

  unfoldable pub told : ℕ → List (Output F) → ℕ
  told n [] = 0
  told n (result r ∷ outputs) = (if r.of.seq == n then 1 else 0) + told n outputs
  told n (done _ _ ∷ outputs) = told n outputs
  told n (status_done _ _ ∷ outputs) = told n outputs

  unfoldable pub accounted : ℕ → Service F → ℕ
  accounted n s = pending n s.queue + told n s.outputs

  pub pending-set_work :
      (n seq : ℕ) (w : Work F) (q : List (Operation F)) → pending n (set_work seq w q) ≡ pending n q
  unfolding pending set_work
  pending-set_work n seq w [] = refl
  pending-set_work n seq w (op ∷ ops) = ground (arith, pending-set_work n seq w ops)

  pub pending-append :
      (n : ℕ) (p q : List (Operation F)) → pending n (p ++ q) ≡ pending n p + pending n q
  unfolding pending
  pending-append n [] q = omega arith
  pending-append n (op ∷ ops) q = omega (arith, pending-append n ops q)

  -- Taking an operation out takes one away from its number and leaves the others.
  abbrev pub TakesOne :
      ℕ → ℕ → List (Operation F) → Option (Operation F × List (Operation F)) → Type 0
  TakesOne n seq q none = pending seq q ≡ 0
  TakesOne n seq q (some (op, rest)) =
      (pending n q ≡ (if op.ticket.seq == n then 1 else 0) + pending n rest) × (op.ticket.seq ≡ seq)

  pub take_out-TakesOne : (n seq : ℕ) (q : List (Operation F)) → TakesOne n seq q (take_out seq q)
  unfolding pending take_out
  take_out-TakesOne n seq [] = refl
  take_out-TakesOne n seq (op ∷ ops) = elim (Bool-cases (op.ticket.seq == seq)) [
    | inl here ↦ rw here (refl, (==_iff op.ticket.seq seq).0 here)
    | inr there ↦ elim (Option-cases (take_out seq ops)) [
      | inl e ↦
          let ih : pending seq ops ≡ 0 = rw e at (take_out-TakesOne n seq ops) in
          rw (there, e) (ground (arith, ih, there))
      | inr ((found, rest), e) ↦
          let ih : TakesOne n seq ops (some (found, rest)) =
            rw e at (take_out-TakesOne n seq ops) in
          rw (there, e) (omega (arith, ih.0), ih.1)
    ]
  ]

  call_done_told :
      (n : ℕ) (t : Ticket) (status : WriteStatus) (outputs : List (Output F))
      → told n (call_done t status outputs) ≡ told n outputs
  unfolding told call_done
  call_done_told n t status outputs = ground arith

module _ {F : Type 0} ⦃fl : Floats F⦄ where
  make_result_of :
      (t : Ticket) (w : Work F) (status : WriteStatus) (detail : Detail F)
      → (make_result t w status detail).of ≡ t
  unfolding make_result report blank_result
  make_result_of t w status detail = ground arith

  pub emit_accounted :
      (n : ℕ) (op : Operation F) (status : WriteStatus) (detail : Detail F) (s : Service F)
      → told n (emit op status detail s).outputs
        ≡ (if op.ticket.seq == n then 1 else 0) + told n s.outputs
  unfolding emit told
  emit_accounted n op status detail s =
      rw
        (
          call_done_told n op.ticket status
              (result (make_result op.ticket op.work status detail) ∷ s.outputs),
          make_result_of op.ticket op.work status detail,
        )
        refl

  pub Begun-cases :
      (b : Begun F)
      → ((op : Operation F) × (s : Service F) × (b ≡ started op s))
        ⊎ ((s : Service F) × (b ≡ ended s))
  Begun-cases (started op s) = inl (op, s, refl)
  Begun-cases (ended s) = inr (s, refl)

  abbrev pub BegunAccounts : ℕ → Operation F → Service F → Begun F → Type 0
  BegunAccounts n op s (started op' s') =
      (op'.ticket ≡ op.ticket) × (told n s'.outputs ≡ told n s.outputs)
  BegunAccounts n op s (ended s') =
      told n s'.outputs ≡ (if op.ticket.seq == n then 1 else 0) + told n s.outputs

  begin_run_accounts :
      (n : ℕ) (op : Operation F) (o : Outcome F) (s : Service F)
      → BegunAccounts n op s (begin_run op o s)
  unfolding begin_run
  begin_run_accounts n op (waiting w c asked) s = (refl, refl)
  begin_run_accounts n op (settled w c status detail) s =
      emit_accounted n (record op { work = w }) status detail (record s { control = c })

  pub begin_accounts :
      (n : ℕ) (run : Body F) (op : Operation F) (s : Service F)
      → BegunAccounts n op s (begin run op s)
  unfolding begin
  begin_accounts n run op s = elim (Bool-cases (is_queued op.work.phase)) [
    | inr e ↦ rw e (refl, refl)
    | inl e ↦ elim (Bool-cases (is_refusing s.ready_check)) [
      | inl bad ↦ rw (e, bad) (emit_accounted n op rejected _ s)
      | inr go ↦ rw (e, go) (begin_run_accounts n op (run s.control op.ticket op.work) _)
    ]
  ]

  pub accounted-start_front :
      (n : ℕ) (run : Body F) (q : List (Operation F)) (s : Service F)
      → accounted n (start_front run q s) ≡ pending n q + told n s.outputs
  unfolding start_front accounted pending
  accounted-start_front n run [] s = refl
  accounted-start_front n run (op ∷ ops) s = elim (Begun-cases (begin run op s)) [
    | inl (op', s', e) ↦
        let h : BegunAccounts n op s (started op' s') = rw e at (begin_accounts n run op s) in
        rw (e, start_front) (rw (h.0, h.1) refl)
    | inr (s', e) ↦
        let h : BegunAccounts n op s (ended s') = rw e at (begin_accounts n run op s) in
        rw (e, start_front) (rw (accounted-start_front n run ops s', h) (omega arith))
  ]

  accounted-finish_in :
      (n : ℕ) (run : Body F) (seq : ℕ) (status : WriteStatus) (detail : Detail F)
      (q : List (Operation F)) (s : Service F)
      → q ≡ s.queue
      → accounted n (finish_in run seq status detail q s) ≡ pending n q + told n s.outputs
  unfolding finish_in accounted pending told finish_behind emit
  accounted-finish_in n run seq status detail [] s same = rw (sym same) refl
  accounted-finish_in n run seq status detail (op ∷ ops) s same =
      elim (Bool-cases (op.ticket.seq == seq)) [
        | inl here ↦
            rw
              (
                here,
                accounted-start_front n run ops (emit op status detail s),
                emit_accounted n op status detail s,
              )
              (omega arith)
        | inr there ↦
            let taken = take_out-TakesOne n seq ops in
            elim (Option-cases (take_out seq ops)) [
              | inl e ↦ rw (there, e, sym same) refl
              | inr ((found, rest), e) ↦
                  let t : TakesOne n seq ops (some (found, rest)) = rw e at taken in
                  rw
                    (
                      there,
                      e,
                      emit_accounted n found status detail (record s { queue = op ∷ rest }),
                      t.0,
                    )
                    (omega arith)
            ]
      ]

  pub finish_accounted :
      (n : ℕ) (run : Body F) (seq : ℕ) (status : WriteStatus) (detail : Detail F) (s : Service F)
      → accounted n (finish_op run seq status detail s) ≡ accounted n s
  unfolding finish_op accounted
  finish_accounted n run seq status detail s =
      accounted-finish_in n run seq status detail s.queue s refl

  pub accounted-apply :
      (n : ℕ) (run : Body F) (seq : ℕ) (o : Outcome F) (s : Service F)
      → accounted n (apply run seq o s) ≡ accounted n s
  unfolding apply
  accounted-apply n run seq (waiting w c asked) s =
      unfold accounted in rw (pending-set_work n seq w s.queue) refl
  accounted-apply n run seq (settled w c status detail) s =
      rw
        (finish_accounted n run seq status detail
          (record s { queue = set_work seq w s.queue; control = c }))
        (unfold accounted in rw (pending-set_work n seq w s.queue) refl)

  pub accounted-with_op :
      (n : ℕ) (run : Body F) (seq : ℕ) (body : Body F) (s : Service F)
      → accounted n (with_op run seq body s) ≡ accounted n s
  unfolding with_op
  accounted-with_op n run seq body s = elim (Option-cases (find seq s.queue)) [
    | inl e ↦ rw (e, with_op) refl
    | inr (op, e) ↦ rw (e, with_op) (accounted-apply n run seq (body s.control op.ticket op.work) s)
  ]

  accounted-finish_all :
      (n : ℕ) (run : Body F) (seqs : List ℕ) (status : WriteStatus) (detail : Detail F)
      (s : Service F)
      → accounted n (finish_all run seqs status detail s) ≡ accounted n s
  unfolding finish_all
  accounted-finish_all n run [] status detail s = refl
  accounted-finish_all n run (seq ∷ seqs) status detail s =
      rw
        (
          accounted-finish_all n run seqs status detail (finish_op run seq status detail s),
          finish_accounted n run seq status detail s,
        )
        refl

  pub accounted-disconnect_all :
      (n : ℕ) (run : Body F) (seqs : List ℕ) (s : Service F)
      → accounted n (disconnect_all run seqs s) ≡ accounted n s
  unfolding disconnect_all
  accounted-disconnect_all n run [] s = refl
  accounted-disconnect_all n run (seq ∷ seqs) s =
      rw (accounted-disconnect_all n run seqs _, accounted-with_op n run seq _ s) refl

  pub accounted-enqueue :
      (n : ℕ) (run : Body F) (op : Operation F) (s : Service F)
      → accounted n (enqueue run op s) ≡ (if op.ticket.seq == n then 1 else 0) + accounted n s
  unfolding enqueue
  accounted-enqueue n run op s =
      let s' : Service F =
        finish_all run (superseded_seqs op s.queue) superseded (superseding op.ticket) s in
      let before : accounted n s' ≡ accounted n s =
        accounted-finish_all n run (superseded_seqs op s.queue) superseded (superseding op.ticket)
          s in
      rw
        (
          accounted-start_front n run (s'.queue ++ (op ∷ [])) s',
          pending-append n s'.queue (op ∷ []),
        )
        (rw⁻¹ before (unfold accounted pending in omega arith))
