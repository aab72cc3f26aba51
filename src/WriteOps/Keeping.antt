-- ===== src/WriteOps/Keeping.antt =====
-- What no operation of the queue of `write_operation_service.cpp` but `submit_` changes: the number of the
-- next operation, and the watchdogs armed so far.
use esphome_alpha_hwr.Base.{
  ℕ, ◌≡◌, refl, ◌∙◌, Bool, true, false, ◌||◌, List, [], ◌∷◌, ◌++◌, arith, ◌==◌, Bool-cases,
  Option-cases, inl, inr,
}
use esphome_alpha_hwr.Floats.{Floats}
use esphome_alpha_hwr.WriteOps.State.{
  WriteStatus, rejected, Operation, Detail, ServiceCall, watchdog, Outcome, waiting, settled, Body,
  Service,
}
use esphome_alpha_hwr.WriteOps.Queue.{
  is_queued, is_refusing, watchdog_budget, Begun, started, ended, find, set_work, take_out, emit,
  begin_run, begin, start_front, finish_behind, finish_in, finish_op, apply, with_op, finish_all,
  disconnect_all,
}
use esphome_alpha_hwr.WriteOps.Accounting.{Begun-cases}

module _ {F : Type 0} where
  unfoldable pub is_armed : ℕ → List (ServiceCall F) → Bool
  is_armed n [] = false
  is_armed n (watchdog seq _ ∷ requests) = seq == n || is_armed n requests
  is_armed n (_ ∷ requests) = is_armed n requests

  pub is_armed-append :
      (n : ℕ) (more old : List (ServiceCall F))
      → is_armed n old ≡ true
      → is_armed n (more ++ old) ≡ true
  unfolding is_armed
  is_armed-append n [] old h = h
  is_armed-append n (r ∷ more) old h = ground (arith, is_armed-append n more old h)

pub record Keeps {F : Type 0} (s s' : Service F) : Type 0 where
  pub same_next : s'.next_seq ≡ s.next_seq
  pub same_ready : s'.ready_check ≡ s.ready_check
  pub armed_kept : (n : ℕ) → is_armed n s.requests ≡ true → is_armed n s'.requests ≡ true

module _ {F : Type 0} where
  pub Keeps-refl : (s : Service F) → Keeps s s
  Keeps-refl s = record { same_next = refl; same_ready = refl; armed_kept = λ n h. h }

  pub Keeps-trans : (a b c : Service F) → Keeps a b → Keeps b c → Keeps a c
  Keeps-trans a b c f g = record {
    same_next = g.same_next ∙ f.same_next;
    same_ready = g.same_ready ∙ f.same_ready;
    armed_kept = λ n h. g.armed_kept n (f.armed_kept n h);
  }

module _ {F : Type 0} ⦃fl : Floats F⦄ where
  pub emit-Keeps :
      (op : Operation F) (status : WriteStatus) (detail : Detail F) (s : Service F)
      → Keeps s (emit op status detail s)
  unfolding emit
  emit-Keeps op status detail s = record {
    same_next = refl;
    same_ready = refl;
    armed_kept = λ n h. h;
  }

  abbrev pub BegunKeeps : Service F → Begun F → Type 0
  BegunKeeps s (started op s') = Keeps s s'
  BegunKeeps s (ended s') = Keeps s s'

  begin_run_Keeps :
      (op : Operation F) (o : Outcome F) (s : Service F) → BegunKeeps s (begin_run op o s)
  unfolding begin_run
  begin_run_Keeps op (waiting w c asked) s = record {
    same_next = refl;
    same_ready = refl;
    armed_kept = λ n h. is_armed-append n asked s.requests h;
  }
  begin_run_Keeps op (settled w c status detail) s =
      Keeps-trans s (record s { control = c }) _
        (record { same_next = refl; same_ready = refl; armed_kept = λ n h. h })
        (emit-Keeps (record op { work = w }) status detail (record s { control = c }))

  pub begin_Keeps :
      (run : Body F) (op : Operation F) (s : Service F) → BegunKeeps s (begin run op s)
  unfolding begin
  begin_Keeps run op s = elim (Bool-cases (is_queued op.work.phase)) [
    | inr e ↦ rw e (Keeps-refl s)
    | inl e ↦ elim (Bool-cases (is_refusing s.ready_check)) [
      | inl bad ↦ rw (e, bad) (emit-Keeps op rejected _ s)
      | inr go ↦
          let armed : Service F = record s {
            requests =
                watchdog op.ticket.seq (watchdog_budget op.ticket.command op.work.clear_by_vacation)
                ∷ s.requests;
          } in
          rw (e, go)
            (after s armed (run s.control op.ticket op.work) op (record {
              same_next = refl;
              same_ready = refl;
              armed_kept = λ n h. unfold is_armed in ground (arith, h);
            }))
    ]
  ]
    where
      after :
          (s s' : Service F) (o : Outcome F) (op : Operation F)
          → Keeps s s'
          → BegunKeeps s (begin_run op o s')
      after s s' o op k = elim (Begun-cases (begin_run op o s')) [
        | inl (op', t, e) ↦ rw e (
            Keeps-trans s s' t k
              (let h : BegunKeeps s' (started op' t) = rw e at (begin_run_Keeps op o s') in h))
        | inr (t, e) ↦ rw e (
            Keeps-trans s s' t k
              (let h : BegunKeeps s' (ended t) = rw e at (begin_run_Keeps op o s') in h))
      ]

  pub start_front-Keeps :
      (run : Body F) (q : List (Operation F)) (s : Service F) → Keeps s (start_front run q s)
  unfolding start_front
  start_front-Keeps run [] s = record { same_next = refl; same_ready = refl; armed_kept = λ n h. h }
  start_front-Keeps run (op ∷ ops) s = elim (Begun-cases (begin run op s)) [
    | inl (op', s', e) ↦
        let h : BegunKeeps s (started op' s') = rw e at (begin_Keeps run op s) in
        rw (e, start_front)
          (record { same_next = h.same_next; same_ready = h.same_ready; armed_kept = h.armed_kept })
    | inr (s', e) ↦
        let h : BegunKeeps s (ended s') = rw e at (begin_Keeps run op s) in
        rw (e, start_front) (Keeps-trans s s' _ h (start_front-Keeps run ops s'))
  ]

  finish_in-Keeps :
      (run : Body F) (seq : ℕ) (status : WriteStatus) (detail : Detail F) (q : List (Operation F))
      (s : Service F)
      → Keeps s (finish_in run seq status detail q s)
  unfolding finish_in finish_behind
  finish_in-Keeps run seq status detail [] s = Keeps-refl s
  finish_in-Keeps run seq status detail (op ∷ ops) s = elim (Bool-cases (op.ticket.seq == seq)) [
    | inl here ↦ rw here (
        Keeps-trans s _ _ (emit-Keeps op status detail s)
          (start_front-Keeps run ops (emit op status detail s)))
    | inr there ↦ elim (Option-cases (take_out seq ops)) [
      | inl e ↦ rw (there, e) (Keeps-refl s)
      | inr ((found, rest), e) ↦
          rw (there, e)
            (Keeps-trans s (record s { queue = op ∷ rest }) _
              (record { same_next = refl; same_ready = refl; armed_kept = λ n h. h })
              (emit-Keeps found status detail (record s { queue = op ∷ rest })))
    ]
  ]

  pub finish_op-Keeps :
      (run : Body F) (seq : ℕ) (status : WriteStatus) (detail : Detail F) (s : Service F)
      → Keeps s (finish_op run seq status detail s)
  unfolding finish_op
  finish_op-Keeps run seq status detail s = finish_in-Keeps run seq status detail s.queue s

  pub apply-Keeps :
      (run : Body F) (seq : ℕ) (o : Outcome F) (s : Service F) → Keeps s (apply run seq o s)
  unfolding apply
  apply-Keeps run seq (waiting w c asked) s = record {
    same_next = refl;
    same_ready = refl;
    armed_kept = λ n h. is_armed-append n asked s.requests h;
  }
  apply-Keeps run seq (settled w c status detail) s =
      let s' : Service F = record s { queue = set_work seq w s.queue; control = c } in
      Keeps-trans s s' _ (record { same_next = refl; same_ready = refl; armed_kept = λ n h. h })
        (finish_op-Keeps run seq status detail s')

  pub with_op-Keeps :
      (run : Body F) (seq : ℕ) (body : Body F) (s : Service F) → Keeps s (with_op run seq body s)
  unfolding with_op
  with_op-Keeps run seq body s = elim (Option-cases (find seq s.queue)) [
    | inl e ↦ rw (e, with_op) (Keeps-refl s)
    | inr (op, e) ↦ rw (e, with_op) (apply-Keeps run seq (body s.control op.ticket op.work) s)
  ]

  pub finish_all-Keeps :
      (run : Body F) (seqs : List ℕ) (status : WriteStatus) (detail : Detail F) (s : Service F)
      → Keeps s (finish_all run seqs status detail s)
  unfolding finish_all
  finish_all-Keeps run [] status detail s = Keeps-refl s
  finish_all-Keeps run (seq ∷ seqs) status detail s =
      Keeps-trans s _ _ (finish_op-Keeps run seq status detail s)
        (finish_all-Keeps run seqs status detail (finish_op run seq status detail s))

  pub disconnect_all-Keeps :
      (run : Body F) (seqs : List ℕ) (s : Service F) → Keeps s (disconnect_all run seqs s)
  unfolding disconnect_all
  disconnect_all-Keeps run [] s = Keeps-refl s
  disconnect_all-Keeps run (seq ∷ seqs) s =
      Keeps-trans s _ _ (with_op-Keeps run seq _ s) (disconnect_all-Keeps run seqs _)
