-- ===== src/WriteOps/Reach.antt =====
-- The service of `write_operation_service.cpp` at work: every interleaving of submissions, answers, expired
-- watchdogs and disconnects, and what holds throughout.
use esphome_alpha_hwr.Base.{
  ℕ, suc, ◌+◌, ◌^◌, ◌≤◌, ◌<◌, ◌≡◌, refl, Bool, true, ◌&&◌, List, [], ◌∷◌, ◌++◌, Option, arith, leb,
  ◌==◌, if◌then◌else◌, u32, inl, inr, ◌∙◌,
}
use esphome_alpha_hwr.Floats.{Floats}
use esphome_alpha_hwr.Control.{Control}
use esphome_alpha_hwr.WriteOps.State.{
  WriteStatus, superseded, timeout, queued, Ticket, Work, Operation, Detail, no_confirmation,
  disconnected, ServiceCall, Body, Service,
}
use esphome_alpha_hwr.WriteOps.Queue.{
  is_queued, with_op, finish_op, finish_all, superseded_seqs, superseding, enqueue, submit,
  on_watchdog, disconnect_all, on_disconnect, vacation_progress_note,
}
use esphome_alpha_hwr.WriteOps.Accounting.{
  accounted, pending, told, accounted-with_op, accounted-disconnect_all, accounted-enqueue,
}
use esphome_alpha_hwr.WriteOps.Keeping.{
  Keeps, Keeps-trans, with_op-Keeps, finish_all-Keeps, disconnect_all-Keeps, start_front-Keeps,
}
use esphome_alpha_hwr.WriteOps.Order.{
  IsBetween, AllQueued, HasFront, IsStartable, IsMoving, IsKeeping, IsOrdered,
  start_front-IsOrdered,
}
use esphome_alpha_hwr.WriteOps.Lookup.{IsStarted}
use esphome_alpha_hwr.WriteOps.Ordering.{finish_op-with_op, with_op-IsOrdered, settling-IsOrdered}

module _ {F : Type 0} where
  unfoldable pub new_service : Control F → Option Bool → Service F
  new_service c ready = record {
    queue = [];
    next_seq = 1;
    control = c;
    ready_check = ready;
    requests = [];
    outputs = [];
  }

module _ {F : Type 0} ⦃fl : Floats F⦄ where
  -- A service after so many submissions. A start may go differently at every step, since what it calls
  -- may; an answer comes only for an operation that was started; the cache and the link change at will.
  pub data Reachable : ℕ → Service F → Type 0 where
    created : (c : Control F) (ready : Option Bool) → Reachable 0 (new_service c ready)
    submitted :
        (n : ℕ) (s : Service F) (run : Body F) (t : Ticket) (w : Work F)
        → IsMoving run
        → Reachable n s
        → Reachable (suc n) (submit run t w s)
    answered :
        (n : ℕ) (s : Service F) (run : Body F) (seq : ℕ) (body : Body F)
        → IsMoving run
        → IsKeeping body
        → IsStarted seq s.queue
        → Reachable n s
        → Reachable n (with_op run seq body s)
    expired :
        (n : ℕ) (s : Service F) (run : Body F) (seq budget_ms : ℕ)
        → IsMoving run
        → Reachable n s
        → Reachable n (on_watchdog run seq budget_ms s)
    dropped :
        (n : ℕ) (s : Service F) (run : Body F)
        → IsMoving run
        → Reachable n s
        → Reachable n (on_disconnect run s)
    changed :
        (n : ℕ) (s : Service F) (c : Control F) (ready : Option Bool)
        → Reachable n s
        → Reachable n (record s { control = c; ready_check = ready })

  -- What holds of a service after `n` submissions, while their numbers have not wrapped.
  pub record IsSound (n : ℕ) (s : Service F) : Type 0 where
    pub next : s.next_seq ≡ n + 1
    pub once : (k : ℕ) → accounted k s ≡ (if leb 1 k && leb k n then 1 else 0)
    pub ordered : IsOrdered 1 (n + 1) s

  finish_all-IsOrdered :
      (low high : ℕ) (run : Body F) (seqs : List ℕ) (status : WriteStatus) (detail : Detail F)
      (s : Service F)
      → IsMoving run
      → IsOrdered low high s
      → IsOrdered low high (finish_all run seqs status detail s)
  unfolding finish_all
  finish_all-IsOrdered low high run [] status detail s moving h = h
  finish_all-IsOrdered low high run (seq ∷ seqs) status detail s moving h =
      finish_all-IsOrdered low high run seqs status detail (finish_op run seq status detail s)
        moving
        (rw (finish_op-with_op run seq status detail s)
          (settling-IsOrdered low high run seq status (λ _. detail) s moving h))

  disconnect_all-IsOrdered :
      (low high : ℕ) (run : Body F) (seqs : List ℕ) (s : Service F)
      → IsMoving run
      → IsOrdered low high s
      → IsOrdered low high (disconnect_all run seqs s)
  unfolding disconnect_all
  disconnect_all-IsOrdered low high run [] s moving h = h
  disconnect_all-IsOrdered low high run (seq ∷ seqs) s moving h =
      disconnect_all-IsOrdered low high run seqs _ moving (
        settling-IsOrdered low high run seq timeout (λ w. disconnected (vacation_progress_note w)) s
          moving h)

  append-Between :
      (low high : ℕ) (q : List (Operation F)) (op : Operation F)
      → IsBetween low q high
      → op.ticket.seq ≡ high
      → IsBetween low (q ++ (op ∷ [])) (high + 1)
  append-Between low high [] op b e = (omega (arith, b, e), omega (arith, e))
  append-Between low high (o ∷ ops) op b e =
      (b.0, append-Between (o.ticket.seq + 1) high ops op b.1 e)

  append-AllQueued :
      (q : List (Operation F)) (op : Operation F)
      → AllQueued q
      → is_queued op.work.phase ≡ true
      → AllQueued (q ++ (op ∷ []))
  append-AllQueued [] op h e = (e, tt)
  append-AllQueued (o ∷ ops) op h e = (h.0, append-AllQueued ops op h.1 e)

  append-IsStartable :
      (q : List (Operation F)) (op : Operation F) (requests : List (ServiceCall F))
      → HasFront q requests
      → is_queued op.work.phase ≡ true
      → IsStartable (q ++ (op ∷ [])) requests
  append-IsStartable [] op requests h e = (inl e, tt)
  append-IsStartable (o ∷ ops) op requests h e = (inr h.0, append-AllQueued ops op h.1 e)

  enqueue-IsOrdered :
      (high : ℕ) (run : Body F) (op : Operation F) (s : Service F)
      → IsMoving run
      → IsOrdered 1 high s
      → 1 ≤ high
      → op.ticket.seq ≡ high
      → is_queued op.work.phase ≡ true
      → IsOrdered 1 (high + 1) (enqueue run op s)
  unfolding enqueue
  enqueue-IsOrdered high run op s moving h positive new_seq waits =
      let seqs = superseded_seqs op s.queue in
      let s' : Service F = finish_all run seqs superseded (superseding op.ticket) s in
      let h' : IsOrdered 1 high s' =
        finish_all-IsOrdered 1 high run seqs superseded (superseding op.ticket) s moving h in
      start_front-IsOrdered 1 (high + 1) run (s'.queue ++ (op ∷ [])) s' moving
        (append-Between 1 high s'.queue op h'.between new_seq)
        (append-IsStartable s'.queue op s'.requests h'.front waits)

  enqueue-Keeps : (run : Body F) (op : Operation F) (s : Service F) → Keeps s (enqueue run op s)
  unfolding enqueue
  enqueue-Keeps run op s =
      let seqs = superseded_seqs op s.queue in
      let s' : Service F = finish_all run seqs superseded (superseding op.ticket) s in
      Keeps-trans s s' _ (finish_all-Keeps run seqs superseded (superseding op.ticket) s)
        (start_front-Keeps run (s'.queue ++ (op ∷ [])) s')

  created-IsSound : (c : Control F) (ready : Option Bool) → IsSound 0 (new_service c ready)
  unfolding new_service accounted pending told
  created-IsSound c ready = record {
    next = refl;
    once = λ k. ground arith;
    ordered = record { between = omega arith; front = tt };
  }

  submit_once :
      (n k : ℕ) (s s₁ s' : Service F)
      → s.next_seq ≡ n + 1
      → accounted k s₁ ≡ accounted k s
      → accounted k s' ≡ (if s.next_seq == k then 1 else 0) + accounted k s₁
      → accounted k s ≡ (if leb 1 k && leb k n then 1 else 0)
      → accounted k s' ≡ (if leb 1 k && leb k (suc n) then 1 else 0)
  submit_once n k s s₁ s' next same new old = ground (arith, next, same, new, old)

  submit-IsSound :
      (n : ℕ) (s : Service F) (run : Body F) (t : Ticket) (w : Work F)
      → IsMoving run
      → n + 2 < 2 ^ 32
      → IsSound n s
      → IsSound (suc n) (submit run t w s)
  unfolding submit
  submit-IsSound n s run t w moving small h =
      let s₁ : Service F = record s { next_seq = u32 (s.next_seq + 1) } in
      let op : Operation F = record {
        ticket = record t { seq = s.next_seq };
        work = record w { phase = queued };
      } in
      let sum : n + 1 + 1 ≡ suc n + 1 = omega arith in
      record {
        next = (enqueue-Keeps run op s₁).same_next ∙ omega (arith, h.next, small);
        once = λ k.
            submit_once n k s s₁ (enqueue run op s₁) h.next (unfold accounted in refl)
              (accounted-enqueue k run op s₁) (h.once k);
        ordered = rw⁻¹ sum (
            enqueue-IsOrdered (n + 1) run op s₁ moving
              (record { between = h.ordered.between; front = h.ordered.front }) (omega arith) h.next
              (unfold is_queued in refl));
      }

  kept-IsSound :
      (n : ℕ) (s s' : Service F)
      → Keeps s s'
      → ((k : ℕ) → accounted k s' ≡ accounted k s)
      → (IsOrdered 1 (n + 1) s → IsOrdered 1 (n + 1) s')
      → IsSound n s
      → IsSound n s'
  kept-IsSound n s s' k a o h = record {
    next = k.same_next ∙ h.next;
    once = λ i. a i ∙ h.once i;
    ordered = o h.ordered;
  }

  -- Any interleaving of at most 2^32 - 3 submissions with answers for started operations, expired
  -- watchdogs, disconnects, and changes of the cache and the link leaves a service in which, for each
  -- number given to an operation, the operation is in the queue or has been told one result, and not
  -- both; a number that was not given has neither. The queue is in the order of submission, its front
  -- runs with its watchdog armed, and the operations behind it wait.
  pub Reachable-IsSound : (n : ℕ) (s : Service F) → Reachable n s → n + 2 < 2 ^ 32 → IsSound n s
  unfolding on_watchdog on_disconnect accounted
  Reachable-IsSound n _ (created c ready) small = created-IsSound c ready
  Reachable-IsSound _ _ (submitted n s run t w moving r) small =
      submit-IsSound n s run t w moving (omega (arith, small))
        (Reachable-IsSound n s r (omega (arith, small)))
  Reachable-IsSound n _ (answered _ s run seq body moving leaves started r) small =
      kept-IsSound n s _ (with_op-Keeps run seq body s) (λ k. accounted-with_op k run seq body s)
        (with_op-IsOrdered 1 (n + 1) run seq body s moving leaves started)
        (Reachable-IsSound n s r small)
  Reachable-IsSound n _ (expired _ s run seq budget_ms moving r) small =
      kept-IsSound n s _ (with_op-Keeps run seq _ s) (λ k. accounted-with_op k run seq _ s)
        (settling-IsOrdered 1 (n + 1) run seq timeout
          (λ w. no_confirmation budget_ms (vacation_progress_note w)) s moving)
        (Reachable-IsSound n s r small)
  Reachable-IsSound n _ (dropped _ s run moving r) small =
      kept-IsSound n s _ (disconnect_all-Keeps run _ s) (λ k. accounted-disconnect_all k run _ s)
        (disconnect_all-IsOrdered 1 (n + 1) run _ s moving) (Reachable-IsSound n s r small)
  Reachable-IsSound n _ (changed _ s c ready r) small =
      let h = Reachable-IsSound n s r small in
      record {
        next = h.next;
        once = λ k. h.once k;
        ordered = record { between = h.ordered.between; front = h.ordered.front };
      }
