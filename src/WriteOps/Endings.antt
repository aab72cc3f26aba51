-- ===== src/WriteOps/Endings.antt =====
-- The three ways in which `write_operation_service.cpp` ends an operation that the pump has not answered: its
-- watchdog, a disconnect, and a newer operation on the same resource.
use esphome_alpha_hwr.Base.{
  ℕ, suc, ◌+◌, ◌^◌, ◌≤◌, ◌<◌, ◌≡◌, true, ◌&&◌, List, [], ◌∷◌, ◌++◌, some, arith, leb, ltb,
  if◌then◌else◌, u32, inl, inr, Bool-cases,
}
use esphome_alpha_hwr.Floats.{Floats}
use esphome_alpha_hwr.WriteOps.State.{
  superseded, timeout, queued, Ticket, Work, Operation, Detail, no_confirmation, settled, Body,
  Service,
}
use esphome_alpha_hwr.WriteOps.Keys.{collides}
use esphome_alpha_hwr.WriteOps.Queue.{
  is_queued, find, finish_all, superseded_seqs, superseding, enqueue, submit, on_watchdog,
  on_disconnect, vacation_progress_note,
}
use esphome_alpha_hwr.WriteOps.Accounting.{
  pending, told, accounted, accounted-with_op, accounted-disconnect_all,
}
use esphome_alpha_hwr.WriteOps.Order.{IsBetween, IsMoving}
use esphome_alpha_hwr.WriteOps.Settling.{settling_told, start_front_told}
use esphome_alpha_hwr.WriteOps.Reach.{Reachable, submitted, dropped, Reachable-IsSound}
use esphome_alpha_hwr.WriteOps.Finishing.{
  seqs_of, find-superseded, pending-among, List-cases, first-pending, same_account, unaccounted,
  split_account, finish_all_settles, disconnect_all_told, disconnect_all_settles,
}

module _ {F : Type 0} ⦃fl : Floats F⦄ where
  ended_once :
      (n k : ℕ) (s s' : Service F)
      → ((i : ℕ) → accounted i s ≡ (if leb 1 i && leb i n then 1 else 0))
      → 1 ≤ k
      → k ≤ n
      → accounted k s' ≡ accounted k s
      → (1 ≤ accounted k s → 1 ≤ told k s'.outputs)
      → (told k s'.outputs ≡ 1) × (pending k s'.queue ≡ 0)
  ended_once n k s s' once low high same ends =
      let one : accounted k s ≡ 1 = ground (arith, once k, low, high) in
      split_account k s' (omega (arith, one, same)) (ends (omega (arith, one)))

  on_disconnect_told :
      (n k : ℕ) (s : Service F) (run : Body F)
      → Reachable n s
      → n + 2 < 2 ^ 32
      → IsMoving run
      → 1 ≤ k
      → k ≤ n
      → (told k (on_disconnect run s).outputs ≡ 1) × (pending k (on_disconnect run s).queue ≡ 0)
  unfolding on_disconnect seqs_of
  on_disconnect_told n k s run r small moving low high =
      let h = Reachable-IsSound n s r small in
      let seqs = seqs_of s.queue in
      ended_once n k s _ h.once low high (accounted-disconnect_all k run seqs s) (λ one.
        elim (Bool-cases (ltb 0 (pending k s.queue))) [
          | inl found ↦
              disconnect_all_settles k run seqs s (pending-among k s.queue (ground (arith, found)))
                one
          | inr gone ↦
              let before : 1 ≤ told k s.outputs = unaccounted k s one gone in
              omega (arith, before, disconnect_all_told k run seqs s)
        ])

  on_disconnect_empty :
      (n : ℕ) (s : Service F) (run : Body F)
      → Reachable n s
      → n + 2 < 2 ^ 32
      → IsMoving run
      → (on_disconnect run s).queue ≡ []
  on_disconnect_empty n s run r small moving =
      let d : Service F = on_disconnect run s in
      let h = Reachable-IsSound n d (dropped n s run moving r) small in
      elim (List-cases d.queue) [
        | inl e ↦ e
        | inr (op, ops, e) ↦
            let b : IsBetween 1 (op ∷ ops) (n + 1) = rw e at h.ordered.between in
            let f = first-pending 1 (n + 1) op ops b in
            let gone =
              on_disconnect_told n op.ticket.seq s run r small moving (f.0) (omega (arith, f.1)) in
            let none_left : pending op.ticket.seq (op ∷ ops) ≡ 0 = rw e at gone.1 in
            absurd (omega (arith, none_left, f.2))
      ]

  submit_settles :
      (k : ℕ) (s : Service F) (run : Body F) (t : Ticket) (w : Work F) (old : Operation F)
      → 1 ≤ accounted k s
      → find k s.queue ≡ some old
      → is_queued old.work.phase ≡ true
      → collides
          (record { ticket = record t { seq = s.next_seq }; work = record w { phase = queued } })
          old
        ≡ true
      → 1 ≤ told k (submit run t w s).outputs
  unfolding submit enqueue
  submit_settles k s run t w old one e waits hit =
      let op : Operation F = record {
        ticket = record t { seq = s.next_seq };
        work = record w { phase = queued };
      } in
      let s₁ : Service F = record s { next_seq = u32 (s.next_seq + 1) } in
      let seqs : List ℕ = superseded_seqs op s.queue in
      let s₂ : Service F = finish_all run seqs superseded (superseding op.ticket) s₁ in
      let first : 1 ≤ told k s₂.outputs =
        finish_all_settles k run seqs superseded (superseding op.ticket) s₁
          (find-superseded k op old s.queue e waits hit)
          (same_account k s (u32 (s.next_seq + 1)) one) in
      omega (arith, first, start_front_told k run (s₂.queue ++ (op ∷ [])) s₂)

  -- The watchdog of any operation submitted so far ends it: once it has fired, the operation has been
  -- told exactly one result and is in the queue no more.
  pub on_watchdog-ends :
      (n k : ℕ) (s : Service F) (run : Body F) (budget_ms : ℕ)
      → Reachable n s
      → n + 2 < 2 ^ 32
      → IsMoving run
      → 1 ≤ k
      → k ≤ n
      → (told k (on_watchdog run k budget_ms s).outputs ≡ 1)
        × (pending k (on_watchdog run k budget_ms s).queue ≡ 0)
  unfolding on_watchdog
  on_watchdog-ends n k s run budget_ms r small moving low high =
      let h = Reachable-IsSound n s r small in
      let note : Work F → Detail F = λ w. no_confirmation budget_ms (vacation_progress_note w) in
      ended_once n k s _ h.once low high
        (accounted-with_op k run k (λ c t w. settled w c timeout (note w)) s)
        (λ one. settling_told k run timeout note s one)

  -- A disconnect leaves the queue empty, and every operation submitted so far has been told exactly
  -- one result.
  pub on_disconnect-ends :
      (n k : ℕ) (s : Service F) (run : Body F)
      → Reachable n s
      → n + 2 < 2 ^ 32
      → IsMoving run
      → 1 ≤ k
      → k ≤ n
      → ((on_disconnect run s).queue ≡ []) × (told k (on_disconnect run s).outputs ≡ 1)
  on_disconnect-ends n k s run r small moving low high = (
    on_disconnect_empty n s run r small moving,
    (on_disconnect_told n k s run r small moving low high).0,
  )

  -- A submission ends every older operation that still waits and writes one of its resources: it has
  -- been told exactly one result and is in the queue no more.
  pub submit-supersedes :
      (n k : ℕ) (s : Service F) (run : Body F) (t : Ticket) (w : Work F) (old : Operation F)
      → Reachable n s
      → n + 3 < 2 ^ 32
      → IsMoving run
      → 1 ≤ k
      → k ≤ n
      → find k s.queue ≡ some old
      → is_queued old.work.phase ≡ true
      → collides
          (record { ticket = record t { seq = s.next_seq }; work = record w { phase = queued } })
          old
        ≡ true
      → (told k (submit run t w s).outputs ≡ 1) × (pending k (submit run t w s).queue ≡ 0)
  submit-supersedes n k s run t w old r small moving low high e waits hit =
      let h = Reachable-IsSound n s r (omega (arith, small)) in
      let after =
        Reachable-IsSound (suc n) _ (submitted n s run t w moving r) (omega (arith, small)) in
      let one : accounted k (submit run t w s) ≡ 1 = ground (arith, after.once k, low, high) in
      let told_one : 1 ≤ told k (submit run t w s).outputs =
        submit_settles k s run t w old (ground (arith, h.once k, low, high)) e waits hit in
      split_account k (submit run t w s) one told_one
