-- ===== src/WriteOps/Finishing.antt =====
-- What `finish_` over a list of operations tells each of them, in `write_operation_service.cpp`.
use esphome_alpha_hwr.Base.{
  ℕ, ◌+◌, ◌≤◌, ◌<◌, ◌≡◌, refl, ◌⊎◌, Bool, true, false, ◌||◌, List, [], ◌∷◌, some, arith, ltb, ◌==◌,
  ==_refl, ==_iff, map, inl, inr, Bool-cases,
}
use esphome_alpha_hwr.Floats.{Floats}
use esphome_alpha_hwr.WriteOps.State.{
  WriteStatus, timeout, Work, Operation, Detail, disconnected, settled, Body, Service,
}
use esphome_alpha_hwr.WriteOps.Keys.{collides}
use esphome_alpha_hwr.WriteOps.Queue.{
  is_queued, find, with_op, finish_op, finish_all, superseded_seqs, disconnect_all,
  vacation_progress_note,
}
use esphome_alpha_hwr.WriteOps.Accounting.{
  pending, told, accounted, accounted-with_op, finish_accounted,
}
use esphome_alpha_hwr.WriteOps.Order.{IsBetween}
use esphome_alpha_hwr.WriteOps.Ordering.{finish_op-with_op}
use esphome_alpha_hwr.WriteOps.Settling.{with_op_told, settling_told}

abbrev pub is_among : ℕ → List ℕ → Bool
is_among k [] = false
is_among k (n ∷ ns) = n == k || is_among k ns

module _ {F : Type 0} where
  unfoldable pub seqs_of : List (Operation F) → List ℕ
  seqs_of q = map (λ op. op.ticket.seq) q

  pub find-superseded :
      (k : ℕ) (new old : Operation F) (q : List (Operation F))
      → find k q ≡ some old
      → is_queued old.work.phase ≡ true
      → collides new old ≡ true
      → is_among k (superseded_seqs new q) ≡ true
  unfolding find superseded_seqs
  find-superseded k new old [] e waits hit = ground (arith, e)
  find-superseded k new old (op ∷ ops) e waits hit = elim (Bool-cases (op.ticket.seq == k)) [
    | inl here ↦ ground (arith, e, here, waits, hit)
    | inr there ↦
        let ih : is_among k (superseded_seqs new ops) ≡ true =
          find-superseded k new old ops (ground (arith, e, there)) waits hit in
        ground (arith, ih)
  ]

  pub pending-among :
      (k : ℕ) (q : List (Operation F)) → 1 ≤ pending k q → is_among k (seqs_of q) ≡ true
  unfolding pending seqs_of
  pending-among k [] h = ground (arith, h)
  pending-among k (op ∷ ops) h = elim (Bool-cases (op.ticket.seq == k)) [
    | inl here ↦ rw here refl
    | inr there ↦ ground (arith, there, h, pending-among k ops)
  ]

  pub List-cases :
      (q : List (Operation F))
      → (q ≡ []) ⊎ ((op : Operation F) × (ops : List (Operation F)) × (q ≡ op ∷ ops))
  List-cases [] = inl refl
  List-cases (op ∷ ops) = inr (op, ops, refl)

  pub Between-le : (low high : ℕ) (q : List (Operation F)) → IsBetween low q high → low ≤ high
  Between-le low high [] b = b
  Between-le low high (op ∷ ops) b = omega (arith, b.0, Between-le (op.ticket.seq + 1) high ops b.1)

  -- An operation of the queue is pending under its number, which is within the queue's bounds.
  pub first-pending :
      (low high : ℕ) (op : Operation F) (ops : List (Operation F))
      → IsBetween low (op ∷ ops) high
      → (low ≤ op.ticket.seq) × (op.ticket.seq < high) × (1 ≤ pending op.ticket.seq (op ∷ ops))
  unfolding pending
  first-pending low high op ops b = (
    b.0,
    omega (arith, Between-le (op.ticket.seq + 1) high ops b.1),
    ground (arith, ==_refl op.ticket.seq),
  )

module _ {F : Type 0} ⦃fl : Floats F⦄ where
  pub finish_told :
      (k seq : ℕ) (run : Body F) (status : WriteStatus) (detail : Detail F) (s : Service F)
      → told k s.outputs ≤ told k (finish_op run seq status detail s).outputs
  finish_told k seq run status detail s =
      rw (finish_op-with_op run seq status detail s)
        (with_op_told k seq run (λ c t w. settled w c status detail) s)

  pub same_account :
      (k : ℕ) (s : Service F) (next : ℕ)
      → 1 ≤ accounted k s
      → 1 ≤ accounted k (record s { next_seq = next })
  unfolding accounted
  same_account k s next h = h

  pub unaccounted :
      (k : ℕ) (s : Service F)
      → 1 ≤ accounted k s
      → ltb 0 (pending k s.queue) ≡ false
      → 1 ≤ told k s.outputs
  unfolding accounted
  unaccounted k s h e = ground (arith, h, e)

  pub split_account :
      (k : ℕ) (s : Service F)
      → accounted k s ≡ 1
      → 1 ≤ told k s.outputs
      → (told k s.outputs ≡ 1) × (pending k s.queue ≡ 0)
  unfolding accounted
  split_account k s one h = (omega (arith, one, h), omega (arith, one, h))

  pub finish_settles :
      (k : ℕ) (run : Body F) (status : WriteStatus) (detail : Detail F) (s : Service F)
      → 1 ≤ accounted k s
      → 1 ≤ told k (finish_op run k status detail s).outputs
  finish_settles k run status detail s h =
      rw (finish_op-with_op run k status detail s) (settling_told k run status (λ _. detail) s h)

  pub finish_all_told :
      (k : ℕ) (run : Body F) (seqs : List ℕ) (status : WriteStatus) (detail : Detail F)
      (s : Service F)
      → told k s.outputs ≤ told k (finish_all run seqs status detail s).outputs
  unfolding finish_all
  finish_all_told k run [] status detail s = omega arith
  finish_all_told k run (seq ∷ seqs) status detail s = omega (
    arith,
    finish_told k seq run status detail s,
    finish_all_told k run seqs status detail (finish_op run seq status detail s),
  )

  pub finish_all_settles :
      (k : ℕ) (run : Body F) (seqs : List ℕ) (status : WriteStatus) (detail : Detail F)
      (s : Service F)
      → is_among k seqs ≡ true
      → 1 ≤ accounted k s
      → 1 ≤ told k (finish_all run seqs status detail s).outputs
  unfolding finish_all
  finish_all_settles k run [] status detail s among h = ground (arith, among)
  finish_all_settles k run (seq ∷ seqs) status detail s among h =
      let s' : Service F = finish_op run seq status detail s in
      elim (Bool-cases (seq == k)) [
        | inl here ↦
            let same : seq ≡ k = (==_iff seq k).0 here in
            let first : 1 ≤ told k s'.outputs = rw same (finish_settles k run status detail s h) in
            omega (arith, first, finish_all_told k run seqs status detail s')
        | inr there ↦
            finish_all_settles k run seqs status detail s' (ground (arith, among, there))
              (omega (arith, h, finish_accounted k run seq status detail s))
      ]

  pub disconnect_all_told :
      (k : ℕ) (run : Body F) (seqs : List ℕ) (s : Service F)
      → told k s.outputs ≤ told k (disconnect_all run seqs s).outputs
  unfolding disconnect_all
  disconnect_all_told k run [] s = omega arith
  disconnect_all_told k run (seq ∷ seqs) s =
      let s' : Service F =
        with_op run seq (λ c t w. settled w c timeout (disconnected (vacation_progress_note w)))
          s in
      omega (
        arith,
        with_op_told k seq run
            (λ c t w. settled w c timeout (disconnected (vacation_progress_note w))) s,
        disconnect_all_told k run seqs s',
      )

  pub disconnect_all_settles :
      (k : ℕ) (run : Body F) (seqs : List ℕ) (s : Service F)
      → is_among k seqs ≡ true
      → 1 ≤ accounted k s
      → 1 ≤ told k (disconnect_all run seqs s).outputs
  unfolding disconnect_all
  disconnect_all_settles k run [] s among h = ground (arith, among)
  disconnect_all_settles k run (seq ∷ seqs) s among h =
      let note : Work F → Detail F = λ w. disconnected (vacation_progress_note w) in
      let s' : Service F = with_op run seq (λ c t w. settled w c timeout (note w)) s in
      elim (Bool-cases (seq == k)) [
        | inl here ↦
            let same : seq ≡ k = (==_iff seq k).0 here in
            let first : 1 ≤ told k s'.outputs = rw same (settling_told k run timeout note s h) in
            omega (arith, first, disconnect_all_told k run seqs s')
        | inr there ↦ disconnect_all_settles k run seqs s' (ground (arith, among, there)) (
            omega (arith, h, accounted-with_op k run seq (λ c t w. settled w c timeout (note w)) s))
      ]
