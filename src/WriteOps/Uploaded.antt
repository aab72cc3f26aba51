-- ===== src/WriteOps/Uploaded.antt =====
-- What an upload that `write_operation_service.cpp` accepts has seen of each layer.
use esphome_alpha_hwr.Base.{
  ℕ, suc, zero, ◌+◌, ◌≤◌, ◌<◌, ◌≡◌, ◌≢◌, ◌⊎◌, refl, sym, ap, ◌∙◌, Bool, true, false, not, ◌&&◌,
  ◌||◌, List, Option, none, some, arith, ltb, leb, ◌==◌, ==_iff, Option-cases, Bool-cases, inl, inr,
}
use esphome_alpha_hwr.Control.{Control}
use esphome_alpha_hwr.Schedule.Upload.{UploadRequest}
use esphome_alpha_hwr.WriteOps.State.{WriteStatus, accepted, writing, Ticket, Work, Outcome}
use esphome_alpha_hwr.WriteOps.Report.{any_layer}
use esphome_alpha_hwr.WriteOps.Ladder.{first_of, verdict, work_after}
use esphome_alpha_hwr.WriteOps.Uploads.{
  upload_layers, has_layer, shows_layer, next_written, hold_state, finish_upload, confirm_upload,
  confirm_layer, start_confirm, is_touched, shows_state, upload_apply_enabled, upload_next_layer,
  begin_upload, upload_state_set, upload_state_polled, upload_layer_confirmed,
}
use esphome_alpha_hwr.WriteOps.Layers.{
  Reads, is_shown, all_below, same_entries, has_layer-drop_layer, next_written_free,
  next_written_forward, status_cases, all_below_lem, none_failed,
}
use esphome_alpha_hwr.WriteOps.Uploading.{
  awaits_state, upload_rounds, upload_turn, take_layers, is_taken, Taken, take_layers-Taken,
  take_layers_cursor, upload_rounds-next,
}

-- The end of an upload: a verdict, and if it is accepted every layer was shown.
abbrev pub IsSettled : UploadRequest → Reads → Reads → Option WriteStatus → Type 0
IsSettled request reads backs o =
    (status : WriteStatus) × (o ≡ some status)
    × ((status ≢ accepted) ⊎ (all_below 5 (is_shown request reads backs) ≡ true))

module _ {F : Type 0} where
  -- The readback of each layer that the code asks for, until the upload settles.
  unfoldable pub confirm_walk :
      Reads → (rounds : ℕ) → Control F → Ticket → Outcome F → Option WriteStatus
  confirm_walk backs zero c t o = verdict o
  confirm_walk backs (suc rounds) c t o =
      let w = work_after o in
      first_of (verdict o)
        (confirm_walk backs rounds c t (upload_layer_confirmed (backs w.upload_layer) c t w))

  -- The same, from the work that each `confirm_upload` begins with.
  unfoldable work_walk : Reads → (rounds : ℕ) → Control F → Ticket → Work F → Option WriteStatus
  work_walk backs zero c t w = none
  work_walk backs (suc rounds) c t w =
      let o = confirm_upload c t w in
      first_of (verdict o) (
        work_walk backs rounds c t
          (confirm_layer (backs (work_after o).upload_layer) (work_after o)))

  confirm_walk-work_walk :
      (backs : Reads) (rounds : ℕ) (c : Control F) (t : Ticket) (w : Work F)
      → confirm_walk backs rounds c t (confirm_upload c t w) ≡ work_walk backs (suc rounds) c t w
  unfolding confirm_walk work_walk upload_layer_confirmed
  confirm_walk-work_walk backs zero c t w = elim (Option-cases (verdict (confirm_upload c t w))) [
    | inl e ↦ rw e (unfold first_of in refl)
    | inr (status, e) ↦ rw e (unfold first_of in refl)
  ]
  confirm_walk-work_walk backs (suc rounds) c t w =
      let o = confirm_upload c t w in
      ap (first_of (verdict o)) (
        confirm_walk-work_walk backs rounds c t
          (confirm_layer (backs (work_after o).upload_layer) (work_after o)))

  -- Seen: what was written reads back as desired so far, and the rest failed or was so before.
  unfoldable is_seen : UploadRequest → Reads → Reads → Work F → ℕ → Bool
  is_seen request reads backs w layer =
      has_layer layer w.upload_written
        && (not (ltb layer w.upload_layer) || shows_layer request layer (backs layer))
      || (has_layer layer w.upload_failed || shows_layer request layer (reads layer))

  record Seen (request : UploadRequest) (reads backs : Reads) (w : Work F) : Type 0 where
    entries_same : w.upload.entries ≡ request.entries
    seen : (layer : ℕ) → layer < 5 → is_seen request reads backs w layer ≡ true

  -- The hand-over to the readbacks, with the state of the schedule set or not.
  upload_turn-Seen :
      (request : UploadRequest) (reads backs : Reads) (state polled : Option Bool) (c : Control F)
      (t : Ticket) (w : Work F)
      → w.upload_layer ≡ 5
      → Taken request reads w
      → Seen request reads backs
          (work_after (upload_turn polled c t (upload_apply_enabled state c t w)))
  unfolding upload_turn upload_apply_enabled start_confirm upload_state_polled upload_state_set
      awaits_state hold_state work_after is_taken is_seen
  upload_turn-Seen request reads backs state polled c t w five h =
      elim (Bool-cases (not (is_touched w.upload.enabled) || shows_state state w.upload.enabled)) [
        | inl left ↦ rw left record {
          entries_same = h.entries_kept;
          seen = λ layer low. ground (arith, h.taken layer (omega (arith, low, five)));
        }
        | inr set ↦ elim (Option-cases polled) [
          | inl e ↦
              rw (set, e)
                record {
                  entries_same = h.entries_kept;
                  seen = λ layer low. ground (arith, h.taken layer (omega (arith, low, five)));
                }
          | inr (actual, e) ↦
              rw (set, e)
                record {
                  entries_same = h.entries_kept;
                  seen = λ layer low. ground (arith, h.taken layer (omega (arith, low, five)));
                }
        ]
      ]

  skip-Seen :
      (request : UploadRequest) (reads backs : Reads) (w : Work F)
      → Seen request reads backs w
      → Seen request reads backs
          (record w { upload_layer = next_written upload_layers w.upload_layer w.upload_written })
  unfolding is_seen
  skip-Seen request reads backs w h = record {
    entries_same = h.entries_same;
    seen = λ layer low.
        let free : w.upload_layer ≤ layer
            → layer < next_written upload_layers w.upload_layer w.upload_written
            → has_layer layer w.upload_written ≡ false =
          next_written_free upload_layers w.upload_layer layer w.upload_written in
        let forward = next_written_forward upload_layers w.upload_layer w.upload_written in
        ground (arith, h.seen layer low, free, forward);
  }

  confirm_layer-Seen :
      (request : UploadRequest) (reads backs : Reads) (w : Work F)
      → Seen request reads backs w
      → Seen request reads backs (confirm_layer (backs w.upload_layer) w)
  unfolding confirm_layer is_seen has_layer
  confirm_layer-Seen request reads backs w h =
      let same =
        same_entries w.upload request w.upload_layer (backs w.upload_layer) h.entries_same in
      elim (Bool-cases (shows_layer w.upload w.upload_layer (backs w.upload_layer))) [
        | inl shows ↦ rw shows record {
          entries_same = h.entries_same;
          seen = λ layer low. elim (Bool-cases (layer == w.upload_layer)) [
            | inl here ↦
                let e : layer ≡ w.upload_layer = (==_iff layer w.upload_layer).0 here in
                let seen : shows_layer request layer (backs layer) ≡ true =
                  rw e (sym same ∙ shows) in
                ground (arith, h.seen layer low, seen)
            | inr other ↦ ground (arith, h.seen layer low, other)
          ];
        }
        | inr differs ↦ rw differs record {
          entries_same = h.entries_same;
          seen = λ layer low. elim (Bool-cases (layer == w.upload_layer)) [
            | inl here ↦ ground (arith, here)
            | inr other ↦ ground (
              arith,
              h.seen layer low,
              other,
              has_layer-drop_layer layer w.upload_layer w.upload_written other,
            )
          ];
        }
      ]

  finish_upload-IsSettled :
      (request : UploadRequest) (reads backs : Reads) (c : Control F) (t : Ticket) (w : Work F)
      → Seen request reads backs w
      → 5 ≤ w.upload_layer
      → IsSettled request reads backs (verdict (finish_upload c t w))
  unfolding finish_upload verdict is_seen is_shown
  finish_upload-IsSettled request reads backs c t w h over =
      elim (Option-cases (verdict (finish_upload c t w))) [
        | inl e ↦ absurd (ground (arith, e))
        | inr (status, e) ↦ (
          status,
          e,
          elim (status_cases status) [
            | inr other ↦ inl other
            | inl same ↦
                let ok : verdict (finish_upload c t w) ≡ some accepted = rw same at e in
                let clean : any_layer w.upload_failed ≡ false = ground (arith, ok) in
                inr (
                  all_below_lem 5 _ λ layer low.
                    ground (arith, h.seen layer low, none_failed layer w.upload_failed clean, over))
          ],
        )
      ]

  confirm_layer_cursor :
      (read : Option (List ℕ)) (w : Work F)
      → (confirm_layer read w).upload_layer ≡ w.upload_layer + 1
  unfolding confirm_layer
  confirm_layer_cursor read w = ground arith

  work_walk-IsSettled :
      (request : UploadRequest) (reads backs : Reads) (rounds : ℕ) (c : Control F) (t : Ticket)
      (w : Work F)
      → Seen request reads backs w
      → 6 ≤ rounds + w.upload_layer
      → 1 ≤ rounds
      → IsSettled request reads backs (work_walk backs rounds c t w)
  unfolding work_walk confirm_upload first_of verdict work_after
  work_walk-IsSettled request reads backs zero c t w h enough some_left =
      absurd (omega (arith, some_left))
  work_walk-IsSettled request reads backs (suc rounds) c t w h enough some_left =
      let next = next_written upload_layers w.upload_layer w.upload_written in
      let w' : Work F = record w { upload_layer = next } in
      let skipped = skip-Seen request reads backs w h in
      elim (Bool-cases (leb upload_layers next)) [
        | inl over ↦
            let (status, e, shown) =
              finish_upload-IsSettled request reads backs c t w' skipped (ground (arith, over)) in
            rw over (status, rw e refl, shown)
        | inr more ↦
            let forward = next_written_forward upload_layers w.upload_layer w.upload_written in
            let below : next < 5 = ground (arith, more) in
            let cursor = confirm_layer_cursor (backs next) w' in
            let rest =
              work_walk-IsSettled request reads backs rounds c t (confirm_layer (backs next) w')
                (confirm_layer-Seen request reads backs w' skipped)
                (omega (arith, enough, forward, cursor)) (omega (arith, enough, forward, below)) in
            rw more rest
      ]

  -- An upload that begins ends, whatever the five reads, the poll of the schedule's state and the
  -- readbacks show, after at most six rounds of `confirm_upload`. If it is accepted, each of the five
  -- layers held the desired image, at its first read or at its readback.
  pub confirm_walk-shows :
      (reads backs : Reads) (state polled : Option Bool) (c : Control F) (t : Ticket) (w : Work F)
      → let begun = upload_rounds reads state 5 c t (begin_upload state c t w) in
        IsSettled w.upload reads backs (
          confirm_walk backs 5 c t (confirm_upload c t (work_after (upload_turn polled c t begun))))
  unfolding begin_upload
  confirm_walk-shows reads backs state polled c t w =
      let w' : Work F = record w { phase = writing; upload_layer = 0 } in
      let cursor = take_layers_cursor reads 5 w' in
      let over : upload_next_layer state c t (take_layers reads 5 w')
          ≡ upload_apply_enabled state c t (take_layers reads 5 w') =
        unfold upload_next_layer in rw cursor refl in
      let seen =
        upload_turn-Seen w.upload reads backs state polled c t (take_layers reads 5 w') cursor (
          take_layers-Taken w.upload reads 5 w'
            (record { entries_kept = refl; taken = λ layer low. absurd (omega (arith, low)) })) in
      rw (upload_rounds-next reads state 5 c t w' (omega arith), over, confirm_walk-work_walk)
        (work_walk-IsSettled w.upload reads backs 6 c t _ seen (omega arith) (omega arith))
