-- ===== src/WriteOps/Uploading.antt =====
-- The steps of an upload of `write_operation_service.cpp` up to its readbacks, and what they have taken of each layer.
use esphome_alpha_hwr.Base.{
  ℕ, suc, zero, ◌+◌, ◌≤◌, ◌<◌, ◌≡◌, refl, Bool, true, false, ◌||◌, List, ◌∷◌, if◌then◌else◌, Option,
  arith, ==_refl, Bool-cases, inl, inr,
}
use esphome_alpha_hwr.Control.{Control}
use esphome_alpha_hwr.Schedule.Upload.{UploadRequest}
use esphome_alpha_hwr.WriteOps.State.{
  Ticket, Work, write_layer_image, set_state, Outcome, waiting, Body,
}
use esphome_alpha_hwr.WriteOps.Ladder.{work_after}
use esphome_alpha_hwr.WriteOps.Uploads.{
  has_layer, shows_layer, is_failed_read, mark_written, take_layer, start_confirm,
  upload_apply_enabled, upload_next_layer, upload_layer_read, upload_layer_written,
  upload_state_set, upload_state_polled,
}
use esphome_alpha_hwr.WriteOps.Layers.{Reads, below_suc, same_entries}

module _ {F : Type 0} where
  -- What the upload waits for.
  unfoldable pub awaits_layer_write : Outcome F → Bool
  awaits_layer_write (waiting w c (write_layer_image seq layer image ∷ asked)) = true
  awaits_layer_write _ = false

  unfoldable pub awaits_state : Outcome F → Bool
  awaits_state (waiting w c (set_state seq enabled ∷ asked)) = true
  awaits_state _ = false

  -- One layer: the end of its read, and the end of its write where the code asks for one.
  unfoldable pub upload_round : (read : Option (List ℕ)) → (state : Option Bool) → Body F
  upload_round read state c t w =
      let o = upload_layer_read read state c t w in
      if awaits_layer_write o then upload_layer_written state c t (work_after o) else o

  -- One layer after the other, each with the read of the layer that the code has come to.
  unfoldable pub upload_rounds :
      Reads → (state : Option Bool) → (count : ℕ) → Control F → Ticket → Outcome F → Outcome F
  upload_rounds reads state zero c t o = o
  upload_rounds reads state (suc count) c t o =
      let w = work_after o in
      upload_rounds reads state count c t (upload_round (reads w.upload_layer) state c t w)

  -- The state of the schedule, where the code asks for it to be set: the end of its write, and the poll.
  unfoldable pub upload_turn : (polled : Option Bool) → Control F → Ticket → Outcome F → Outcome F
  upload_turn polled c t o =
      if awaits_state o
      then upload_state_polled polled c t (work_after (upload_state_set c t (work_after o)))
      else o

  -- The layers are taken in order.
  unfoldable pub take_layers : Reads → (count : ℕ) → Work F → Work F
  take_layers reads zero w = w
  take_layers reads (suc count) w = take_layers reads count (take_layer (reads w.upload_layer) w)

  -- A layer that is dealt with: written, failed, or seen as desired.
  unfoldable pub is_taken : UploadRequest → Reads → Work F → ℕ → Bool
  is_taken request reads w layer =
      has_layer layer w.upload_written
      || has_layer layer w.upload_failed
      || shows_layer request layer (reads layer)

  pub record Taken (request : UploadRequest) (reads : Reads) (w : Work F) : Type 0 where
    pub entries_kept : w.upload.entries ≡ request.entries
    pub taken : (layer : ℕ) → layer < w.upload_layer → is_taken request reads w layer ≡ true

  -- One layer more is taken, and the earlier ones stay so.
  take_layer-Taken :
      (request : UploadRequest) (reads : Reads) (w : Work F)
      → Taken request reads w
      → Taken request reads (take_layer (reads w.upload_layer) w)
  unfolding take_layer mark_written is_taken has_layer
  take_layer-Taken request reads w h =
      let same =
        same_entries w.upload request w.upload_layer (reads w.upload_layer) h.entries_kept in
      let refl_ = ==_refl w.upload_layer in
      elim (Bool-cases (is_failed_read (reads w.upload_layer))) [
        | inl failed ↦ rw failed record {
          entries_kept = h.entries_kept;
          taken =
              below_suc _ w.upload_layer (λ l low. ground (arith, h.taken l low))
                (ground (arith, refl_));
        }
        | inr read ↦
            elim (Bool-cases (shows_layer w.upload w.upload_layer (reads w.upload_layer))) [
              | inl shows ↦
                  rw (read, shows)
                    record {
                      entries_kept = h.entries_kept;
                      taken =
                          below_suc _ w.upload_layer (λ l low. ground (arith, h.taken l low))
                            (ground (arith, same, shows));
                    }
              | inr differs ↦
                  rw (read, differs)
                    record {
                      entries_kept = h.entries_kept;
                      taken =
                          below_suc _ w.upload_layer (λ l low. ground (arith, h.taken l low))
                            (ground (arith, refl_));
                    }
            ]
      ]

  pub take_layers-Taken :
      (request : UploadRequest) (reads : Reads) (count : ℕ) (w : Work F)
      → Taken request reads w
      → Taken request reads (take_layers reads count w)
  unfolding take_layers
  take_layers-Taken request reads zero w h = h
  take_layers-Taken request reads (suc count) w h =
      take_layers-Taken request reads count _ (take_layer-Taken request reads w h)

  take_layer_cursor :
      (read : Option (List ℕ)) (w : Work F) → (take_layer read w).upload_layer ≡ w.upload_layer + 1
  unfolding take_layer mark_written
  take_layer_cursor read w = ground arith

  pub take_layers_cursor :
      (reads : Reads) (count : ℕ) (w : Work F)
      → (take_layers reads count w).upload_layer ≡ w.upload_layer + count
  unfolding take_layers
  take_layers_cursor reads zero w = omega arith
  take_layers_cursor reads (suc count) w = omega (
    arith,
    take_layers_cursor reads count (take_layer (reads w.upload_layer) w),
    take_layer_cursor (reads w.upload_layer) w,
  )

  upload_round-next :
      (read : Option (List ℕ)) (state : Option Bool) (c : Control F) (t : Ticket) (w : Work F)
      → upload_round read state c t w ≡ upload_next_layer state c t (take_layer read w)
  unfolding upload_round upload_layer_read upload_layer_written upload_next_layer
      upload_apply_enabled start_confirm awaits_layer_write take_layer work_after
  upload_round-next read state c t w = ground arith

  pub upload_rounds-next :
      (reads : Reads) (state : Option Bool) (count : ℕ) (c : Control F) (t : Ticket) (w : Work F)
      → w.upload_layer + count ≤ 5
      → upload_rounds reads state count c t (upload_next_layer state c t w)
        ≡ upload_next_layer state c t (take_layers reads count w)
  unfolding upload_rounds take_layers
  upload_rounds-next reads state zero c t w h = refl
  upload_rounds-next reads state (suc count) c t w h =
      let here : work_after (upload_next_layer state c t w) ≡ w =
        unfold upload_next_layer work_after in ground (arith, h) in
      rw
        (
          here,
          upload_round-next (reads w.upload_layer) state c t w,
          upload_rounds-next reads state count c t (take_layer (reads w.upload_layer) w)
              (omega (arith, h, take_layer_cursor (reads w.upload_layer) w)),
        )
        refl
