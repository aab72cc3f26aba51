-- ===== src/WriteOps/Uploads.antt =====
-- UPLOAD_SCHEDULE of `write_operation_service.cpp`: each layer is read and, where it differs, written; then the state of
-- the schedule; then each layer that was written is read back.
use esphome_alpha_hwr.Base.{
  ℕ, suc, zero, ◌+◌, Bool, true, false, not, ◌&&◌, ◌||◌, List, [], ◌∷◌, Option, none, some, ltb,
  leb, ◌==◌, if◌then◌else◌,
}
use esphome_alpha_hwr.Schedule.Upload.{Enabled, untouched, off, on, UploadRequest}
use esphome_alpha_hwr.Schedule.Image.{build_layer_image}
use esphome_alpha_hwr.WriteOps.State.{
  accepted, rejected, timeout, partial, resolving, writing, confirming, Work, message, about_layers,
  about_run, confirm_after, read_entries, write_layer_image, set_state, poll_overview, waiting,
  settled, Body,
}
use esphome_alpha_hwr.WriteOps.Report.{any_layer}
use esphome_alpha_hwr.WriteOps.RunState.{same_bool}
use esphome_alpha_hwr.WriteOps.Schedules.{ensure_overview}

abbrev pub upload_layers : ℕ
upload_layers = 5

unfoldable pub has_layer : ℕ → List ℕ → Bool
has_layer layer [] = false
has_layer layer (l ∷ ls) = l == layer || has_layer layer ls

unfoldable pub drop_layer : ℕ → List ℕ → List ℕ
drop_layer layer [] = []
drop_layer layer (l ∷ ls) =
    let later = drop_layer layer ls in if l == layer then later else l ∷ later

unfoldable pub same_image : List ℕ → List ℕ → Bool
same_image [] [] = true
same_image (x ∷ xs) (y ∷ ys) = x == y && same_image xs ys
same_image _ _ = false

-- A read of a layer that holds the desired image: `none` is a read that failed, and `some []` one that left no
-- image in the cache.
unfoldable pub shows_layer : UploadRequest → ℕ → Option (List ℕ) → Bool
shows_layer request layer none = false
shows_layer request layer (some actual) = same_image (build_layer_image request layer) actual

unfoldable pub is_failed_read : Option (List ℕ) → Bool
is_failed_read none = true
is_failed_read (some actual) = false

unfoldable pub is_touched : Enabled → Bool
is_touched untouched = false
is_touched _ = true

unfoldable pub is_on : Enabled → Bool
is_on on = true
is_on _ = false

unfoldable pub shows_state : Option Bool → Enabled → Bool
shows_state none enabled = false
shows_state (some actual) enabled = same_bool actual (is_on enabled)

-- The loop of `confirm_upload_` to the next layer that was written.
unfoldable pub next_written : (fuel layer : ℕ) → List ℕ → ℕ
next_written zero layer written = layer
next_written (suc fuel) layer written =
    let later = next_written fuel (layer + 1) written in
    if ltb layer upload_layers && not (has_layer layer written) then later else layer

module _ {F : Type 0} where
  unfoldable pub mark_written : Work F → Work F
  mark_written w = record w {
    upload_written = w.upload_layer ∷ w.upload_written;
    upload_layer = w.upload_layer + 1;
  }

  -- What a layer becomes by its first read, and by the write where it differs.
  unfoldable pub take_layer : Option (List ℕ) → Work F → Work F
  unfolding mark_written
  take_layer read w =
      if is_failed_read read
      then record w {
        upload_failed = w.upload_layer ∷ w.upload_failed;
        upload_layer = w.upload_layer + 1;
      }
      else if shows_layer w.upload w.upload_layer read
      then record w {
        upload_skipped = w.upload_layer ∷ w.upload_skipped;
        upload_layer = w.upload_layer + 1;
      }
      else mark_written w

  unfoldable pub start_confirm : Body F
  start_confirm c t w =
      waiting (record w { phase = confirming; upload_layer = 0 }) c (confirm_after t.seq 1500 ∷ [])

  -- `state` is what `get_state` finds.
  unfoldable pub upload_apply_enabled : (state : Option Bool) → Body F
  unfolding start_confirm
  upload_apply_enabled state c t w =
      let w : Work F = record w { upload_enabled_requested = w.upload.enabled } in
      if not (is_touched w.upload.enabled) || shows_state state w.upload.enabled
      then start_confirm c t w
      else waiting w c (set_state t.seq (is_on w.upload.enabled) ∷ [])

  unfoldable pub upload_next_layer : (state : Option Bool) → Body F
  unfolding upload_apply_enabled
  upload_next_layer state c t w =
      if leb upload_layers w.upload_layer
      then upload_apply_enabled state c t w
      else waiting w c (read_entries t.seq w.upload_layer ∷ [])

  unfoldable pub begin_upload : (state : Option Bool) → Body F
  unfolding upload_next_layer
  begin_upload state c t w =
      upload_next_layer state c t (record w { phase = writing; upload_layer = 0 })

  unfoldable pub run_upload_schedule : (cached : Bool) → (state : Option Bool) → Body F
  unfolding ensure_overview begin_upload
  run_upload_schedule cached state c t w =
      ensure_overview cached (begin_upload state) c t (record w { phase = resolving })

  unfoldable pub upload_layer_read : (read : Option (List ℕ)) → (state : Option Bool) → Body F
  unfolding upload_next_layer
  upload_layer_read read state c t w =
      if is_failed_read read || shows_layer w.upload w.upload_layer read
      then upload_next_layer state c t (take_layer read w)
      else waiting w c
          (write_layer_image t.seq w.upload_layer (build_layer_image w.upload w.upload_layer) ∷ [])

  unfoldable pub upload_layer_written : (state : Option Bool) → Body F
  unfolding upload_next_layer
  upload_layer_written state c t w = upload_next_layer state c t (mark_written w)

  unfoldable pub upload_state_set : Body F
  upload_state_set c t w = waiting w c (poll_overview t.seq ∷ [])

  unfoldable pub hold_state : Option Bool → Work F → Work F
  hold_state none w = record w { upload_enabled_unreadable = true }
  hold_state (some actual) w = record w {
    upload_enabled_mismatch =
        is_touched w.upload_enabled_requested
        && not (same_bool actual (is_on w.upload_enabled_requested));
    upload = record w.upload { enabled = if actual then on else off };
  }

  unfoldable pub upload_state_polled : (state : Option Bool) → Body F
  unfolding start_confirm
  upload_state_polled state c t w = start_confirm c t (hold_state state w)

  -- `finish_upload_`
  unfoldable pub finish_upload : Body F
  finish_upload c t w =
      let confirmed = any_layer w.upload_written || any_layer w.upload_skipped in
      if w.upload_enabled_unreadable
      then settled w c timeout (message "could not read the schedule-enabled state back")
      else if w.upload_enabled_mismatch
      then (if not (any_layer w.upload_failed) && confirmed
          then settled w c partial
              (about_run "layers written but pump still reports schedule" (is_on w.upload.enabled))
          else settled w c rejected
              (about_run "pump did not take schedule" (is_on w.upload_enabled_requested)))
      else if not (any_layer w.upload_failed)
      then settled w c accepted (message (if any_layer w.upload_written then "" else "no-op"))
      else if confirmed
      then settled w c partial (about_layers "failed layers" w.upload_failed)
      else settled w c rejected (message "no layer could be written")

  unfoldable pub confirm_upload : Body F
  unfolding finish_upload
  confirm_upload c t w =
      let w : Work F = record w {
        upload_layer = next_written upload_layers w.upload_layer w.upload_written;
      } in
      if leb upload_layers w.upload_layer
      then finish_upload c t w
      else waiting w c (read_entries t.seq w.upload_layer ∷ [])

  -- What a layer that was written becomes by its readback.
  unfoldable pub confirm_layer : Option (List ℕ) → Work F → Work F
  confirm_layer read w =
      if shows_layer w.upload w.upload_layer read
      then record w { upload_layer = w.upload_layer + 1 }
      else record w {
        upload_written = drop_layer w.upload_layer w.upload_written;
        upload_failed = w.upload_layer ∷ w.upload_failed;
        upload_layer = w.upload_layer + 1;
      }

  unfoldable pub upload_layer_confirmed : (read : Option (List ℕ)) → Body F
  unfolding confirm_upload
  upload_layer_confirmed read c t w = confirm_upload c t (confirm_layer read w)
