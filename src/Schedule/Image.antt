-- ===== src/Schedule/Image.antt =====
-- schedule_codec.cpp: the image of a layer, seven cells of six bytes, and its canonical form.
use esphome_alpha_hwr.Base.{
  ℕ, zero, suc, ◌*◌, ◌≡◌, refl, ap, ◌∙◌, not, List, [], ◌∷◌, arith, ◌==◌, if◌then◌else◌, length,
  replicate, All, if_case,
}
use esphome_alpha_hwr.Schedule.Upload.{UploadEntry, UploadRequest}
use esphome_alpha_hwr.Schedule.Grid.{ValidEntry}

abbrev pub layer_image_bytes : ℕ
layer_image_bytes = 42

-- Assignments to the bytes from `offset` on. Outside the image there is nothing to assign to.
unfoldable pub write_at : ℕ → List ℕ → List ℕ → List ℕ
write_at offset bytes [] = []
write_at zero [] (x ∷ image) = x ∷ image
write_at zero (b ∷ bytes) (x ∷ image) = b ∷ write_at zero bytes image
write_at (suc offset) bytes (x ∷ image) = x ∷ write_at offset bytes image

abbrev cell_of : UploadEntry → List ℕ
cell_of e = 0x01 ∷ 0x02 ∷ e.begin_hour ∷ e.begin_minute ∷ e.end_hour ∷ e.end_minute ∷ []

-- The loop of `build_layer_image`.
unfoldable pub write_entries : List UploadEntry → ℕ → List ℕ → List ℕ
unfolding write_at
write_entries [] layer image = image
write_entries (e ∷ entries) layer image =
    write_entries entries layer
      (if not (e.layer == layer) then image else write_at (e.day * 6) (cell_of e) image)

unfoldable pub build_layer_image : UploadRequest → ℕ → List ℕ
unfolding write_entries
build_layer_image request layer =
    write_entries request.entries layer (replicate layer_image_bytes 0)

-- The loop over the days. The last clause, for an image that is too short, is not in the code.
unfoldable pub canonicalize_days : ℕ → List ℕ → List ℕ
canonicalize_days (suc days) (a ∷ b ∷ c ∷ d ∷ e ∷ f ∷ image) =
    let later = canonicalize_days days image in
    if a == 0x00 then 0 ∷ 0 ∷ 0 ∷ 0 ∷ 0 ∷ 0 ∷ later else 0x01 ∷ 0x02 ∷ c ∷ d ∷ e ∷ f ∷ later
canonicalize_days days image = image

unfoldable pub canonicalize_layer_image : List ℕ → List ℕ
unfolding canonicalize_days
canonicalize_layer_image image = canonicalize_days 7 image

length-write_at :
    (offset : ℕ) (bytes image : List ℕ) → length (write_at offset bytes image) ≡ length image
unfolding write_at
length-write_at offset bytes [] = refl
length-write_at zero [] (x ∷ image) = refl
length-write_at zero (b ∷ bytes) (x ∷ image) = omega (arith, length-write_at zero bytes image)
length-write_at (suc offset) bytes (x ∷ image) = omega (arith, length-write_at offset bytes image)

-- Six bytes further is a cell further.
write_behind :
    (day a b c d e f : ℕ) (cell image : List ℕ)
    → write_at (suc day * 6) cell (a ∷ b ∷ c ∷ d ∷ e ∷ f ∷ image)
      ≡ a ∷ b ∷ c ∷ d ∷ e ∷ f ∷ write_at (day * 6) cell image
unfolding write_at
write_behind day a b c d e f cell image =
    ap (λ k. write_at k cell (a ∷ b ∷ c ∷ d ∷ e ∷ f ∷ image))
      {y = suc (suc (suc (suc (suc (suc (day * 6))))))} (omega arith)

write_nothing : (image : List ℕ) → write_at 0 [] image ≡ image
unfolding write_at
write_nothing [] = refl
write_nothing (x ∷ image) = refl

-- The first cell of a canonical image, and the others.
canonical_tail :
    (days a b c d e f : ℕ) (image : List ℕ)
    → canonicalize_days (suc days) (a ∷ b ∷ c ∷ d ∷ e ∷ f ∷ image) ≡ a ∷ b ∷ c ∷ d ∷ e ∷ f ∷ image
    → canonicalize_days days image ≡ image
unfolding canonicalize_days
canonical_tail days a b c d e f image h = ground (arith, h)

canonical_cell :
    (days a b c d e f : ℕ) (image other : List ℕ)
    → canonicalize_days (suc days) (a ∷ b ∷ c ∷ d ∷ e ∷ f ∷ image) ≡ a ∷ b ∷ c ∷ d ∷ e ∷ f ∷ image
    → canonicalize_days days other ≡ other
    → canonicalize_days (suc days) (a ∷ b ∷ c ∷ d ∷ e ∷ f ∷ other) ≡ a ∷ b ∷ c ∷ d ∷ e ∷ f ∷ other
unfolding canonicalize_days
canonical_cell days a b c d e f image other h g = ground (arith, h, g)

first_written :
    (days : ℕ) (entry : UploadEntry) (a b c d e f : ℕ) (image : List ℕ)
    → canonicalize_days days image ≡ image
    → canonicalize_days (suc days) (write_at 0 (cell_of entry) (a ∷ b ∷ c ∷ d ∷ e ∷ f ∷ image))
      ≡ write_at 0 (cell_of entry) (a ∷ b ∷ c ∷ d ∷ e ∷ f ∷ image)
unfolding canonicalize_days write_at
first_written days entry a b c d e f image h =
    ground (arith, h, write_nothing image, ap (canonicalize_days days) (write_nothing image))

refl_short : (k : ℕ) (cell : List ℕ) → canonicalize_days 0 (write_at k cell []) ≡ write_at k cell []
unfolding canonicalize_days write_at
refl_short k cell = refl

-- A cell as an upload writes it is canonical already.
canonicalize-write_at :
    (days day : ℕ) (entry : UploadEntry) (image : List ℕ)
    → length image ≡ days * 6
    → canonicalize_days days image ≡ image
    → canonicalize_days days (write_at (day * 6) (cell_of entry) image)
      ≡ write_at (day * 6) (cell_of entry) image
canonicalize-write_at zero day entry [] n h = refl_short (day * 6) (cell_of entry)
canonicalize-write_at zero day entry (x ∷ image) n h = absurd (omega arith)
canonicalize-write_at (suc days) day entry [] n h = absurd (omega arith)
canonicalize-write_at (suc days) day entry (a ∷ []) n h = absurd (omega arith)
canonicalize-write_at (suc days) day entry (a ∷ b ∷ []) n h = absurd (omega arith)
canonicalize-write_at (suc days) day entry (a ∷ b ∷ c ∷ []) n h = absurd (omega arith)
canonicalize-write_at (suc days) day entry (a ∷ b ∷ c ∷ d ∷ []) n h = absurd (omega arith)
canonicalize-write_at (suc days) day entry (a ∷ b ∷ c ∷ d ∷ e ∷ []) n h = absurd (omega arith)
canonicalize-write_at (suc days) zero entry (a ∷ b ∷ c ∷ d ∷ e ∷ f ∷ image) n h =
    first_written days entry a b c d e f image (canonical_tail days a b c d e f image h)
canonicalize-write_at (suc days) (suc day) entry (a ∷ b ∷ c ∷ d ∷ e ∷ f ∷ image) n h =
    let tail = canonical_tail days a b c d e f image h in
    rw (write_behind day a b c d e f (cell_of entry) image) (
      canonical_cell days a b c d e f image (write_at (day * 6) (cell_of entry) image) h
        (canonicalize-write_at days day entry image (omega arith) tail))

-- A canonical image of a layer.
pub record Canonical (image : List ℕ) : Type 0 where
  pub whole : length image ≡ 42
  pub same : canonicalize_layer_image image ≡ image

write_entries-Canonical :
    (entries : List UploadEntry) (layer : ℕ) (image : List ℕ)
    → Canonical image
    → Canonical (write_entries entries layer image)
unfolding write_entries canonicalize_layer_image
write_entries-Canonical [] layer image c = c
write_entries-Canonical (e ∷ entries) layer image c = write_entries-Canonical entries layer _ (
    if_case Canonical (not (e.layer == layer)) (λ other. c)
      (λ own. record {
        whole = length-write_at (e.day * 6) (cell_of e) image ∙ c.whole;
        same = canonicalize-write_at 7 e.day e image c.whole c.same;
      }))

empty-Canonical : Canonical (replicate 42 0)
unfolding canonicalize_layer_image canonicalize_days
empty-Canonical = record { whole = refl; same = refl }

-- The image of any layer of an upload, with entries on days of the week, has 42 bytes and is in
-- canonical form: a read-back of what was uploaded is hashed as it was written.
pub build_layer_image-Canonical :
    (request : UploadRequest) (layer : ℕ)
    → All ValidEntry request.entries
    → Canonical (build_layer_image request layer)
unfolding build_layer_image
build_layer_image-Canonical request layer valid =
    write_entries-Canonical request.entries layer (replicate 42 0) empty-Canonical
