-- ===== src/WriteOps/Layers.antt =====
-- The lists of layers of an upload in `write_operation_service.cpp`, and what its reads show.
use esphome_alpha_hwr.Base.{
  ℕ, suc, zero, ◌+◌, ◌≤◌, ◌<◌, ◌≡◌, ◌≢◌, ◌⊎◌, refl, Bool, true, false, not, ◌&&◌, ◌||◌, List, [],
  ◌∷◌, Option, none, some, arith, ltb, ◌==◌, ==_iff, Bool-cases, inl, inr,
}
use esphome_alpha_hwr.Schedule.Upload.{UploadRequest}
use esphome_alpha_hwr.Schedule.Image.{build_layer_image}
use esphome_alpha_hwr.WriteOps.State.{
  WriteStatus, accepted, clamped, rejected, invalid, timeout, superseded, partial,
}
use esphome_alpha_hwr.WriteOps.Report.{any_layer}
use esphome_alpha_hwr.WriteOps.Uploads.{
  upload_layers, has_layer, drop_layer, shows_layer, next_written,
}

-- What the reads, or the readbacks, of the layers show.
abbrev pub Reads : Type 0
Reads = ℕ → Option (List ℕ)

unfoldable pub is_shown : UploadRequest → Reads → Reads → ℕ → Bool
is_shown request reads backs layer =
    shows_layer request layer (reads layer) || shows_layer request layer (backs layer)

unfoldable pub all_below : ℕ → (ℕ → Bool) → Bool
all_below zero test = true
all_below (suc n) test = test n && all_below n test

pub same_entries :
    (a b : UploadRequest) (layer : ℕ) (read : Option (List ℕ))
    → a.entries ≡ b.entries
    → shows_layer a layer read ≡ shows_layer b layer read
unfolding shows_layer build_layer_image
same_entries a b layer none e = refl
same_entries a b layer (some actual) e = rw e refl

pub below_suc :
    (test : ℕ → Bool) (k : ℕ)
    → ((l : ℕ) → l < k → test l ≡ true)
    → test k ≡ true
    → (l : ℕ) → l < k + 1
    → test l ≡ true
below_suc test k earlier here l low = elim (Bool-cases (l == k)) [
  | inl same ↦ let e : l ≡ k = (==_iff l k).0 same in rw e here
  | inr other ↦ earlier l (ground (arith, low, other))
]

pub has_layer-drop_layer :
    (layer dropped : ℕ) (layers : List ℕ)
    → layer == dropped ≡ false
    → has_layer layer (drop_layer dropped layers) ≡ has_layer layer layers
unfolding has_layer drop_layer
has_layer-drop_layer layer dropped [] other = refl
has_layer-drop_layer layer dropped (l ∷ layers) other =
    let later = has_layer-drop_layer layer dropped layers other in
    elim (Bool-cases (l == dropped)) [
      | inl same ↦ ground (arith, later, same, other)
      | inr kept ↦ ground (arith, later, kept)
    ]

-- The layers that are passed over were not written.
pub next_written_free :
    (fuel from layer : ℕ) (written : List ℕ)
    → from ≤ layer
    → layer < next_written fuel from written
    → has_layer layer written ≡ false
unfolding next_written
next_written_free zero from layer written low high = absurd (omega (arith, low, high))
next_written_free (suc fuel) from layer written low high =
    elim (Bool-cases (ltb from upload_layers && not (has_layer from written))) [
      | inl over ↦
          let high : layer < next_written fuel (from + 1) written = rw over at high in
          elim (Bool-cases (layer == from)) [
            | inl here ↦
                let e : layer ≡ from = (==_iff layer from).0 here in rw e (ground (arith, over))
            | inr later ↦
                next_written_free fuel (from + 1) layer written (ground (arith, low, later)) high
          ]
      | inr stop ↦ let high : layer < from = rw stop at high in absurd (omega (arith, low, high))
    ]

pub next_written_forward :
    (fuel from : ℕ) (written : List ℕ) → from ≤ next_written fuel from written
unfolding next_written
next_written_forward zero from written = omega arith
next_written_forward (suc fuel) from written =
    let later = next_written_forward fuel (from + 1) written in ground (arith, later)

pub status_cases : (status : WriteStatus) → (status ≡ accepted) ⊎ (status ≢ accepted)
status_cases accepted = inl refl
status_cases clamped = inr λ e. ground (arith, e)
status_cases rejected = inr λ e. ground (arith, e)
status_cases invalid = inr λ e. ground (arith, e)
status_cases timeout = inr λ e. ground (arith, e)
status_cases superseded = inr λ e. ground (arith, e)
status_cases partial = inr λ e. ground (arith, e)

pub all_below_lem :
    (n : ℕ) (test : ℕ → Bool) → ((k : ℕ) → k < n → test k ≡ true) → all_below n test ≡ true
unfolding all_below
all_below_lem zero test h = refl
all_below_lem (suc n) test h =
    let later = all_below_lem n test λ k low. h k (omega (arith, low)) in
    ground (arith, h n (omega arith), later)

pub none_failed :
    (layer : ℕ) (layers : List ℕ) → any_layer layers ≡ false → has_layer layer layers ≡ false
unfolding any_layer has_layer
none_failed layer [] e = refl
none_failed layer (l ∷ layers) e = absurd (ground (arith, e))
