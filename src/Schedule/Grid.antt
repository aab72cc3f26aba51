-- ===== src/Schedule/Grid.antt =====
-- What an accepted upload is.
use esphome_alpha_hwr.Base.{
  ℕ, ◌+◌, ◌*◌, ◌≤◌, ◌≡◌, ◌≢◌, refl, ap, Bool, true, false, not, ◌&&◌, List, [], ◌∷◌, ◌++◌, arith,
  length, length-append, All, All-append, append-nil, append_assoc, ◌⊎◌, Option-cases, inl, inr,
}
use esphome_alpha_hwr.Schedule.Upload.{
  UploadEntry, UploadRequest, Failure, Parsed, failed, parsed, split, seen, parse_fields, entry_of,
  check_entry, parse_entry, parse_entries, parse_enabled, parse_parts, parse_upload_payload,
}

-- An entry with real times in the grid, which does not end in the minute in which it begins.
pub record ValidEntry (e : UploadEntry) : Type 0 where
  pub in_layers : e.layer ≤ 4
  pub in_week : e.day ≤ 6
  pub in_hours : (e.begin_hour ≤ 23) × (e.end_hour ≤ 23)
  pub in_minutes : (e.begin_minute ≤ 59) × (e.end_minute ≤ 59)
  pub lasts : (e.begin_hour * 60 + e.begin_minute) ≢ (e.end_hour * 60 + e.end_minute)

-- No entry is in the cell of one before it.
abbrev pub distinct : List UploadEntry → List UploadEntry → Bool
distinct earlier [] = true
distinct earlier (e ∷ es) = not (seen e earlier) && distinct (earlier ++ (e ∷ [])) es

check_entry-ValidEntry :
    (e : UploadEntry) (earlier : List UploadEntry) (r : UploadEntry)
    → check_entry e earlier ≡ parsed r
    → ValidEntry r × (seen r earlier ≡ false)
unfolding check_entry
check_entry-ValidEntry e earlier r h = ground arith

parse_entry-ValidEntry :
    (part : List ℕ) (earlier : List UploadEntry) (r : UploadEntry)
    → parse_entry part earlier ≡ parsed r
    → ValidEntry r × (seen r earlier ≡ false)
unfolding parse_entry
parse_entry-ValidEntry part earlier r h = elim (Option-cases (parse_fields (split part 0x2c))) [
  | inl bad ↦ ground (arith, h, bad)
  | inr (values, hv) ↦ elim (Option-cases (entry_of values)) [
    | inl bad ↦ ground (arith, h, hv, bad)
    | inr (e, he) ↦ ground (arith, h, hv, he, check_entry-ValidEntry e earlier r)
  ]
]

Parsed-cases :
    {A : Type 0} (p : Parsed A) → ((f : Failure) × (p ≡ failed f)) ⊎ ((a : A) × (p ≡ parsed a))
Parsed-cases (failed f) = inl (f, refl)
Parsed-cases (parsed a) = inr (a, refl)

distinct-append :
    (earlier xs : List UploadEntry) (e : UploadEntry)
    → distinct earlier xs ≡ true
    → seen e (earlier ++ xs) ≡ false
    → distinct earlier (xs ++ (e ∷ [])) ≡ true
distinct-append earlier [] e d h = ground (arith, ap (seen e) (append-nil earlier))
distinct-append earlier (x ∷ xs) e d h =
    let later = distinct-append (earlier ++ (x ∷ [])) xs e in
    ground (arith, later, ap (seen e) (append_assoc earlier (x ∷ []) xs))

-- The entries of a request that is accepted: valid, each in a cell of its own.
pub record Grid (es : List UploadEntry) : Type 0 where
  pub valid : All ValidEntry es
  pub apart : distinct [] es ≡ true

parse_entries-Grid :
    (parts : List (List ℕ)) (earlier es : List UploadEntry)
    → Grid earlier
    → parse_entries parts earlier ≡ parsed es
    → Grid es × (length es ≡ length earlier + length parts)
unfolding parse_entries
parse_entries-Grid [] earlier es g h = ground (arith, g, h)
parse_entries-Grid (part ∷ parts) earlier es g h = elim (Parsed-cases (parse_entry part earlier)) [
  | inl (f, bad) ↦ ground (arith, h, bad)
  | inr (e, good) ↦
      let fine = parse_entry-ValidEntry part earlier e good in
      let longer : Grid (earlier ++ (e ∷ [])) = record {
        valid = All-append ValidEntry earlier (e ∷ []) g.valid (fine.0, tt);
        apart = distinct-append [] earlier e g.apart fine.1;
      } in
      let rest = parse_entries-Grid parts (earlier ++ (e ∷ [])) es longer in
      ground (arith, h, good, rest, length-append earlier (e ∷ []))
]

parse_parts-Grid :
    (parts : List (List ℕ)) (r : UploadRequest)
    → parse_parts parts ≡ parsed r
    → Grid r.entries × (length r.entries ≤ 35)
unfolding parse_parts
parse_parts-Grid [] r h = ground (arith, h)
parse_parts-Grid (header ∷ parts) r h = elim (Parsed-cases (parse_enabled (split header 0x2c))) [
  | inl (f, bad) ↦ ground (arith, h, bad)
  | inr (flag, good) ↦ elim (Parsed-cases (parse_entries parts [])) [
    | inl (f, bad) ↦ ground (arith, h, good, bad)
    | inr (es, fine) ↦ ground (
      arith,
      h,
      good,
      fine,
      parse_entries-Grid parts [] es (record { valid = tt; apart = refl }) fine,
    )
  ]
]

-- A payload that is accepted, whatever its bytes, gives at most 35 entries, each on a real layer, day
-- and time, with an end other than its begin, and no two in the same cell of the grid.
pub parse_upload_payload-Grid :
    (bytes : List ℕ) (r : UploadRequest)
    → parse_upload_payload bytes ≡ parsed r
    → Grid r.entries × (length r.entries ≤ 35)
unfolding parse_upload_payload
parse_upload_payload-Grid bytes r h = parse_parts-Grid (split bytes 0x3b) r h
