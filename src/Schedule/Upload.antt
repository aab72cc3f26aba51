-- ===== src/Schedule/Upload.antt =====
-- schedule_codec.h and schedule_codec.cpp: the payload of an upload. A `std::string` is the list of its
-- bytes, and the text of an error is its kind.
use esphome_alpha_hwr.Base.{
  ℕ, ◌+◌, ◌-◌, ◌*◌, Bool, true, false, not, ◌&&◌, ◌||◌, List, [], ◌∷◌, ◌++◌, Option, none, some,
  ltb, ◌==◌, if◌then◌else◌, length,
}

abbrev pub upload_max_entries : ℕ
upload_max_entries = 35

pub record UploadEntry : Type 0 where
  pub layer : ℕ
  pub day : ℕ
  pub begin_hour : ℕ
  pub begin_minute : ℕ
  pub end_hour : ℕ
  pub end_minute : ℕ

-- `enabled` is -1, 0 or 1 in the code.
pub data Enabled : Type 0 where
  untouched off on : Enabled

pub record UploadRequest : Type 0 where
  pub entries : List UploadEntry
  pub enabled : Enabled

pub data Failure : Type 0 where
  unknown_version bad_enabled_flag too_many_entries six_fields_needed non_numeric_field bad_layer
        bad_day bad_hour :
      Failure
  bad_minute same_minute duplicate_cell : Failure

pub data Parsed {ℓ} (A : Type ℓ) : Type ℓ where
  failed : Failure → Parsed A
  parsed : A → Parsed A

-- The byte goes to the front of the first part.
abbrev to_first : ℕ → List (List ℕ) → List (List ℕ)
to_first c [] = (c ∷ []) ∷ []
to_first c (part ∷ parts) = (c ∷ part) ∷ parts

unfoldable pub split : List ℕ → ℕ → List (List ℕ)
split [] delim = [] ∷ []
split (c ∷ s) delim =
    let parts = split s delim in if c == delim then [] ∷ parts else to_first c parts

unfoldable pub digits_value : List ℕ → ℕ → Option ℕ
digits_value [] value = some value
digits_value (c ∷ s) value =
    let later = digits_value s (value * 10 + (c - 0x30)) in
    if ltb c 0x30 || ltb 0x39 c then none else later

unfoldable pub parse_uint : List ℕ → Option ℕ
unfolding digits_value
parse_uint s = if (length s == 0) || ltb 3 (length s) then none else digits_value s 0

-- The loop over the six fields.
unfoldable pub parse_fields : List (List ℕ) → Option (List ℕ)
unfolding parse_uint
parse_fields [] = some []
parse_fields (f ∷ fields) = elim (parse_uint f) [
  | none ↦ none
  | some v ↦ elim (parse_fields fields) [ none ↦ none | some vs ↦ some (v ∷ vs) ]
]

abbrev same_cell : UploadEntry → UploadEntry → Bool
same_cell a b = (a.layer == b.layer) && (a.day == b.day)

-- The table `seen`, by the entries that marked it.
abbrev pub seen : UploadEntry → List UploadEntry → Bool
seen e [] = false
seen e (x ∷ xs) = same_cell e x || seen e xs

unfoldable pub check_entry : UploadEntry → List UploadEntry → Parsed UploadEntry
check_entry e earlier =
    if ltb 4 e.layer
    then failed bad_layer
    else if ltb 6 e.day
    then failed bad_day
    else if ltb 23 e.begin_hour || ltb 23 e.end_hour
    then failed bad_hour
    else if ltb 59 e.begin_minute || ltb 59 e.end_minute
    then failed bad_minute
    else if (e.begin_hour * 60 + e.begin_minute) == (e.end_hour * 60 + e.end_minute)
    then failed same_minute
    else if seen e earlier
    then failed duplicate_cell
    else parsed e

abbrev pub entry_of : List ℕ → Option UploadEntry
entry_of (a ∷ b ∷ c ∷ d ∷ e ∷ f ∷ []) =
    some (record {
      layer = a;
      day = b;
      begin_hour = c;
      begin_minute = d;
      end_hour = e;
      end_minute = f;
    })
entry_of _ = none

unfoldable pub parse_entry : List ℕ → List UploadEntry → Parsed UploadEntry
unfolding split parse_fields check_entry
parse_entry part earlier =
    let fields = split part 0x2c in
    if not (length fields == 6) then failed six_fields_needed else elim (parse_fields fields) [
      | none ↦ failed non_numeric_field
      | some values ↦ elim (entry_of values) [
        | none ↦ failed six_fields_needed
        | some e ↦ check_entry e earlier
      ]
    ]

-- The loop over the parts, with the entries so far.
unfoldable pub parse_entries : List (List ℕ) → List UploadEntry → Parsed (List UploadEntry)
unfolding parse_entry
parse_entries [] earlier = parsed earlier
parse_entries (part ∷ parts) earlier = elim (parse_entry part earlier) [
  | failed f ↦ failed f
  | parsed e ↦ parse_entries parts (earlier ++ (e ∷ []))
]

abbrev same_text : List ℕ → List ℕ → Bool
same_text [] [] = true
same_text (a ∷ s) (b ∷ t) = (a == b) && same_text s t
same_text _ _ = false

-- The header `v1,0`, `v1,1` or `v1,-`.
unfoldable pub parse_enabled : List (List ℕ) → Parsed Enabled
parse_enabled (version ∷ flag ∷ []) =
    if not (same_text version (0x76 ∷ 0x31 ∷ []))
    then failed unknown_version
    else if same_text flag (0x30 ∷ [])
    then parsed off
    else if same_text flag (0x31 ∷ [])
    then parsed on
    else if same_text flag (0x2d ∷ [])
    then parsed untouched
    else failed bad_enabled_flag
parse_enabled _ = failed unknown_version

unfoldable pub parse_parts : List (List ℕ) → Parsed UploadRequest
unfolding split parse_enabled parse_entries
parse_parts [] = failed unknown_version
parse_parts (header ∷ parts) = elim (parse_enabled (split header 0x2c)) [
  | failed f ↦ failed f
  | parsed flag ↦
      elim (if ltb upload_max_entries (length parts)
        then failed too_many_entries
        else parse_entries parts []) [
          | failed f ↦ failed f
          | parsed entries ↦ parsed (record { entries = entries; enabled = flag })
        ]
]

unfoldable pub parse_upload_payload : List ℕ → Parsed UploadRequest
unfolding split parse_parts
parse_upload_payload bytes = parse_parts (split bytes 0x3b)
