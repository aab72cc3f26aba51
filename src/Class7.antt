-- ===== src/Class7.antt =====
-- `components/alpha_hwr/class7_string.h`: the text in a class 7 reply, as bytes.
use esphome_alpha_hwr.Base.{
  ℕ, ◌+◌, ◌-◌, ◌≤◌, ◌≢◌, Bool, true, false, not, ◌&&◌, ◌||◌, List, [], ◌∷◌, Option, none, some,
  arith, ltb, ◌==◌, if◌then◌else◌, length, take, drop, length-take, All, Bool-cases, inl, inr,
}
use esphome_alpha_hwr.Codec.{byte_at}

abbrev pub class7_header_len : ℕ
class7_header_len = 6

abbrev pub class7_crc_len : ℕ
class7_crc_len = 2

abbrev pub class7_min_frame_len : ℕ
class7_min_frame_len = class7_header_len + class7_crc_len

abbrev pub class7_max_string_len : ℕ
class7_max_string_len = 127

pub data Class7Status : Type 0 where
  ok frame_too_short not_class_7 no_data : Class7Status

pub record Class7StringResult : Type 0 where
  pub status : Class7Status
  pub value : List ℕ
  pub declared_count : ℕ
  pub string_bytes : ℕ
  pub count_disagrees : Bool
  pub truncated : Bool

-- The loop that copies up to the first null.
unfoldable pub until_null : List ℕ → List ℕ
until_null [] = []
until_null (b ∷ bytes) = let later = until_null bytes in if b == 0 then [] else b ∷ later

unfoldable pub is_space : ℕ → Bool
is_space b = b == 32 || b == 9 || b == 13 || b == 10

unfoldable pub is_blank : List ℕ → Bool
is_blank [] = true
is_blank (b ∷ bytes) = is_space b && is_blank bytes

-- The loop that takes white space off the end.
unfoldable pub trim_end : List ℕ → List ℕ
trim_end [] = []
trim_end (b ∷ bytes) = let later = trim_end bytes in if is_blank (b ∷ bytes) then [] else b ∷ later

abbrev pub no_string : Class7StringResult
no_string = record {
  status = no_data;
  value = [];
  declared_count = 0;
  string_bytes = 0;
  count_disagrees = false;
  truncated = false;
}

-- `none` is the null pointer.
unfoldable pub decode_class7_string : Option (List ℕ) → Class7StringResult
decode_class7_string none = no_string
decode_class7_string (some bytes) =
    let string_bytes = length bytes - class7_header_len - class7_crc_len in
    if ltb (length bytes) class7_min_frame_len
    then record no_string { status = frame_too_short }
    else if not (byte_at bytes 4 == 7)
    then record no_string { status = not_class_7 }
    else record {
      status = ok;
      value = trim_end (
          until_null
            (take class7_max_string_len (take string_bytes (drop class7_header_len bytes))));
      declared_count = byte_at bytes 5;
      string_bytes = string_bytes;
      count_disagrees = not (byte_at bytes 5 == string_bytes);
      truncated = ltb class7_max_string_len string_bytes;
    }

until_null-real :
    (bytes : List ℕ)
    → All (λ b. b ≢ 0) (until_null bytes) × (length (until_null bytes) ≤ length bytes)
unfolding until_null
until_null-real [] = (tt, omega arith)
until_null-real (b ∷ bytes) =
    let (real, few) = until_null-real bytes in
    elim (Bool-cases (b == 0)) [
      | inl null ↦ rw null (tt, omega arith)
      | inr char ↦ rw char (((λ e. ground (arith, char, e)), real), omega (arith, few))
    ]

trim_end-real :
    (bytes : List ℕ)
    → All (λ b. b ≢ 0) bytes
    → All (λ b. b ≢ 0) (trim_end bytes) × (length (trim_end bytes) ≤ length bytes)
unfolding trim_end
trim_end-real [] h = (tt, omega arith)
trim_end-real (b ∷ bytes) (h, hs) =
    let (real, few) = trim_end-real bytes hs in
    elim (Bool-cases (is_blank (b ∷ bytes))) [
      | inl blank ↦ rw blank (tt, omega arith)
      | inr text ↦ rw text ((h, real), omega (arith, few))
    ]

-- The text of a reply holds no null byte and at most 127 bytes, whatever the frame.
pub decode_class7_string-real :
    (bytes : Option (List ℕ))
    → All (λ b. b ≢ 0) (decode_class7_string bytes).value
      × (length (decode_class7_string bytes).value ≤ 127)
unfolding decode_class7_string
decode_class7_string-real none = (tt, omega arith)
decode_class7_string-real (some bytes) =
    let string_bytes = length bytes - class7_header_len - class7_crc_len in
    let text = take 127 (take string_bytes (drop class7_header_len bytes)) in
    let copied = until_null-real text in
    let trimmed = trim_end-real (until_null text) copied.0 in
    let short = length-take 127 (take string_bytes (drop class7_header_len bytes)) in
    elim (Bool-cases (ltb (length bytes) class7_min_frame_len)) [
      | inl few ↦ rw few (tt, omega arith)
      | inr enough ↦ elim (Bool-cases (byte_at bytes 4 == 7)) [
        | inl class_7 ↦ rw (enough, class_7) (trimmed.0, omega (arith, trimmed.1, copied.1, short))
        | inr other ↦ rw (enough, other) (tt, omega arith)
      ]
    ]
