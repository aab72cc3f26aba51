-- ===== src/Frame/Sealed.antt =====
-- A telegram that a builder closes with its checksum is accepted, and with one wrong byte is not.
use esphome_alpha_hwr.Base.{
  ℕ, suc, ◌+◌, ◌-◌, ◌≤◌, ◌≡◌, ◌≢◌, ◌↔◌, sym, ap, ◌∙◌, append_assoc, Bool, true, false, List, [],
  ◌∷◌, ◌++◌, ◌*◌, refl, u16, arith, length, length-append, take, take-append, ◌==◌, ==_iff,
  Bool-cases, inl, inr, IsByte, All,
}
use esphome_alpha_hwr.Codec.{calc_crc16_read, encode_uint16_be, decode_uint16_be, hi_byte, lo_byte}
use esphome_alpha_hwr.Codec.Crc.{calc_crc16_read-lt, calc_crc16_read_one_byte}
use esphome_alpha_hwr.Codec.Bytes.{decode-encode_uint16_be, byte_at_behind, byte_at_start}
use esphome_alpha_hwr.Frame.Builder.{append_crc}
use esphome_alpha_hwr.Frame.Parser.{frame_crc_valid}

-- What `frame_crc_valid` compares, on a telegram taken apart.
frame_crc_valid_parts :
    (start : ℕ) (body tail : List ℕ)
    → 1 ≤ length body
    → frame_crc_valid (start ∷ (body ++ tail)) (length body + 3)
      ≡ (calc_crc16_read body == decode_uint16_be (start ∷ (body ++ tail)) (suc (length body)))
unfolding frame_crc_valid
frame_crc_valid_parts start body tail h = ground (arith, covered, place)
  where
    covered : take (length body + 3 - 3) (body ++ tail) ≡ body
    covered = ap (λ n. take n (body ++ tail)) (omega arith) ∙ take-append body tail

    place :
        decode_uint16_be (start ∷ (body ++ tail)) (length body + 3 - 2)
        ≡ decode_uint16_be (start ∷ (body ++ tail)) (suc (length body))
    place = ap (decode_uint16_be (start ∷ (body ++ tail))) (omega arith)

-- A telegram closed by `append_crc` passes the check, whatever stands behind it in the buffer.
pub frame_crc_valid-append_crc :
    (start : ℕ) (body rest : List ℕ)
    → 1 ≤ length body
    → frame_crc_valid (append_crc (start ∷ body) ++ rest) (length body + 3) ≡ true
unfolding append_crc
frame_crc_valid-append_crc start body rest h =
    ap (λ xs. frame_crc_valid (start ∷ xs) (length body + 3)) (append_assoc body _ rest)
    ∙ frame_crc_valid_parts start body (hi_byte crc ∷ lo_byte crc ∷ rest) h
    ∙ (==_iff _ _).1 (sym read)
  where
    crc : ℕ
    crc = calc_crc16_read body

    read :
        decode_uint16_be (start ∷ (body ++ (hi_byte crc ∷ lo_byte crc ∷ rest))) (suc (length body))
        ≡ crc
    read =
        unfold encode_uint16_be in
        decode-encode_uint16_be (start ∷ body) rest crc (calc_crc16_read-lt body)

decode_behind :
    (pre tail : List ℕ) → decode_uint16_be (pre ++ tail) (length pre) ≡ decode_uint16_be tail 0
unfolding decode_uint16_be
decode_behind pre tail = omega (arith, byte_at_start pre tail, byte_at_behind pre tail 1)

-- A telegram passes just when its two last bytes hold the checksum.
checks :
    (start : ℕ) (body tail : List ℕ)
    → 1 ≤ length body
    → (frame_crc_valid (start ∷ (body ++ tail)) (length body + 3) ≡ true)
      ↔ (calc_crc16_read body ≡ decode_uint16_be tail 0)
checks start body tail h =
    rw (frame_crc_valid_parts start body tail h, decode_behind (start ∷ body) tail) (==_iff _ _)

-- Is the telegram of `start` and all of `bytes` accepted, with `rest` behind it in the buffer?
abbrev pub is_sealed : (start : ℕ) → (bytes rest : List ℕ) → Bool
is_sealed start bytes rest = frame_crc_valid (start ∷ (bytes ++ rest)) (length bytes + 1)

module _ (start : ℕ) (rest : List ℕ) where
  is_sealed_parts :
      (body : List ℕ) (hi lo : ℕ)
      → is_sealed start (body ++ hi ∷ lo ∷ []) rest
        ≡ frame_crc_valid (start ∷ (body ++ hi ∷ lo ∷ rest)) (length body + 3)
  is_sealed_parts body hi lo =
      ap (λ xs. frame_crc_valid (start ∷ xs) (length (body ++ hi ∷ lo ∷ []) + 1))
        (append_assoc body (hi ∷ lo ∷ []) rest)
      ∙ ap (frame_crc_valid (start ∷ (body ++ hi ∷ lo ∷ rest)))
          (omega (arith, length-append body (hi ∷ lo ∷ [])))

  checks_bytes :
      (body : List ℕ) (hi lo : ℕ)
      → 1 ≤ length body
      → (is_sealed start (body ++ hi ∷ lo ∷ []) rest ≡ true)
        ↔ (calc_crc16_read body ≡ u16 (hi * 256) + lo)
  unfolding decode_uint16_be
  checks_bytes body hi lo h = rw (is_sealed_parts body hi lo) (checks start body (hi ∷ lo ∷ rest) h)

  -- A wrong byte of the body, of the high half of the checksum, and of its low half.
  body_corrupt :
      (xs ys : List ℕ) (a b hi lo : ℕ)
      → IsByte a
      → IsByte b
      → All IsByte ys
      → a ≢ b
      → is_sealed start ((xs ++ a ∷ ys) ++ hi ∷ lo ∷ []) rest ≡ true
      → is_sealed start ((xs ++ b ∷ ys) ++ hi ∷ lo ∷ []) rest ≡ false
  body_corrupt xs ys a b hi lo ha hb hy ne good =
      elim (Bool-cases (is_sealed start ((xs ++ b ∷ ys) ++ hi ∷ lo ∷ []) rest)) [
        | inl bad ↦ absurd (
            calc_crc16_read_one_byte xs ys a b ha hb hy ne (
              (checks_bytes (xs ++ a ∷ ys) hi lo (omega (arith, length-append xs (a ∷ ys)))).0 good
              ∙ sym (
                  (checks_bytes (xs ++ b ∷ ys) hi lo (omega (arith, length-append xs (b ∷ ys)))).0
                    bad)))
        | inr rejected ↦ rejected
      ]

  checksum_corrupt :
      (body : List ℕ) (hi lo hi' lo' : ℕ)
      → 1 ≤ length body
      → u16 (hi * 256) + lo ≢ u16 (hi' * 256) + lo'
      → is_sealed start (body ++ hi ∷ lo ∷ []) rest ≡ true
      → is_sealed start (body ++ hi' ∷ lo' ∷ []) rest ≡ false
  checksum_corrupt body hi lo hi' lo' h ne good =
      elim (Bool-cases (is_sealed start (body ++ hi' ∷ lo' ∷ []) rest)) [
        | inl bad ↦
            absurd
              (ne (sym ((checks_bytes body hi lo h).0 good) ∙ (checks_bytes body hi' lo' h).0 bad))
        | inr rejected ↦ rejected
      ]

-- The last byte taken off.
last_byte : (xs : List ℕ) → 1 ≤ length xs → (ys : List ℕ) × (z : ℕ) × (xs ≡ ys ++ z ∷ [])
last_byte [] h = absurd (omega (arith, h))
last_byte (x ∷ []) h = ([], x, refl)
last_byte (x ∷ x' ∷ xs) h =
    let (ys, z, e) = last_byte (x' ∷ xs) (omega arith) in (x ∷ ys, z, ap (λ l. x ∷ l) e)

front_of_bytes : (front back : List ℕ) → All IsByte (front ++ back) → All IsByte front
front_of_bytes [] back h = tt
front_of_bytes (x ∷ front) back h = (h.0, front_of_bytes front back h.1)

front_of : (l front back : List ℕ) → l ≡ front ++ back → All IsByte l → All IsByte front
front_of l front back e h = front_of_bytes front back (rw e at h)

-- One wrong byte behind the start byte is always found, one of the two bytes of the checksum too: if a
-- telegram with at least three bytes behind its start byte passes the check, the same telegram with
-- another byte in one of those places does not. The bytes behind the wrong one are bytes.
pub frame_crc_valid_corrupt :
    (start : ℕ) (xs ys rest : List ℕ) (a b : ℕ)
    → IsByte a
    → IsByte b
    → All IsByte ys
    → a ≢ b
    → 3 ≤ length (xs ++ a ∷ ys)
    → frame_crc_valid (start ∷ ((xs ++ a ∷ ys) ++ rest)) (length (xs ++ a ∷ ys) + 1) ≡ true
    → frame_crc_valid (start ∷ ((xs ++ b ∷ ys) ++ rest)) (length (xs ++ b ∷ ys) + 1) ≡ false
frame_crc_valid_corrupt start xs [] rest a b ha hb hy ne long good =
    let (body, hi, e) = last_byte xs (omega (arith, long, length-append xs (a ∷ []))) in
    let some_body : 1 ≤ length body =
      omega (arith, long, length-append xs (a ∷ []), ap length e, length-append body (hi ∷ [])) in
    let split : (z : ℕ) → xs ++ z ∷ [] ≡ body ++ hi ∷ z ∷ [] =
      λ z. ap (λ l. l ++ z ∷ []) e ∙ append_assoc body (hi ∷ []) (z ∷ []) in
    ap (λ l. is_sealed start l rest) (split b)
    ∙ checksum_corrupt start rest body hi a hi b some_body (λ same. ne (omega (arith, same)))
        (ap (λ l. is_sealed start l rest) (sym (split a)) ∙ good)
frame_crc_valid_corrupt start xs (lo ∷ []) rest a b ha hb hy ne long good =
    checksum_corrupt start rest xs a lo b lo (omega (arith, long, length-append xs (a ∷ lo ∷ [])))
      (λ same. ne (omega (arith, same, ha, hb))) good
frame_crc_valid_corrupt start xs (y ∷ y' ∷ ys) rest a b ha hb hy ne long good =
    let (front, lo, e) = last_byte (y' ∷ ys) (omega arith) in
    let (inner, hi, e') = last_byte (y ∷ front) (omega arith) in
    let whole : y ∷ y' ∷ ys ≡ inner ++ hi ∷ lo ∷ [] =
      ap (λ l. y ∷ l) e ∙ ap (λ l. l ++ lo ∷ []) e' ∙ append_assoc inner (hi ∷ []) (lo ∷ []) in
    let split : (z : ℕ) → xs ++ z ∷ y ∷ y' ∷ ys ≡ (xs ++ z ∷ inner) ++ hi ∷ lo ∷ [] =
      λ z. ap (λ l. xs ++ z ∷ l) whole ∙ sym (append_assoc xs (z ∷ inner) (hi ∷ lo ∷ [])) in
    let bytes : All IsByte inner = front_of (y ∷ y' ∷ ys) inner (hi ∷ lo ∷ []) whole hy in
    ap (λ l. is_sealed start l rest) (split b)
    ∙ body_corrupt start rest xs inner a b hi lo ha hb bytes ne
        (ap (λ l. is_sealed start l rest) (sym (split a)) ∙ good)
