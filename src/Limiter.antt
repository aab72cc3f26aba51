-- ===== src/Limiter.antt =====
-- components/alpha_hwr/limiter.h: the pump's flow limiters, their objects decoded and written. A float
-- is its 32-bit pattern. A null pointer and a buffer are one list: the code reads a null pointer as one
-- that is too short. The texts for the status and the conversion to gpm are left out.
mod Examples
use esphome_alpha_hwr.Base.{
  ℕ, zero, suc, ◌+◌, ◌≤◌, ◌≡◌, ◌↔◌, refl, sym, ap, ◌∙◌, Bool, true, false, not, ◌&&◌, ◌||◌, List,
  [], ◌∷◌, ◌++◌, Option, none, some, arith, ltb, leb, ◌==◌, if◌then◌else◌, length, take, drop,
  get_or, IsU32, length-append, take_all,
}
use esphome_alpha_hwr.Codec.{byte_at, encode_float_be, decode_float_be}
use esphome_alpha_hwr.Codec.Bytes.{decode-encode_uint32_be}

pub data LimiterName : Type 0 where
  none_limiting max_flow min_flow : LimiterName

pub record LimiterConfig : Type 0 where
  pub valid : Bool
  pub name : LimiterName
  pub enabled : Bool
  pub limit_m3s : ℕ
  pub pid_raw : List ℕ

pub record LimiterStatus : Type 0 where
  pub valid : Bool
  pub name : LimiterName
  pub limiting : Bool
  pub reference : ℕ

abbrev pub limiter_config_body_len : ℕ
limiter_config_body_len = 18

abbrev pub limiter_config_pid_offset : ℕ
limiter_config_pid_offset = 6

abbrev pub limiter_config_pid_len : ℕ
limiter_config_pid_len = 12

abbrev pub limiter_status_body_len : ℕ
limiter_status_body_len = 6

unfoldable pub limiter_name_for_sub : ℕ → LimiterName
limiter_name_for_sub sub =
    if (sub == 600) || (sub == 640)
    then max_flow
    else if (sub == 601) || (sub == 641)
    then min_flow
    else none_limiting

unfoldable pub limiter_name_from_byte : ℕ → LimiterName
limiter_name_from_byte b =
    if b == 0x01 then max_flow else if b == 0x02 then min_flow else none_limiting

abbrev pub name_byte : LimiterName → ℕ
name_byte none_limiting = 0x00
name_byte max_flow = 0x01
name_byte min_flow = 0x02

abbrev pub no_config : LimiterConfig
no_config = record {
  valid = false;
  name = none_limiting;
  enabled = false;
  limit_m3s = 0;
  pid_raw = 0 ∷ 0 ∷ 0 ∷ 0 ∷ 0 ∷ 0 ∷ 0 ∷ 0 ∷ 0 ∷ 0 ∷ 0 ∷ 0 ∷ [];
}

unfoldable pub decode_limiter_config : List ℕ → LimiterConfig
unfolding limiter_name_from_byte
decode_limiter_config body =
    if not (leb limiter_config_body_len (length body)) then no_config else record {
      valid = true;
      name = limiter_name_from_byte (byte_at body 0);
      enabled = not (byte_at body 1 == 0);
      limit_m3s = decode_float_be body 2;
      pid_raw = take limiter_config_pid_len (drop limiter_config_pid_offset body);
    }

-- `none` is the result `false`.
unfoldable pub build_limiter_write_body : LimiterConfig → Bool → ℕ → Option (List ℕ)
build_limiter_write_body cached enabled limit_m3s =
    if not cached.valid
    then none
    else some (
        name_byte cached.name
        ∷ (if enabled then 0x01 else 0x00)
        ∷ (encode_float_be limit_m3s ++ cached.pid_raw))

unfoldable pub decode_limiter_status : List ℕ → LimiterStatus
unfolding limiter_name_from_byte
decode_limiter_status body =
    if not (leb limiter_status_body_len (length body))
    then record { valid = false; name = none_limiting; limiting = false; reference = 0 }
    else record {
      valid = true;
      name = limiter_name_from_byte (byte_at body 0);
      limiting = not (byte_at body 1 == 0);
      reference = decode_float_be body 2;
    }

pub record LimiterState : Type 0 where
  pub max_config : LimiterConfig
  pub min_config : LimiterConfig
  pub max_flow_status : LimiterStatus
  pub min_flow_status : LimiterStatus
  pub manager : LimiterStatus

abbrev limits : LimiterStatus → Bool
limits s = s.valid && s.limiting

unfoldable pub limiting : LimiterState → Bool
limiting s = limits s.manager || limits s.max_flow_status || limits s.min_flow_status

abbrev names_none : LimiterName → Bool
names_none none_limiting = true
names_none _ = false

unfoldable pub limiting_name : LimiterState → LimiterName
limiting_name s =
    if limits s.manager && not (names_none s.manager.name)
    then s.manager.name
    else if limits s.max_flow_status
    then max_flow
    else if limits s.min_flow_status
    then min_flow
    else none_limiting

unfoldable pub known : LimiterState → Bool
known s =
    s.max_config.valid || s.min_config.valid || s.manager.valid || s.max_flow_status.valid
    || s.min_flow_status.valid

unfoldable pub any_enabled : LimiterState → Bool
any_enabled s =
    (s.max_config.valid && s.max_config.enabled) || (s.min_config.valid && s.min_config.enabled)

unfoldable pub config_complete : LimiterState → Bool
config_complete s = s.max_config.valid && s.min_config.valid

-- The limit is read back from its four bytes.
limit_read :
    (name enabled limit : ℕ) (pid : List ℕ)
    → IsU32 limit
    → decode_float_be (name ∷ enabled ∷ (encode_float_be limit ++ pid)) 2 ≡ limit
limit_read name enabled limit pid h = (decode-encode_uint32_be (name ∷ enabled ∷ []) pid limit h).1

four_bytes : (limit : ℕ) → length (encode_float_be limit) ≡ 4
unfolding encode_float_be
four_bytes limit = refl

behind_four : (limit : ℕ) (pid : List ℕ) → drop 4 (encode_float_be limit ++ pid) ≡ pid
unfolding encode_float_be
behind_four limit pid = refl

name_read : (n : LimiterName) → limiter_name_from_byte (name_byte n) ≡ n
unfolding limiter_name_from_byte
name_read none_limiting = refl
name_read max_flow = refl
name_read min_flow = refl

abbrev written : LimiterConfig → Bool → ℕ → List ℕ
written cached enabled limit =
    name_byte cached.name
    ∷ (if enabled then 0x01 else 0x00)
    ∷ (encode_float_be limit ++ cached.pid_raw)

take_twelve : (pid : List ℕ) → length pid ≡ 12 → take 12 pid ≡ pid
take_twelve pid p = ap (λ n. take n pid) (sym p) ∙ take_all pid

decode-written :
    (cached : LimiterConfig) (enabled : Bool) (limit : ℕ)
    → IsU32 limit
    → length cached.pid_raw ≡ 12
    → cached.valid ≡ true
    → (length (written cached enabled limit) ≡ 18)
      × (decode_limiter_config (written cached enabled limit)
          ≡ record cached { enabled = enabled; limit_m3s = limit })
unfolding decode_limiter_config
decode-written cached enabled limit h p v =
    let size = length-append (encode_float_be limit) cached.pid_raw in
    ground (
      arith,
      size,
      four_bytes limit,
      name_read cached.name,
      limit_read (name_byte cached.name) (if enabled then 0x01 else 0x00) limit cached.pid_raw h,
      behind_four limit cached.pid_raw,
      take_twelve cached.pid_raw p,
      ap (take 12) (behind_four limit cached.pid_raw),
    )

built :
    (cached : LimiterConfig) (enabled : Bool) (limit : ℕ) (body : List ℕ)
    → build_limiter_write_body cached enabled limit ≡ some body
    → (cached.valid ≡ true) × (body ≡ written cached enabled limit)
unfolding build_limiter_write_body
built cached enabled limit body e = ground arith

-- What is written for a configuration that was read before is read back as that configuration with the
-- new switch and the new limit; its name and the twelve bytes that nothing here understands are kept.
pub decode-build_limiter_write_body :
    (cached : LimiterConfig) (enabled : Bool) (limit_m3s : ℕ) (body : List ℕ)
    → IsU32 limit_m3s
    → length cached.pid_raw ≡ 12
    → build_limiter_write_body cached enabled limit_m3s ≡ some body
    → (length body ≡ 18)
      × (decode_limiter_config body ≡ record cached { enabled = enabled; limit_m3s = limit_m3s })
decode-build_limiter_write_body cached enabled limit_m3s body h p e =
    let (valid, same) = built cached enabled limit_m3s body e in
    rw same (decode-written cached enabled limit_m3s h p valid)
