-- ===== src/Dst/Rules.antt =====
-- The rules of `dst_rule.h`: the decoding of the pump's, the assembly of the node's from what was probed, and their
-- comparison.
use esphome_alpha_hwr.Base.{
  ℕ, ◌+◌, ◌≡◌, Bool, true, false, not, ◌&&◌, ◌||◌, List, arith, ltb, leb, ◌==◌, if◌then◌else◌,
  length,
}
use esphome_alpha_hwr.Codec.{byte_at}
use esphome_alpha_hwr.Dst.{DstTransition, resolve_transition_day}

pub record DstRule : Type 0 where
  pub valid : Bool
  pub enabled : Bool
  pub start : DstTransition
  pub end : DstTransition
  pub offset_minutes : ℕ

pub data DstAgreement : Type 0 where
  unknown agree neither pump_only host_only rules_differ : DstAgreement

unfoldable pub dst_rules_agree : DstAgreement → Bool
dst_rules_agree agree = true
dst_rules_agree neither = true
dst_rules_agree _ = false

abbrev pub dst_rule_body_len : ℕ
dst_rule_body_len = 10

unfoldable pub dst_transition_fields_in_range : DstTransition → Bool
dst_transition_fields_in_range d =
    (leb 1 d.month && leb d.month 12)
    && (leb 1 d.weekday && leb d.weekday 7)
    && (leb 1 d.occurrence && leb d.occurrence 5)
    && leb d.hour 23

abbrev pub no_transition : DstTransition
no_transition = record { month = 0; weekday = 0; occurrence = 0; hour = 0 }

abbrev pub no_rule : DstRule
no_rule = record {
  valid = false;
  enabled = false;
  start = no_transition;
  end = no_transition;
  offset_minutes = 0;
}

unfoldable pub transition_at : List ℕ → ℕ → DstTransition
transition_at body at = record {
  month = byte_at body at;
  weekday = byte_at body (at + 1);
  occurrence = byte_at body (at + 2);
  hour = byte_at body (at + 3);
}

unfoldable pub decode_dst_rule : List ℕ → DstRule
decode_dst_rule body =
    let start = transition_at body 1 in
    let end = transition_at body 5 in
    let enabled = not (byte_at body 0 == 0) in
    if ltb (length body) dst_rule_body_len then no_rule else record {
      valid =
          not enabled
          || (dst_transition_fields_in_range start && dst_transition_fields_in_range end);
      enabled = enabled;
      start = start;
      end = end;
      offset_minutes = byte_at body 9;
    }

unfoldable pub transitions_coincide : DstTransition → DstTransition → ℕ → Bool
transitions_coincide a b year =
    let day_a = resolve_transition_day a year in
    let day_b = resolve_transition_day b year in
    a.month == b.month && a.hour == b.hour && not (day_a == 0 || day_b == 0) && day_a == day_b

unfoldable pub compare_dst_rules : DstRule → DstRule → ℕ → DstAgreement
compare_dst_rules pump host year =
    if not pump.valid || not host.valid
    then unknown
    else if not pump.enabled && not host.enabled
    then neither
    else if pump.enabled && not host.enabled
    then pump_only
    else if not pump.enabled && host.enabled
    then host_only
    else if transitions_coincide pump.start host.start year
        && transitions_coincide pump.end host.end year
        && pump.offset_minutes == host.offset_minutes
    then agree
    else rules_differ

-- The same finding from the other side.
unfoldable pub mirrored : DstAgreement → DstAgreement
mirrored pump_only = host_only
mirrored host_only = pump_only
mirrored unknown = unknown
mirrored agree = agree
mirrored neither = neither
mirrored rules_differ = rules_differ

transitions_coincide-swap :
    (a b : DstTransition) (year : ℕ) → transitions_coincide a b year ≡ transitions_coincide b a year
unfolding transitions_coincide
transitions_coincide-swap a b year = ground arith

-- The comparison does not depend on which rule is whose: with the two exchanged it finds the same, with
-- the sides exchanged.
pub compare_dst_rules-mirrored :
    (a b : DstRule) (year : ℕ) → compare_dst_rules b a year ≡ mirrored (compare_dst_rules a b year)
unfolding compare_dst_rules mirrored
compare_dst_rules-mirrored a b year =
    let starts = transitions_coincide-swap a.start b.start year in
    let ends = transitions_coincide-swap a.end b.end year in rw (starts, ends) (ground arith)

-- Rules that agree and are in use change the clock on the same day of the year, at the same hour.
pub compare_dst_rules-days :
    (pump host : DstRule) (year : ℕ)
    → compare_dst_rules pump host year ≡ agree
    → (resolve_transition_day pump.start year ≡ resolve_transition_day host.start year)
      × (resolve_transition_day pump.end year ≡ resolve_transition_day host.end year)
      × (pump.start.hour ≡ host.start.hour)
      × (pump.end.hour ≡ host.end.hour)
unfolding compare_dst_rules transitions_coincide
compare_dst_rules-days pump host year e =
    (ground (arith, e), ground (arith, e), ground (arith, e), ground (arith, e))
