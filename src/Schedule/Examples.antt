-- ===== src/Schedule/Examples.antt =====
-- Runs on entries of a Monday.
use esphome_alpha_hwr.Base.{ℕ, ◌≤◌, ◌≡◌, refl, arith, true, false, List, [], ◌∷◌, length}
use esphome_alpha_hwr.Schedule.Upload.{
  UploadRequest, parsed, on, split, parse_uint, digits_value, parse_fields, check_entry,
  parse_entry, parse_entries, parse_enabled, parse_parts, parse_upload_payload,
}
use esphome_alpha_hwr.Schedule.Grid.{Grid, parse_upload_payload-Grid}
use esphome_alpha_hwr.Schedule.Image.{build_layer_image, Canonical, build_layer_image-Canonical}
use esphome_alpha_hwr.Schedule.Entry.{ScheduleEntry, overlaps_with, crosses_midnight}
use esphome_alpha_hwr.Schedule.Events.{
  SingleEvent, covers_now, find_free_single_event_slot, slot_or, first_empty, is_stored,
  find_stalest, next_stalest, is_live, ended_at, find_vacation_slots, is_vacation, is_covering,
}
use esphome_alpha_hwr.Schedule.Slots.{
  HoldsNoLive, find_free_single_event_slot-HoldsNoLive, is_listed, covers,
  find_vacation_slots-covers,
}
use esphome_alpha_hwr.Schedule.Overlap.{
  Comparable, runs_at, overlaps_with_misses, overlaps_with_sound,
}

abbrev between : ℕ → ℕ → ScheduleEntry
between from until = record {
  day_index = 0;
  begin_hour = from;
  begin_minute = 0;
  end_hour = until;
  end_minute = 0;
  action = 2;
  layer = 0;
  enabled = true;
}

comparable : (a b c d : ℕ) → Comparable (between a b) (between c d)
comparable a b c d = record {
  real_day = omega arith;
  same_day = refl;
  same_layer = refl;
  a_enabled = refl;
  b_enabled = refl;
}

overlaps_with_misses_example :
    (overlaps_with (between 22 2) (between 20 23) ≡ false)
    × ((m : ℕ) × (runs_at (between 22 2) m ≡ true) × (runs_at (between 20 23) m ≡ true))
overlaps_with_misses_example =
    overlaps_with_misses (between 22 2) (between 20 23) (comparable 22 2 20 23) refl

found : overlaps_with (between 22 2) (between 1 3) ≡ true
unfolding overlaps_with crosses_midnight
found = refl

overlaps_with_sound_example :
    Comparable (between 22 2) (between 1 3)
    × ((m : ℕ) × (runs_at (between 22 2) m ≡ true) × (runs_at (between 1 3) m ≡ true))
overlaps_with_sound_example =
    overlaps_with_sound (between 22 2) (between 1 3) (λ e. omega (arith, e)) (λ e. omega (arith, e))
      found

-- "v1,1;0,6,22,0,2,5"
abbrev payload : List ℕ
payload =
    0x76 ∷ 0x31 ∷ 0x2c ∷ 0x31 ∷ 0x3b ∷ 0x30 ∷ 0x2c ∷ 0x36 ∷ 0x2c ∷ 0x32 ∷ 0x32 ∷ 0x2c ∷ 0x30 ∷ 0x2c
    ∷ 0x32 ∷ 0x2c ∷ 0x35 ∷ []

abbrev sunday_night : UploadRequest
sunday_night = record {
  entries =
      record { layer = 0; day = 6; begin_hour = 22; begin_minute = 0; end_hour = 2; end_minute = 5 }
      ∷ [];
  enabled = on;
}

payload_read : parse_upload_payload payload ≡ parsed sunday_night
unfolding parse_upload_payload parse_parts parse_enabled parse_entries parse_entry check_entry
    parse_fields parse_uint digits_value split
payload_read = refl

parse_upload_payload-Grid_example : Grid sunday_night.entries × (length sunday_night.entries ≤ 35)
parse_upload_payload-Grid_example = parse_upload_payload-Grid payload sunday_night payload_read

build_layer_image-Canonical_example : Canonical (build_layer_image sunday_night 0)
build_layer_image-Canonical_example =
    build_layer_image-Canonical sunday_night 0
      (parse_upload_payload-Grid payload sunday_night payload_read).0.valid

abbrev stored_event : (from until slot : ℕ) → SingleEvent
stored_event from until slot = record {
  enabled = true;
  action = 1;
  begin_timestamp = from;
  end_timestamp = until;
  index = slot;
}

abbrev three_events : List SingleEvent
three_events = stored_event 100 200 0 ∷ stored_event 150 900 1 ∷ stored_event 120 180 2 ∷ []

-- All three slots of the pump are taken; of the two events that are over, the last has been over the longest.
find_free_single_event_slot-HoldsNoLive_example : HoldsNoLive 500 2 three_events
find_free_single_event_slot-HoldsNoLive_example =
    find_free_single_event_slot-HoldsNoLive true 3 500 2 three_events
      (unfold is_stored in (refl, (refl, (refl, tt))))
      (unfold find_free_single_event_slot slot_or first_empty is_stored find_stalest next_stalest
          is_live ended_at in
        refl)

find_vacation_slots-covers_example :
    ((find_vacation_slots true 160 three_events).0 ≡ covers_now)
    × ((other : ℕ)
        → is_listed other (find_vacation_slots true 160 three_events).1
          ≡ covers 160 other three_events)
find_vacation_slots-covers_example =
    find_vacation_slots-covers 160 1 three_events (omega arith)
      (unfold covers is_vacation is_covering in refl)
