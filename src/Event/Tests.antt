-- ===== src/Event/Tests.antt =====
-- Runs of the requests on events and races, and their theorems at concrete inputs.
use Prim.Native.Nat.{◌%◌}
use racetify_api.Base.{
  ℕ, pos, nat_eq, ltb, true, false, [], ◌∷◌, none, some, ◌≡◌, ◌↔◌, refl, find, Option,
  if◌then◌else◌, ◌+◌, ◌-◌, arith,
}
use racetify_api.Text.{Unicode, trim_space, trim_left, trim_right, is_space}
use racetify_api.Domain.{ok}
use racetify_api.Tenant.{is_at_least, get_row, update_row}
use racetify_api.Event.{Event, Race, Store, is_race, update_race_row}
use racetify_api.Event.Format.{
  Floats, RaceFormat, normalize_format, validate_format, equal_formats, store_format,
}
use racetify_api.Event.Legal.{IsLegal, normalize_format-IsLegal}
use racetify_api.Event.Events.{is_hex_color, hex_digits, patch_name, patch_slug}
use racetify_api.Event.Races.{RacePatch, patch_race, update_race, update_race_tx}
use racetify_api.Event.Sound.{KeepsStored, IsSound}
use racetify_api.Event.Requests.{creating_event, creating_race, deleting_race, serve, serve-IsSound}
use racetify_api.Event.Fixed.{update_race-IsFixed}

abbrev plain : Unicode
plain = record { to_upper = λ c. c; to_lower = λ c. c }

-- What NUMERIC(6,2) keeps of a length in metres: tens of metres, up to 9,999.99 km.
abbrev kept_metres : ℕ → Option ℕ
kept_metres m = if ltb (m + 5) 10000000 then some (m + 5 - (m + 5) % 10) else none

-- Lengths in metres.
abbrev metres : Floats ℕ
metres = record { is_positive = ltb 0; equal = nat_eq; stored = kept_metres }

-- Two decimals of a kilometre are ten metres.
metres-KeepsStored : KeepsStored metres
metres-KeepsStored m kept h = ground arith

color_test : is_hex_color "#c2410c" ≡ true
unfolding is_hex_color hex_digits
color_test = refl

color_test_2 : is_hex_color "#c2410" ≡ false
unfolding is_hex_color hex_digits
color_test_2 = refl

-- A loop by laps, with settings that do not apply.
abbrev stated_loop : RaceFormat ℕ
stated_loop = record {
  entry_type = "";
  course_type = "loop";
  team_size = some (pos 4);
  loop_mode = some "target_laps";
  loop_length_km = some 5000;
  loop_target_laps = some (pos 10);
  loop_time_limit_ms = some (pos 3600000);
}

abbrev loop : RaceFormat ℕ
loop = record stated_loop { entry_type = "individual"; team_size = none; loop_time_limit_ms = none }

normal_test : normalize_format stated_loop ≡ loop
unfolding normalize_format
normal_test = refl

valid_test : validate_format metres loop ≡ ok tt
unfolding validate_format
valid_test = refl

normalize_format-IsLegal_example :
    (validate_format metres (normalize_format stated_loop) ≡ ok tt)
    ↔ IsLegal metres (normalize_format stated_loop)
normalize_format-IsLegal_example = normalize_format-IsLegal metres stated_loop

abbrev marathon : Event
marathon = record {
  id = "e1";
  tenant_id = "t1";
  name = "Lari Pagi";
  slug = "lari-pagi";
  venue = none;
  start_date = none;
  end_date = none;
  logo_storage_id = none;
  thumbnail_storage_id = none;
  primary_color = none;
  status = "draft";
  created_by = "u1";
  created_at = 100;
  updated_at = 100;
}

abbrev laps : Race ℕ
laps = record {
  id = "r1";
  tenant_id = "t1";
  event_id = "e1";
  name = "Loop";
  slug = "loop";
  distance_km = none;
  format = loop;
  created_at = 110;
  updated_at = 110;
}

abbrev tables : Store ℕ
tables = record {
  events = marathon ∷ [];
  races = laps ∷ [];
  participants = [];
  teams = [];
  templates = [];
  audit = [];
}

abbrev taken : Store ℕ
taken = record tables { participants = record { tenant_id = "t1"; race_id = "r1" } ∷ [] }

abbrev renamed : RacePatch ℕ
renamed = record {
  name = some "Loop 50K";
  slug = none;
  distance_km = none;
  entry_type = none;
  course_type = none;
  team_size = none;
  loop_mode = none;
  loop_length_km = none;
  loop_target_laps = none;
  loop_time_limit_ms = none;
}

serve-IsSound_example : IsSound metres (
    serve metres
      (creating_event plain "e1" 100 "t1" "u1" "owner" "Lari Pagi" "" none none none
        ∷ creating_race plain "r1" 110 "t1" "e1" "admin" "Loop" "" none
            (record stated_loop { loop_length_km = some 5004 })
        ∷ deleting_race "t1" "e1" "staff" "r1"
        ∷ [])
      (record {
        events = [];
        races = [];
        participants = [];
        teams = [];
        templates = [];
        audit = [];
      }))
serve-IsSound_example =
    serve-IsSound metres metres-KeepsStored
      (creating_event plain "e1" 100 "t1" "u1" "owner" "Lari Pagi" "" none none none
        ∷ creating_race plain "r1" 110 "t1" "e1" "admin" "Loop" "" none
            (record stated_loop { loop_length_km = some 5004 })
        ∷ deleting_race "t1" "e1" "staff" "r1"
        ∷ [])
      (record {
        events = [];
        races = [];
        participants = [];
        teams = [];
        templates = [];
        audit = [];
      })
      (tt, tt)

update_race-IsFixed_example :
    (is_at_least "admin" "admin" ≡ true)
    × (loop ≡ loop)
    × ((row : Race ℕ) × (find (is_race "t1" "e1" "r1") (record laps { name = "Loop 50K" } ∷ [])
          ≡ some row)
        × (row.format ≡ loop))
unfolding update_race update_race_tx patch_race patch_name patch_slug normalize_format
    validate_format equal_formats store_format update_race_row trim_space trim_left trim_right
    is_space is_at_least get_row update_row
update_race-IsFixed_example =
    update_race-IsFixed metres plain "t1" "e1" "admin" "r1" renamed taken
      (record taken { races = record laps { name = "Loop 50K" } ∷ [] }) laps
      (record laps { name = "Loop 50K" }) refl refl refl refl
