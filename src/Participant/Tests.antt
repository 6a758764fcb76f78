-- ===== src/Participant/Tests.antt =====
-- Runs of the participant rules and of the import planner, and their theorems at concrete inputs.
use racetify_api.Base.{
  ℕ, ℤ, pos, ◌≡◌, refl, true, false, String, [], ◌∷◌, Option, none, some, map, All, any, ◌==◌,
}
use racetify_api.Text.{
  Unicode, is_space, map_text, without_spaces, cut_prefix, trim_prefix, trim_space, cut_code,
  contains_code,
}
use racetify_api.Participant.BloodType.{
  blood_types, normalize_blood_type, normalize_blood_type-normalize_blood_type,
}
use racetify_api.Participant.Rules.{Input, valid_email, validate, check_team_composition}
use racetify_api.Participant.Import.{
  RowAction, create, update, ImportRow, PlanInput, plan_row, has_error, start, check_row, report,
  match_existing, decide_action, add_warning, add_error,
}
use racetify_api.Participant.Rules.{normalize}
use racetify_api.Participant.Normal.{normalize-normalize}
use racetify_api.Participant.Import.Issues.{IsConsistent}
use racetify_api.Participant.Import.Rows.{plan_import-IsConsistent}
use racetify_api.Participant.Import.Matching.{IsMatched, plan_import-IsMatched}
use racetify_api.Participant.Import.Checks.{IsApproved, plan_import-IsApproved}
use racetify_api.Participant.Import.Teams.{
  plan_import, is_accepted, team_key, in_group, seat, seat_row, plan_each, finish, group_keys,
}

abbrev plain : Unicode
plain = record { to_upper = λ c. c; to_lower = λ c. c }

blood_test : normalize_blood_type plain "AB Rh- " ≡ ("", false)
unfolding normalize_blood_type map_text without_spaces is_space cut_prefix trim_prefix
blood_test = refl

blood_test_2 : normalize_blood_type plain " AB RH-" ≡ ("AB-", true)
unfolding normalize_blood_type map_text without_spaces is_space cut_prefix trim_prefix
blood_test_2 = refl

email_test : valid_email "ana@x.org" ≡ true
unfolding valid_email cut_code contains_code
email_test = refl

normalize_blood_type-normalize_blood_type_example :
    (any (λ t. t == "AB-") blood_types ≡ true) × (normalize_blood_type plain "AB-" ≡ ("AB-", true))
normalize_blood_type-normalize_blood_type_example =
    normalize_blood_type-normalize_blood_type plain " AB RH-" "AB-"
      (record {
        keeps_a = refl;
        keeps_b = refl;
        keeps_o = refl;
        keeps_plus = refl;
        keeps_minus = refl;
      })
      blood_test_2

abbrev runner : String → ℤ → Option String → String → Input
runner name bib ref sex = record {
  first_name = name;
  last_name = none;
  bib_name = none;
  bib_number = bib;
  gender = sex;
  ref_id = ref;
  email = none;
  club = none;
  emergency_contact_name = none;
  emergency_contact_phone = none;
  blood_type = none;
  status = "registered";
  team_id = none;
  leg_order = none;
}

abbrev line_of : ℕ → String → String → Input → ImportRow
line_of n race team i = record {
  line = n;
  input = i;
  race_id = race;
  team_name = team;
  team_category = "mixed";
  bad_blood_type = "";
}

-- A file with a new participant, one that is known by BIB, a repeated BIB, and a team of two.
abbrev file : PlanInput
file = record {
  rows =
      line_of 2 "r1" "" (runner "Ana" (pos 7) none "female")
      ∷ line_of 3 "r1" "" (runner "Budi" (pos 8) (some "x8") "male")
      ∷ line_of 4 "r1" "" (runner "Cici" (pos 9) none "female")
      ∷ line_of 5 "r1" "" (runner "Dodi" (pos 9) none "male")
      ∷ line_of 6 "r2" "Elang" (runner "Eka" (pos 20) none "female")
      ∷ line_of 7 "r2" "elang" (runner "Fajar" (pos 21) none "male")
      ∷ [];
  update_existing = true;
  races =
      (
        "r1",
        record {
          id = "r1";
          event_id = "e";
          name = "10k";
          entry_type = "individual";
          course_type = "single";
          team_size = none;
        },
      )
      ∷ (
        "r2",
        record {
          id = "r2";
          event_id = "e";
          name = "relay";
          entry_type = "team";
          course_type = "single";
          team_size = some (pos 2);
        },
      )
      ∷ [];
  existing =
      record {
        id = "p8";
        race_id = "r1";
        bib_number = pos 8;
        ref_id = none;
        team_id = none;
        leg_order = none;
        gender = "male";
      }
      ∷ [];
  teams = [];
}

file_test :
    map (λ e. e.plan.action) (plan_import plain file).rows
    ≡ create ∷ update ∷ RowAction.error ∷ RowAction.error ∷ create ∷ create ∷ []
unfolding plan_import is_accepted plan_each finish group_keys plan_row has_error start check_row
    report match_existing decide_action validate check_team_composition add_warning add_error
    team_key map_text trim_space is_space in_group seat seat_row
file_test = refl

plan_import-IsConsistent_example : All (λ e. IsConsistent e.plan) (plan_import plain file).rows
plan_import-IsConsistent_example = plan_import-IsConsistent plain file

plan_import-IsMatched_example :
    All (λ e. IsMatched file e.row e.plan.existing_id e.plan.action) (plan_import plain file).rows
plan_import-IsMatched_example = plan_import-IsMatched plain file

plan_import-IsApproved_example :
    All (λ e. IsApproved file e.row e.plan.action) (plan_import plain file).rows
plan_import-IsApproved_example = plan_import-IsApproved plain file

normalize-normalize_example :
    normalize plain (normalize plain (runner " Ana " (pos 7) (some " ") "female")).0
    ≡ ((normalize plain (runner " Ana " (pos 7) (some " ") "female")).0, "")
normalize-normalize_example =
    normalize-normalize plain (runner " Ana " (pos 7) (some " ") "female") (record {
      keeps_a = refl;
      keeps_b = refl;
      keeps_o = refl;
      keeps_plus = refl;
      keeps_minus = refl;
    })
