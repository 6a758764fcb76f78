-- ===== src/Participant/Rules.antt =====
-- internal/participant/rules.go: the field rules of a participant and the rules of a team.
use Prim.Native.String.{len}
use racetify_api.Base.{
  ℤ, pos, leb_ℤ, length, String, Bool, true, false, not, List, Option, none, some, ◌==◌, ◌||◌, ◌&&◌,
  if◌then◌else◌, any, leb,
}
use racetify_api.Text.{Unicode, no_text, trim_space, cut_code, contains_code}
use racetify_api.Participant.BloodType.{normalize_blood_type}
use racetify_api.Participant.{
  RaceFormat, is_team, is_relay, size_or_zero, Error, invalid, valid_gender, valid_status,
  valid_category, gender_male, gender_female, category_male, category_female, category_mixed,
  status_registered,
}

-- The writable state of a participant.
pub record Input : Type 0 where
  pub first_name : String
  pub last_name : Option String
  pub bib_name : Option String
  pub bib_number : ℤ
  pub gender : String
  pub ref_id : Option String
  pub email : Option String
  pub club : Option String
  pub emergency_contact_name : Option String
  pub emergency_contact_phone : Option String
  pub blood_type : Option String
  pub status : String
  pub team_id : Option String
  pub leg_order : Option ℤ

-- The address splits at its first "@" into two parts that are not empty, the second has a dot, and
-- the whole has no blank and at most 254 bytes.
unfoldable pub valid_email : String → Bool
valid_email s = elim (cut_code b'@' s) [
  | none ↦ false
  | some (before, after) ↦
      not (no_text before)
      && not (no_text after)
      && contains_code b'.' after
      && not (contains_code 32 s || contains_code 9 s || contains_code 13 s || contains_code 10 s)
      && leb (len s) 254
]

unfoldable pub trim_ptr : Option String → Option String
trim_ptr none = none
trim_ptr (some p) = let s = trim_space p in if s == "" then none else some s

abbrev pub is_set {ℓ} : {A : Type ℓ} → Option A → Bool
is_set none = false
is_set (some a) = true

-- The leg rules at the end of Validate.
unfoldable pub validate_leg : RaceFormat → Option ℤ → Option Error
validate_leg race none = if is_relay race then some (invalid "leg_order") else none
validate_leg race (some leg) =
    if is_relay race
    then if not (leb_ℤ (pos 1) leg) || not (leb_ℤ leg (size_or_zero race.team_size))
      then some (invalid "leg_order")
      else none
    else some (invalid "leg_order")

module _ (u : Unicode) where
  -- The blood type that is kept, and the one that is not recognised ("" if there is none).
  unfoldable pub normalize_blood : Option String → Option String × String
  normalize_blood none = (none, "")
  normalize_blood (some bt) =
      let (norm, known) = normalize_blood_type u bt in if known then (some norm, "") else (none, bt)

  -- Normalize: the input after it, and the bad blood type that it reports.
  unfoldable pub normalize : Input → Input × String
  unfolding normalize_blood
  normalize input =
      let (blood_type, bad) = normalize_blood (trim_ptr input.blood_type) in
      (
        record {
          first_name = trim_space input.first_name;
          last_name = trim_ptr input.last_name;
          bib_name = trim_ptr input.bib_name;
          bib_number = input.bib_number;
          gender = input.gender;
          ref_id = trim_ptr input.ref_id;
          email = trim_ptr input.email;
          club = trim_ptr input.club;
          emergency_contact_name = trim_ptr input.emergency_contact_name;
          emergency_contact_phone = trim_ptr input.emergency_contact_phone;
          blood_type = blood_type;
          status = if input.status == "" then status_registered else input.status;
          team_id = trim_ptr input.team_id;
          leg_order = input.leg_order;
        },
        bad,
      )

abbrev pub bad_email : Option String → Bool
bad_email none = false
bad_email (some e) = not (valid_email e)

-- Validate: the first rule that is broken, if any.
unfoldable pub validate : RaceFormat → Input → Option Error
unfolding validate_leg
validate race input =
    if input.first_name == ""
    then some (invalid "first_name")
    else if leb_ℤ input.bib_number (pos 0)
    then some (invalid "bib_number")
    else if not (valid_gender input.gender)
    then some (invalid "gender")
    else if not (valid_status input.status)
    then some (invalid "status")
    else if bad_email input.email
    then some (invalid "email")
    else if is_team race && not (is_set input.team_id)
    then some (invalid "team_id")
    else if not (is_team race) && is_set input.team_id
    then some (invalid "team_id")
    else validate_leg race input.leg_order

-- CheckTeamComposition: a composition is fine, fine with a warning, or refused.
pub data Composition : Type 0 where
  fine warned : Composition
  refused : Error → Composition

unfoldable pub check_team_composition : String → ℤ → List String → Composition
check_team_composition category team_size genders =
    if category == category_male || category == category_female
    then if any (λ g. not (g == category)) genders then refused (invalid "gender") else fine
    else if category == category_mixed
    then if any (λ g. g == gender_male) genders && any (λ g. g == gender_female) genders
      then fine
      else if not (leb_ℤ team_size (pos 0)) && leb_ℤ team_size (pos (length genders))
      then refused (invalid "gender")
      else warned
    else fine

-- ValidateTeam.
unfoldable pub validate_team : String → String → RaceFormat → Option Error
validate_team name category race =
    if trim_space name == ""
    then some (invalid "name")
    else if not (valid_category category)
    then some (invalid "gender_category")
    else if not (is_team race)
    then some (invalid "race_id")
    else none
