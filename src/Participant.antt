-- ===== src/Participant.antt =====
-- internal/participant/participant.go: the values of an event's people and teams.
--
-- Gender, Status, GenderCategory and a race's entry and course types are Go strings, whose legal
-- values the code checks; so they are texts here. An error is its status, code and field; its
-- message is left out.
pub mod BloodType
pub mod Rules
pub mod Import
pub mod Normal
mod Tests
use racetify_api.Base.{
  ℕ, ℤ, pos, String, Bool, true, false, List, [], ◌∷◌, Option, none, some, ◌==◌, ◌||◌,
  if◌then◌else◌,
}

abbrev pub gender_male : String
gender_male = "male"

abbrev pub gender_female : String
gender_female = "female"

abbrev pub valid_gender : String → Bool
valid_gender g = g == gender_male || g == gender_female

abbrev pub status_registered : String
status_registered = "registered"

abbrev pub valid_status : String → Bool
valid_status s = s == status_registered || s == "finisher" || s == "dnf" || s == "dns"

abbrev pub category_male : String
category_male = "male"

abbrev pub category_female : String
category_female = "female"

abbrev pub category_mixed : String
category_mixed = "mixed"

abbrev pub valid_category : String → Bool
valid_category c = c == category_male || c == category_female || c == category_mixed

-- The part of a race that decides what its participants look like.
pub record RaceFormat : Type 0 where
  pub id : String
  pub event_id : String
  pub name : String
  pub entry_type : String
  pub course_type : String
  pub team_size : Option ℤ

abbrev pub is_team : RaceFormat → Bool
is_team r = r.entry_type == "team"

abbrev pub is_relay : RaceFormat → Bool
is_relay r = r.course_type == "relay"

-- `size := 0; if race.TeamSize != nil { size = *race.TeamSize }`
abbrev pub size_or_zero : Option ℤ → ℤ
size_or_zero none = pos 0
size_or_zero (some n) = n

pub record Error : Type 0 where
  pub status : ℕ
  pub code : String
  pub field : String

abbrev pub invalid : String → Error
invalid field = record { status = 400; code = "invalid_request"; field = field }

abbrev pub conflict : String → String → Error
conflict code field = record { status = 409; code = code; field = field }
