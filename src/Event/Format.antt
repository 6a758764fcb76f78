-- ===== src/Event/Format.antt =====
-- internal/event/event.go: how a race is run (RaceFormat), its normal form and its rules.
--
-- A length in kilometres is a float64: a type `F` with its test for > 0, its equality and its rounding
-- by the database, which are parameters. The message of an error is left out.
use racetify_api.Base.{
  ℤ, pos, negsuc, leb_ℤ, int_eq, String, Bool, true, false, not, ◌&&◌, ◌||◌, Option, none, some,
  ◌==◌, if◌then◌else◌,
}
use racetify_api.Domain.{Error, invalid_state, other, Result, ok, err, and_then}

abbrev pub entry_individual : String
entry_individual = "individual"

abbrev pub entry_team : String
entry_team = "team"

abbrev pub course_standard : String
course_standard = "standard"

abbrev pub course_relay : String
course_relay = "relay"

abbrev pub course_loop : String
course_loop = "loop"

abbrev pub mode_target_laps : String
mode_target_laps = "target_laps"

abbrev pub mode_time_limit : String
mode_time_limit = "time_limit"

pub record Floats (F : Type 0) : Type 0 where
  pub is_positive : F → Bool
  pub equal : F → F → Bool
  -- What a NUMERIC(6,2) column keeps of a length, if it is not out of its range.
  pub stored : F → Option F

pub record RaceFormat (F : Type 0) : Type 0 where
  pub entry_type : String
  pub course_type : String
  pub team_size : Option ℤ
  pub loop_mode : Option String
  pub loop_length_km : Option F
  pub loop_target_laps : Option ℤ
  pub loop_time_limit_ms : Option ℤ

abbrev pub or_default : String → String → String
or_default value default = if value == "" then default else value

-- *n >= least, and false for nil
abbrev pub is_at_least_opt : ℤ → Option ℤ → Bool
is_at_least_opt least none = false
is_at_least_opt least (some n) = leb_ℤ least n

-- eqPtr
abbrev pub eq_ptr {ℓ} : {A : Type ℓ} → (A → A → Bool) → Option A → Option A → Bool
eq_ptr eq none none = true
eq_ptr eq none (some b) = false
eq_ptr eq (some a) none = false
eq_ptr eq (some a) (some b) = eq a b

abbrev pub text_eq : String → String → Bool
text_eq a b = a == b

abbrev pub refuse_unless : Bool → Result (Unit {0})
refuse_unless true = ok tt
refuse_unless false = err invalid_state

-- The range of an INTEGER column.
abbrev pub fits_integer : Option ℤ → Bool
fits_integer none = true
fits_integer (some n) = leb_ℤ (negsuc 2147483647) n && leb_ℤ n (pos 2147483647)

abbrev out_of_range : Error
out_of_range = other "pq: value out of range"

module _ {F : Type 0} where
  abbrev pub with_defaults : RaceFormat F → RaceFormat F
  with_defaults f = record f {
    entry_type = or_default f.entry_type entry_individual;
    course_type = or_default f.course_type course_standard;
  }

  abbrev pub only_team : RaceFormat F → RaceFormat F
  only_team f = record f { team_size = if f.entry_type == entry_team then f.team_size else none }

  -- The setting of the other mode is cleared.
  abbrev pub only_mode : Option String → RaceFormat F → RaceFormat F
  only_mode none f = f
  only_mode (some m) f =
      if m == mode_target_laps
      then record f { loop_time_limit_ms = none }
      else if m == mode_time_limit
      then record f { loop_target_laps = none }
      else f

  abbrev pub without_loop : RaceFormat F → RaceFormat F
  without_loop f = record f {
    loop_mode = none;
    loop_length_km = none;
    loop_target_laps = none;
    loop_time_limit_ms = none;
  }

  abbrev pub only_loop : RaceFormat F → RaceFormat F
  only_loop f = if f.course_type == course_loop then only_mode f.loop_mode f else without_loop f

  -- RaceFormat.Normalize
  unfoldable pub normalize_format : RaceFormat F → RaceFormat F
  normalize_format f = only_loop (only_team (with_defaults f))

  module _ (fl : Floats F) where
    -- A length in its column, which is rounded.
    abbrev pub store_length : Option F → Result (Option F)
    store_length none = ok none
    store_length (some km) = elim (fl.stored km) [
      | none ↦ err out_of_range
      | some kept ↦ ok (some kept)
    ]

    -- A format in its columns.
    unfoldable pub store_format : RaceFormat F → Result (RaceFormat F)
    store_format f = and_then (store_length f.loop_length_km) λ km.
        if fits_integer f.team_size && fits_integer f.loop_target_laps
        then ok (record f { loop_length_km = km })
        else err out_of_range

    abbrev pub is_positive_opt : Option F → Bool
    is_positive_opt none = false
    is_positive_opt (some km) = fl.is_positive km

    abbrev pub check_axes : RaceFormat F → Result (Unit {0})
    check_axes f =
        if not (f.entry_type == entry_individual || f.entry_type == entry_team)
        then err invalid_state
        else if not (
            f.course_type == course_standard
            || f.course_type == course_relay
            || f.course_type == course_loop)
        then err invalid_state
        else if f.course_type == course_relay && not (f.entry_type == entry_team)
        then err invalid_state
        else if f.entry_type == entry_team && f.course_type == course_standard
        then err invalid_state
        else ok tt

    abbrev pub check_team : RaceFormat F → Result (Unit {0})
    check_team f =
        if f.entry_type == entry_team
        then refuse_unless (is_at_least_opt (pos 2) f.team_size)
        else ok tt

    abbrev pub check_mode : Option String → RaceFormat F → Result (Unit {0})
    check_mode none f = err invalid_state
    check_mode (some m) f =
        if not (is_positive_opt f.loop_length_km)
        then err invalid_state
        else if m == mode_target_laps
        then refuse_unless (is_at_least_opt (pos 1) f.loop_target_laps)
        else if m == mode_time_limit
        then refuse_unless (is_at_least_opt (pos 1) f.loop_time_limit_ms)
        else err invalid_state

    abbrev pub check_loop : RaceFormat F → Result (Unit {0})
    check_loop f = if f.course_type == course_loop then check_mode f.loop_mode f else ok tt

    -- RaceFormat.Validate
    unfoldable pub validate_format : RaceFormat F → Result (Unit {0})
    validate_format f = and_then (check_axes f) λ _. and_then (check_team f) λ _. check_loop f

    -- RaceFormat.Equal
    unfoldable pub equal_formats : RaceFormat F → RaceFormat F → Bool
    equal_formats f g =
        f.entry_type == g.entry_type
        && f.course_type == g.course_type
        && eq_ptr int_eq f.team_size g.team_size
        && eq_ptr text_eq f.loop_mode g.loop_mode
        && eq_ptr fl.equal f.loop_length_km g.loop_length_km
        && eq_ptr int_eq f.loop_target_laps g.loop_target_laps
        && eq_ptr int_eq f.loop_time_limit_ms g.loop_time_limit_ms
