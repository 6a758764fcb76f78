-- ===== src/Participant/Import.antt =====
-- internal/participant/import.go: the values of the import planner, and its first pass (PlanImport).
--
-- A map that the code fills from a list is a search of that list (the last entry wins, as in the
-- map), a counter map is a count, and the message of an issue is left out.
pub mod Teams
pub mod Issues
pub mod Rows
pub mod Matching
pub mod Checks
use Prim.Native.String
use racetify_api.Base.{
  ℕ, ltb, ℤ, pos, int_eq, leb_ℤ, String, Bool, true, false, not, List, [], ◌∷◌, ◌++◌, Option, none,
  some, ◌==◌, ◌||◌, ◌&&◌, if◌then◌else◌, any, find, find_last, count_if,
}
use racetify_api.Participant.{RaceFormat, is_team, Error}
use racetify_api.Participant.Rules.{Input, is_set, validate}

pub data IssueLevel : Type 0 where
  error warning : IssueLevel

pub record Issue : Type 0 where
  pub level : IssueLevel
  pub field : String

pub data RowAction : Type 0 where
  create update skip error : RowAction

pub record ImportRow : Type 0 where
  pub line : ℕ
  pub input : Input
  pub race_id : String
  pub team_name : String
  pub team_category : String
  pub bad_blood_type : String

pub record ExistingParticipant : Type 0 where
  pub id : String
  pub race_id : String
  pub bib_number : ℤ
  pub ref_id : Option String
  pub team_id : Option String
  pub leg_order : Option ℤ
  pub gender : String

pub record ExistingTeam : Type 0 where
  pub id : String
  pub race_id : String
  pub name : String
  pub category : String
  pub members : List ExistingParticipant

pub record PlanInput : Type 0 where
  pub rows : List ImportRow
  pub update_existing : Bool
  pub races : List (String × RaceFormat)
  pub existing : List ExistingParticipant
  pub teams : List ExistingTeam

pub record TeamRef : Type 0 where
  pub existing_id : String
  pub new_key : String

pub record RowPlan : Type 0 where
  pub line : ℕ
  pub bib_number : ℤ
  pub name : String
  pub action : RowAction
  pub issues : List Issue
  pub existing_id : String
  pub team : Option TeamRef

abbrev pub is_error : Issue → Bool
is_error i = elim i.level [ IssueLevel.error ↦ true | warning ↦ false ]

unfoldable pub has_error : RowPlan → Bool
has_error r = any is_error r.issues

unfoldable pub add_error : String → RowPlan → RowPlan
add_error field r = record r {
  issues = r.issues ++ (record { level = IssueLevel.error; field = field } ∷ []);
}

unfoldable pub add_warning : String → RowPlan → RowPlan
add_warning field r = record r {
  issues = r.issues ++ (record { level = warning; field = field } ∷ []);
}

abbrev pub with_action : RowAction → RowPlan → RowPlan
with_action a r = record r { action = a }

unfoldable pub fmt_name : String → Option String → String
fmt_name first none = first
fmt_name first (some last) = if last == "" then first else String.◌++◌ first (String.◌++◌ " " last)

abbrev pub ref_is : String → Option String → Bool
ref_is ref none = false
ref_is ref (some r) = r == ref

-- in.Races[id]
abbrev pub race_of : PlanInput → String → Option RaceFormat
race_of input id = elim (find (λ r. r.0 == id) input.races) [ none ↦ none | some (k, r) ↦ some r ]

-- byBib, byRef
abbrev pub by_bib : PlanInput → ℤ → Option ExistingParticipant
by_bib input bib = find_last (λ e. int_eq e.bib_number bib) input.existing

abbrev pub by_ref : PlanInput → String → Option ExistingParticipant
by_ref input ref = find_last (λ e. ref_is ref e.ref_id) input.existing

-- fileBibs, fileRefs
abbrev pub file_bibs : List ImportRow → ℤ → ℕ
file_bibs rows bib = count_if (λ r. int_eq r.input.bib_number bib) rows

abbrev pub file_refs : List ImportRow → String → ℕ
file_refs rows ref = count_if (λ r. ref_is ref r.input.ref_id) rows

-- The plan of a row before anything is checked. (Its action is set on every path below.)
unfoldable pub start : ImportRow → RowPlan
start row =
    let rp : RowPlan = record {
      line = row.line;
      bib_number = row.input.bib_number;
      name = fmt_name row.input.first_name row.input.last_name;
      action = RowAction.error;
      issues = [];
      existing_id = "";
      team = none;
    } in
    if row.bad_blood_type == "" then rp else add_warning "blood_type" rp

abbrev pub repeated_ref : List ImportRow → Option String → Bool
repeated_ref rows none = false
repeated_ref rows (some ref) = ltb 1 (file_refs rows ref)

-- The input that is validated: in a team race, its team is still to be found.
abbrev pub checked : RaceFormat → Input → Input
checked race i = if is_team race then record i { team_id = some "pending" } else i

-- The error of Validate is reported, unless the missing team name was reported already.
unfoldable pub report : Bool → Option Error → RowPlan → RowPlan
report unnamed none rp = rp
report unnamed (some e) rp = if unnamed && e.field == "team_id" then rp else add_error e.field rp

abbrev pub is_unnamed : RaceFormat → ImportRow → Bool
is_unnamed race row = is_team race && row.team_name == ""

-- The checks of a row on its own and against the file.
unfoldable pub check_row : PlanInput → RaceFormat → ImportRow → RowPlan → RowPlan
unfolding report
check_row input race row rp =
    let named = if is_unnamed race row then add_error "team_name" rp else rp in
    let valid = report (is_unnamed race row) (validate race (checked race row.input)) named in
    let bib = row.input.bib_number in
    let once =
      if not (leb_ℤ bib (pos 0)) && ltb 1 (file_bibs input.rows bib)
      then add_error "bib_number" valid
      else valid in
    if repeated_ref input.rows row.input.ref_id then add_error "ref_id" once else once

-- The stored participant that has the row's ref_id.
abbrev pub holder : PlanInput → Option String → Option ExistingParticipant
holder input none = none
holder input (some ref) = by_ref input ref

-- A match by ref_id takes a new BIB, which another participant may have.
unfoldable pub take_bib : ExistingParticipant → Option ExistingParticipant → RowPlan → RowPlan
take_bib e (some other) rp =
    if other.id == e.id then add_warning "bib_number" rp else add_error "bib_number" rp
take_bib e none rp = add_warning "bib_number" rp

-- The match, given the participant with the row's ref_id and the one with its BIB.
unfoldable pub match_on :
    Option String
    → ℤ
    → Option ExistingParticipant
    → Option ExistingParticipant
    → RowPlan
    → RowPlan × Option ExistingParticipant
match_on ref bib (some e) taken rp =
    (if int_eq e.bib_number bib then rp else take_bib e taken rp, some e)
match_on none bib none taken rp = (rp, taken)
match_on (some ref) bib none none rp = (rp, none)
match_on (some ref) bib none (some other) rp =
    if is_set other.ref_id then (add_error "bib_number" rp, none) else (rp, some other)

-- The stored participant that the row matches: by ref_id first, by BIB otherwise.
unfoldable pub match_existing :
    PlanInput → ImportRow → RowPlan → RowPlan × Option ExistingParticipant
unfolding match_on
match_existing input row rp =
    let bib = row.input.bib_number in
    match_on row.input.ref_id bib (holder input row.input.ref_id) (by_bib input bib) rp

unfoldable pub decide_action : Bool → RowPlan → Option ExistingParticipant → RowPlan
decide_action update_existing rp none =
    if has_error rp then with_action RowAction.error rp else with_action create rp
decide_action update_existing rp (some m) =
    if has_error rp
    then with_action RowAction.error rp
    else add_warning "bib_number"
        (record rp { action = if update_existing then update else skip; existing_id = m.id })

-- A row that passed its checks is matched and decided.
unfoldable pub plan_checked : PlanInput → ImportRow → RowPlan → RowPlan
plan_checked input row rp =
    if has_error rp
    then with_action RowAction.error rp
    else let (matched, found) = match_existing input row rp in
      decide_action input.update_existing matched found

unfoldable pub plan_row_in : PlanInput → ImportRow → Option RaceFormat → RowPlan
unfolding plan_checked
plan_row_in input row none = with_action RowAction.error (add_error "race_id" (start row))
plan_row_in input row (some race) = plan_checked input row (check_row input race row (start row))

-- One round of pass 1.
unfoldable pub plan_row : PlanInput → ImportRow → RowPlan
unfolding plan_row_in
plan_row input row = plan_row_in input row (race_of input row.race_id)
