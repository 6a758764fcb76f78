-- ===== src/Participant/Import/Checks.antt =====
-- internal/participant/import.go: what the checks of pass 1 leave through (PlanImport).
use racetify_api.Base.{
  ltb, pos, leb_ℤ, String, ◌≡◌, refl, Bool, true, false, not, ◌&&◌, Option, none, some, inl, inr,
  if◌then◌else◌, arith, Bool-cases, All, ◌==◌,
}
use racetify_api.Text.{Unicode}
use racetify_api.Participant.{RaceFormat, is_team, Error}
use racetify_api.Participant.Rules.{Input, validate}
use racetify_api.Participant.Import.{
  RowAction, create, update, skip, ImportRow, ExistingParticipant, PlanInput, RowPlan, has_error,
  add_error, add_warning, race_of, file_bibs, repeated_ref, start, checked, is_unnamed, report,
  check_row, match_existing, decide_action, plan_checked, plan_row_in, plan_row,
}
use racetify_api.Participant.Import.Issues.{has_error-add_error}
use racetify_api.Participant.Import.Rows.{plan_import-All_actions}
use racetify_api.Participant.Import.Teams.{plan_import}

-- A row that passes: its race is in the event, its input is valid for the race (with the team to be
-- found yet), a team race names a team, and no other row of the file has its BIB or its ref_id.
abbrev pub IsPassed : PlanInput → ImportRow → Type 0
IsPassed input row =
    (race : RaceFormat) × (race_of input row.race_id ≡ some race)
    × (validate race (checked race row.input) ≡ none)
    × (is_unnamed race row ≡ false)
    × (ltb 1 (file_bibs input.rows row.input.bib_number) ≡ false)
    × (repeated_ref input.rows row.input.ref_id ≡ false)

-- A row that is not marked as failed passed.
abbrev pub IsApproved : PlanInput → ImportRow → RowAction → Type 0
IsApproved input row create = IsPassed input row
IsApproved input row update = IsPassed input row
IsApproved input row skip = IsPassed input row
IsApproved input row RowAction.error = Unit

validate-IsPositive :
    (race : RaceFormat) (i : Input) → validate race i ≡ none → leb_ℤ i.bib_number (pos 0) ≡ false
unfolding validate
validate-IsPositive race i valid = ground arith

-- A report that leaves no error had nothing to report.
no_report :
    (b : Bool) (field : String) (rp : RowPlan)
    → has_error (if b then add_error field rp else rp) ≡ false
    → (b ≡ false) × (has_error rp ≡ false)
no_report true field rp good = ground (arith, has_error-add_error field rp)
no_report false field rp good = (refl, good)

report-none :
    (b : Bool) (found : Option Error) (rp : RowPlan)
    → b ≡ false
    → has_error (report b found rp) ≡ false
    → found ≡ none
unfolding report
report-none true found rp off good = ground arith
report-none false none rp off good = refl
report-none false (some e) rp off good = ground (arith, has_error-add_error e.field rp)

checked-bib_number : (race : RaceFormat) (i : Input) → (checked race i).bib_number ≡ i.bib_number
checked-bib_number race i = elim (Bool-cases (is_team race)) [
  | inl t ↦ rw t refl
  | inr t ↦ rw t refl
]

report-has_error :
    (b : Bool) (found : Option Error) (rp : RowPlan)
    → has_error (report b found rp) ≡ false
    → has_error rp ≡ false
unfolding report
report-has_error b none rp good = good
report-has_error b (some e) rp good = elim (Bool-cases (b && e.field == "team_id")) [
  | inl t ↦ rw t at good
  | inr t ↦ ground (arith, has_error-add_error e.field rp, (rw t at good))
]

check_row-IsPassed :
    (input : PlanInput) (race : RaceFormat) (row : ImportRow) (rp : RowPlan)
    → race_of input row.race_id ≡ some race
    → has_error (check_row input race row rp) ≡ false
    → IsPassed input row
unfolding check_row
check_row-IsPassed input race row rp found good =
    let b = is_unnamed race row in
    let named = if b then add_error "team_name" rp else rp in
    let verdict = validate race (checked race row.input) in
    let bib = row.input.bib_number in
    let dup = not (leb_ℤ bib (pos 0)) && ltb 1 (file_bibs input.rows bib) in
    let valid = report b verdict named in
    let once = if dup then add_error "bib_number" valid else valid in
    let (ref_ok, good1) = no_report (repeated_ref input.rows row.input.ref_id) "ref_id" once good in
    let (bib_ok, good2) = no_report dup "bib_number" valid good1 in
    let (name_ok, good3) = no_report b "team_name" rp (report-has_error b verdict named good2) in
    let is_valid : verdict ≡ none = report-none b verdict named name_ok good2 in
    let positive : leb_ℤ bib (pos 0) ≡ false =
      rw (checked-bib_number race row.input) at
        (validate-IsPositive race (checked race row.input) is_valid) in
    (race, found, is_valid, name_ok, ground arith, ref_ok)

decide_action-IsApproved :
    (input : PlanInput) (row : ImportRow) (rp : RowPlan) (found : Option ExistingParticipant)
    → IsPassed input row
    → IsApproved input row (decide_action input.update_existing rp found).action
unfolding decide_action add_warning
decide_action-IsApproved input row rp none h = elim (Bool-cases (has_error rp)) [
  | inl t ↦ rw t tt
  | inr t ↦ rw t h
]
decide_action-IsApproved input row rp (some m) h = elim (Bool-cases (has_error rp)) [
  | inl t ↦ rw t tt
  | inr t ↦ elim (Bool-cases input.update_existing) [ inl b ↦ rw (t, b) h | inr b ↦ rw (t, b) h ]
]

plan_checked-IsApproved :
    (input : PlanInput) (row : ImportRow) (rp : RowPlan)
    → (has_error rp ≡ false → IsPassed input row)
    → IsApproved input row (plan_checked input row rp).action
unfolding plan_checked
plan_checked-IsApproved input row rp h = elim (Bool-cases (has_error rp)) [
  | inl t ↦ rw t tt
  | inr t ↦ rw t (
      decide_action-IsApproved input row (match_existing input row rp).0
        (match_existing input row rp).1 (h t))
]

plan_row_in-IsApproved :
    (input : PlanInput) (row : ImportRow) (race : Option RaceFormat)
    → race_of input row.race_id ≡ race
    → IsApproved input row (plan_row_in input row race).action
unfolding plan_row_in
plan_row_in-IsApproved input row none found = tt
plan_row_in-IsApproved input row (some race) found =
    plan_checked-IsApproved input row (check_row input race row (start row))
      (check_row-IsPassed input race row (start row) found)

plan_row-IsApproved :
    (input : PlanInput) (row : ImportRow) → IsApproved input row (plan_row input row).action
unfolding plan_row
plan_row-IsApproved input row = plan_row_in-IsApproved input row (race_of input row.race_id) refl

-- In a plan, a row that is not marked as failed is in a race of the event, is valid for it, names a
-- team if the race is a team race, and is the only row of the file with its BIB and, if it states
-- one, with its ref_id.
pub plan_import-IsApproved :
    (u : Unicode) (input : PlanInput)
    → All (λ e. IsApproved input e.row e.plan.action) (plan_import u input).rows
plan_import-IsApproved u input =
    plan_import-All_actions u input (λ row _ a. IsApproved input row a) (plan_row-IsApproved input)
      (λ row id. tt)
