-- ===== src/Participant/Import/Issues.antt =====
-- internal/participant/import.go: errors and warnings of a row, and the action that goes with them.
use racetify_api.Base.{
  String, ◌≡◌, refl, sym, ap, ◌∙◌, Bool, true, false, Option, none, some, inl, inr, if◌then◌else◌,
  arith, Bool-cases, any-append, any_of_append,
}
use racetify_api.Participant.{RaceFormat}
use racetify_api.Participant.Import.{
  RowAction, create, update, skip, is_error, ExistingParticipant, PlanInput, ImportRow, RowPlan,
  has_error, add_error, add_warning, with_action, race_of, start, check_row, match_existing,
  decide_action, plan_checked, plan_row_in, plan_row,
}

abbrev pub failed : RowAction → Bool
failed RowAction.error = true
failed create = false
failed update = false
failed skip = false

pub has_error-add_error : (field : String) (r : RowPlan) → has_error (add_error field r) ≡ true
unfolding has_error add_error
has_error-add_error field r = any_of_append is_error r.issues _ refl

pub has_error-add_warning :
    (field : String) (r : RowPlan) → has_error (add_warning field r) ≡ has_error r
unfolding has_error add_warning
has_error-add_warning field r = any-append is_error r.issues _ ∙ ground arith

-- An action is `error` just when an error was reported.
abbrev pub IsConsistent : RowPlan → Type 0
IsConsistent r = failed r.action ≡ has_error r

has_error-with_action : (a : RowAction) (r : RowPlan) → has_error (with_action a r) ≡ has_error r
unfolding has_error
has_error-with_action a r = refl

action-add_warning : (field : String) (r : RowPlan) → (add_warning field r).action ≡ r.action
unfolding add_warning
action-add_warning field r = refl

matched_plan : Bool → RowPlan → ExistingParticipant → RowPlan
matched_plan b r m = record r { action = if b then update else skip; existing_id = m.id }

matched_plan-IsConsistent :
    (b : Bool) (r : RowPlan) (m : ExistingParticipant)
    → has_error r ≡ false
    → IsConsistent (add_warning "bib_number" (matched_plan b r m))
unfolding matched_plan
matched_plan-IsConsistent true r m t =
    ap failed (action-add_warning "bib_number" (matched_plan true r m))
    ∙ sym (has_error-add_warning "bib_number" (matched_plan true r m) ∙ unfold has_error in t)
matched_plan-IsConsistent false r m t =
    ap failed (action-add_warning "bib_number" (matched_plan false r m))
    ∙ sym (has_error-add_warning "bib_number" (matched_plan false r m) ∙ unfold has_error in t)

decide_action-IsConsistent :
    (b : Bool) (r : RowPlan) (found : Option ExistingParticipant)
    → IsConsistent (decide_action b r found)
unfolding decide_action matched_plan
decide_action-IsConsistent b r none = elim (Bool-cases (has_error r)) [
  | inl t ↦ rw t (sym (has_error-with_action RowAction.error r ∙ t))
  | inr t ↦ rw t (sym (has_error-with_action create r ∙ t))
]
decide_action-IsConsistent b r (some m) = elim (Bool-cases (has_error r)) [
  | inl t ↦ rw t (sym (has_error-with_action RowAction.error r ∙ t))
  | inr t ↦ rw t (matched_plan-IsConsistent b r m t)
]

plan_checked-IsConsistent :
    (input : PlanInput) (row : ImportRow) (rp : RowPlan) → IsConsistent (plan_checked input row rp)
unfolding plan_checked
plan_checked-IsConsistent input row rp = elim (Bool-cases (has_error rp)) [
  | inl t ↦ rw t (sym (has_error-with_action RowAction.error rp ∙ t))
  | inr t ↦ rw t (
      decide_action-IsConsistent input.update_existing (match_existing input row rp).0
        (match_existing input row rp).1)
]

plan_row_in-IsConsistent :
    (input : PlanInput) (row : ImportRow) (race : Option RaceFormat)
    → IsConsistent (plan_row_in input row race)
unfolding plan_row_in
plan_row_in-IsConsistent input row none = sym (
    has_error-with_action RowAction.error (add_error "race_id" (start row))
    ∙ has_error-add_error "race_id" (start row))
plan_row_in-IsConsistent input row (some race) =
    plan_checked-IsConsistent input row (check_row input race row (start row))

pub plan_row-IsConsistent :
    (input : PlanInput) (row : ImportRow) → IsConsistent (plan_row input row)
unfolding plan_row
plan_row-IsConsistent input row = plan_row_in-IsConsistent input row (race_of input row.race_id)
