-- ===== src/Participant/Import/Matching.antt =====
-- internal/participant/import.go: what a row that is not refused was checked against (PlanImport).
use racetify_api.Base.{
  ℤ, int_eq, String, ◌≡◌, refl, sym, ◌∙◌, Bool, true, false, ◌&&◌, ◌⊎◌, Option, none, some, inl,
  inr, if◌then◌else◌, arith, Bool-cases, All, ◌==◌, eq_iff,
}
use racetify_api.Text.{Unicode}
use racetify_api.Participant.{RaceFormat}
use racetify_api.Participant.Rules.{is_set}
use racetify_api.Participant.Import.{
  RowAction, create, update, skip, ImportRow, ExistingParticipant, PlanInput, RowPlan, has_error,
  add_warning, race_of, by_bib, holder, take_bib, match_on, start, check_row, match_existing,
  decide_action, plan_checked, plan_row_in, plan_row,
}
use racetify_api.Participant.Import.Issues.{has_error-add_error}
use racetify_api.Participant.Import.Rows.{plan_import-All_actions}
use racetify_api.Participant.Import.Teams.{plan_import}

-- The stored participant that a row stands for: the one with its ref_id, whose BIB the row keeps or
-- changes to one that no other participant has; or, if no one has the ref_id, the one with its BIB,
-- unless that one has a ref_id and the row states another.
abbrev pub IsFor : PlanInput → ImportRow → ExistingParticipant → Type 0
IsFor input row m =
    ((holder input row.input.ref_id ≡ some m)
      × ((int_eq m.bib_number row.input.bib_number ≡ true)
          ⊎ ((o : ExistingParticipant) → by_bib input row.input.bib_number ≡ some o → o.id ≡ m.id)))
    ⊎ ((holder input row.input.ref_id ≡ none)
        × (by_bib input row.input.bib_number ≡ some m)
        × (is_set row.input.ref_id && is_set m.ref_id ≡ false))

abbrev pub IsStored : PlanInput → ImportRow → String → Type 0
IsStored input row id = (m : ExistingParticipant) × (m.id ≡ id) × IsFor input row m

-- What an action says of the stored participants.
abbrev pub IsMatched : PlanInput → ImportRow → String → RowAction → Type 0
IsMatched input row id create =
    (holder input row.input.ref_id ≡ none) × (by_bib input row.input.bib_number ≡ none)
IsMatched input row id update = (input.update_existing ≡ true) × IsStored input row id
IsMatched input row id skip = (input.update_existing ≡ false) × IsStored input row id
IsMatched input row id RowAction.error = Unit

-- What a match says: nobody has the row's ref_id or its BIB, or the row stands for the one found.
abbrev IsMatch : PlanInput → ImportRow → Option ExistingParticipant → Type 0
IsMatch input row none =
    (holder input row.input.ref_id ≡ none) × (by_bib input row.input.bib_number ≡ none)
IsMatch input row (some m) = IsFor input row m

take_bib_lem :
    (e : ExistingParticipant) (taken : Option ExistingParticipant) (rp : RowPlan)
    → has_error (take_bib e taken rp) ≡ false
    → (o : ExistingParticipant) → taken ≡ some o
    → o.id ≡ e.id
unfolding take_bib
take_bib_lem e (some other) rp good o same = elim (Bool-cases (other.id == e.id)) [
  | inl t ↦ grind (arith, eq_iff other.id e.id)
  | inr t ↦ ground (arith, has_error-add_error "bib_number" rp)
]
take_bib_lem e none rp good o same = ground arith

kept_bib :
    (e : ExistingParticipant) (taken : Option ExistingParticipant) (bib : ℤ) (rp : RowPlan)
    → has_error (if int_eq e.bib_number bib then rp else take_bib e taken rp) ≡ false
    → (int_eq e.bib_number bib ≡ true) ⊎ ((o : ExistingParticipant) → taken ≡ some o → o.id ≡ e.id)
kept_bib e taken bib rp good = elim (Bool-cases (int_eq e.bib_number bib)) [
  | inl t ↦ inl t
  | inr t ↦ inr (take_bib_lem e taken rp (ground arith))
]

match_on-IsMatch :
    (input : PlanInput) (row : ImportRow) (rp : RowPlan) (ref : Option String) (bib : ℤ)
    (held taken : Option ExistingParticipant)
    → row.input.ref_id ≡ ref
    → row.input.bib_number ≡ bib
    → holder input ref ≡ held
    → by_bib input bib ≡ taken
    → has_error (match_on ref bib held taken rp).0 ≡ false
    → IsMatch input row (match_on ref bib held taken rp).1
unfolding match_on
match_on-IsMatch input row rp ref bib (some e) taken is_ref is_bib is_held is_taken good =
    rw is_ref (
      rw is_bib (
        inl (
          is_held,
          elim (kept_bib e taken bib rp good) [
            | inl t ↦ inl t
            | inr f ↦ inr (λ o same. f o (sym is_taken ∙ same))
          ],
        )))
match_on-IsMatch input row rp none bib none none is_ref is_bib is_held is_taken good =
    rw is_ref (rw is_bib (is_held, is_taken))
match_on-IsMatch input row rp none bib none (some o) is_ref is_bib is_held is_taken good =
    rw is_ref (rw is_bib (inr (is_held, is_taken, refl)))
match_on-IsMatch input row rp (some ref) bib none none is_ref is_bib is_held is_taken good =
    rw is_ref (rw is_bib (is_held, is_taken))
match_on-IsMatch input row rp (some ref) bib none (some o) is_ref is_bib is_held is_taken good =
    elim (Bool-cases (is_set o.ref_id)) [
      | inl t ↦ ground (arith, has_error-add_error "bib_number" rp)
      | inr t ↦ rw is_ref (rw is_bib (rw t (inr (is_held, is_taken, rw t refl))))
    ]

match_existing-IsMatch :
    (input : PlanInput) (row : ImportRow) (rp : RowPlan)
    → has_error (match_existing input row rp).0 ≡ false
    → IsMatch input row (match_existing input row rp).1
unfolding match_existing
match_existing-IsMatch input row rp good =
    match_on-IsMatch input row rp row.input.ref_id row.input.bib_number
      (holder input row.input.ref_id) (by_bib input row.input.bib_number) refl refl refl refl good

action-IsMatched :
    (input : PlanInput) (row : ImportRow) (m : ExistingParticipant) (b : Bool)
    → input.update_existing ≡ b
    → IsFor input row m
    → IsMatched input row m.id (if b then update else skip)
action-IsMatched input row m true e h = (e, (m, refl, h))
action-IsMatched input row m false e h = (e, (m, refl, h))

decide_action-IsMatched :
    (input : PlanInput) (row : ImportRow) (rp : RowPlan) (found : Option ExistingParticipant)
    → (has_error rp ≡ false → IsMatch input row found)
    → let out = decide_action input.update_existing rp found in
      IsMatched input row out.existing_id out.action
unfolding decide_action add_warning
decide_action-IsMatched input row rp none h = elim (Bool-cases (has_error rp)) [
  | inl t ↦ rw t tt
  | inr t ↦ rw t (h t)
]
decide_action-IsMatched input row rp (some m) h = elim (Bool-cases (has_error rp)) [
  | inl t ↦ rw t tt
  | inr t ↦ rw t (action-IsMatched input row m input.update_existing refl (h t))
]

plan_checked-IsMatched :
    (input : PlanInput) (row : ImportRow) (rp : RowPlan)
    → let out = plan_checked input row rp in IsMatched input row out.existing_id out.action
unfolding plan_checked
plan_checked-IsMatched input row rp = elim (Bool-cases (has_error rp)) [
  | inl t ↦ rw t tt
  | inr t ↦ rw t (
      decide_action-IsMatched input row (match_existing input row rp).0
        (match_existing input row rp).1 (match_existing-IsMatch input row rp))
]

plan_row_in-IsMatched :
    (input : PlanInput) (row : ImportRow) (race : Option RaceFormat)
    → let out = plan_row_in input row race in IsMatched input row out.existing_id out.action
unfolding plan_row_in
plan_row_in-IsMatched input row none = tt
plan_row_in-IsMatched input row (some race) =
    plan_checked-IsMatched input row (check_row input race row (start row))

plan_row-IsMatched :
    (input : PlanInput) (row : ImportRow)
    → IsMatched input row (plan_row input row).existing_id (plan_row input row).action
unfolding plan_row
plan_row-IsMatched input row = plan_row_in-IsMatched input row (race_of input row.race_id)

-- In a plan, a row that creates a participant has a BIB and a ref_id that no stored participant
-- has; a row that updates or skips one names the stored participant with its ref_id, and then takes
-- no other participant's BIB, or the one with its BIB, if nobody has the ref_id; and rows are
-- updated just when the import asks for it.
pub plan_import-IsMatched :
    (u : Unicode) (input : PlanInput)
    → All (λ e. IsMatched input e.row e.plan.existing_id e.plan.action) (plan_import u input).rows
plan_import-IsMatched u input =
    plan_import-All_actions u input (IsMatched input) (plan_row-IsMatched input) (λ row id. tt)
