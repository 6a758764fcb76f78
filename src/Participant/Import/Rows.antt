-- ===== src/Participant/Import/Rows.antt =====
-- internal/participant/import.go: what each row of a plan is in the end (PlanImport).
use racetify_api.Base.{
  String, ◌≡◌, refl, sym, ◌∙◌, true, false, List, [], ◌∷◌, none, inl, inr, arith, Bool-cases, map,
  All,
}
use racetify_api.Text.{Unicode}
use racetify_api.Participant.Import.{
  RowAction, ImportRow, PlanInput, has_error, add_error, add_warning, plan_row,
}
use racetify_api.Participant.Import.Issues.{
  failed, has_error-add_error, has_error-add_warning, IsConsistent, plan_row-IsConsistent,
}
use racetify_api.Participant.Import.Teams.{
  Entry, Plan, settle, on_plan, finish, group_keys, plan_each, plan_import,
}
use racetify_api.Participant.Import.Teams.Edits.{
  Edit, an_error, a_warning, a_team, edit, plan_each-closed,
}

All-map :
    {A B : Type 0} (P : B → Type 0) (f : A → B) (xs : List A)
    → All (λ x. P (f x)) xs
    → All P (map f xs)
All-map P f [] h = tt
All-map P f (x ∷ xs) (p, h) = (p, All-map P f xs h)

All-weaken :
    {A : Type 0} (P Q : A → Type 0) (xs : List A) → ((x : A) → P x → Q x) → All P xs → All Q xs
All-weaken P Q [] f h = tt
All-weaken P Q (x ∷ xs) f (p, h) = (f x p, All-weaken P Q xs f h)

All-every : {A : Type 0} (P : A → Type 0) (xs : List A) → ((x : A) → P x) → All P xs
All-every P [] f = tt
All-every P (x ∷ xs) f = (f x, All-every P xs f)

-- A property of the rows after pass 1 that the edits of pass 2 keep.
module _ (u : Unicode) (input : PlanInput) (P Q : Entry → Type 0)
    (closed : (d : Edit) (e : Entry) → P e → P (edit d e)) where
  plan_import-All :
      ((row : ImportRow) → P (record { row = row; plan = plan_row input row }))
      → ((e : Entry) → P e → Q (settle e))
      → All Q (plan_import u input).rows
  unfolding plan_import finish
  plan_import-All first last =
      let rows : List Entry =
        map (λ row. record { row = row; plan = plan_row input row }) input.rows in
      let p : Plan = record { rows = rows; new_teams = [] } in
      let keys = group_keys u input [] rows in
      All-map Q settle (plan_each u input keys p).rows (
        All-weaken P (λ e. Q (settle e)) (plan_each u input keys p).rows last
          (plan_each-closed P closed u input keys p (
            All-map P (λ row. record { row = row; plan = plan_row input row }) input.rows
              (All-every (λ row. P (record { row = row; plan = plan_row input row })) input.rows
                first))))

settle_failed :
    (e : Entry)
    → has_error e.plan ≡ true
    → settle e ≡ on_plan (λ rp. record rp { action = RowAction.error; team = none }) e
unfolding settle
settle_failed e t = rw t refl

settle_passed : (e : Entry) → has_error e.plan ≡ false → settle e ≡ e
unfolding settle
settle_passed e t = rw t refl

-- What only the row, the action and the matched id say is kept by the edits, and by the end of the
-- pass if it says nothing of a failed row.
module _ (u : Unicode) (input : PlanInput) (R : ImportRow → String → RowAction → Type 0) where
  abbrev ByAction : Entry → Type 0
  ByAction e = R e.row e.plan.existing_id e.plan.action

  edit-ByAction : (d : Edit) (e : Entry) → ByAction e → ByAction (edit d e)
  unfolding add_error add_warning
  edit-ByAction (an_error field) e h = h
  edit-ByAction (a_warning field) e h = h
  edit-ByAction (a_team ref) e h = h

  settle-ByAction :
      ((row : ImportRow) (id : String) → R row id RowAction.error)
      → (e : Entry) → ByAction e
      → ByAction (settle e)
  settle-ByAction gone e h = elim (Bool-cases (has_error e.plan)) [
    | inl t ↦ rw (settle_failed e t) (gone e.row e.plan.existing_id)
    | inr t ↦ rw (settle_passed e t) h
  ]

  pub plan_import-All_actions :
      ((row : ImportRow) → R row (plan_row input row).existing_id (plan_row input row).action)
      → ((row : ImportRow) (id : String) → R row id RowAction.error)
      → All ByAction (plan_import u input).rows
  plan_import-All_actions first gone =
      plan_import-All u input ByAction ByAction edit-ByAction first (settle-ByAction gone)

-- The consistency of the first pass, with the errors of the second.
IsReported : Entry → Type 0
IsReported e = failed e.plan.action ≡ true → has_error e.plan ≡ true

edit-IsReported : (d : Edit) (e : Entry) → IsReported e → IsReported (edit d e)
unfolding IsReported
edit-IsReported (an_error field) e h = λ _. has_error-add_error field e.plan
edit-IsReported (a_warning field) e h =
    λ bad. has_error-add_warning field e.plan ∙ h (unfold add_warning in bad)
edit-IsReported (a_team ref) e h = λ bad. unfold has_error in h bad

quiet :
    (e : Entry)
    → has_error e.plan ≡ false
    → (failed e.plan.action ≡ true → has_error e.plan ≡ true)
    → failed e.plan.action ≡ false
quiet e t h = elim (Bool-cases (failed e.plan.action)) [
  | inl bad ↦ ground (arith, h bad)
  | inr good ↦ good
]

settle-IsConsistent : (e : Entry) → IsReported e → IsConsistent (settle e).plan
unfolding IsReported
settle-IsConsistent e h = elim (Bool-cases (has_error e.plan)) [
  | inl t ↦ rw (settle_failed e t) (sym (unfold has_error in t))
  | inr t ↦ rw (settle_passed e t) (rw t (quiet e t h))
]

-- A row of a plan is marked as failed just when an error is reported for it: no row that has an
-- error is applied, and none is refused without one.
pub plan_import-IsConsistent :
    (u : Unicode) (input : PlanInput) → All (λ e. IsConsistent e.plan) (plan_import u input).rows
plan_import-IsConsistent u input =
    plan_import-All u input IsReported (λ e. IsConsistent e.plan) edit-IsReported
      (λ row. unfold IsReported in λ bad. sym (plan_row-IsConsistent input row) ∙ bad)
      settle-IsConsistent
