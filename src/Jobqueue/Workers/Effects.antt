-- ===== src/Jobqueue/Workers/Effects.antt =====
-- internal/jobqueue: what the marks do to the list and to the status of a job.
use racetify_api.Base.{
  ℕ, ℤ, String, Bool, true, false, none, some, ◌==◌, ◌≡◌, refl, sym, ap, ◌∙◌, subst, inl, inr, ◌⊎◌,
  Bool-cases, Option-cases, eq_iff, find, modify_first-none,
}
use racetify_api.Domain.{ok}
use racetify_api.Jobqueue.{
  Job, Store, has_id, job_processing, mark_processing, update_progress, with_start, with_progress,
}
use racetify_api.Jobqueue.Dispatcher.{Outcome}
use racetify_api.Jobqueue.Runner.{conclude}
use racetify_api.Jobqueue.Rows.{
  row, changed, KeepsId, changed-row_same, changed-row_other, update_job-IsChange,
}
use racetify_api.Jobqueue.Outcomes.{is_final, ended, ended-id, ended-is_final, mark_outcome-changed}
use racetify_api.Jobqueue.Workers.Listing.{status_in, status_of, listed}

module _ {V : Type 0} where
  -- A change of the row of an id that is there, as seen at another id or the same.
  pub changed-status :
      (id x : String) (change : Job V → Job V) (s : Store V)
      → KeepsId change
      → ((status_of x (changed id change s) ≡ status_of x s)
          × (((id == x) ≡ false) ⊎ (status_of x s ≡ none)))
        ⊎ ((id ≡ x)
            × (j : Job V) × (row x s ≡ some j)
            × (status_of x (changed id change s) ≡ some (change j).status))
  changed-status id x change s keeps = elim (Bool-cases (id == x)) [
    | inr ne ↦ inl (ap status_in (changed-row_other id x change s keeps ne), inl ne)
    | inl t ↦
        let same : id ≡ x = (eq_iff id x).0 t in
        elim (Option-cases (row id s)) [
          | inl n ↦ inl (
            ap (λ js. status_in (find (has_id x) js))
                (modify_first-none (has_id id) change s.jobs n),
            inr (ap (λ y. status_of y s) (sym same) ∙ ap status_in n),
          )
          | inr (j, f) ↦ inr (
            same,
            j,
            ap (λ y. row y s) (sym same) ∙ f,
            ap (λ y. status_of y (changed id change s)) (sym same)
                ∙ ap status_in (changed-row_same id change s j keeps f),
          )
        ]
  ]

  -- An UPDATE by id leaves the list alone, and the status of every other job.
  pub mark_processing-status :
      (j : Job V) (now : ℕ) (s s' : Store V) (x : String)
      → mark_processing j now s ≡ (ok tt, s')
      → (listed x s' ≡ listed x s)
        × (((status_of x s' ≡ status_of x s) × (((j.id == x) ≡ false) ⊎ (status_of x s ≡ none)))
            ⊎ ((j.id ≡ x) × (status_of x s' ≡ some job_processing)))
  unfolding mark_processing
  mark_processing-status j now s s' x h =
      elim (update_job-IsChange j.tenant_id j.id (with_start now) s) [
        | inl (refused, _) ↦ absurd (refused (ap (λ r. r.0) h))
        | inr c ↦
            let e : changed j.id (with_start now) s ≡ s' = sym c ∙ ap (λ r. r.1) h in
            subst
              (λ z.
                (listed x z ≡ listed x s)
                × (((status_of x z ≡ status_of x s)
                      × (((j.id == x) ≡ false) ⊎ (status_of x s ≡ none)))
                    ⊎ ((j.id ≡ x) × (status_of x z ≡ some job_processing))))
              e
              (
                refl,
                elim (changed-status j.id x (with_start now) s (λ a. refl)) [
                  | inl k ↦ inl k
                  | inr (same, a, f, st) ↦ inr (same, st)
                ],
              )
      ]

  pub update_progress-status :
      (j : Job V) (current total : ℤ) (s : Store V) (x : String)
      → let s' = (update_progress j current total s).1 in
        (status_of x s' ≡ status_of x s) × (listed x s' ≡ listed x s)
  unfolding update_progress
  update_progress-status j current total s x =
      elim (update_job-IsChange j.tenant_id j.id (with_progress current total) s) [
        | inl (_, e) ↦ (ap (status_of x) e, ap (listed x) e)
        | inr e ↦ (
          ap (status_of x) e
              ∙ elim (changed-status j.id x (with_progress current total) s (λ a. refl)) [
                | inl (same, _) ↦ same
                | inr (_, a, f, st) ↦ st ∙ sym (ap status_in f)
              ],
          ap (listed x) e,
        )
      ]

  pub conclude-status :
      (encodes : V → Bool) (j : Job V) (outcome : Outcome V) (now : ℕ) (s : Store V) (x : String)
      → let s' = conclude encodes j outcome now s in
        (listed x s' ≡ listed x s)
        × ((status_of x s' ≡ status_of x s)
            ⊎ ((j.id ≡ x)
                × (final : String) × (status_of x s' ≡ some final)
                × (is_final final ≡ true)))
  unfolding conclude
  conclude-status encodes j outcome now s x =
      let f = outcome.failure in
      let r = outcome.result in
      let p = outcome.partial_err in
      elim (mark_outcome-changed encodes j now s f r p) [
        | inl e ↦ (ap (listed x) e, inl (ap (status_of x) e))
        | inr e ↦ (
          ap (listed x) e,
          elim (changed-status j.id x (ended f r p now) s (ended-id f r p now)) [
            | inl (same, _) ↦ inl (ap (status_of x) e ∙ same)
            | inr (id, a, _, st) ↦ inr (
              id,
              (ended f r p now a).status,
              ap (status_of x) e ∙ st,
              ended-is_final f r p now a,
            )
          ],
        )
      ]
