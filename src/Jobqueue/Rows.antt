-- ===== src/Jobqueue/Rows.antt =====
-- internal/jobqueue/repository.go: what an UPDATE of a job does to the table, seen by id.
use racetify_api.Base.{
  ℕ, String, Bool, true, false, Option, none, some, ◌==◌, any, find, modify_first, ◌≡◌, ◌≢◌, refl,
  ap, ◌∙◌, inl, inr, ◌⊎◌, Bool-cases, Option-cases, eq_iff, find-modify_first_same,
  find-modify_first_other, any-modify_first,
}
use racetify_api.Domain.{not_found, Result, ok, err, and_then}
use racetify_api.Database.{with_tx, with_tenant_tx}
use racetify_api.Tenant.{update_row}
use racetify_api.Jobqueue.{Job, Store, has_id, update_job, finish, with_end, is_encoded}

module _ {V : Type 0} where
  abbrev pub row : String → Store V → Option (Job V)
  row id s = find (has_id id) s.jobs

  -- The row that has the id is changed.
  abbrev pub changed : String → (Job V → Job V) → Store V → Store V
  changed id change s = record s { jobs = modify_first (has_id id) change s.jobs }

  -- A change that leaves the identity of a row alone.
  abbrev pub KeepsId : (Job V → Job V) → Type 0
  KeepsId change = (j : Job V) → (change j).id ≡ j.id

  pub changed-row_same :
      (id : String) (change : Job V → Job V) (s : Store V) (j : Job V)
      → KeepsId change
      → row id s ≡ some j
      → row id (changed id change s) ≡ some (change j)
  changed-row_same id change s j keeps h =
      find-modify_first_same (has_id id) change (λ a. ap (λ x. x == id) (keeps a)) s.jobs j h

  pub changed-row_other :
      (id other : String) (change : Job V → Job V) (s : Store V)
      → KeepsId change
      → (id == other) ≡ false
      → row other (changed id change s) ≡ row other s
  changed-row_other id other change s keeps ne =
      find-modify_first_other (has_id other) change (λ a. ap (λ x. x == other) (keeps a))
        (has_id id) (λ a t. ap (λ x. x == other) ((eq_iff a.id id).0 t) ∙ ne) s.jobs

  pub changed-any :
      (id other : String) (change : Job V → Job V) (s : Store V)
      → KeepsId change
      → any (has_id other) (changed id change s).jobs ≡ any (has_id other) s.jobs
  changed-any id other change s keeps =
      any-modify_first (has_id other) change (λ a. ap (λ x. x == other) (keeps a)) (has_id id)
        s.jobs

  update_job-ok :
      (tenant_id id : String) (change : Job V → Job V) (s : Store V) (j : Job V)
      → row id s ≡ some j
      → (j.tenant_id == tenant_id) ≡ true
      → update_job tenant_id id change s ≡ ok (tt, changed id change s)
  unfolding update_job update_row
  update_job-ok tenant_id id change s j found mine =
      rw (found, mine, update_job, and_then, update_row) refl

  update_job-err :
      (tenant_id id : String) (change : Job V → Job V) (s : Store V)
      → row id s ≡ none
      → update_job tenant_id id change s ≡ err not_found
  unfolding update_job update_row
  update_job-err tenant_id id change s lost = rw (lost, update_job, and_then, update_row) refl

  update_job-foreign :
      (tenant_id id : String) (change : Job V → Job V) (s : Store V) (j : Job V)
      → row id s ≡ some j
      → (j.tenant_id == tenant_id) ≡ false
      → update_job tenant_id id change s ≡ err not_found
  unfolding update_job update_row
  update_job-foreign tenant_id id change s j found theirs =
      rw (found, theirs, update_job, and_then, update_row) refl

  -- An UPDATE in the transaction of a tenant changes the row of that tenant.
  pub update_job-changed :
      (tenant_id id : String) (change : Job V → Job V) (s : Store V) (j : Job V)
      → (tenant_id == "") ≡ false
      → row id s ≡ some j
      → j.tenant_id ≡ tenant_id
      → with_tenant_tx tenant_id (update_job tenant_id id change) s ≡ (ok tt, changed id change s)
  update_job-changed tenant_id id change s j named found own =
      let mine = (eq_iff j.tenant_id tenant_id).1 own in
      rw (named, with_tx, update_job-ok tenant_id id change s j found mine) refl

  -- A mark either fails and changes nothing, or makes its change.
  abbrev pub IsChange : String → (Job V → Job V) → Store V → Result (Unit {0}) × Store V → Type 0
  IsChange id change s (r, s') = ((r ≢ ok tt) × (s' ≡ s)) ⊎ (s' ≡ changed id change s)

  pub update_job-IsChange :
      (tenant_id id : String) (change : Job V → Job V) (s : Store V)
      → IsChange id change s (with_tenant_tx tenant_id (update_job tenant_id id change) s)
  update_job-IsChange tenant_id id change s = elim (Bool-cases (tenant_id == "")) [
    | inl t ↦ rw t (inl (λ e. cc, refl))
    | inr t ↦ elim (Option-cases (row id s)) [
      | inl n ↦ rw (t, with_tx, update_job-err tenant_id id change s n) (inl (λ e. cc, refl))
      | inr (j, f) ↦ elim (Bool-cases (j.tenant_id == tenant_id)) [
        | inl m ↦ rw (t, with_tx, update_job-ok tenant_id id change s j f m) (inr refl)
        | inr m ↦
            rw (t, with_tx, update_job-foreign tenant_id id change s j f m) (inl (λ e. cc, refl))
      ]
    ]
  ]

  module _ (encodes : V → Bool) (tenant_id id status : String) (result : Option V)
      (error : Option String) (now : ℕ) (s : Store V) where
    finish-encoded :
        is_encoded encodes result ≡ true
        → with_tenant_tx tenant_id (finish encodes tenant_id id status result error now) s
          ≡ with_tenant_tx tenant_id (update_job tenant_id id (with_end status result error now)) s
    unfolding finish
    finish-encoded e = rw (e, with_tenant_tx, with_tx) refl

    finish-refused :
        is_encoded encodes result ≡ false
        → (with_tenant_tx tenant_id (finish encodes tenant_id id status result error now) s).1 ≡ s
    unfolding finish
    finish-refused e = elim (Bool-cases (tenant_id == "")) [
      | inl t ↦ rw t refl
      | inr t ↦ rw (t, with_tx, e) refl
    ]

    -- A mark of the end of a job makes its change, or it changes nothing.
    pub finish-changed :
        let s' =
          (with_tenant_tx tenant_id (finish encodes tenant_id id status result error now) s).1 in
        (s' ≡ s) ⊎ (s' ≡ changed id (with_end status result error now) s)
    finish-changed = elim (Bool-cases (is_encoded encodes result)) [
      | inr e ↦ inl (finish-refused e)
      | inl e ↦
          rw (finish-encoded e)
            (elim (update_job-IsChange tenant_id id (with_end status result error now) s) [
              | inl (_, h) ↦ inl h
              | inr h ↦ inr h
            ])
    ]

    pub finish-ended :
        (j : Job V)
        → is_encoded encodes result ≡ true
        → (tenant_id == "") ≡ false
        → row id s ≡ some j
        → j.tenant_id ≡ tenant_id
        → (with_tenant_tx tenant_id (finish encodes tenant_id id status result error now) s).1
          ≡ changed id (with_end status result error now) s
    finish-ended j enc named found own =
        ap (λ r. r.1)
          (finish-encoded enc
            ∙ update_job-changed tenant_id id (with_end status result error now) s j named found
                own)
