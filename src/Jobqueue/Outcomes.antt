-- ===== src/Jobqueue/Outcomes.antt =====
-- internal/jobqueue/runner.go: what a round of the loop does with a job.
use racetify_api.Base.{
  ℕ, String, Bool, true, false, List, Option, none, some, ◌==◌, ◌||◌, if◌then◌else◌, ◌≡◌, refl, ap,
  ◌∙◌, inl, inr, ◌⊎◌, Bool-cases, arith,
}
use racetify_api.Domain.{ok}
use racetify_api.Jobqueue.{
  Job, Store, with_start, with_end, is_encoded, mark_processing, mark_completed,
  mark_completed_with_errors, mark_failed, job_completed, job_completed_with_errors, job_failed,
  pop_right, dequeue, after_pop, get_by_id_unscoped, resolve, taken,
}
use racetify_api.Tenant.{get_row}
use racetify_api.Jobqueue.Dispatcher.{Outcome, Dispatcher, dispatch}
use racetify_api.Jobqueue.Runner.{Round, conclude, mark_outcome, handle, process, poll}
use racetify_api.Jobqueue.Rows.{
  row, changed, finish-ended, finish-changed, update_job-changed, changed-row_same,
}

abbrev pub is_final : String → Bool
is_final status =
    status == job_completed || status == job_completed_with_errors || status == job_failed

module _ {V : Type 0} where
  -- The end of a job, as what its handler returned decides it: an error goes before a partial error.
  abbrev pub ended : Option String → Option V → String → ℕ → Job V → Job V
  ended (some message) result partial_err now = with_end job_failed none (some message) now
  ended none result partial_err now =
      if partial_err == ""
      then with_end job_completed result none now
      else with_end job_completed_with_errors result (some partial_err) now

  pub ended-id :
      (failure : Option String) (result : Option V) (partial_err : String) (now : ℕ) (j : Job V)
      → (ended failure result partial_err now j).id ≡ j.id
  ended-id (some m) result partial_err now j = refl
  ended-id none result partial_err now j = ground arith

  pub ended-tenant_id :
      (failure : Option String) (result : Option V) (partial_err : String) (now : ℕ) (j : Job V)
      → (ended failure result partial_err now j).tenant_id ≡ j.tenant_id
  ended-tenant_id (some m) result partial_err now j = refl
  ended-tenant_id none result partial_err now j = ground arith

  pub ended-is_final :
      (failure : Option String) (result : Option V) (partial_err : String) (now : ℕ) (j : Job V)
      → is_final (ended failure result partial_err now j).status ≡ true
  ended-is_final (some m) result partial_err now j = refl
  ended-is_final none result partial_err now j = elim (Bool-cases (partial_err == "")) [
    | inl t ↦ rw t refl
    | inr t ↦ rw t refl
  ]

  module _ (encodes : V → Bool) (j : Job V) (now : ℕ) (s : Store V) where
    -- Whatever a handler returned, the end that it decides is recorded, or nothing is.
    pub mark_outcome-changed :
        (failure : Option String) (result : Option V) (partial_err : String)
        → let s' = (mark_outcome encodes j failure result partial_err now s).1 in
          (s' ≡ s) ⊎ (s' ≡ changed j.id (ended failure result partial_err now) s)
    unfolding mark_completed mark_completed_with_errors mark_failed
    mark_outcome-changed (some m) result partial_err =
        finish-changed encodes j.tenant_id j.id job_failed none (some m) now s
    mark_outcome-changed none result partial_err = elim (Bool-cases (partial_err == "")) [
      | inl t ↦ rw t (finish-changed encodes j.tenant_id j.id job_completed result none now s)
      | inr t ↦ rw t (
          finish-changed encodes j.tenant_id j.id job_completed_with_errors result
            (some partial_err) now s)
    ]

    -- It is recorded if the row is the tenant's and the result can be encoded.
    pub mark_outcome-ended :
        (failure : Option String) (result : Option V) (partial_err : String) (k : Job V)
        → (j.tenant_id == "") ≡ false
        → row j.id s ≡ some k
        → k.tenant_id ≡ j.tenant_id
        → is_encoded encodes result ≡ true
        → (mark_outcome encodes j failure result partial_err now s).1
          ≡ changed j.id (ended failure result partial_err now) s
    unfolding mark_completed mark_completed_with_errors mark_failed
    mark_outcome-ended (some m) result partial_err k named found own enc =
        finish-ended encodes j.tenant_id j.id job_failed none (some m) now s k refl named found own
    mark_outcome-ended none result partial_err k named found own enc =
        elim (Bool-cases (partial_err == "")) [
          | inl t ↦ rw t (
              finish-ended encodes j.tenant_id j.id job_completed result none now s k enc named
                found own)
          | inr t ↦ rw t (
              finish-ended encodes j.tenant_id j.id job_completed_with_errors result
                (some partial_err) now s k enc named found own)
        ]

  dequeue-taken :
      (reached : Bool) (s : Store V) (id : String) (rest : List String) (j : Job V)
      → reached ≡ true
      → pop_right s.list ≡ some (id, rest)
      → row id s ≡ some j
      → dequeue reached s ≡ (taken j, record s { list = rest })
  unfolding dequeue get_row
  dequeue-taken reached s id rest j up popped found =
      let got : get_by_id_unscoped id s ≡ ok j = rw (get_row, found) refl in
      ap (λ b. dequeue b s) up
      ∙ ap (λ o. after_pop o s) popped
      ∙ ap (λ r. (resolve r, record s { list = rest })) got

  module _ (encodes : V → Bool) (d : Dispatcher V) (round : Round) (s : Store V)
      (rest : List String) (j : Job V) where
    -- The store in which the handler of a popped job runs.
    abbrev pub marked : Store V
    marked = changed j.id (with_start round.started) (record s { list = rest })

    -- A popped job that has a tenant is marked, and then handled.
    poll-handle :
        round.reached ≡ true
        → pop_right s.list ≡ some (j.id, rest)
        → row j.id s ≡ some j
        → (j.tenant_id == "") ≡ false
        → poll encodes d round s ≡ handle encodes d j round.finished (ok tt, marked)
    unfolding poll mark_processing
    poll-handle up popped found named =
        ap (process encodes d round) (dequeue-taken round.reached s j.id rest j up popped found)
        ∙ ap (handle encodes d j round.finished) (
            update_job-changed j.tenant_id j.id (with_start round.started)
              (record s { list = rest }) j named found refl)

    -- A round that pops a job whose row has a tenant runs the handler of its type on the store in which
    -- the job is marked as being processed, and ends the job as the handler's outcome says: failed
    -- with its error (or for want of a handler), completed with errors, or completed with its result;
    -- if the handler leaves the row to its tenant and the result can be encoded.
    pub poll-ended :
        (outcome : Outcome V) (s' : Store V) (k : Job V)
        → round.reached ≡ true
        → pop_right s.list ≡ some (j.id, rest)
        → row j.id s ≡ some j
        → (j.tenant_id == "") ≡ false
        → dispatch d j marked ≡ (outcome, s')
        → row j.id s' ≡ some k
        → k.tenant_id ≡ j.tenant_id
        → is_encoded encodes outcome.result ≡ true
        → (poll encodes d round s
            ≡ changed j.id
                (ended outcome.failure outcome.result outcome.partial_err round.finished)
                s')
          × (row j.id (poll encodes d round s)
              ≡ some (ended outcome.failure outcome.result outcome.partial_err round.finished k))
    unfolding conclude
    poll-ended outcome s' k up popped found named ran kept own enc =
        let failure = outcome.failure in
        let result = outcome.result in
        let partial_err = outcome.partial_err in
        let change = ended failure result partial_err round.finished in
        let done : poll encodes d round s ≡ changed j.id change s' =
          poll-handle up popped found named
          ∙ ap (λ r. conclude encodes j r.0 round.finished r.1) ran
          ∙ mark_outcome-ended encodes j round.finished s' failure result partial_err k named kept
              own enc in
        (
          done,
          ap (row j.id) done
              ∙ changed-row_same j.id change s' k
                  (ended-id failure result partial_err round.finished) kept,
        )
