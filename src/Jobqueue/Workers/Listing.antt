-- ===== src/Jobqueue/Workers/Listing.antt =====
-- internal/jobqueue: what Enqueue and Dequeue do to the list and to the status of a job.
use racetify_api.Base.{
  ℕ, ◌≤◌, ◌+◌, String, Bool, true, false, List, [], ◌∷◌, ◌++◌, Option, none, some, ◌==◌, ◌≡◌, refl,
  sym, ap, ◌∙◌, subst, inl, inr, ◌⊎◌, Bool-cases, Option-cases, arith, eq_iff, any, find, count_if,
  count_if-append, find-append, find-append_off, find_sound, find-none, if◌then◌else◌,
}
use racetify_api.Domain.{Error, not_found, other, Result, ok, err, and_then}
use racetify_api.Database.{with_tx, with_tenant_tx}
use racetify_api.Tenant.{get_row}
use racetify_api.Jobqueue.{
  Job, Store, has_id, job_queued, new_job, insert, enqueue, push, pop_right, dequeue, taken, lost,
  empty, resolve, after_pop, get_by_id_unscoped,
}
use racetify_api.Jobqueue.Rows.{row}
use racetify_api.Jobqueue.Draining.{pop_right_lem}

module _ {V : Type 0} where
  abbrev pub status_in : Option (Job V) → Option String
  status_in none = none
  status_in (some j) = some j.status

  abbrev pub status_of : String → Store V → Option String
  status_of id s = status_in (row id s)

  abbrev pub listed : String → Store V → ℕ
  listed id s = count_if (λ x. x == id) s.list

  abbrev added : Job V → Store V → Store V
  added j s = record s { jobs = s.jobs ++ (j ∷ []) }

  insert-cases :
      (encodes : V → Bool) (j : Job V) (s : Store V)
      → ((e : Error) × (insert encodes j s ≡ err e))
        ⊎ ((any (has_id j.id) s.jobs ≡ false) × (insert encodes j s ≡ ok (added j s)))
  unfolding insert
  insert-cases encodes j s = elim (Bool-cases (encodes j.payload)) [
    | inr t ↦ rw t (inl (other "json: unsupported value", refl))
    | inl t ↦ elim (Bool-cases (any (has_id j.id) s.jobs)) [
      | inl a ↦ rw (t, a) (inl (other "duplicate key", refl))
      | inr a ↦ rw (t, a) (inr (refl, refl))
    ]
  ]

  module _ (encodes : V → Bool) (reached : Bool) (id : String) (now : ℕ)
      (tenant_id actor job_type : String) (payload : V) (s : Store V) where
    abbrev job : Job V
    job = new_job id tenant_id job_type payload actor now

    insert_tx : Result (Unit {0}) × Store V
    insert_tx = with_tenant_tx tenant_id (λ t. and_then (insert encodes job t) λ t'. ok (tt, t')) s

    insert_tx-cases :
        ((e : Error) × (insert_tx ≡ (err e, s)))
        ⊎ ((any (has_id id) s.jobs ≡ false) × (insert_tx ≡ (ok tt, added job s)))
    unfolding insert_tx
    insert_tx-cases = elim (Bool-cases (tenant_id == "")) [
      | inl t ↦ rw t (inl (other "database: WithTenantTx called with empty tenantID", refl))
      | inr t ↦ elim (insert-cases encodes job s) [
        | inl (e, h) ↦ rw (t, with_tx, h) (inl (e, refl))
        | inr (fresh, h) ↦ rw (t, with_tx, h) (inr (fresh, refl))
      ]
    ]

    pub enqueue-push :
        ((e : Error) × (enqueue encodes reached id now tenant_id actor job_type payload s
            ≡ (err e, s)))
        ⊎ ((any (has_id id) s.jobs ≡ false)
            × (enqueue encodes reached id now tenant_id actor job_type payload s
                ≡ push reached id (ok tt, record s { jobs = s.jobs ++ (job ∷ []) })))
    unfolding enqueue insert_tx
    enqueue-push = elim insert_tx-cases [
      | inl (e, h) ↦ inl (e, ap (push reached id) h)
      | inr (fresh, h) ↦ inr (fresh, ap (push reached id) h)
    ]

    -- An enqueued job is new, and listed only if Redis answers.
    pub enqueue-cases :
        let s' = (enqueue encodes reached id now tenant_id actor job_type payload s).1 in
        (s' ≡ s)
        ⊎ ((any (has_id id) s.jobs ≡ false)
            × (s' ≡ record s {
              jobs = s.jobs ++ (job ∷ []);
              list = if reached then id ∷ s.list else s.list;
            }))
    unfolding enqueue insert_tx
    enqueue-cases = elim insert_tx-cases [
      | inl (e, h) ↦ inl (ap (λ r. (push reached id r).1) h)
      | inr (fresh, h) ↦ inr (fresh, ap (λ r. (push reached id r).1) h ∙ pushed reached)
    ]
      where
        pushed :
            (b : Bool)
            → (push b id (ok tt, added job s)).1
              ≡ record s { jobs = s.jobs ++ (job ∷ []); list = if b then id ∷ s.list else s.list }
        pushed true = refl
        pushed false = refl

    pub enqueue-status :
        (x : String)
        → let s' = (enqueue encodes reached id now tenant_id actor job_type payload s).1 in
          ((status_of x s' ≡ status_of x s) × (listed x s' ≡ listed x s))
          ⊎ ((status_of x s ≡ none)
              × (status_of x s' ≡ some job_queued)
              × (listed x s' ≤ listed x s + 1))
    enqueue-status x = elim enqueue-cases [
      | inl e ↦ inl (ap (status_of x) e, ap (listed x) e)
      | inr (fresh, e) ↦ elim (Bool-cases (id == x)) [
        | inl t ↦
            let same : id ≡ x = (eq_iff id x).0 t in
            let unknown : any (has_id x) s.jobs ≡ false =
              subst (λ y. any (has_id y) s.jobs ≡ false) same fresh in
            let alone : find (has_id x) (job ∷ []) ≡ some job = rw t refl in
            inr (
              ap status_in (find-none (has_id x) s.jobs unknown),
              ap (status_of x) e
                  ∙ ap status_in (find-append (has_id x) s.jobs (job ∷ []) unknown ∙ alone),
              subst (λ z. listed x z ≤ listed x s + 1) (sym e) (longer reached x),
            )
        | inr f ↦ inl (
          ap (status_of x) e ∙ ap status_in (find-append_off (has_id x) s.jobs job f),
          ap (listed x) e ∙ unlisted reached x f,
        )
      ]
    ]
      where
        longer :
            (b : Bool) (x : String)
            → count_if (λ y. y == x) (if b then id ∷ s.list else s.list) ≤ listed x s + 1
        longer b x = ground arith

        unlisted :
            (b : Bool) (x : String)
            → (id == x) ≡ false
            → count_if (λ y. y == x) (if b then id ∷ s.list else s.list) ≡ listed x s
        unlisted b x f = ground arith

  listed-rest :
      (s : Store V) (last : String) (rest : List String) (x : String)
      → s.list ≡ rest ++ (last ∷ [])
      → listed x s ≡ listed x (record s { list = rest }) + (if last == x then 1 else 0)
  listed-rest s last rest x e =
      let whole : listed x s ≡ count_if (λ y. y == x) rest + count_if (λ y. y == x) (last ∷ []) =
        ap (count_if (λ y. y == x)) e ∙ count_if-append (λ y. y == x) rest (last ∷ []) in
      ground (arith, whole)

  pub dequeue-status :
      (reached : Bool) (s : Store V) (x : String)
      → let s' = (dequeue reached s).1 in
        (status_of x s' ≡ status_of x s) × (listed x s' ≤ listed x s)
  unfolding dequeue
  dequeue-status false s x = (refl, omega arith)
  dequeue-status true s x = elim (pop_right_lem s.list) [
    | inl nil ↦ let p : pop_right s.list ≡ none = ap pop_right nil in rw p (refl, omega arith)
    | inr (last, rest, e, p) ↦ rw p (refl, omega (arith, listed-rest s last rest x e))
  ]

  resolved :
      (last : String) (s : Store V) (j : Job V)
      → resolve (get_by_id_unscoped last s) ≡ taken j
      → row last s ≡ some j
  unfolding get_row
  resolved last s j h = elim (Option-cases (row last s)) [
    | inl n ↦ absurd (
        let g : get_by_id_unscoped last s ≡ err not_found = rw (get_row, n) refl in
        let d : lost ≡ taken j = sym (ap resolve g) ∙ h in cc)
    | inr (k, f) ↦
        let g : get_by_id_unscoped last s ≡ ok k = rw (get_row, f) refl in
        let d : taken k ≡ taken j = sym (ap resolve g) ∙ h in
        let same : k ≡ j = cc in f ∙ ap (λ y. some y) same
  ]

  after_pop-taken :
      (o : Option (String × List String)) (s s' : Store V) (j : Job V)
      → after_pop o s ≡ (taken j, s')
      → (last : String) × (rest : List String) × (o ≡ some (last, rest))
        × (row last s ≡ some j)
        × (s' ≡ record s { list = rest })
  after_pop-taken none s s' j h = absurd (let d : empty ≡ taken j = ap (λ r. r.0) h in cc)
  after_pop-taken (some (last, rest)) s s' j h =
      (last, rest, refl, resolved last s j (ap (λ r. r.0) h), sym (ap (λ r. r.1) h))

  pub dequeue-taken_lem :
      (reached : Bool) (s s' : Store V) (j : Job V) (x : String)
      → dequeue reached s ≡ (taken j, s')
      → (status_of x s' ≡ status_of x s) × (listed x s ≡ listed x s' + (if j.id == x then 1 else 0))
  unfolding dequeue
  dequeue-taken_lem false s s' j x h = absurd (let d : lost ≡ taken j = ap (λ r. r.0) h in cc)
  dequeue-taken_lem true s s' j x h =
      let (last, rest, o, f, store) = after_pop-taken (pop_right s.list) s s' j h in
      let id : j.id ≡ last = (eq_iff j.id last).0 (find_sound (has_id last) s.jobs j f) in
      elim (pop_right_lem s.list) [
        | inl nil ↦ absurd (let p : pop_right s.list ≡ none = ap pop_right nil in cc)
        | inr (last', rest', e, p) ↦
            let pair : ◌≡◌ {A = Option (String × List String)} (some (last', rest'))
                (some (last, rest)) =
              sym p ∙ o in
            let same : last' ≡ last = ground arith in
            let tail : rest' ≡ rest = ground arith in
            let cut : s.list ≡ rest ++ (last ∷ []) =
              e ∙ ap (λ r. r ++ (last' ∷ [])) tail ∙ ap (λ l. rest ++ (l ∷ [])) same in
            (
              ap (status_of x) store,
              subst (λ z. listed x s ≡ listed x z + (if j.id == x then 1 else 0)) (sym store)
                  (subst
                    (λ y.
                      listed x s ≡ listed x (record s { list = rest }) + (if y == x then 1 else 0))
                    (sym id) (listed-rest s last rest x cut)),
            )
      ]
