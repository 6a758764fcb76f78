-- ===== src/Jobqueue/Fifo.antt =====
-- internal/jobqueue/queue.go: the list of Redis as a queue, first in, first out.
use racetify_api.Base.{
  ℕ, String, Bool, true, false, List, [], ◌∷◌, ◌++◌, none, ◌≡◌, refl, sym, ap, ◌∙◌, subst, inl, inr,
}
use racetify_api.Domain.{Result, ok, err}
use racetify_api.Jobqueue.{
  Store, Dequeued, empty, lost, enqueue, push, new_job, dequeue, pop_right, resolve,
  get_by_id_unscoped,
}
use racetify_api.Jobqueue.Draining.{pop_right_lem}
use racetify_api.Jobqueue.Workers.Listing.{enqueue-push}

-- The ids that wait, the oldest first.
abbrev pub oldest_first : List String → List String
oldest_first [] = []
oldest_first (x ∷ xs) = oldest_first xs ++ (x ∷ [])

oldest_first-append :
    (xs : List String) (last : String) → oldest_first (xs ++ (last ∷ [])) ≡ last ∷ oldest_first xs
oldest_first-append [] last = refl
oldest_first-append (x ∷ xs) last = ap (λ ys. ys ++ (x ∷ [])) (oldest_first-append xs last)

-- What a queue promises of a put of `id` that gave `r` and left `after` of `before`.
abbrev pub IsPut : String → List String → Result String → List String → Type 0
IsPut id before (ok out) after = (out ≡ id) × (after ≡ before ++ (id ∷ []))
IsPut id before (err e) after = after ≡ before

module _ {V : Type 0} where
  abbrev pub waiting : Store V → List String
  waiting s = oldest_first s.list

  -- What a queue promises of a take: the oldest id is resolved, and the others wait on.
  abbrev pub IsTaken : (String → Dequeued V) → List String → Dequeued V → List String → Type 0
  IsTaken find [] r after = (r ≡ empty) × (after ≡ [])
  IsTaken find (id ∷ rest) r after = (r ≡ find id) × (after ≡ rest)

  -- The same when Redis may be out of reach: then nothing is taken, and the answer is an error.
  abbrev pub IsTake : Bool → (String → Dequeued V) → List String → Dequeued V → List String → Type 0
  IsTake false find before r after = (r ≡ lost) × (after ≡ before)
  IsTake true find before r after = IsTaken find before r after

  pushed-IsPut :
      (reached : Bool) (id : String) (s s' : Store V)
      → s'.list ≡ s.list
      → let r = push reached id (ok tt, s') in IsPut id (waiting s) r.0 (waiting r.1)
  pushed-IsPut true id s s' same = (refl, ap (λ l. oldest_first l ++ (id ∷ [])) same)
  pushed-IsPut false id s s' same = ap oldest_first same

  enqueue-IsPut :
      (encodes : V → Bool) (reached : Bool) (id : String) (now : ℕ)
      (tenant_id actor job_type : String) (payload : V) (s : Store V)
      → let r = enqueue encodes reached id now tenant_id actor job_type payload s in
        IsPut id (waiting s) r.0 (waiting r.1)
  enqueue-IsPut encodes reached id now tenant_id actor job_type payload s =
      elim (enqueue-push encodes reached id now tenant_id actor job_type payload s) [
        | inl (e, h) ↦ subst (λ r. IsPut id (waiting s) r.0 (waiting r.1)) (sym h) refl
        | inr (_, h) ↦
            subst (λ r. IsPut id (waiting s) r.0 (waiting r.1)) (sym h)
              (pushed-IsPut reached id s
                (record s {
                  jobs = s.jobs ++ (new_job id tenant_id job_type payload actor now ∷ []);
                })
                refl)
      ]

  dequeue-IsTaken :
      (s : Store V)
      → let r = dequeue true s in
        IsTaken (λ id. resolve (get_by_id_unscoped id s)) (waiting s) r.0 (waiting r.1)
  unfolding dequeue
  dequeue-IsTaken s =
      let find : String → Dequeued V = λ id. resolve (get_by_id_unscoped id s) in
      elim (pop_right_lem s.list) [
        | inl nil ↦
            let p : pop_right s.list ≡ none = ap pop_right nil in
            rw p (subst (λ ys. IsTaken find ys empty ys) (sym (ap oldest_first nil)) (refl, refl))
        | inr (last, rest, e, p) ↦
            let w : waiting s ≡ last ∷ oldest_first rest =
              ap oldest_first e ∙ oldest_first-append rest last in
            rw p
              (subst (λ ys. IsTaken find ys (find last) (oldest_first rest)) (sym w) (refl, refl))
      ]

  dequeue-IsTake :
      (answers : Bool) (s : Store V)
      → let r = dequeue answers s in
        IsTake answers (λ id. resolve (get_by_id_unscoped id s)) (waiting s) r.0 (waiting r.1)
  unfolding dequeue
  dequeue-IsTake false s = (refl, refl)
  dequeue-IsTake true s = dequeue-IsTaken s

  -- The list of Redis, read from its right end, is a queue: Enqueue puts the new id behind the waiting
  -- ones if it succeeds and leaves them alone if it fails. Dequeue, when Redis answers, takes the
  -- oldest id off the list, if there is one, and gives its row, or an error if the id has no row; when
  -- Redis does not answer, it gives an error and takes nothing.
  pub queue-IsFifo :
      (encodes : V → Bool) (reached : Bool) (id : String) (now : ℕ)
      (tenant_id actor job_type : String) (payload : V) (answers : Bool) (s : Store V)
      → let put = enqueue encodes reached id now tenant_id actor job_type payload s in
        let take = dequeue answers s in
        IsPut id (waiting s) put.0 (waiting put.1)
        × IsTake answers (λ x. resolve (get_by_id_unscoped x s)) (waiting s) take.0 (waiting take.1)
  queue-IsFifo encodes reached id now tenant_id actor job_type payload answers s = (
    enqueue-IsPut encodes reached id now tenant_id actor job_type payload s,
    dequeue-IsTake answers s,
  )
