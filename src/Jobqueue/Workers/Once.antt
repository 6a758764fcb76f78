-- ===== src/Jobqueue/Workers/Once.antt =====
-- internal/jobqueue: a job is handled at most once, and its status only moves on.
use racetify_api.Base.{
  ℕ, ◌≤◌, ◌+◌, String, Bool, List, [], ◌∷◌, ◌++◌, none, some, ◌==◌, ◌≡◌, refl, sym, ap, ◌∙◌, subst,
  inl, inr, Bool-cases, arith, eq_iff, count_if, count_if-between, if◌then◌else◌,
}
use racetify_api.Jobqueue.{
  Job, Store, enqueue, dequeue, update_progress, mark_processing, has_id, job_queued,
  job_processing,
}
use racetify_api.Domain.{ok}
use racetify_api.Jobqueue.Dispatcher.{Outcome}
use racetify_api.Jobqueue.Runner.{conclude}
use racetify_api.Jobqueue.Workers.{
  World, Step, enqueued, dequeued, dequeued_nothing, began, dropped, progressed, concluded, died,
  Steps, here, next,
}
use racetify_api.Jobqueue.Workers.Listing.{
  status_of, listed, enqueue-status, dequeue-status, dequeue-taken_lem,
}
use racetify_api.Jobqueue.Workers.Effects.{
  mark_processing-status, update_progress-status, conclude-status,
}
use racetify_api.Jobqueue.Workers.Counts.{
  IsCounted, IsMove, IsCounted-less, IsCounted-moved, IsCounted-started, IsCounted-ended,
  IsCounted-zero, IsCounted-once, IsCounted-new, IsCounted-same, IsCounted-at, IsMove-of, moved,
  appears, starts, ends,
}

module _ {V : Type 0} where
  abbrev IsSound : World V → String → Type 0
  IsSound w x =
      IsCounted (listed x w.store) (count_if (has_id x) w.popped) (count_if (has_id x) w.busy)
        (count_if (λ y. y == x) w.started) (status_of x w.store)

  abbrev Goes : World V → World V → String → Type 0
  Goes v w x = IsSound w x × IsMove (status_of x v.store) (status_of x w.store)

  -- A step that keeps the status, and takes ids off.
  kept_less :
      (v w : World V) (x : String)
      → status_of x w.store ≡ status_of x v.store
      → listed x w.store ≤ listed x v.store
      → count_if (has_id x) w.popped ≤ count_if (has_id x) v.popped
      → count_if (has_id x) w.busy ≤ count_if (has_id x) v.busy
      → count_if (λ y. y == x) w.started ≡ count_if (λ y. y == x) v.started
      → IsSound v x
      → Goes v w x
  kept_less v w x e hl hp hb hs sound =
      let n = count_if (λ y. y == x) v.started in
      let p = count_if (has_id x) w.popped in
      let b = count_if (has_id x) w.busy in
      let less =
        IsCounted-less (listed x v.store) (count_if (has_id x) v.popped)
          (count_if (has_id x) v.busy) n (listed x w.store) p b (status_of x v.store) hl hp hb
          sound in
      (
        subst (λ k. IsCounted (listed x w.store) p b k (status_of x w.store)) (sym hs)
            (IsCounted-at (listed x w.store) p b n (status_of x v.store) (status_of x w.store) e
              less),
        IsMove-of (status_of x v.store) (status_of x w.store) e,
      )

  fewer :
      (x : String) (js before after : List (Job V)) (j : Job V)
      → js ≡ before ++ (j ∷ after)
      → count_if (has_id x) (before ++ after) ≤ count_if (has_id x) js
  fewer x js before after j e = omega (arith, count_if-between (has_id x) js before after j e)

  module _ (encodes : V → Bool) where
    began-Goes :
        (v : World V) (x : String) (before after : List (Job V)) (j : Job V) (now : ℕ) (s : Store V)
        → v.popped ≡ before ++ (j ∷ after)
        → mark_processing j now v.store ≡ (ok tt, s)
        → IsSound v x
        → Goes v
            (record v {
              store = s;
              popped = before ++ after;
              busy = j ∷ v.busy;
              started = j.id ∷ v.started;
            })
            x
    began-Goes v x before after j now s e h sound =
        let l = listed x v.store in
        let p = count_if (has_id x) v.popped in
        let p' = count_if (has_id x) (before ++ after) in
        let b = count_if (has_id x) v.busy in
        let n = count_if (λ y. y == x) v.started in
        let w : World V = record v {
          store = s;
          popped = before ++ after;
          busy = j ∷ v.busy;
          started = j.id ∷ v.started;
        } in
        let (ls, status) = mark_processing-status j now v.store s x h in
        let between = count_if-between (has_id x) v.popped before after j e in
        elim (Bool-cases (j.id == x)) [
          | inr f ↦
              let same : status_of x s ≡ status_of x v.store = elim status [
                | inl (k, _) ↦ k
                | inr (id, _) ↦ absurd (let t = (eq_iff j.id x).1 id in cc)
              ] in
              let fewer_popped : p' ≤ p = ground (arith, between, f) in
              let as_busy : count_if (has_id x) (j ∷ v.busy) ≤ b = ground (arith, f) in
              let as_started : count_if (λ y. y == x) (j.id ∷ v.started) ≡ n = ground (arith, f) in
              kept_less v w x same (omega arith) fewer_popped as_busy as_started sound
          | inl t ↦
              let one_less : p' + 1 ≡ p = ground (arith, between, t) in
              let (queued, counted) = IsCounted-started l p' b n (status_of x v.store) (
                IsCounted-same l p b n l (p' + 1) b n (status_of x v.store) refl one_less refl refl
                  sound) in
              let begun : status_of x s ≡ some job_processing = elim status [
                | inl (_, inl f) ↦ absurd cc
                | inl (_, inr new) ↦
                    absurd (let d : none ≡ some job_queued = sym new ∙ queued in cc)
                | inr (_, st) ↦ st
              ] in
              let busier : count_if (has_id x) (j ∷ v.busy) ≡ b + 1 = ground (arith, t) in
              let more : count_if (λ y. y == x) (j.id ∷ v.started) ≡ n + 1 = ground (arith, t) in
              let l' = listed x s in
              let b' = count_if (has_id x) (j ∷ v.busy) in
              let n' = count_if (λ y. y == x) (j.id ∷ v.started) in
              (
                IsCounted-at l' p' b' n' (some job_processing) (status_of x s) begun (
                    IsCounted-same l p' (b + 1) (n + 1) l' p' b' n' (some job_processing) ls refl
                      busier more counted),
                moved (status_of x v.store) (status_of x s) (some job_queued) (some job_processing)
                    queued begun starts,
              )
        ]

    concluded-Goes :
        (v : World V) (x : String) (before after : List (Job V)) (j : Job V) (outcome : Outcome V)
        (now : ℕ)
        → v.busy ≡ before ++ (j ∷ after)
        → IsSound v x
        → Goes v
            (record v { store = conclude encodes j outcome now v.store; busy = before ++ after })
            x
    concluded-Goes v x before after j outcome now e sound =
        let s = conclude encodes j outcome now v.store in
        let l = listed x v.store in
        let p = count_if (has_id x) v.popped in
        let b = count_if (has_id x) v.busy in
        let b' = count_if (has_id x) (before ++ after) in
        let n = count_if (λ y. y == x) v.started in
        let (ls, status) = conclude-status encodes j outcome now v.store x in
        elim status [
          | inl same ↦
              kept_less v (record v { store = s; busy = before ++ after }) x same (omega arith)
                (omega arith) (fewer x v.busy before after j e) refl sound
          | inr (id, final, st, fin) ↦
              let t = (eq_iff j.id x).1 id in
              let one_less : b' + 1 ≡ b =
                ground (arith, count_if-between (has_id x) v.busy before after j e, t) in
              let (processing, counted) = IsCounted-ended l p b' n (status_of x v.store) final (
                IsCounted-same l p b n l p (b' + 1) n (status_of x v.store) refl refl one_less refl
                  sound) in
              (
                IsCounted-at (listed x s) p b' n (some final) (status_of x s) st (
                    IsCounted-same l p b' n (listed x s) p b' n (some final) ls refl refl refl
                      counted),
                moved (status_of x v.store) (status_of x s) (some job_processing) (some final)
                    processing st (ends final fin),
              )
        ]

    Step-Goes : (v w : World V) (x : String) → Step encodes v w → IsSound v x → Goes v w x
    Step-Goes v _ x (enqueued _ reached id now tenant_id actor job_type payload) sound =
        let l = listed x v.store in
        let p = count_if (has_id x) v.popped in
        let b = count_if (has_id x) v.busy in
        let n = count_if (λ y. y == x) v.started in
        let s' = (enqueue encodes reached id now tenant_id actor job_type payload v.store).1 in
        elim (enqueue-status encodes reached id now tenant_id actor job_type payload v.store x) [
          | inl (same, ls) ↦
              kept_less v (record v { store = s' }) x same (omega arith) (omega arith) (omega arith)
                refl sound
          | inr (new, st, more) ↦ (
            IsCounted-at (listed x s') p b n (some job_queued) (status_of x s') st (
                IsCounted-new l p b n (listed x s') more
                  (IsCounted-at l p b n (status_of x v.store) none (sym new) sound)),
            moved (status_of x v.store) (status_of x s') none (some job_queued) new st appears,
          )
        ]
    Step-Goes v _ x (dequeued _ reached j s h) sound =
        let (same, l) = dequeue-taken_lem reached v.store s j x h in
        let k = if j.id == x then 1 else 0 in
        let p = count_if (has_id x) v.popped in
        let p' = count_if (has_id x) (j ∷ v.popped) in
        let b = count_if (has_id x) v.busy in
        let n = count_if (λ y. y == x) v.started in
        (
          IsCounted-at (listed x s) p' b n (status_of x v.store) (status_of x s) same (
              IsCounted-moved (listed x v.store) p b n (listed x s) p' k (status_of x v.store) l
                (ground arith) sound),
          IsMove-of (status_of x v.store) (status_of x s) same,
        )
    Step-Goes v _ x (dequeued_nothing _ reached) sound =
        let (same, less) = dequeue-status reached v.store x in
        kept_less v (record v { store = (dequeue reached v.store).1 }) x same less (omega arith)
          (omega arith) refl sound
    Step-Goes v _ x (began _ before after j now s e h) sound =
        began-Goes v x before after j now s e h sound
    Step-Goes v _ x (dropped _ before after j e) sound =
        kept_less v (record v { popped = before ++ after }) x refl (omega arith)
          (fewer x v.popped before after j e) (omega arith) refl sound
    Step-Goes v _ x (progressed _ j current total) sound =
        let (same, ls) = update_progress-status j current total v.store x in
        kept_less v (record v { store = (update_progress j current total v.store).1 }) x same
          (omega arith) (omega arith) (omega arith) refl sound
    Step-Goes v _ x (concluded _ before after j outcome now e) sound =
        concluded-Goes v x before after j outcome now e sound
    Step-Goes v _ x (died _ before after j e) sound =
        kept_less v (record v { busy = before ++ after }) x refl (omega arith) (omega arith)
          (fewer x v.busy before after j e) refl sound

    -- Nobody has popped a job yet, and the list is empty.
    abbrev pub IsFresh : World V → Type 0
    IsFresh w = (w.store.list ≡ []) × (w.popped ≡ []) × (w.busy ≡ []) × (w.started ≡ [])

    fresh-IsSound : (w : World V) (x : String) → IsFresh w → IsSound w x
    fresh-IsSound w x (l, p, b, n) =
        IsCounted-same 0 0 0 0 (listed x w.store) (count_if (has_id x) w.popped)
          (count_if (has_id x) w.busy) (count_if (λ y. y == x) w.started) (status_of x w.store)
          (ap (count_if (λ y. y == x)) l) (ap (count_if (has_id x)) p) (ap (count_if (has_id x)) b)
          (ap (count_if (λ y. y == x)) n) (IsCounted-zero (status_of x w.store))

    Steps-IsSound : (u w : World V) (x : String) → Steps encodes u w → IsFresh u → IsSound w x
    Steps-IsSound u _ x (here _) fresh = fresh-IsSound u x fresh
    Steps-IsSound u _ x (next _ v w run step) fresh =
        (Step-Goes v w x step (Steps-IsSound u v x run fresh)).0

    -- From a fresh world on, with any workers in any order, failing or dying at any point, the handler
    -- of a job is called at most once.
    pub Steps-once :
        (u w : World V) (x : String)
        → Steps encodes u w
        → IsFresh u
        → count_if (λ y. y == x) w.started ≤ 1
    Steps-once u w x run fresh =
        IsCounted-once (listed x w.store) (count_if (has_id x) w.popped)
          (count_if (has_id x) w.busy) (count_if (λ y. y == x) w.started) (status_of x w.store)
          (Steps-IsSound u w x run fresh)

    -- In such a world every step leaves the status of a job as it is or moves it on: a new job is
    -- queued, a queued one is being processed, one being processed is ended; so the end stays.
    pub Steps-IsMove :
        (u v w : World V) (x : String)
        → Steps encodes u v
        → IsFresh u
        → Step encodes v w
        → IsMove (status_of x v.store) (status_of x w.store)
    Steps-IsMove u v w x run fresh step = (Step-Goes v w x step (Steps-IsSound u v x run fresh)).1
