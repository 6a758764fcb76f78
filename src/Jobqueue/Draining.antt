-- ===== src/Jobqueue/Draining.antt =====
-- internal/jobqueue/runner.go: enough rounds of the loop empty the list.
use racetify_api.Base.{
  ◌≤◌, ◌+◌, String, Bool, true, false, List, [], ◌∷◌, ◌++◌, Option, none, some, ◌==◌, ◌≡◌, refl,
  sym, ap, ◌∙◌, subst, inl, inr, ◌⊎◌, Bool-cases, Option-cases, arith, eq_iff, length,
  length-append, All, All-append, All-split, All-map, find, find-All, find_sound,
}
use racetify_api.Jobqueue.{
  Job, Store, has_id, with_start, is_encoded, pop_right, dequeue, after_pop,
}
use racetify_api.Jobqueue.Dispatcher.{Handler, Dispatcher, dispatch, is_for}
use racetify_api.Jobqueue.Runner.{Round, process, poll, run}
use racetify_api.Jobqueue.Rows.{row, changed, changed-row_same, changed-row_other}
use racetify_api.Jobqueue.Outcomes.{
  is_final, ended, ended-id, ended-tenant_id, ended-is_final, marked, poll-ended,
}

pub pop_right_lem :
    (xs : List String)
    → (xs ≡ [])
      ⊎ ((last : String) × (rest : List String) × (xs ≡ rest ++ (last ∷ []))
          × (pop_right xs ≡ some (last, rest)))
pop_right_lem [] = inl refl
pop_right_lem (x ∷ xs) = elim (pop_right_lem xs) [
  | inl e ↦
      inr (x, [], ap (λ ys. x ∷ ys) e, subst (λ ys. pop_right (x ∷ ys) ≡ some (x, [])) (sym e) refl)
  | inr (last, rest, e, p) ↦ inr (last, x ∷ rest, ap (λ ys. x ∷ ys) e, rw p refl)
]

module _ {V : Type 0} where
  -- A handler that leaves the list, and the tenant and status of every job, alone.
  abbrev pub IsQuiet : Handler V → Type 0
  IsQuiet h =
      (j : Job V) (s : Store V)
      → ((h j s).1.list ≡ s.list)
        × ((id : String) (a : Job V)
            → row id s ≡ some a
            → (b : Job V) × (row id (h j s).1 ≡ some b)
              × (b.tenant_id ≡ a.tenant_id)
              × (b.status ≡ a.status))

  -- A job that has its row, of a tenant.
  abbrev pub IsReady : Store V → String → Type 0
  IsReady s id = (a : Job V) × (row id s ≡ some a) × ((a.tenant_id == "") ≡ false)

  abbrev pub IsDone : Store V → String → Type 0
  IsDone s id = (a : Job V) × (row id s ≡ some a) × (is_final a.status ≡ true)

  dispatch-IsQuiet : (d : Dispatcher V) → All (λ h. IsQuiet h.1) d → IsQuiet (dispatch d)
  unfolding dispatch
  dispatch-IsQuiet d quiet j s = elim (Option-cases (find (is_for j.job_type) d)) [
    | inl n ↦ rw n (refl, λ id a e. (a, e, refl, refl))
    | inr (h, e) ↦ rw e (find-All (is_for j.job_type) (λ h. IsQuiet h.1) d h quiet e j s)
  ]

  module _ (encodes : V → Bool) (total : (v : V) → encodes v ≡ true) (d : Dispatcher V)
      (quiet : All (λ h. IsQuiet h.1) d) where
    encoded : (result : Option V) → is_encoded encodes result ≡ true
    encoded none = refl
    encoded (some v) = total v

    -- What a round that pops a job leaves.
    abbrev IsStep : Store V → String → List String → Store V → Type 0
    IsStep s id rest s' =
        (s'.list ≡ rest)
        × IsDone s' id
        × ((x : String) → IsReady s x → IsReady s' x)
        × ((x : String) → IsDone s x → IsDone s' x)

    -- A job that has its row keeps it, with its tenant; its status is kept, or final.
    IsFollowed : Store V → Store V → Type 0
    IsFollowed s s' =
        (x : String) (a : Job V)
        → row x s ≡ some a
        → (b : Job V) × (row x s' ≡ some b)
          × (b.tenant_id ≡ a.tenant_id)
          × ((b.status ≡ a.status) ⊎ (is_final b.status ≡ true))

    followed-IsStep :
        (s : Store V) (id : String) (rest : List String) (s' : Store V)
        → s'.list ≡ rest
        → IsDone s' id
        → IsFollowed s s'
        → IsStep s id rest s'
    unfolding IsFollowed
    followed-IsStep s id rest s' l done follow = (
      l,
      done,
      λ x (a, e, n). let (b, f, t, _) = follow x a e in (b, f, ap (λ y. y == "") t ∙ n),
      λ x (a, e, n).
          let (b, f, _, c) = follow x a e in
          elim c [ inl k ↦ (b, f, ap is_final k ∙ n) | inr k ↦ (b, f, k) ],
    )

    module _ (round : Round) (s : Store V) (rest : List String) (j : Job V)
        (up : round.reached ≡ true) (popped : pop_right s.list ≡ some (j.id, rest))
        (found : row j.id s ≡ some j) (named : (j.tenant_id == "") ≡ false) where
      followed :
          (s' final : Store V) (change : Job V → Job V) (k : Job V)
          → ((x : Job V) → (change x).id ≡ x.id)
          → ((x : Job V) → (change x).tenant_id ≡ x.tenant_id)
          → is_final (change k).status ≡ true
          → final ≡ changed j.id change s'
          → row j.id final ≡ some (change k)
          → k.tenant_id ≡ j.tenant_id
          → ((x : String) (a : Job V)
              → row x (marked encodes d round s rest j) ≡ some a
              → (b : Job V) × (row x s' ≡ some b)
                × (b.tenant_id ≡ a.tenant_id)
                × (b.status ≡ a.status))
          → IsFollowed s final
      unfolding IsFollowed
      followed s' final change k ids tenants ends done end own q x a e =
          elim (Bool-cases (j.id == x)) [
            | inl t ↦
                let same : j.id ≡ x = (eq_iff j.id x).0 t in
                let hit : some j ≡ some a = sym found ∙ ap (λ y. row y s) same ∙ e in
                let mine : j ≡ a = ground arith in
                (
                  change k,
                  ap (λ y. row y final) (sym same) ∙ end,
                  tenants k ∙ own ∙ ap (λ y. y.tenant_id) mine,
                  inr ends,
                )
            | inr t ↦
                let before =
                  changed-row_other j.id x (with_start round.started) (record s { list = rest })
                    (λ y. refl) t in
                let (b, f, tenant, status) = q x a (before ∙ e) in
                (
                  b,
                  ap (row x) done ∙ changed-row_other j.id x change s' ids t ∙ f,
                  tenant,
                  inl status,
                )
          ]

      popped-IsStep : IsStep s j.id rest (poll encodes d round s)
      popped-IsStep =
          let m = marked encodes d round s rest j in
          let (same_list, q) = dispatch-IsQuiet d quiet j m in
          let o = (dispatch d j m).0 in
          let s' = (dispatch d j m).1 in
          let start =
            changed-row_same j.id (with_start round.started) (record s { list = rest }) j
              (λ a. refl) found in
          let (k, kept, own, _) = q j.id (with_start round.started j) start in
          let (done, end) =
            poll-ended encodes d round s rest j o s' k up popped found named refl kept own
              (encoded o.result) in
          let change = ended o.failure o.result o.partial_err round.finished in
          let final = ended-is_final o.failure o.result o.partial_err round.finished k in
          followed-IsStep s j.id rest (poll encodes d round s) (ap (λ z. z.list) done ∙ same_list)
            (change k, end, final)
            (followed s' (poll encodes d round s) change k
              (ended-id o.failure o.result o.partial_err round.finished)
              (ended-tenant_id o.failure o.result o.partial_err round.finished) final done end own
              q)

    poll-IsStep :
        (round : Round) (s : Store V) (id : String) (rest : List String)
        → round.reached ≡ true
        → pop_right s.list ≡ some (id, rest)
        → IsReady s id
        → IsStep s id rest (poll encodes d round s)
    poll-IsStep round s id rest up popped (j, found, named) =
        let same : j.id ≡ id = (eq_iff j.id id).0 (find_sound (has_id id) s.jobs j found) in
        subst (λ x. IsStep s x rest (poll encodes d round s)) same
          (popped-IsStep round s rest j up (popped ∙ ap (λ x. some (x, rest)) (sym same))
            (ap (λ x. row x s) same ∙ found) named)

    poll_empty :
        (round : Round) (s : Store V)
        → round.reached ≡ true
        → s.list ≡ []
        → poll encodes d round s ≡ s
    unfolding poll dequeue
    poll_empty round s up nil =
        ap (process encodes d round)
          (ap (λ b. dequeue b s) up ∙ ap (λ l. after_pop (pop_right l) s) nil)

    run-keeps :
        (rounds : List Round) (s : Store V)
        → All (λ r. r.reached ≡ true) rounds
        → length s.list ≤ length rounds
        → All (IsReady s) s.list
        → ((run encodes d rounds s).list ≡ [])
          × All (IsDone (run encodes d rounds s)) s.list
          × ((x : String) → IsDone s x → IsDone (run encodes d rounds s) x)
    unfolding run
    run-keeps [] s up enough ready = elim (pop_right_lem s.list) [
      | inl nil ↦ (nil, subst (All (IsDone s)) (sym nil) tt, λ x h. h)
      | inr (last, rest, e, _) ↦ absurd (
          let n : length s.list ≡ length rest + 1 = ap length e ∙ length-append rest (last ∷ []) in
          omega arith)
    ]
    run-keeps (round ∷ rounds) s (up, ups) enough ready = elim (pop_right_lem s.list) [
      | inl nil ↦
          let idle = poll_empty round s up nil in
          let none_left : length s.list ≡ 0 = ap length nil in
          let few : length s.list ≤ length rounds = omega arith in
          subst
            (λ z.
              ((run encodes d rounds z).list ≡ [])
              × All (IsDone (run encodes d rounds z)) s.list
              × ((x : String) → IsDone s x → IsDone (run encodes d rounds z) x))
            (sym idle) (run-keeps rounds s ups few ready)
      | inr (last, rest, e, p) ↦
          let (front, (back, _)) =
            All-split (IsReady s) rest (last ∷ []) (subst (All (IsReady s)) e ready) in
          let s' = poll encodes d round s in
          let (left, done, stay_ready, stay_done) = poll-IsStep round s last rest up p back in
          let size : length s.list ≡ length rest + 1 =
            ap length e ∙ length-append rest (last ∷ []) in
          let size' : length s'.list ≡ length rest = ap length left in
          let ready' =
            subst (All (IsReady s')) (sym left)
              (All-map (IsReady s) (IsReady s') stay_ready rest front) in
          let (nil, all, keeps) = run-keeps rounds s' ups (omega arith) ready' in
          let P = IsDone (run encodes d rounds s') in
          (
            nil,
            subst (All P) (sym e)
                (All-append P rest (last ∷ []) (subst (All P) left all) (keeps last done, tt)),
            λ x h. keeps x (stay_done x h),
          )
    ]

    -- If every popped id has its row, of a tenant, every result can be encoded and the handlers leave
    -- the queue alone, then as many rounds in which Redis answers as there are ids in the list empty
    -- it, and every job that was listed ends in a final status.
    pub run-IsDrained :
        (rounds : List Round) (s : Store V)
        → All (λ r. r.reached ≡ true) rounds
        → length s.list ≤ length rounds
        → All (IsReady s) s.list
        → ((run encodes d rounds s).list ≡ []) × All (IsDone (run encodes d rounds s)) s.list
    run-IsDrained rounds s up enough ready =
        let (nil, all, _) = run-keeps rounds s up enough ready in (nil, all)
