-- ===== src/Jobqueue/Dispatcher.antt =====
-- internal/jobqueue/dispatcher.go: which handler processes a type of jobs.
--
-- A handler may change the store; what else it does is not modelled. The table of handlers is an
-- association list.
use Prim.Native.String
use racetify_api.Base.{
  String, Bool, false, List, ◌∷◌, Option, none, some, ◌==◌, if◌then◌else◌, any, find, ◌≡◌, ◌≢◌,
  refl, sym, subst, inl, inr, Bool-cases, eq_iff,
}
use racetify_api.Jobqueue.{Job, Store}

-- What a handler returns.
pub record Outcome (V : Type 0) : Type 0 where
  pub result : Option V
  pub partial_err : String
  pub failure : Option String

abbrev pub Handler : Type 0 → Type 0
Handler V = Job V → Store V → Outcome V × Store V

abbrev pub Dispatcher : Type 0 → Type 0
Dispatcher V = List (String × Handler V)

-- ErrNoHandler, as it is wrapped. (`%q` of a type that needs no escapes.)
abbrev pub no_handler : String → String
no_handler job_type =
    String.◌++◌ "jobqueue: no handler registered for this job type: "
      (String.◌++◌ "\"" (String.◌++◌ job_type "\""))

module _ {V : Type 0} where
  abbrev pub is_for : String → String × Handler V → Bool
  is_for job_type h = h.0 == job_type

  -- Register: no result is the panic.
  unfoldable pub register : String → Handler V → Dispatcher V → Option (Dispatcher V)
  register job_type h d = if any (is_for job_type) d then none else some ((job_type, h) ∷ d)

  abbrev pub call : Option (String × Handler V) → Job V → Store V → Outcome V × Store V
  call none j s =
      (record { result = none; partial_err = ""; failure = some (no_handler j.job_type) }, s)
  call (some (_, h)) j s = h j s

  unfoldable pub dispatch : Dispatcher V → Job V → Store V → Outcome V × Store V
  dispatch d j = call (find (is_for j.job_type) d) j

  dispatch-first :
      (job_type : String) (h : Handler V) (d : Dispatcher V) (j : Job V) (s : Store V)
      → j.job_type ≡ job_type
      → dispatch ((job_type, h) ∷ d) j s ≡ h j s
  unfolding dispatch
  dispatch-first job_type h d j s same =
      let t = (eq_iff job_type j.job_type).1 (sym same) in rw t refl

  dispatch-rest :
      (job_type : String) (h : Handler V) (d : Dispatcher V) (j : Job V) (s : Store V)
      → j.job_type ≢ job_type
      → dispatch ((job_type, h) ∷ d) j s ≡ dispatch d j s
  unfolding dispatch
  dispatch-rest job_type h d j s differ = elim (Bool-cases (job_type == j.job_type)) [
    | inl t ↦ absurd (differ (sym ((eq_iff job_type j.job_type).0 t)))
    | inr f ↦ rw f refl
  ]

  -- Registering a type succeeds unless it has a handler; then jobs of that type are processed by the
  -- new handler, and those of every other type as before.
  pub register-dispatch :
      (job_type : String) (h : Handler V) (d d' : Dispatcher V) (j : Job V) (s : Store V)
      → register job_type h d ≡ some d'
      → (any (is_for job_type) d ≡ false)
        × (j.job_type ≡ job_type → dispatch d' j s ≡ h j s)
        × (j.job_type ≢ job_type → dispatch d' j s ≡ dispatch d j s)
  unfolding register
  register-dispatch job_type h d d' j s e = elim (Bool-cases (any (is_for job_type) d)) [
    | inl t ↦ let out : ◌≡◌ {A = Option (Dispatcher V)} none (some d') = rw t at e in absurd cc
    | inr f ↦
        let out : ◌≡◌ {A = Option (Dispatcher V)} (some ((job_type, h) ∷ d)) (some d') =
          rw f at e in
        let same : (job_type, h) ∷ d ≡ d' = cc in
        (
          f,
          λ own. subst (λ z. dispatch z j s ≡ h j s) same (dispatch-first job_type h d j s own),
          λ other.
              subst (λ z. dispatch z j s ≡ dispatch d j s) same
                (dispatch-rest job_type h d j s other),
        )
  ]
