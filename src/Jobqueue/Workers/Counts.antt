-- ===== src/Jobqueue/Workers/Counts.antt =====
-- internal/jobqueue: how often an id may be listed, held and started, by the status of its job.
use racetify_api.Base.{
  ℕ, ◌≤◌, ◌+◌, String, true, Option, none, some, ◌≡◌, refl, sym, ap, subst, arith,
}
use racetify_api.Jobqueue.{job_queued, job_processing}
use racetify_api.Jobqueue.Outcomes.{is_final}

-- The numbers of times that an id is listed, held before and after its mark, and started.
unfoldable pub IsCounted : ℕ → ℕ → ℕ → ℕ → Option String → Type 0
IsCounted l p b n none = (l + p + n ≡ 0) × (b ≡ 0)
IsCounted l p b n (some status) =
    (l + p + n ≤ 1)
    × (b ≤ n)
    × (1 ≤ l + p → status ≡ job_queued)
    × (1 ≤ b → status ≡ job_processing)

-- The moves of a job's status.
pub data IsMove : Option String → Option String → Type 0 where
  stays : (o : Option String) → IsMove o o
  appears : IsMove none (some job_queued)
  starts : IsMove (some job_queued) (some job_processing)
  ends : (final : String) → is_final final ≡ true → IsMove (some job_processing) (some final)

pub IsCounted-less :
    (l p b n l' p' b' : ℕ) (o : Option String)
    → l' ≤ l
    → p' ≤ p
    → b' ≤ b
    → IsCounted l p b n o
    → IsCounted l' p' b' n o
unfolding IsCounted
IsCounted-less l p b n l' p' b' none hl hp hb (z, y) = (omega arith, omega arith)
IsCounted-less l p b n l' p' b' (some st) hl hp hb (one, few, q, r) =
    (omega arith, omega arith, λ h. q (omega arith), λ h. r (omega arith))

pub IsCounted-moved :
    (l p b n l' p' k : ℕ) (o : Option String)
    → l ≡ l' + k
    → p' ≡ p + k
    → IsCounted l p b n o
    → IsCounted l' p' b n o
unfolding IsCounted
IsCounted-moved l p b n l' p' k none hl hp (z, y) = (omega arith, y)
IsCounted-moved l p b n l' p' k (some st) hl hp (one, few, q, r) =
    (omega arith, few, λ h. q (omega arith), r)

-- A popped job starts.
pub IsCounted-started :
    (l p b n : ℕ) (o : Option String)
    → IsCounted l (p + 1) b n o
    → (o ≡ some job_queued) × IsCounted l p (b + 1) (n + 1) (some job_processing)
unfolding IsCounted
IsCounted-started l p b n none (z, y) = absurd (omega arith)
IsCounted-started l p b n (some st) (one, few, q, r) = (
  ap (λ s. some s) (q (omega arith)),
  (omega arith, omega arith, λ h. absurd (omega arith), λ h. refl),
)

pub IsCounted-ended :
    (l p b n : ℕ) (o : Option String) (final : String)
    → IsCounted l p (b + 1) n o
    → (o ≡ some job_processing) × IsCounted l p b n (some final)
unfolding IsCounted
IsCounted-ended l p b n none final (z, y) = absurd (omega arith)
IsCounted-ended l p b n (some st) final (one, few, q, r) = (
  ap (λ s. some s) (r (omega arith)),
  (omega arith, omega arith, λ h. absurd (omega arith), λ h. absurd (omega arith)),
)

pub IsCounted-zero : (o : Option String) → IsCounted 0 0 0 0 o
unfolding IsCounted
IsCounted-zero none = (omega arith, refl)
IsCounted-zero (some st) =
    (omega arith, omega arith, λ h. absurd (omega arith), λ h. absurd (omega arith))

pub IsCounted-once : (l p b n : ℕ) (o : Option String) → IsCounted l p b n o → n ≤ 1
unfolding IsCounted
IsCounted-once l p b n none (z, y) = omega arith
IsCounted-once l p b n (some st) (one, few, q, r) = omega arith

-- A job that is new.
pub IsCounted-new :
    (l p b n l' : ℕ) → l' ≤ l + 1 → IsCounted l p b n none → IsCounted l' p b n (some job_queued)
unfolding IsCounted
IsCounted-new l p b n l' hl (z, y) =
    (omega arith, omega arith, λ h. refl, λ h. absurd (omega arith))

pub IsCounted-same :
    (l p b n l' p' b' n' : ℕ) (o : Option String)
    → l' ≡ l
    → p' ≡ p
    → b' ≡ b
    → n' ≡ n
    → IsCounted l p b n o
    → IsCounted l' p' b' n' o
unfolding IsCounted
IsCounted-same l p b n l' p' b' n' none hl hp hb hn (z, y) = (omega arith, omega arith)
IsCounted-same l p b n l' p' b' n' (some st) hl hp hb hn (one, few, q, r) =
    (omega arith, omega arith, λ h. q (omega arith), λ h. r (omega arith))

pub IsCounted-at :
    (l p b n : ℕ) (o o' : Option String) → o' ≡ o → IsCounted l p b n o → IsCounted l p b n o'
IsCounted-at l p b n o o' e = subst (IsCounted l p b n) (sym e)

pub IsMove-of : (o o' : Option String) → o' ≡ o → IsMove o o'
IsMove-of o o' e = subst (IsMove o) (sym e) (stays o)

pub moved : (o o' a a' : Option String) → o ≡ a → o' ≡ a' → IsMove a a' → IsMove o o'
moved o o' a a' e e' m = subst (λ z. IsMove z o') (sym e) (subst (IsMove a) (sym e') m)
