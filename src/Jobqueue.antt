-- ===== src/Jobqueue.antt =====
-- internal/jobqueue, internal/domain/job.go: background jobs. A job is a row of the table `jobs`;
-- its id is pushed to one list in Redis, from which the workers pop (queue.go, repository.go).
--
-- A payload and a result are JSON objects, of a type `V` that is a parameter; which of them
-- json.Marshal accepts is a parameter too. Whether Redis answers is an argument of the operations
-- that call it.
pub mod Reads
pub mod Rows
pub mod Dispatcher
pub mod Runner
pub mod Outcomes
pub mod Draining
pub mod Workers
pub mod Fifo
pub mod Own
mod Tests
use Prim.Native.String
use racetify_api.Base.{
  ℕ, ℤ, pos, String, Bool, true, false, not, ◌&&◌, ◌||◌, List, [], ◌∷◌, ◌++◌, Option, none, some,
  ◌==◌, if◌then◌else◌, any,
}
use racetify_api.Domain.{already_exists, other, Result, ok, err, and_then}
use racetify_api.Database.{Tx, with_tenant_tx}
use racetify_api.Tenant.{update_row, get_row}

abbrev pub job_queued : String
job_queued = "queued"

abbrev pub job_processing : String
job_processing = "processing"

abbrev pub job_completed : String
job_completed = "completed"

abbrev pub job_completed_with_errors : String
job_completed_with_errors = "completed_with_errors"

abbrev pub job_failed : String
job_failed = "failed"

pub record Job (V : Type 0) : Type 0 where
  pub id : String
  pub tenant_id : String
  pub job_type : String
  pub status : String
  pub payload : V
  pub result : Option V
  pub error : Option String
  pub progress_current : ℤ
  pub progress_total : ℤ
  pub created_by : String
  pub created_at : ℕ
  pub updated_at : ℕ
  pub started_at : Option ℕ
  pub finished_at : Option ℕ

-- The table, and the list of Redis, its left end first.
pub record Store (V : Type 0) : Type 0 where
  pub jobs : List (Job V)
  pub list : List String

-- What redis.BRPop takes: the right end.
abbrev pub pop_right : List String → Option (String × List String)
pop_right [] = none
pop_right (x ∷ xs) = elim (pop_right xs) [
  | none ↦ some (x, [])
  | some (last, rest) ↦ some (last, x ∷ rest)
]

-- Nothing to do, a popped id that has its row, or an error.
pub data Dequeued (V : Type 0) : Type 0 where
  empty : Dequeued V
  taken : Job V → Dequeued V
  lost : Dequeued V

module _ {V : Type 0} where
  abbrev pub has_id : String → Job V → Bool
  has_id id j = j.id == id

  -- A row that the transaction of a tenant sees.
  abbrev pub belongs : String → Job V → Bool
  belongs tenant_id j = j.tenant_id == tenant_id

  unfoldable pub insert : (V → Bool) → Job V → Store V → Result (Store V)
  insert encodes j s =
      if not (encodes j.payload)
      then err (other "json: unsupported value")
      else if any (has_id j.id) s.jobs
      then err (other "duplicate key")
      else ok (record s { jobs = s.jobs ++ (j ∷ []) })

  abbrev pub get_by_id : String → String → Store V → Result (Job V)
  get_by_id tenant_id id s = get_row (λ j. belongs tenant_id j && has_id id j) s.jobs

  abbrev pub get_by_id_unscoped : String → Store V → Result (Job V)
  get_by_id_unscoped id s = get_row (has_id id) s.jobs

  -- An UPDATE by id in the transaction of a tenant.
  unfoldable pub update_job : String → String → (Job V → Job V) → Tx (Store V) (Unit {0})
  update_job tenant_id id change s =
      and_then (update_row (has_id id) (belongs tenant_id) change s.jobs)
        λ rows. ok (tt, record s { jobs = rows })

  abbrev pub with_start : ℕ → Job V → Job V
  with_start started_at j = record j { status = job_processing; started_at = some started_at }

  abbrev pub with_progress : ℤ → ℤ → Job V → Job V
  with_progress current total j = record j { progress_current = current; progress_total = total }

  abbrev pub with_end : String → Option V → Option String → ℕ → Job V → Job V
  with_end status result error finished_at j = record j {
    status = status;
    result = result;
    error = error;
    finished_at = some finished_at;
  }

  -- A result that is not nil is encoded first.
  abbrev pub is_encoded : (V → Bool) → Option V → Bool
  is_encoded encodes none = true
  is_encoded encodes (some v) = encodes v

  unfoldable pub finish :
      (V → Bool) → String → String → String → Option V → Option String → ℕ → Tx (Store V) (Unit {0})
  unfolding update_job
  finish encodes tenant_id id status result error finished_at s =
      if is_encoded encodes result
      then update_job tenant_id id (with_end status result error finished_at) s
      else err (other "json: unsupported value")

  abbrev pub new_job : String → String → String → V → String → ℕ → Job V
  new_job id tenant_id job_type payload actor now = record {
    id = id;
    tenant_id = tenant_id;
    job_type = job_type;
    status = job_queued;
    payload = payload;
    result = none;
    error = none;
    progress_current = pos 0;
    progress_total = pos 0;
    created_by = actor;
    created_at = now;
    updated_at = now;
    started_at = none;
    finished_at = none;
  }

  -- redis.LPush
  abbrev pub push : Bool → String → Result (Unit {0}) × Store V → Result String × Store V
  push reached id (err e, s) = (err e, s)
  push true id (ok _, s) = (ok id, record s { list = id ∷ s.list })
  push false id (ok _, s) = (err (other "jobqueue: push to redis"), s)

  -- Enqueue. The row is committed before the push is tried.
  unfoldable pub enqueue :
      (V → Bool)
      → Bool
      → String
      → ℕ
      → String
      → String
      → String
      → V
      → Store V
      → Result String × Store V
  unfolding insert
  enqueue encodes reached id now tenant_id actor job_type payload s = push reached id (
      with_tenant_tx tenant_id
        (λ s.
          and_then (insert encodes (new_job id tenant_id job_type payload actor now) s)
            λ s'. ok (tt, s'))
        s)

  abbrev pub resolve : Result (Job V) → Dequeued V
  resolve (ok j) = taken j
  resolve (err e) = lost

  abbrev pub after_pop : Option (String × List String) → Store V → Dequeued V × Store V
  after_pop none s = (empty, s)
  after_pop (some (id, rest)) s = (resolve (get_by_id_unscoped id s), record s { list = rest })

  unfoldable pub dequeue : Bool → Store V → Dequeued V × Store V
  dequeue false s = (lost, s)
  dequeue true s = after_pop (pop_right s.list) s

  unfoldable pub mark_processing : Job V → ℕ → Store V → Result (Unit {0}) × Store V
  unfolding update_job
  mark_processing j now = with_tenant_tx j.tenant_id (update_job j.tenant_id j.id (with_start now))

  unfoldable pub mark_completed :
      (V → Bool) → Job V → Option V → ℕ → Store V → Result (Unit {0}) × Store V
  unfolding finish
  mark_completed encodes j result now =
      with_tenant_tx j.tenant_id (finish encodes j.tenant_id j.id job_completed result none now)

  unfoldable pub mark_completed_with_errors :
      (V → Bool) → Job V → Option V → String → ℕ → Store V → Result (Unit {0}) × Store V
  unfolding finish
  mark_completed_with_errors encodes j result message now =
      with_tenant_tx j.tenant_id
        (finish encodes j.tenant_id j.id job_completed_with_errors result (some message) now)

  unfoldable pub mark_failed :
      (V → Bool) → Job V → String → ℕ → Store V → Result (Unit {0}) × Store V
  unfolding finish
  mark_failed encodes j message now =
      with_tenant_tx j.tenant_id
        (finish encodes j.tenant_id j.id job_failed none (some message) now)

  unfoldable pub update_progress : Job V → ℤ → ℤ → Store V → Result (Unit {0}) × Store V
  unfolding update_job
  update_progress j current total =
      with_tenant_tx j.tenant_id (update_job j.tenant_id j.id (with_progress current total))
