-- ===== src/Jobqueue/Workers.antt =====
-- internal/jobqueue: the API and any number of workers, as steps in any order.
--
-- A worker holds the job that it popped until it has marked it as being processed, and then until
-- it records the outcome of its handler; it may die at any time. `started` lists the ids whose
-- handlers were called. What a handler does to the queue is steps of the API's operations.
pub mod Listing
pub mod Effects
pub mod Counts
pub mod Once
use racetify_api.Base.{ℕ, ℤ, String, Bool, List, ◌∷◌, ◌++◌, ◌≡◌, Option}
use racetify_api.Domain.{Error, Result, ok, err}
use racetify_api.Jobqueue.{
  Job, Store, Dequeued, empty, taken, lost, enqueue, dequeue, mark_processing, update_progress,
}
use racetify_api.Jobqueue.Dispatcher.{Outcome}
use racetify_api.Jobqueue.Runner.{conclude}

pub record World (V : Type 0) : Type 0 where
  pub store : Store V
  pub popped : List (Job V)
  pub busy : List (Job V)
  pub started : List String

module _ {V : Type 0} (encodes : V → Bool) where
  pub data Step : World V → World V → Type 0 where
    -- Enqueue, which may fail in each of its parts.
    enqueued :
        (w : World V) (reached : Bool) (id : String) (now : ℕ) (tenant_id actor job_type : String)
        (payload : V)
        → Step w (record w {
          store = (enqueue encodes reached id now tenant_id actor job_type payload w.store).1;
        })
    -- Dequeue, by some worker.
    dequeued :
        (w : World V) (reached : Bool) (j : Job V) (s : Store V)
        → dequeue reached w.store ≡ (taken j, s)
        → Step w (record w { store = s; popped = j ∷ w.popped })
    dequeued_nothing :
        (w : World V) (reached : Bool) → Step w (record w { store = (dequeue reached w.store).1 })
    -- MarkProcessing of a popped job, and its handler is called.
    began :
        (w : World V) (before after : List (Job V)) (j : Job V) (now : ℕ) (s : Store V)
        → w.popped ≡ before ++ (j ∷ after)
        → mark_processing j now w.store ≡ (ok tt, s)
        → Step w (record w {
          store = s;
          popped = before ++ after;
          busy = j ∷ w.busy;
          started = j.id ∷ w.started;
        })
    -- The worker is gone, or the mark failed.
    dropped :
        (w : World V) (before after : List (Job V)) (j : Job V)
        → w.popped ≡ before ++ (j ∷ after)
        → Step w (record w { popped = before ++ after })
    -- UpdateProgress.
    progressed :
        (w : World V) (j : Job V) (current total : ℤ)
        → Step w (record w { store = (update_progress j current total w.store).1 })
    -- The handler has returned, and its outcome is recorded.
    concluded :
        (w : World V) (before after : List (Job V)) (j : Job V) (outcome : Outcome V) (now : ℕ)
        → w.busy ≡ before ++ (j ∷ after)
        → Step w
            (record w { store = conclude encodes j outcome now w.store; busy = before ++ after })
    died :
        (w : World V) (before after : List (Job V)) (j : Job V)
        → w.busy ≡ before ++ (j ∷ after)
        → Step w (record w { busy = before ++ after })

  pub data Steps : World V → World V → Type 0 where
    here : (w : World V) → Steps w w
    next : (u v w : World V) → Steps u v → Step v w → Steps u w
