-- ===== src/Jobqueue/Runner.antt =====
-- internal/jobqueue/runner.go: the poll loop of a worker.
use racetify_api.Base.{ℕ, String, Bool, List, [], ◌∷◌, Option, none, some, ◌==◌, if◌then◌else◌}
use racetify_api.Domain.{Result, ok, err}
use racetify_api.Jobqueue.{
  Job, Store, Dequeued, empty, taken, lost, dequeue, mark_processing, mark_completed,
  mark_completed_with_errors, mark_failed,
}
use racetify_api.Jobqueue.Dispatcher.{Outcome, Dispatcher, dispatch}

-- One round of the loop: whether Redis answers, and the times at which a job is marked.
pub record Round : Type 0 where
  pub reached : Bool
  pub started : ℕ
  pub finished : ℕ

module _ {V : Type 0} (encodes : V → Bool) where
  abbrev pub mark_outcome :
      Job V → Option String → Option V → String → ℕ → Store V → Result (Unit {0}) × Store V
  mark_outcome j (some message) result partial_err now = mark_failed encodes j message now
  mark_outcome j none result partial_err now =
      if partial_err == ""
      then mark_completed encodes j result now
      else mark_completed_with_errors encodes j result partial_err now

  -- The switch on what the handler returned. A mark that fails is only logged.
  unfoldable pub conclude : Job V → Outcome V → ℕ → Store V → Store V
  conclude j outcome now s =
      (mark_outcome j outcome.failure outcome.result outcome.partial_err now s).1

  abbrev pub handle : Dispatcher V → Job V → ℕ → Result (Unit {0}) × Store V → Store V
  handle d j now (err e, s) = s
  handle d j now (ok _, s) = let (outcome, s') = dispatch d j s in conclude j outcome now s'

  abbrev pub process : Dispatcher V → Round → Dequeued V × Store V → Store V
  process d round (empty, s) = s
  process d round (lost, s) = s
  process d round (taken j, s) = handle d j round.finished (mark_processing j round.started s)

  unfoldable pub poll : Dispatcher V → Round → Store V → Store V
  unfolding conclude
  poll d round s = process d round (dequeue round.reached s)

  -- Run, until the context is cancelled.
  unfoldable pub run : Dispatcher V → List Round → Store V → Store V
  unfolding poll
  run d [] s = s
  run d (round ∷ rounds) s = run d rounds (poll d round s)
