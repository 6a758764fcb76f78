-- ===== src/Jobqueue/Tests.antt =====
-- Runs of the queue, and its theorems at concrete inputs.
use racetify_api.Base.{
  ℕ, ◌≤◌, pos, String, Bool, true, false, [], ◌∷◌, none, some, ◌≡◌, ◌≢◌, refl, arith, count_if,
  ◌==◌, All, any,
}
use racetify_api.Pagination.{
  Page, precedes, insert_row, order_by, select, page_of, list_page, normalize_limit,
}
use racetify_api.Pagination.CodePoints.{text_order}
use racetify_api.Tenant.{get_row, update_row}
use racetify_api.Jobqueue.{
  mark_completed, finish, Job, Store, new_job, insert, enqueue, dequeue, mark_processing,
  update_job, resolve, get_by_id_unscoped,
}
use racetify_api.Jobqueue.Reads.{list_jobs, passes}
use racetify_api.Jobqueue.Rows.{row, changed}
use racetify_api.Jobqueue.Dispatcher.{
  Handler, Dispatcher, register, dispatch, register-dispatch, is_for,
}
use racetify_api.Jobqueue.Runner.{Round, conclude, poll, run}
use racetify_api.Jobqueue.Outcomes.{ended, marked, poll-ended}
use racetify_api.Jobqueue.Draining.{IsDone, run-IsDrained}
use racetify_api.Jobqueue.Workers.{World, Step, Steps, enqueued, dequeued, began, here, next}
use racetify_api.Jobqueue.Workers.Counts.{IsMove}
use racetify_api.Jobqueue.Workers.Once.{Steps-once, Steps-IsMove}
use racetify_api.Jobqueue.Fifo.{IsPut, IsTake, waiting, queue-IsFifo}
use racetify_api.Jobqueue.Own.{list_jobs-IsOwn}

abbrev anything : ℕ → Bool
anything v = true

-- A handler that counts its payload as its result, and complains about an empty one.
abbrev import_job : Handler ℕ
import_job j s = (record { result = some j.payload; partial_err = ""; failure = none }, s)

abbrev bib_job : Handler ℕ
bib_job j s = (record { result = some j.payload; partial_err = "2 rows failed"; failure = none }, s)

abbrev handlers : Dispatcher ℕ
handlers = ("participants.import", import_job) ∷ ("generator.bib_batch", bib_job) ∷ []

abbrev first : Job ℕ
first = new_job "j1" "t1" "participants.import" 7 "u1" 100

abbrev second : Job ℕ
second = new_job "j2" "t2" "generator.bib_batch" 8 "u2" 110

abbrev third : Job ℕ
third = new_job "j3" "t1" "media.unknown" 9 "u1" 120

abbrev queue : Store ℕ
queue = record { jobs = first ∷ second ∷ third ∷ []; list = "j3" ∷ "j2" ∷ "j1" ∷ [] }

abbrev round : Round
round = record { reached = true; started = 200; finished = 300 }

-- A round that pops the first job.
abbrev one_done : Store ℕ
one_done = record {
  jobs =
      record first {
        status = "completed";
        result = some 7;
        started_at = some 200;
        finished_at = some 300;
      }
      ∷ second
      ∷ third
      ∷ [];
  list = "j3" ∷ "j2" ∷ [];
}

poll_test : poll anything handlers round queue ≡ one_done
unfolding poll dequeue mark_processing update_job dispatch conclude get_row update_row
    mark_completed finish
poll_test = refl

abbrev start_queue : Store ℕ
start_queue = marked anything handlers round queue ("j3" ∷ "j2" ∷ []) first

poll-ended_example :
    let finished : Job ℕ → Job ℕ = ended none (some 7) "" 300 in
    (poll anything handlers round queue ≡ changed "j1" finished start_queue)
    × (row "j1" (poll anything handlers round queue)
        ≡ some (finished (record first { status = "processing"; started_at = some 200 })))
unfolding dispatch
poll-ended_example =
    poll-ended anything handlers round queue ("j3" ∷ "j2" ∷ []) first
      (record { result = some 7; partial_err = ""; failure = none }) start_queue
      (record first { status = "processing"; started_at = some 200 }) refl refl refl refl refl refl
      refl refl

run-IsDrained_example :
    let s = run anything handlers (round ∷ round ∷ round ∷ []) queue in
    (s.list ≡ []) × All (IsDone s) ("j3" ∷ "j2" ∷ "j1" ∷ [])
run-IsDrained_example =
    run-IsDrained anything (λ v. refl) handlers
      (
        (λ j s. (refl, λ id a e. (a, e, refl, refl))),
        ((λ j s. (refl, λ id a e. (a, e, refl, refl))), tt),
      )
      (round ∷ round ∷ round ∷ []) queue (refl, (refl, (refl, tt))) (omega arith)
      ((third, refl, refl), ((second, refl, refl), ((first, refl, refl), tt)))

register-dispatch_example :
    let d' = ("media.unknown", import_job) ∷ handlers in
    (any (is_for "media.unknown") handlers ≡ false)
    × (◌≡◌ {A = String} "media.unknown" "media.unknown"
        → dispatch d' third queue ≡ import_job third queue)
    × (◌≢◌ {A = String} "media.unknown" "media.unknown"
        → dispatch d' third queue ≡ dispatch handlers third queue)
unfolding register
register-dispatch_example =
    register-dispatch "media.unknown" import_job handlers (("media.unknown", import_job) ∷ handlers)
      third queue refl

abbrev idle : World ℕ
idle = record { store = record { jobs = []; list = [] }; popped = []; busy = []; started = [] }

abbrev with_job : World ℕ
with_job = record idle { store = record { jobs = first ∷ []; list = "j1" ∷ [] } }

abbrev with_popped : World ℕ
with_popped = record idle { store = record { jobs = first ∷ []; list = [] }; popped = first ∷ [] }

abbrev with_busy : World ℕ
with_busy = record {
  store = record {
    jobs = record first { status = "processing"; started_at = some 200 } ∷ [];
    list = [];
  };
  popped = [];
  busy = first ∷ [];
  started = "j1" ∷ [];
}

enqueued-Step : Step anything idle with_job
unfolding enqueue insert
enqueued-Step = enqueued idle true "j1" 100 "t1" "u1" "participants.import" 7

dequeued-Step : Step anything with_job with_popped
unfolding dequeue get_row
dequeued-Step = dequeued with_job true first (record { jobs = first ∷ []; list = [] }) refl

began-Step : Step anything with_popped with_busy
unfolding mark_processing update_job update_row
began-Step =
    began with_popped [] [] first 200
      (record {
        jobs = record first { status = "processing"; started_at = some 200 } ∷ [];
        list = [];
      })
      refl refl

to_popped : Steps anything idle with_popped
to_popped =
    next idle with_job with_popped (next idle idle with_job (here idle) enqueued-Step) dequeued-Step

Steps-once_example : count_if (λ y. y == "j1") ("j1" ∷ []) ≤ 1
Steps-once_example =
    Steps-once anything idle with_busy "j1" (next idle with_popped with_busy to_popped began-Step)
      (refl, refl, refl, refl)

Steps-IsMove_example : IsMove (some "queued") (some "processing")
Steps-IsMove_example =
    Steps-IsMove anything idle with_popped with_busy "j1" to_popped (refl, refl, refl, refl)
      began-Step

queue-IsFifo_example :
    let put = enqueue anything true "j4" 130 "t1" "u1" "participants.import" 3 queue in
    let take = dequeue true queue in
    IsPut "j4" (waiting queue) put.0 (waiting put.1)
    × IsTake true
        (λ x. resolve (get_by_id_unscoped x queue))
        (waiting queue)
        take.0
        (waiting take.1)
queue-IsFifo_example =
    queue-IsFifo anything true "j4" 130 "t1" "u1" "participants.import" 3 true queue

abbrev listed_page : Page (Job ℕ)
listed_page = record { items = third ∷ first ∷ []; next_cursor = none }

list_jobs-IsOwn_example :
    All
      (λ j.
        (j.tenant_id ≡ "t1")
        × (passes none j.job_type ≡ true)
        × (passes (some "queued") j.status ≡ true))
      (third ∷ first ∷ [])
    × (2 ≤ 100)
    × (queue ≡ queue)
unfolding list_jobs list_page page_of select order_by insert_row precedes normalize_limit
list_jobs-IsOwn_example =
    list_jobs-IsOwn text_order "t1" (pos 0) none none (some "queued") queue listed_page queue refl
