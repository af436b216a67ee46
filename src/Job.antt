-- ===== src/Job.antt =====
-- The background job queue with its dead letters:
-- backend/src/tmis/runtime_platform/async_processing (schemas.py, store.py and engine.py).
pub mod Lifecycle
pub mod Queue
mod Samples
use tmis.Prelude.{
  ℕ, ◌+◌, ◌*◌, ◌^◌, String, Bool, true, false, ◌&&◌, Option, none, some, List, [], ◌∷◌, ltb, leb,
  if◌then◌else◌, ◌==◌, nat_eq, string_eq, key_eq, keep,
}
use tmis.Prelude.Dict.{Dict, get, put, values}
use tmis.Prelude.Sort.{sort}
use tmis.Prelude.Python.{key_error, Result, ok, raise}
use tmis.Prelude.Int.{ℤ, leb_ℤ}

pub data AsyncJobStatus : Type 0 where
  scheduled pending running done retrying failed dead_lettered cancelled timed_out : AsyncJobStatus

-- Times and delays are in milliseconds.
pub record AsyncJob : Type 0 where
  pub id : String
  pub queue_name : String
  pub priority : ℤ
  pub status : AsyncJobStatus
  pub attempts : ℕ
  pub max_attempts : ℕ
  pub timeout : ℕ
  pub run_at : Option ℕ
  pub created_at : ℕ
  pub started_at : Option ℕ
  pub completed_at : Option ℕ
  pub error : Option String
  pub dead_letter_reason : Option String

-- `InMemoryAsyncJobStore`
abbrev pub JobStore : Type 0
JobStore = Dict String AsyncJob

unfoldable pub save : JobStore → AsyncJob → JobStore
save store job = put store job.id job

-- A positive delay schedules the job.
unfoldable pub enqueue : JobStore → AsyncJob → (delay now : ℕ) → AsyncJob × JobStore
unfolding save
enqueue store job delay now =
    let job' =
      if ltb 0 delay then record job { status = scheduled; run_at = some (now + delay) } else job in
    (job', save store job')

unfoldable pub is_ready : ℕ → AsyncJob → Bool
is_ready now job = elim job.status [
  | pending ↦ true
  | retrying ↦ true
  | scheduled ↦ elim job.run_at [ none ↦ false | some t ↦ leb t now ]
  | _ ↦ false
]

-- The order of the key `(-job.priority, job.created_at)`.
unfoldable pub comes_first : AsyncJob → AsyncJob → Bool
comes_first a b =
    if leb_ℤ a.priority b.priority
    then leb_ℤ b.priority a.priority && leb a.created_at b.created_at
    else true

-- The head of the sorted candidates.
unfoldable pub dequeue_ready : JobStore → ℕ → Option AsyncJob
unfolding is_ready comes_first
dequeue_ready store now = elim (sort comes_first (keep (is_ready now) (values store))) [
  | [] ↦ none
  | job ∷ _ ↦ some job
]

unfoldable pub require : JobStore → String → Result AsyncJob
require store job_id = elim (get store job_id) [
  | none ↦ raise (key_error job_id)
  | some job ↦ ok job
]

-- A method that requires the job, changes it, and saves it.
unfoldable pub update : (AsyncJob → AsyncJob) → JobStore → String → Result AsyncJob × JobStore
unfolding require save
update change store job_id = elim (require store job_id) [
  | raise exc ↦ (raise exc, store)
  | ok job ↦ (ok (change job), save store (change job))
]

unfoldable pub to_running : ℕ → AsyncJob → AsyncJob
to_running now job = record job {
  status = running;
  attempts = job.attempts + 1;
  started_at = some now;
}

unfoldable pub mark_running : ℕ → JobStore → String → Result AsyncJob × JobStore
unfolding update to_running
mark_running now = update (to_running now)

unfoldable pub to_done : ℕ → AsyncJob → AsyncJob
to_done now job = record job { status = done; completed_at = some now }

unfoldable pub mark_done : ℕ → JobStore → String → Result AsyncJob × JobStore
unfolding update to_done
mark_done now = update (to_done now)

-- Exponential backoff below `max_attempts`, and the dead letter queue from there on.
unfoldable pub to_failed : ℕ → ℕ → String → AsyncJob → AsyncJob
to_failed base_delay now error job =
    if ltb job.attempts job.max_attempts
    then record job {
      error = some error;
      status = retrying;
      run_at = some (now + base_delay * 2 ^ job.attempts);
    }
    else record job {
      error = some error;
      status = dead_lettered;
      dead_letter_reason = some error;
      completed_at = some now;
    }

unfoldable pub mark_failed : ℕ → ℕ → String → JobStore → String → Result AsyncJob × JobStore
unfolding update to_failed
mark_failed base_delay now error = update (to_failed base_delay now error)

unfoldable pub to_cancelled : ℕ → AsyncJob → AsyncJob
to_cancelled now job = record job { status = cancelled; completed_at = some now }

unfoldable pub cancel : ℕ → JobStore → String → Result AsyncJob × JobStore
unfolding update to_cancelled
cancel now = update (to_cancelled now)

-- Whether the job has run longer than its timeout.
unfoldable pub has_timed_out : ℕ → AsyncJob → Bool
has_timed_out now job = elim job.status [
  | running ↦ elim job.started_at [ none ↦ false | some t ↦ ltb (t + job.timeout) now ]
  | _ ↦ false
]

-- A job that a timeout sends to the dead letters says so.
unfoldable pub note_timeout : AsyncJob → AsyncJob
note_timeout job = elim job.status [
  | dead_lettered ↦ record job { dead_letter_reason = some "timeout" }
  | _ ↦ job
]

-- What a timeout makes of a job; `message` is the text of its timeout.
unfoldable pub to_timed_out : ℕ → ℕ → (ℕ → String) → AsyncJob → AsyncJob
unfolding to_failed note_timeout
to_timed_out base_delay now message job =
    note_timeout (to_failed base_delay now (message job.timeout) job)

-- The loop of `check_timeouts` over the jobs that the store had when it began, where `now` is the
-- method's argument and `clock` the time that `mark_failed` reads. The store holds the objects that
-- the loop changes.
unfoldable pub check_timeouts_loop :
    (base_delay now clock : ℕ) → (ℕ → String) → List AsyncJob → JobStore → List AsyncJob × JobStore
unfolding has_timed_out to_timed_out save
check_timeouts_loop base_delay now clock message [] store = ([], store)
check_timeouts_loop base_delay now clock message (job ∷ jobs) store =
    let late = to_timed_out base_delay clock message job in
    let after_late = check_timeouts_loop base_delay now clock message jobs (save store late) in
    let after_none = check_timeouts_loop base_delay now clock message jobs store in
    if has_timed_out now job then (late ∷ after_late.0, after_late.1) else after_none

unfoldable pub check_timeouts :
    (base_delay now clock : ℕ) → (ℕ → String) → JobStore → List AsyncJob × JobStore
unfolding check_timeouts_loop
check_timeouts base_delay now clock message store =
    check_timeouts_loop base_delay now clock message (values store) store

abbrev pub is_dead : AsyncJob → Bool
is_dead job = elim job.status [ dead_lettered ↦ true | _ ↦ false ]

unfoldable pub dead_letters : JobStore → Option String → List AsyncJob
dead_letters store queue_name =
    let jobs = keep is_dead (values store) in
    elim queue_name [ none ↦ jobs | some queue ↦ keep (λ j. j.queue_name == queue) jobs ]
