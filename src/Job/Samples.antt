-- ===== src/Job/Samples.antt =====
-- The theorems on jobs at a job with two attempts.
use tmis.Prelude.{◌+◌, ◌≤◌, ◌≡◌, refl, true, none, some, [], ◌∷◌, arith}
use tmis.Prelude.Dict.{values}
use tmis.Prelude.Sort.{sort}
use tmis.Prelude.Int.{pos}
use tmis.Job.{pending, AsyncJob, JobStore, is_ready, dequeue_ready, to_running, to_failed}
use tmis.Job.Lifecycle.{
  run, fail, Reach, here, next, runs, Budget, Reach-IsWithin, to_failed-is_ready,
}
use tmis.Job.Queue.{Answers, dequeue_ready-Answers}

abbrev job_new : AsyncJob
job_new = record {
  id = "j1";
  queue_name = "mail";
  priority = pos 1;
  status = pending;
  attempts = 0;
  max_attempts = 2;
  timeout = 1000;
  run_at = none;
  created_at = 0;
  started_at = none;
  completed_at = none;
  error = none;
  dead_letter_reason = none;
}

abbrev job_run : AsyncJob
job_run = to_running 5 job_new

abbrev job_retry : AsyncJob
job_retry = to_failed 100 6 "no answer" job_run

one_failure : Reach job_new job_retry
unfolding is_ready to_running
one_failure = next (next here (run 5 refl)) (fail 100 6 "no answer" refl)

Reach-IsWithin_example :
    (job_retry.attempts ≡ 0 + runs one_failure)
    × (job_retry.max_attempts ≡ 2)
    × (0 + runs one_failure ≤ 2)
    × Budget job_retry.status (0 + runs one_failure) 2
Reach-IsWithin_example = Reach-IsWithin (omega arith, omega arith) one_failure

to_failed-is_ready_example :
    (is_ready 0 (to_failed 100 6 "no answer" job_new) ≡ true)
    × ((to_failed 100 6 "no answer" job_new).run_at ≡ some 106)
to_failed-is_ready_example = to_failed-is_ready 100 6 "no answer" job_new 0 (omega arith)

abbrev queue_two : JobStore
queue_two = ("j0", record job_new { id = "j0"; priority = pos 0 }) ∷ ("j1", job_new) ∷ []

dequeue_ready-j1 : dequeue_ready queue_two 0 ≡ some job_new
unfolding dequeue_ready sort values
dequeue_ready-j1 = refl

dequeue_ready-Answers_example : Answers queue_two 0 (dequeue_ready queue_two 0)
dequeue_ready-Answers_example = dequeue_ready-Answers queue_two 0
