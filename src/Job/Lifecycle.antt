-- ===== src/Job/Lifecycle.antt =====
-- The life of one job under the protocol of a worker: it runs a job that is ready, and reports how
-- the run ended.
use tmis.Prelude.{
  ℕ, ◌+◌, ◌*◌, ◌^◌, ◌≤◌, ◌<◌, String, ◌≡◌, refl, ◌∙◌, subst, inl, inr, Bool, true, false, Option,
  none, some, arith, ltb, leb, Bool-cases,
}
use tmis.Job.{
  AsyncJobStatus, scheduled, pending, running, retrying, dead_lettered, AsyncJob, is_ready,
  to_running, to_done, to_failed, to_cancelled, has_timed_out, note_timeout, to_timed_out,
}

abbrev is_running : AsyncJob → Bool
is_running job = elim job.status [ running ↦ true | _ ↦ false ]

-- A worker takes a ready job, reports a running one as done or failed, and anybody may cancel.
pub data Step (job : AsyncJob) : AsyncJob → Type 0 where
  run : (now : ℕ) → is_ready now job ≡ true → Step job (to_running now job)
  finish : (now : ℕ) → is_running job ≡ true → Step job (to_done now job)
  fail :
      (base_delay now : ℕ) (error : String)
      → is_running job ≡ true
      → Step job (to_failed base_delay now error job)
  expire :
      (base_delay now clock : ℕ) (message : ℕ → String)
      → has_timed_out now job ≡ true
      → Step job (to_timed_out base_delay clock message job)
  abandon : (now : ℕ) → Step job (to_cancelled now job)

pub data Reach (job : AsyncJob) : AsyncJob → Type 0 where
  here : Reach job job
  next : {j k : AsyncJob} → Reach job j → Step j k → Reach job k

-- How often the worker ran the job on the way.
abbrev pub runs : {j k : AsyncJob} → Reach j k → ℕ
runs here = 0
runs (next path (run now ready)) = runs path + 1
runs (next path _) = runs path

-- A job that a worker may still run has attempts left, and a dead one has none.
abbrev pub Budget : AsyncJobStatus → ℕ → ℕ → Type 0
Budget pending attempts limit = attempts < limit
Budget scheduled attempts limit = attempts < limit
Budget retrying attempts limit = attempts < limit
Budget dead_lettered attempts limit = attempts ≡ limit
Budget _ attempts limit = attempts ≤ limit

abbrev pub IsWithin : AsyncJob → Type 0
IsWithin job = (job.attempts ≤ job.max_attempts) × Budget job.status job.attempts job.max_attempts

ready-Budget :
    (s : AsyncJobStatus) (run_at : Option ℕ) (now attempts limit : ℕ)
    → (elim s [
      | pending ↦ true
      | retrying ↦ true
      | scheduled ↦ elim run_at [ none ↦ false | some t ↦ leb t now ]
      | _ ↦ false
    ])
      ≡ true
    → Budget s attempts limit
    → attempts < limit
ready-Budget pending r n a l h b = b
ready-Budget retrying r n a l h b = b
ready-Budget scheduled r n a l h b = b
ready-Budget _ r n a l h b = absurd (cc)

to_failed-IsWithin :
    (base_delay now : ℕ) (error : String) (j : AsyncJob)
    → IsWithin j
    → IsWithin (to_failed base_delay now error j)
unfolding to_failed
to_failed-IsWithin b now error j h = elim (Bool-cases (ltb j.attempts j.max_attempts)) [
  | inl room ↦ rw (room, to_failed) (h.0, ground arith)
  | inr out ↦ rw (out, to_failed) (h.0, ground arith)
]

note_timeout_fields :
    (j : AsyncJob)
    → ((note_timeout j).attempts ≡ j.attempts)
      × ((note_timeout j).max_attempts ≡ j.max_attempts)
      × ((note_timeout j).status ≡ j.status)
unfolding note_timeout
note_timeout_fields j = (ground arith, ground arith, ground arith)

to_timed_out_lem :
    (base_delay now : ℕ) (message : ℕ → String) (j : AsyncJob)
    → to_timed_out base_delay now message j
      ≡ note_timeout (to_failed base_delay now (message j.timeout) j)
unfolding to_timed_out
to_timed_out_lem b now message j = refl

to_timed_out-IsWithin :
    (base_delay now : ℕ) (message : ℕ → String) (j : AsyncJob)
    → IsWithin j
    → IsWithin (to_timed_out base_delay now message j)
to_timed_out-IsWithin b now message j h =
    let failed_one = to_failed b now (message j.timeout) j in
    rw to_timed_out_lem (
      rw
        (
          (note_timeout_fields failed_one).0,
          (note_timeout_fields failed_one).1,
          (note_timeout_fields failed_one).2,
        )
        (to_failed-IsWithin b now (message j.timeout) j h))

Step-IsWithin : {j k : AsyncJob} → Step j k → IsWithin j → IsWithin k
unfolding to_running to_done to_cancelled is_ready
Step-IsWithin {j} (run now ready) h =
    let left = ready-Budget j.status j.run_at now j.attempts j.max_attempts ready h.1 in
    (omega arith, omega arith)
Step-IsWithin (finish now busy) h = (h.0, h.0)
Step-IsWithin {j} (fail b now error busy) h = to_failed-IsWithin b now error j h
Step-IsWithin {j} (expire b now clock message late) h = to_timed_out-IsWithin b clock message j h
Step-IsWithin (abandon now) h = (h.0, h.0)

to_failed_counts :
    (base_delay now : ℕ) (error : String) (j : AsyncJob)
    → ((to_failed base_delay now error j).attempts ≡ j.attempts)
      × ((to_failed base_delay now error j).max_attempts ≡ j.max_attempts)
unfolding to_failed
to_failed_counts b now error j = (ground arith, ground arith)

-- The job's counter is the number of its runs, and its limit stays.
abbrev Counted : AsyncJob → AsyncJob → ℕ → Type 0
Counted j k n = (k.attempts ≡ j.attempts + n) × (k.max_attempts ≡ j.max_attempts)

Reach-Counted : {j k : AsyncJob} (path : Reach j k) → Counted j k (runs path)
unfolding to_running to_done to_cancelled
Reach-Counted here = (omega arith, refl)
Reach-Counted {j} (next path (run now ready)) =
    let h = Reach-Counted path in (omega (arith, h.0), h.1)
Reach-Counted (next path (finish now busy)) = Reach-Counted path
Reach-Counted (next {j = k'} path (fail b now error busy)) =
    let h = Reach-Counted path in
    let same = to_failed_counts b now error k' in (same.0 ∙ h.0, same.1 ∙ h.1)
Reach-Counted (next {j = k'} path (expire b now clock message late)) =
    let h = Reach-Counted path in
    let same = to_failed_counts b clock (message k'.timeout) k' in
    let noted = note_timeout_fields (to_failed b clock (message k'.timeout) k') in
    rw to_timed_out_lem (noted.0 ∙ same.0 ∙ h.0, noted.1 ∙ same.1 ∙ h.1)
Reach-Counted (next path (abandon now)) = Reach-Counted path

-- Under the protocol a job that starts within its budget stays within it. Its counter goes up by
-- the number of its runs on the way, its `max_attempts` stays, so that it is never run more often
-- than that in all, it has a run left whenever a worker may run it, and it is in the dead letter
-- queue only after exactly that many runs.
pub Reach-IsWithin :
    {j k : AsyncJob}
    → IsWithin j
    → (path : Reach j k)
    → (k.attempts ≡ j.attempts + runs path)
      × (k.max_attempts ≡ j.max_attempts)
      × (j.attempts + runs path ≤ j.max_attempts)
      × Budget k.status (j.attempts + runs path) j.max_attempts
Reach-IsWithin {j} {k} h path =
    let (counted, same_limit) = Reach-Counted path in
    let (below, budget) = Reach-Within h path in
    (
      counted,
      same_limit,
      omega arith,
      subst (λ n. Budget k.status n j.max_attempts) counted
          (subst (λ n. Budget k.status k.attempts n) same_limit budget),
    )
  where
    Reach-Within : {j k : AsyncJob} → IsWithin j → Reach j k → IsWithin k
    Reach-Within h here = h
    Reach-Within h (next path step) = Step-IsWithin step (Reach-Within h path)

-- A failed job that has attempts left can be dequeued at any time at all, also before the end of
-- the delay that `mark_failed` sets in `run_at`.
pub to_failed-is_ready :
    (base_delay now : ℕ) (error : String) (job : AsyncJob) (t : ℕ)
    → job.attempts < job.max_attempts
    → (is_ready t (to_failed base_delay now error job) ≡ true)
      × ((to_failed base_delay now error job).run_at ≡ some (now + base_delay * 2 ^ job.attempts))
unfolding to_failed is_ready
to_failed-is_ready b now error job t h = (ground arith, ground arith)
