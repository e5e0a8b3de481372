-- ===== src/Timer/Schedule.antt =====
-- What a round of the timer's jobs does to the schedule.
use mathlib.Core.Path.{subst}
use ubuntu_advantage_client.Base.{
  ℕ, ◌+◌, ◌<◌, String, ◌≡◌, refl, sym, ap, Bool, true, false, some, List, [], ◌∷◌, ◌===◌, eq_iff,
  if◌then◌else◌, Bool-cases, ◌⊎◌, inl, inr, arith,
}
use ubuntu_advantage_client.Timer.{
  TimedJob, TimerConfig, JobStatus, JobsStatus, status_of, put_status, is_early,
  run_interval_seconds, should_run, run, recorded, run_job, run_jobs,
}

pub status_of-put_status :
    (name other : String) (s : JobStatus) (jobs : JobsStatus)
    → status_of other (put_status name s jobs)
      ≡ (if name === other then some s else status_of other jobs)
unfolding status_of put_status
status_of-put_status name other s [] = ground arith
status_of-put_status name other s ((n, t) ∷ jobs) = ground (
  arith,
  status_of-put_status name other s jobs,
  eq_iff n name,
  eq_iff n other,
  eq_iff name other,
)

module _ {H : Type 0} (config_of : H → TimerConfig) where
  -- the round comes to this job with the state `h`
  abbrev pub Reached : ℕ → List (TimedJob H) → JobsStatus × H → TimedJob H → H → Type 0
  Reached now [] s job h = ⊥
  Reached now (j ∷ jobs) s job h =
      ((job ≡ j) × (h ≡ s.1)) ⊎ Reached now jobs (run_job config_of now j s) job h

  -- What one round may do to the status of `name`: nothing, or a job of that name that was due and
  -- was not disabled where the round came to it has run, and is due again after the interval that it
  -- has by the configuration that it left.
  abbrev pub Kept : ℕ → List (TimedJob H) → String → JobsStatus × H → JobsStatus → Type 0
  Kept now jobs name s after =
      (status_of name after ≡ status_of name s.0)
      ⊎ ((job : TimedJob H) × (h : H) × (h' : H) × Reached now jobs s job h
          × (job.name ≡ name)
          × (is_early now (status_of name s.0) ≡ false)
          × (0 < run_interval_seconds (config_of h) job)
          × (run config_of job h ≡ (true, h'))
          × (status_of name after
              ≡ some (record {
                last_run = now;
                next_run = now + run_interval_seconds (config_of h') job;
              })))

  run-interval :
      (job : TimedJob H) (h : H)
      → (run config_of job h).0 ≡ true
      → 0 < run_interval_seconds (config_of h) job
  unfolding run should_run
  run-interval job h r = ground arith

  run_job-early :
      (now : ℕ) (job : TimedJob H) (s : JobsStatus × H)
      → is_early now (status_of job.name s.0) ≡ true
      → run_job config_of now job s ≡ s
  unfolding run_job
  run_job-early now job s early = rw early refl

  run_job-due :
      (now : ℕ) (job : TimedJob H) (s : JobsStatus × H)
      → is_early now (status_of job.name s.0) ≡ false
      → run_job config_of now job s ≡ recorded config_of now job s.0 (run config_of job s.1)
  unfolding run_job
  run_job-due now job s due = rw due refl

  -- where the job was due, by what its run says
  recorded-Kept :
      (now : ℕ) (job : TimedJob H) (s : JobsStatus × H) (name : String) (r : Bool × H)
      → is_early now (status_of job.name s.0) ≡ false
      → run config_of job s.1 ≡ r
      → Kept now (job ∷ []) name s (recorded config_of now job s.0 r).0
  recorded-Kept now job s name (false, h) due ran = inl refl
  recorded-Kept now job s name (true, h) due ran = elim (Bool-cases (job.name === name)) [
    | inr other ↦ inl (rw (status_of-put_status, other) refl)
    | inl same ↦ inr (
      job,
      s.1,
      h,
      inl (refl, refl),
      (eq_iff _ _).0 same,
      rw (← (eq_iff _ _).0 same) due,
      run-interval job s.1 (ap (λ t. t.0) ran),
      ran,
      rw (status_of-put_status, same) refl,
    )
  ]

  run_job-Kept :
      (now : ℕ) (job : TimedJob H) (s : JobsStatus × H) (name : String)
      → Kept now (job ∷ []) name s (run_job config_of now job s).0
  run_job-Kept now job s name = elim (Bool-cases (is_early now (status_of job.name s.0))) [
    | inl early ↦ inl (ap (λ t. status_of name t.0) (run_job-early now job s early))
    | inr due ↦
        subst (λ t. Kept now (job ∷ []) name s t.0) (sym (run_job-due now job s due))
          (recorded-Kept now job s name (run config_of job s.1) due refl)
  ]

  Reached-first :
      (now : ℕ) (j job : TimedJob H) (jobs : List (TimedJob H)) (s : JobsStatus × H) (h : H)
      → Reached now (job ∷ []) s j h
      → Reached now (job ∷ jobs) s j h
  Reached-first now j job jobs s h (inl same) = inl same
  Reached-first now j job jobs s h (inr none_left) = elim none_left [ ]

  Kept-trans :
      (now : ℕ) (job : TimedJob H) (jobs : List (TimedJob H)) (name : String) (s : JobsStatus × H)
      (c : JobsStatus)
      → Kept now (job ∷ []) name s (run_job config_of now job s).0
      → Kept now jobs name (run_job config_of now job s) c
      → Kept now (job ∷ jobs) name s c
  Kept-trans now job jobs name s c (inl p) (inl q) = inl (cc)
  Kept-trans now job jobs name s c (inl p) (inr (j, h, h', i, n, d, w, r, q)) =
      inr (j, h, h', inr i, n, cc, w, r, q)
  Kept-trans now job jobs name s c (inr (j, h, h', i, n, d, w, r, p)) (inl q) =
      inr (j, h, h', Reached-first now j job jobs s h i, n, d, w, r, cc)
  Kept-trans now job jobs name s c (inr (_, _, _, _, _, d, _, _, _))
        (inr (k, h, h', i, n, e, w, r, q)) =
      inr (k, h, h', inr i, n, d, w, r, q)

  -- A round of `run_jobs` changes the status of a name only where a job of that name was due and had
  -- an interval other than 0 when the round came to it; then it has run now and is due again after
  -- its interval, by the configuration that it has left.
  pub run_jobs-Kept :
      (now : ℕ) (jobs : List (TimedJob H)) (s : JobsStatus × H) (name : String)
      → Kept now jobs name s (run_jobs config_of now jobs s).0
  unfolding run_jobs
  run_jobs-Kept now [] s name = inl refl
  run_jobs-Kept now (job ∷ jobs) s name =
      Kept-trans now job jobs name s _ (run_job-Kept now job s name)
        (run_jobs-Kept now jobs (run_job config_of now job s) name)
