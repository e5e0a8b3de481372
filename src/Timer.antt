-- ===== src/Timer.antt =====
-- The timer's jobs (lib/timer.py): `TimedJob`, `MeteringTimedJob` and `run_jobs`. Times are in
-- seconds. `H` is the state that the jobs work on.
pub mod Schedule
mod Tests
use ubuntu_advantage_client.Base.{
  ℕ, ◌+◌, String, Bool, true, false, Option, none, some, List, [], ◌∷◌, ◌===◌, ◌==◌, ltb,
  if◌then◌else◌, not, max,
}
use ubuntu_advantage_client.Base.Int.{ℤ, pos, negsuc}
use ubuntu_advantage_client.Exception.{Result, ok, err}
use ubuntu_advantage_client.Json.{Value, bool, int}

abbrev pub update_messaging_interval : ℕ
update_messaging_interval = 21600

abbrev pub update_status_interval : ℕ
update_status_interval = 43200

abbrev pub metering_interval : ℕ
metering_interval = 14400

abbrev pub eol_status_interval : ℕ
eol_status_interval = 604800

-- A job: `MeteringTimedJob` is one with `is_metering`. `job_func` may raise.
pub record TimedJob (H : Type 0) : Type 0 where
  pub name : String
  pub job_func : H → Result Bool × H
  pub default_interval_seconds : ℕ
  pub is_metering : Bool

-- What the timer reads of the configuration: `cfg.{name}_timer`, `none` where it is not set, and
-- the interval that the contract server asks for. The jobs may change it: it is read anew from the
-- state at each use.
pub record TimerConfig : Type 0 where
  pub timer : String → Option Value
  pub activity_ping_interval : Option ℕ

-- The configured value: a Boolean is an int, and a negative int is refused.
abbrev pub interval_of : ℕ → Option Value → ℕ
interval_of default none = default
interval_of default (some v) = elim v [
  | int n ↦ elim n [ pos k ↦ k | negsuc _ ↦ default ]
  | bool b ↦ if b then 1 else 0
  | _ ↦ default
]

-- `activity_ping_interval or 0`
abbrev pub ping_or_zero : Option ℕ → ℕ
ping_or_zero none = 0
ping_or_zero (some n) = n

-- an entry of jobs-status
pub record JobStatus : Type 0 where
  pub last_run : ℕ
  pub next_run : ℕ

abbrev pub JobsStatus : Type 0
JobsStatus = List (String × JobStatus)

unfoldable pub status_of : String → JobsStatus → Option JobStatus
status_of name [] = none
status_of name ((n, s) ∷ rest) = if n === name then some s else status_of name rest

unfoldable pub put_status : String → JobStatus → JobsStatus → JobsStatus
put_status name s [] = (name, s) ∷ []
put_status name s ((n, t) ∷ rest) =
    if n === name then (n, s) ∷ rest else (n, t) ∷ put_status name s rest

-- `job.name in jobs_status` and its next run lies ahead
unfoldable pub is_early : ℕ → Option JobStatus → Bool
is_early now none = false
is_early now (some s) = ltb now s.next_run

-- of `TimedJob`, and the greater of the two for `MeteringTimedJob`
unfoldable pub run_interval_seconds : {H : Type 0} → TimerConfig → TimedJob H → ℕ
run_interval_seconds cfg job =
    let configured = interval_of job.default_interval_seconds (cfg.timer job.name) in
    if job.is_metering then max (ping_or_zero cfg.activity_ping_interval) configured else configured

unfoldable pub should_run : {H : Type 0} → TimerConfig → TimedJob H → Bool
unfolding run_interval_seconds
should_run cfg job = not (run_interval_seconds cfg job == 0)

module _ {H : Type 0} (config_of : H → TimerConfig) where
  -- the `try` of `run`: what the function returns does not count
  abbrev pub attempted : Result Bool × H → Bool × H
  attempted (ok _, h) = (true, h)
  attempted (err _, h) = (false, h)

  unfoldable pub run : TimedJob H → H → Bool × H
  unfolding should_run
  run job h = if should_run (config_of h) job then attempted (job.job_func h) else (false, h)

  -- what is recorded of a job, by the configuration that it leaves
  abbrev pub recorded : ℕ → TimedJob H → JobsStatus → Bool × H → JobsStatus × H
  recorded now job jobs (done, h) = (
    if done
        then put_status job.name
            (record { last_run = now; next_run = now + run_interval_seconds (config_of h) job })
            jobs
        else jobs,
    h,
  )

  -- one round of the loop of `run_jobs`
  unfoldable pub run_job : ℕ → TimedJob H → JobsStatus × H → JobsStatus × H
  unfolding is_early run put_status status_of
  run_job now job (jobs, h) =
      if is_early now (status_of job.name jobs)
      then (jobs, h)
      else recorded now job jobs (run job h)

  -- `run_jobs`, from the status that was read to the one that is written
  unfoldable pub run_jobs : ℕ → List (TimedJob H) → JobsStatus × H → JobsStatus × H
  unfolding run_job
  run_jobs now [] s = s
  run_jobs now (job ∷ jobs) s = run_jobs now jobs (run_job now job s)
