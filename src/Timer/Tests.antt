-- ===== src/Timer/Tests.antt =====
-- A round of the timer, in which the metering job changes its interval.
use ubuntu_advantage_client.Base.{ℕ, ◌≡◌, refl, true, false, none, some, [], ◌∷◌}
use ubuntu_advantage_client.Exception.{ok, err, other_error}
use ubuntu_advantage_client.Timer.{
  TimedJob, TimerConfig, run_jobs, metering_interval, update_status_interval,
}
use ubuntu_advantage_client.Timer.Schedule.{Kept, run_jobs-Kept}

-- The state is the interval that the server asks for, which the job of the metering sets.
abbrev metering : TimedJob ℕ
metering = record {
  name = "metering";
  job_func = λ n. (ok true, 20000);
  default_interval_seconds = metering_interval;
  is_metering = true;
}

abbrev raising : TimedJob ℕ
raising = record {
  name = "update_status";
  job_func = λ n. (err (other_error "UrlError"), n);
  default_interval_seconds = update_status_interval;
  is_metering = false;
}

abbrev config_of : ℕ → TimerConfig
config_of n = record { timer = λ name. none; activity_ping_interval = some n }

after_round :
    run_jobs config_of 100 (raising ∷ metering ∷ metering ∷ []) ([], 5)
    ≡ (("metering", record { last_run = 100; next_run = 20100 }) ∷ [], 20000)
unfolding run_jobs
after_round = refl

run_jobs-Kept_example :
    Kept config_of 100
      (raising ∷ metering ∷ [])
      "metering"
      ([], 5)
      (run_jobs config_of 100 (raising ∷ metering ∷ []) ([], 5)).0
run_jobs-Kept_example = run_jobs-Kept config_of 100 (raising ∷ metering ∷ []) ([], 5) "metering"
