-- ===== src/Lock/Tests.antt =====
-- Runs of the lock.
use ubuntu_advantage_client.Base.{
  ℕ, ◌≡◌, ◌≢◌, refl, Bool, true, false, none, some, [], arith, ◌==◌, ◌||◌,
}
use ubuntu_advantage_client.Base.Int.{pos, ltb_ℤ}
use ubuntu_advantage_client.Exception.{ok, err, recursion_error}
use ubuntu_advantage_client.Lock.{DataDir, Process, check_lock_info, spin_enter}
use ubuntu_advantage_client.Lock.World.{
  World, seen, after_check, after_write, checks, writes, Reach, at_start, after,
}
use ubuntu_advantage_client.Lock.Spin.{spin_enter-free, spin_enter-bounded}

-- the process 7 runs
abbrev running : ℕ → Bool
running pid = pid == 7

abbrev no_lock : DataDir
no_lock = record { lock_file = none; in_progress = [] }

abbrev held_by_7 : DataDir
held_by_7 = record {
  lock_file = some (record { pid = 7; lock_holder = "pro enable" });
  in_progress = [];
}

abbrev process : ℕ → DataDir → Process
process pid dir = record { pid = pid; is_root = true; clear_lock_file = false; dir = dir }

-- the process 7 lets go of the lock after the second attempt
abbrev released : ℕ → DataDir → DataDir
released tries dir = elim (tries == 1) [ true ↦ no_lock | false ↦ dir ]

spin_enter-free_example :
    (spin_enter (λ tries. running) released 3 "timer" (process 9 held_by_7)).0 ≡ ok tt
spin_enter-free_example =
    spin_enter-free (λ tries. running) released 3 2 "timer" (process 9 held_by_7) (omega arith) refl
      refl

spin_enter-bounded_example :
    (spin_enter (λ tries. running) released 3 "timer" (process 9 held_by_7)).0 ≢ err recursion_error
spin_enter-bounded_example =
    spin_enter-bounded (λ tries. running) released 3 "timer" (process 9 held_by_7)

abbrev held_by_8 : DataDir
held_by_8 = record {
  lock_file = some (record { pid = 8; lock_holder = "timer" });
  in_progress = [];
}

abbrev both_run : ℕ → Bool
both_run pid = (pid == 7) || (pid == 9)

abbrev world : World
world = record { dir = held_by_8; running = both_run; checked = λ q. false; inside = λ q. false }

passed : (p : ℕ) → ltb_ℤ (pos 0) (seen world p).0.0 ≡ false
unfolding check_lock_info
passed p = refl

-- The process 7 takes the lock over from the process 8, which does not run any more.
abbrev one_inside : World
one_inside = after_write (after_check world 7) 7 "pro enable"

abbrev taken : Reach world one_inside
taken =
    after (after at_start (checks 7 (omega arith) refl refl (passed 7)))
      (writes 7 "pro enable" refl)

passed_too : ltb_ℤ (pos 0) (seen (after_check world 7) 9).0.0 ≡ false
unfolding check_lock_info
passed_too = refl

-- Where both check before either writes, both are inside.
both_inside : (w : World) × Reach world w × (w.inside 7 ≡ true) × (w.inside 9 ≡ true)
both_inside = (
  after_write (after_write (after_check (after_check world 7) 9) 7 "pro enable") 9 "timer",
  after
      (after
        (after (after at_start (checks 7 (omega arith) refl refl (passed 7)))
          (checks 9 (omega arith) refl refl passed_too))
        (writes 7 "pro enable" refl))
      (writes 9 "timer" refl),
  refl,
  refl,
)
