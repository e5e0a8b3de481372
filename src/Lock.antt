-- ===== src/Lock.antt =====
-- The lock file: `check_lock_info` (uaclient/config.py), `SingleAttemptLock`, `SpinLock` and
-- `clear_lock_file_if_present` (uaclient/lock.py).
pub mod Exclusion
pub mod Spin
pub mod World
mod Simulation
pub mod System
mod Tests
use ubuntu_advantage_client.Base.{
  ℕ, zero, suc, ◌+◌, String, Bool, true, false, Option, none, some, List, [], ◌∷◌, ◌++◌, ◌===◌, ltb,
  leb, ◌||◌, ◌&&◌, if◌then◌else◌, not,
}
use ubuntu_advantage_client.Base.Int.{ℤ, pos, negsuc, ltb_ℤ}
use ubuntu_advantage_client.Exception.{
  Exception, Result, ok, err, lock_held, recursion_error, other_error,
}

-- The file holds `pid:holder`; it is modelled by these two.
pub record LockFile : Type 0 where
  pub pid : ℕ
  pub lock_holder : String

-- The data directory: the lock file and, of the notices, who is said to be in progress.
pub record DataDir : Type 0 where
  pub lock_file : Option LockFile
  pub in_progress : List String

-- This process: its pid, whether it is root, and the global `clear_lock_file`.
pub record Process : Type 0 where
  pub pid : ℕ
  pub is_root : Bool
  pub clear_lock_file : Bool
  pub dir : DataDir
  pub open dir use *

abbrev pub has_text : String → List String → Bool
has_text s [] = false
has_text s (x ∷ xs) = x === s || has_text s xs

-- notice_file.add("", "Operation in progress: …") and notice_file.remove("", "Operation in progress.*")
abbrev pub add_notice : String → List String → List String
add_notice holder xs = if has_text holder xs then xs else xs ++ holder ∷ []

abbrev pub is_lock_held : Exception → Bool
is_lock_held (lock_held _ _ _) = true
is_lock_held _ = false

-- `running` is what `ps` says of a pid.
module _ (running : ℕ → Bool) where
  unfoldable pub check_lock_info : Process → (ℤ × String) × Process
  check_lock_info p = elim p.lock_file [
    | none ↦ ((negsuc 0, ""), p)
    | some f ↦ if running f.pid || not p.is_root then ((pos f.pid, f.lock_holder), p) else (
      (negsuc 0, ""),
      record p { dir = record { lock_file = none; in_progress = p.in_progress } },
    )
  ]

  -- what `__enter__` writes: the lock, with its notice, the notice and the global
  abbrev pub take_lock : String → Process → Process
  take_lock lock_holder p = record p {
    clear_lock_file = true;
    dir = record {
      lock_file = some (record { pid = p.pid; lock_holder = lock_holder });
      in_progress = add_notice lock_holder (add_notice lock_holder p.in_progress);
    };
  }

  abbrev pub enter_or_raise : String → (ℤ × String) × Process → Result (Unit {0}) × Process
  enter_or_raise lock_holder ((lock_pid, cur_lock_holder), p) =
      if ltb_ℤ (pos 0) lock_pid
      then (err (lock_held lock_holder cur_lock_holder lock_pid), p)
      else if p.is_root
      then (ok tt, take_lock lock_holder p)
      else (err (other_error "NonRootUserError"), p)

  -- `SingleAttemptLock.__enter__`. The notice, which only root can add, comes before the file.
  unfoldable pub enter : String → Process → Result (Unit {0}) × Process
  unfolding check_lock_info
  enter lock_holder p = enter_or_raise lock_holder (check_lock_info p)

  -- cfg.delete_cache_key("lock")
  unfoldable pub delete_lock : Process → Process
  delete_lock p = record p { dir = record { lock_file = none; in_progress = [] } }

  -- `SingleAttemptLock.__exit__`, which root runs
  unfoldable pub exit : Process → Process
  unfolding delete_lock
  exit p = record (delete_lock p) { clear_lock_file = false }

  unfoldable pub clear_lock_file_if_present : Process → Process
  unfolding delete_lock
  clear_lock_file_if_present p = if p.clear_lock_file then delete_lock p else p

-- What `ps` says at each attempt, and what other processes do to the data directory during the sleep
-- that follows it.
module _ (running : ℕ → ℕ → Bool) (others : ℕ → DataDir → DataDir) where
  -- `SpinLock.__enter__` from the attempt `tries`. The first number bounds the attempts.
  unfoldable pub spin_from : ℕ → ℕ → ℕ → String → Process → Result (Unit {0}) × Process
  unfolding enter
  spin_from zero max_retries tries lock_holder p = (err recursion_error, p)
  spin_from (suc fuel) max_retries tries lock_holder p =
      let (r, q) = enter (running tries) lock_holder p in
      let again =
        spin_from fuel max_retries (tries + 1) lock_holder
          (record q { dir = others tries q.dir }) in
      elim r [
        | ok _ ↦ (ok tt, q)
        | err e ↦ if is_lock_held e && not (leb max_retries (tries + 1)) then again else (err e, q)
      ]

  unfoldable pub spin_enter : ℕ → String → Process → Result (Unit {0}) × Process
  unfolding spin_from
  spin_enter max_retries lock_holder p = spin_from (max_retries + 1) max_retries 0 lock_holder p
