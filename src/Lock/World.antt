-- ===== src/Lock/World.antt =====
-- Many processes and one data directory (uaclient/lock.py), and an abstract lock that is free or held
-- by one process. `__enter__` is two steps, the check and the write, since nothing keeps other
-- processes from working in between; `check_lock_info` is one step.
use ubuntu_advantage_client.Base.{
  ℕ, ◌<◌, String, ◌≡◌, Bool, true, false, Option, none, some, ◌==◌, if◌then◌else◌,
}
use ubuntu_advantage_client.Base.Int.{ℤ, pos, ltb_ℤ}
use ubuntu_advantage_client.Lock.{DataDir, Process, check_lock_info, take_lock, exit}
use ubuntu_advantage_client.Lock.Exclusion.{HeldBy}

-- The directory, the processes that run, those that have checked the lock in `__enter__` and have
-- not written it yet, and those between the write and `__exit__`.
pub record World : Type 0 where
  pub dir : DataDir
  pub running : ℕ → Bool
  pub checked : ℕ → Bool
  pub inside : ℕ → Bool

abbrev pub with_pid : ℕ → Bool → (ℕ → Bool) → ℕ → Bool
with_pid p b f q = if p == q then b else f q

-- a process of root with this pid, on the directory
abbrev pub process : ℕ → DataDir → Process
process p dir = record { pid = p; is_root = true; clear_lock_file = false; dir = dir }

abbrev pub seen : World → ℕ → (ℤ × String) × Process
seen w p = check_lock_info w.running (process p w.dir)

abbrev pub after_check : World → ℕ → World
after_check w p = record w { dir = (seen w p).1.dir; checked = with_pid p true w.checked }

abbrev pub after_write : World → ℕ → String → World
after_write w p name = record w {
  dir = (take_lock w.running name (process p w.dir)).dir;
  checked = with_pid p false w.checked;
  inside = with_pid p true w.inside;
}

abbrev pub after_exit : World → ℕ → World
after_exit w p = record w {
  dir = (exit w.running (process p w.dir)).dir;
  inside = with_pid p false w.inside;
}

abbrev pub after_end : World → ℕ → World
after_end w p = record w {
  running = with_pid p false w.running;
  checked = with_pid p false w.checked;
  inside = with_pid p false w.inside;
}

-- What one process does: it checks the lock, and is refused or may write it, writes it, leaves,
-- starts, or ends, wherever it is.
pub data Step (w : World) : World → Type 0 where
  checks :
      (p : ℕ)
      → 0 < p
      → w.running p ≡ true
      → w.inside p ≡ false
      → ltb_ℤ (pos 0) (seen w p).0.0 ≡ false
      → Step w (after_check w p)
  is_refused :
      (p : ℕ) → ltb_ℤ (pos 0) (seen w p).0.0 ≡ true → Step w (record w { dir = (seen w p).1.dir })
  writes : (p : ℕ) (name : String) → w.checked p ≡ true → Step w (after_write w p name)
  leaves : (p : ℕ) → w.inside p ≡ true → Step w (after_exit w p)
  starts : (p : ℕ) → w.running p ≡ false → Step w (record w { running = with_pid p true w.running })
  ends : (p : ℕ) → w.running p ≡ true → Step w (after_end w p)

pub data Reach (v : World) : World → Type 0 where
  at_start : Reach v v
  after : {w u : World} → Reach v w → Step w u → Reach v u

-- No other process is between its check and its write when one checks.
abbrev pub Apart : {w u : World} → Step w u → Type 0
Apart {w} (checks p positive runs out passed) = (q : ℕ) → w.checked q ≡ false
Apart _ = Unit

abbrev pub ChecksApart : {v w : World} → Reach v w → Type 0
ChecksApart at_start = Unit
ChecksApart (after r step) = ChecksApart r × Apart step

-- The abstract lock: free, or held by one process.
pub data LockStep : Option ℕ → Option ℕ → Type 0 where
  acquire : (p : ℕ) → LockStep none (some p)
  release : (p : ℕ) → LockStep (some p) none
  idle : (l : Option ℕ) → LockStep l l

pub data LockReach : Option ℕ → Type 0 where
  unlocked : LockReach none
  lock_step : {l k : Option ℕ} → LockReach l → LockStep l k → LockReach k

-- The processes inside are those that the abstract lock says: one, whose file the directory holds,
-- or none.
abbrev pub Implements : World → Option ℕ → Type 0
Implements w none = (q : ℕ) → w.inside q ≡ false
Implements w (some p) =
    (w.inside p ≡ true)
    × ((q : ℕ) → w.inside q ≡ true → q ≡ p)
    × ((name : String) × HeldBy w.running w.dir p name)
