-- ===== src/Lock/Exclusion.antt =====
-- Who gets the lock, and who is refused.
use ubuntu_advantage_client.Base.{
  ℕ, ◌<◌, String, ◌≡◌, refl, Bool, true, false, none, some, arith, if◌then◌else◌,
}
use ubuntu_advantage_client.Base.Int.{pos, negsuc, ltb_ℤ}
use ubuntu_advantage_client.Exception.{ok, err, lock_held}
use ubuntu_advantage_client.Lock.{DataDir, Process, check_lock_info, enter}

-- The lock of this directory is held by a process that runs.
abbrev pub HeldBy : (ℕ → Bool) → DataDir → ℕ → String → Type 0
HeldBy running dir pid lock_holder =
    (dir.lock_file ≡ some (record { pid = pid; lock_holder = lock_holder }))
    × (running pid ≡ true)
    × (0 < pid)

-- No process that runs holds it.
abbrev pub is_free : (ℕ → Bool) → DataDir → Bool
is_free running dir = elim dir.lock_file [
  | none ↦ true
  | some f ↦ if running f.pid then false else true
]

-- While a process that runs holds the lock, no other gets it, and the try changes nothing.
pub enter-HeldBy :
    (running : ℕ → Bool) (p : Process) (pid : ℕ) (holder lock_holder : String)
    → HeldBy running p.dir pid holder
    → enter running lock_holder p ≡ (err (lock_held lock_holder holder (pos pid)), p)
unfolding enter check_lock_info
enter-HeldBy running p pid holder lock_holder h = rw (h.0, h.1) (ground (arith, h.2))

check_lock_info-free :
    (running : ℕ → Bool) (p : Process)
    → p.is_root ≡ true
    → is_free running p.dir ≡ true
    → ((check_lock_info running p).0 ≡ (negsuc 0, ""))
      × ((check_lock_info running p).1.is_root ≡ true)
unfolding check_lock_info
check_lock_info-free running p root free = (ground arith, ground arith)

-- Root takes a lock that is free.
pub enter-free :
    (running : ℕ → Bool) (p : Process) (lock_holder : String)
    → p.is_root ≡ true
    → is_free running p.dir ≡ true
    → (enter running lock_holder p).0 ≡ ok tt
unfolding enter
enter-free running p lock_holder root free =
    rw ((check_lock_info-free running p root free).0, (check_lock_info-free running p root free).1)
      refl

-- A check of a lock that is held sees who holds it, and changes nothing.
pub check-HeldBy :
    (running : ℕ → Bool) (p : Process) (pid : ℕ) (holder : String)
    → HeldBy running p.dir pid holder
    → (ltb_ℤ (pos 0) (check_lock_info running p).0.0 ≡ true) × ((check_lock_info running p).1 ≡ p)
unfolding check_lock_info
check-HeldBy running p pid holder h = rw (h.0, h.1) (ground (arith, h.2), refl)
