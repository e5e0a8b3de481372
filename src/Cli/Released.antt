-- ===== src/Cli/Released.antt =====
-- The lock after a command.
use ubuntu_advantage_client.Base.{
  ℕ, arith, String, ◌≡◌, refl, ◌∙◌, ap, Bool, true, false, Option, none, some, not, ◌&&◌, ◌===◌,
  if◌then◌else◌,
}
use ubuntu_advantage_client.Exception.{Result, ok, err, user_facing, other_error}
use ubuntu_advantage_client.Machine.{Machine, Action, raise}
use ubuntu_advantage_client.Lock.{Process, enter, exit, delete_lock, check_lock_info}
use ubuntu_advantage_client.Cli.{
  Args, LockAccess, unlock, run_locked, assert_root, assert_attached, assert_lock_file, guarded,
}

abbrev is_error : {A : Type 0} → Result A → Bool
is_error (ok _) = false
is_error (err _) = true

-- The lock is a part of the machine: what is written is read, and is what the lock's code sees.
pub record LawfulAccess {H : Type 0} (access : LockAccess H) : Type 0 where
  pub written : (p : Process) (m : Machine H) → access.process_of (access.with_process p m) ≡ p

-- An attempt that fails leaves a free lock as it was.
enter-err :
    (running : ℕ → Bool) (lock_holder : String) (p : Process)
    → p.dir.lock_file ≡ none
    → is_error (enter running lock_holder p).0 ≡ true
    → (enter running lock_holder p).1.dir.lock_file ≡ none
unfolding enter check_lock_info
enter-err running lock_holder p h e = ground arith

module _ {H : Type 0} (access : LockAccess H) where
  -- no process holds the lock
  abbrev pub Free : Machine H → Type 0
  Free m = (access.process_of m).dir.lock_file ≡ none

  with_process-Free :
      LawfulAccess access
      → (p : Process) (m : Machine H) → p.dir.lock_file ≡ none
      → Free (access.with_process p m)
  with_process-Free lawful p m h = ap (λ q. q.dir.lock_file) (lawful.written p m) ∙ h

module _ {H A : Type 0} (access : LockAccess H) (lawful : LawfulAccess access) where
  unlock-Free : (r : Result A × Machine H) → Free access (unlock access r).1
  unfolding exit delete_lock
  unlock-Free (r, m) =
      with_process-Free access lawful (exit (access.running m) (access.process_of m)) m refl

  run_locked-Free :
      (f : Action H A) (m : Machine H) (r : Result (Unit {0}) × Process)
      → (is_error r.0 ≡ true → r.1.dir.lock_file ≡ none)
      → Free access (run_locked access f m r).1
  run_locked-Free f m (err e, p) h = with_process-Free access lawful p m (h refl)
  run_locked-Free f m (ok _, p) h = unlock-Free (f (access.with_process p m))

  if-Free :
      (b : Bool) (f g : Action H A) (m : Machine H)
      → Free access (f m).1
      → Free access (g m).1
      → Free access ((if b then f else g) m).1
  if-Free true f g m h k = h
  if-Free false f g m h k = k

  locked-Free :
      (lock_holder : String) (f : Action H A) (m : Machine H)
      → Free access m
      → Free access (assert_lock_file access lock_holder f m).1
  unfolding assert_lock_file
  locked-Free lock_holder f m h =
      run_locked-Free f m (enter (access.running m) lock_holder (access.process_of m))
        (enter-err (access.running m) lock_holder (access.process_of m) h)

  rooted-Free :
      (lock_holder : String) (f : Action H A) (m : Machine H)
      → Free access m
      → Free access
          (assert_root access (assert_attached (assert_lock_file access lock_holder f)) m).1
  rooted-Free lock_holder f m h =
      if-Free (not (access.process_of m).is_root) (raise (other_error "NonRootUserError"))
        (assert_attached (assert_lock_file access lock_holder f)) m h
        (if-Free (not m.attached) (raise (other_error "UnattachedError"))
          (assert_lock_file access lock_holder f) m h (locked-Free lock_holder f m h))

  -- Where no process holds the lock, none holds it after a guarded command either: neither where a
  -- guard refuses it, nor where it returns, nor where it raises an exception.
  pub guarded-Free :
      (args : Option Args) (lock_holder : String) (f : Action H A) (m : Machine H)
      → Free access m
      → Free access (guarded access args lock_holder f m).1
  unfolding guarded
  guarded-Free none lock_holder f m h = rooted-Free lock_holder f m h
  guarded-Free (some args) lock_holder f m h =
      if-Free ((args.format === "json") && not args.assume_yes)
        (raise (user_facing "JSON_FORMAT_REQUIRE_ASSUME_YES"))
        (assert_root access (assert_attached (assert_lock_file access lock_holder f))) m h
        (rooted-Free lock_holder f m h)
