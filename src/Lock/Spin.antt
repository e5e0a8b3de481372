-- ===== src/Lock/Spin.antt =====
-- The attempts of `SpinLock`.
use ubuntu_advantage_client.Base.{
  ℕ, zero, suc, ◌+◌, ◌≤◌, ◌<◌, String, ◌≡◌, ◌≢◌, refl, ap, ◌∙◌, Bool, true, false, Option, none,
  some, arith, leb, ◌⊎◌, inl, inr, Bool-cases,
}
use ubuntu_advantage_client.Exception.{Exception, ok, err, recursion_error}
use ubuntu_advantage_client.Lock.{
  DataDir, Process, LockFile, check_lock_info, enter, spin_from, spin_enter, is_lock_held,
}
use ubuntu_advantage_client.Lock.Exclusion.{is_free, enter-free, enter-HeldBy}

Option-cases {ℓ} : {A : Type ℓ} → (o : Option A) → (o ≡ none) ⊎ ((a : A) × (o ≡ some a))
Option-cases none = inl refl
Option-cases (some a) = inr (a, refl)

held_file :
    (running : ℕ → Bool) (dir : DataDir)
    → is_free running dir ≡ false
    → (f : LockFile) × (dir.lock_file ≡ some f) × (running f.pid ≡ true)
held_file running dir h = elim (Option-cases dir.lock_file) [
  | inl nothing ↦ absurd (ground arith)
  | inr (f, there) ↦ (f, there, ground arith)
]

more_left : (tries max_retries : ℕ) → tries + 1 < max_retries → leb max_retries (tries + 1) ≡ false
more_left tries max_retries h = ground arith

zero-or_positive : (n : ℕ) → (n ≡ 0) ⊎ (0 < n)
zero-or_positive zero = inl refl
zero-or_positive (suc n) = inr (omega arith)

module _ (running : ℕ → Bool) where
  enter-bounded :
      (p : Process) (lock_holder : String) → (enter running lock_holder p).0 ≢ err recursion_error
  unfolding enter
  enter-bounded p lock_holder r = ground arith

  enter-zero :
      (p : Process) (f : LockFile) (lock_holder : String)
      → p.is_root ≡ true
      → p.dir.lock_file ≡ some f
      → running f.pid ≡ true
      → f.pid ≡ 0
      → (enter running lock_holder p).0 ≡ ok tt
  unfolding enter check_lock_info
  enter-zero p f lock_holder root there runs zero_pid = rw (there, runs) (ground arith)

  -- An attempt of root succeeds, or is refused and leaves all as it was.
  enter-root :
      (p : Process) (lock_holder : String)
      → p.is_root ≡ true
      → ((enter running lock_holder p).0 ≡ ok tt)
        ⊎ ((e : Exception) × (is_lock_held e ≡ true) × (enter running lock_holder p ≡ (err e, p)))
  enter-root p lock_holder root = elim (Bool-cases (is_free running p.dir)) [
    | inl free ↦ inl (enter-free running p lock_holder root free)
    | inr held ↦
        let (f, there, runs) = held_file running p.dir held in
        elim (zero-or_positive f.pid) [
          | inl none_such ↦ inl (enter-zero p f lock_holder root there runs none_such)
          | inr positive ↦ inr (
            _,
            refl,
            enter-HeldBy running p f.pid f.lock_holder lock_holder (there, runs, positive),
          )
        ]
  ]

module _ (running : ℕ → ℕ → Bool) (others : ℕ → DataDir → DataDir) where
  -- The directory before the attempt that comes `n` attempts after the attempt `tries`, where
  -- only the other processes have changed it.
  abbrev pub dir_at : ℕ → ℕ → DataDir → DataDir
  dir_at tries zero dir = dir
  dir_at tries (suc n) dir = dir_at (tries + 1) n (others tries dir)

  spin_from-ok :
      (fuel max_retries tries : ℕ) (lock_holder : String) (p : Process)
      → (enter (running tries) lock_holder p).0 ≡ ok tt
      → (spin_from running others (suc fuel) max_retries tries lock_holder p).0 ≡ ok tt
  unfolding spin_from
  spin_from-ok fuel max_retries tries lock_holder p r = ground arith

  spin_from-again :
      (fuel max_retries tries : ℕ) (lock_holder : String) (p : Process) (e : Exception)
      → enter (running tries) lock_holder p ≡ (err e, p)
      → is_lock_held e ≡ true
      → tries + 1 < max_retries
      → spin_from running others (suc fuel) max_retries tries lock_holder p
        ≡ spin_from running others fuel max_retries
            (tries + 1)
            lock_holder
            (record p { dir = others tries p.dir })
  unfolding spin_from
  spin_from-again fuel max_retries tries lock_holder p e r held more =
      let raised : (enter (running tries) lock_holder p).0 ≡ err e = ap (λ x. x.0) r in
      let unchanged : (enter (running tries) lock_holder p).1 ≡ p = ap (λ x. x.1) r in
      rw (spin_from, raised, unchanged, held, more_left tries max_retries more) refl

  spin_from-bounded :
      (fuel max_retries tries : ℕ) (lock_holder : String) (p : Process)
      → max_retries ≤ fuel + tries
      → 0 < fuel
      → (spin_from running others fuel max_retries tries lock_holder p).0 ≢ err recursion_error
  unfolding spin_from
  spin_from-bounded zero max_retries tries lock_holder p h g r = absurd (omega arith)
  spin_from-bounded (suc fuel) max_retries tries lock_holder p h g r =
      let q = (enter (running tries) lock_holder p).1 in
      ground (
        arith,
        enter-bounded (running tries) p lock_holder,
        spin_from-bounded fuel max_retries (tries + 1) lock_holder
            (record q { dir = others tries q.dir }),
      )

  spin_from-free :
      (fuel max_retries tries n : ℕ) (lock_holder : String) (p : Process)
      → n < fuel
      → tries + n < max_retries
      → p.is_root ≡ true
      → is_free (running (tries + n)) (dir_at tries n p.dir) ≡ true
      → (spin_from running others fuel max_retries tries lock_holder p).0 ≡ ok tt
  spin_from-free zero max_retries tries n lock_holder p low h root free = absurd (omega arith)
  spin_from-free (suc fuel) max_retries tries zero lock_holder p low h root free =
      spin_from-ok fuel max_retries tries lock_holder p (
        enter-free (running tries) p lock_holder root
          (ap (λ t. is_free (running t) p.dir) (ground arith) ∙ free))
  spin_from-free (suc fuel) max_retries tries (suc n) lock_holder p low h root free =
      elim (enter-root (running tries) p lock_holder root) [
        | inl entered ↦ spin_from-ok fuel max_retries tries lock_holder p entered
        | inr (e, held, refused) ↦
            rw (spin_from-again fuel max_retries tries lock_holder p e refused held (omega arith)) (
              spin_from-free fuel max_retries (tries + 1) n lock_holder
                (record p { dir = others tries p.dir }) (omega arith) (omega arith) root
                (ap (λ t. is_free (running t) (dir_at (tries + 1) n (others tries p.dir)))
                    (omega arith)
                  ∙ free))
      ]

  -- Root's `SpinLock` ends with the lock where the changes of the other processes leave it free
  -- before one of the `max_retries` attempts.
  pub spin_enter-free :
      (max_retries n : ℕ) (lock_holder : String) (p : Process)
      → n < max_retries
      → p.is_root ≡ true
      → is_free (running n) (dir_at 0 n p.dir) ≡ true
      → (spin_enter running others max_retries lock_holder p).0 ≡ ok tt
  unfolding spin_enter
  spin_enter-free max_retries n lock_holder p low root free =
      spin_from-free (max_retries + 1) max_retries 0 n lock_holder p (omega arith) (omega arith)
        root (ap (λ t. is_free (running t) (dir_at 0 n p.dir)) (ground arith) ∙ free)

  -- `SpinLock` ends within its bound on the attempts, which is one above `max_retries`.
  pub spin_enter-bounded :
      (max_retries : ℕ) (lock_holder : String) (p : Process)
      → (spin_enter running others max_retries lock_holder p).0 ≢ err recursion_error
  unfolding spin_enter
  spin_enter-bounded max_retries lock_holder p =
      spin_from-bounded (max_retries + 1) max_retries 0 lock_holder p (omega arith) (omega arith)
