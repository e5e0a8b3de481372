-- ===== src/Lock/Simulation.antt =====
-- Each step of the processes is a step of the abstract lock.
use ubuntu_advantage_client.Base.{
  ℕ, ◌<◌, ◌≡◌, refl, inl, inr, sym, ap, ◌∙◌, Bool, true, false, Bool-cases, Option, none, some,
  ◌==◌, arith,
}
use mathlib.Core.Path.{subst}
use ubuntu_advantage_client.Lock.Exclusion.{HeldBy, check-HeldBy}
use ubuntu_advantage_client.Lock.World.{
  World, with_pid, process, after_exit, after_end, Step, checks, is_refused, writes, leaves, starts,
  ends, Apart, LockStep, acquire, release, idle, Implements,
}

-- Who has checked and not written: one process at most, which runs, and none while the lock is held.
abbrev pub Waiting : World → Option ℕ → Type 0
Waiting w none =
    ((q r : ℕ) → w.checked q ≡ true → w.checked r ≡ true → q ≡ r)
    × ((q : ℕ) → w.checked q ≡ true → (w.running q ≡ true) × (0 < q))
Waiting w (some p) = (q : ℕ) → w.checked q ≡ false

-- the step of the abstract lock, and that it is implemented
abbrev pub Simulated : World → Option ℕ → Type 0
Simulated w l = (k : Option ℕ) × LockStep l k × Implements w k × Waiting w k

with_pid-same : (p : ℕ) (b : Bool) (f : ℕ → Bool) → with_pid p b f p ≡ b
with_pid-same p b f = ground arith

with_pid-other : (p q : ℕ) (f : ℕ → Bool) → f q ≡ false → with_pid p false f q ≡ false
with_pid-other p q f h = ground arith

with_pid-true :
    (p q : ℕ) (f : ℕ → Bool) → ((r : ℕ) → f r ≡ false) → with_pid p true f q ≡ true → q ≡ p
with_pid-true p q f h e = ground (arith, h q)

with_pid_unique :
    (p : ℕ) (f : ℕ → Bool)
    → ((r : ℕ) → f r ≡ false)
    → (q r : ℕ) → with_pid p true f q ≡ true
    → with_pid p true f r ≡ true
    → q ≡ r
with_pid_unique p f h q r a b = with_pid-true p q f h a ∙ sym (with_pid-true p r f h b)

-- The one process that was there is not.
all_out :
    (f : ℕ → Bool) (p q : ℕ)
    → ((r : ℕ) → f r ≡ true → r ≡ p)
    → q ≡ p
    → (r : ℕ) → with_pid q false f r ≡ false
all_out f p q only same r = elim (Bool-cases (f r)) [
  | inl e ↦ ground (arith, only r e)
  | inr e ↦ with_pid-other q r f e
]

still_inside :
    (p q : ℕ) (f : ℕ → Bool) → (q == p) ≡ false → f p ≡ true → with_pid q false f p ≡ true
still_inside p q f other h = rw other h

was_inside : (q r : ℕ) (f : ℕ → Bool) → with_pid q false f r ≡ true → f r ≡ true
was_inside q r f h = ground arith

not_ended : (q r : ℕ) (f : ℕ → Bool) → with_pid q false f r ≡ true → (q == r) ≡ false
not_ended q r f h = ground arith

started : (p q : ℕ) (f : ℕ → Bool) → f p ≡ true → with_pid q true f p ≡ true
started p q f h = ground arith

pub none-Waiting : (w : World) → ((q : ℕ) → w.checked q ≡ false) → Waiting w none
none-Waiting w h = (λ q r a b. cc (a, h q), λ q a. cc (a, h q))

-- the process that has checked, after one of the processes has ended
ended-Waiting : (w : World) (p : ℕ) → Waiting w none → Waiting (after_end w p) none
ended-Waiting w p (unique, runs) = (
  λ q r a b. unique q r (was_inside p q w.checked a) (was_inside p r w.checked b),
  λ q a.
      let (running, positive) = runs q (was_inside p q w.checked a) in
      (still_inside q p w.running (not_ended p q w.checked a) running, positive),
)

pub Step-Simulated :
    {w u : World} (l : Option ℕ)
    → Implements w l
    → Waiting w l
    → (step : Step w u) → Apart step
    → Simulated u l
Step-Simulated {w} none i waiting (checks p positive runs out passed) apart = (
  none,
  idle none,
  i,
  (
    with_pid_unique p w.checked apart,
    λ q a.
        let same = with_pid-true p q w.checked apart a in
        (ap w.running same ∙ runs, subst (λ n. 0 < n) (sym same) positive),
  ),
)
Step-Simulated {w} none i waiting (is_refused p held) apart = (none, idle none, i, waiting)
Step-Simulated {w} none i (unique, runs) (writes p name checked) apart =
    let (running, positive) = runs p checked in
    (
      some p,
      acquire p,
      (
        with_pid-same p true w.inside,
        λ q e. with_pid-true p q w.inside i e,
        (name, (refl, running, positive)),
      ),
      all_out w.checked p p (λ r a. unique r p a checked) refl,
    )
Step-Simulated {w} none i waiting (leaves p h) apart = cc (h, i p)
Step-Simulated {w} none i (unique, runs) (starts p h) apart =
    (none, idle none, i, (unique, λ q a. (started q p w.running (runs q a).0, (runs q a).1)))
Step-Simulated {w} none i waiting (ends p h) apart =
    (none, idle none, λ q. with_pid-other p q w.inside (i q), ended-Waiting w p waiting)
Step-Simulated {w} (some p) (inside, only, (other, held)) waiting
      (checks q positive runs out passed) apart =
    cc ((check-HeldBy w.running (process q w.dir) p other held).0, passed)
Step-Simulated {w} (some p) (inside, only, (other, held)) waiting (is_refused q refused) apart = (
  some p,
  idle (some p),
  (
    inside,
    only,
    (
      other,
      subst (λ d. HeldBy w.running d p other)
          (sym (ap (λ r. r.dir) (check-HeldBy w.running (process q w.dir) p other held).1)) held,
    ),
  ),
  waiting,
)
Step-Simulated {w} (some p) i waiting (writes q name checked) apart = cc (checked, waiting q)
Step-Simulated {w} (some p) (inside, only, (other, held)) waiting (leaves q h) apart =
    (none, release p, all_out w.inside p q only (only q h), none-Waiting (after_exit w q) waiting)
Step-Simulated {w} (some p) (inside, only, (other, held)) waiting (starts q h) apart = (
  some p,
  idle (some p),
  (inside, only, (other, (held.0, started p q w.running held.1, held.2))),
  waiting,
)
Step-Simulated {w} (some p) (inside, only, (other, held)) waiting (ends q h) apart =
    elim (Bool-cases (q == p)) [
      | inl same ↦ (
        none,
        release p,
        all_out w.inside p q only (ground arith),
        none-Waiting (after_end w q) (λ r. with_pid-other q r w.checked (waiting r)),
      )
      | inr apart ↦ (
        some p,
        idle (some p),
        (
          still_inside p q w.inside apart inside,
          λ r e. only r (was_inside q r w.inside e),
          (other, (held.0, still_inside p q w.running apart held.1, held.2)),
        ),
        λ r. with_pid-other q r w.checked (waiting r),
      )
    ]
