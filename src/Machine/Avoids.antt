-- ===== src/Machine/Avoids.antt =====
-- Actions that do not return one value.
use ubuntu_advantage_client.Base.{◌≢◌, Bool, true, false, if◌then◌else◌}
use ubuntu_advantage_client.Exception.{Result, ok, err, ok-injective}
use ubuntu_advantage_client.Machine.{Machine, Action, continue, pure, ◌>>=◌}

module _ {H A : Type 0} (bad : A) where
  pub record Avoids (a : Action H A) : Type 0 where
    pub never : (m : Machine H) → (a m).0 ≢ ok bad

  pub pure-Avoids : (x : A) → x ≢ bad → Avoids (pure x)
  pure-Avoids x h = record { never = λ m e. h (ok-injective e) }

  pub if-Avoids : (b : Bool) {p q : Action H A} → Avoids p → Avoids q → Avoids (if b then p else q)
  if-Avoids true hp hq = hp
  if-Avoids false hp hq = hq

  pub >>=-Avoids :
      {B : Type 0} (a : Action H B) {f : B → Action H A}
      → ((x : B) → Avoids (f x))
      → Avoids (a >>= f)
  >>=-Avoids {B} a {f} h = record { never = λ m. go (a m) }
    where
      go : (r : Result B × Machine H) → (continue f r.0 r.1).0 ≢ ok bad
      go (ok x, m) = (h x).never m
      go (err e, m) = λ same. cc same
