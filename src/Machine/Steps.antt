-- ===== src/Machine/Steps.antt =====
-- Inversion of actions that return.
use mathlib.Core.Path.{subst}
use ubuntu_advantage_client.Base.{
  ◌≡◌, refl, ap, Bool, true, false, Option, none, not, if◌then◌else◌,
}
use ubuntu_advantage_client.Exception.{Result, ok, err}
use ubuntu_advantage_client.Machine.{Machine, Action, continue, pure, reads, ◌>>=◌}

module _ {H A B : Type 0} where
  -- a block that returns: its first action has returned, and the rest from there
  pub returns_through :
      (r : Result A × Machine H) (f : A → Action H B) (b : B) (m' : Machine H)
      → continue f r.0 r.1 ≡ (ok b, m')
      → (x : A) × (m₁ : Machine H) × (r ≡ (ok x, m₁)) × (f x m₁ ≡ (ok b, m'))
  returns_through (ok x, m₁) f b m' h = (x, m₁, refl, h)
  returns_through (err e, m₁) f b m' h = cc h

-- `if not …: return False, None`: a block that returns True has got True, and gone on.
module _ {H F : Type 0} (rest : Action H (Bool × Option F)) where
  unless_false : Bool → Action H (Bool × Option F)
  unless_false b = if not b then pure (false, none) else rest

  pub goes_on :
      (a : Action H Bool) (m m' : Machine H) (r : Option F)
      → (a >>= λ b. if not b then pure (false, none) else rest) m ≡ (ok (true, r), m')
      → (m₁ : Machine H) × (a m ≡ (ok true, m₁)) × (rest m₁ ≡ (ok (true, r), m'))
  unfolding unless_false
  goes_on a m m' r h =
      let (b, m₁, p, q) = returns_through (a m) unless_false (true, r) m' h in go b m₁ p q
    where
      go :
          (b : Bool) (m₁ : Machine H)
          → a m ≡ (ok b, m₁)
          → unless_false b m₁ ≡ (ok (true, r), m')
          → (m₁ : Machine H) × (a m ≡ (ok true, m₁)) × (rest m₁ ≡ (ok (true, r), m'))
      go true m₁ p q = (m₁, p, q)
      go false m₁ p q = cc q

-- what a read found, in the state that it left
pub read_through :
    {H A : Type 0} (f : Machine H → Result A) (x : A) (m m₁ : Machine H)
    → reads f m ≡ (ok x, m₁)
    → f m₁ ≡ ok x
read_through f x m m₁ h =
    let same : m ≡ m₁ = ap (λ t. t.1) h in
    let found : f m ≡ ok x = ap (λ t. t.0) h in subst (λ t. f t ≡ ok x) same found
