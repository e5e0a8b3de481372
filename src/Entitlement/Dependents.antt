-- ===== src/Entitlement/Dependents.antt =====
-- The services that depend on the one that is being disabled.
use ubuntu_advantage_client.Base.{
  String, ◌≡◌, ap, Bool, true, false, Option, List, [], ◌∷◌, not, All,
}
use ubuntu_advantage_client.Exception.{ok}
use ubuntu_advantage_client.Json.{str}
use ubuntu_advantage_client.Machine.{Machine, Message, Action, named, reads, info, when, ◌>>◌}
use ubuntu_advantage_client.Machine.Steps.{returns_through, read_through}
use ubuntu_advantage_client.Prompt.{prompt_for_confirmation}
use ubuntu_advantage_client.Entitlement.{Env, Entitlement}
use ubuntu_advantage_client.Entitlement.Checks.{CanDisable}
use ubuntu_advantage_client.Entitlement.Disable.{
  Disabler, disable_dependents, dependent_answered, dependent_confirmed, dependent_status,
}
use ubuntu_advantage_client.Entitlement.Verdict.{Inactive}
use ubuntu_advantage_client.Entitlement.Status.{ApplicationStatus, enabled, disabled}
use ubuntu_advantage_client.Entitlement.Promises.{
  KeepsInactive, KeepsPromises, >>=-KeepsInactive, reads-KeepsInactive, instance_of,
  when-info-KeepsInactive, prompt-KeepsInactive, KeepsCalls,
}

module _ {H : Type 0} (env : Env H) (promises : KeepsPromises env) (disabler : Disabler H)
    (calls : KeepsCalls env disabler) (name : String) (yes_to_all beta : Bool) where
  -- the instance that is being disabled
  abbrev self : Entitlement H
  self = instance_of env name yes_to_all beta

  answered-KeepsInactive :
      (ent : Entitlement H) (rest : Action H (Bool × Option Message)) (r : CanDisable)
      → KeepsInactive env rest
      → KeepsInactive env (dependent_answered disabler env self ent rest r)
  answered-KeepsInactive ent rest (true, f) keeps m k h = keeps m k h
  answered-KeepsInactive ent rest (false, f) keeps m k h = h

  confirmed-KeepsInactive :
      (n : String) (silent : Bool) (rest : Action H (Bool × Option Message)) (b : Bool)
      → KeepsInactive env rest
      → KeepsInactive env
          (dependent_confirmed disabler env self silent (instance_of env n true false) rest b)
  confirmed-KeepsInactive n silent rest false keeps = λ m k h. h
  confirmed-KeepsInactive n silent rest true keeps =
      let ent = instance_of env n true false in
      let told =
        when (not silent) (info (named "DISABLING_DEPENDENT_SERVICE" (str ent.title ∷ []))) in
      >>=-KeepsInactive env (told >> disabler ent true)
        (dependent_answered disabler env self ent rest)
        (>>=-KeepsInactive env told (λ _. disabler ent true)
          (when-info-KeepsInactive env promises (not silent) _) (λ _. calls.calls_keep n))
        (λ r. answered-KeepsInactive ent rest r keeps)

  status-KeepsInactive :
      (n : String) (silent : Bool) (rest : Action H (Bool × Option Message))
      (r : ApplicationStatus × Option Message)
      → KeepsInactive env rest
      → KeepsInactive env
          (dependent_status disabler env self silent (instance_of env n true false) rest r)
  status-KeepsInactive n silent rest (disabled, x) keeps = keeps
  status-KeepsInactive n silent rest (enabled, x) keeps =
      >>=-KeepsInactive env (prompt_for_confirmation yes_to_all false)
        (dependent_confirmed disabler env self silent (instance_of env n true false) rest)
        (prompt-KeepsInactive env promises yes_to_all)
        (λ b. confirmed-KeepsInactive n silent rest b keeps)

  pub dependents-KeepsInactive :
      (silent : Bool) (names : List String)
      → KeepsInactive env (disable_dependents disabler env self silent names)
  unfolding disable_dependents
  dependents-KeepsInactive silent [] = λ m k h. h
  dependents-KeepsInactive silent (n ∷ ns) =
      let rest = disable_dependents disabler env self silent ns in
      >>=-KeepsInactive env (reads (env.service n).application_status)
        (dependent_status disabler env self silent (instance_of env n true false) rest)
        (reads-KeepsInactive env (env.service n).application_status)
        (λ r. status-KeepsInactive n silent rest r (dependents-KeepsInactive silent ns))

  -- once the other service is handled, the loop goes on from `m₁`
  abbrev Handled : String → Action H (Bool × Option Message) → Machine H → Option Message → Type 0
  Handled n rest m' msg = (m₁ : Machine H) × Inactive env m₁ n × (rest m₁ ≡ (ok (true, msg), m'))

  module _ (n : String) (silent : Bool) (rest : Action H (Bool × Option Message)) (m' : Machine H)
      (msg : Option Message) where
    answered-Handled :
        (r : CanDisable) (m₁ m₂ : Machine H)
        → disabler (instance_of env n true false) true m₁ ≡ (ok r, m₂)
        → dependent_answered disabler env self (instance_of env n true false) rest r m₂
          ≡ (ok (true, msg), m')
        → Handled n rest m' msg
    answered-Handled (true, f) m₁ m₂ p q = (m₂, calls.calls_disable n m₁ m₂ f p, q)
    answered-Handled (false, f) m₁ m₂ p q = cc q

    confirmed-Handled :
        (b : Bool) (m : Machine H)
        → dependent_confirmed disabler env self silent (instance_of env n true false) rest b m
          ≡ (ok (true, msg), m')
        → Handled n rest m' msg
    confirmed-Handled false m h = cc h
    confirmed-Handled true m h =
        let (r, m₂, p, q) =
          returns_through _
            (dependent_answered disabler env self (instance_of env n true false) rest) (true, msg)
            m' h in
        let (_, m₁, p₁, q₁) =
          returns_through _ (λ _. disabler (instance_of env n true false) true) r m₂ p in
        answered-Handled r m₁ m₂ q₁ q

    status-Handled :
        (r : ApplicationStatus × Option Message) (m : Machine H)
        → (env.service n).application_status m ≡ ok r
        → dependent_status disabler env self silent (instance_of env n true false) rest r m
          ≡ (ok (true, msg), m')
        → Handled n rest m' msg
    status-Handled (disabled, x) m p h = (m, (x, p), h)
    status-Handled (enabled, x) m p h =
        let (b, m₁, _, q) =
          returns_through _
            (dependent_confirmed disabler env self silent (instance_of env n true false) rest)
            (true, msg) m' h in
        confirmed-Handled b m₁ q

  pub dependents-Inactive :
      (silent : Bool) (names : List String) (m m' : Machine H) (msg : Option Message)
      → disable_dependents disabler env self silent names m ≡ (ok (true, msg), m')
      → All (Inactive env m') names
  unfolding disable_dependents
  dependents-Inactive silent [] m m' msg h = tt
  dependents-Inactive silent (n ∷ ns) m m' msg h =
      let rest = disable_dependents disabler env self silent ns in
      let (r, m₁, p, q) =
        returns_through _
          (dependent_status disabler env self silent (instance_of env n true false) rest)
          (true, msg) m' h in
      let (m₂, off, done) =
        status-Handled n silent rest m' msg r m₁
          (read_through (env.service n).application_status r m m₁ p) q in
      (
        rw (ap (λ t. t.1) done) at (dependents-KeepsInactive silent ns m₂ n off),
        dependents-Inactive silent ns m₂ m' msg done,
      )
