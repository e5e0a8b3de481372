-- ===== src/Entitlement/Promises.antt =====
-- What the methods of the services promise for a disable, and what every action of one keeps.
use ubuntu_advantage_client.Base.{
  String, ◌≡◌, ◌∙◌, Bool, true, false, Option, List, [], ◌∷◌, ◌++◌, if◌then◌else◌,
}
use ubuntu_advantage_client.Exception.{Result, ok, err}
use ubuntu_advantage_client.Machine.{
  Machine, Message, Action, continue, pure, reads, info, when, ◌>>=◌,
}
use ubuntu_advantage_client.Prompt.{
  input, next_line, confirms, prompt_for_confirmation, handle_message_operations,
}
use ubuntu_advantage_client.Entitlement.{Env, Entitlement}
use ubuntu_advantage_client.Entitlement.Disable.{Disabler}
use ubuntu_advantage_client.Entitlement.Verdict.{Inactive}
use ubuntu_advantage_client.Entitlement.Status.{CanDisableFailure}

module _ {H : Type 0} (env : Env H) where
  -- a service that is reported disabled before the action is so after it, however it ends
  abbrev pub KeepsInactive : {A : Type 0} → Action H A → Type 0
  KeepsInactive a =
      (m : Machine H) (name : String) → Inactive env m name → Inactive env (a m).1 name

  -- What the methods of the services promise: `_perform_disable` that returns True has disabled
  -- the service, nothing that runs during a disable enables a service, and a status depends
  -- neither on what the user types nor on what is shown.
  pub record KeepsPromises : Type 0 where
    pub disables :
        (name : String) (silent : Bool) (m m' : Machine H)
        → (env.service name).perform_disable silent m ≡ (ok true, m')
        → Inactive env m' name
    pub disable_keeps :
        (name : String) (silent : Bool) → KeepsInactive ((env.service name).perform_disable silent)
    pub before_keeps :
        (name : String)
        → KeepsInactive (handle_message_operations (env.service name).messaging.pre_disable)
    pub after_keeps :
        (name : String)
        → KeepsInactive (handle_message_operations (env.service name).messaging.post_disable)
    pub own_keeps : (name : String) → KeepsInactive (env.service name).after_disable
    pub console_keeps :
        (name : String) (m : Machine H) (answers : List String) (shown : List Message)
        → (env.service name).application_status (record m { answers = answers; shown = shown })
          ≡ (env.service name).application_status m

  pub >>=-KeepsInactive :
      {A B : Type 0} (a : Action H A) (f : A → Action H B)
      → KeepsInactive a
      → ((x : A) → KeepsInactive (f x))
      → KeepsInactive (a >>= f)
  >>=-KeepsInactive {A} {B} a f ka kf m name h = go (a m) (ka m name h)
    where
      go :
          (r : Result A × Machine H)
          → Inactive env r.1 name
          → Inactive env (continue f r.0 r.1).1 name
      go (ok x, m₁) h' = kf x m₁ name h'
      go (err x, m₁) h' = h'

  pub if-KeepsInactive :
      {A : Type 0} (b : Bool) (p q : Action H A)
      → KeepsInactive p
      → KeepsInactive q
      → KeepsInactive (if b then p else q)
  if-KeepsInactive true p q kp kq = kp
  if-KeepsInactive false p q kp kq = kq

  pub pure-KeepsInactive : {A : Type 0} (a : A) → KeepsInactive (pure a)
  pure-KeepsInactive a m name h = h

  pub reads-KeepsInactive : {A : Type 0} (f : Machine H → Result A) → KeepsInactive (reads f)
  reads-KeepsInactive f m name h = h

  pub when-KeepsInactive :
      (b : Bool) (a : Action H (Unit {0})) → KeepsInactive a → KeepsInactive (when b a)
  when-KeepsInactive true a keeps m name h = keeps m name h
  when-KeepsInactive false a keeps m name h = h

  -- an instance of a class
  abbrev pub instance_of : String → Bool → Bool → Entitlement H
  instance_of name yes_to_all beta = record {
    service = env.service name;
    assume_yes = yes_to_all;
    allow_beta = beta;
  }

  module _ (promises : KeepsPromises) where
    info-KeepsInactive : (x : Message) → KeepsInactive (info x)
    info-KeepsInactive x m name h =
        (h.0, promises.console_keeps name m m.answers (m.shown ++ x ∷ []) ∙ h.1)

    pub when-info-KeepsInactive : (b : Bool) (x : Message) → KeepsInactive (when b (info x))
    when-info-KeepsInactive true x m name h = info-KeepsInactive x m name h
    when-info-KeepsInactive false x m name h = h

    next_line-KeepsInactive : (l : List String) → KeepsInactive (next_line {H = H} l)
    next_line-KeepsInactive [] m name h = h
    next_line-KeepsInactive (a ∷ rest) m name h =
        (h.0, promises.console_keeps name m rest m.shown ∙ h.1)

    pub prompt-KeepsInactive :
        (yes_to_all : Bool) → KeepsInactive (prompt_for_confirmation {H = H} yes_to_all false)
    unfolding prompt_for_confirmation
    prompt-KeepsInactive true m name h = h
    prompt-KeepsInactive false m name h =
        >>=-KeepsInactive input (λ a. pure (confirms false a))
          (λ m₁ n h₁. next_line-KeepsInactive m₁.answers m₁ n h₁) (λ a m₁ n h₁. h₁) m name h

  -- What is assumed of the calls of `disable` on other services, silent and with assume_yes.
  pub record KeepsCalls (disabler : Disabler H) : Type 0 where
    pub calls_keep : (n : String) → KeepsInactive (disabler (instance_of n true false) true)
    pub calls_disable :
        (n : String) (m m' : Machine H) (r : Option CanDisableFailure)
        → disabler (instance_of n true false) true m ≡ (ok (true, r), m')
        → Inactive env m' n
