-- ===== src/Entitlement/Resolved.antt =====
-- What `disable` does where `can_disable` says no.
use mathlib.Core.Path.{subst}
use ubuntu_advantage_client.Base.{
  String, ◌≡◌, ap, inl, inr, Bool, true, false, Option, none, some, List, [], ◌∷◌, arith, All,
}
use ubuntu_advantage_client.Exception.{ok}
use ubuntu_advantage_client.Machine.{Machine, Message}
use ubuntu_advantage_client.Machine.Steps.{returns_through}
use ubuntu_advantage_client.Entitlement.{Env, Entitlement}
use ubuntu_advantage_client.Entitlement.Checks.{can_disable, CanDisable, dependents_check}
use ubuntu_advantage_client.Entitlement.Disable.{
  Disabler, resolve_disable, resolve_by, dependents_answered, disable_dependents,
}
use ubuntu_advantage_client.Entitlement.Verdict.{Inactive, any_active-Inactive, status_cases}
use ubuntu_advantage_client.Entitlement.Status.{CanDisableFailure, CanDisableFailureReason}
use ubuntu_advantage_client.Entitlement.Promises.{
  KeepsInactive, KeepsPromises, >>=-KeepsInactive, instance_of, KeepsCalls,
}
use ubuntu_advantage_client.Entitlement.Dependents.{dependents-KeepsInactive, dependents-Inactive}

module _ {H : Type 0} (env : Env H) (promises : KeepsPromises env) (disabler : Disabler H)
    (calls : KeepsCalls env disabler) (name : String) (yes_to_all beta : Bool) where
  -- the instance that is being disabled
  abbrev self : Entitlement H
  self = instance_of env name yes_to_all beta

  dependents_check-Inactive :
      (ds : List String) (m : Machine H) (f : Option CanDisableFailure)
      → dependents_check env ds false m ≡ ok (true, f)
      → All (Inactive env m) ds
  dependents_check-Inactive [] m f h = tt
  dependents_check-Inactive (d ∷ ds) m f h = (any_active-Inactive env (d ∷ ds) m).0 (ground arith)

  can_disable-Inactive :
      (m : Machine H) (f : Option CanDisableFailure)
      → can_disable env self false m ≡ ok (true, f)
      → All (Inactive env m) (env.service name).dependent_services
  unfolding can_disable
  can_disable-Inactive m f h = elim (status_cases ((env.service name).application_status m)) [
    | inl (x, p) ↦ dependents_check-Inactive (env.service name).dependent_services m f (rw p at h)
    | inr (inl (x, p)) ↦ cc (rw p at h)
    | inr (inr (x, p)) ↦ cc (rw p at h)
  ]

  by_reason-Inactive :
      (silent : Bool) (fail : CanDisableFailure) (reason : CanDisableFailureReason)
      (m₁ m₂ : Machine H)
      → resolve_by disabler env self silent fail reason m₁ ≡ (ok none, m₂)
      → All (Inactive env m₂) (env.service name).dependent_services
  unfolding resolve_by
  by_reason-Inactive silent fail CanDisableFailureReason.active_dependent_services m₁ m₂ h =
      let (r, m, p, q) = returns_through _ (dependents_answered disabler env self fail) none m₂ h in
      answered r m p q
    where
      answered :
          (r : Bool × Option Message) (m : Machine H)
          → disable_dependents disabler env self silent (env.service name).dependent_services m₁
            ≡ (ok r, m)
          → dependents_answered disabler env self fail r m ≡ (ok none, m₂)
          → All (Inactive env m₂) (env.service name).dependent_services
      answered (true, msg) m p q =
          subst (λ k. All (Inactive env k) (env.service name).dependent_services) (ap (λ t. t.1) q)
            (dependents-Inactive env promises disabler calls name yes_to_all beta silent
              (env.service name).dependent_services m₁ m msg p)
      answered (false, msg) m p q = cc q
  by_reason-Inactive silent fail _ m₁ m₂ h = cc h

  pub resolve-Inactive :
      (silent : Bool) (answer : CanDisable) (m₁ m₂ : Machine H)
      → can_disable env self false m₁ ≡ ok answer
      → resolve_disable disabler env self silent answer m₁ ≡ (ok none, m₂)
      → All (Inactive env m₂) (env.service name).dependent_services
  unfolding resolve_disable
  resolve-Inactive silent (true, f) m₁ m₂ p h =
      subst (λ m. All (Inactive env m) (env.service name).dependent_services) (ap (λ t. t.1) h)
        (can_disable-Inactive m₁ f p)
  resolve-Inactive silent (false, none) m₁ m₂ p h = cc h
  resolve-Inactive silent (false, some fail) m₁ m₂ p h =
      by_reason-Inactive silent fail fail.reason m₁ m₂ h

  -- the invariant through the rest of `disable`
  by_reason-KeepsInactive :
      (silent : Bool) (fail : CanDisableFailure) (reason : CanDisableFailureReason)
      → KeepsInactive env (resolve_by disabler env self silent fail reason)
  unfolding resolve_by
  by_reason-KeepsInactive silent fail CanDisableFailureReason.active_dependent_services =
      >>=-KeepsInactive env
        (disable_dependents disabler env self silent (env.service name).dependent_services)
        (dependents_answered disabler env self fail)
        (dependents-KeepsInactive env promises disabler calls name yes_to_all beta silent
          (env.service name).dependent_services)
        answered
    where
      answered :
          (r : Bool × Option Message)
          → KeepsInactive env (dependents_answered disabler env self fail r)
      answered (true, msg) m k h = h
      answered (false, msg) m k h = h
  by_reason-KeepsInactive silent fail _ = λ m k h. h

  pub resolve-KeepsInactive :
      (silent : Bool) (answer : CanDisable)
      → KeepsInactive env (resolve_disable disabler env self silent answer)
  unfolding resolve_disable
  resolve-KeepsInactive silent (true, f) = λ m k h. h
  resolve-KeepsInactive silent (false, none) = λ m k h. h
  resolve-KeepsInactive silent (false, some fail) = by_reason-KeepsInactive silent fail fail.reason
