-- ===== src/Entitlement/Stopping.antt =====
-- When a service can be disabled.
use ubuntu_advantage_client.Base.{
  String, ◌≡◌, ◌↔◌, refl, true, false, inl, inr, Option, none, List, [], ◌∷◌, All, arith,
}
use ubuntu_advantage_client.Exception.{ok}
use ubuntu_advantage_client.Machine.{Machine, Message}
use ubuntu_advantage_client.Entitlement.{Env, Entitlement}
use ubuntu_advantage_client.Entitlement.Checks.{can_disable, dependents_check}
use ubuntu_advantage_client.Entitlement.Verdict.{Inactive, any_active-Inactive, status_cases}
use ubuntu_advantage_client.Entitlement.Status.{enabled}

module _ {H : Type 0} (env : Env H) where
  dependents_check_iff :
      (ds : List String) (m : Machine H)
      → (dependents_check env ds false m ≡ ok (true, none)) ↔ All (Inactive env m) ds
  dependents_check_iff [] m = (λ h. tt, λ h. refl)
  dependents_check_iff (d ∷ ds) m = (
    λ h. (any_active-Inactive env (d ∷ ds) m).0 (ground arith),
    λ h. rw ((any_active-Inactive env (d ∷ ds) m).1 h) refl,
  )

  -- A service can be disabled, without its dependent services, exactly when it is reported enabled
  -- and every service that depends on it is reported disabled.
  pub can_disable_iff :
      (e : Entitlement H) (m : Machine H)
      → (can_disable env e false m ≡ ok (true, none)) ↔ (
          ((x : Option Message) × (e.application_status m ≡ ok (enabled, x)))
          × All (Inactive env m) e.dependent_services)
  unfolding can_disable
  can_disable_iff e m = elim (status_cases (e.application_status m)) [
    | inl (x, p) ↦ (
      λ h. ((x, p), (dependents_check_iff e.dependent_services m).0 (rw p at h)),
      λ h. rw p ((dependents_check_iff e.dependent_services m).1 h.1),
    )
    | inr (inl (x, p)) ↦ (λ h. cc (rw p at h), λ h. cc (h.0.1, p))
    | inr (inr (x, p)) ↦ (λ h. cc (rw p at h), λ h. cc (h.0.1, p))
  ]
