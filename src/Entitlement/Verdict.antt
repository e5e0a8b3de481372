-- ===== src/Entitlement/Verdict.antt =====
-- When a service can be enabled or disabled.
use ubuntu_advantage_client.Base.{
  String, ◌≡◌, ◌↔◌, ◌⊎◌, inl, inr, refl, true, false, Option, none, some, List, [], ◌∷◌, All, arith,
  is_nonempty, if◌then◌else◌,
}
use ubuntu_advantage_client.Exception.{Exception, Result, ok, err, ◌>>=◌}
use ubuntu_advantage_client.Machine.{Machine, Message, named}
use ubuntu_advantage_client.Entitlement.{Env, Entitlement, IncompatibleService}
use ubuntu_advantage_client.Entitlement.Contract.{contract_status, valid_service}
use ubuntu_advantage_client.Json.{str}
use ubuntu_advantage_client.Entitlement.Applicability.{applicability_status, ◌and_then◌}
use ubuntu_advantage_client.Entitlement.Checks.{
  any_active, all_active, blocking, enable_verdict, answer_enable, failure, entitled_check,
  enabled_check, beta_check, applicable_check, incompatible_check, required_check,
}
use ubuntu_advantage_client.Entitlement.Status.{
  ApplicationStatus, enabled, disabled, entitled, unentitled, applicable, inapplicable,
  ApplicabilityStatus, CanEnableFailure, CanEnableFailureReason,
}

-- A status query reports enabled, or disabled, or raises.
pub status_cases :
    (r : Result (ApplicationStatus × Option Message))
    → ((x : Option Message) × (r ≡ ok (enabled, x)))
      ⊎ ((x : Option Message) × (r ≡ ok (disabled, x)))
      ⊎ ((e : Exception) × (r ≡ err e))
status_cases (ok (enabled, x)) = inl (x, refl)
status_cases (ok (disabled, x)) = inr (inl (x, refl))
status_cases (err e) = inr (inr (e, refl))

module _ {H : Type 0} (env : Env H) where
  -- the service reports that it is enabled, or that it is disabled
  abbrev pub Active : Machine H → String → Type 0
  Active m name = (x : Option Message) × ((env.service name).application_status m ≡ ok (enabled, x))

  abbrev pub Inactive : Machine H → String → Type 0
  Inactive m name =
      (x : Option Message) × ((env.service name).application_status m ≡ ok (disabled, x))

  pub all_active-Active :
      (names : List String) (m : Machine H)
      → (all_active env names m ≡ ok true) ↔ All (Active m) names
  unfolding all_active
  all_active-Active [] m = (λ h. tt, λ h. refl)
  all_active-Active (n ∷ ns) m = elim (status_cases ((env.service n).application_status m)) [
    | inl (x, e) ↦ (
      λ h. ((x, e), (all_active-Active ns m).0 (rw e at h)),
      λ h. rw e ((all_active-Active ns m).1 h.1),
    )
    | inr (inl (x, e)) ↦ (λ h. cc (rw e at h), λ h. cc (h.0.1, e))
    | inr (inr (x, e)) ↦ (λ h. cc (rw e at h), λ h. cc (h.0.1, e))
  ]

  pub any_active-Inactive :
      (names : List String) (m : Machine H)
      → (any_active env names m ≡ ok false) ↔ All (Inactive m) names
  unfolding any_active
  any_active-Inactive [] m = (λ h. tt, λ h. refl)
  any_active-Inactive (n ∷ ns) m = elim (status_cases ((env.service n).application_status m)) [
    | inl (x, e) ↦ (λ h. cc (rw e at h), λ h. cc (h.0.1, e))
    | inr (inl (x, e)) ↦ (
      λ h. ((x, e), (any_active-Inactive ns m).0 (rw e at h)),
      λ h. rw e ((any_active-Inactive ns m).1 h.1),
    )
    | inr (inr (x, e)) ↦ (λ h. cc (rw e at h), λ h. cc (h.0.1, e))
  ]

  abbrev pub AllInactive : Machine H → List IncompatibleService → Type 0
  AllInactive m ss = All (λ s. Inactive m s.entitlement) ss

  pub blocking-Inactive :
      (ss : List IncompatibleService) (m : Machine H)
      → (blocking env ss m ≡ ok []) ↔ AllInactive m ss
  unfolding blocking
  blocking-Inactive [] m = (λ h. tt, λ h. refl)
  blocking-Inactive (s ∷ ss) m =
      elim (status_cases ((env.service s.entitlement).application_status m)) [
        | inl (x, e) ↦ (λ h. ground (arith, rw e at h), λ h. cc (h.0.1, e))
        | inr (inl (x, e)) ↦ (
          λ h. ((x, e), (blocking-Inactive ss m).0 (ground (arith, rw e at h))),
          λ h. rw e (rw ((blocking-Inactive ss m).1 h.1)),
        )
        | inr (inr (x, e)) ↦ (λ h. cc (rw e at h), λ h. cc (h.0.1, e))
      ]

module _ {H : Type 0} (env : Env H) (e : Entitlement H) where
  -- What must hold for the service to be enabled.
  pub record MayEnable (m : Machine H) : Type 0 where
    pub is_entitled : contract_status e.service m ≡ ok entitled
    pub is_disabled : (x : Option Message) × (e.application_status m ≡ ok (disabled, x))
    pub is_valid : valid_service e m ≡ ok true
    pub is_applicable :
        (x : Option Message) × (applicability_status env e.service m ≡ ok (applicable, x))
    pub no_incompatible : AllInactive env m e.incompatible_services
    pub required_active : All (Active env m) e.required_services

and_then-none :
    {A : Type 0} (p q : Result (Option A))
    → ((p and_then q) ≡ ok none) ↔ ((p ≡ ok none) × (q ≡ ok none))
and_then-none (ok none) q = (λ h. (refl, h), λ h. h.1)
and_then-none (ok (some a)) q = (λ h. cc, λ h. cc (h.0))
and_then-none (err x) q = (λ h. cc, λ h. cc (h.0))

answer-none :
    (r : Result (Option CanEnableFailure))
    → ((r >>= λ x. ok (answer_enable x)) ≡ ok (true, none)) ↔ (r ≡ ok none)
answer-none (ok none) = (λ h. refl, λ h. refl)
answer-none (ok (some f)) = (λ h. cc, λ h. cc)
answer-none (err x) = (λ h. cc, λ h. cc)

applicability_cases :
    (r : Result (ApplicabilityStatus × Option Message))
    → ((x : Option Message) × (r ≡ ok (applicable, x)))
      ⊎ ((x : Option Message) × (r ≡ ok (inapplicable, x)))
      ⊎ ((e : Exception) × (r ≡ err e))
applicability_cases (ok (applicable, x)) = inl (x, refl)
applicability_cases (ok (inapplicable, x)) = inr (inl (x, refl))
applicability_cases (err e) = inr (inr (e, refl))

module _ {H : Type 0} (env : Env H) (m : Machine H) where
  incompatible_list :
      (ss : List IncompatibleService)
      → ((if is_nonempty ss
            then (blocking env ss m >>= (λ xs. ok (is_nonempty xs)) >>= λ found.
                ok (
                  if found then failure CanEnableFailureReason.incompatible_service none else none))
            else ok none)
          ≡ ok none)
        ↔ AllInactive env m ss
  incompatible_list [] = (λ h. tt, λ h. refl)
  incompatible_list (s ∷ ss) = (
    λ h. (blocking-Inactive env (s ∷ ss) m).0 (ground arith),
    λ h. rw ((blocking-Inactive env (s ∷ ss) m).1 h),
  )

  required_list :
      (ns : List String)
      → ((if is_nonempty ns
            then (all_active env ns m >>= λ active. ok (
                if active
                then none
                else failure CanEnableFailureReason.inactive_required_services none))
            else ok none)
          ≡ ok none)
        ↔ All (Active env m) ns
  required_list [] = (λ h. tt, λ h. refl)
  required_list (n ∷ ns) = (
    λ h. (all_active-Active env (n ∷ ns) m).0 (ground arith),
    λ h. rw ((all_active-Active env (n ∷ ns) m).1 h),
  )

module _ {H : Type 0} (env : Env H) (e : Entitlement H) (m : Machine H) where
  entitled_check_iff :
      (entitled_check env e m ≡ ok none) ↔ (contract_status e.service m ≡ ok entitled)
  entitled_check_iff =
      elim (contract_status e.service m)
        as (λ r.
          ((r >>= λ status. ok (elim status [
            | entitled ↦ none
            | unentitled ↦
                failure CanEnableFailureReason.not_entitled
                  (some (named "UNENTITLED" (str e.title ∷ [])))
          ]))
            ≡ ok none)
          ↔ (r ≡ ok entitled)) [
            | ok entitled ↦ (λ h. refl, λ h. refl)
            | ok unentitled ↦ (λ h. cc, λ h. cc)
            | err x ↦ (λ h. cc, λ h. cc)
          ]

  enabled_check_iff :
      (enabled_check env e m ≡ ok none)
      ↔ ((x : Option Message) × (e.application_status m ≡ ok (disabled, x)))
  enabled_check_iff = elim (status_cases (e.application_status m)) [
    | inl (x, p) ↦ (λ h. cc (rw p at h), λ h. cc (h.1, p))
    | inr (inl (x, p)) ↦ (λ h. (x, p), λ h. rw p)
    | inr (inr (x, p)) ↦ (λ h. cc (rw p at h), λ h. cc (h.1, p))
  ]

  beta_check_iff : (beta_check env e m ≡ ok none) ↔ (valid_service e m ≡ ok true)
  beta_check_iff = (λ h. ground arith, λ h. rw h)

  applicable_check_iff :
      (applicable_check env e m ≡ ok none)
      ↔ ((x : Option Message) × (applicability_status env e.service m ≡ ok (applicable, x)))
  applicable_check_iff = elim (applicability_cases (applicability_status env e.service m)) [
    | inl (x, p) ↦ (λ h. (x, p), λ h. rw p)
    | inr (inl (x, p)) ↦ (λ h. cc (rw p at h), λ h. cc (h.1, p))
    | inr (inr (x, p)) ↦ (λ h. cc (rw p at h), λ h. cc (h.1, p))
  ]

  incompatible_check_iff :
      (incompatible_check env e m ≡ ok none) ↔ AllInactive env m e.incompatible_services
  incompatible_check_iff = incompatible_list env m e.incompatible_services

  required_check_iff : (required_check env e m ≡ ok none) ↔ All (Active env m) e.required_services
  required_check_iff = required_list env m e.required_services

  -- The checks pass exactly when the contract entitles the machine to the service, the service is
  -- reported disabled, it is valid and applicable, every incompatible service is reported disabled
  -- and every required one enabled.
  pub enable_verdict_iff : (enable_verdict env e m ≡ ok (true, none)) ↔ MayEnable env e m
  unfolding enable_verdict
  enable_verdict_iff = (
    λ h.
        let (a, r₁) = (and_then-none _ _).0 ((answer-none _).0 h) in
        let (b, r₂) = (and_then-none _ _).0 r₁ in
        let (c, r₃) = (and_then-none _ _).0 r₂ in
        let (d, r₄) = (and_then-none _ _).0 r₃ in
        let (f, g) = (and_then-none _ _).0 r₄ in
        record {
          is_entitled = entitled_check_iff.0 a;
          is_disabled = enabled_check_iff.0 b;
          is_valid = beta_check_iff.0 c;
          is_applicable = applicable_check_iff.0 d;
          no_incompatible = incompatible_check_iff.0 f;
          required_active = required_check_iff.0 g;
        },
    λ h. rw (entitled_check_iff.1 h.is_entitled) (
        rw (enabled_check_iff.1 h.is_disabled) (
          rw (beta_check_iff.1 h.is_valid) (
            rw (applicable_check_iff.1 h.is_applicable) (
              rw (incompatible_check_iff.1 h.no_incompatible)
                (rw (required_check_iff.1 h.required_active)))))),
  )
