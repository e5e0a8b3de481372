-- ===== src/Entitlement/Checks.antt =====
-- `can_enable`, `can_disable` and the services that stand in the way
-- (uaclient/entitlements/base.py).
use ubuntu_advantage_client.Base.{
  String, Bool, true, false, Option, none, some, List, [], ◌∷◌, if◌then◌else◌, not, ◌&&◌,
  is_nonempty,
}
use ubuntu_advantage_client.Exception.{Result, ok, ◌>>=◌ as ◌>>>=◌}
use ubuntu_advantage_client.Json.{str}
use ubuntu_advantage_client.Machine.{Machine, Message, named, Action, reads, when, ◌>>=◌, ◌>>◌}
use ubuntu_advantage_client.Entitlement.{Env, Entitlement, IncompatibleService}
use ubuntu_advantage_client.Entitlement.Contract.{contract_status, is_access_expired, valid_service}
use ubuntu_advantage_client.Entitlement.Applicability.{applicability_status, ◌and_then◌}
use ubuntu_advantage_client.Entitlement.Status.{
  entitled, unentitled, applicable, inapplicable, CanEnableFailure, CanEnableFailureReason,
  CanDisableFailure, CanDisableFailureReason, is_enabled, is_disabled,
}

abbrev pub CanEnable : Type 0
CanEnable = Bool × Option CanEnableFailure

abbrev pub CanDisable : Type 0
CanDisable = Bool × Option CanDisableFailure

module _ {H : Type 0} (env : Env H) where
  -- cls(self.cfg).application_status()[0] == ApplicationStatus.ENABLED
  abbrev pub is_active : String → Machine H → Result Bool
  is_active name m =
      (env.service name).application_status m >>>= λ (status, _). ok (is_enabled status)

  -- the loop of `detect_dependent_services`
  unfoldable pub any_active : List String → Machine H → Result Bool
  any_active [] m = ok false
  any_active (name ∷ names) m =
      let rest = any_active names m in is_active name m >>>= λ b. if b then ok true else rest

  -- the loop of `check_required_services_active`
  unfoldable pub all_active : List String → Machine H → Result Bool
  all_active [] m = ok true
  all_active (name ∷ names) m =
      let rest = all_active names m in is_active name m >>>= λ b. if b then rest else ok false

  -- `blocking_incompatible_services`
  unfoldable pub blocking : List IncompatibleService → Machine H → Result (List IncompatibleService)
  blocking [] m = ok []
  blocking (s ∷ ss) m = is_active s.entitlement m >>>= λ b.
      blocking ss m >>>= λ rest. ok (if b then s ∷ rest else rest)

  -- `detect_dependent_services`, in `can_disable`
  abbrev pub dependents_check : List String → Bool → Machine H → Result CanDisable
  dependents_check dependents ignore_dependent_services m =
      if is_nonempty dependents && not ignore_dependent_services
      then (any_active dependents m >>>= λ found. ok (
          if found
          then (
            false,
            some (record {
              reason = CanDisableFailureReason.active_dependent_services;
              message = none;
            }),
          )
          else (true, none)))
      else ok (true, none)

abbrev pub failure : CanEnableFailureReason → Option Message → Option CanEnableFailure
failure reason msg = some (record { reason = reason; message = msg })

abbrev pub answer_enable : Option CanEnableFailure → CanEnable
answer_enable none = (true, none)
answer_enable (some fail) = (false, some fail)

module _ {H : Type 0} (env : Env H) (e : Entitlement H) where
  abbrev pub check_required_services_active : Machine H → Result Bool
  check_required_services_active m = all_active env e.required_services m

  abbrev pub blocking_incompatible_services : Machine H → Result (List IncompatibleService)
  blocking_incompatible_services m = blocking env e.incompatible_services m

  abbrev pub detect_incompatible_services : Machine H → Result Bool
  detect_incompatible_services m = blocking_incompatible_services m >>>= λ ss. ok (is_nonempty ss)

  -- The checks of `can_enable`, in their order; `none` lets the next one decide.
  abbrev pub entitled_check : Machine H → Result (Option CanEnableFailure)
  entitled_check m = contract_status e.service m >>>= λ status. ok (elim status [
    | entitled ↦ none
    | unentitled ↦
        failure CanEnableFailureReason.not_entitled (some (named "UNENTITLED" (str e.title ∷ [])))
  ])

  abbrev pub enabled_check : Machine H → Result (Option CanEnableFailure)
  enabled_check m = e.application_status m >>>= λ (status, _). ok (
      if is_disabled status
      then none
      else failure CanEnableFailureReason.already_enabled
          (some (named "ALREADY_ENABLED" (str e.title ∷ []))))

  abbrev pub beta_check : Machine H → Result (Option CanEnableFailure)
  beta_check m = valid_service e m >>>= λ valid.
      ok (if valid then none else failure CanEnableFailureReason.is_beta none)

  abbrev pub applicable_check : Machine H → Result (Option CanEnableFailure)
  applicable_check m = applicability_status env e.service m >>>= λ (status, details).
      ok (elim status [
        | applicable ↦ none
        | inapplicable ↦ failure CanEnableFailureReason.inapplicable details
      ])

  abbrev pub incompatible_check : Machine H → Result (Option CanEnableFailure)
  incompatible_check m =
      if is_nonempty e.incompatible_services
      then (detect_incompatible_services m >>>= λ found.
          ok (if found then failure CanEnableFailureReason.incompatible_service none else none))
      else ok none

  abbrev pub required_check : Machine H → Result (Option CanEnableFailure)
  required_check m =
      if is_nonempty e.required_services
      then (check_required_services_active m >>>= λ active.
          ok (
            if active
            then none
            else failure CanEnableFailureReason.inactive_required_services none))
      else ok none

  -- `can_enable` after the refresh of the contract: it only reads
  unfoldable pub enable_verdict : Machine H → Result CanEnable
  enable_verdict m =
      (entitled_check m
        and_then enabled_check m
        and_then beta_check m
        and_then applicable_check m
        and_then incompatible_check m
        and_then required_check m)
      >>>= λ r. ok (answer_enable r)

  unfoldable pub can_enable : Action H CanEnable
  unfolding enable_verdict
  can_enable = do
    expired ← reads (is_access_expired env e.service)
    when expired env.request_updated_contract
    reads enable_verdict

  unfoldable pub can_disable : Bool → Machine H → Result CanDisable
  can_disable ignore_dependent_services m = e.application_status m >>>= λ (status, _).
      if is_disabled status
      then ok (
        false,
        some (record {
          reason = CanDisableFailureReason.already_disabled;
          message = some (named "ALREADY_DISABLED" (str e.title ∷ []));
        }),
      )
      else dependents_check env e.dependent_services ignore_dependent_services m
