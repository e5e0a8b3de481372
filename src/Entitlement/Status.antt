-- ===== src/Entitlement/Status.antt =====
-- uaclient/entitlements/entitlement_status.py
use ubuntu_advantage_client.Base.{Option, Bool, true, false}
use ubuntu_advantage_client.Machine.{Message}

pub data ApplicationStatus : Type 0 where
  enabled disabled : ApplicationStatus

pub data ContractStatus : Type 0 where
  entitled unentitled : ContractStatus

pub data ApplicabilityStatus : Type 0 where
  applicable inapplicable : ApplicabilityStatus

pub data UserFacingStatus : Type 0 where
  active inactive inapplicable unavailable : UserFacingStatus

pub data CanEnableFailureReason : Type 0 where
  not_entitled already_enabled inapplicable is_beta : CanEnableFailureReason
  incompatible_service inactive_required_services : CanEnableFailureReason

pub record CanEnableFailure : Type 0 where
  pub reason : CanEnableFailureReason
  pub message : Option Message

pub data CanDisableFailureReason : Type 0 where
  already_disabled active_dependent_services not_found_dependent_service : CanDisableFailureReason

pub record CanDisableFailure : Type 0 where
  pub reason : CanDisableFailureReason
  pub message : Option Message

-- status == ApplicationStatus.ENABLED, status == ApplicationStatus.DISABLED
abbrev pub is_enabled : ApplicationStatus → Bool
is_enabled enabled = true
is_enabled disabled = false

abbrev pub is_disabled : ApplicationStatus → Bool
is_disabled enabled = false
is_disabled disabled = true
