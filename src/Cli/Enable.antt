-- ===== src/Cli/Enable.antt =====
-- `action_enable` (uaclient/cli.py) and `enable_entitlement_by_name` (uaclient/actions.py).
use ubuntu_advantage_client.Base.{
  ℕ, String, Bool, true, false, Option, none, some, List, [], ◌∷◌, ◌++◌, ◌||◌, contains,
  if◌then◌else◌, is_nonempty,
}
use ubuntu_advantage_client.Exception.{
  Exception, Result, ok, err, user_facing, other_error, security_api_error, is_user_facing,
}
use ubuntu_advantage_client.Json.{null, str, end}
use ubuntu_advantage_client.Machine.{Machine, named, Action, pure, raise, reads, info, ◌>>=◌, ◌>>◌}
use ubuntu_advantage_client.EventLogger.{
  Call, warning, error, service_failed, services_failed, service_processed,
}
use ubuntu_advantage_client.Entitlement.{Env}
use ubuntu_advantage_client.Entitlement.Status.{CanEnableFailureReason, is_beta}
use ubuntu_advantage_client.Entitlement.Checks.{CanEnable}
use ubuntu_advantage_client.Entitlement.Enable.{enable}
use ubuntu_advantage_client.Entitlement.Refresh.{Selector}
use ubuntu_advantage_client.Registry.{entitlement_factory, valid_services}
use ubuntu_advantage_client.Contract.{ContractClient, request_updated_contract, name_of}
use ubuntu_advantage_client.Security.Ask.{message_of_error}
use ubuntu_advantage_client.Cli.{
  Args, LockAccess, Commands, report_message, guarded, get_valid_entitlement_names,
}

-- `except exceptions.UrlError`, the class with its subclasses
abbrev pub is_url_error : Exception → Bool
is_url_error (security_api_error _) = true
is_url_error (other_error name) = contains ("UrlError" ∷ "ContractAPIError" ∷ []) name
is_url_error _ = false

-- The local variables `ret` and `entitlements_not_found` of `action_enable`.
pub record Enabling : Type 0 where
  pub ret : Bool
  pub not_found : List String

abbrev pub is_beta_failure : CanEnableFailureReason → Bool
is_beta_failure is_beta = true
is_beta_failure _ = false

module _ {H : Type 0} (env : Env H) (sel : Selector H) (depth : ℕ) (client : ContractClient H)
    (commands : Commands H) where
  abbrev pub log_all : List Call → Action H (Unit {0})
  log_all [] = pure tt
  log_all (c ∷ cs) = commands.log c >> log_all cs

  -- what the event logger is told during the refresh is told at its end
  abbrev pub logged : (Result (Unit {0}) × List Call) × Machine H → Result (Unit {0}) × Machine H
  logged ((r, calls), m) = (log_all calls >> reads (λ _. r)) m

  abbrev pub unless_refused : Result (Unit {0}) × Machine H → Result (Unit {0}) × Machine H
  unless_refused (ok _, m) = (ok tt, m)
  unless_refused (err e, m) =
      if is_url_error e || is_user_facing e
      then commands.log (warning "REFRESH_CONTRACT_FAILURE" none) m
      else (err e, m)

  -- Inability to refresh does not stop an enable.
  unfoldable pub try_refresh : Action H (Unit {0})
  unfolding request_updated_contract
  try_refresh m =
      unless_refused (logged (request_updated_contract env sel depth client null false m))

  unfoldable pub enable_entitlement_by_name : Bool → Bool → String → Action H CanEnable
  unfolding enable
  enable_entitlement_by_name assume_yes allow_beta name =
      reads (entitlement_factory env (str name)) >>= λ service.
      enable env depth
        (record { service = service; assume_yes = assume_yes; allow_beta = allow_beta }) false

  -- what follows the answer of a service
  abbrev pub answered : String → Enabling → CanEnable → Action H Enabling
  answered name s (true, reason) = commands.log (service_processed name) >> pure s
  answered name s (false, none) =
      commands.log (service_failed name) >> pure (record s { ret = false })
  answered name s (false, some fail) =
      report_message env depth commands name fail.message
      >> pure (record {
        ret = false;
        not_found = if is_beta_failure fail.reason then s.not_found ++ name ∷ [] else s.not_found;
      })

  -- `except exceptions.UserFacingError`
  abbrev pub caught : String → Enabling → Result Enabling × Machine H → Result Enabling × Machine H
  caught name s (ok t, m) = (ok t, m)
  caught name s (err e, m) =
      if is_user_facing e
      then (info (message_of_error e)
            >> commands.log (
                error (name_of (message_of_error e)) (some (name_of (message_of_error e)))
                  (some name) none end)
            >> pure (record s { ret = false }))
          m
      else (err e, m)

  unfoldable pub enable_one : Bool → Bool → String → Enabling → Action H Enabling
  unfolding enable_entitlement_by_name
  enable_one assume_yes allow_beta name s m = caught name s (
      (enable_entitlement_by_name assume_yes allow_beta name >>= λ answer.
      (commands.update_status >> answered name s answer))
        m)

  unfoldable pub enable_named : Bool → Bool → List String → Enabling → Action H Enabling
  unfolding enable_one
  enable_named assume_yes allow_beta [] s = pure s
  enable_named assume_yes allow_beta (name ∷ names) s =
      enable_one assume_yes allow_beta name s >>= enable_named assume_yes allow_beta names

  abbrev pub finish_enable : Bool → Enabling → Action H ℕ
  finish_enable allow_beta s =
      if is_nonempty s.not_found
      then (reads (valid_services env allow_beta false)
          >> commands.log (services_failed s.not_found)
          >> raise (user_facing "INVALID_SERVICE_OP_FAILURE"))
      else (commands.process_events >> pure (if s.ret then 0 else 1))

  -- the body of `action_enable`
  unfoldable pub enable_services : Bool → Bool → List String → Action H ℕ
  unfolding try_refresh get_valid_entitlement_names enable_named
  enable_services assume_yes allow_beta names =
      info (named "REFRESH_CONTRACT_ENABLE" [])
      >> try_refresh
      >> reads (get_valid_entitlement_names env depth commands names)
      >>= λ (found, not_found).
          (enable_named assume_yes allow_beta found (record { ret = true; not_found = not_found })
            >>= finish_enable allow_beta)

  unfoldable pub action_enable : LockAccess H → Option Args → Bool → Bool → List String → Action H ℕ
  unfolding guarded enable_services
  action_enable access args assume_yes allow_beta names =
      guarded access args "pro enable" (enable_services assume_yes allow_beta names)
