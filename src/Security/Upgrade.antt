-- ===== src/Security/Upgrade.antt =====
-- `upgrade_packages_and_attach` and the checks before it (uaclient/security.py).
use ubuntu_advantage_client.Base.{
  String, Bool, true, false, none, some, List, [], ◌∷◌, ◌===◌, not, ◌&&◌, if◌then◌else◌,
  is_nonempty,
}
use ubuntu_advantage_client.Exception.{ok}
use ubuntu_advantage_client.Json.{Value, null, bool, str, obj, end, get, get_attr, truthy}
use ubuntu_advantage_client.Machine.{
  Machine, Message, named, Action, pure, reads, info, when, ◌>>=◌, ◌>>◌,
}
use ubuntu_advantage_client.Entitlement.{Env}
use ubuntu_advantage_client.Entitlement.Status.{ApplicabilityStatus, applicable, inapplicable}
use ubuntu_advantage_client.Entitlement.Applicability.{applicability_status, user_facing_status}
use ubuntu_advantage_client.Dict.{sort_by}
use ubuntu_advantage_client.Security.{ubuntu_standard_updates_pocket}
use ubuntu_advantage_client.Security.Ask.{
  Calls, is_active_status, command, get_service_for_pocket, prompt_for_attach, prompt_for_enable,
  prompt_for_new_token,
}

module _ {H : Type 0} (env : Env H) (calls : Calls H) where
  unfoldable pub check_attached : Bool → Action H Bool
  unfolding prompt_for_attach
  check_attached dry_run =
      if dry_run
      then (info (named "SECURITY_DRY_RUN_UA_NOT_ATTACHED" []) >> pure true)
      else prompt_for_attach calls

  abbrev pub offer_enable : Bool → String → Action H Bool
  offer_enable dry_run name =
      if dry_run
      then (info (named "SECURITY_DRY_RUN_UA_SERVICE_NOT_ENABLED" (str name ∷ [])) >> pure true)
      else (prompt_for_enable calls name >>= λ enabled.
          if enabled
          then pure true
          else (info (named "SECURITY_UA_SERVICE_NOT_ENABLED" (str name ∷ [])) >> pure false))

  abbrev pub enable_if_applicable : Bool → String → ApplicabilityStatus → Action H Bool
  enable_if_applicable dry_run name applicable = offer_enable dry_run name
  enable_if_applicable dry_run name inapplicable =
      info (named "SECURITY_UA_SERVICE_NOT_ENTITLED" (str name ∷ [])) >> pure false

  unfoldable pub check_subscription_for_required_service : String → Bool → Action H Bool
  unfolding get_service_for_pocket prompt_for_enable
  check_subscription_for_required_service pocket dry_run =
      reads (get_service_for_pocket env pocket) >>= λ ent.
      reads (user_facing_status env ent.service) >>= λ (status, _).
      if is_active_status status
      then pure true
      else (reads (applicability_status env ent.service) >>= λ (applicability, _).
          enable_if_applicable dry_run ent.name applicability)

  abbrev pub when_past : Bool → Value → Action H Bool
  when_past dry_run expires = reads (calls.is_past expires) >>= λ past.
      if not past
      then pure false
      else if dry_run
      then (info (named "SECURITY_DRY_RUN_UA_EXPIRED_SUBSCRIPTION" []) >> pure false)
      else (prompt_for_new_token calls >>= λ renewed. pure (not renewed))

  -- `None` says that there is no subscription
  abbrev pub when_expires : Bool → Value → Action H Bool
  when_expires dry_run null = pure false
  when_expires dry_run expires = when_past dry_run expires

  unfoldable pub check_subscription_is_expired : Value → Bool → Action H Bool
  unfolding prompt_for_new_token
  check_subscription_is_expired status_cache dry_run =
      reads (λ m. get_attr "expires" null status_cache) >>= when_expires dry_run

  -- cfg.read_cache("status-cache") or {}
  abbrev pub status_cache_of : Machine H → Value
  status_cache_of m = elim (get "status-cache" m.cache) [
    | none ↦ obj end
    | some v ↦ if truthy v then v else obj end
  ]

  abbrev pub check_cached : Bool → Value → Value → Action H Bool
  check_cached dry_run status_cache attached =
      if not (truthy attached)
      then check_attached dry_run
      else (check_subscription_is_expired status_cache dry_run >>= λ expired. pure (not expired))

  -- True where the subscription does not stop the upgrade
  unfoldable pub check_subscription : Bool → Action H Bool
  unfolding check_attached check_subscription_is_expired
  check_subscription dry_run = reads (λ m. ok (status_cache_of m)) >>= λ status_cache.
      reads (λ m. get_attr "attached" (bool false) status_cache) >>= λ attached.
      check_cached dry_run status_cache attached

  unfoldable pub check_pocket : String → Bool → Action H Bool
  unfolding check_subscription check_subscription_for_required_service
  check_pocket pocket dry_run =
      if pocket === ubuntu_standard_updates_pocket
      then pure true
      else (check_subscription dry_run >>= λ subscribed.
          if not subscribed
          then pure false
          else check_subscription_for_required_service pocket dry_run)

  abbrev pub upgrade_command : List String → Message
  upgrade_command upgrade_pkgs = command (
      "apt"
      ∷ "update"
      ∷ "&&"
      ∷ "apt"
      ∷ "install"
      ∷ "--only-upgrade"
      ∷ "-y"
      ∷ sort_by (λ p. p) upgrade_pkgs)

  abbrev pub run_upgrade : List String → Bool → Action H Bool
  run_upgrade upgrade_pkgs dry_run =
      info (upgrade_command upgrade_pkgs)
      >> (when (not dry_run) (calls.run_apt_update_command >> calls.apt_install upgrade_pkgs)
          >> pure true)

  abbrev pub upgrade_if : List String → Bool → Bool → Action H Bool
  upgrade_if upgrade_pkgs dry_run ready =
      if not ready then pure false else run_upgrade upgrade_pkgs dry_run

  -- the rest for a user who is root, or is not
  abbrev pub upgrade_as : List String → String → Bool → Bool → Action H Bool
  upgrade_as upgrade_pkgs pocket dry_run root =
      if not root && not dry_run
      then (info (named "SECURITY_APT_NON_ROOT" []) >> pure false)
      else (check_pocket pocket dry_run >>= upgrade_if upgrade_pkgs dry_run)

  unfoldable pub upgrade_packages_and_attach : List String → String → Bool → Action H Bool
  unfolding check_pocket sort_by
  upgrade_packages_and_attach upgrade_pkgs pocket dry_run =
      if not (is_nonempty upgrade_pkgs)
      then pure true
      else (reads (λ m. ok (calls.is_root m)) >>= upgrade_as upgrade_pkgs pocket dry_run)
