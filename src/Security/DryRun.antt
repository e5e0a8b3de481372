-- ===== src/Security/DryRun.antt =====
-- What a fix with `--dry-run` changes.
use ubuntu_advantage_client.Base.{
  ℕ, String, Bool, true, false, Option, none, some, List, [], ◌∷◌, ◌===◌, ◌&&◌, not, is_nonempty,
}
use ubuntu_advantage_client.Exception.{ok}
use ubuntu_advantage_client.Json.{Value, null, bool, get_attr, truthy}
use ubuntu_advantage_client.Machine.{Message}
use ubuntu_advantage_client.Machine.OnlyShows.{
  OnlyShows, pure-OnlyShows, if-OnlyShows, >>=-OnlyShows, read-OnlyShows, show-OnlyShows,
}
use ubuntu_advantage_client.Entitlement.{Env}
use ubuntu_advantage_client.Entitlement.Status.{ApplicabilityStatus, applicable, inapplicable}
use ubuntu_advantage_client.Entitlement.Applicability.{applicability_status, user_facing_status}
use ubuntu_advantage_client.Security.{ubuntu_standard_updates_pocket}
use ubuntu_advantage_client.Security.Ask.{Calls, get_service_for_pocket, is_active_status}
use ubuntu_advantage_client.Security.Upgrade.{
  check_attached, enable_if_applicable, when_past, check_cached, offer_enable,
  check_subscription_for_required_service, when_expires, check_subscription_is_expired,
  check_subscription, check_pocket, upgrade_if, upgrade_as, upgrade_packages_and_attach,
  status_cache_of,
}
use ubuntu_advantage_client.Dict.{Dict, lookup}
use ubuntu_advantage_client.Security.Fix.{
  format_packages_message, or_no_list, after_upgrade, all_pockets, nothing_installed, Affected,
  InstallResult, announced, upgrade_pocket, handle_pocket, handle_pockets,
  handle_released_package_fixes,
}

module _ {H : Type 0} (env : Env H) (calls : Calls H) where
  offer_enable-OnlyShows : (name : String) → OnlyShows (offer_enable env calls true name)
  offer_enable-OnlyShows name = show-OnlyShows pure-OnlyShows

  by_applicability :
      (a : ApplicabilityStatus) (name : String)
      → OnlyShows (enable_if_applicable env calls true name a)
  by_applicability applicable name = offer_enable-OnlyShows name
  by_applicability inapplicable name = show-OnlyShows pure-OnlyShows

  required-OnlyShows :
      (pocket : String) → OnlyShows (check_subscription_for_required_service env calls pocket true)
  unfolding check_subscription_for_required_service
  required-OnlyShows pocket = read-OnlyShows (get_service_for_pocket env pocket) λ ent.
      read-OnlyShows (user_facing_status env ent.service) λ (status, _).
        if-OnlyShows (is_active_status status) pure-OnlyShows (
          read-OnlyShows (applicability_status env ent.service)
            λ (applicability, _). by_applicability applicability ent.name)

  is_past-OnlyShows : (v : Value) → OnlyShows (when_past env calls true v)
  is_past-OnlyShows v =
      read-OnlyShows (calls.is_past v)
        λ past. if-OnlyShows (not past) pure-OnlyShows (show-OnlyShows pure-OnlyShows)

  when_expires-OnlyShows : (v : Value) → OnlyShows (when_expires env calls true v)
  when_expires-OnlyShows null = pure-OnlyShows
  when_expires-OnlyShows v = is_past-OnlyShows v

  attached-OnlyShows : OnlyShows (check_attached env calls true)
  unfolding check_attached
  attached-OnlyShows = show-OnlyShows pure-OnlyShows

  expired-OnlyShows :
      (cache : Value) → OnlyShows (check_subscription_is_expired env calls cache true)
  unfolding check_subscription_is_expired
  expired-OnlyShows cache =
      read-OnlyShows (λ m. get_attr "expires" null cache) when_expires-OnlyShows

  -- what `check_subscription` does with what the status cache says
  by_attached : (cache attached : Value) → OnlyShows (check_cached env calls true cache attached)
  by_attached cache attached = if-OnlyShows (not (truthy attached)) attached-OnlyShows (
      >>=-OnlyShows {a = check_subscription_is_expired env calls cache true}
        (expired-OnlyShows cache) λ expired. pure-OnlyShows {a = not expired})

  check_subscription-OnlyShows : OnlyShows (check_subscription env calls true)
  unfolding check_subscription
  check_subscription-OnlyShows =
      read-OnlyShows (λ m. ok (status_cache_of env calls m))
        λ cache.
          read-OnlyShows (λ m. get_attr "attached" (bool false) cache)
            λ attached. by_attached cache attached

  check_pocket-OnlyShows : (pocket : String) → OnlyShows (check_pocket env calls pocket true)
  unfolding check_pocket
  check_pocket-OnlyShows pocket =
      if-OnlyShows (pocket === ubuntu_standard_updates_pocket) pure-OnlyShows (
        >>=-OnlyShows {a = check_subscription env calls true} check_subscription-OnlyShows
          λ subscribed. if-OnlyShows (not subscribed) pure-OnlyShows (required-OnlyShows pocket))

  upgrade_if-OnlyShows :
      (pkgs : List String) (ready : Bool) → OnlyShows (upgrade_if env calls pkgs true ready)
  upgrade_if-OnlyShows pkgs ready =
      if-OnlyShows (not ready) pure-OnlyShows
        (show-OnlyShows (>>=-OnlyShows (pure-OnlyShows {a = tt}) λ _. pure-OnlyShows {a = true}))

  upgrade_as-OnlyShows :
      (pkgs : List String) (pocket : String) (root : Bool)
      → OnlyShows (upgrade_as env calls pkgs pocket true root)
  upgrade_as-OnlyShows pkgs pocket root =
      if-OnlyShows (not root && false) (show-OnlyShows pure-OnlyShows) (
        >>=-OnlyShows {a = check_pocket env calls pocket true} (check_pocket-OnlyShows pocket)
          (upgrade_if-OnlyShows pkgs))

  pub upgrade-OnlyShows :
      (pkgs : List String) (pocket : String)
      → OnlyShows (upgrade_packages_and_attach env calls pkgs pocket true)
  unfolding upgrade_packages_and_attach
  upgrade-OnlyShows pkgs pocket =
      if-OnlyShows (not (is_nonempty pkgs)) pure-OnlyShows
        (read-OnlyShows (λ m. ok (calls.is_root m)) (upgrade_as-OnlyShows pkgs pocket))

module _ {H : Type 0} (env : Env H) (calls : Calls H) (num_pkgs : ℕ) where
  upgrade_pocket-OnlyShows :
      (pocket : String) (srcs : List Affected) (pkgs : List String) (r : InstallResult)
      → OnlyShows (upgrade_pocket env calls num_pkgs true pocket srcs pkgs r)
  upgrade_pocket-OnlyShows pocket srcs pkgs r =
      >>=-OnlyShows {a = upgrade_packages_and_attach env calls pkgs pocket true}
        (upgrade-OnlyShows env calls pkgs pocket)
        λ upgraded. pure-OnlyShows {a = after_upgrade env calls num_pkgs true srcs pkgs r upgraded}

  announced-OnlyShows :
      (msg : Option Message) (pocket : String) (srcs : List Affected) (pkgs : List String)
      (r : InstallResult)
      → OnlyShows (announced env calls num_pkgs true msg pocket srcs pkgs r)
  announced-OnlyShows none pocket srcs pkgs r = upgrade_pocket-OnlyShows pocket srcs pkgs r
  announced-OnlyShows (some msg) pocket srcs pkgs r = show-OnlyShows (
      if-OnlyShows (not (is_nonempty pkgs)) (show-OnlyShows pure-OnlyShows)
        (upgrade_pocket-OnlyShows pocket srcs pkgs (record r { all_already_installed = false })))

  handle_pocket-OnlyShows :
      (pocket : String) (srcs : List Affected) (pkgs : List String) (r : InstallResult)
      → OnlyShows (handle_pocket env calls num_pkgs true pocket srcs pkgs r)
  unfolding handle_pocket
  handle_pocket-OnlyShows pocket srcs pkgs r =
      if-OnlyShows r.fix_status
        (announced-OnlyShows (format_packages_message srcs r.pkg_index num_pkgs) pocket srcs pkgs r)
        pure-OnlyShows

  handle_pockets-OnlyShows :
      (src : Dict (List Affected)) (bin : Dict (List String)) (pockets : List String)
      (r : InstallResult)
      → OnlyShows (handle_pockets env calls num_pkgs true src bin pockets r)
  unfolding handle_pockets
  handle_pockets-OnlyShows src bin [] r = pure-OnlyShows
  handle_pockets-OnlyShows src bin (pocket ∷ pockets) r =
      >>=-OnlyShows
        (handle_pocket-OnlyShows pocket (or_no_list (lookup pocket src))
          (or_no_list (lookup pocket bin)) r)
        (handle_pockets-OnlyShows src bin pockets)

  pub handle_released-OnlyShows :
      (src : Dict (List Affected)) (bin : Dict (List String)) (pkg_index : ℕ)
      → OnlyShows (handle_released_package_fixes env calls num_pkgs true src bin pkg_index)
  unfolding handle_released_package_fixes
  handle_released-OnlyShows src bin pkg_index =
      if-OnlyShows (is_nonempty src)
        (handle_pockets-OnlyShows src bin all_pockets (nothing_installed pkg_index)) pure-OnlyShows
