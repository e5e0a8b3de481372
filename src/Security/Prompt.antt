-- ===== src/Security/Prompt.antt =====
-- `prompt_for_affected_packages` (uaclient/security.py).
use ubuntu_advantage_client.Base.{
  ℕ, ◌+◌, String, Bool, false, Option, none, some, List, [], ◌∷◌, ◌++◌, ◌===◌, not, if◌then◌else◌,
  is_nonempty, length,
}
use ubuntu_advantage_client.Base.Int.{pos}
use ubuntu_advantage_client.Exception.{Result}
use ubuntu_advantage_client.Json.{int, str}
use ubuntu_advantage_client.Machine.{
  Machine, Message, named, Action, pure, reads, info, when, ◌>>=◌, ◌>>◌,
}
use ubuntu_advantage_client.Entitlement.{Env}
use ubuntu_advantage_client.Dict.{Dict, keys, sort_by}
use ubuntu_advantage_client.Security.Package.{PackageStatus, Cve}
use ubuntu_advantage_client.Security.Notice.{Usn, Released}
use ubuntu_advantage_client.Security.Affected.{Installed}
use ubuntu_advantage_client.Security.Ask.{Calls, texts}
use ubuntu_advantage_client.Security.Groups.{Sorted, nothing_sorted, add_released}
use ubuntu_advantage_client.Security.Fix.{
  FixStatus, system_non_vulnerable, system_still_vulnerable, system_vulnerable_until_reboot,
  Affected, InstallResult, names_in, group_by_usn_package_status, format_packages_message,
  handle_released_package_fixes,
}

-- What the code asks elsewhere: dpkg's order of versions, the series, `set.pop`, the lines of
-- dpkg-query, split at their commas, and the API.
pub record Queries (H : Type 0) : Type 0 where
  pub version_cmp_le : String → String → Bool
  pub series : String
  pub pop : String → List String → String
  pub dpkg_query : Machine H → Result (List (List String))
  pub get_cve : String → Machine H → Result Cve
  pub get_notice : String → Machine H → Result Usn
  pub get_notices : String → Machine H → Result (List Usn)

abbrev pub printed : Option Message → Message
printed none = named "" []
printed (some msg) = msg

abbrev pub header_message : List String → Message
header_message names = named "SECURITY_AFFECTED_PKGS" (int (pos (length names)) ∷ texts names ∷ [])

abbrev pub unfixed_message : List String → Message
unfixed_message names =
    named "{} package{} {} still affected: {}"
      (int (pos (length names)) ∷ texts (sort_by (λ s. s) names) ∷ [])

module _ {H : Type 0} (env : Env H) (calls : Calls H) (queries : Queries H) where
  unfoldable pub print_affected_packages_header : String → Dict PackageStatus → Action H (Unit {0})
  print_affected_packages_header issue_id affected =
      info (header_message (sort_by (λ s. s) (keys affected)))
      >> when (not (is_nonempty affected))
          (info (named "SECURITY_ISSUE_UNAFFECTED" (str issue_id ∷ [])))

  abbrev pub skip_group : List Affected → Sorted → Sorted
  skip_group group s = record s {
    resolved = false;
    pkg_index = s.pkg_index + length group;
    unfixed_pkgs = s.unfixed_pkgs ++ names_in group;
  }

  -- one group, whose status is released or is not
  abbrev pub add_group_if :
      Bool → Installed → Released → ℕ → List Affected → Sorted → Action H Sorted
  add_group_if is_released installed usn_released_pkgs count group s =
      if not is_released
      then (info (printed (format_packages_message group s.pkg_index count))
          >> pure (skip_group group s))
      else reads (λ m. add_released queries.version_cmp_le installed usn_released_pkgs group s)

  unfoldable pub add_group :
      Installed → Released → ℕ → String → List Affected → Sorted → Action H Sorted
  unfolding add_released format_packages_message
  add_group installed usn_released_pkgs count status_value group s =
      add_group_if (status_value === "released") installed usn_released_pkgs count group s

  unfoldable pub add_groups :
      Installed → Released → ℕ → List (String × List Affected) → Sorted → Action H Sorted
  unfolding add_group
  add_groups installed usn_released_pkgs count [] s = pure s
  add_groups installed usn_released_pkgs count ((status_value, group) ∷ groups) s =
      add_group installed usn_released_pkgs count status_value group s
      >>= add_groups installed usn_released_pkgs count groups

  abbrev pub not_resolved : String → Message
  not_resolved issue_id = named "SECURITY_ISSUE_NOT_RESOLVED" (str issue_id ∷ [])

  abbrev pub fix_message : String → Bool → Message
  fix_message issue_id resolved =
      if resolved
      then named "SECURITY_ISSUE_RESOLVED" (str issue_id ∷ [])
      else not_resolved issue_id

  abbrev pub by_unfixed : List String → FixStatus
  by_unfixed unfixed =
      if is_nonempty unfixed then system_still_vulnerable else system_non_vulnerable

  abbrev pub conclude_reboot : String → Sorted → List String → Bool → Action H FixStatus
  conclude_reboot issue_id s unfixed reboot =
      if reboot
      then (info (named "ENABLE_REBOOT_REQUIRED_TMPL" (str "fix operation" ∷ []))
          >> (calls.add_reboot_notice
              >> (info (not_resolved issue_id) >> pure system_vulnerable_until_reboot)))
      else (info (fix_message issue_id s.resolved) >> pure (by_unfixed unfixed))

  -- The part of `prompt_for_affected_packages` that follows `_handle_released_package_fixes`, for
  -- all the packages that are not fixed.
  abbrev pub conclude_with : String → Sorted → InstallResult → List String → Action H FixStatus
  conclude_with issue_id s r unfixed =
      when (is_nonempty unfixed) (info (unfixed_message unfixed))
      >> (if not r.fix_status
          then (info (not_resolved issue_id) >> pure system_still_vulnerable)
          else if r.all_already_installed
          then (info (fix_message issue_id s.resolved) >> pure (by_unfixed unfixed))
          else (reads (calls.should_reboot r.installed_pkgs)
              >>= conclude_reboot issue_id s unfixed))

  unfoldable pub conclude : String → Sorted → InstallResult → Action H FixStatus
  conclude issue_id s r = conclude_with issue_id s r (s.unfixed_pkgs ++ r.unfixed_pkgs)

  abbrev pub install_sorted : String → ℕ → Bool → Sorted → Action H FixStatus
  install_sorted issue_id count dry_run s =
      handle_released_package_fixes env calls count dry_run s.src_pocket_pkgs s.binary_pocket_pkgs
        s.pkg_index
      >>= conclude issue_id s

  unfoldable pub prompt_for_affected_packages :
      String → Dict PackageStatus → Installed → Released → Bool → Action H FixStatus
  unfolding print_affected_packages_header add_groups group_by_usn_package_status sort_by
      handle_released_package_fixes conclude
  prompt_for_affected_packages issue_id affected installed usn_released_pkgs dry_run =
      print_affected_packages_header issue_id affected
      >> (if not (is_nonempty affected)
          then pure system_non_vulnerable
          else (add_groups installed usn_released_pkgs (length affected)
                (sort_by (λ g. g.0) (group_by_usn_package_status affected usn_released_pkgs))
                nothing_sorted
              >>= install_sorted issue_id (length affected) dry_run))
