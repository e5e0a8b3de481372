-- ===== src/Security/Unchanged.antt =====
-- A fix with `--dry-run` leaves the machine as it was.
use ubuntu_advantage_client.Base.{
  ℕ, String, ◌≡◌, refl, Bool, true, false, Option, List, [], ◌∷◌, ◌++◌, ◌===◌, not, is_nonempty,
  length,
}
use ubuntu_advantage_client.Exception.{ok, ◌>>=◌ as and_then}
use ubuntu_advantage_client.Text.{codes, infix_of, upper}
use ubuntu_advantage_client.Dict.{Dict, sort_by}
use ubuntu_advantage_client.Machine.{Machine, reads, ◌>>=◌}
use ubuntu_advantage_client.Machine.OnlyShows.{
  OnlyShows, pure-OnlyShows, reads-OnlyShows, info-OnlyShows, when-OnlyShows, if-OnlyShows,
  >>=-OnlyShows, read-OnlyShows, show-OnlyShows,
}
use ubuntu_advantage_client.Entitlement.{Env}
use ubuntu_advantage_client.Entitlement.Applicability.{user_facing_status}
use ubuntu_advantage_client.Entitlement.Contract.{valid_service}
use ubuntu_advantage_client.Security.{ua_infra_pocket, ua_apps_pocket}
use ubuntu_advantage_client.Security.Package.{PackageStatus, Cve}
use ubuntu_advantage_client.Security.Notice.{ReleasePackage, Usn, Released}
use ubuntu_advantage_client.Security.Affected.{
  Installed, get_cve_affected_source_packages_status, get_usn_affected_packages_status,
  query_installed_source_pkg_versions,
}
use ubuntu_advantage_client.Security.Ask.{
  Calls, is_active_status, get_service_for_pocket, is_pocket_used_by_beta_service,
}
use ubuntu_advantage_client.Security.Fix.{Affected, InstallResult, group_by_usn_package_status}
use ubuntu_advantage_client.Security.Groups.{Sorted, nothing_sorted, add_released}
use ubuntu_advantage_client.Security.DryRun.{handle_released-OnlyShows}
use ubuntu_advantage_client.Security.Prompt.{
  Queries, print_affected_packages_header, add_group, add_groups, conclude_reboot, conclude_with,
  conclude, install_sorted, prompt_for_affected_packages, unfixed_message,
}
use ubuntu_advantage_client.Security.Issue.{
  as_user_facing, cve_and_notices, usn_and_related, check_metadata, merge_usns, fix_found_cve,
  fix_cve, fix_checked_usn, fix_found_usn, fix_usn, fix_by_id, fix_installed, fix_security_issue_id,
}

module _ {H : Type 0} (env : Env H) where
  beta-OnlyShows : (pocket : String) → OnlyShows (is_pocket_used_by_beta_service env pocket)
  unfolding is_pocket_used_by_beta_service
  beta-OnlyShows pocket = read-OnlyShows (get_service_for_pocket env pocket) λ ent.
      read-OnlyShows (user_facing_status env ent.service) λ (status, _).
        if-OnlyShows (is_active_status status) pure-OnlyShows
          (read-OnlyShows (valid_service ent) λ valid. pure-OnlyShows {a = not valid})

  module _ (calls : Calls H) (queries : Queries H)
      (no_reboot : (pkgs : List String) (m : Machine H)
        → calls.should_reboot pkgs m ≡ ok false) where
    header-OnlyShows :
        (id : String) (affected : Dict PackageStatus)
        → OnlyShows (print_affected_packages_header env calls queries id affected)
    unfolding print_affected_packages_header
    header-OnlyShows id affected =
        show-OnlyShows (when-OnlyShows (not (is_nonempty affected)) info-OnlyShows)

    add_group-OnlyShows :
        (installed : Installed) (released : Released) (count : ℕ) (value : String)
        (group : List Affected) (s : Sorted)
        → OnlyShows (add_group env calls queries installed released count value group s)
    unfolding add_group
    add_group-OnlyShows installed released count value group s =
        if-OnlyShows (not (value === "released")) (show-OnlyShows pure-OnlyShows) (
          reads-OnlyShows {f = λ m. add_released queries.version_cmp_le installed released group s})

    add_groups-OnlyShows :
        (installed : Installed) (released : Released) (count : ℕ)
        (groups : List (String × List Affected)) (s : Sorted)
        → OnlyShows (add_groups env calls queries installed released count groups s)
    unfolding add_groups
    add_groups-OnlyShows installed released count [] s = pure-OnlyShows
    add_groups-OnlyShows installed released count ((value, group) ∷ groups) s =
        >>=-OnlyShows (add_group-OnlyShows installed released count value group s)
          (add_groups-OnlyShows installed released count groups)

    reboot-OnlyShows :
        (id : String) (s : Sorted) (pkgs unfixed : List String)
        → OnlyShows
            (reads (calls.should_reboot pkgs) >>= conclude_reboot env calls queries id s unfixed)
    reboot-OnlyShows id s pkgs unfixed = record { same = λ m. rw (no_reboot pkgs m) refl }

    conclude-OnlyShows :
        (id : String) (s : Sorted) (r : InstallResult) (unfixed : List String)
        → OnlyShows (conclude_with env calls queries id s r unfixed)
    conclude-OnlyShows id s r unfixed =
        >>=-OnlyShows
          (when-OnlyShows (is_nonempty unfixed) (info-OnlyShows {x = unfixed_message unfixed}))
          λ _. if-OnlyShows (not r.fix_status) (show-OnlyShows pure-OnlyShows) (
            if-OnlyShows r.all_already_installed (show-OnlyShows pure-OnlyShows)
              (reboot-OnlyShows id s r.installed_pkgs unfixed))

    install-OnlyShows :
        (id : String) (count : ℕ) (s : Sorted)
        → OnlyShows (install_sorted env calls queries id count true s)
    unfolding conclude
    install-OnlyShows id count s =
        >>=-OnlyShows
          (handle_released-OnlyShows env calls count s.src_pocket_pkgs s.binary_pocket_pkgs
            s.pkg_index)
          λ r. conclude-OnlyShows id s r (s.unfixed_pkgs ++ r.unfixed_pkgs)

    prompt-OnlyShows :
        (id : String) (affected : Dict PackageStatus) (installed : Installed) (released : Released)
        → OnlyShows
            (prompt_for_affected_packages env calls queries id affected installed released true)
    unfolding prompt_for_affected_packages
    prompt-OnlyShows id affected installed released =
        >>=-OnlyShows {a = print_affected_packages_header env calls queries id affected}
          (header-OnlyShows id affected)
          λ _. if-OnlyShows (not (is_nonempty affected)) pure-OnlyShows (
            >>=-OnlyShows
              (add_groups-OnlyShows installed released (length affected)
                (sort_by (λ g. g.0) (group_by_usn_package_status affected released)) nothing_sorted)
              (install-OnlyShows id (length affected)))

    found_cve-OnlyShows :
        (id : String) (installed : Installed) (beta : Dict Bool) (found : Cve × List Usn)
        → OnlyShows (fix_found_cve env calls queries id installed beta true found)
    found_cve-OnlyShows id installed beta (cve, usns) = show-OnlyShows (
        read-OnlyShows (merge_usns env calls queries usns beta) λ released.
          prompt-OnlyShows id (get_cve_affected_source_packages_status queries.series cve installed)
            installed released)

    checked_usn-OnlyShows :
        (id : String) (installed : Installed) (metadata : Option (Dict (List ReleasePackage)))
        (affected : Dict PackageStatus) (released : Released)
        → OnlyShows (fix_checked_usn env calls queries id installed true metadata affected released)
    checked_usn-OnlyShows id installed metadata affected released = show-OnlyShows (
        read-OnlyShows (λ m. check_metadata env calls queries metadata)
          λ _. prompt-OnlyShows id affected installed released)

    found_usn-OnlyShows :
        (id : String) (installed : Installed) (beta : Dict Bool) (found : Usn × List Usn)
        → OnlyShows (fix_found_usn env calls queries id installed beta true found)
    found_usn-OnlyShows id installed beta (usn, usns) =
        read-OnlyShows
          (λ m.
            get_usn_affected_packages_status queries.version_cmp_le queries.series queries.pop usn
              installed)
          λ affected.
            read-OnlyShows (merge_usns env calls queries usns beta)
              λ released. checked_usn-OnlyShows id installed usn.released affected released

    by_id-OnlyShows :
        (id : String) (installed : Installed) (beta : Dict Bool)
        → OnlyShows (fix_by_id env calls queries id installed true beta)
    unfolding fix_cve fix_usn
    by_id-OnlyShows id installed beta =
        if-OnlyShows (infix_of (codes "CVE") (codes id))
          (read-OnlyShows
            (λ m. as_user_facing env calls queries (cve_and_notices env calls queries id m))
            (found_cve-OnlyShows id installed beta))
          (read-OnlyShows
            (λ m. as_user_facing env calls queries (usn_and_related env calls queries id m))
            (found_usn-OnlyShows id installed beta))

    installed-OnlyShows :
        (id : String) (installed : Installed)
        → OnlyShows (fix_installed env calls queries id true installed)
    installed-OnlyShows id installed = >>=-OnlyShows (beta-OnlyShows ua_apps_pocket) λ apps.
        >>=-OnlyShows (beta-OnlyShows ua_infra_pocket)
          λ infra. by_id-OnlyShows id installed (("esm-apps", apps) ∷ ("esm-infra", infra) ∷ [])

    -- With the option for a dry run, where the check for a reboot always says that none is
    -- required, the fix of an issue leaves the machine as it was, but for what has been shown:
    -- also where it fails.
    pub dry_run_unchanged :
        (issue : String) (m : Machine H)
        → (fix_security_issue_id env calls queries issue true m).1
          ≡ record m { shown = (fix_security_issue_id env calls queries issue true m).1.shown }
    unfolding fix_security_issue_id
    dry_run_unchanged issue = whole.same
      where
        whole : OnlyShows (fix_security_issue_id env calls queries issue true)
        whole = show-OnlyShows (
            read-OnlyShows
              (λ m. and_then (queries.dpkg_query m) query_installed_source_pkg_versions)
              (installed-OnlyShows (upper issue)))
