-- ===== src/Security/Issue.antt =====
-- `fix_security_issue_id` (uaclient/security.py).
use ubuntu_advantage_client.Base.{
  String, Bool, Option, none, some, List, [], ◌∷◌, if◌then◌else◌, is_nonempty,
}
use ubuntu_advantage_client.Exception.{
  Result, ok, err, key_error, ◌>>=◌ as and_then, security_api_error, user_facing,
}
use ubuntu_advantage_client.Json.{str}
use ubuntu_advantage_client.Text.{codes, infix_of, lower, upper}
use ubuntu_advantage_client.Machine.{Machine, named, Action, reads, info, when, ◌>>=◌, ◌>>◌}
use ubuntu_advantage_client.Entitlement.{Env}
use ubuntu_advantage_client.Dict.{Dict}
use ubuntu_advantage_client.Security.{ua_infra_pocket, ua_apps_pocket}
use ubuntu_advantage_client.Security.Package.{PackageStatus, Cve}
use ubuntu_advantage_client.Security.Notice.{ReleasePackage, Usn, Released, metadata_error}
use ubuntu_advantage_client.Security.Merge.{
  merge_usn_released_binary_package_versions, get_related_usns,
}
use ubuntu_advantage_client.Security.Affected.{
  Installed, query_installed_source_pkg_versions, get_cve_affected_source_packages_status,
  get_usn_affected_packages_status,
}
use ubuntu_advantage_client.Security.Ask.{Calls, is_pocket_used_by_beta_service}
use ubuntu_advantage_client.Security.Fix.{FixStatus}
use ubuntu_advantage_client.Security.Prompt.{Queries, prompt_for_affected_packages}

module _ {H : Type 0} (env : Env H) (calls : Calls H) (queries : Queries H) where
  -- the two ways in which a failure of the API is shown
  abbrev pub as_user_facing : {A : Type 0} → Result A → Result A
  as_user_facing (err (security_api_error text)) =
      if infix_of (codes "not found") (lower (codes text))
      then err (user_facing "SECURITY_FIX_NOT_FOUND_ISSUE")
      else err (user_facing text)
  as_user_facing r = r

  abbrev pub cve_and_notices : String → Machine H → Result (Cve × List Usn)
  cve_and_notices issue_id m =
      and_then (queries.get_cve issue_id m)
        λ cve. and_then (queries.get_notices issue_id m) λ usns. ok (cve, usns)

  abbrev pub usn_and_related : String → Machine H → Result (Usn × List Usn)
  usn_and_related issue_id m =
      and_then (queries.get_notice issue_id m) λ usn.
        and_then (get_related_usns (λ id. queries.get_notice id m) usn) λ usns. ok (usn, usns)

  abbrev pub check_metadata : Option (Dict (List ReleasePackage)) → Result (Unit {0})
  check_metadata none = err key_error
  check_metadata (some d) = if is_nonempty d then ok tt else metadata_error

  abbrev pub merge_usns : List Usn → Dict Bool → Machine H → Result Released
  merge_usns usns beta_pockets m =
      merge_usn_released_binary_package_versions queries.version_cmp_le queries.series usns
        beta_pockets

  abbrev pub fix_found_cve :
      String → Installed → Dict Bool → Bool → Cve × List Usn → Action H FixStatus
  fix_found_cve issue_id installed beta_pockets dry_run (cve, usns) =
      info (named "get_url_header" (str issue_id ∷ []))
      >> (reads (merge_usns usns beta_pockets) >>= λ usn_released_pkgs.
          prompt_for_affected_packages env calls queries issue_id
            (get_cve_affected_source_packages_status queries.series cve installed) installed
            usn_released_pkgs dry_run)

  unfoldable pub fix_cve : String → Installed → Dict Bool → Bool → Action H FixStatus
  unfolding prompt_for_affected_packages get_cve_affected_source_packages_status
      merge_usn_released_binary_package_versions
  fix_cve issue_id installed beta_pockets dry_run =
      reads (λ m. as_user_facing (cve_and_notices issue_id m))
      >>= fix_found_cve issue_id installed beta_pockets dry_run

  abbrev pub fix_checked_usn :
      String
      → Installed
      → Bool
      → Option (Dict (List ReleasePackage))
      → Dict PackageStatus
      → Released
      → Action H FixStatus
  fix_checked_usn issue_id installed dry_run released affected usn_released_pkgs =
      info (named "get_url_header" (str issue_id ∷ []))
      >> (reads (λ m. check_metadata released)
          >> prompt_for_affected_packages env calls queries issue_id affected installed
              usn_released_pkgs dry_run)

  abbrev pub fix_found_usn :
      String → Installed → Dict Bool → Bool → Usn × List Usn → Action H FixStatus
  fix_found_usn issue_id installed beta_pockets dry_run (usn, usns) =
      reads (λ m.
        get_usn_affected_packages_status queries.version_cmp_le queries.series queries.pop usn
          installed)
      >>= λ affected.
          reads (merge_usns usns beta_pockets)
          >>= fix_checked_usn issue_id installed dry_run usn.released affected

  unfoldable pub fix_usn : String → Installed → Dict Bool → Bool → Action H FixStatus
  unfolding prompt_for_affected_packages get_usn_affected_packages_status get_related_usns
      merge_usn_released_binary_package_versions
  fix_usn issue_id installed beta_pockets dry_run =
      reads (λ m. as_user_facing (usn_and_related issue_id m))
      >>= fix_found_usn issue_id installed beta_pockets dry_run

  abbrev pub fix_by_id : String → Installed → Bool → Dict Bool → Action H FixStatus
  fix_by_id issue_id installed dry_run beta_pockets =
      if infix_of (codes "CVE") (codes issue_id)
      then fix_cve issue_id installed beta_pockets dry_run
      else fix_usn issue_id installed beta_pockets dry_run

  abbrev pub fix_installed : String → Bool → Installed → Action H FixStatus
  fix_installed issue_id dry_run installed =
      is_pocket_used_by_beta_service env ua_apps_pocket >>= λ apps.
      is_pocket_used_by_beta_service env ua_infra_pocket >>= λ infra.
      fix_by_id issue_id installed dry_run (("esm-apps", apps) ∷ ("esm-infra", infra) ∷ [])

  unfoldable pub fix_security_issue_id : String → Bool → Action H FixStatus
  unfolding query_installed_source_pkg_versions fix_cve fix_usn is_pocket_used_by_beta_service
  fix_security_issue_id issue dry_run =
      when dry_run (info (named "SECURITY_DRY_RUN_WARNING" []))
      >> (reads (λ m. and_then (queries.dpkg_query m) query_installed_source_pkg_versions)
          >>= fix_installed (upper issue) dry_run)
