-- ===== src/Security/Package.antt =====
-- `CVEPackageStatus` and the packages of a `CVE`.
use ubuntu_advantage_client.Base.{
  String, Bool, false, Option, none, some, List, [], ◌∷◌, ◌===◌, ◌||◌, not, if◌then◌else◌,
}
use ubuntu_advantage_client.Json.{str}
use ubuntu_advantage_client.Machine.{Message, named}
use ubuntu_advantage_client.Text.{codes, infix_of}
use ubuntu_advantage_client.Dict.{Dict, insert}
use ubuntu_advantage_client.Security.{
  ubuntu_standard_updates_pocket, ua_infra_pocket, ua_apps_pocket,
}

-- The response of one package on one series; the pocket may be None.
pub record PackageStatus : Type 0 where
  pub description : String
  pub pocket : Option String
  pub release_codename : String
  pub status : String

-- description
abbrev pub fixed_version : PackageStatus → String
fixed_version p = p.description

abbrev pub pocket_is : String → Option String → Bool
pocket_is s none = false
pocket_is s (some t) = t === s

unfoldable pub pocket_source : PackageStatus → String
pocket_source p =
    if pocket_is "esm-infra" p.pocket
    then ua_infra_pocket
    else if pocket_is "esm-apps" p.pocket
    then ua_apps_pocket
    else if pocket_is "updates" p.pocket || pocket_is "security" p.pocket
    then ubuntu_standard_updates_pocket
    else if infix_of (codes "esm") (codes (fixed_version p))
    then ua_infra_pocket
    else ubuntu_standard_updates_pocket

unfoldable pub requires_ua : PackageStatus → Bool
unfolding pocket_source
requires_ua p = not (pocket_source p === ubuntu_standard_updates_pocket)

-- The texts are named by the status that they stand for.
unfoldable pub status_message : PackageStatus → Message
unfolding pocket_source
status_message p =
    if p.status === "needed"
    then named "Sorry, no fix is available yet." []
    else if p.status === "needs-triage"
    then named "Ubuntu security engineers are investigating this issue." []
    else if p.status === "pending"
    then named "A fix is coming soon. Try again tomorrow." []
    else if (p.status === "ignored") || (p.status === "deferred")
    then named "Sorry, no fix is available." []
    else if p.status === "DNE"
    then named "Source package does not exist on this release." []
    else if p.status === "not-affected"
    then named "Source package is not affected on this release." []
    else if p.status === "released"
    then named "SECURITY_FIX_RELEASE_STREAM" (str (pocket_source p) ∷ [])
    else named "UNKNOWN: {}" (str p.status ∷ [])

pub record Cve : Type 0 where
  pub notices_ids : List String
  pub packages : List (String × List PackageStatus)

-- the statuses of one package: the last one for the series stays
unfoldable pub status_of_package :
    String → String → List PackageStatus → Dict PackageStatus → Dict PackageStatus
status_of_package series name [] d = d
status_of_package series name (p ∷ ps) d =
    status_of_package series name ps (if p.release_codename === series then insert name p d else d)

unfoldable pub packages_status_from :
    String → List (String × List PackageStatus) → Dict PackageStatus → Dict PackageStatus
unfolding status_of_package
packages_status_from series [] d = d
packages_status_from series ((name, statuses) ∷ packages) d =
    packages_status_from series packages (status_of_package series name statuses d)

unfoldable pub packages_status : String → Cve → Dict PackageStatus
unfolding packages_status_from
packages_status series cve = packages_status_from series cve.packages []
