-- ===== src/Security/Tests.antt =====
-- Runs of the fix on a small machine, with two notices for one source package.
use ubuntu_advantage_client.Base.{
  String, ◌≡◌, refl, Bool, true, false, Option, none, some, List, [], ◌∷◌, All, Any, length, leb,
  arith, ◌⊎◌,
}
use ubuntu_advantage_client.Exception.{Result, ok, ◌>>=◌}
use ubuntu_advantage_client.Json.{end}
use ubuntu_advantage_client.Text.{codes}
use ubuntu_advantage_client.Machine.{Machine, pure}
use ubuntu_advantage_client.Entitlement.{Env, Service}
use ubuntu_advantage_client.Entitlement.Status.{disabled}
use ubuntu_advantage_client.Dict.Sorting.{Ordered}
use ubuntu_advantage_client.Security.Package.{PackageStatus, Cve}
use ubuntu_advantage_client.Security.Notice.{ReleasePackage, Usn, Released, release_packages}
use ubuntu_advantage_client.Security.Merge.{
  merge_usn_released_binary_package_versions, get_related_usns, ids_of,
}
use ubuntu_advantage_client.Security.Affected.{Installed}
use ubuntu_advantage_client.Security.Latest.{entry, latest, merge-latest}
use ubuntu_advantage_client.Security.Versions.{VersionOrder, Has, AtMost, merged_entry-Greatest}
use ubuntu_advantage_client.Security.Related.{get_related_usns-Complete}
use ubuntu_advantage_client.Security.Ask.{Calls}
use ubuntu_advantage_client.Security.Fix.{system_non_vulnerable}
use ubuntu_advantage_client.Security.Prompt.{Queries, prompt_for_affected_packages}
use ubuntu_advantage_client.Security.Issue.{fix_security_issue_id}
use ubuntu_advantage_client.Security.Unchanged.{dry_run_unchanged}
use ubuntu_advantage_client.Security.Grouped.{fix_group}
use ubuntu_advantage_client.Security.Verdict.{non_vulnerable_released}

-- A shorter version comes before a longer one.
abbrev shorter : String → String → Bool
shorter u v = leb (length (codes u)) (length (codes v))

shorter-VersionOrder : VersionOrder shorter
shorter-VersionOrder = record {
  reflexive = λ v. ground arith;
  transitive = λ u v w h k. ground arith;
  total = λ u v h. ground arith;
}

abbrev binary : String → ReleasePackage
binary version = record {
  name = "libcurl4";
  version = version;
  is_source = false;
  source_link = some "https://launchpad.net/ubuntu/+source/curl";
  pocket = some "security";
}

abbrev source : String → ReleasePackage
source version = record {
  name = "curl";
  version = version;
  is_source = true;
  source_link = none;
  pocket = none;
}

abbrev issue : Cve
issue = record { notices_ids = "USN-2" ∷ "USN-1" ∷ []; packages = [] }

abbrev notice : String → String → Usn
notice id version = record {
  id = id;
  cves = issue ∷ [];
  released = some (("focal", source version ∷ binary version ∷ []) ∷ []);
}

abbrev notices : List Usn
notices = notice "USN-1" "9" ∷ notice "USN-2" "10" ∷ notice "USN-3" "8" ∷ []

abbrev merged : Released
merged = ("curl", ("source", source "10") ∷ ("libcurl4", binary "10") ∷ []) ∷ []

merge_notices : merge_usn_released_binary_package_versions shorter "focal" notices [] ≡ ok merged
unfolding merge_usn_released_binary_package_versions release_packages
merge_notices = refl

merge-latest_example :
    (merge_usn_released_binary_package_versions shorter "focal" notices [] >>= λ m.
    ok (entry "curl" "libcurl4" m))
    ≡ latest shorter "focal" [] "curl" "libcurl4" none notices
merge-latest_example = merge-latest shorter "focal" [] "curl" "libcurl4" notices

merged_entry-Greatest_example :
    All
      (λ usn.
        (x : Option ReleasePackage)
        → Has shorter "focal" [] "curl" "libcurl4" usn x
        → AtMost shorter x (some (binary "10")))
      notices
    × ((some (binary "10") ≡ none)
        ⊎ Any (λ usn. Has shorter "focal" [] "curl" "libcurl4" usn (some (binary "10"))) notices)
merged_entry-Greatest_example =
    merged_entry-Greatest shorter "focal" [] "curl" "libcurl4" shorter-VersionOrder notices merged
      merge_notices

abbrev get_notice : String → Result Usn
get_notice id = ok (notice id "9")

related_notices :
    get_related_usns get_notice (notice "USN-1" "9")
    ≡ ok (notice "USN-1" "9" ∷ notice "USN-2" "9" ∷ [])
unfolding get_related_usns
related_notices = refl

get_related_usns-Complete_example :
    Ordered (λ u. u.id) (notice "USN-1" "9" ∷ notice "USN-2" "9" ∷ [])
    × All
        (λ id. Any (λ u. get_notice id ≡ ok u) (notice "USN-1" "9" ∷ notice "USN-2" "9" ∷ []))
        (ids_of (issue ∷ []))
get_related_usns-Complete_example =
    get_related_usns-Complete get_notice (notice "USN-1" "9")
      (notice "USN-1" "9" ∷ notice "USN-2" "9" ∷ []) refl related_notices

-- The state is whether the upgrade has run.
abbrev service_named : String → Service Bool
service_named name = record {
  name = name;
  title = name;
  is_beta = false;
  static_affordances = [];
  incompatible_services = [];
  required_services = [];
  dependent_services = [];
  messaging = record {
    pre_can_enable = [];
    pre_enable = [];
    post_enable = [];
    pre_disable = [];
    post_disable = [];
  };
  perform_enable = λ silent. pure true;
  perform_disable = λ silent. pure true;
  application_status = λ m. ok (disabled, none);
  check_for_reboot = λ m. ok false;
  after_disable = pure tt;
  process_own_deltas = λ orig_access deltas allow_enable. pure false;
}

abbrev env : Env Bool
env = record {
  service = service_named;
  platform = λ m.
      ok (record {
        arch = "amd64";
        series = "focal";
        version = "20.04";
        kernel = "5.4.0-1-generic";
      });
  utcnow = λ m. 100;
  strptime = λ s. none;
  request_updated_contract = pure tt;
}

abbrev calls : Calls Bool
calls = record {
  is_root = λ m. true;
  pro_cloud = λ m. none;
  is_past = λ v m. ok false;
  action_attach = λ token. pure 0;
  action_enable = λ name. pure 0;
  action_detach = pure 0;
  run_apt_update_command = pure tt;
  apt_install = λ pkgs m. (ok tt, record m { host = true });
  should_reboot = λ pkgs m. ok false;
  add_reboot_notice = pure tt;
}

abbrev queries : Queries Bool
queries = record {
  version_cmp_le = shorter;
  series = "focal";
  pop = λ p ps. p;
  dpkg_query = λ m. ok (("libcurl4" ∷ "curl" ∷ "9" ∷ "installed" ∷ []) ∷ []);
  get_cve = λ id m. ok issue;
  get_notice = λ id m. get_notice id;
  get_notices = λ id m. ok notices;
}

abbrev machine : Machine Bool
machine = record {
  host = false;
  attached = false;
  config = end;
  entitlements = end;
  cache = end;
  answers = [];
  shown = [];
}

abbrev needed : PackageStatus
needed = record {
  description = "10";
  pocket = some "security";
  release_codename = "focal";
  status = "needed";
}

abbrev installed : Installed
installed = ("curl", ("libcurl4", "9") ∷ []) ∷ []

-- The notices turn the status into released, and the upgrade runs.
abbrev fixed_machine : Machine Bool
fixed_machine =
    (prompt_for_affected_packages env calls queries "CVE-1" (("curl", needed) ∷ []) installed merged
      false machine).1

fixed :
    prompt_for_affected_packages env calls queries "CVE-1"
      (("curl", needed) ∷ [])
      installed
      merged
      false
      machine
    ≡ (ok system_non_vulnerable, fixed_machine)
unfolding prompt_for_affected_packages
fixed = refl

upgraded : fixed_machine.host ≡ true
unfolding prompt_for_affected_packages
upgraded = refl

non_vulnerable_released_example : All (λ a. fix_group merged a ≡ "released") (("curl", needed) ∷ [])
non_vulnerable_released_example =
    non_vulnerable_released env calls queries "CVE-1" (("curl", needed) ∷ []) installed merged false
      machine fixed_machine fixed

dry_run_unchanged_example :
    (fix_security_issue_id env calls queries "usn-1" true machine).1 ≡ record machine {
      shown = (fix_security_issue_id env calls queries "usn-1" true machine).1.shown;
    }
dry_run_unchanged_example = dry_run_unchanged env calls queries (λ pkgs m. refl) "usn-1" machine
