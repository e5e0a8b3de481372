-- ===== src/Security/Fix.antt =====
-- The fix of an issue over the packages it affects: `prompt_for_affected_packages` and what it calls.
use ubuntu_advantage_client.Base.{
  ℕ, ◌+◌, String, Bool, true, false, Option, none, some, List, [], ◌∷◌, ◌++◌, ◌===◌, ◌&&◌, not,
  if◌then◌else◌, is_nonempty, contains, length,
}
use ubuntu_advantage_client.Base.Int.{pos}
use ubuntu_advantage_client.Json.{int, arr, Items, nil, cons}
use ubuntu_advantage_client.Text.{replace}
use ubuntu_advantage_client.Machine.{Message, named, about, Action, pure, info, ◌>>=◌, ◌>>◌}
use ubuntu_advantage_client.Entitlement.{Env}
use ubuntu_advantage_client.Dict.{Dict, lookup, insert, sort_by}
use ubuntu_advantage_client.Security.{
  ubuntu_standard_updates_pocket, ua_infra_pocket, ua_apps_pocket,
}
use ubuntu_advantage_client.Security.Package.{PackageStatus, status_message}
use ubuntu_advantage_client.Security.Notice.{ReleasePackage, Released, or_empty}
use ubuntu_advantage_client.Security.Ask.{Calls, texts}
use ubuntu_advantage_client.Security.Upgrade.{upgrade_packages_and_attach}

pub data FixStatus : Type 0 where
  system_non_vulnerable system_still_vulnerable system_vulnerable_until_reboot : FixStatus

-- a source package with its status
abbrev pub Affected : Type 0
Affected = String × PackageStatus

-- the pocket of the first entry that has one
abbrev pub pocket_of : Option String → Dict ReleasePackage → Option String
pocket_of default [] = default
pocket_of default ((name, md) ∷ d) = elim md.pocket [
  | none ↦ pocket_of default d
  | some p ↦ if p === "" then pocket_of default d else some p
]

abbrev pub released_as : PackageStatus → Dict ReleasePackage → Option ReleasePackage → PackageStatus
released_as p d none = p
released_as p d (some source) = record p {
  status = "released";
  description = source.version;
  pocket = pocket_of p.pocket d;
}

unfoldable pub override_usn_release_package_status :
    PackageStatus → Dict ReleasePackage → PackageStatus
override_usn_release_package_status p d = released_as p d (lookup "source" d)

abbrev pub status_group : PackageStatus → String
status_group p = replace "ignored" "deferred" p.status

abbrev pub or_no_list : {A : Type 0} → Option (List A) → List A
or_no_list none = []
or_no_list (some xs) = xs

-- d[key].append(x), for a dict of lists in which a key that is missing holds []
abbrev pub append_to : {A : Type 0} → String → A → Dict (List A) → Dict (List A)
append_to key x d = insert key (or_no_list (lookup key d) ++ x ∷ []) d

unfoldable pub group_from : Released → List Affected → Dict (List Affected) → Dict (List Affected)
unfolding override_usn_release_package_status
group_from usn_released_pkgs [] groups = groups
group_from usn_released_pkgs ((src_pkg, p) ∷ affected) groups =
    let usn_pkg_status =
      override_usn_release_package_status p (or_empty (lookup src_pkg usn_released_pkgs)) in
    group_from usn_released_pkgs affected
      (append_to (status_group usn_pkg_status) (src_pkg, usn_pkg_status) groups)

unfoldable pub group_by_usn_package_status : Dict PackageStatus → Released → Dict (List Affected)
unfolding group_from sort_by
group_by_usn_package_status affected_pkg_status usn_released_pkgs =
    group_from usn_released_pkgs (sort_by (λ a. a.0) affected_pkg_status) []

abbrev pub names_in : List Affected → List String
names_in [] = []
names_in ((name, p) ∷ l) = name ∷ names_in l

abbrev pub indices : ℕ → ℕ → List Affected → Items
indices pkg_index num_pkgs [] = nil
indices pkg_index num_pkgs (a ∷ l) =
    cons (int (pos (pkg_index + 1)))
      (cons (int (pos num_pkgs)) (indices (pkg_index + 1) num_pkgs l))

-- The message takes the status of the last package of the list.
unfoldable pub last_status_message : PackageStatus → List Affected → Message
unfolding status_message
last_status_message p [] = status_message p
last_status_message p ((name, q) ∷ l) = last_status_message q l

unfoldable pub format_packages_message : List Affected → ℕ → ℕ → Option Message
unfolding last_status_message sort_by
format_packages_message [] pkg_index num_pkgs = none
format_packages_message ((name, p) ∷ l) pkg_index num_pkgs = some (
    about "({}) {}:\n{}" (last_status_message p l) (
      arr (indices pkg_index num_pkgs ((name, p) ∷ l))
      ∷ texts (sort_by (λ s. s) (names_in ((name, p) ∷ l)))
      ∷ []))

-- The local variables of `_handle_released_package_fixes`; the last two are sets.
pub record InstallResult : Type 0 where
  pub fix_status : Bool
  pub all_already_installed : Bool
  pub pkg_index : ℕ
  pub unfixed_pkgs : List String
  pub installed_pkgs : List String

abbrev pub nothing_installed : ℕ → InstallResult
nothing_installed pkg_index = record {
  fix_status = true;
  all_already_installed = true;
  pkg_index = pkg_index;
  unfixed_pkgs = [];
  installed_pkgs = [];
}

abbrev pub all_pockets : List String
all_pockets = ubuntu_standard_updates_pocket ∷ ua_infra_pocket ∷ ua_apps_pocket ∷ []

-- set.update
abbrev pub add_all : List String → List String → List String
add_all set [] = set
add_all set (x ∷ xs) = add_all (if contains set x then set else set ++ x ∷ []) xs

module _ {H : Type 0} (env : Env H) (calls : Calls H) (num_pkgs : ℕ) (dry_run : Bool) where
  -- what follows the upgrade of a pocket
  abbrev pub record_pocket : List Affected → List String → InstallResult → InstallResult
  record_pocket srcs binary_pkgs r =
      if not r.fix_status
      then record r { unfixed_pkgs = add_all r.unfixed_pkgs (names_in srcs) }
      else record r { installed_pkgs = add_all r.installed_pkgs binary_pkgs }

  abbrev pub after_upgrade : List Affected → List String → InstallResult → Bool → InstallResult
  after_upgrade srcs binary_pkgs r upgraded =
      record_pocket srcs binary_pkgs
        (record r { pkg_index = r.pkg_index + length srcs; fix_status = r.fix_status && upgraded })

  abbrev pub upgrade_pocket :
      String → List Affected → List String → InstallResult → Action H InstallResult
  upgrade_pocket pocket srcs binary_pkgs r =
      upgrade_packages_and_attach env calls binary_pkgs pocket dry_run >>= λ upgraded.
      pure (after_upgrade srcs binary_pkgs r upgraded)

  abbrev pub announced :
      Option Message → String → List Affected → List String → InstallResult → Action H InstallResult
  announced none pocket srcs binary_pkgs r = upgrade_pocket pocket srcs binary_pkgs r
  announced (some msg) pocket srcs binary_pkgs r =
      info msg
      >> (if not (is_nonempty binary_pkgs)
          then (info (named "SECURITY_UPDATE_INSTALLED" []) >> pure r)
          else upgrade_pocket pocket srcs binary_pkgs (record r { all_already_installed = false }))

  -- one round of the loop over the pockets
  unfoldable pub handle_pocket :
      String → List Affected → List String → InstallResult → Action H InstallResult
  unfolding format_packages_message upgrade_packages_and_attach
  handle_pocket pocket srcs binary_pkgs r =
      if r.fix_status
      then announced (format_packages_message srcs r.pkg_index num_pkgs) pocket srcs binary_pkgs r
      else pure (record_pocket srcs binary_pkgs r)

  unfoldable pub handle_pockets :
      Dict (List Affected)
      → Dict (List String)
      → List String
      → InstallResult
      → Action H InstallResult
  unfolding handle_pocket
  handle_pockets src_pocket_pkgs binary_pocket_pkgs [] r = pure r
  handle_pockets src_pocket_pkgs binary_pocket_pkgs (pocket ∷ pockets) r =
      handle_pocket pocket (or_no_list (lookup pocket src_pocket_pkgs))
        (or_no_list (lookup pocket binary_pocket_pkgs)) r
      >>= handle_pockets src_pocket_pkgs binary_pocket_pkgs pockets

  unfoldable pub handle_released_package_fixes :
      Dict (List Affected) → Dict (List String) → ℕ → Action H InstallResult
  unfolding handle_pockets
  handle_released_package_fixes src_pocket_pkgs binary_pocket_pkgs pkg_index =
      if is_nonempty src_pocket_pkgs
      then handle_pockets src_pocket_pkgs binary_pocket_pkgs all_pockets
          (nothing_installed pkg_index)
      else pure (nothing_installed pkg_index)
