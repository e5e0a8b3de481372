-- ===== src/Security/Groups.antt =====
-- The packages that are released, by pocket, and their binary packages that need an upgrade.
use ubuntu_advantage_client.Base.{
  ℕ, String, Bool, true, Option, none, some, List, [], ◌∷◌, not, if◌then◌else◌,
}
use ubuntu_advantage_client.Exception.{Result, ok, err, key_error, ◌>>=◌}
use ubuntu_advantage_client.Dict.{Dict, lookup}
use ubuntu_advantage_client.Security.Package.{PackageStatus, pocket_source}
use ubuntu_advantage_client.Security.Notice.{ReleasePackage, Released, or_empty, metadata_error}
use ubuntu_advantage_client.Security.Affected.{Installed}
use ubuntu_advantage_client.Security.Fix.{Affected, append_to}

-- The local variables of the loop over the groups. `resolved` is whether `fix_message` is still
-- SECURITY_ISSUE_RESOLVED.
pub record Sorted : Type 0 where
  pub resolved : Bool
  pub pkg_index : ℕ
  pub unfixed_pkgs : List String
  pub src_pocket_pkgs : Dict (List Affected)
  pub binary_pocket_pkgs : Dict (List String)

abbrev pub nothing_sorted : Sorted
nothing_sorted = record {
  resolved = true;
  pkg_index = 0;
  unfixed_pkgs = [];
  src_pocket_pkgs = [];
  binary_pocket_pkgs = [];
}

-- installed_packages[src_pkg]
abbrev pub binaries_of : Option (Dict String) → Result (Dict String)
binaries_of none = err key_error
binaries_of (some binaries) = ok binaries

module _ (le : String → String → Bool) where
  -- one binary package, by its entry in the notices
  abbrev pub add_binary : String → String → String → Sorted → Option ReleasePackage → Result Sorted
  add_binary pocket binary_pkg version s none = metadata_error
  add_binary pocket binary_pkg version s (some fixed_pkg) = ok (
      if not (le fixed_pkg.version version)
      then record s { binary_pocket_pkgs = append_to pocket binary_pkg s.binary_pocket_pkgs }
      else s)

  -- the binary packages of one source that need an upgrade
  unfoldable pub add_binaries : String → Dict ReleasePackage → Dict String → Sorted → Result Sorted
  add_binaries pocket usn_released_src [] s = ok s
  add_binaries pocket usn_released_src ((binary_pkg, version) ∷ d) s =
      add_binary pocket binary_pkg version s (lookup binary_pkg usn_released_src)
      >>= add_binaries pocket usn_released_src d

  abbrev pub list_source : String → PackageStatus → Sorted → Sorted
  list_source src_pkg p s = record s {
    src_pocket_pkgs = append_to (pocket_source p) (src_pkg, p) s.src_pocket_pkgs;
  }

  -- one source package, with the binary packages of it that are installed
  abbrev pub add_source_package :
      Released → String → PackageStatus → Sorted → Dict String → Result Sorted
  add_source_package usn_released_pkgs src_pkg p s binaries =
      add_binaries (pocket_source p) (or_empty (lookup src_pkg usn_released_pkgs)) binaries
        (list_source src_pkg p s)

  -- the loop over the packages whose status is released
  unfoldable pub add_released : Installed → Released → List Affected → Sorted → Result Sorted
  unfolding add_binaries
  add_released installed usn_released_pkgs [] s = ok s
  add_released installed usn_released_pkgs ((src_pkg, p) ∷ group) s =
      binaries_of (lookup src_pkg installed)
      >>= add_source_package usn_released_pkgs src_pkg p s
      >>= add_released installed usn_released_pkgs group
