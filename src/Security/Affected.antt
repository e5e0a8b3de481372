-- ===== src/Security/Affected.antt =====
-- Which of the installed packages an issue affects, and by which status.
use ubuntu_advantage_client.Base.{
  String, Bool, true, false, Option, none, some, List, [], ◌∷◌, ◌===◌, not, if◌then◌else◌,
  is_nonempty,
}
use ubuntu_advantage_client.Exception.{Result, ok, err, value_error, ◌>>=◌}
use ubuntu_advantage_client.Text.{codes, infix_of}
use ubuntu_advantage_client.Dict.{Dict, lookup, insert}
use ubuntu_advantage_client.Security.Package.{PackageStatus, Cve, packages_status, fixed_version}
use ubuntu_advantage_client.Security.Notice.{ReleasePackage, Usn, release_packages, metadata_error}

-- source packages, and in each its binary packages with their versions
abbrev pub Installed : Type 0
Installed = Dict (Dict String)

abbrev pub or_empty_dict : Option (Dict String) → Dict String
or_empty_dict none = []
or_empty_dict (some d) = d

-- One line of dpkg-query, split at its commas: the package, its source, the version, the status.
abbrev pub add_line : List String → Installed → Result Installed
add_line (pkg_name ∷ source ∷ pkg_version ∷ status ∷ []) installed =
    let source_pkg_name = if source === "" then pkg_name else source in
    ok (
      if not (infix_of (codes "installed") (codes status))
      then installed
      else insert source_pkg_name
          (insert pkg_name pkg_version (or_empty_dict (lookup source_pkg_name installed)))
          installed)
add_line _ installed = err value_error

unfoldable pub add_lines : List (List String) → Installed → Result Installed
add_lines [] installed = ok installed
add_lines (line ∷ lines) installed = add_line line installed >>= add_lines lines

unfoldable pub query_installed_source_pkg_versions : List (List String) → Result Installed
unfolding add_lines
query_installed_source_pkg_versions lines = add_lines lines []

abbrev pub has {ℓ} : {A : Type ℓ} → String → Dict A → Bool
has k d = elim (lookup k d) [ none ↦ false | some _ ↦ true ]

unfoldable pub affected_from :
    Installed → Dict PackageStatus → Dict PackageStatus → Dict PackageStatus
affected_from installed [] affected = affected
affected_from installed ((name, p) ∷ d) affected = affected_from installed d (
    if not (p.status === "not-affected")
    then (if has name installed then insert name p affected else affected)
    else affected)

unfoldable pub get_cve_affected_source_packages_status :
    String → Cve → Installed → Dict PackageStatus
unfolding affected_from packages_status
get_cve_affected_source_packages_status series cve installed =
    affected_from installed (packages_status series cve) []

-- the binary pockets of a source that are neither missing nor empty
abbrev pub all_pockets : Dict ReleasePackage → List String
all_pockets [] = []
all_pockets ((name, md) ∷ d) = elim md.pocket [
  | none ↦ all_pockets d
  | some p ↦ if p === "" then all_pockets d else p ∷ all_pockets d
]

module _ (le : String → String → Bool) (series : String) where
  -- the status that stays of two
  abbrev pub chosen : Option PackageStatus → PackageStatus → PackageStatus
  chosen none p = p
  chosen (some current) p =
      if not (le (fixed_version current) (fixed_version p)) then p else current

  unfoldable pub choose_all : Dict PackageStatus → Dict PackageStatus → Dict PackageStatus
  choose_all [] affected = affected
  choose_all ((name, p) ∷ d) affected =
      choose_all d (insert name (chosen (lookup name affected) p) affected)

  unfoldable pub affected_from_cves : List Cve → Installed → Dict PackageStatus → Dict PackageStatus
  unfolding choose_all get_cve_affected_source_packages_status
  affected_from_cves [] installed affected = affected
  affected_from_cves (cve ∷ cves) installed affected =
      affected_from_cves cves installed
        (choose_all (get_cve_affected_source_packages_status series cve installed) affected)

  unfoldable pub get_affected_packages_from_cves : List Cve → Installed → Dict PackageStatus
  unfolding affected_from_cves
  get_affected_packages_from_cves cves installed = affected_from_cves cves installed []

  -- `all_pockets.pop()` takes any member of the set: `pop`.
  module _ (pop : String → List String → String) where
    abbrev pub released_in : Dict ReleasePackage → List String → Result PackageStatus
    released_in d [] = metadata_error
    released_in d (p ∷ ps) = ok (record {
      description = "";
      pocket = some (pop p ps);
      release_codename = "";
      status = "released";
    })

    unfoldable pub affected_from_usn :
        Dict (Dict ReleasePackage) → Installed → Dict PackageStatus → Result (Dict PackageStatus)
    affected_from_usn [] installed affected = ok affected
    affected_from_usn ((name, binaries) ∷ d) installed affected =
        (if has name installed
          then (released_in binaries (all_pockets binaries) >>= λ p. ok (insert name p affected))
          else ok affected)
        >>= λ new. affected_from_usn d installed new

    unfoldable pub get_affected_packages_from_usn : Usn → Installed → Result (Dict PackageStatus)
    unfolding affected_from_usn
    get_affected_packages_from_usn usn installed =
        release_packages series usn >>= λ d. affected_from_usn d installed []

    unfoldable pub get_usn_affected_packages_status : Usn → Installed → Result (Dict PackageStatus)
    unfolding get_affected_packages_from_usn get_affected_packages_from_cves
    get_usn_affected_packages_status usn installed =
        if is_nonempty usn.cves
        then ok (get_affected_packages_from_cves usn.cves installed)
        else get_affected_packages_from_usn usn installed
