-- ===== src/Security/Merge.antt =====
-- The packages that several notices release, and the notices that belong together.
use ubuntu_advantage_client.Base.{
  String, Bool, true, Option, none, some, List, [], ◌∷◌, ◌++◌, not, if◌then◌else◌, is_nonempty,
}
use ubuntu_advantage_client.Exception.{Result, ok, ◌>>=◌}
use ubuntu_advantage_client.Dict.{Dict, lookup, insert, values, sort_by}
use ubuntu_advantage_client.Security.Package.{Cve}
use ubuntu_advantage_client.Security.Notice.{ReleasePackage, Usn, Released, release_packages}

-- md.get("pocket", "None")
abbrev pub pocket_or_none : ReleasePackage → String
pocket_or_none md = elim md.pocket [ none ↦ "None" | some p ↦ p ]

-- `False is beta_pockets.get(…, False)`
abbrev pub is_public : Dict Bool → ReleasePackage → Bool
is_public beta_pockets md = elim (lookup (pocket_or_none md) beta_pockets) [
  | none ↦ true
  | some b ↦ not b
]

-- public_bin_pkg_versions
unfoldable pub public_packages : Dict Bool → Dict ReleasePackage → Dict ReleasePackage
public_packages beta_pockets [] = []
public_packages beta_pockets ((name, md) ∷ d) =
    let rest = public_packages beta_pockets d in
    if is_public beta_pockets md then (name, md) ∷ rest else rest

-- `le` is what `version_cmp_le` learns from dpkg.
module _ (le : String → String → Bool) where
  -- the greater of the version that was seen before and this one
  abbrev pub newer : Option ReleasePackage → ReleasePackage → ReleasePackage
  newer none md = md
  newer (some prev) md = if not (le md.version prev.version) then md else prev

  -- the loop over the binary packages of a source that was seen before
  unfoldable pub merge_binaries : Dict ReleasePackage → Dict ReleasePackage → Dict ReleasePackage
  merge_binaries merged [] = merged
  merge_binaries merged ((name, md) ∷ d) =
      merge_binaries (insert name (newer (lookup name merged) md) merged) d

  abbrev pub merge_source :
      String → Dict ReleasePackage → Released → Option (Dict ReleasePackage) → Released
  merge_source src public merged none =
      if is_nonempty public then insert src public merged else merged
  merge_source src public merged (some seen) = insert src (merge_binaries seen public) merged

  -- the loop over the sources of one notice
  unfoldable pub merge_usn : Dict Bool → Released → Released → Released
  unfolding merge_binaries public_packages
  merge_usn beta_pockets merged [] = merged
  merge_usn beta_pockets merged ((src, binaries) ∷ d) =
      merge_usn beta_pockets
        (merge_source src (public_packages beta_pockets binaries) merged (lookup src merged)) d

  -- the loop over the notices
  unfoldable pub merge_from : String → Dict Bool → List Usn → Released → Result Released
  unfolding merge_usn
  merge_from series beta_pockets [] merged = ok merged
  merge_from series beta_pockets (usn ∷ usns) merged = release_packages series usn >>= λ d.
      merge_from series beta_pockets usns (merge_usn beta_pockets merged d)

  unfoldable pub merge_usn_released_binary_package_versions :
      String → List Usn → Dict Bool → Result Released
  unfolding merge_from
  merge_usn_released_binary_package_versions series usns beta_pockets =
      merge_from series beta_pockets usns []

abbrev pub ids_of : List Cve → List String
ids_of [] = []
ids_of (cve ∷ cves) = cve.notices_ids ++ ids_of cves

-- The notices by id; `get_notice` asks the API.
module _ (get_notice : String → Result Usn) where
  abbrev pub fetch : String → Dict Usn → Option Usn → Result (Dict Usn)
  fetch id related (some _) = ok related
  fetch id related none = get_notice id >>= λ usn. ok (insert id usn related)

  unfoldable pub related_from : List String → Dict Usn → Result (Dict Usn)
  related_from [] related = ok related
  related_from (id ∷ ids) related =
      fetch id related (lookup id related) >>= λ new. related_from ids new

  unfoldable pub get_related_usns : Usn → Result (List Usn)
  unfolding related_from sort_by
  get_related_usns usn =
      if not (is_nonempty usn.cves)
      then ok (usn ∷ [])
      else (related_from (ids_of usn.cves) [] >>= λ related.
          ok (sort_by (λ u. u.id) (values related)))
