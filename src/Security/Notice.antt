-- ===== src/Security/Notice.antt =====
-- `USN`: a notice and the packages that it releases.
use Prim.Native.Char.{code}
use ubuntu_advantage_client.Base.{
  String, Bool, false, Option, none, some, List, [], ◌∷◌, ◌===◌, ◌==◌, ◌||◌, if◌then◌else◌,
}
use ubuntu_advantage_client.Exception.{Result, ok, err, other_error, ◌>>=◌}
use ubuntu_advantage_client.Dict.{Dict, lookup, insert}
use ubuntu_advantage_client.Security.Package.{Cve}

-- An entry of `release_packages`: a source or a binary package.
pub record ReleasePackage : Type 0 where
  pub name : String
  pub version : String
  pub is_source : Bool
  pub source_link : Option String
  pub pocket : Option String

-- A notice; `released` is `release_packages` of the response, by series, where there is that key.
pub record Usn : Type 0 where
  pub id : String
  pub cves : List Cve
  pub released : Option (Dict (List ReleasePackage))

-- source packages, and in each its binary packages and, under "source", the source itself
abbrev pub Released : Type 0
Released = Dict (Dict ReleasePackage)

abbrev pub metadata_error : {A : Type 0} → Result A
metadata_error = err (other_error "SecurityAPIMetadataError")

abbrev pub has_slash : String → Bool
has_slash String.[] = false
has_slash (String.◌∷◌ c s) = (code c == b'/') || has_slash s

-- link.split("/")[-1]
abbrev pub last_part : String → String
last_part String.[] = ""
last_part (String.◌∷◌ c s) =
    let rest = last_part s in
    if has_slash s then rest else if code c == b'/' then s else String.◌∷◌ c s

-- `not pkg.get("source_link")`, and else its last part
abbrev pub source_name : Option String → Result String
source_name none = metadata_error
source_name (some link) =
    if link === ""
    then metadata_error
    else if has_slash link
    then ok (last_part link)
    else metadata_error

abbrev pub or_empty : {A : Type 0} → Option (Dict A) → Dict A
or_empty none = []
or_empty (some d) = d

abbrev pub add_source : ReleasePackage → Released → Option (Dict ReleasePackage) → Result Released
add_source pkg d none = ok (insert pkg.name (("source", pkg) ∷ []) d)
add_source pkg d (some binaries) = elim (lookup "source" binaries) [
  | some _ ↦ metadata_error
  | none ↦ ok (insert pkg.name (insert "source" pkg binaries) d)
]

-- one round of the loop of `USN.release_packages`
unfoldable pub add_package : ReleasePackage → Released → Result Released
add_package pkg d =
    if pkg.is_source
    then add_source pkg d (lookup pkg.name d)
    else (source_name pkg.source_link >>= λ source.
        ok (insert source (insert pkg.name pkg (or_empty (lookup source d))) d))

unfoldable pub release_packages_from : List ReleasePackage → Released → Result Released
unfolding add_package
release_packages_from [] d = ok d
release_packages_from (pkg ∷ pkgs) d = add_package pkg d >>= λ e. release_packages_from pkgs e

abbrev pub or_no_packages : Option (List ReleasePackage) → List ReleasePackage
or_no_packages none = []
or_no_packages (some pkgs) = pkgs

unfoldable pub release_packages : String → Usn → Result Released
unfolding release_packages_from
release_packages series usn =
    release_packages_from (or_no_packages (lookup series (or_empty usn.released))) []
