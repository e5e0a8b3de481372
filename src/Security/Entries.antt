-- ===== src/Security/Entries.antt =====
-- The packages of a notice by source and binary package, each of which stands once.
use mathlib.Core.Path.{subst}
use ubuntu_advantage_client.Base.{
  String, ◌≡◌, refl, Bool, true, false, Option, none, some, List, [], ◌∷◌, ◌===◌, eq_iff,
  if◌then◌else◌, arith,
}
use ubuntu_advantage_client.Exception.{Result, ok, err, ◌>>=◌}
use ubuntu_advantage_client.Dict.{Dict, lookup, insert, Unique, lookup-insert, insert-Unique}
use ubuntu_advantage_client.Security.Notice.{
  ReleasePackage, Usn, Released, release_packages, release_packages_from, add_package, add_source,
  source_name, or_empty, or_no_packages, metadata_error,
}

-- Every source stands once, and in it every binary.
abbrev pub WellFormed : Released → Type 0
WellFormed [] = Unit
WellFormed ((src, binaries) ∷ d) = (lookup src d ≡ none) × (Unique binaries × WellFormed d)

insert-WellFormed :
    (src : String) (binaries : Dict ReleasePackage) (d : Released)
    → Unique binaries
    → WellFormed d
    → WellFormed (insert src binaries d)
insert-WellFormed src binaries [] u w = (refl, (u, tt))
insert-WellFormed src binaries ((name, b) ∷ d) u w = ground (
  arith,
  insert-WellFormed src binaries d u w.1.1,
  lookup-insert src name binaries d,
  eq_iff name src,
  eq_iff src name,
)

abbrev OptionUnique : Option (Dict ReleasePackage) → Type 0
OptionUnique none = Unit
OptionUnique (some binaries) = Unique binaries

lookup-OptionUnique : (src : String) (d : Released) → WellFormed d → OptionUnique (lookup src d)
lookup-OptionUnique src [] w = tt
lookup-OptionUnique src ((name, b) ∷ d) w =
    elim (name === src) as (λ t. OptionUnique (elim t [ true ↦ some b | false ↦ lookup src d ])) [
      | true ↦ w.1.0
      | false ↦ lookup-OptionUnique src d w.1.1
    ]

abbrev pub IfReturns : {A : Type 0} → (A → Type 0) → Result A → Type 0
IfReturns P (err raised) = Unit
IfReturns P (ok value) = P value

always-IfReturns :
    {A B : Type 0} (Q : B → Type 0) (r : Result A) (f : A → Result B)
    → ((a : A) → IfReturns Q (f a))
    → IfReturns Q (r >>= f)
always-IfReturns Q (err raised) f k = tt
always-IfReturns Q (ok value) f k = k value

if-IfReturns :
    {A : Type 0} (Q : A → Type 0) (b : Bool) (r s : Result A)
    → IfReturns Q r
    → IfReturns Q s
    → IfReturns Q (if b then r else s)
if-IfReturns Q true r s hr hs = hr
if-IfReturns Q false r s hr hs = hs

insert-source :
    (pkg : ReleasePackage) (d : Released) (seen : Option (Dict ReleasePackage))
    → OptionUnique seen
    → WellFormed d
    → IfReturns WellFormed (add_source pkg d seen)
insert-source pkg d none u w = insert-WellFormed pkg.name (("source", pkg) ∷ []) d (refl, tt) w
insert-source pkg d (some binaries) u w =
    elim (lookup "source" binaries)
      as (λ o. IfReturns WellFormed (elim o [
        | some _ ↦ metadata_error
        | none ↦ ok (insert pkg.name (insert "source" pkg binaries) d)
      ])) [
        | some _ ↦ tt
        | none ↦
            insert-WellFormed pkg.name (insert "source" pkg binaries) d
              (insert-Unique "source" pkg binaries u) w
      ]

or_empty-Unique : (seen : Option (Dict ReleasePackage)) → OptionUnique seen → Unique (or_empty seen)
or_empty-Unique none u = tt
or_empty-Unique (some binaries) u = u

then-IfReturns :
    (r : Result Released) (f : Released → Result Released)
    → IfReturns WellFormed r
    → ((d : Released) → WellFormed d → IfReturns WellFormed (f d))
    → IfReturns WellFormed (r >>= f)
then-IfReturns (err raised) f h k = tt
then-IfReturns (ok d) f h k = k d h

abbrev add_binary : ReleasePackage → Released → String → Result Released
add_binary pkg d source = ok (insert source (insert pkg.name pkg (or_empty (lookup source d))) d)

add_package-WellFormed :
    (pkg : ReleasePackage) (d : Released) → WellFormed d → IfReturns WellFormed (add_package pkg d)
unfolding add_package
add_package-WellFormed pkg d w =
    if-IfReturns WellFormed pkg.is_source (add_source pkg d (lookup pkg.name d))
      (source_name pkg.source_link >>= add_binary pkg d)
      (insert-source pkg d (lookup pkg.name d) (lookup-OptionUnique pkg.name d w) w)
      (always-IfReturns WellFormed (source_name pkg.source_link) (add_binary pkg d) λ source.
        insert-WellFormed source (insert pkg.name pkg (or_empty (lookup source d))) d
          (insert-Unique pkg.name pkg (or_empty (lookup source d))
            (or_empty-Unique (lookup source d) (lookup-OptionUnique source d w)))
          w)

release_packages_from-WellFormed :
    (pkgs : List ReleasePackage) (d : Released)
    → WellFormed d
    → IfReturns WellFormed (release_packages_from pkgs d)
unfolding release_packages_from
release_packages_from-WellFormed [] d w = w
release_packages_from-WellFormed (pkg ∷ pkgs) d w =
    then-IfReturns (add_package pkg d) (release_packages_from pkgs) (add_package-WellFormed pkg d w)
      (release_packages_from-WellFormed pkgs)

pub release_packages-WellFormed :
    (series : String) (usn : Usn) (d : Released) → release_packages series usn ≡ ok d → WellFormed d
unfolding release_packages
release_packages-WellFormed series usn d returned = subst (IfReturns WellFormed) returned (
    release_packages_from-WellFormed (or_no_packages (lookup series (or_empty usn.released))) [] tt)
