-- ===== src/Security/Latest.antt =====
-- What the merge of several notices keeps of each binary package, compared with a fold over the
-- notices for one package alone.
use ubuntu_advantage_client.Base.{
  String, ◌≡◌, refl, sym, Bool, Option, none, some, List, [], ◌∷◌, ◌===◌, eq_iff, if◌then◌else◌,
  arith,
}
use ubuntu_advantage_client.Exception.{Result, ok, err, ◌>>=◌}
use ubuntu_advantage_client.Dict.{Dict, lookup, insert, Unique, lookup-insert}
use ubuntu_advantage_client.Security.Notice.{ReleasePackage, Usn, Released, release_packages}
use ubuntu_advantage_client.Security.Entries.{WellFormed, release_packages-WellFormed}
use ubuntu_advantage_client.Security.Merge.{
  is_public, public_packages, newer, merge_binaries, merge_source, merge_usn, merge_from,
  merge_usn_released_binary_package_versions,
}

-- the entry of a binary package of a source package
abbrev pub entry : String → String → Released → Option ReleasePackage
entry src bin d = elim (lookup src d) [ none ↦ none | some binaries ↦ lookup bin binaries ]

-- nothing where the pocket is one of a service in beta
abbrev pub if_public : Dict Bool → Option ReleasePackage → Option ReleasePackage
if_public beta_pockets none = none
if_public beta_pockets (some md) = if is_public beta_pockets md then some md else none

lookup-public_packages :
    (beta_pockets : Dict Bool) (bin : String) (d : Dict ReleasePackage)
    → Unique d
    → lookup bin (public_packages beta_pockets d) ≡ if_public beta_pockets (lookup bin d)
unfolding public_packages
lookup-public_packages beta_pockets bin [] u = refl
lookup-public_packages beta_pockets bin ((name, md) ∷ d) u =
    ground (arith, lookup-public_packages beta_pockets bin d u.1, eq_iff name bin)

pub public_packages-Unique :
    (beta_pockets : Dict Bool) (d : Dict ReleasePackage)
    → Unique d
    → Unique (public_packages beta_pockets d)
unfolding public_packages
public_packages-Unique beta_pockets [] u = tt
public_packages-Unique beta_pockets ((name, md) ∷ d) u = ground (
  arith,
  public_packages-Unique beta_pockets d u.1,
  lookup-public_packages beta_pockets name d u.1,
)

module _ (le : String → String → Bool) where
  -- The greater version of what was kept and what a notice has.
  abbrev pub later : Option ReleasePackage → Option ReleasePackage → Option ReleasePackage
  later kept none = kept
  later kept (some md) = some (newer le kept md)

  lookup-merge_binaries :
      (bin : String) (d merged : Dict ReleasePackage)
      → Unique d
      → lookup bin (merge_binaries le merged d) ≡ later (lookup bin merged) (lookup bin d)
  unfolding merge_binaries
  lookup-merge_binaries bin [] merged u = refl
  lookup-merge_binaries bin ((name, md) ∷ d) merged u =
      let kept = newer le (lookup name merged) md in
      ground (
        arith,
        lookup-merge_binaries bin d (insert name kept merged) u.1,
        lookup-insert name bin kept merged,
        eq_iff name bin,
      )

  entry-merge_source :
      (src bin name : String) (public : Dict ReleasePackage) (merged : Released)
      (seen : Option (Dict ReleasePackage))
      → lookup name merged ≡ seen
      → Unique public
      → entry src bin (merge_source le name public merged seen) ≡ (
          if name === src
          then later (entry src bin merged) (lookup bin public)
          else entry src bin merged)
  entry-merge_source src bin name [] merged none known u = ground (arith, eq_iff name src)
  entry-merge_source src bin name (p ∷ ps) merged none known u =
      ground (arith, lookup-insert name src (p ∷ ps) merged, eq_iff name src)
  entry-merge_source src bin name public merged (some seen) known u = ground (
    arith,
    lookup-insert name src (merge_binaries le seen public) merged,
    lookup-merge_binaries bin public seen u,
    eq_iff name src,
  )

  entry-merge_usn :
      (beta_pockets : Dict Bool) (src bin : String) (d merged : Released)
      → WellFormed d
      → entry src bin (merge_usn le beta_pockets merged d)
        ≡ later (entry src bin merged) (if_public beta_pockets (entry src bin d))
  unfolding merge_usn
  entry-merge_usn beta_pockets src bin [] merged w = refl
  entry-merge_usn beta_pockets src bin ((name, binaries) ∷ d) merged w =
      let public = public_packages beta_pockets binaries in
      ground (
        arith,
        entry-merge_usn beta_pockets src bin d
            (merge_source le name public merged (lookup name merged)) w.1.1,
        entry-merge_source src bin name public merged (lookup name merged) refl
            (public_packages-Unique beta_pockets binaries w.1.0),
        lookup-public_packages beta_pockets bin binaries w.1.0,
        eq_iff name src,
      )

module _ (le : String → String → Bool) (series : String) (beta_pockets : Dict Bool)
    (src bin : String) where
  -- One binary package of one source on its own: of the public entries that the notices have for
  -- it, the first that no later one exceeds. Fails where the packages of a notice cannot be read.
  unfoldable pub latest : Option ReleasePackage → List Usn → Result (Option ReleasePackage)
  latest kept [] = ok kept
  latest kept (usn ∷ usns) = release_packages series usn >>= λ d.
      latest (later le kept (if_public beta_pockets (entry src bin d))) usns

  merge_from-latest :
      (usns : List Usn) (merged : Released)
      → (merge_from le series beta_pockets usns merged >>= λ m. ok (entry src bin m))
        ≡ latest (entry src bin merged) usns
  unfolding merge_from latest
  merge_from-latest [] merged = refl
  merge_from-latest (usn ∷ usns) merged =
      go (release_packages series usn) (release_packages-WellFormed series usn)
        (merge_from-latest usns)
    where
      go :
          (r : Result Released)
          → ((d : Released) → r ≡ ok d → WellFormed d)
          → ((m : Released)
              → (merge_from le series beta_pockets usns m >>= λ e. ok (entry src bin e))
                ≡ latest (entry src bin m) usns)
          → ((r >>= λ d.
                merge_from le series beta_pockets usns (merge_usn le beta_pockets merged d))
              >>= λ m. ok (entry src bin m))
            ≡ (r >>= λ d.
                latest
                  (later le (entry src bin merged) (if_public beta_pockets (entry src bin d)))
                  usns)
      go (err raised) w rest = refl
      go (ok d) w rest =
          rw (sym (entry-merge_usn le beta_pockets src bin d merged (w d refl)))
            (rest (merge_usn le beta_pockets merged d))

  -- For each binary package of each source, the merge of the notices holds the entry that a fold
  -- over the notices for this package alone finds, and it raises where that fold does.
  pub merge-latest :
      (usns : List Usn)
      → (merge_usn_released_binary_package_versions le series usns beta_pockets >>= λ m.
          ok (entry src bin m))
        ≡ latest none usns
  unfolding merge_usn_released_binary_package_versions
  merge-latest usns = merge_from-latest usns []
