-- ===== src/Security/Versions.antt =====
-- The versions that the merge of several notices keeps.
use mathlib.Core.Path.{subst}
use ubuntu_advantage_client.Base.{
  String, ◌≡◌, ◌∙◌, sym, ap, ◌⊎◌, inl, inr, refl, Bool, true, false, Option, none, some, List, [],
  ◌∷◌, arith, All, Any, here, there, Bool-cases,
}
use ubuntu_advantage_client.Exception.{ok, ◌>>=◌, >>=-eq-ok, ok-injective}
use ubuntu_advantage_client.Dict.{Dict}
use ubuntu_advantage_client.Security.Notice.{ReleasePackage, Usn, Released, release_packages}
use ubuntu_advantage_client.Security.Merge.{merge_usn_released_binary_package_versions}
use ubuntu_advantage_client.Security.Latest.{entry, if_public, later, latest, merge-latest}

-- What dpkg documents of `le` on versions: a total preorder.
pub record VersionOrder (le : String → String → Bool) : Type 0 where
  pub reflexive : (v : String) → le v v ≡ true
  pub transitive : (u v w : String) → le u v ≡ true → le v w ≡ true → le u w ≡ true
  pub total : (u v : String) → le u v ≡ false → le v u ≡ true

module _ (le : String → String → Bool) where
  -- The second has a version at least that of the first, where there is a first.
  abbrev pub AtMost : Option ReleasePackage → Option ReleasePackage → Type 0
  AtMost none y = Unit
  AtMost (some x) none = ⊥
  AtMost (some x) (some y) = le x.version y.version ≡ true

  module _ (order : VersionOrder le) where
    AtMost-trans : (x y z : Option ReleasePackage) → AtMost x y → AtMost y z → AtMost x z
    AtMost-trans none y z h k = tt
    AtMost-trans (some x) none z h k = absurd h
    AtMost-trans (some x) (some y) none h k = k
    AtMost-trans (some x) (some y) (some z) h k = order.transitive x.version y.version z.version h k

    AtMost-refl : (x : Option ReleasePackage) → AtMost x x
    AtMost-refl none = tt
    AtMost-refl (some x) = order.reflexive x.version

    later-kept : (kept x : Option ReleasePackage) → AtMost kept (later le kept x)
    later-kept none x = tt
    later-kept (some k) none = order.reflexive k.version
    later-kept (some k) (some x) =
        ground (arith, order.reflexive k.version, order.total x.version k.version)

    later-new : (kept x : Option ReleasePackage) → AtMost x (later le kept x)
    later-new kept none = tt
    later-new none (some x) = order.reflexive x.version
    later-new (some k) (some x) = ground (arith, order.reflexive x.version)

  later-member : (kept x : Option ReleasePackage) → (later le kept x ≡ kept) ⊎ (later le kept x ≡ x)
  later-member kept none = inl refl
  later-member none (some x) = inr refl
  later-member (some k) (some x) = elim (Bool-cases (le x.version k.version)) [
    | inl h ↦ inl (rw h refl)
    | inr h ↦ inr (rw h refl)
  ]

module _ (le : String → String → Bool) (series : String) (beta_pockets : Dict Bool)
    (src bin : String) where
  -- what a notice has for the package, if the pocket is public
  abbrev pub Has : Usn → Option ReleasePackage → Type 0
  Has usn md =
      (d : Released) × (release_packages series usn ≡ ok d)
      × (if_public beta_pockets (entry src bin d) ≡ md)

  abbrev ResultOf : Option ReleasePackage → List Usn → Option ReleasePackage → Type 0
  ResultOf kept usns md = latest le series beta_pockets src bin kept usns ≡ ok md

  latest-Any :
      (usns : List Usn) (kept md : Option ReleasePackage)
      → ResultOf kept usns md
      → (md ≡ kept) ⊎ Any (λ usn. Has usn md) usns
  unfolding latest
  latest-Any [] kept md h = inl cc
  latest-Any (usn ∷ usns) kept md h =
      let (d, r, h') =
        >>=-eq-ok (release_packages series usn)
          (λ d.
            latest le series beta_pockets src bin
              (later le kept (if_public beta_pockets (entry src bin d))) usns)
          h in
      let x = if_public beta_pockets (entry src bin d) in
      elim (latest-Any usns (later le kept x) md h') [
        | inr found ↦ inr (there found)
        | inl same ↦ elim (later-member le kept x) [
          | inl old ↦ inl (same ∙ old)
          | inr new ↦ inr (here (d, r, sym (same ∙ new)))
        ]
      ]

  module _ (order : VersionOrder le) where
    latest-AtMost :
        (usns : List Usn) (kept md : Option ReleasePackage)
        → ResultOf kept usns md
        → AtMost le kept md
          × All (λ usn. (x : Option ReleasePackage) → Has usn x → AtMost le x md) usns
    unfolding latest
    latest-AtMost [] kept md h =
        (subst (AtMost le kept) (ok-injective h) (AtMost-refl le order kept), tt)
    latest-AtMost (usn ∷ usns) kept md h =
        let step : Released → Option ReleasePackage =
          λ d. later le kept (if_public beta_pockets (entry src bin d)) in
        let (d, r, h') =
          >>=-eq-ok (release_packages series usn)
            (λ d. latest le series beta_pockets src bin (step d) usns) h in
        let x = if_public beta_pockets (entry src bin d) in
        let (above, rest) = latest-AtMost usns (step d) md h' in
        (
          AtMost-trans le order kept (step d) md (later-kept le order kept x) above,
          (
            λ y (e, re, same).
                subst (λ z. AtMost le z md)
                  (ap (λ z. if_public beta_pockets (entry src bin z)) (ok-injective (sym r ∙ re))
                    ∙ same)
                  (AtMost-trans le order x (step d) md (later-new le order kept x) above),
            rest,
          ),
        )

    -- Where the order of versions is a total preorder and the merge of the notices returns, the
    -- entry it holds for a binary package of a source package has a version at least that of every
    -- entry that one of the notices has for it in a pocket that is not in beta. There is an entry
    -- where one of the notices has one, and it is the entry of one of the notices, and public.
    pub merged_entry-Greatest :
        (usns : List Usn) (merged : Released)
        → merge_usn_released_binary_package_versions le series usns beta_pockets ≡ ok merged
        → All
            (λ usn. (x : Option ReleasePackage) → Has usn x → AtMost le x (entry src bin merged))
            usns
          × ((entry src bin merged ≡ none) ⊎ Any (λ usn. Has usn (entry src bin merged)) usns)
    merged_entry-Greatest usns merged returned =
        let found : latest le series beta_pockets src bin none usns ≡ ok (entry src bin merged) =
          sym (merge-latest le series beta_pockets src bin usns)
          ∙ ap (λ r. r >>= λ m. ok (entry src bin m)) returned in
        (
          (latest-AtMost usns none (entry src bin merged) found).1,
          latest-Any usns none (entry src bin merged) found,
        )
