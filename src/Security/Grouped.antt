-- ===== src/Security/Grouped.antt =====
-- The groups of the affected packages, and what the loop over the released ones leaves.
use mathlib.Core.Path.{subst}
use ubuntu_advantage_client.Base.{
  String, ◌≡◌, inl, inr, refl, sym, ap, ◌∙◌, Bool, true, false, Option, none, some, List, [], ◌∷◌,
  ◌++◌, ◌===◌, eq_of_===, eq_iff, not, if◌then◌else◌, All, Bool-cases, arith,
}
use ubuntu_advantage_client.Exception.{ok, ◌>>=◌ as and_then, ok-injective, >>=-eq-ok}
use ubuntu_advantage_client.Dict.{Dict, lookup, lookup-insert}
use ubuntu_advantage_client.Security.Package.{pocket_source}
use ubuntu_advantage_client.Security.Notice.{ReleasePackage, Released, or_empty}
use ubuntu_advantage_client.Security.Affected.{Installed}
use ubuntu_advantage_client.Security.Fix.{
  Affected, append_to, or_no_list, status_group, override_usn_release_package_status, group_from,
}
use ubuntu_advantage_client.Security.Groups.{
  Sorted, binaries_of, add_binary, list_source, add_source_package, add_binaries, add_released,
}

-- the status by which the fix goes for a package
abbrev pub fix_group : Released → Affected → String
fix_group usn_released_pkgs (src_pkg, p) =
    status_group
      (override_usn_release_package_status p (or_empty (lookup src_pkg usn_released_pkgs)))

abbrev pub HasMember : {A : Type 0} → String → Dict (List A) → Type 0
HasMember {A} k d = (x : A) × (xs : List A) × (lookup k d ≡ some (x ∷ xs))

append-HasMember :
    {A : Type 0} (ys : List A) (x : A) → (z : A) × (zs : List A) × (ys ++ x ∷ [] ≡ z ∷ zs)
append-HasMember [] x = (x, [], refl)
append-HasMember (y ∷ ys) x = (y, ys ++ x ∷ [], refl)

appended-HasMember :
    {A : Type 0} (k : String) (x : A) (d : Dict (List A)) (j : String)
    → (k === j) ≡ true
    → HasMember j (append_to k x d)
appended-HasMember k x d j same =
    let (z, zs, e) = append-HasMember (or_no_list (lookup k d)) x in
    (z, zs, ground (arith, lookup-insert k j (or_no_list (lookup k d) ++ x ∷ []) d))

append_to-HasMember :
    {A : Type 0} (k : String) (x : A) (d : Dict (List A)) (j : String)
    → HasMember j d
    → HasMember j (append_to k x d)
append_to-HasMember k x d j (z, zs, h) = elim (Bool-cases (k === j)) [
  | inl same ↦ appended-HasMember k x d j same
  | inr other ↦ (z, zs, ground (arith, lookup-insert k j (or_no_list (lookup k d) ++ x ∷ []) d))
]

pub group_from-HasMember :
    (released : Released) (affected : List Affected) (groups : Dict (List Affected))
    → ((k : String) → HasMember k groups → HasMember k (group_from released affected groups))
      × All (λ a. HasMember (fix_group released a) (group_from released affected groups)) affected
unfolding group_from
group_from-HasMember released [] groups = (λ k h. h, tt)
group_from-HasMember released ((src, p) ∷ affected) groups =
    let q = override_usn_release_package_status p (or_empty (lookup src released)) in
    let new = append_to (status_group q) (src, q) groups in
    let (kept, all) = group_from-HasMember released affected new in
    (
      λ k h. kept k (append_to-HasMember (status_group q) (src, q) groups k h),
      (
        kept (status_group q) (
            appended-HasMember (status_group q) (src, q) groups (status_group q)
              ((eq_iff (status_group q) (status_group q)).1 refl)),
        all,
      ),
    )

pub lookup-All :
    {A : Type 0} (P : String × A → Type 0) (k : String) (d : Dict A) (v : A)
    → All P d
    → lookup k d ≡ some v
    → P (k, v)
lookup-All P k [] v h found = cc found
lookup-All {A} P k ((j, w) ∷ d) v h found = elim (Bool-cases (j === k)) [
  | inl same ↦ subst (λ x. P (k, x)) (ground arith) (subst (λ i. P (i, w)) (eq_of_=== j k same) h.0)
  | inr other ↦ lookup-All P k d v h.1 (ground arith)
]

abbrev pub SameUnfixed : Sorted → Sorted → Type 0
SameUnfixed s s' = s'.unfixed_pkgs ≡ s.unfixed_pkgs

if-SameUnfixed : (b : Bool) (s t : Sorted) → SameUnfixed s t → SameUnfixed s (if b then t else s)
if-SameUnfixed true s t h = h
if-SameUnfixed false s t h = refl

module _ (le : String → String → Bool) where
  add_binary-unfixed :
      (pocket binary version : String) (s s' : Sorted) (found : Option ReleasePackage)
      → add_binary le pocket binary version s found ≡ ok s'
      → SameUnfixed s s'
  add_binary-unfixed pocket binary version s s' none h = cc h
  add_binary-unfixed pocket binary version s s' (some md) h =
      subst (SameUnfixed s) (ok-injective h) (
        if-SameUnfixed (not (le md.version version)) s
          (record s { binary_pocket_pkgs = append_to pocket binary s.binary_pocket_pkgs }) refl)

  add_binaries-unfixed :
      (pocket : String) (usn : Dict ReleasePackage) (d : Dict String) (s s' : Sorted)
      → add_binaries le pocket usn d s ≡ ok s'
      → SameUnfixed s s'
  unfolding add_binaries
  add_binaries-unfixed pocket usn [] s s' h = sym (ap (λ t. t.unfixed_pkgs) (ok-injective h))
  add_binaries-unfixed pocket usn ((b, v) ∷ d) s s' h =
      let (s₁, r, rest) =
        >>=-eq-ok (add_binary le pocket b v s (lookup b usn)) (add_binaries le pocket usn d) h in
      add_binaries-unfixed pocket usn d s₁ s' rest
      ∙ add_binary-unfixed pocket b v s s₁ (lookup b usn) r

  pub add_released-unfixed :
      (installed : Installed) (released : Released) (group : List Affected) (s s' : Sorted)
      → add_released le installed released group s ≡ ok s'
      → SameUnfixed s s'
  unfolding add_released
  add_released-unfixed installed released [] s s' h =
      sym (ap (λ t. t.unfixed_pkgs) (ok-injective h))
  add_released-unfixed installed released ((src, p) ∷ group) s s' h =
      let found = binaries_of (lookup src installed) in
      let (s₁, r, rest) =
        >>=-eq-ok (and_then found (add_source_package le released src p s))
          (add_released le installed released group) h in
      let (binaries, _, r') = >>=-eq-ok found (add_source_package le released src p s) r in
      add_released-unfixed installed released group s₁ s' rest
      ∙ add_binaries-unfixed (pocket_source p) (or_empty (lookup src released)) binaries
          (list_source le src p s) s₁ r'
