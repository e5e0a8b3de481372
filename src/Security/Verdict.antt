-- ===== src/Security/Verdict.antt =====
-- What it takes for a fix to end with SYSTEM_NON_VULNERABLE.
use ubuntu_advantage_client.Base.{
  ℕ, String, ◌≡◌, ◌≢◌, ◌⊎◌, inl, inr, refl, sym, ap, ◌∙◌, Bool, true, false, List, [], ◌∷◌, ◌++◌,
  ◌===◌, eq_of_===, not, length, All, All-map,
}
use ubuntu_advantage_client.Exception.{ok, ok-injective}
use ubuntu_advantage_client.Dict.{Dict, sort_by}
use ubuntu_advantage_client.Dict.Sorting.{sort_by-All-back}
use ubuntu_advantage_client.Json.{str}
use ubuntu_advantage_client.Machine.{Machine, named, reads, info, ◌>>=◌}
use ubuntu_advantage_client.Machine.Steps.{returns_through}
use ubuntu_advantage_client.Entitlement.{Env}
use ubuntu_advantage_client.Security.Package.{PackageStatus}
use ubuntu_advantage_client.Security.Notice.{Released}
use ubuntu_advantage_client.Security.Affected.{Installed}
use ubuntu_advantage_client.Security.Ask.{Calls}
use ubuntu_advantage_client.Security.Fix.{
  Affected, InstallResult, system_non_vulnerable, system_still_vulnerable,
  system_vulnerable_until_reboot, group_from, group_by_usn_package_status, names_in,
  handle_released_package_fixes,
}
use ubuntu_advantage_client.Security.Groups.{Sorted, nothing_sorted}
use ubuntu_advantage_client.Security.Prompt.{
  Queries, add_group_if, add_group, add_groups, print_affected_packages_header, unfixed_message,
  fix_message, not_resolved, conclude_reboot, conclude_with, conclude, install_sorted,
  prompt_for_affected_packages,
}
use ubuntu_advantage_client.Machine.Avoids.{Avoids, pure-Avoids, if-Avoids, >>=-Avoids}
use ubuntu_advantage_client.Security.Grouped.{
  fix_group, HasMember, group_from-HasMember, lookup-All, add_released-unfixed,
}

names_in-empty : (group : List Affected) → names_in group ≡ [] → group ≡ []
names_in-empty [] h = refl
names_in-empty (a ∷ group) h = cc h

append-empty : {A : Type 0} (xs ys : List A) → xs ++ ys ≡ [] → (xs ≡ []) × (ys ≡ [])
append-empty [] ys h = (refl, h)
append-empty (x ∷ xs) ys h = cc h

-- A group that is fixed: its status is released, or it is empty.
abbrev Fixed : String × List Affected → Type 0
Fixed (value, group) = (value ≡ "released") ⊎ (group ≡ [])

module _ {H : Type 0} (env : Env H) (calls : Calls H) (queries : Queries H) where
  add_group-Fixed :
      (installed : Installed) (released : Released) (count : ℕ) (value : String)
      (group : List Affected) (s s' : Sorted) (m m' : Machine H) (b : Bool)
      → (value === "released") ≡ b
      → add_group_if env calls queries b installed released count group s m ≡ (ok s', m')
      → s'.unfixed_pkgs ≡ []
      → (s.unfixed_pkgs ≡ []) × Fixed (value, group)
  add_group-Fixed installed released count value group s s' m m' true same h e = (
    sym (
          add_released-unfixed queries.version_cmp_le installed released group s s'
            (ap (λ r. r.0) h))
        ∙ e,
    inl (eq_of_=== value "released" same),
  )
  add_group-Fixed installed released count value group s s' m m' false other h e =
      let skipped : s.unfixed_pkgs ++ names_in group ≡ [] =
        ap (λ t. t.unfixed_pkgs) (ok-injective (ap (λ r. r.0) h)) ∙ e in
      let (before, nothing) = append-empty s.unfixed_pkgs (names_in group) skipped in
      (before, inr (names_in-empty group nothing))

  add_groups-Fixed :
      (installed : Installed) (released : Released) (count : ℕ)
      (groups : List (String × List Affected)) (s s' : Sorted) (m m' : Machine H)
      → add_groups env calls queries installed released count groups s m ≡ (ok s', m')
      → s'.unfixed_pkgs ≡ []
      → (s.unfixed_pkgs ≡ []) × All Fixed groups
  unfolding add_groups add_group
  add_groups-Fixed installed released count [] s s' m m' h e =
      (ap (λ t. t.unfixed_pkgs) (ok-injective (ap (λ r. r.0) h)) ∙ e, tt)
  add_groups-Fixed installed released count ((value, group) ∷ groups) s s' m m' h e =
      let (s₁, m₁, r, rest) =
        returns_through (add_group env calls queries installed released count value group s m)
          (add_groups env calls queries installed released count groups) s' m' h in
      let (e₁, all) = add_groups-Fixed installed released count groups s₁ s' m₁ m' rest e in
      let (e₀, first) =
        add_group-Fixed installed released count value group s s₁ m m₁ (value === "released") refl r
          e₁ in
      (e₀, (first, all))

module _ {H : Type 0} (env : Env H) (calls : Calls H) (queries : Queries H) where
  still_vulnerable : system_still_vulnerable ≢ system_non_vulnerable
  still_vulnerable h = cc h

  reboot-Avoids :
      (id : String) (s : Sorted) (x : String) (xs : List String) (reboot : Bool)
      → Avoids system_non_vulnerable (conclude_reboot env calls queries id s (x ∷ xs) reboot)
  reboot-Avoids id s x xs true =
      >>=-Avoids system_non_vulnerable
        (info (named "ENABLE_REBOOT_REQUIRED_TMPL" (str "fix operation" ∷ [])))
        λ _. >>=-Avoids system_non_vulnerable calls.add_reboot_notice λ _.
          >>=-Avoids system_non_vulnerable (info (not_resolved env calls queries id))
            λ _. pure-Avoids system_non_vulnerable system_vulnerable_until_reboot λ e. cc e
  reboot-Avoids id s x xs false =
      >>=-Avoids system_non_vulnerable (info (fix_message env calls queries id s.resolved))
        λ _. pure-Avoids system_non_vulnerable system_still_vulnerable still_vulnerable

  conclude-Avoids :
      (id : String) (s : Sorted) (r : InstallResult) (x : String) (xs : List String)
      → Avoids system_non_vulnerable (conclude_with env calls queries id s r (x ∷ xs))
  conclude-Avoids id s r x xs =
      >>=-Avoids system_non_vulnerable (info (unfixed_message (x ∷ xs))) λ _.
        if-Avoids system_non_vulnerable (not r.fix_status)
          (>>=-Avoids system_non_vulnerable (info (not_resolved env calls queries id))
            λ _. pure-Avoids system_non_vulnerable system_still_vulnerable still_vulnerable)
          (if-Avoids system_non_vulnerable r.all_already_installed
            (>>=-Avoids system_non_vulnerable (info (fix_message env calls queries id s.resolved))
              λ _. pure-Avoids system_non_vulnerable system_still_vulnerable still_vulnerable)
            (>>=-Avoids system_non_vulnerable (reads (calls.should_reboot r.installed_pkgs))
              λ reboot. reboot-Avoids id s x xs reboot))

  conclude-empty :
      (id : String) (s : Sorted) (r : InstallResult) (unfixed : List String) (m m' : Machine H)
      → conclude_with env calls queries id s r unfixed m ≡ (ok system_non_vulnerable, m')
      → unfixed ≡ []
  conclude-empty id s r [] m m' h = refl
  conclude-empty id s r (x ∷ xs) m m' h =
      absurd ((conclude-Avoids id s r x xs).never m (ap (λ t. t.0) h))

  install-unfixed :
      (id : String) (count : ℕ) (dry_run : Bool) (s : Sorted) (m m' : Machine H)
      → install_sorted env calls queries id count dry_run s m ≡ (ok system_non_vulnerable, m')
      → s.unfixed_pkgs ≡ []
  unfolding conclude
  install-unfixed id count dry_run s m m' h =
      let (r, m₁, _, rest) =
        returns_through
          (handle_released_package_fixes env calls count dry_run s.src_pocket_pkgs
            s.binary_pocket_pkgs s.pkg_index m)
          (conclude env calls queries id s) system_non_vulnerable m' h in
      (append-empty s.unfixed_pkgs r.unfixed_pkgs
        (conclude-empty id s r (s.unfixed_pkgs ++ r.unfixed_pkgs) m₁ m' rest)).0

  Fixed-group :
      (group : List Affected) (k : String) (x : Affected) (xs : List Affected)
      → group ≡ x ∷ xs
      → Fixed (k, group)
      → k ≡ "released"
  Fixed-group group k x xs e (inl h) = h
  Fixed-group group k x xs e (inr h) = cc (e, h)

  grouped :
      (released : Released) (affected : List Affected) (groups : Dict (List Affected))
      → All Fixed groups
      → All (λ a. HasMember (fix_group released a) groups) affected
      → All (λ a. fix_group released a ≡ "released") affected
  grouped released affected groups fixed members =
      All-map
        (λ a (x, xs, found).
          Fixed-group (x ∷ xs) (fix_group released a) x xs refl
            (lookup-All Fixed (fix_group released a) groups (x ∷ xs) fixed found))
        affected members

  -- Where the fix of the affected packages ends with SYSTEM_NON_VULNERABLE, the status by which it
  -- went for each of them, its own or the one that the notices give it, is released.
  pub non_vulnerable_released :
      (id : String) (affected : Dict PackageStatus) (installed : Installed) (released : Released)
      (dry_run : Bool) (m m' : Machine H)
      → prompt_for_affected_packages env calls queries id affected installed released dry_run m
        ≡ (ok system_non_vulnerable, m')
      → All (λ a. fix_group released a ≡ "released") affected
  unfolding prompt_for_affected_packages group_by_usn_package_status
  non_vulnerable_released id [] installed released dry_run m m' h = tt
  non_vulnerable_released id (a ∷ as') installed released dry_run m m' h =
      let affected = a ∷ as' in
      let groups = group_from released (sort_by (λ b. b.0) affected) [] in
      let sorted_groups = sort_by (λ g. g.0) groups in
      let (_, m₀, _, body) =
        returns_through (print_affected_packages_header env calls queries id affected m)
          (λ _.
            add_groups env calls queries installed released (length affected) sorted_groups
              nothing_sorted
            >>= install_sorted env calls queries id (length affected) dry_run)
          system_non_vulnerable m' h in
      let (s, m₁, r, rest) =
        returns_through
          (add_groups env calls queries installed released (length affected) sorted_groups
            nothing_sorted m₀)
          (install_sorted env calls queries id (length affected) dry_run) system_non_vulnerable m'
          body in
      let (_, fixed) =
        add_groups-Fixed env calls queries installed released (length affected) sorted_groups
          nothing_sorted s m₀ m₁ r (install-unfixed id (length affected) dry_run s m₁ m' rest) in
      sort_by-All-back (λ b. b.0) (λ b. fix_group released b ≡ "released") affected
        (grouped released (sort_by (λ b. b.0) affected) groups
          (sort_by-All-back (λ g. g.0) Fixed groups fixed)
          (group_from-HasMember released (sort_by (λ b. b.0) affected) []).1)
