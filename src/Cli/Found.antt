-- ===== src/Cli/Found.antt =====
-- The names that are services, and commands that return.
use mathlib.Core.Path.{subst}
use ubuntu_advantage_client.Base.{
  ℕ, String, ◌≡◌, refl, sym, ◌∙◌, ap, Bool, true, false, Option, none, some, List, [], ◌∷◌, not,
  contains, if◌then◌else◌, Bool-cases, inl, inr, ◌===◌, ◌&&◌,
}
use ubuntu_advantage_client.Exception.{Result, ok, err, user_facing, other_error, ok-injective}
use ubuntu_advantage_client.Json.{str, Value}
use ubuntu_advantage_client.Machine.{Machine, Action, raise}
use ubuntu_advantage_client.Entitlement.{Env}
use ubuntu_advantage_client.Registry.{valid_services, has_value}
use ubuntu_advantage_client.Base.{Any, here}
use ubuntu_advantage_client.Lock.{Process, enter}
use ubuntu_advantage_client.Dict.{sort_by}
use ubuntu_advantage_client.Dict.Sorting.{sort_by-Any}
use ubuntu_advantage_client.Cli.{
  Args, LockAccess, Commands, guarded, assert_root, assert_attached, assert_lock_file, run_locked,
  get_valid_entitlement_names, unique, split_names,
}

unique_nil : (xs : List String) → unique xs ≡ [] → xs ≡ []
unique_nil [] h = refl
unique_nil (x ∷ xs) h = go (unique xs) h
  where
    go : (rest : List String) → (if contains rest x then rest else x ∷ rest) ≡ [] → x ∷ xs ≡ []
    go [] h = cc h
    go (y ∷ rest) h = elim (Bool-cases (contains (y ∷ rest) x)) [
      | inl b ↦ cc (sym (ap (λ c. if c then y ∷ rest else x ∷ y ∷ rest) b) ∙ h)
      | inr b ↦ cc (sym (ap (λ c. if c then y ∷ rest else x ∷ y ∷ rest) b) ∙ h)
    ]

sort_by_nil : (xs : List String) → sort_by (λ s. s) xs ≡ [] → xs ≡ []
sort_by_nil [] h = refl
sort_by_nil (x ∷ xs) h =
    elim (subst (Any (λ _. Unit {0})) h
      (sort_by-Any (λ s. s) (λ _. Unit {0}) (x ∷ xs) (here tt))) [ ]

module _ {H : Type 0} (env : Env H) (depth : ℕ) (commands : Commands H) where
  split_names_nil :
      (names : List String) (valid : List Value)
      → (split_names env depth commands names valid).1 ≡ []
      → (split_names env depth commands names valid).0 ≡ names
  split_names_nil [] valid h = refl
  split_names_nil (name ∷ names) valid h =
      go (has_value (str name) valid) (split_names_nil names valid) h
    where
      rest : List String × List String
      rest = split_names env depth commands names valid

      with_name : Bool → List String × List String
      with_name b = if b then (name ∷ rest.0, rest.1) else (rest.0, name ∷ rest.1)

      go :
          (b : Bool)
          → (rest.1 ≡ [] → rest.0 ≡ names)
          → (with_name b).1 ≡ []
          → (with_name b).0 ≡ name ∷ names
      go true all h = ap (λ l. name ∷ l) (all h)
      go false all h = cc h

  -- Where no name is unknown, all of them are found, in their order.
  pub get_valid_entitlement_names-all :
      (names found : List String) (m : Machine H)
      → get_valid_entitlement_names env depth commands names m ≡ ok (found, [])
      → found ≡ names
  unfolding get_valid_entitlement_names
  get_valid_entitlement_names-all [] found m h = sym (ap (λ p. p.0) (ok-injective h))
  get_valid_entitlement_names-all (name ∷ names) found m h = go (valid_services env true true m) h
    where
      parts : List Value → List String × List String
      parts valid = split_names env depth commands (name ∷ names) valid

      of : Result (List Value) → Result (List String × List String)
      of r = elim r [
        | err e ↦ err e
        | ok valid ↦ ok ((parts valid).0, sort_by (λ s. s) (unique (parts valid).1))
      ]

      go : (r : Result (List Value)) → of r ≡ ok (found, []) → found ≡ name ∷ names
      go (err e) h = cc h
      go (ok valid) h =
          let same = ok-injective h in
          sym (ap (λ p. p.0) same)
          ∙ split_names_nil (name ∷ names) valid (
              unique_nil (parts valid).1
                (sort_by_nil (unique (parts valid).1) (ap (λ p. p.1) same)))

-- The lock was got, and the command that runs with it has returned.
abbrev pub Ran :
    {H A : Type 0}
    → LockAccess H
    → Action H A
    → A
    → Machine H
    → Result (Unit {0}) × Process
    → Type 0
Ran access f a m r = (r.0 ≡ ok tt) × ((f (access.with_process r.1 m)).0 ≡ ok a)

-- A guarded command that returns has got the lock, and its body has returned the same.
pub guarded-ok :
    {H A : Type 0} (access : LockAccess H) (args : Option Args) (lock_holder : String)
    (f : Action H A) (a : A) (m : Machine H)
    → (guarded access args lock_holder f m).0 ≡ ok a
    → Ran access f a m (enter (access.running m) lock_holder (access.process_of m))
unfolding guarded assert_lock_file
guarded-ok {H} {A} access args lock_holder f a m h = formatted args h
  where
    locked :
        (r : Result (Unit {0}) × Process) → (run_locked access f m r).0 ≡ ok a → Ran access f a m r
    locked (err e, p) h = cc h
    locked (ok _, p) h = (refl, h)

    attached :
        (b : Bool)
        → ((if not b
              then raise (other_error "UnattachedError")
              else assert_lock_file access lock_holder f)
            m).0
          ≡ ok a
        → Ran access f a m (enter (access.running m) lock_holder (access.process_of m))
    attached false h = cc h
    attached true h = locked (enter (access.running m) lock_holder (access.process_of m)) h

    rooted :
        (b : Bool)
        → ((if not b
              then raise (other_error "NonRootUserError")
              else assert_attached (assert_lock_file access lock_holder f))
            m).0
          ≡ ok a
        → Ran access f a m (enter (access.running m) lock_holder (access.process_of m))
    rooted false h = cc h
    rooted true h = attached m.attached h

    refused :
        (b : Bool)
        → ((if b
              then raise (user_facing "JSON_FORMAT_REQUIRE_ASSUME_YES")
              else assert_root access (assert_attached (assert_lock_file access lock_holder f)))
            m).0
          ≡ ok a
        → Ran access f a m (enter (access.running m) lock_holder (access.process_of m))
    refused true h = cc h
    refused false h = rooted (access.process_of m).is_root h

    formatted :
        (args : Option Args)
        → (guarded access args lock_holder f m).0 ≡ ok a
        → Ran access f a m (enter (access.running m) lock_holder (access.process_of m))
    formatted none h = rooted (access.process_of m).is_root h
    formatted (some args) h = refused ((args.format === "json") && not args.assume_yes) h
