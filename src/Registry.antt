-- ===== src/Registry.antt =====
-- The classes of the services, by name, and their orders (uaclient/entitlements/__init__.py).
pub mod Order
mod Tests
use ubuntu_advantage_client.Base.{
  ℕ, zero, suc, String, Bool, true, false, Option, none, some, List, [], ◌∷◌, ◌++◌, if◌then◌else◌,
  ◌||◌, not, contains,
}
use ubuntu_advantage_client.Exception.{
  Result, ok, err, entitlement_not_found, recursion_error, ◌>>=◌,
}
use ubuntu_advantage_client.Json.{Value, py_eq}
use ubuntu_advantage_client.Config.{is_config_value_true}
use ubuntu_advantage_client.Machine.{Machine}
use ubuntu_advantage_client.Entitlement.{Env, Service}
use ubuntu_advantage_client.Entitlement.Contract.{presentation_name, valid_names}

-- ENTITLEMENT_CLASSES, each class by its `name`
abbrev pub entitlement_classes : List String
entitlement_classes =
    "cc-eal" ∷ "cis" ∷ "esm-apps" ∷ "esm-infra" ∷ "fips" ∷ "fips-updates" ∷ "livepatch"
    ∷ "realtime-kernel" ∷ "ros" ∷ "ros-updates" ∷ []

-- name in names
abbrev pub has_value : Value → List Value → Bool
has_value v [] = false
has_value v (x ∷ xs) = py_eq x v || has_value v xs

module _ {H : Type 0} (env : Env H) where
  -- the loop of `entitlement_factory`
  unfoldable pub find_class : List String → Value → Machine H → Result (Service H)
  find_class [] name m = err entitlement_not_found
  find_class (c ∷ cs) name m =
      let rest = find_class cs name m in
      valid_names (env.service c) m >>= λ names.
      if has_value name names then ok (env.service c) else rest

  abbrev pub entitlement_factory : Value → Machine H → Result (Service H)
  entitlement_factory name m = find_class entitlement_classes name m

  -- the classes that are not left out as beta
  unfoldable pub classes_for : Bool → List String → List String
  classes_for allow_beta [] = []
  classes_for allow_beta (c ∷ cs) =
      let rest = classes_for allow_beta cs in
      if allow_beta || not (env.service c).is_beta then c ∷ rest else rest

  unfoldable pub names_of : Bool → List String → Machine H → Result (List Value)
  names_of all_names [] m = ok []
  names_of all_names (c ∷ cs) m = do
    names ←
        if all_names
        then valid_names (env.service c) m
        else (presentation_name (env.service c) m >>= λ name. ok (name ∷ []))
    rest ← names_of all_names cs m
    ok (names ++ rest)

  -- `valid_services`, before its result is sorted
  unfoldable pub valid_services : Bool → Bool → Machine H → Result (List Value)
  unfolding classes_for names_of
  valid_services allow_beta all_names m = do
    allow_beta_cfg ← is_config_value_true m.config ("features" ∷ "allow_beta" ∷ [])
    names_of all_names (classes_for (allow_beta || allow_beta_cfg) entitlement_classes) m

pub data SortOrder : Type 0 where
  required_services dependent_services : SortOrder

abbrev pub dependencies : {H : Type 0} → Env H → SortOrder → String → List String
dependencies env required_services name = (env.service name).required_services
dependencies env dependent_services name = (env.service name).dependent_services

-- the dict `visited` (its keys) and the list `order`
pub record Sorting : Type 0 where
  pub visited : List String
  pub order : List String

module _ (deps : String → List String) where
  -- The loop over the dependencies of `name`, with the call of the visit on each.
  unfoldable pub visit_all :
      (String → Sorting → Result Sorting) → String → List String → Sorting → Result Sorting
  visit_all visit name [] s = ok s
  visit_all visit name (d ∷ ds) s =
      (if contains s.visited name then ok s else visit d s) >>= λ t. visit_all visit name ds t

  -- `_sort_entitlements_visit`; the number bounds how deep it recurs.
  unfoldable pub sort_visit : ℕ → String → Sorting → Result Sorting
  unfolding visit_all
  sort_visit zero name s = err recursion_error
  sort_visit (suc depth) name s =
      if contains s.visited name
      then ok s
      else (visit_all (sort_visit depth) name (deps name) s >>= λ t.
          ok (record { visited = name ∷ t.visited; order = t.order ++ name ∷ [] }))

  -- the loop of `_sort_entitlements`
  unfoldable pub sort_from : ℕ → List String → Sorting → Result Sorting
  unfolding sort_visit
  sort_from depth [] s = ok s
  sort_from depth (c ∷ cs) s = sort_visit depth c s >>= λ t. sort_from depth cs t

  unfoldable pub sort_entitlements : ℕ → List String → Result (List String)
  unfolding sort_from
  sort_entitlements depth classes =
      sort_from depth classes (record { visited = []; order = [] }) >>= λ s. ok s.order

module _ {H : Type 0} (env : Env H) (depth : ℕ) where
  unfoldable pub entitlements_enable_order : Result (List String)
  entitlements_enable_order =
      sort_entitlements (dependencies env required_services) depth entitlement_classes

  unfoldable pub entitlements_disable_order : Result (List String)
  entitlements_disable_order =
      sort_entitlements (dependencies env dependent_services) depth entitlement_classes
