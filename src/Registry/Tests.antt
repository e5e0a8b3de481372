-- ===== src/Registry/Tests.antt =====
-- The orders of the services, with the dependencies of the classes under uaclient/entitlements.
use ubuntu_advantage_client.Base.{
  ℕ, ◌<◌, String, ◌≡◌, refl, true, Bool-cases, inl, inr, List, [], ◌∷◌, All, contains, ◌===◌, arith,
  if◌then◌else◌,
}
use ubuntu_advantage_client.Exception.{ok}
use ubuntu_advantage_client.Registry.{sort_entitlements, entitlement_classes}
use ubuntu_advantage_client.Registry.Order.{Topological, sort_entitlements-Topological}

abbrev required_by : String → List String
required_by name =
    if name === "ros"
    then "esm-infra" ∷ "esm-apps" ∷ []
    else if name === "ros-updates"
    then "esm-infra" ∷ "esm-apps" ∷ "ros" ∷ []
    else []

abbrev height : String → ℕ
height name = if name === "ros" then 1 else if name === "ros-updates" then 2 else 0

height-required_by : (name : String) → All (λ d. height d < height name) (required_by name)
height-required_by name = elim (Bool-cases (name === "ros")) [
  | inl ros ↦ rw ros (omega arith)
  | inr other ↦ elim (Bool-cases (name === "ros-updates")) [
    | inl updates ↦ rw (other, updates) (omega arith)
    | inr neither ↦ rw (other, neither) tt
  ]
]

enable_order :
    sort_entitlements required_by 3 ("ros-updates" ∷ "fips" ∷ "ros" ∷ [])
    ≡ ok ("esm-infra" ∷ "esm-apps" ∷ "ros" ∷ "ros-updates" ∷ "fips" ∷ [])
unfolding sort_entitlements
enable_order = refl

sort_entitlements-Topological_example :
    (order : List String) × (sort_entitlements required_by 3 entitlement_classes ≡ ok order)
    × Topological required_by [] order
    × All (λ c. contains order c ≡ true) entitlement_classes
sort_entitlements-Topological_example =
    sort_entitlements-Topological required_by height 3 entitlement_classes height-required_by
      (omega arith)
