-- ===== src/Overrides/Tests.antt =====
-- The overrides of a small entitlement.
use ubuntu_advantage_client.Base.{String, ◌≡◌, ◌≢◌, refl, none, some, [], ◌∷◌}
use ubuntu_advantage_client.Exception.{ok}
use ubuntu_advantage_client.Json.{
  Value, null, bool, str, arr, obj, Items, nil, cons, Fields, end, field, get,
}
use ubuntu_advantage_client.Json.Dict.{Keyed}
use ubuntu_advantage_client.Overrides.{
  Overrides, selector_values, get_override_weight, select_overrides, sorted_overrides,
  apply_override, apply_contract_overrides,
}
use ubuntu_advantage_client.Overrides.Keys.{overriding, get-apply_override}
use ubuntu_advantage_client.Overrides.Weights.{
  Matches, total_weight, get_override_weight_lem, Increasing, select_overrides_lem,
}

abbrev directives : String → Value
directives suites = obj (field "suites" (str suites) end)

abbrev override : String → Fields
override suites = field "directives" (directives suites) end

abbrev both : Fields
both = field "series" (str "focal") (field "cloud" (str "aws") end)

abbrev by_cloud : Fields
by_cloud = field "cloud" (str "aws") end

-- an entitlement with overrides for the series, for the cloud and for both
abbrev entitlement : Fields
entitlement =
    field "directives" (obj (field "suites" (str "all") (field "aptKey" (str "key") end))) (
      field "series" (obj (field "focal" (obj (override "focal")) end)) (
        field "overrides"
          (arr (
            cons (obj (field "selector" (obj both) (override "focal-aws")))
              (cons (obj (field "selector" (obj by_cloud) (override "aws"))) nil)))
          end))

abbrev selected : Overrides
selected =
    (1, obj (override "focal")) ∷ (5, obj (override "focal-aws")) ∷ (3, obj (override "aws")) ∷ []

abbrev left : Fields
left = field "directives" (obj (field "suites" (str "all") (field "aptKey" (str "key") end))) end

select_focal_aws : select_overrides entitlement "focal" (some "aws") ≡ ok (selected, left)
unfolding select_overrides ubuntu_advantage_client.Json.py_eq
select_focal_aws = refl

apply_focal_aws :
    apply_contract_overrides (field "entitlement" (obj entitlement) end) "focal" (some "aws")
    ≡ ok (
        field "entitlement"
          (obj (
            field "directives"
              (obj (field "suites" (str "focal-aws") (field "aptKey" (str "key") end)))
              end))
          end)
unfolding apply_contract_overrides ubuntu_advantage_client.Json.py_eq
apply_focal_aws = refl

entitlement-Keyed : Keyed entitlement
entitlement-Keyed = (refl, (refl, (refl, tt)))

select_overrides_lem_example :
    Increasing 1 (sorted_overrides selected)
    × (get "series" left ≡ none)
    × (get "overrides" left ≡ none)
    × ((k : String) → k ≢ "series" → k ≢ "overrides" → get k left ≡ get k entitlement)
select_overrides_lem_example =
    select_overrides_lem entitlement "focal" (some "aws") selected left entitlement-Keyed
      select_focal_aws

get_override_weight_lem_example :
    (Matches both (selector_values "focal" (some "aws"))
      → get_override_weight both (selector_values "focal" (some "aws")) ≡ total_weight both)
    × (¬ Matches both (selector_values "focal" (some "aws"))
        → get_override_weight both (selector_values "focal" (some "aws")) ≡ 0)
get_override_weight_lem_example =
    get_override_weight_lem both (selector_values "focal" (some "aws"))

abbrev applied : Fields
applied = field "directives" (obj (field "suites" (str "aws") (field "aptKey" (str "key") end))) end

get-apply_override_example :
    get "directives" applied
    ≡ overriding (get "directives" left) (get "directives" (override "aws"))
unfolding apply_override
get-apply_override_example =
    get-apply_override (override "aws") left applied "directives" (refl, tt) refl
