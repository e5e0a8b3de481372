-- ===== src/Overrides.antt =====
-- The overrides of a contract's entitlement by series and cloud (uaclient/contract.py).
pub mod Weights
pub mod Keys
mod Tests
use ubuntu_advantage_client.Base.{
  ℕ, ◌+◌, String, Bool, true, false, Option, none, some, List, [], ◌∷◌, leb, ◌==◌, ◌===◌,
  if◌then◌else◌, not,
}
use ubuntu_advantage_client.Exception.{
  Result, ok, err, attribute_error, key_error, type_error, runtime_error, ◌>>=◌,
}
use ubuntu_advantage_client.Json.{
  Value, null, str, arr, obj, Items, nil, cons, Fields, end, field, get, put, remove, value_or,
  truthy, py_eq, has_key,
}

-- OVERRIDE_SELECTOR_WEIGHTS
abbrev pub series_overrides_weight : ℕ
series_overrides_weight = 1

abbrev pub selector_weight : String → ℕ
selector_weight s = if s === "series" then 2 else 3

-- {"series": series_name, "cloud": cloud_type}; a machine outside a cloud has no cloud type
abbrev pub selector_values : String → Option String → Fields
selector_values series cloud =
    field "series" (str series) (field "cloud" (elim cloud [ none ↦ null | some c ↦ str c ]) end)

-- (selector, value) in selector_values.items()
abbrev pub selects : String → Value → Fields → Bool
selects k v values = elim (get k values) [ none ↦ false | some w ↦ py_eq v w ]

-- the loop of `_get_override_weight`
unfoldable pub weight_from : ℕ → Fields → Fields → ℕ
weight_from weight end values = weight
weight_from weight (field k v selector) values =
    let rest = weight_from (weight + selector_weight k) selector values in
    if selects k v values then rest else 0

unfoldable pub get_override_weight : Fields → Fields → ℕ
unfolding weight_from
get_override_weight selector values = weight_from 0 selector values

-- The dict from weights to overrides.
abbrev pub Overrides : Type 0
Overrides = List (ℕ × Value)

-- overrides[weight] = override
unfoldable pub put_override : ℕ → Value → Overrides → Overrides
put_override w o [] = (w, o) ∷ []
put_override w o ((v, p) ∷ os) = if w == v then (v, o) ∷ os else (v, p) ∷ put_override w o os

-- before the first weight that is not below
unfoldable pub insert_override : ℕ → Value → Overrides → Overrides
insert_override w o [] = (w, o) ∷ []
insert_override w o ((v, p) ∷ os) =
    if leb w v then (w, o) ∷ (v, p) ∷ os else (v, p) ∷ insert_override w o os

-- sorted(overrides.items()): the weights of a dict differ, so that they alone are compared
unfoldable pub sorted_overrides : Overrides → Overrides
unfolding insert_override
sorted_overrides [] = []
sorted_overrides ((w, o) ∷ os) = insert_override w o (sorted_overrides os)

abbrev pub fields_of : Value → Result Fields
fields_of (obj fs) = ok fs
fields_of _ = err attribute_error

-- override.pop("selector"): what is left, and the selector
abbrev pub pop_selector : Value → Result (Fields × Fields)
pop_selector (obj fs) = elim (get "selector" fs) [
  | none ↦ err key_error
  | some selector ↦ fields_of selector >>= λ s. ok (remove "selector" fs, s)
]
pop_selector _ = err attribute_error

-- the loop over the general overrides
unfoldable pub select_general : Items → Fields → Overrides → Result Overrides
unfolding get_override_weight put_override
select_general nil values os = ok os
select_general (cons o rest) values os = pop_selector o >>= λ (override, selector).
    let weight = get_override_weight selector values in
    select_general rest values (if weight == 0 then os else put_override weight (obj override) os)

abbrev pub items_of : Value → Result Items
items_of (arr xs) = ok xs
items_of _ = err type_error

-- `_select_overrides`: the overrides, and what is left of the entitlement
unfoldable pub select_overrides : Fields → String → Option String → Result (Overrides × Fields)
unfolding select_general
select_overrides entitlement series cloud =
    fields_of (value_or (obj end) (get "series" entitlement)) >>= λ by_series.
    let series_overrides = value_or (obj end) (get series by_series) in
    let first : Overrides =
      if truthy series_overrides then (series_overrides_weight, series_overrides) ∷ [] else [] in
    items_of (value_or (arr nil) (get "overrides" entitlement)) >>= λ general.
    select_general general (selector_values series cloud) first >>= λ os.
    ok (os, remove "overrides" (remove "series" entitlement))

-- current.update(value)
unfoldable pub update : Fields → Fields → Fields
update current end = current
update current (field k v fs) = update (put k v current) fs

-- `dict.update` also takes a sequence of pairs; only an empty one is modelled.
abbrev pub update_with : Fields → Value → Result Fields
update_with current (obj fs) = ok (update current fs)
update_with current (arr nil) = ok current
update_with current _ = err type_error

-- one key of an override
unfoldable pub override_key : String → Value → Fields → Result Fields
unfolding update
override_key k v entitlement = elim (value_or null (get k entitlement)) [
  | obj current ↦ update_with current v >>= λ new. ok (put k (obj new) entitlement)
  | _ ↦ ok (put k v entitlement)
]

unfoldable pub apply_override : Fields → Fields → Result Fields
unfolding override_key
apply_override end entitlement = ok entitlement
apply_override (field k v fs) entitlement =
    override_key k v entitlement >>= λ e. apply_override fs e

unfoldable pub apply_overrides : Overrides → Fields → Result Fields
unfolding apply_override
apply_overrides [] entitlement = ok entitlement
apply_overrides ((w, o) ∷ os) entitlement =
    fields_of o >>= λ override. apply_override override entitlement >>= λ e. apply_overrides os e

-- `apply_contract_overrides` on a dict: the access dict as it is left.
unfoldable pub apply_contract_overrides : Fields → String → Option String → Result Fields
unfolding select_overrides sorted_overrides apply_overrides
apply_contract_overrides access series cloud = elim (get "entitlement" access) [
  | none ↦ err runtime_error
  | some entitlement ↦ fields_of entitlement >>= λ e.
      select_overrides e series cloud >>= λ (os, e').
      apply_overrides (sorted_overrides os) e' >>= λ new. ok (put "entitlement" (obj new) access)
]
