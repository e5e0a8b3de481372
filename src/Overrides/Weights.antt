-- ===== src/Overrides/Weights.antt =====
-- The weights of overrides, and the order in which they are applied.
use ubuntu_advantage_client.Base.{
  ℕ, ◌+◌, ◌≤◌, String, ◌≡◌, ◌≢◌, Bool, true, false, Option, none, [], ◌∷◌, Bool-cases, eq_iff,
  ◌===◌, inl, inr, arith, ◌==◌, if◌then◌else◌,
}
use ubuntu_advantage_client.Exception.{ok, >>=-eq-ok}
use ubuntu_advantage_client.Json.{
  Value, obj, arr, Items, nil, cons, Fields, end, field, get, remove, value_or,
}
use ubuntu_advantage_client.Json.Dict.{Keyed, get-remove, remove-Keyed}
use ubuntu_advantage_client.Overrides.{
  selector_weight, selector_values, selects, weight_from, get_override_weight, Overrides,
  put_override, insert_override, sorted_overrides, fields_of, pop_selector, select_general,
  items_of, select_overrides,
}

-- Every entry of the selector is one of the values.
abbrev pub Matches : Fields → Fields → Type 0
Matches end values = Unit
Matches (field k v selector) values = (selects k v values ≡ true) × Matches selector values

abbrev pub total_weight : Fields → ℕ
total_weight end = 0
total_weight (field k v selector) = selector_weight k + total_weight selector

weight_from_match :
    (w : ℕ) (selector values : Fields)
    → Matches selector values
    → weight_from w selector values ≡ w + total_weight selector
unfolding weight_from
weight_from_match w end values h = omega arith
weight_from_match w (field k v selector) values h =
    rw h.0 (omega (arith, weight_from_match (w + selector_weight k) selector values h.1))

weight_from_other :
    (w : ℕ) (selector values : Fields)
    → ¬ Matches selector values
    → weight_from w selector values ≡ 0
unfolding weight_from
weight_from_other w end values h = absurd (h tt)
weight_from_other w (field k v selector) values h = elim (Bool-cases (selects k v values)) [
  | inl same ↦
      rw same (weight_from_other (w + selector_weight k) selector values (λ m. h (same, m)))
  | inr other ↦ rw other
]

-- The weight of an override is the sum of the weights of its selector's keys where every entry of
-- the selector is among the values of this machine, and 0, by which it is left out, elsewhere.
pub get_override_weight_lem :
    (selector values : Fields)
    → (Matches selector values → get_override_weight selector values ≡ total_weight selector)
      × (¬ Matches selector values → get_override_weight selector values ≡ 0)
unfolding get_override_weight
get_override_weight_lem selector values =
    (λ h. omega (arith, weight_from_match 0 selector values h), weight_from_other 0 selector values)

-- The weights grow strictly, from `low`.
abbrev pub Increasing : ℕ → Overrides → Type 0
Increasing low [] = Unit
Increasing low ((w, o) ∷ os) = (low ≤ w) × Increasing (w + 1) os

-- a dict of overrides: no weight is 0 and none stands twice
abbrev Lacks : ℕ → Overrides → Type 0
Lacks w [] = Unit
Lacks w ((v, o) ∷ os) = (w ≢ v) × Lacks w os

abbrev Weighted : Overrides → Type 0
Weighted [] = Unit
Weighted ((w, o) ∷ os) = (1 ≤ w) × Lacks w os × Weighted os

insert_override-Lacks :
    (v w : ℕ) (o : Value) (os : Overrides) → v ≢ w → Lacks v os → Lacks v (insert_override w o os)
unfolding insert_override
insert_override-Lacks v w o [] h g = (h, tt)
insert_override-Lacks v w o ((u, p) ∷ os) h g = ground (arith, insert_override-Lacks v w o os h g.1)

insert_override-Increasing :
    (low w : ℕ) (o : Value) (os : Overrides)
    → low ≤ w
    → Lacks w os
    → Increasing low os
    → Increasing low (insert_override w o os)
unfolding insert_override
insert_override-Increasing low w o [] h l g = (h, tt)
insert_override-Increasing low w o ((v, p) ∷ os) h l g =
    ground (arith, insert_override-Increasing (v + 1) w o os)

sorted_overrides-Lacks : (w : ℕ) (os : Overrides) → Lacks w os → Lacks w (sorted_overrides os)
unfolding sorted_overrides
sorted_overrides-Lacks w [] h = tt
sorted_overrides-Lacks w ((v, o) ∷ os) h =
    insert_override-Lacks w v o (sorted_overrides os) h.0 (sorted_overrides-Lacks w os h.1)

sorted_overrides-Increasing : (os : Overrides) → Weighted os → Increasing 1 (sorted_overrides os)
unfolding sorted_overrides
sorted_overrides-Increasing [] h = tt
sorted_overrides-Increasing ((w, o) ∷ os) h =
    insert_override-Increasing 1 w o (sorted_overrides os) h.0 (sorted_overrides-Lacks w os h.1)
      (sorted_overrides-Increasing os h.2)

put_override-Lacks :
    (v w : ℕ) (o : Value) (os : Overrides) → v ≢ w → Lacks v os → Lacks v (put_override w o os)
unfolding put_override
put_override-Lacks v w o [] h g = (h, tt)
put_override-Lacks v w o ((u, p) ∷ os) h g = ground (arith, put_override-Lacks v w o os h g.1)

put_override-Weighted :
    (w : ℕ) (o : Value) (os : Overrides) → 1 ≤ w → Weighted os → Weighted (put_override w o os)
unfolding put_override
put_override-Weighted w o [] h g = (h, tt, tt)
put_override-Weighted w o ((v, p) ∷ os) h g =
    ground (arith, put_override-Weighted w o os h g.2, put_override-Lacks v w o os)

select_general-Weighted :
    (xs : Items) (values : Fields) (os out : Overrides)
    → Weighted os
    → select_general xs values os ≡ ok out
    → Weighted out
unfolding select_general
select_general-Weighted nil values os out h r = ground arith
select_general-Weighted (cons o xs) values os out h r =
    let ((override, selector), p, q) = >>=-eq-ok (pop_selector o) _ r in
    let w = get_override_weight selector values in
    select_general-Weighted xs values (if w == 0 then os else put_override w (obj override) os) out
      (elim (Bool-cases (w == 0)) [
        | inl nothing ↦ rw nothing h
        | inr weighty ↦ rw weighty (put_override-Weighted w (obj override) os (ground arith) h)
      ])
      q

series_first-Weighted : (b : Bool) (o : Value) → Weighted (if b then (1, o) ∷ [] else [])
series_first-Weighted true o = (omega arith, tt, tt)
series_first-Weighted false o = tt

get-left :
    (k : String) (e : Fields)
    → Keyed e
    → get k (remove "overrides" (remove "series" e))
      ≡ (if "overrides" === k then none else if "series" === k then none else get k e)
get-left k e keyed = ground (
  arith,
  get-remove "overrides" k (remove "series" e) (remove-Keyed "series" e keyed),
  get-remove "series" k e keyed,
)

get-left_other :
    (k : String) (e : Fields)
    → Keyed e
    → k ≢ "series"
    → k ≢ "overrides"
    → get k (remove "overrides" (remove "series" e)) ≡ get k e
get-left_other k e keyed p q =
    ground (arith, get-left k e keyed, eq_iff "overrides" k, eq_iff "series" k)

-- The overrides that are selected, sorted as they are applied, have strictly growing weights from 1,
-- so that each weight is applied once and the heavier ones last; what is left of the entitlement has neither `series` nor
-- `overrides` and is otherwise as it was.
pub select_overrides_lem :
    (entitlement : Fields) (series : String) (cloud : Option String) (os : Overrides)
    (left : Fields)
    → Keyed entitlement
    → select_overrides entitlement series cloud ≡ ok (os, left)
    → Increasing 1 (sorted_overrides os)
      × (get "series" left ≡ none)
      × (get "overrides" left ≡ none)
      × ((k : String) → k ≢ "series" → k ≢ "overrides" → get k left ≡ get k entitlement)
unfolding select_overrides
select_overrides_lem entitlement series cloud os left keyed r =
    let (by_series, p, r₁) =
      >>=-eq-ok (fields_of (value_or (obj end) (get "series" entitlement))) _ r in
    let (general, q, r₂) =
      >>=-eq-ok (items_of (value_or (arr nil) (get "overrides" entitlement))) _ r₁ in
    let (found, s, r₃) = >>=-eq-ok (select_general general (selector_values series cloud) _) _ r₂ in
    let left_is : remove "overrides" (remove "series" entitlement) ≡ left = ground arith in
    let out_is : found ≡ os = ground arith in
    (
      rw (← out_is) (
          sorted_overrides-Increasing found (
            select_general-Weighted general (selector_values series cloud) _ found
              (series_first-Weighted _ _) s)),
      rw (← left_is) (get-left "series" entitlement keyed),
      rw (← left_is) (get-left "overrides" entitlement keyed),
      λ k p q. rw (← left_is) (get-left_other k entitlement keyed p q),
    )
