-- ===== src/Overrides/Keys.antt =====
-- What an override does to each key of an entitlement.
use ubuntu_advantage_client.Base.{
  String, ◌≡◌, refl, Option, none, some, Bool-cases, inl, inr, arith, eq_iff, eq_of_===, sym, ◌===◌,
  if◌then◌else◌,
}
use ubuntu_advantage_client.Exception.{ok, ◌>>=◌, >>=-eq-ok}
use ubuntu_advantage_client.Json.{
  Value, null, arr, obj, nil, Fields, end, field, get, put, value_or,
}
use ubuntu_advantage_client.Json.Dict.{Keyed, get-put}
use ubuntu_advantage_client.Overrides.{update, update_with, override_key, apply_override}

-- the new value of a key, by its value and the override's
abbrev pub overriding : Option Value → Option Value → Option Value
overriding current none = current
overriding (some (obj current)) (some (obj new)) = some (obj (update current new))
overriding (some (obj current)) (some (arr nil)) = some (obj current)
overriding current (some new) = some new

-- the write that an override makes to its key
abbrev Written : String → Value → Fields → Fields → Option Value → Type 0
Written j v e e' current = (w : Value) × (e' ≡ put j w e) × (overriding current (some v) ≡ some w)

update_Written :
    (j : String) (v : Value) (e e' current : Fields)
    → (update_with current v >>= λ new. ok (put j (obj new) e)) ≡ ok e'
    → Written j v e e' (some (obj current))
update_Written j (obj new) e e' current h = (obj (update current new), ground arith, refl)
update_Written j (arr nil) e e' current h = (obj current, ground arith, refl)
update_Written j v e e' current h = cc h

value_Written :
    (j : String) (v : Value) (e e' : Fields) (current : Option Value)
    → (elim (value_or null current) [
      | obj c ↦ update_with c v >>= λ new. ok (put j (obj new) e)
      | _ ↦ ok (put j v e)
    ])
      ≡ ok e'
    → Written j v e e' current
value_Written j v e e' none h = (v, ground arith, refl)
value_Written j v e e' (some (obj c)) h = update_Written j v e e' c h
value_Written j v e e' (some c) h = (v, ground arith, refl)

override_key-Written :
    (j : String) (v : Value) (e e' : Fields)
    → override_key j v e ≡ ok e'
    → Written j v e e' (get j e)
unfolding override_key
override_key-Written j v e e' h = value_Written j v e e' (get j e) h

get-override_key :
    (j k : String) (v : Value) (e e' : Fields)
    → override_key j v e ≡ ok e'
    → get k e' ≡ (if j === k then overriding (get k e) (some v) else get k e)
get-override_key j k v e e' h =
    let (w, p, q) = override_key-Written j v e e' h in
    rw p (
      rw get-put (elim (Bool-cases (j === k)) [
        | inl self ↦ rw self (rw (← (eq_of_=== j k self)) (sym q))
        | inr other ↦ rw other
      ]))

-- Where an override in which no key stands twice can be applied, every key of the entitlement
-- becomes what `overriding` says of its value and the override's: a dict is updated with a dict,
-- any other value is replaced, and a key that the override does not mention keeps its value.
pub get-apply_override :
    (fs e e' : Fields) (k : String)
    → Keyed fs
    → apply_override fs e ≡ ok e'
    → get k e' ≡ overriding (get k e) (get k fs)
unfolding apply_override
get-apply_override end e e' k h r = ground arith
get-apply_override (field j v fs) e e' k h r =
    let (e₁, p, q) = >>=-eq-ok (override_key j v e) (λ e. apply_override fs e) r in
    ground (arith, get-apply_override fs e₁ e' k h.1 q, get-override_key j k v e e₁ p, eq_iff j k)
