-- ===== src/Overlay.antt =====
-- `depth_first_merge_overlay_dict` (uaclient/util.py): a dict is merged into another in place.
use ubuntu_advantage_client.Base.{
  String, Bool, true, false, Option, none, some, ◌===◌, if◌then◌else◌, ◌||◌,
}
use ubuntu_advantage_client.Exception.{Result, ok, err, attribute_error, ◌>>=◌}
use ubuntu_advantage_client.Json.{
  Value, null, obj, arr, Items, nil, cons, Fields, end, field, get, put, value_or, py_eq,
}

-- merge_id_key_map.get(key)
abbrev pub merge_id_key : String → Option String
merge_id_key key =
    if key === "availableResources"
    then some "name"
    else if key === "resourceEntitlements"
    then some "type"
    else none

-- value.get(id_key): no dict that was read has the key None
abbrev pub id_of : Option String → Fields → Value
id_of none fs = null
id_of (some k) fs = value_or null (get k fs)

abbrev pub append_item : Items → Value → Items
append_item nil v = cons v nil
append_item (cons x xs) v = cons x (append_item xs v)

abbrev pub append_items : Items → Items → Items
append_items nil ys = ys
append_items (cons x xs) ys = cons x (append_items xs ys)

-- The inner loop: every base value with the id is merged with the overlay value, by `merge`.
unfoldable pub replace_matching :
    (Fields → Result Fields) → Value → Option String → Items → Result (Items × Bool)
replace_matching merge id id_key nil = ok (nil, false)
replace_matching merge id id_key (cons (obj base) ys) =
    (if py_eq (id_of id_key base) id then merge base else ok base) >>= λ base'.
    replace_matching merge id id_key ys >>= λ (ys', replaced).
    ok (cons (obj base') ys', py_eq (id_of id_key base) id || replaced)
replace_matching merge id id_key (cons v ys) = err attribute_error

abbrev pub is_dict_list : Items → Bool
is_dict_list (cons (obj _) ys) = true
is_dict_list _ = false

unfoldable mutual
  pub merge : Fields → Fields → Result Fields
  merge end base = ok base
  merge (field k v overlay) base =
      merged_value v k (get k base) >>= λ w. merge overlay (put k w base)

  -- the value of a key after the merge, from the overlay's value and the base's
  pub merged_value : Value → String → Option Value → Result Value
  merged_value (obj o) k base = elim (value_or null base) [
    | obj b ↦ merge o b >>= λ new. ok (obj new)
    | _ ↦ ok (obj o)
  ]
  merged_value (arr xs) k base = elim (value_or null base) [
    | arr ys ↦ if is_dict_list ys then update_dict_list xs (merge_id_key k) ys nil else ok (arr xs)
    | _ ↦ ok (arr xs)
  ]
  merged_value v k base = ok v

  -- `update_dict_list`, with the values to append
  pub update_dict_list : Items → Option String → Items → Items → Result Value
  update_dict_list nil id_key base to_append = ok (arr (append_items base to_append))
  update_dict_list (cons v xs) id_key base to_append =
      update_with_value v id_key base >>= λ (base', replaced).
      update_dict_list xs id_key base' (if replaced then to_append else append_item to_append v)

  pub update_with_value : Value → Option String → Items → Result (Items × Bool)
  update_with_value (obj o) id_key base = replace_matching (merge o) (id_of id_key o) id_key base
  update_with_value v id_key base = err attribute_error

-- Depth first: `base_dict` after the merge.
unfoldable pub depth_first_merge_overlay_dict : Fields → Fields → Result Fields
unfolding merge
depth_first_merge_overlay_dict base_dict overlay_dict = merge overlay_dict base_dict
