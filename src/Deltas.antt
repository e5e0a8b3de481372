-- ===== src/Deltas.antt =====
-- `get_dict_deltas` (uaclient/util.py): what changed from one contract dict to another.
mod Steps
pub mod Unchanged
pub mod Pointwise
mod Tests
use ubuntu_advantage_client.Base.{◌≡◌, refl, String, Option, none, some, if◌then◌else◌}
use ubuntu_advantage_client.Exception.{Result, ok, err, attribute_error, ◌>>=◌}
use ubuntu_advantage_client.Json.{
  Value, null, bool, int, str, datetime, arr, obj, dropped, Fields, end, field, get, put, py_eq,
}

-- `new_dict.get(key, DROPPED_KEY)`
abbrev pub or_dropped : Option Value → Value
or_dropped none = dropped
or_dropped (some w) = w

-- The second loop: keys that only the new dict has.
unfoldable pub add_new : Fields → Fields → Fields → Fields
add_new o end d = d
add_new o (field k v n) d = elim (get k o) [
  | none ↦ add_new o n (put k v d)
  | some _ ↦ add_new o n d
]

-- `if sub_delta: deltas[key] = sub_delta`
unfoldable pub put_sub : String → Fields → Fields → Fields
put_sub k end d = d
put_sub k (field j v e) d = put k (obj (field j v e)) d

-- The first loop. A value that is no dict has neither `get` nor `items`.
unfoldable pub changed : Fields → Fields → Fields → Result Fields
changed end n d = ok d
changed (field k (obj s) o) n d = elim (get k n) [
  | none ↦ changed o n (put k dropped d)
  | some w ↦ elim w [
    | obj t ↦ changed s t end >>= λ e. changed o n (put_sub k (add_new s t e) d)
    | _ ↦ err attribute_error
  ]
]
changed (field k v o) n d =
    changed o n (if py_eq v (or_dropped (get k n)) then d else put k (or_dropped (get k n)) d)

unfoldable pub get_dict_deltas : Fields → Value → Result Fields
unfolding changed add_new put_sub
get_dict_deltas o w = elim w [
  | obj n ↦ changed o n end >>= λ d. ok (add_new o n d)
  | _ ↦ err attribute_error
]
