-- ===== src/Deltas/Pointwise.antt =====
-- The deltas, key by key.
use ubuntu_advantage_client.Base.{
  String, ◌≡◌, Option, none, some, Option-cases, inl, inr, arith, eq_iff, ◌===◌, if◌then◌else◌,
}
use ubuntu_advantage_client.Exception.{Result, ok, err, >>=-eq-ok}
use ubuntu_advantage_client.Json.{Value, obj, dropped, Fields, end, field, get, put, py_eq}
use ubuntu_advantage_client.Json.Dict.{get-put, Keyed}
use ubuntu_advantage_client.Deltas.Steps.{changed_value}
use ubuntu_advantage_client.Deltas.{or_dropped, add_new, put_sub, changed, get_dict_deltas}

-- the deltas of a dict that both sides have: none where nothing in it changed
abbrev pub sub_delta : Result Fields → Option Value
sub_delta (ok end) = none
sub_delta (ok (field k v e)) = some (obj (field k v e))
sub_delta (err x) = none

-- What is reported of one key, by its old and its new value.
abbrev pub delta_of : Option Value → Option Value → Option Value
delta_of none w = w
delta_of (some (obj s)) none = some dropped
delta_of (some (obj s)) (some w) = sub_delta (get_dict_deltas s w)
delta_of (some v) w = if py_eq v (or_dropped w) then none else some (or_dropped w)

abbrev or_else : Option Value → Option Value → Option Value
or_else none x = x
or_else (some v) x = some v

-- a key of the new dict that the old one lacks
abbrev only_new : Option Value → Option Value → Option Value → Option Value
only_new none (some v) x = some v
only_new _ _ x = x

get-add_new :
    (o n d : Fields) (k : String)
    → Keyed n
    → get k (add_new o n d) ≡ only_new (get k o) (get k n) (get k d)
unfolding add_new
get-add_new o end d k h = ground arith
get-add_new o (field j v n) d k h =
    ground (
      arith,
      get-add_new o n d k h.1,
      get-add_new o n (put j v d) k h.1,
      get-put j k v d,
      eq_iff j k,
    )

get-put_sub :
    (j k : String) (e d : Fields)
    → get k (put_sub j e d) ≡ (if j === k then or_else (sub_delta (ok e)) (get k d) else get k d)
unfolding put_sub
get-put_sub j k end d = ground arith
get-put_sub j k (field i v e) d = get-put j k (obj (field i v e)) d

-- what the first loop reports of a key
abbrev old_delta : Option Value → Option Value → Option Value
old_delta none w = none
old_delta (some v) w = delta_of (some v) w

get-changed :
    (o n d : Fields) (k : String) (e : Fields)
    → Keyed o
    → changed o n d ≡ ok e
    → get k e ≡ or_else (old_delta (get k o) (get k n)) (get k d)
unfolding changed get_dict_deltas
get-changed end n d k e h r = ground arith
get-changed (field j (obj s) o) n d k e h r = elim (Option-cases (get j n)) [
  | inl gone ↦
      ground
        (arith, get-changed o n (put j dropped d) k e h.1, get-put j k dropped d, eq_iff j k, gone)
  | inr (w, found) ↦
      let (t, u, same, sub, rest) = changed_value j s o n d e w found r in
      ground (
        arith,
        get-changed o n (put_sub j (add_new s t u) d) k e h.1 rest,
        get-put_sub j k (add_new s t u) d,
        eq_iff j k,
      )
]
get-changed (field j v o) n d k e h r =
    let d' = if py_eq v (or_dropped (get j n)) then d else put j (or_dropped (get j n)) d in
    ground (arith, get-changed o n d' k e h.1 r, get-put j k (or_dropped (get j n)) d, eq_iff j k)

-- If two dicts, in neither of which a key stands twice, have deltas, then every key of the deltas
-- is as the two values of that key say: a key that only the new dict has is reported with its
-- value, a key that only the old one has as dropped, a changed value as the new one, a value that
-- compares equal not at all, and a dict in both by its own deltas, where there are any.
pub get-get_dict_deltas :
    (o n d : Fields) (k : String)
    → Keyed o
    → Keyed n
    → get_dict_deltas o (obj n) ≡ ok d
    → get k d ≡ delta_of (get k o) (get k n)
unfolding get_dict_deltas
get-get_dict_deltas o n d k ho hn r =
    let (e, p, q) = >>=-eq-ok (changed o n end) (λ e. ok (add_new o n e)) r in
    ground (arith, get-changed o n end k e ho p, get-add_new o n e k hn)
