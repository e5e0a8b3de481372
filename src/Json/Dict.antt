-- ===== src/Json/Dict.antt =====
-- The laws of a dict's operations, and dicts in which no key stands twice.
use ubuntu_advantage_client.Base.{
  String, ◌≡◌, refl, none, some, arith, eq_iff, ◌===◌, if◌then◌else◌,
}
use ubuntu_advantage_client.Json.{Value, Fields, end, field, get, put, remove}

pub get-put :
    (k j : String) (v : Value) (fs : Fields)
    → get j (put k v fs) ≡ (if k === j then some v else get j fs)
get-put k j v end = ground arith
get-put k j v (field i w fs) = ground (arith, get-put k j v fs, eq_iff i k, eq_iff i j, eq_iff k j)

-- Every key stands once, as in any Python dict.
abbrev pub Keyed : Fields → Type 0
Keyed end = Unit
Keyed (field k v fs) = (get k fs ≡ none) × Keyed fs

pub get-remove :
    (k j : String) (fs : Fields)
    → Keyed fs
    → get j (remove k fs) ≡ (if k === j then none else get j fs)
get-remove k j end h = ground arith
get-remove k j (field i w fs) h =
    ground (arith, get-remove k j fs h.1, eq_iff i k, eq_iff i j, eq_iff k j)

pub put-Keyed : (k : String) (v : Value) (fs : Fields) → Keyed fs → Keyed (put k v fs)
put-Keyed k v end h = (refl, tt)
put-Keyed k v (field i w fs) h =
    ground (arith, put-Keyed k v fs h.1, get-put k i v fs, eq_iff i k, eq_iff k i)

pub remove-Keyed : (k : String) (fs : Fields) → Keyed fs → Keyed (remove k fs)
remove-Keyed k end h = tt
remove-Keyed k (field i w fs) h =
    ground (arith, remove-Keyed k fs h.1, get-remove k i fs h.1, eq_iff i k, eq_iff k i)
