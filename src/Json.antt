-- ===== src/Json.antt =====
-- The values that the client reads from JSON and YAML, as Python holds them. A dict is its items
-- in insertion order. `dropped` is `util.DROPPED_KEY`, an object that equals only itself.
pub mod Dict
use ubuntu_advantage_client.Base.{
  ℕ, suc, String, Bool, true, false, Option, none, some, not, ◌&&◌, ◌||◌, ◌==◌, ◌===◌,
}
use ubuntu_advantage_client.Text.{codes, infix_of}
use ubuntu_advantage_client.Exception.{Result, ok, err, attribute_error, key_error, type_error}
use ubuntu_advantage_client.Base.Int.{ℤ, pos, eq_ℤ}

mutual
  pub data Value : Type 0 where
    null : Value
    bool : Bool → Value
    int : ℤ → Value
    str : String → Value
    datetime : ℕ → Value
    arr : Items → Value
    obj : Fields → Value
    dropped : Value

  pub data Items : Type 0 where
    nil : Items
    cons : Value → Items → Items

  pub data Fields : Type 0 where
    end : Fields
    field : String → Value → Fields → Fields

-- d.get(key)
abbrev pub get : String → Fields → Option Value
get k end = none
get k (field j v fs) = elim (j === k) [ true ↦ some v | false ↦ get k fs ]

-- d[key] = v: a new key goes to the end
abbrev pub put : String → Value → Fields → Fields
put k v end = field k v end
put k v (field j w fs) = elim (j === k) [ true ↦ field j v fs | false ↦ field j w (put k v fs) ]

-- d.pop(key, None)
abbrev pub remove : String → Fields → Fields
remove k end = end
remove k (field j v fs) = elim (j === k) [ true ↦ fs | false ↦ field j v (remove k fs) ]

abbrev pub size : Fields → ℕ
size end = 0
size (field k v fs) = suc (size fs)

-- the number that a Boolean is
abbrev pub bool_int : Bool → ℤ
bool_int true = pos 1
bool_int false = pos 0

abbrev pub is_number : ℤ → Value → Bool
is_number n (int m) = eq_ℤ n m
is_number n (bool b) = eq_ℤ n (bool_int b)
is_number n _ = false

-- Python's `==`: True is 1, and the order of a dict's items does not count.
unfoldable mutual
  pub py_eq : Value → Value → Bool
  py_eq null w = elim w [ null ↦ true | _ ↦ false ]
  py_eq (bool b) w = is_number (bool_int b) w
  py_eq (int n) w = is_number n w
  py_eq (str s) w = elim w [ str t ↦ s === t | _ ↦ false ]
  py_eq (datetime s) w = elim w [ datetime t ↦ s == t | _ ↦ false ]
  py_eq (arr xs) w = elim w [ arr ys ↦ items_eq xs ys | _ ↦ false ]
  py_eq (obj fs) w = elim w [ obj gs ↦ (size fs == size gs) && fields_in fs gs | _ ↦ false ]
  py_eq dropped w = elim w [ dropped ↦ true | _ ↦ false ]

  pub items_eq : Items → Items → Bool
  items_eq nil ys = elim ys [ nil ↦ true | _ ↦ false ]
  items_eq (cons x xs) ys = elim ys [ cons y ys' ↦ py_eq x y && items_eq xs ys' | _ ↦ false ]

  pub fields_in : Fields → Fields → Bool
  fields_in end gs = true
  fields_in (field k v fs) gs =
      elim (get k gs) [ none ↦ false | some w ↦ py_eq v w ] && fields_in fs gs

-- bool(value)
abbrev pub truthy : Value → Bool
truthy null = false
truthy (bool b) = b
truthy (int n) = not (eq_ℤ n (pos 0))
truthy (str s) = not (s === "")
truthy (datetime t) = true
truthy (arr nil) = false
truthy (arr (cons x xs)) = true
truthy (obj end) = false
truthy (obj (field k v fs)) = true
truthy dropped = true

abbrev pub value_or : Value → Option Value → Value
value_or d none = d
value_or d (some v) = v

-- value.get(key, default): only a dict has `get`
abbrev pub get_attr : String → Value → Value → Result Value
get_attr k d (obj fs) = ok (value_or d (get k fs))
get_attr k d _ = err attribute_error

-- value[key]
abbrev pub subscript : String → Value → Result Value
subscript k (obj fs) = elim (get k fs) [ none ↦ err key_error | some v ↦ ok v ]
subscript k _ = err type_error

abbrev pub has_key : String → Fields → Bool
has_key k fs = elim (get k fs) [ none ↦ false | some _ ↦ true ]

abbrev pub any_eq : Value → Items → Bool
any_eq v nil = false
any_eq v (cons x xs) = py_eq x v || any_eq v xs

-- text in value: a text contains its parts, a list its items, a dict its keys
abbrev pub text_in : String → Value → Result Bool
text_in s (str t) = ok (infix_of (codes s) (codes t))
text_in s (arr xs) = ok (any_eq (str s) xs)
text_in s (obj fs) = ok (has_key s fs)
text_in s _ = err type_error
