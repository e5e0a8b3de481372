-- ===== src/DataTypes/Shape.antt =====
-- What is written of a parsed value has the shape of its class.
use mathlib.Core.Path.{subst}
use ubuntu_advantage_client.Base.{
  ℕ, ◌+◌, String, ◌≡◌, sym, ap, ◌∙◌, Option-cases, Bool, false, some, Bool-cases, inl, inr,
}
use ubuntu_advantage_client.Base.Int.{ℤ}
use ubuntu_advantage_client.Json.{
  Value, null, bool, int, str, datetime, arr, obj, Items, nil, cons, Fields, end, field, py_eq,
}
use ubuntu_advantage_client.DataTypes.{
  DataClass, data_value, string_value, int_value, bool_value, datetime_value, enum_value, data_list,
  object_value, FieldList, no_fields, a_field, misnamed_field, Data, raw, DataItems, Attributes,
  attribute, incorrect_list_element, Parsed, parsed, within, find_member, parse_items, parse_field,
  add_field, as_member, from_value, from_dict, plain, data_list_to_list, to_dict, is_null,
}
use ubuntu_advantage_client.DataTypes.Again.{
  then_parse-eq-parsed, parsed-injective, within-eq-parsed, from_dict-field, from_dict-misnamed,
  Source,
}

pub data Member (x : Value) : Items → Type 0 where
  first : {xs : Items} → Member x (cons x xs)
  later : {y : Value} {xs : Items} → Member x xs → Member x (cons y xs)

-- A value of a class: of its type, one of the members of an enum, a list of such values, or a dict
-- that has no keys but those of the fields, in their order, with values of their classes.
mutual
  pub data HasType : DataClass → Value → Type 0 where
    any_value : {v : Value} → HasType data_value v
    a_text : {s : String} → HasType string_value (str s)
    a_number : {n : ℤ} → HasType int_value (int n)
    a_bool : {b : Bool} → HasType bool_value (bool b)
    a_time : {t : ℕ} → HasType datetime_value (datetime t)
    a_member :
        {name : String} {members : Items} {v : Value}
        → Member v members
        → HasType (enum_value name members) v
    a_list : {c : DataClass} {xs : Items} → HasItems c xs → HasType (data_list c) (arr xs)
    a_dict :
        {name : String} {fs : FieldList} {d : Fields}
        → HasFields fs d
        → HasType (object_value name fs) (obj d)

  pub data HasItems : DataClass → Items → Type 0 where
    no_items : {c : DataClass} → HasItems c nil
    an_item :
        {c : DataClass} {v : Value} {xs : Items}
        → HasType c v
        → HasItems c xs
        → HasItems c (cons v xs)

  pub data HasFields : FieldList → Fields → Type 0 where
    no_keys : HasFields no_fields end
    a_key :
        {k : String} {c : DataClass} {required : Bool} {fs : FieldList} {v : Value} {d : Fields}
        → HasType c v
        → HasFields fs d
        → HasFields (a_field k c required fs) (field k v d)
    left_out :
        {k : String} {c : DataClass} {required : Bool} {fs : FieldList} {d : Fields}
        → HasFields fs d
        → HasFields (a_field k c required fs) d
    -- what is kept under another name is not written
    not_kept :
        {k name : String} {c : DataClass} {required : Bool} {fs : FieldList} {d : Fields}
        → HasFields fs d
        → HasFields (misnamed_field k name c required fs) d

some-injective : (x y : Value) → some x ≡ some y → x ≡ y
some-injective x y h = cc h

find_member-Member : (xs : Items) (v x : Value) → find_member xs v ≡ some x → Member x xs
unfolding find_member
find_member-Member nil v x h = cc h
find_member-Member (cons y ys) v x h = elim (Bool-cases (py_eq y v)) [
  | inl same ↦
      (let found : some y ≡ some x = rw same at h in
        subst (λ z. Member z (cons y ys)) (some-injective y x found) first)
  | inr other ↦ later (find_member-Member ys v x (rw other at h))
]

-- what is written of what `parse` has returned
abbrev Shapes : (Value → Parsed Data) → DataClass → Type 0
Shapes parse c = (v : Value) (w : Data) → parse v ≡ parsed w → HasType c (plain false w)

parse_items-HasItems :
    (parse : Value → Parsed Data) (c : DataClass)
    → Shapes parse c
    → (i : ℕ) (xs : Items) (ys : DataItems) → parse_items parse i xs ≡ parsed ys
    → HasItems c (data_list_to_list false ys)
unfolding parse_items data_list_to_list
parse_items-HasItems parse c shapes i nil ys h =
    subst (λ z. HasItems c (data_list_to_list false z)) (parsed-injective _ _ h) no_items
parse_items-HasItems parse c shapes i (cons x xs) ys h =
    let (y, p, q) =
      then_parse-eq-parsed (within (λ e. incorrect_list_element e i) (parse x)) _ ys h in
    let (zs, p', q') = then_parse-eq-parsed (parse_items parse (i + 1) xs) _ ys q in
    subst (λ z. HasItems c (data_list_to_list false z)) (parsed-injective _ _ q')
      (an_item (shapes x y (within-eq-parsed _ (parse x) y p))
        (parse_items-HasItems parse c shapes (i + 1) xs zs p'))

-- a field, by its value and the others
field-HasFields :
    (k : String) (c : DataClass) (required : Bool) (fs : FieldList) (w : Data) (rest : Attributes)
    → (is_null (plain false w) ≡ false → HasType c (plain false w))
    → HasFields fs (to_dict false rest)
    → HasFields (a_field k c required fs) (to_dict false (attribute k w rest))
unfolding to_dict
field-HasFields k c required fs w rest h others = elim (Bool-cases (is_null (plain false w))) [
  | inl missing ↦ rw missing (left_out others)
  | inr present ↦ rw present (a_key (h present) others)
]

parse_field-HasType :
    (parse : Value → Parsed Data) (c : DataClass)
    → Shapes parse c
    → (key : String) (v : Value) (w : Data) → parse_field parse key v ≡ parsed w
    → is_null (plain false w) ≡ false
    → HasType c (plain false w)
unfolding plain
parse_field-HasType parse c shapes key null w h present =
    cc
      (subst (λ u. is_null (plain false u) ≡ false) (sym (parsed-injective (raw null) w h)) present)
parse_field-HasType parse c shapes key v w h present = shapes v w (within-eq-parsed _ (parse v) w h)

-- a field's value, from what it was parsed from
Source-HasType :
    (k : String) (c : DataClass) (required : Bool) (d : Fields) (new : Data)
    → Shapes (from_value c) c
    → Source k c required d new
    → is_null (plain false new) ≡ false
    → HasType c (plain false new)
unfolding plain
Source-HasType k c required d new shapes (inl (gone, nothing)) present =
    cc (subst (λ u. is_null (plain false u) ≡ false) nothing present)
Source-HasType k c required d new shapes (inr (val, found, p)) present =
    parse_field-HasType (from_value c) c shapes k val new p present

mutual
  unfolding as_member from_value from_dict plain to_dict add_field

  from_value-HasType : (c : DataClass) → Shapes (from_value c) c
  from_value-HasType data_value v w h = any_value
  from_value-HasType string_value (str s) w h =
      subst (λ u. HasType string_value (plain false u)) (parsed-injective _ _ h) a_text
  from_value-HasType string_value v w h = cc h
  from_value-HasType int_value (int n) w h =
      subst (λ u. HasType int_value (plain false u)) (parsed-injective _ _ h) a_number
  from_value-HasType int_value v w h = cc h
  from_value-HasType bool_value (bool b) w h =
      subst (λ u. HasType bool_value (plain false u)) (parsed-injective _ _ h) a_bool
  from_value-HasType bool_value v w h = cc h
  from_value-HasType datetime_value (datetime t) w h =
      subst (λ u. HasType datetime_value (plain false u)) (parsed-injective _ _ h) a_time
  from_value-HasType datetime_value v w h = cc h
  from_value-HasType (enum_value name members) v w h = elim (Option-cases (find_member members v)) [
    | inl unknown ↦ cc (h, unknown)
    | inr (x, found) ↦
        subst (λ u. HasType (enum_value name members) (plain false u))
          (parsed-injective (raw x) w (sym (ap (as_member name members) found) ∙ h))
          (a_member (find_member-Member members v x found))
  ]
  from_value-HasType (data_list c) (arr xs) w h =
      let (ys, p, q) = then_parse-eq-parsed (parse_items (from_value c) 0 xs) _ w h in
      subst (λ u. HasType (data_list c) (plain false u)) (parsed-injective _ _ q)
        (a_list (parse_items-HasItems (from_value c) c (from_value-HasType c) 0 xs ys p))
  from_value-HasType (data_list c) v w h = cc h
  from_value-HasType (object_value name fs) (obj d) w h =
      let (ks, p, q) = then_parse-eq-parsed (from_dict fs d) _ w h in
      subst (λ u. HasType (object_value name fs) (plain false u)) (parsed-injective _ _ q)
        (a_dict (from_dict-HasFields fs d ks p))
  from_value-HasType (object_value name fs) v w h = cc h

  from_dict-HasFields :
      (fs : FieldList) (d : Fields) (ks : Attributes)
      → from_dict fs d ≡ parsed ks
      → HasFields fs (to_dict false ks)
  from_dict-HasFields no_fields d ks h =
      subst (λ u. HasFields no_fields (to_dict false u)) (parsed-injective _ _ h) no_keys
  from_dict-HasFields (a_field k c required fs) d ks h =
      let (new, rest, same, p, q) = from_dict-field k c required fs d ks h in
      subst (λ u. HasFields (a_field k c required fs) (to_dict false u)) same
        (field-HasFields k c required fs new rest
          (Source-HasType k c required d new (from_value-HasType c) q)
          (from_dict-HasFields fs d rest p))
  from_dict-HasFields (misnamed_field k name c required fs) d ks h =
      let (new, rest, same, p) = from_dict-misnamed k name c required fs d ks h in
      subst (λ u. HasFields (misnamed_field k name c required fs) (to_dict false u)) same
        (not_kept (from_dict-HasFields fs d rest p))

-- What `to_dict` writes, without the keys that are None, of a value that was parsed is a value of
-- the class: also inside it there are no keys but those of the fields, with values of their classes.
pub written-HasType :
    (c : DataClass) (v : Value) (w : Data) → from_value c v ≡ parsed w → HasType c (plain false w)
written-HasType c v w h = from_value-HasType c v w h

pub written-HasFields :
    (fs : FieldList) (d : Fields) (ks : Attributes)
    → from_dict fs d ≡ parsed ks
    → HasFields fs (to_dict false ks)
written-HasFields fs d ks h = from_dict-HasFields fs d ks h
