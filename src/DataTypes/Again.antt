-- ===== src/DataTypes/Again.antt =====
-- What is written of a parsed value is parsed to the same value.
use mathlib.Core.Path.{subst}
use ubuntu_advantage_client.Base.{
  ℕ, ◌+◌, String, ◌≡◌, ◌⊎◌, refl, sym, ap, ◌∙◌, Bool, true, false, Bool-cases, Option-cases, inl,
  inr, none, some, arith, ◌||◌, ◌===◌, eq_refl, eq_iff,
}
use ubuntu_advantage_client.Json.{
  Value, null, arr, obj, Items, nil, cons, Fields, field, get, py_eq,
}
use ubuntu_advantage_client.DataTypes.{
  DataClass, data_value, string_value, int_value, bool_value, datetime_value, enum_value, data_list,
  object_value, FieldList, no_fields, a_field, misnamed_field, kept_as, Data, raw, list, object,
  DataItems, Attributes, no_attributes, attribute, misnamed, IncorrectType, incorrect_list_element,
  Parsed, parsed, refused, then_parse, within, find_member, parse_items, parse_field, add_field,
  as_member, class_name, from_value, from_dict, plain, data_list_to_list, to_dict,
}

-- the members of an enum are told apart by `==`
abbrev pub OwnMembers : Items → Items → Type 0
OwnMembers members nil = Unit
OwnMembers members (cons x xs) = (find_member members x ≡ some x) × OwnMembers members xs

abbrev pub Fresh : String → FieldList → Type 0
Fresh k no_fields = Unit
Fresh k (a_field j c required fs) = ((j === k) ≡ false) × Fresh k fs
Fresh k (misnamed_field j name c required fs) = ⊥

-- No key stands twice in the fields of a class, each is kept under its key, and no value stands twice
-- in an enum.
abbrev mutual
  pub Lawful : DataClass → Type 0
  Lawful (enum_value name members) = OwnMembers members members
  Lawful (data_list c) = Lawful c
  Lawful (object_value name fs) = LawfulFields fs
  Lawful _ = Unit

  pub LawfulFields : FieldList → Type 0
  LawfulFields no_fields = Unit
  LawfulFields (a_field k c required fs) = Fresh k fs × Lawful c × LawfulFields fs
  LawfulFields (misnamed_field k name c required fs) = ⊥

pub then_parse-eq-parsed :
    {A B : Type 0} (m : Parsed A) (f : A → Parsed B) (b : B)
    → then_parse m f ≡ parsed b
    → (a : A) × (m ≡ parsed a) × (f a ≡ parsed b)
then_parse-eq-parsed (parsed a) f b h = (a, refl, h)
then_parse-eq-parsed (refused x) f b h = cc h

pub parsed-injective : {A : Type 0} (a b : A) → parsed a ≡ parsed b → a ≡ b
parsed-injective a b h = cc h

pub within-eq-parsed :
    {A : Type 0} (f : IncorrectType → IncorrectType) (m : Parsed A) (a : A)
    → within f m ≡ parsed a
    → m ≡ parsed a
within-eq-parsed f (parsed x) a h = h
within-eq-parsed f (refused x) a h = cc h

plain-eq-null : (w : Data) → plain true w ≡ null → w ≡ raw null
unfolding plain
plain-eq-null (raw v) h = ap raw h
plain-eq-null (list xs) h = cc h
plain-eq-null (object fs) h = cc h

find_member-OwnMembers :
    (members xs : Items) (v x : Value)
    → OwnMembers members xs
    → find_member xs v ≡ some x
    → find_member members x ≡ some x
unfolding find_member
find_member-OwnMembers members nil v x h r = cc r
find_member-OwnMembers members (cons y ys) v x h r = elim (Bool-cases (py_eq y v)) [
  | inl same ↦ cc (rw same at r, h.0)
  | inr other ↦ find_member-OwnMembers members ys v x h.1 (rw other at r)
]

-- what is written of a value that `parse` has returned is parsed to that value
abbrev ParsesAgain : (Value → Parsed Data) → Type 0
ParsesAgain parse = (v : Value) (w : Data) → parse v ≡ parsed w → parse (plain true w) ≡ parsed w

module _ (parse : Value → Parsed Data) (again : ParsesAgain parse) where
  parse_field-parsed :
      (key : String) (u : Value) (w : Data)
      → (u ≡ null → w ≡ raw null)
      → parse u ≡ parsed w
      → parse_field parse key u ≡ parsed w
  parse_field-parsed key null w h r = ap parsed (sym (h refl))
  parse_field-parsed key u w h r = rw r refl

  parse_field-again : (key : String) → ParsesAgain (parse_field parse key)
  unfolding plain
  parse_field-again key null w h =
      subst (λ w. parse_field parse key (plain true w) ≡ parsed w) (parsed-injective _ _ h) refl
  parse_field-again key v w h =
      parse_field-parsed key (plain true w) w (plain-eq-null w)
        (again v w (within-eq-parsed _ (parse v) w h))

  parse_items-again :
      (i : ℕ) (xs : Items) (ys : DataItems)
      → parse_items parse i xs ≡ parsed ys
      → parse_items parse i (data_list_to_list true ys) ≡ parsed ys
  unfolding parse_items data_list_to_list plain
  parse_items-again i nil ys h =
      subst (λ ys. parse_items parse i (data_list_to_list true ys) ≡ parsed ys)
        (parsed-injective _ _ h) refl
  parse_items-again i (cons x xs) ys h =
      let (y, p, q) =
        then_parse-eq-parsed (within (λ e. incorrect_list_element e i) (parse x)) _ ys h in
      let (zs, p', q') = then_parse-eq-parsed (parse_items parse (i + 1) xs) _ ys q in
      let same = again x y (within-eq-parsed _ (parse x) y p) in
      subst (λ ys. parse_items parse i (data_list_to_list true ys) ≡ parsed ys)
        (parsed-injective _ _ q') (rw same (rw (parse_items-again (i + 1) xs zs p') refl))

-- the attributes stand under their keys
abbrev Holds : Attributes → Fields → Type 0
Holds no_attributes e = Unit
Holds (attribute k v rest) e = (get k e ≡ some (plain true v)) × Holds rest e
Holds (misnamed k name v rest) e = ⊥

abbrev Absent : String → Attributes → Type 0
Absent k no_attributes = Unit
Absent k (attribute j v rest) = ((j === k) ≡ false) × Absent k rest
Absent k (misnamed j name v rest) = ⊥

abbrev Apart : Attributes → Type 0
Apart no_attributes = Unit
Apart (attribute k v rest) = Absent k rest × Apart rest
Apart (misnamed k name v rest) = ⊥

Holds-field :
    (k : String) (x : Value) (rest : Attributes) (e : Fields)
    → Absent k rest
    → Holds rest e
    → Holds rest (field k x e)
Holds-field k x no_attributes e a h = tt
Holds-field k x (attribute j v rest) e a h =
    (ground (arith, eq_iff k j, eq_iff j k), Holds-field k x rest e a.1 h.1)
Holds-field k x (misnamed j name v rest) e a h = absurd a

get-own : (k : String) (v : Value) (fs : Fields) → get k (field k v fs) ≡ some v
get-own k v fs = ground (arith, eq_refl k)

or_true : (b : Bool) → (b || true) ≡ true
or_true true = refl
or_true false = refl

to_dict-Holds : (ks : Attributes) → Apart ks → Holds ks (to_dict true ks)
unfolding to_dict plain
to_dict-Holds no_attributes a = tt
to_dict-Holds (attribute k v rest) a = rw or_true (
  get-own k (plain true v) (to_dict true rest),
  Holds-field k (plain true v) rest (to_dict true rest) a.0 (to_dict-Holds rest a.1),
)
to_dict-Holds (misnamed k name v rest) a = absurd a

-- what a field was parsed from: nothing, or a value
abbrev pub Source : String → DataClass → Bool → Fields → Data → Type 0
Source k c required d new =
    ((get k d ≡ none) × (new ≡ raw null))
    ⊎ ((val : Value) × (get k d ≡ some val) × (parse_field (from_value c) k val ≡ parsed new))

from_dict-eq :
    (k : String) (c : DataClass) (required : Bool) (fs : FieldList) (d : Fields)
    → from_dict (a_field k c required fs) d
      ≡ add_field (from_value c) (class_name c) k required (get k d) (from_dict fs d)
unfolding from_dict
from_dict-eq k c required fs d = refl

pub from_dict-field :
    (k : String) (c : DataClass) (required : Bool) (fs : FieldList) (d : Fields) (ks : Attributes)
    → from_dict (a_field k c required fs) d ≡ parsed ks
    → (new : Data) × (rest : Attributes) × (attribute k new rest ≡ ks)
      × (from_dict fs d ≡ parsed rest)
      × Source k c required d new
unfolding add_field
from_dict-field k c required fs d ks h = elim (Option-cases (get k d)) [
  | inl gone ↦ elim (Bool-cases required) [
    | inl needed ↦ cc (rw (gone, needed) at (sym (from_dict-eq k c required fs d) ∙ h))
    | inr optional ↦
        let (rest, p, q) =
          then_parse-eq-parsed (from_dict fs d) _ ks
            (rw (gone, optional) at (sym (from_dict-eq k c required fs d) ∙ h)) in
        (raw null, rest, parsed-injective _ _ q, p, inl (gone, refl))
  ]
  | inr (val, found) ↦
      let (new, p, q) =
        then_parse-eq-parsed (parse_field (from_value c) k val) _ ks
          (rw found at (sym (from_dict-eq k c required fs d) ∙ h)) in
      let (rest, p', q') = then_parse-eq-parsed (from_dict fs d) _ ks q in
      (new, rest, parsed-injective _ _ q', p', inr (val, found, p))
]

pub from_dict-misnamed :
    (k name : String) (c : DataClass) (required : Bool) (fs : FieldList) (d : Fields)
    (ks : Attributes)
    → from_dict (misnamed_field k name c required fs) d ≡ parsed ks
    → (new : Data) × (rest : Attributes) × (misnamed k name new rest ≡ ks)
      × (from_dict fs d ≡ parsed rest)
unfolding from_dict
from_dict-misnamed k name c required fs d ks h =
    let (kwargs, p, q) =
      then_parse-eq-parsed (from_dict (a_field k c required fs) d)
        (λ kwargs. parsed (kept_as name kwargs)) ks h in
    let (new, rest, same, r, _) = from_dict-field k c required fs d kwargs p in
    (new, rest, ap (kept_as name) same ∙ parsed-injective _ _ q, r)

from_dict-Absent :
    (fs : FieldList) (k : String) (d : Fields) (ks : Attributes)
    → Fresh k fs
    → from_dict fs d ≡ parsed ks
    → Absent k ks
unfolding from_dict
from_dict-Absent no_fields k d ks f h = subst (Absent k) (parsed-injective _ _ h) tt
from_dict-Absent (a_field j c required fs) k d ks f h =
    let (new, rest, same, p, q) = from_dict-field j c required fs d ks h in
    subst (Absent k) same (f.0, from_dict-Absent fs k d rest f.1 p)
from_dict-Absent (misnamed_field j name c required fs) k d ks f h = absurd f

from_dict-Apart :
    (fs : FieldList) (d : Fields) (ks : Attributes)
    → LawfulFields fs
    → from_dict fs d ≡ parsed ks
    → Apart ks
unfolding from_dict
from_dict-Apart no_fields d ks l h = subst Apart (parsed-injective _ _ h) tt
from_dict-Apart (a_field j c required fs) d ks l h =
    let (new, rest, same, p, q) = from_dict-field j c required fs d ks h in
    subst Apart same (from_dict-Absent fs j d rest l.0 p, from_dict-Apart fs d rest l.2 p)
from_dict-Apart (misnamed_field j name c required fs) d ks l h = absurd l

-- what is written of a field's value is parsed to that value
field-again :
    (k : String) (c : DataClass) (required : Bool) (d : Fields) (new : Data)
    → ParsesAgain (from_value c)
    → Source k c required d new
    → parse_field (from_value c) k (plain true new) ≡ parsed new
unfolding plain
field-again k c required d new again (inl (gone, nothing)) = rw nothing refl
field-again k c required d new again (inr (val, found, p)) =
    parse_field-again (from_value c) again k val new p

from_dict-present :
    (k : String) (c : DataClass) (required : Bool) (fs : FieldList) (e : Fields) (new : Data)
    (rest : Attributes)
    → get k e ≡ some (plain true new)
    → parse_field (from_value c) k (plain true new) ≡ parsed new
    → from_dict fs e ≡ parsed rest
    → from_dict (a_field k c required fs) e ≡ parsed (attribute k new rest)
unfolding add_field
from_dict-present k c required fs e new rest found p q =
    rw (from_dict-eq k c required fs e) (rw found (rw p (rw q refl)))

mutual
  unfolding as_member from_value from_dict plain to_dict find_member

  from_value-again : (c : DataClass) → Lawful c → ParsesAgain (from_value c)
  from_value-again data_value l v w h =
      subst (λ u. from_value data_value (plain true u) ≡ parsed u) (parsed-injective _ _ h) refl
  from_value-again string_value l v w h = ground arith
  from_value-again int_value l v w h = ground arith
  from_value-again bool_value l v w h = ground arith
  from_value-again datetime_value l v w h = ground arith
  from_value-again (enum_value name members) l v w h = elim (Option-cases (find_member members v)) [
    | inl unknown ↦ cc (h, unknown)
    | inr (x, found) ↦
        subst (λ u. from_value (enum_value name members) (plain true u) ≡ parsed u)
          (parsed-injective (raw x) w (sym (ap (as_member name members) found) ∙ h))
          (ap (as_member name members) (find_member-OwnMembers members members v x l found))
  ]
  from_value-again (data_list c) l (arr xs) w h =
      let (ys, p, q) = then_parse-eq-parsed (parse_items (from_value c) 0 xs) _ w h in
      subst (λ u. from_value (data_list c) (plain true u) ≡ parsed u) (parsed-injective _ _ q)
        (rw (parse_items-again (from_value c) (from_value-again c l) 0 xs ys p) refl)
  from_value-again (data_list c) l v w h = cc h
  from_value-again (object_value name fs) l (obj d) w h =
      let (ks, p, q) = then_parse-eq-parsed (from_dict fs d) _ w h in
      subst (λ u. from_value (object_value name fs) (plain true u) ≡ parsed u)
        (parsed-injective _ _ q)
        (rw
          (from_dict-again fs d (to_dict true ks) ks l p
            (to_dict-Holds ks (from_dict-Apart fs d ks l p)))
          refl)
  from_value-again (object_value name fs) l v w h = cc h

  from_dict-again :
      (fs : FieldList) (d e : Fields) (ks : Attributes)
      → LawfulFields fs
      → from_dict fs d ≡ parsed ks
      → Holds ks e
      → from_dict fs e ≡ parsed ks
  from_dict-again no_fields d e ks l h holds = h
  from_dict-again (a_field k c required fs) d e ks l h holds =
      let (new, rest, same, p, q) = from_dict-field k c required fs d ks h in
      subst (λ u. from_dict (a_field k c required fs) e ≡ parsed u) same
        (from_dict-present k c required fs e new rest (subst (λ u. Holds u e) (sym same) holds).0
          (field-again k c required d new (from_value-again c l.1) q)
          (from_dict-again fs d e rest l.2 p (subst (λ u. Holds u e) (sym same) holds).1))
  from_dict-again (misnamed_field k name c required fs) d e ks l h holds = absurd l

-- For a class in which no key stands twice, nor a value twice in an enum, and whose `__init__` keeps
-- each field under its key, and the same for the classes of its fields: what `to_dict` writes of a
-- value that was parsed, with the keys that are None, is parsed to the same value.
pub from_value-plain :
    (c : DataClass) (v : Value) (w : Data)
    → Lawful c
    → from_value c v ≡ parsed w
    → from_value c (plain true w) ≡ parsed w
from_value-plain c v w l h = from_value-again c l v w h
