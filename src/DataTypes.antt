-- ===== src/DataTypes.antt =====
-- Values that are read into typed objects (uaclient/data_types.py).
pub mod Again
pub mod Shape
mod Tests
use ubuntu_advantage_client.Base.{
  ℕ, ◌+◌, String, Bool, true, false, Option, none, some, ◌||◌, if◌then◌else◌, not,
}
use ubuntu_advantage_client.Json.{
  Value, null, bool, int, str, datetime, arr, obj, dropped, Items, nil, cons, Fields, end, field,
  get, py_eq,
}

-- The subclasses of `DataValue`, as data: `enum_value` by its members' values, `object_value` by
-- its fields.
mutual
  pub data DataClass : Type 0 where
    data_value string_value int_value bool_value datetime_value : DataClass
    enum_value : String → Items → DataClass
    data_list : DataClass → DataClass
    object_value : String → FieldList → DataClass

  -- `Field`: key, class, whether it is required
  pub data FieldList : Type 0 where
    no_fields : FieldList
    a_field : String → DataClass → Bool → FieldList → FieldList
    -- a field that `__init__` keeps as an attribute of another name: its key, and that name
    misnamed_field : String → String → DataClass → Bool → FieldList → FieldList

-- What is parsed: a value that is passed on, an instance of an enum class (by its value), a list of
-- parsed values, or a `DataObject` by its attributes, one for each field of its class, under its key.
mutual
  pub data Data : Type 0 where
    raw : Value → Data
    list : DataItems → Data
    object : Attributes → Data

  pub data DataItems : Type 0 where
    no_data : DataItems
    data_and : Data → DataItems → DataItems

  pub data Attributes : Type 0 where
    no_attributes : Attributes
    attribute : String → Data → Attributes → Attributes
    -- under another name than the key of its field
    misnamed : String → String → Data → Attributes → Attributes

-- `IncorrectTypeError` and the classes that extend it
pub data IncorrectType : Type 0 where
  incorrect_type : String → String → IncorrectType
  incorrect_list_element : IncorrectType → ℕ → IncorrectType
  incorrect_field : IncorrectType → String → IncorrectType
  incorrect_enum : Items → String → IncorrectType

pub data Parsed (A : Type 0) : Type 0 where
  parsed : A → Parsed A
  refused : IncorrectType → Parsed A

abbrev pub then_parse : {A B : Type 0} → Parsed A → (A → Parsed B) → Parsed B
then_parse (parsed a) f = f a
then_parse (refused x) f = refused x

-- `except IncorrectTypeError as e: raise …(e, …)`
abbrev pub within : {A : Type 0} → (IncorrectType → IncorrectType) → Parsed A → Parsed A
within f (parsed a) = parsed a
within f (refused x) = refused (f x)

-- type(val).__name__
abbrev pub type_name : Value → String
type_name null = "NoneType"
type_name (bool b) = "bool"
type_name (int n) = "int"
type_name (str s) = "str"
type_name (datetime t) = "datetime"
type_name (arr xs) = "list"
type_name (obj fs) = "dict"
type_name dropped = "object"

-- data_cls.__name__
abbrev pub class_name : DataClass → String
class_name data_value = "DataValue"
class_name string_value = "StringDataValue"
class_name int_value = "IntDataValue"
class_name bool_value = "BoolDataValue"
class_name datetime_value = "DatetimeDataValue"
class_name (enum_value name members) = name
class_name (data_list c) = "_DataList"
class_name (object_value name fs) = name

-- cls(val): the member with that value
unfoldable pub find_member : Items → Value → Option Value
find_member nil val = none
find_member (cons x xs) val = let rest = find_member xs val in if py_eq x val then some x else rest

-- the loop of `_DataList.from_value`, from index `i`
unfoldable pub parse_items : (Value → Parsed Data) → ℕ → Items → Parsed DataItems
parse_items parse i nil = parsed no_data
parse_items parse i (cons x xs) =
    then_parse (within (λ e. incorrect_list_element e i) (parse x))
      λ y. then_parse (parse_items parse (i + 1) xs) λ ys. parsed (data_and y ys)

-- `if val is not None: val = field.data_cls.from_value(val)`
abbrev pub parse_field : (Value → Parsed Data) → String → Value → Parsed Data
parse_field parse key null = parsed (raw null)
parse_field parse key val = within (λ e. incorrect_field e key) (parse val)

-- `cls(val)`, or the error
unfoldable pub as_member : String → Items → Option Value → Parsed Data
as_member name members none = refused (incorrect_enum members name)
as_member name members (some x) = parsed (raw x)

-- one round of the loop of `from_dict`, from `d.get(key)` and what the rounds that follow give
unfoldable pub add_field :
    (Value → Parsed Data)
    → String
    → String
    → Bool
    → Option Value
    → Parsed Attributes
    → Parsed Attributes
add_field parse class key required none others =
    if required
    then refused (incorrect_field (incorrect_type class "null") key)
    else then_parse others (λ rest. parsed (attribute key (raw null) rest))
add_field parse class key required (some val) others =
    then_parse (parse_field parse key val)
      λ new. then_parse others (λ rest. parsed (attribute key new rest))

-- what `__init__` keeps, where the first attribute gets another name
abbrev pub kept_as : String → Attributes → Attributes
kept_as name (attribute k v rest) = misnamed k name v rest
kept_as name others = others

unfoldable mutual
  pub from_value : DataClass → Value → Parsed Data
  from_value data_value val = parsed (raw val)
  from_value string_value val = elim val [
    | str s ↦ parsed (raw (str s))
    | other ↦ refused (incorrect_type "str" (type_name other))
  ]
  from_value int_value val = elim val [
    | int n ↦ parsed (raw (int n))
    | other ↦ refused (incorrect_type "int" (type_name other))
  ]
  from_value bool_value val = elim val [
    | bool b ↦ parsed (raw (bool b))
    | other ↦ refused (incorrect_type "bool" (type_name other))
  ]
  from_value datetime_value val = elim val [
    | datetime t ↦ parsed (raw (datetime t))
    | other ↦ refused (incorrect_type "datetime" (type_name other))
  ]
  from_value (enum_value name members) val = as_member name members (find_member members val)
  from_value (data_list c) val = elim val [
    | arr xs ↦ then_parse (parse_items (from_value c) 0 xs) (λ ys. parsed (list ys))
    | other ↦ refused (incorrect_type "list" (type_name other))
  ]
  from_value (object_value name fs) val = elim val [
    | obj d ↦ then_parse (from_dict fs d) (λ kwargs. parsed (object kwargs))
    | other ↦ refused (incorrect_type "dict" (type_name other))
  ]

  pub from_dict : FieldList → Fields → Parsed Attributes
  from_dict no_fields d = parsed no_attributes
  from_dict (a_field key c required fs) d =
      add_field (from_value c) (class_name c) key required (get key d) (from_dict fs d)
  from_dict (misnamed_field key name c required fs) d =
      then_parse (add_field (from_value c) (class_name c) key required (get key d) (from_dict fs d))
        (λ kwargs. parsed (kept_as name kwargs))

abbrev pub is_null : Value → Bool
is_null null = true
is_null _ = false

-- `to_dict`, and `data_list_to_list` on its lists
unfoldable mutual
  pub plain : Bool → Data → Value
  plain keep_none (raw v) = v
  plain keep_none (list xs) = arr (data_list_to_list keep_none xs)
  plain keep_none (object attributes) = obj (to_dict keep_none attributes)

  pub data_list_to_list : Bool → DataItems → Items
  data_list_to_list keep_none no_data = nil
  data_list_to_list keep_none (data_and x xs) =
      cons (plain keep_none x) (data_list_to_list keep_none xs)

  pub to_dict : Bool → Attributes → Fields
  to_dict keep_none no_attributes = end
  to_dict keep_none (attribute k v rest) =
      if not (is_null (plain keep_none v)) || keep_none
      then field k (plain keep_none v) (to_dict keep_none rest)
      else to_dict keep_none rest
  -- getattr(self, field.key, None)
  to_dict keep_none (misnamed k name v rest) =
      if keep_none then field k null (to_dict keep_none rest) else to_dict keep_none rest

-- AttachActionsConfigFile
abbrev pub attach_actions_config_file : DataClass
attach_actions_config_file = object_value "AttachActionsConfigFile" (
    a_field "token" string_value true
      (a_field "enable_services" (data_list string_value) false no_fields))
