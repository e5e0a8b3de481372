-- ===== src/DataTypes/Tests.antt =====
-- The file that `pro attach --attach-config` reads.
use ubuntu_advantage_client.Base.{◌≡◌, refl, true}
use ubuntu_advantage_client.Json.{Value, null, int, str, arr, obj, nil, cons, end, field}
use ubuntu_advantage_client.Base.Int.{pos}
use ubuntu_advantage_client.DataTypes.{
  Data, raw, list, object, no_data, data_and, no_attributes, attribute, parsed, refused,
  incorrect_type, incorrect_field, incorrect_list_element, from_value, add_field, parse_items,
  plain, attach_actions_config_file,
}
use ubuntu_advantage_client.DataTypes.Again.{from_value-plain}

abbrev config_file : Value
config_file = obj (
    field "enable_services" (arr (cons (str "esm-infra") nil))
      (field "token" (str "secret") (field "other" null end)))

abbrev config : Data
config = object (
    attribute "token" (raw (str "secret"))
      (attribute "enable_services" (list (data_and (raw (str "esm-infra")) no_data)) no_attributes))

config_file_parsed : from_value attach_actions_config_file config_file ≡ parsed config
unfolding from_value add_field parse_items
config_file_parsed = refl

-- the error names the field and the index
wrong_element :
    from_value attach_actions_config_file (
      obj
        (field "token" (str "secret") (field "enable_services" (arr (cons (int (pos 1)) nil)) end)))
    ≡ refused
        (incorrect_field (incorrect_list_element (incorrect_type "str" "int") 0) "enable_services")
unfolding from_value add_field parse_items
wrong_element = refl

from_value-plain_example : from_value attach_actions_config_file (plain true config) ≡ parsed config
from_value-plain_example =
    from_value-plain attach_actions_config_file config_file config ((refl, tt), tt, (tt, tt, tt))
      config_file_parsed
