-- ===== src/TokenFile/Tests.antt =====
-- A token is written and read again.
use ubuntu_advantage_client.Base.{◌≡◌, refl, Bool, true, none, some}
use ubuntu_advantage_client.Exception.{ok}
use ubuntu_advantage_client.Json.{Value, str, obj, Fields, end, field}
use ubuntu_advantage_client.DataTypes.{
  add_field, from_value, plain, raw, object, attribute, no_attributes, parsed,
}
use ubuntu_advantage_client.DataTypes.Shape.{HasType, written-HasType}
use ubuntu_advantage_client.TokenFile.{
  MachineTokenFile, write, machine_token, contract_expiry_datetime,
}
use ubuntu_advantage_client.TokenFile.Classes.{override_selector}
use ubuntu_advantage_client.TokenFile.Fresh.{
  token_of, machine_token-write, contract_expiry_datetime-write,
}

abbrev info : Fields
info =
    field "machineTokenInfo"
      (obj (
        field "accountInfo" (obj (field "name" (str "a") (field "createdAt" (str "2022") end)))
          (field "contractInfo" (obj (field "effectiveTo" (str "2030") end)) end)))
      end

-- The token, with the secret that only root may read.
abbrev token : Value
token = obj (field "machineToken" (str "secret") info)

abbrev public_info : Fields
public_info =
    field "machineTokenInfo"
      (obj (
        field "accountInfo" (obj (field "name" (str "a") end))
          (field "contractInfo" (obj (field "effectiveTo" (str "2030") end)) end)))
      end

abbrev token_file : MachineTokenFile
token_file = record {
  is_root = true;
  private_file = none;
  public_file = none;
  cached_token = some (obj (field "machineToken" (str "old") end));
  cached_entitlements = none;
  cached_expiry = some (str "2020");
}

abbrev same : Value → Value
same v = v

writes : (write same same none token token_file).0 ≡ ok tt
unfolding write add_field
writes = refl

machine_token-write_example :
    (machine_token same same none (write same same none token token_file).1).0
    ≡ token_of same same none token
machine_token-write_example = machine_token-write same same none token token_file refl writes

contract_expiry_datetime-write_example :
    (contract_expiry_datetime same same none (write same same none token token_file).1).0
    ≡ ok (str "2020")
contract_expiry_datetime-write_example =
    contract_expiry_datetime-write same same none token (str "2020") token_file refl refl

abbrev selector : Value
selector = obj (field "series" (str "focal") (field "other" (str "x") end))

parses :
    from_value override_selector selector
    ≡ parsed (
        object (
          attribute "series"
            (raw (str "focal"))
            (attribute "cloud" (raw Value.null) no_attributes)))
unfolding from_value add_field
parses = refl

written-HasType_example : HasType override_selector (
    plain Bool.false (
      object (
        attribute "series" (raw (str "focal")) (attribute "cloud" (raw Value.null) no_attributes))))
written-HasType_example =
    written-HasType override_selector selector
      (object
        (attribute "series" (raw (str "focal")) (attribute "cloud" (raw Value.null) no_attributes)))
      parses
