-- ===== src/TokenFile/Classes.antt =====
-- The classes of the contract, by their fields (uaclient/contract_data_types.py).
use ubuntu_advantage_client.Base.{false}
use ubuntu_advantage_client.DataTypes.{
  DataClass, string_value, int_value, bool_value, data_list, object_value, FieldList, no_fields,
  a_field, misnamed_field,
}

abbrev pub activity_info : DataClass
activity_info = object_value "ActivityInfo" (
    a_field "activityID" string_value false (
      a_field "activityToken" string_value false (
        a_field "activityPingInterval" int_value false
          (a_field "resources" (data_list string_value) false (no_fields)))))

abbrev pub available_resource : DataClass
available_resource = object_value "AvailableResource" (
    a_field "available" bool_value false (
      a_field "name" string_value false (
        a_field "description" string_value false
          (a_field "presentedAs" string_value false (no_fields)))))

-- `__init__` keeps `createdAt` as `createAt`.
abbrev pub account_info : DataClass
account_info = object_value "AccountInfo" (
    a_field "name" string_value false (
      a_field "id" string_value false (
        misnamed_field "createdAt" "createAt" string_value false (
          a_field "type" string_value false
            (a_field "userRoleOnAccount" string_value false (no_fields))))))

abbrev pub affordances : DataClass
affordances = object_value "Affordances" (
    a_field "architectures" (data_list string_value) false (
      a_field "presentedAs" string_value false (
        a_field "series" (data_list string_value) false (
          a_field "kernelFlavors" (data_list string_value) false (
            a_field "minKernelVersion" string_value false (
              a_field "tier" string_value false
                (a_field "supportLevel" string_value false (no_fields))))))))

abbrev pub obligations : DataClass
obligations = object_value "Obligations" (
    a_field "enableByDefault" bool_value false
      (a_field "additionalProperties" string_value false (no_fields)))

abbrev pub directives : DataClass
directives = object_value "Directives" (
    a_field "additionalPackages" (data_list string_value) false (
      a_field "aptURL" string_value false (
        a_field "suites" (data_list string_value) false (
          a_field "server" string_value false (
            a_field "remoteServer" string_value false (
              a_field "caCerts" string_value false (
                a_field "snapChannel" string_value false (
                  a_field "pypiURL" string_value false
                    (a_field "url" string_value false (no_fields))))))))))

abbrev pub override_selector : DataClass
override_selector =
    object_value "OverrideSelector"
      (a_field "series" string_value false (a_field "cloud" string_value false (no_fields)))

abbrev pub override : DataClass
override = object_value "Override" (
    a_field "selector" override_selector false (
      a_field "affordances" affordances false (
        a_field "obligations" obligations false
          (a_field "directives" directives false (no_fields)))))

abbrev pub entitlement_data : DataClass
entitlement_data = object_value "Entitlement" (
    a_field "entitled" bool_value false (
      a_field "type" string_value false (
        a_field "affordances" affordances false (
          a_field "obligations" obligations false (
            a_field "directives" directives false
              (a_field "overrides" (data_list override) false (no_fields)))))))

abbrev pub contract_info : DataClass
contract_info = object_value "ContractInfo" (
    a_field "name" string_value false (
      a_field "id" string_value false (
        misnamed_field "createdAt" "createAt" string_value false (
          a_field "createdBy" string_value false (
            a_field "resourceEntitlements" (data_list entitlement_data) false (
              a_field "specificResourceEntitlements" (data_list entitlement_data) false (
                a_field "effectiveFrom" string_value false (
                  a_field "effectiveTo" string_value false (
                    a_field "products" (data_list string_value) false
                      (a_field "origin" string_value false (no_fields)))))))))))

abbrev pub machine_token_info : DataClass
machine_token_info = object_value "MachineTokenInfo" (
    a_field "machineId" string_value false (
      a_field "accountInfo" account_info false (
        a_field "contractInfo" contract_info false
          (a_field "expires" string_value false (no_fields)))))

abbrev pub public_machine_token_fields : FieldList
public_machine_token_fields = a_field "activityInfo" activity_info false (
    a_field "machineTokenInfo" machine_token_info false
      (a_field "availableResources" (data_list available_resource) false (no_fields)))
