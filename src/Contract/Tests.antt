-- ===== src/Contract/Tests.antt =====
-- A refresh in which one service cannot be processed, and the messages of a refused attach.
use ubuntu_advantage_client.Base.{String, ◌≡◌, refl, Bool, true, false, none, []}
use ubuntu_advantage_client.Exception.{ok, err, user_facing}
use ubuntu_advantage_client.Json.{
  null, str, bool, datetime, obj, nil, cons, Fields, end, field, py_eq,
}
use ubuntu_advantage_client.Machine.{Machine, pure}
use ubuntu_advantage_client.Entitlement.{Env, Service}
use ubuntu_advantage_client.Entitlement.Status.{disabled}
use ubuntu_advantage_client.Entitlement.Refresh.{Selector, process_entitlement_delta}
use ubuntu_advantage_client.Entitlement.Checks.{can_enable}
use ubuntu_advantage_client.Entitlement.Contract.{valid_names, is_access_expired, contract_status}
use ubuntu_advantage_client.Overrides.{apply_contract_overrides}
use ubuntu_advantage_client.Deltas.{get_dict_deltas}
use ubuntu_advantage_client.Registry.{
  entitlement_classes, entitlements_enable_order, sort_entitlements, find_class,
}
use ubuntu_advantage_client.Contract.{contract_api_error, attach_result, process_entitlements_delta}
use ubuntu_advantage_client.Contract.Rounds.{WorkedThrough, in_turn, process_entitlements_delta_lem}

abbrev service_named : String → Service Bool
service_named name = record {
  name = name;
  title = name;
  is_beta = false;
  static_affordances = [];
  incompatible_services = [];
  required_services = [];
  dependent_services = [];
  messaging = record {
    pre_can_enable = [];
    pre_enable = [];
    post_enable = [];
    pre_disable = [];
    post_disable = [];
  };
  perform_enable = λ silent. pure true;
  perform_disable = λ silent. pure true;
  application_status = λ m. ok (disabled, none);
  check_for_reboot = λ m. ok false;
  after_disable = pure tt;
  process_own_deltas = λ orig_access deltas allow_enable. pure false;
}

abbrev env : Env Bool
env = record {
  service = service_named;
  platform = λ m.
      ok (record {
        arch = "amd64";
        series = "focal";
        version = "20.04";
        kernel = "5.4.0-1-generic";
      });
  utcnow = λ m. 100;
  strptime = λ s. none;
  request_updated_contract = pure tt;
}

abbrev selector : Selector Bool
selector = record { series = λ m. ok "focal"; cloud_type = λ m. ok none }

abbrev machine : Machine Bool
machine = record {
  host = false;
  attached = true;
  config = end;
  entitlements = end;
  cache = end;
  answers = [];
  shown = [];
}

-- The details of fips are no dict.
abbrev entitlements : Fields
entitlements = field "fips" null (
    field "ros"
      (obj (
        field "entitlement" (obj (field "entitled" (bool true) (field "type" (str "ros") end)))
          end))
      end)

enable_order : entitlements_enable_order env 3 ≡ ok entitlement_classes
unfolding entitlements_enable_order sort_entitlements
enable_order = refl

fips_fails :
    (process_entitlements_delta env selector 3 end entitlements true true machine).0.0
    ≡ err (user_facing "UNEXPECTED_ERROR")
unfolding process_entitlements_delta sort_entitlements process_entitlement_delta
    apply_contract_overrides get_dict_deltas find_class valid_names py_eq can_enable
    is_access_expired contract_status
fips_fails = refl

process_entitlements_delta_lem_example :
    WorkedThrough env selector 3 end entitlements true true
      (process_entitlements_delta env selector 3 end entitlements true true machine)
      (in_turn env selector 3 end entitlements true true entitlement_classes machine)
      "fips"
process_entitlements_delta_lem_example =
    process_entitlements_delta_lem env selector 3 end entitlements true true entitlement_classes
      machine "fips" enable_order

expired_contract :
    attach_result (
      contract_api_error 403 (
        cons
          (obj (
            field "info"
              (obj (
                field "contractId"
                  (str "c-1")
                  (field "reason" (str "no-longer-effective") (field "time" (datetime 5) end))))
              end))
          nil))
    ≡ err (user_facing "ATTACH_FORBIDDEN_EXPIRED")
unfolding attach_result
expired_contract = refl
