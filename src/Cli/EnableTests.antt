-- ===== src/Cli/EnableTests.antt =====
-- An enable of ros while the contract server cannot be reached.
use ubuntu_advantage_client.Base.{◌≡◌, String, refl, true, false, none, [], ◌∷◌, ◌==◌}
use ubuntu_advantage_client.Exception.{ok, other_error}
use ubuntu_advantage_client.Json.{Value, bool, str, obj, end, field, py_eq}
use ubuntu_advantage_client.Machine.{Machine, pure, raise}
use ubuntu_advantage_client.Lock.{Process, enter}
use ubuntu_advantage_client.Entitlement.{Env, Service}
use ubuntu_advantage_client.Entitlement.Status.{disabled}
use ubuntu_advantage_client.Entitlement.Refresh.{Selector}
use ubuntu_advantage_client.Contract.{ContractClient}
use ubuntu_advantage_client.Config.{is_config_value_true}
use ubuntu_advantage_client.Prompt.{handle_message_operations}
use ubuntu_advantage_client.Registry.{find_class}
use ubuntu_advantage_client.Entitlement.Checks.{can_enable}
use ubuntu_advantage_client.Entitlement.Contract.{
  valid_names, is_access_expired, contract_status, valid_service,
}
use ubuntu_advantage_client.Entitlement.Applicability.{applicability_status}
use ubuntu_advantage_client.Cli.{LockAccess, Commands}
use ubuntu_advantage_client.Cli.Enable.{action_enable}
use ubuntu_advantage_client.Cli.Zero.{AllEnabled, action_enable-zero}

abbrev service_named : String → Service Process
service_named name = record {
  name = name;
  title = name;
  is_beta = false;
  static_affordances = [];
  incompatible_services = [];
  required_services = [];
  dependent_services = [];
  messaging = record {
    pre_can_enable = [];
    pre_enable = [];
    post_enable = [];
    pre_disable = [];
    post_disable = [];
  };
  perform_enable = λ silent. pure true;
  perform_disable = λ silent. pure true;
  application_status = λ m. ok (disabled, none);
  check_for_reboot = λ m. ok false;
  after_disable = pure tt;
  process_own_deltas = λ orig_access deltas allow_enable. pure false;
}

abbrev env : Env Process
env = record {
  service = service_named;
  platform = λ m.
      ok (record {
        arch = "amd64";
        series = "focal";
        version = "20.04";
        kernel = "5.4.0-1-generic";
      });
  utcnow = λ m. 100;
  strptime = λ s. none;
  request_updated_contract = pure tt;
}

abbrev selector : Selector Process
selector = record { series = λ m. ok "focal"; cloud_type = λ m. ok none }

abbrev token : Value
token = obj (
    field "machineToken" (str "token") (
      field "machineTokenInfo" (obj (field "contractInfo" (obj (field "id" (str "c-1") end)) end))
        end))

abbrev client : ContractClient Process
client = record {
  machine_token = λ m. token;
  request_contract_machine_attach = λ token. raise (other_error "UrlError");
  request_machine_token_update = λ token id. raise (other_error "UrlError");
}

abbrev commands : Commands Process
commands = record {
  log = λ call. pure tt;
  process_events = pure tt;
  update_status = pure tt;
  delete_cache = pure tt;
  delete_machine_token = pure tt;
  update_apt_and_motd_messages = pure tt;
  start_daemon = pure tt;
}

abbrev access : LockAccess Process
access = record {
  running = λ m pid. pid == 7;
  process_of = λ m. m.host;
  with_process = λ p m. record m { host = p };
}

abbrev machine : Machine Process
machine = record {
  host = record {
    pid = 7;
    is_root = true;
    clear_lock_file = false;
    dir = record { lock_file = none; in_progress = [] };
  };
  attached = true;
  config = end;
  entitlements =
      field "ros" (obj (field "entitlement" (obj (field "entitled" (bool true) end)) end)) end;
  cache = end;
  answers = [];
  shown = [];
}

ends_with_0 :
    (action_enable env selector 3 client commands access none true false ("ros" ∷ []) machine).0
    ≡ ok 0
unfolding action_enable enter py_eq is_config_value_true valid_names find_class
    handle_message_operations can_enable is_access_expired contract_status valid_service
    applicability_status
ends_with_0 = refl

action_enable-zero_example :
    ((enter (access.running machine) "pro enable" (access.process_of machine)).0 ≡ ok tt)
    × AllEnabled env selector 3 client commands true false ("ros" ∷ []) (
        access.with_process
          (enter (access.running machine) "pro enable" (access.process_of machine)).1
          machine)
action_enable-zero_example =
    action_enable-zero env selector 3 client commands access none true false ("ros" ∷ []) machine
      ends_with_0
