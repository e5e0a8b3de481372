-- ===== src/Entitlement/Tests.antt =====
-- Runs of the services on a small machine, whose state says which services are enabled. The
-- dependencies are those of the classes under uaclient/entitlements.
use mathlib.Core.Path.{subst}
use ubuntu_advantage_client.Base.{
  String, ◌≡◌, ◌↔◌, refl, ap, Bool, true, false, Option, none, some, List, [], ◌∷◌, All, ◌===◌,
  eq_refl, if◌then◌else◌, ◌||◌,
}
use ubuntu_advantage_client.Exception.{Result, ok}
use ubuntu_advantage_client.Json.{Value, bool, str, obj, Fields, end, field}
use ubuntu_advantage_client.Machine.{Machine, Message, named, pure}
use ubuntu_advantage_client.Entitlement.{
  Env, Service, Entitlement, Messaging, Platform, IncompatibleService,
}
use ubuntu_advantage_client.Entitlement.Status.{
  ApplicationStatus, enabled, disabled, CanEnableFailure, CanEnableFailureReason,
}
use ubuntu_advantage_client.Entitlement.Checks.{CanDisable, can_disable, enable_verdict, can_enable}
use ubuntu_advantage_client.Entitlement.Disable.{disable}
use ubuntu_advantage_client.Entitlement.Enable.{enable, handle_incompatible_services}
use ubuntu_advantage_client.Entitlement.Refresh.{Selector, process_entitlement_delta}
use ubuntu_advantage_client.Entitlement.Verdict.{Inactive, MayEnable, enable_verdict_iff}
use ubuntu_advantage_client.Prompt.{handle_message_operations}
use ubuntu_advantage_client.Entitlement.Refusal.{is_resolvable}
use ubuntu_advantage_client.Entitlement.Outcome.{Performed, enable_success, enable_refused}
use ubuntu_advantage_client.Entitlement.Blocking.{
  handle_incompatible_services-true, AskedInTurn, Fails, process_dropped,
}
use ubuntu_advantage_client.Entitlement.Promises.{KeepsPromises}
use ubuntu_advantage_client.Entitlement.Stopping.{can_disable_iff}
use ubuntu_advantage_client.Entitlement.Disabled.{disable_success}

-- which services are enabled
abbrev Enabled : Type 0
Enabled = String → Bool

abbrev with_status : String → Bool → Enabled → Enabled
with_status name b h other = if name === other then b else h other

abbrev required_by : String → List String
required_by name =
    if name === "ros"
    then "esm-infra" ∷ "esm-apps" ∷ []
    else if name === "ros-updates"
    then "esm-infra" ∷ "esm-apps" ∷ "ros" ∷ []
    else []

abbrev dependent_on : String → List String
dependent_on name =
    if name === "ros"
    then "ros-updates" ∷ []
    else if (name === "esm-infra") || (name === "esm-apps")
    then "ros" ∷ "ros-updates" ∷ []
    else []

abbrev incompatible_with : String → List IncompatibleService
incompatible_with name =
    if name === "fips"
    then record { entitlement = "livepatch"; named_msg = named "LIVEPATCH_INVALIDATES_FIPS" [] }
      ∷ []
    else []

abbrev no_operations : Messaging Enabled
no_operations = record {
  pre_can_enable = [];
  pre_enable = [];
  post_enable = [];
  pre_disable = [];
  post_disable = [];
}

abbrev status_in : String → Machine Enabled → Result (ApplicationStatus × Option Message)
status_in name m = ok (if m.host name then enabled else disabled, none)

-- `works` says whether a service can be disabled
abbrev service_named : (String → Bool) → String → Service Enabled
service_named works name = record {
  name = name;
  title = name;
  is_beta = name === "realtime-kernel";
  static_affordances = [];
  incompatible_services = incompatible_with name;
  required_services = required_by name;
  dependent_services = dependent_on name;
  messaging = no_operations;
  perform_enable = λ silent m. (ok true, record m { host = with_status name true m.host });
  perform_disable = λ silent m.
      if works name
      then (ok true, record m { host = with_status name false m.host })
      else (ok false, m);
  application_status = status_in name;
  check_for_reboot = λ m. ok false;
  after_disable = pure tt;
  process_own_deltas = λ orig_access deltas allow_enable. pure false;
}

abbrev env_where : (String → Bool) → Env Enabled
env_where works = record {
  service = service_named works;
  platform = λ m.
      ok (record {
        arch = "amd64";
        series = "focal";
        version = "20.04";
        kernel = "5.4.0-1-generic";
      });
  utcnow = λ m. 100;
  strptime = λ s. none;
  request_updated_contract = pure tt;
}

abbrev env : Env Enabled
env = env_where (λ n. true)

abbrev entitled_cfg : Value
entitled_cfg = obj (field "entitlement" (obj (field "entitled" (bool true) end)) end)

abbrev machine : Enabled → Machine Enabled
machine h = record {
  host = h;
  attached = true;
  config = end;
  entitlements =
      field "esm-infra" entitled_cfg (field "ros" entitled_cfg (field "fips" entitled_cfg end));
  cache = end;
  answers = [];
  shown = [];
}

abbrev instance_in : Env Enabled → String → Bool → Entitlement Enabled
instance_in env name assume_yes = record {
  service = env.service name;
  assume_yes = assume_yes;
  allow_beta = false;
}

-- esm-infra, ros and ros-updates are enabled
abbrev ros_machine : Machine Enabled
ros_machine = machine (λ n. (n === "esm-infra") || (n === "ros") || (n === "ros-updates"))

-- a status that says so, after a service was disabled
abbrev DisabledBy : Bool → Option Message → Type 0
DisabledBy b x =
    Path (Result (ApplicationStatus × Option Message)) (ok (if b then enabled else disabled, none))
      (ok (disabled, x))

off :
    (b c : Bool)
    → ((x : Option Message) × DisabledBy c x)
    → (x : Option Message) × DisabledBy (if b then false else c) x
off true c h = (none, refl)
off false c h = h

env-KeepsPromises : KeepsPromises env
unfolding ubuntu_advantage_client.Prompt.handle_message_operations
env-KeepsPromises = record {
  disables = λ name silent m m' h.
      subst (λ x. Inactive env x name) (ap (λ r. r.1) h) (none, rw eq_refl refl);
  disable_keeps = λ name silent m other h. off (name === other) (m.host other) h;
  before_keeps = λ name m other h. h;
  after_keeps = λ name m other h. h;
  own_keeps = λ name m other h. h;
  console_keeps = λ name m answers shown. refl;
}

abbrev disabled_machine : Machine Enabled
disabled_machine = (disable env 4 (instance_in env "esm-infra" true) false ros_machine).1

disable_success_example :
    Inactive env disabled_machine "esm-infra"
    × All (Inactive env disabled_machine) ("ros" ∷ "ros-updates" ∷ [])
unfolding disable ubuntu_advantage_client.Prompt.handle_message_operations can_disable
    ubuntu_advantage_client.Entitlement.Checks.any_active
    ubuntu_advantage_client.Prompt.prompt_for_confirmation
disable_success_example =
    disable_success env env-KeepsPromises 4 "esm-infra" true false false ros_machine
      disabled_machine none refl

-- ros can be enabled where both of the services that it requires are
abbrev esm_machine : Machine Enabled
esm_machine = machine (λ n. (n === "esm-infra") || (n === "esm-apps"))

enable_verdict_iff_example :
    (enable_verdict env (instance_in env "ros" true) esm_machine ≡ ok (true, none))
    ↔ MayEnable env (instance_in env "ros" true) esm_machine
enable_verdict_iff_example = enable_verdict_iff env (instance_in env "ros" true) esm_machine

ros_verdict : enable_verdict env (instance_in env "ros" true) esm_machine ≡ ok (true, none)
unfolding enable_verdict ubuntu_advantage_client.Entitlement.Contract.contract_status
    ubuntu_advantage_client.Entitlement.Contract.valid_service
    ubuntu_advantage_client.Entitlement.Applicability.applicability_status
    ubuntu_advantage_client.Entitlement.Checks.all_active
ros_verdict = refl

abbrev ros_enabled : Machine Enabled
ros_enabled = (enable env 3 (instance_in env "ros" true) false esm_machine).1

enable_success_example :
    Performed env (instance_in env "ros" true) false ros_enabled
    × Path (Option CanEnableFailure) none none
unfolding enable ubuntu_advantage_client.Prompt.handle_message_operations can_enable
    ubuntu_advantage_client.Entitlement.Contract.is_access_expired
    ubuntu_advantage_client.Entitlement.Contract.contract_status
    ubuntu_advantage_client.Entitlement.Contract.valid_service
    ubuntu_advantage_client.Entitlement.Applicability.applicability_status
    ubuntu_advantage_client.Entitlement.Checks.all_active
enable_success_example =
    enable_success env (instance_in env "ros" true) false 3 esm_machine ros_enabled none refl

-- livepatch is not in the contract
abbrev not_entitled : CanEnableFailure
not_entitled = record {
  reason = CanEnableFailureReason.not_entitled;
  message = some (named "UNENTITLED" (str "livepatch" ∷ []));
}

abbrev livepatch : Entitlement Enabled
livepatch = instance_in env "livepatch" true

livepatch_refused :
    enable env 3 livepatch false esm_machine ≡ (ok (false, some not_entitled), esm_machine)
unfolding enable can_enable handle_message_operations
    ubuntu_advantage_client.Entitlement.Contract.is_access_expired
    ubuntu_advantage_client.Entitlement.Contract.contract_status
livepatch_refused = refl

enable_refused_example :
    (m₁ : Machine Enabled) × (m₂ : Machine Enabled) × (refusal : CanEnableFailure)
    × (handle_message_operations [] esm_machine ≡ (ok true, m₁))
    × (can_enable env livepatch m₁ ≡ (ok (false, some refusal), m₂))
    × (CanEnableFailureReason.not_entitled ≡ refusal.reason)
    × (is_resolvable refusal.reason ≡ false → (not_entitled ≡ refusal) × (esm_machine ≡ m₂))
enable_refused_example =
    enable_refused env livepatch false 3 esm_machine esm_machine not_entitled livepatch_refused

-- a machine on which no service can be disabled
abbrev stuck_env : Env Enabled
stuck_env = env_where (λ n. false)

abbrev livepatch_machine : Machine Enabled
livepatch_machine = machine (λ n. n === "livepatch")

abbrev fips : Entitlement Enabled
fips = instance_in stuck_env "fips" true

abbrev fips_asked : Result (Bool × Option Message) × Machine Enabled
fips_asked = handle_incompatible_services (disable stuck_env 3) stuck_env fips livepatch_machine

-- livepatch cannot be disabled, and the enable of fips goes on
fips_goes_on : fips_asked ≡ (ok (true, none), fips_asked.1)
unfolding handle_incompatible_services disable handle_message_operations can_disable
    ubuntu_advantage_client.Entitlement.Checks.blocking
    ubuntu_advantage_client.Config.is_config_value_true
    ubuntu_advantage_client.Prompt.prompt_for_confirmation
fips_goes_on = refl

handle_incompatible_services-true_example :
    Path (Bool × Option Message) (true, none) (true, none)
    × AskedInTurn stuck_env 3 fips (incompatible_with "fips") livepatch_machine fips_asked.1
unfolding ubuntu_advantage_client.Entitlement.Checks.blocking
    ubuntu_advantage_client.Config.is_config_value_true
handle_incompatible_services-true_example =
    handle_incompatible_services-true stuck_env 3 fips (incompatible_with "fips") livepatch_machine
      fips_asked.1 (true, none) refl refl refl fips_goes_on

abbrev selector : Selector Enabled
selector = record { series = λ m. ok "focal"; cloud_type = λ m. ok none }

abbrev ros_access : Fields
ros_access = field "entitlement" (obj (field "type" (str "ros") end)) end

-- ros is no longer in the contract
process_dropped_example :
    Fails (process_entitlement_delta env selector 3 ros_access end true false) ros_machine
process_dropped_example =
    process_dropped env selector 3 ros_access end (field "type" (str "ros") end) true false
      ros_machine (refl, tt) tt refl refl

-- ros-updates can be disabled: nothing depends on it
can_disable_iff_example :
    (can_disable env (instance_in env "ros-updates" true) false ros_machine ≡ ok (true, none)) ↔ (
      ((x : Option Message) × (status_in "ros-updates" ros_machine ≡ ok (enabled, x)))
      × All (Inactive env ros_machine) [])
can_disable_iff_example = can_disable_iff env (instance_in env "ros-updates" true) ros_machine
