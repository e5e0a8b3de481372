-- ===== src/Entitlement.antt =====
-- `UAEntitlement` (uaclient/entitlements/base.py): the base class of the services. What a subclass
-- defines is a `Service`; what the class takes from other modules is an `Env`.
pub mod Status
pub mod Kernel
pub mod Contract
pub mod Applicability
pub mod Checks
pub mod Disable
pub mod Enable
pub mod Refresh
pub mod Verdict
mod Refusal
pub mod Outcome
pub mod Blocking
pub mod Stopping
pub mod Promises
pub mod Dependents
pub mod Resolved
pub mod Disabled
mod Tests
use ubuntu_advantage_client.Base.{
  ℕ, String, Bool, Option, List, [], ◌∷◌, ◌===◌, if◌then◌else◌, not, ◌||◌,
}
use ubuntu_advantage_client.Exception.{Result}
use ubuntu_advantage_client.Json.{Fields}
use ubuntu_advantage_client.Machine.{Message, Machine, Action}
use ubuntu_advantage_client.Prompt.{MessageOperation}
use ubuntu_advantage_client.Entitlement.Status.{ApplicationStatus}

-- `IncompatibleService`: the class is named by its `name`
pub record IncompatibleService : Type 0 where
  pub entitlement : String
  pub named_msg : Message

-- `StaticAffordance` (uaclient/types.py)
pub record StaticAffordance (H : Type 0) : Type 0 where
  pub error_message : Message
  pub functor : Machine H → Result Bool
  pub expected_result : Bool

-- `MessagingOperationsDict`, by its keys
pub record Messaging (H : Type 0) : Type 0 where
  pub pre_can_enable : List (MessageOperation H)
  pub pre_enable : List (MessageOperation H)
  pub post_enable : List (MessageOperation H)
  pub pre_disable : List (MessageOperation H)
  pub post_disable : List (MessageOperation H)

-- A class that extends `UAEntitlement`: its attributes and the methods that are abstract in the
-- base class. Other classes are named by their `name`.
pub record Service (H : Type 0) : Type 0 where
  pub name : String
  pub title : String
  pub is_beta : Bool
  pub static_affordances : List (StaticAffordance H)
  pub incompatible_services : List IncompatibleService
  pub required_services : List String
  pub dependent_services : List String
  pub messaging : Messaging H
  pub perform_enable : Bool → Action H Bool
  pub perform_disable : Bool → Action H Bool
  -- it asks the system and changes nothing
  pub application_status : Machine H → Result (ApplicationStatus × Option Message)
  pub check_for_reboot : Machine H → Result Bool
  -- what the class's own `disable` does after one of the base class that reports success
  pub after_disable : Action H (Unit {0})
  -- the class's own `process_contract_deltas`, where that of the base class returns False
  pub process_own_deltas : Fields → Fields → Bool → Action H Bool

-- `system.get_platform_info()`, as far as it is used here
pub record Platform : Type 0 where
  pub arch : String
  pub series : String
  pub version : String
  pub kernel : String

-- What the base class calls in other modules, and the classes by name. `strptime` reads a time in
-- the format of `expires`; `none` is its `ValueError`.
pub record Env (H : Type 0) : Type 0 where
  pub service : String → Service H
  pub platform : Machine H → Result Platform
  pub utcnow : Machine H → ℕ
  pub strptime : String → Option ℕ
  pub request_updated_contract : Action H (Unit {0})

-- An instance of a class.
pub record Entitlement (H : Type 0) : Type 0 where
  pub service : Service H
  pub open service use *
  pub assume_yes : Bool
  pub allow_beta : Bool
