-- ===== src/EventLogger.antt =====
-- The event logger: what a command reports of its errors and services (uaclient/event_logger.py).
mod Tests
pub mod History
pub mod Output
pub mod CommandLine
use ubuntu_advantage_client.Base.{
  String, Bool, true, false, Option, none, some, List, [], ◌∷◌, ◌++◌, ◌===◌, ◌||◌, not,
  if◌then◌else◌, is_nonempty, contains, map,
}
use ubuntu_advantage_client.Base.Int.{pos}
use ubuntu_advantage_client.Exception.{Result, ok, err, ◌>>=◌}
use ubuntu_advantage_client.Json.{
  Value, null, bool, str, arr, obj, Items, nil, cons, Fields, end, field, get, put, remove,
  get_attr, truthy, py_eq,
}
use ubuntu_advantage_client.Dict.{sort_by}

pub data EventLoggerMode : Type 0 where
  cli json yaml : EventLoggerMode

abbrev pub is_cli : EventLoggerMode → Bool
is_cli cli = true
is_cli _ = false

-- An entry of `_error_events` or `_warning_events`.
pub record Event : Type 0 where
  pub event_type : String
  pub service : Option String
  pub message : String
  pub message_code : Option String
  pub additional_info : Fields

-- What is printed: a line, or a document in one of the formats.
pub data Printed : Type 0 where
  line : String → Printed
  json_document yaml_document : Value → Printed

-- The sets hold no name twice.
pub record EventLogger : Type 0 where
  pub error_events : List Event
  pub warning_events : List Event
  pub processed_services : List String
  pub failed_services : List String
  pub reboot : Bool
  pub command : String
  pub output_content : Fields
  pub event_logger_mode : EventLoggerMode

abbrev pub new_logger : EventLogger
new_logger = record {
  error_events = [];
  warning_events = [];
  processed_services = [];
  failed_services = [];
  reboot = false;
  command = "";
  output_content = end;
  event_logger_mode = cli;
}

-- set.add
abbrev pub add : String → List String → List String
add x set = if contains set x then set else set ++ x ∷ []

-- set.update
abbrev pub add_all : List String → List String → List String
add_all [] set = set
add_all (x ∷ xs) set = add_all xs (add x set)

-- `"service" if service else "system"`
abbrev pub default_type : Option String → String
default_type none = "system"
default_type (some service) = if service === "" then "system" else "service"

abbrev pub type_or : Option String → Option String → String
type_or none service = default_type service
type_or (some event_type) service = event_type

abbrev pub event_entry : String → Option String → Option String → Option String → Fields → Event
event_entry msg service code event_type additional_info = record {
  event_type = type_or event_type service;
  service = service;
  message = msg;
  message_code = code;
  additional_info = additional_info;
}

-- The methods that change the logger.
pub data Call : Type 0 where
  reset : Call
  set_event_mode : EventLoggerMode → Call
  set_command : String → Call
  set_output_content : Fields → Call
  error : String → Option String → Option String → Option String → Fields → Call
  warning : String → Option String → Call
  service_processed service_failed : String → Call
  services_failed : List String → Call
  needs_reboot : Bool → Call

unfoldable pub perform : Call → EventLogger → EventLogger
perform reset e = new_logger
perform (set_event_mode mode) e = record e { event_logger_mode = mode }
perform (set_command command) e = record e { command = command }
perform (set_output_content content) e = record e { output_content = content }
perform (error msg code service error_type additional_info) e =
    if not (is_cli e.event_logger_mode)
    then record e {
      error_events = e.error_events ++ event_entry msg service code error_type additional_info ∷ [];
    }
    else e
perform (warning msg service) e =
    if not (is_cli e.event_logger_mode)
    then record e {
      warning_events = e.warning_events ++ event_entry msg service none none end ∷ [];
    }
    else e
perform (service_processed service) e = record e {
  processed_services = add service e.processed_services;
}
perform (service_failed service) e = record e { failed_services = add service e.failed_services }
perform (services_failed services) e = record e {
  failed_services = add_all services e.failed_services;
}
perform (needs_reboot required) e = record e { reboot = required }

unfoldable pub perform_all : List Call → EventLogger → EventLogger
unfolding perform
perform_all [] e = e
perform_all (c ∷ cs) e = perform_all cs (perform c e)

unfoldable pub info : String → EventLogger → List Printed
info msg e = if is_cli e.event_logger_mode then line msg ∷ [] else []

abbrev pub with_service : Option String → List String → List String
with_service none set = set
with_service (some service) set = if service === "" then set else add service set

-- the services of the errors, in the set that is given
abbrev pub with_errors : List Event → List String → List String
with_errors [] set = set
with_errors (e ∷ es) set = with_errors es (with_service e.service set)

unfoldable pub generate_failed_services : EventLogger → List String
generate_failed_services e = with_errors e.error_events e.failed_services

abbrev pub or_null : Option String → Value
or_null none = null
or_null (some s) = str s

abbrev pub event_value : Event → Value
event_value e =
    let entry = field "type" (str e.event_type) (
      field "service" (or_null e.service)
        (field "message" (str e.message) (field "message_code" (or_null e.message_code) end))) in
    obj (
      if truthy (obj e.additional_info)
      then put "additional_info" (obj e.additional_info) entry
      else entry)

abbrev pub event_values : List Event → Items
event_values [] = nil
event_values (e ∷ es) = cons (event_value e) (event_values es)

abbrev pub text_values : List String → Items
text_values [] = nil
text_values (s ∷ ss) = cons (str s) (text_values ss)

abbrev pub result_of : EventLogger → String
result_of e = if not (is_nonempty e.error_events) then "success" else "failure"

unfoldable pub process_events_services : EventLogger → List Printed
unfolding generate_failed_services sort_by
process_events_services e =
    json_document (
      obj (
        field "_schema_version" (str "0.1") (
          field "result" (str (result_of e)) (
            field "processed_services" (arr (text_values (sort_by (λ s. s) e.processed_services))) (
              field "failed_services"
                (arr (text_values (sort_by (λ s. s) (generate_failed_services e))))
                (field "errors" (arr (event_values e.error_events)) (
                  field "warnings" (arr (event_values e.warning_events))
                    (field "needs_reboot" (bool e.reboot) end))))))))
    ∷ []
