-- ===== src/EventLogger/Output.antt =====
-- What is printed at the end of a command (uaclient/event_logger.py).
use ubuntu_advantage_client.Base.{String, false, List, [], ◌∷◌, ◌===◌, not, if◌then◌else◌}
use ubuntu_advantage_client.Exception.{Result, ok, err, attribute_error, type_error, ◌>>=◌}
use ubuntu_advantage_client.Json.{
  Value, str, arr, obj, Items, nil, cons, Fields, end, field, get, put, remove, get_attr, truthy,
  py_eq, value_or, bool,
}
use ubuntu_advantage_client.Dict.{sort_by}
use ubuntu_advantage_client.EventLogger.{
  EventLoggerMode, cli, json, yaml, is_cli, EventLogger, Printed, json_document, yaml_document,
  event_values, result_of, process_events_services,
}

abbrev pub environment_values : List (String × String) → Items
environment_values [] = nil
environment_values ((name, value) ∷ vars) =
    cons (obj (field "name" (str name) (field "value" (str value) end))) (environment_values vars)

-- the services of a status that are available
unfoldable pub available_services : Items → Result Items
available_services nil = ok nil
available_services (cons service services) =
    get_attr "available" (str "yes") service >>= λ available.
    available_services services >>= λ rest.
    ok (if py_eq available (str "yes") then cons service rest else rest)

-- `for service in services` of what is no list: only the keys of an empty dict do not fail.
abbrev pub items_of : Value → Result Items
items_of (arr xs) = ok xs
items_of (obj end) = ok nil
items_of (obj (field k v fs)) = err attribute_error
items_of (str s) = if s === "" then ok nil else err attribute_error
items_of _ = err type_error

-- `get_pro_environment().items()` is a parameter.
module _ (pro_environment : List (String × String)) where
  abbrev pub with_environment : Fields → Fields
  with_environment status =
      put "environment_vars" (arr (environment_values (sort_by (λ v. v.0) pro_environment))) status

  abbrev pub with_available : Fields → Result Fields
  with_available status =
      if truthy (value_or (bool false) (get "simulated" status))
      then ok status
      else (items_of (value_or (arr nil) (get "services" status)) >>= λ services.
          available_services services >>= λ available. ok (put "services" (arr available) status))

  unfoldable pub format_machine_readable_output : Fields → Result Fields
  unfolding available_services sort_by
  format_machine_readable_output status =
      with_available (with_environment status) >>= λ output. ok (remove "origin" output)

  abbrev pub with_events : EventLogger → Fields → Value
  with_events e output = obj (
      put "warnings" (arr (event_values e.warning_events)) (
        put "errors" (arr (event_values e.error_events)) (put "result" (str (result_of e)) output)))

  abbrev pub in_format : EventLoggerMode → Value → List Printed
  in_format json output = json_document output ∷ []
  in_format yaml output = yaml_document output ∷ []
  in_format cli output = []

  unfoldable pub process_events_status : EventLogger → Result (List Printed)
  unfolding format_machine_readable_output
  process_events_status e = format_machine_readable_output e.output_content >>= λ output.
      ok (in_format e.event_logger_mode (with_events e output))

  unfoldable pub process_events : EventLogger → Result (List Printed)
  unfolding process_events_status process_events_services
  process_events e =
      if not (is_cli e.event_logger_mode)
      then (if e.command === "status"
          then process_events_status e
          else ok (process_events_services e))
      else ok []
