-- ===== src/EventLogger/Tests.antt =====
-- Runs of the event logger.
use ubuntu_advantage_client.Base.{
  ◌≡◌, refl, none, some, List, [], ◌∷◌, ◌||◌, contains, is_nonempty, if◌then◌else◌,
}
use ubuntu_advantage_client.Exception.{ok}
use ubuntu_advantage_client.Json.{end}
use ubuntu_advantage_client.EventLogger.{
  json, EventLogger, new_logger, Call, error, service_failed, service_processed, perform_all,
  generate_failed_services, result_of, info, line,
}
use ubuntu_advantage_client.EventLogger.History.{any_fails, any_error, failed_services_iff}
use ubuntu_advantage_client.EventLogger.Output.{process_events}
use ubuntu_advantage_client.EventLogger.CommandLine.{Silent, cli-Silent}

abbrev calls : List Call
calls =
    service_processed "ros"
    ∷ service_failed "fips"
    ∷ error "not entitled" none (some "livepatch") none end
    ∷ []

abbrev json_logger : EventLogger
json_logger = record new_logger { event_logger_mode = json }

failed_services :
    generate_failed_services (perform_all calls json_logger) ≡ "fips" ∷ "livepatch" ∷ []
unfolding generate_failed_services perform_all
failed_services = refl

failed_services_iff_example :
    (contains (generate_failed_services (perform_all calls json_logger)) "fips"
      ≡ (contains (generate_failed_services json_logger) "fips" || any_fails calls "fips"))
    × (result_of (perform_all calls json_logger) ≡ (
        if is_nonempty json_logger.error_events || any_error calls then "failure" else "success"))
failed_services_iff_example = failed_services_iff calls json_logger "fips" refl refl

cli-Silent_example :
    Silent new_logger (perform_all calls new_logger)
    × (info "Enabling" (perform_all calls new_logger) ≡ line "Enabling" ∷ [])
    × (process_events [] (perform_all calls new_logger) ≡ ok [])
cli-Silent_example = cli-Silent [] calls new_logger "Enabling" refl refl
