-- ===== src/EventLogger/CommandLine.antt =====
-- The event logger in the mode of the command line.
use ubuntu_advantage_client.Base.{
  String, ◌≡◌, refl, ◌∙◌, sym, ap, inl, inr, Bool-cases, true, false, List, [], ◌∷◌,
}
use ubuntu_advantage_client.Exception.{ok}
use ubuntu_advantage_client.EventLogger.{
  is_cli, EventLogger, Call, reset, set_event_mode, set_command, set_output_content, error, warning,
  service_processed, service_failed, services_failed, needs_reboot, perform, perform_all, line,
  info,
}
use ubuntu_advantage_client.EventLogger.History.{keeps_mode, keep_mode}
use ubuntu_advantage_client.EventLogger.Output.{process_events}

-- In the mode of the command line, with the same events as before.
abbrev pub Silent : EventLogger → EventLogger → Type 0
Silent e e' =
    (is_cli e'.event_logger_mode ≡ true)
    × (e'.error_events ≡ e.error_events)
    × (e'.warning_events ≡ e.warning_events)

perform-Silent :
    (c : Call) (e : EventLogger)
    → is_cli e.event_logger_mode ≡ true
    → keeps_mode c ≡ true
    → Silent e (perform c e)
unfolding perform
perform-Silent reset e mode h = cc h
perform-Silent (set_event_mode m) e mode h = cc h
perform-Silent (set_command command) e mode h = (mode, refl, refl)
perform-Silent (set_output_content content) e mode h = (mode, refl, refl)
perform-Silent (error msg code service error_type info) e mode h = rw mode (mode, refl, refl)
perform-Silent (warning msg service) e mode h = rw mode (mode, refl, refl)
perform-Silent (service_processed service) e mode h = (mode, refl, refl)
perform-Silent (service_failed service) e mode h = (mode, refl, refl)
perform-Silent (services_failed services) e mode h = (mode, refl, refl)
perform-Silent (needs_reboot b) e mode h = (mode, refl, refl)

perform_all-Silent :
    (cs : List Call) (e : EventLogger)
    → is_cli e.event_logger_mode ≡ true
    → keep_mode cs ≡ true
    → Silent e (perform_all cs e)
unfolding perform_all
perform_all-Silent [] e mode h = (mode, refl, refl)
perform_all-Silent (c ∷ cs) e mode h = elim (Bool-cases (keeps_mode c)) [
  | inr b ↦ cc (b, h)
  | inl b ↦
      let (mode₁, errors₁, warnings₁) = perform-Silent c e mode b in
      let (mode₂, errors₂, warnings₂) =
        perform_all-Silent cs (perform c e) mode₁
          (sym (ap (λ t. elim t [ true ↦ keep_mode cs | false ↦ false ]) b) ∙ h) in
      (mode₂, errors₂ ∙ errors₁, warnings₂ ∙ warnings₁)
]

-- In the mode of the command line, after calls that neither reset the logger nor change the mode,
-- no error and no warning has been stored, a message is printed at once, and nothing is printed at
-- the end.
pub cli-Silent :
    (pro_environment : List (String × String)) (cs : List Call) (e : EventLogger) (msg : String)
    → is_cli e.event_logger_mode ≡ true
    → keep_mode cs ≡ true
    → Silent e (perform_all cs e)
      × (info msg (perform_all cs e) ≡ line msg ∷ [])
      × (process_events pro_environment (perform_all cs e) ≡ ok [])
unfolding info process_events
cli-Silent pro_environment cs e msg mode h =
    let silent = perform_all-Silent cs e mode h in (silent, rw silent.0 refl, rw silent.0 refl)
