-- ===== src/EventLogger/History.antt =====
-- What the calls of a command leave in the event logger.
use ubuntu_advantage_client.Base.{
  String, ◌≡◌, refl, ◌∙◌, sym, ap, inl, inr, Bool, Bool-cases, true, false, Option, none, some,
  List, [], ◌∷◌, ◌++◌, ◌===◌, eq_iff, ◌&&◌, ◌||◌, not, if◌then◌else◌, is_nonempty, contains,
  contains-append, arith,
}
use ubuntu_advantage_client.EventLogger.{
  is_cli, Event, EventLogger, add, add_all, event_entry, Call, reset, set_event_mode, set_command,
  set_output_content, error, warning, service_processed, service_failed, services_failed,
  needs_reboot, perform, perform_all, with_service, with_errors, generate_failed_services,
  result_of,
}

-- a call that neither resets the logger nor changes its mode
abbrev pub keeps_mode : Call → Bool
keeps_mode reset = false
keeps_mode (set_event_mode mode) = false
keeps_mode _ = true

abbrev pub keep_mode : List Call → Bool
keep_mode [] = true
keep_mode (c ∷ cs) = elim (keeps_mode c) [ true ↦ keep_mode cs | false ↦ false ]

abbrev pub is_error : Call → Bool
is_error (error _ _ _ _ _) = true
is_error _ = false

abbrev pub names : Option String → String → Bool
names none x = false
names (some service) x = not (service === "") && service === x

-- A call that says that a service has failed: as such, or by an error of it.
abbrev pub fails : Call → String → Bool
fails (error msg code service error_type additional_info) x = names service x
fails (service_failed service) x = service === x
fails (services_failed services) x = contains services x
fails _ x = false

abbrev pub any_fails : List Call → String → Bool
any_fails [] x = false
any_fails (c ∷ cs) x = fails c x || any_fails cs x

abbrev pub any_error : List Call → Bool
any_error [] = false
any_error (c ∷ cs) = is_error c || any_error cs

contains-add :
    (x y : String) (set : List String) → contains (add x set) y ≡ (contains set y || x === y)
contains-add x y set = ground (arith, contains-append set (x ∷ []) y, eq_iff x y)

contains-add_all :
    (xs set : List String) (y : String)
    → contains (add_all xs set) y ≡ (contains set y || contains xs y)
contains-add_all [] set y = ground arith
contains-add_all (x ∷ xs) set y =
    ground (arith, contains-add_all xs (add x set) y, contains-add x y set)

abbrev any_names : List Event → String → Bool
any_names [] x = false
any_names (e ∷ es) x = names e.service x || any_names es x

any_names-append :
    (es fs : List Event) (x : String) → any_names (es ++ fs) x ≡ (any_names es x || any_names fs x)
any_names-append [] fs x = refl
any_names-append (e ∷ es) fs x = ground (arith, any_names-append es fs x)

contains-with_service :
    (service : Option String) (set : List String) (x : String)
    → contains (with_service service set) x ≡ (contains set x || names service x)
contains-with_service none set x = ground arith
contains-with_service (some service) set x = ground (arith, contains-add service x set)

contains-with_errors :
    (es : List Event) (set : List String) (x : String)
    → contains (with_errors es set) x ≡ (contains set x || any_names es x)
contains-with_errors [] set x = ground arith
contains-with_errors (e ∷ es) set x = ground (
  arith,
  contains-with_errors es (with_service e.service set) x,
  contains-with_service e.service set x,
)

is_nonempty-append : {A : Type 0} (xs : List A) (x : A) → is_nonempty (xs ++ x ∷ []) ≡ true
is_nonempty-append [] x = refl
is_nonempty-append (y ∷ xs) x = refl

abbrev failed : EventLogger → String → Bool
failed e x = contains e.failed_services x || any_names e.error_events x

-- what one call leaves, outside the command line's mode
abbrev Step : EventLogger → Call → String → Type 0
Step e c x =
    (is_cli (perform c e).event_logger_mode ≡ false)
    × (failed (perform c e) x ≡ (failed e x || fails c x))
    × (is_nonempty (perform c e).error_events ≡ (is_nonempty e.error_events || is_error c))

perform-Step :
    (c : Call) (e : EventLogger) (x : String)
    → is_cli e.event_logger_mode ≡ false
    → keeps_mode c ≡ true
    → Step e c x
unfolding perform
perform-Step reset e x mode h = cc h
perform-Step (set_event_mode m) e x mode h = cc h
perform-Step (set_command command) e x mode h = (mode, ground arith, ground arith)
perform-Step (set_output_content content) e x mode h = (mode, ground arith, ground arith)
perform-Step (error msg code service error_type info) e x mode h =
    let entry = event_entry msg service code error_type info in
    rw mode (
      mode,
      ground (arith, any_names-append e.error_events (entry ∷ []) x),
      ground (arith, is_nonempty-append e.error_events entry),
    )
perform-Step (warning msg service) e x mode h = rw mode (mode, ground arith, ground arith)
perform-Step (service_processed service) e x mode h = (mode, ground arith, ground arith)
perform-Step (service_failed service) e x mode h =
    (mode, ground (arith, contains-add service x e.failed_services), ground arith)
perform-Step (services_failed services) e x mode h =
    (mode, ground (arith, contains-add_all services e.failed_services x), ground arith)
perform-Step (needs_reboot b) e x mode h = (mode, ground arith, ground arith)

perform_all-Step :
    (cs : List Call) (e : EventLogger) (x : String)
    → is_cli e.event_logger_mode ≡ false
    → keep_mode cs ≡ true
    → (failed (perform_all cs e) x ≡ (failed e x || any_fails cs x))
      × (is_nonempty (perform_all cs e).error_events ≡ (is_nonempty e.error_events || any_error cs))
unfolding perform_all
perform_all-Step [] e x mode h = (ground arith, ground arith)
perform_all-Step (c ∷ cs) e x mode h = elim (Bool-cases (keeps_mode c)) [
  | inr b ↦ cc (b, h)
  | inl b ↦
      let (mode₁, all₁, any₁) = perform-Step c e x mode b in
      let (all₂, any₂) =
        perform_all-Step cs (perform c e) x mode₁
          (sym (ap (λ t. elim t [ true ↦ keep_mode cs | false ↦ false ]) b) ∙ h) in
      (ground (arith, all₁, all₂), ground (arith, any₁, any₂))
]

-- Outside the mode of the command line, after calls that neither reset the logger nor change the
-- mode: a service is reported as failed exactly when it was so before or one of the calls says so,
-- as a failed service or by an error of it, and the result is a success exactly when it was so
-- before and none of the calls was an error.
pub failed_services_iff :
    (cs : List Call) (e : EventLogger) (x : String)
    → is_cli e.event_logger_mode ≡ false
    → keep_mode cs ≡ true
    → (contains (generate_failed_services (perform_all cs e)) x
        ≡ (contains (generate_failed_services e) x || any_fails cs x))
      × (result_of (perform_all cs e)
          ≡ (if is_nonempty e.error_events || any_error cs then "failure" else "success"))
unfolding generate_failed_services
failed_services_iff cs e x mode h =
    let (services, errors) = perform_all-Step cs e x mode h in
    let after = perform_all cs e in
    (
      ground (
        arith,
        services,
        contains-with_errors after.error_events after.failed_services x,
        contains-with_errors e.error_events e.failed_services x,
      ),
      ground (arith, errors),
    )
