-- ===== src/Cli.antt =====
-- The command line (uaclient/cli.py): the guards of the commands, `_perform_disable`,
-- `action_disable` and `_detach`; `action_enable` is in Cli.Enable.
pub mod Released
pub mod Enable
mod InTurn
mod Found
pub mod Zero
mod Tests
mod EnableTests
use ubuntu_advantage_client.Base.{
  ℕ, String, Bool, true, false, Option, none, some, List, [], ◌∷◌, ◌++◌, ◌===◌, ◌==◌, ◌&&◌,
  contains, not, if◌then◌else◌, is_nonempty,
}
use ubuntu_advantage_client.Exception.{
  Exception, Result, ok, err, user_facing, other_error, entitlement_not_found,
}
use ubuntu_advantage_client.Json.{Value, str, end}
use ubuntu_advantage_client.Machine.{
  Machine, Message, named, Action, pure, raise, reads, info, when, ◌>>=◌, ◌>>◌,
}
use ubuntu_advantage_client.Prompt.{prompt_for_confirmation}
use ubuntu_advantage_client.Lock.{Process, enter, exit}
use ubuntu_advantage_client.EventLogger.{Call, error, service_failed, service_processed}
use ubuntu_advantage_client.Entitlement.{Env, Entitlement, Service}
use ubuntu_advantage_client.Entitlement.Status.{CanDisableFailure}
use ubuntu_advantage_client.Entitlement.Checks.{can_disable}
use ubuntu_advantage_client.Entitlement.Disable.{disable}
use ubuntu_advantage_client.Registry.{
  entitlement_factory, entitlements_disable_order, valid_services, has_value,
}
use ubuntu_advantage_client.Dict.{sort_by}
use ubuntu_advantage_client.Contract.{name_of}

-- The arguments that the guards look at.
pub record Args : Type 0 where
  pub format : String
  pub assume_yes : Bool

-- The lock of this process, as a part of the machine, with which processes run.
pub record LockAccess (H : Type 0) : Type 0 where
  pub running : Machine H → ℕ → Bool
  pub process_of : Machine H → Process
  pub with_process : Process → Machine H → Machine H

module _ {H A : Type 0} where
  -- verify_json_format_args; `none` is an empty `cmd_args`
  abbrev pub verify_json_format_args : Option Args → Action H A → Action H A
  verify_json_format_args none f = f
  verify_json_format_args (some args) f =
      if (args.format === "json") && not args.assume_yes
      then raise (user_facing "JSON_FORMAT_REQUIRE_ASSUME_YES")
      else f

  abbrev pub assert_root : LockAccess H → Action H A → Action H A
  assert_root access f m =
      (if not (access.process_of m).is_root then raise (other_error "NonRootUserError") else f) m

  abbrev pub assert_attached : Action H A → Action H A
  assert_attached f m = (if not m.attached then raise (other_error "UnattachedError") else f) m

  abbrev pub assert_not_attached : Action H A → Action H A
  assert_not_attached f m = (if m.attached then raise (other_error "AlreadyAttachedError") else f) m

  -- `__exit__`, which also runs where the command raises
  abbrev pub unlock : LockAccess H → Result A × Machine H → Result A × Machine H
  unlock access (r, m) = (r, access.with_process (exit (access.running m) (access.process_of m)) m)

  abbrev pub run_locked :
      LockAccess H → Action H A → Machine H → Result (Unit {0}) × Process → Result A × Machine H
  run_locked access f m (err e, p) = (err e, access.with_process p m)
  run_locked access f m (ok _, p) = unlock access (f (access.with_process p m))

  unfoldable pub assert_lock_file : LockAccess H → String → Action H A → Action H A
  assert_lock_file access lock_holder f m =
      run_locked access f m (enter (access.running m) lock_holder (access.process_of m))

  -- the guards of enable, disable and detach
  unfoldable pub guarded : LockAccess H → Option Args → String → Action H A → Action H A
  unfolding assert_lock_file
  guarded access args lock_holder f =
      verify_json_format_args args
        (assert_root access (assert_attached (assert_lock_file access lock_holder f)))

-- set(names)
abbrev pub unique : List String → List String
unique [] = []
unique (x ∷ xs) = let rest = unique xs in if contains rest x then rest else x ∷ rest

-- What the commands call elsewhere: the event logger, the status cache, the caches, the token and
-- the messages of apt and motd.
pub record Commands (H : Type 0) : Type 0 where
  pub log : Call → Action H (Unit {0})
  pub process_events : Action H (Unit {0})
  pub update_status : Action H (Unit {0})
  pub delete_cache : Action H (Unit {0})
  pub delete_machine_token : Action H (Unit {0})
  pub update_apt_and_motd_messages : Action H (Unit {0})
  pub start_daemon : Action H (Unit {0})

module _ {H : Type 0} (env : Env H) (depth : ℕ) (commands : Commands H) where
  abbrev pub report_message : String → Option Message → Action H (Unit {0})
  report_message name none = pure tt
  report_message name (some msg) =
      info msg >> commands.log (error (name_of msg) (some (name_of msg)) (some name) none end)

  abbrev pub report_failure : String → Option CanDisableFailure → Action H (Unit {0})
  report_failure name none = pure tt
  report_failure name (some fail) = report_message name fail.message

  unfoldable pub perform_disable : Entitlement H → Bool → Action H Bool
  perform_disable e update_status = disable env depth e false >>= λ (ret, reason).
      ((if not ret
          then (commands.log (service_failed e.name) >> report_failure e.name reason)
          else commands.log (service_processed e.name))
        >> when update_status commands.update_status
        >> pure ret)

  abbrev pub instance : Service H → Bool → Entitlement H
  instance service assume_yes = record {
    service = service;
    assume_yes = assume_yes;
    allow_beta = false;
  }

  abbrev pub can_be_disabled : Service H → Bool → Machine H → Result Bool
  can_be_disabled service assume_yes m =
      elim (can_disable env (instance service assume_yes) true m) [
        | err e ↦ err e
        | ok (ret, _) ↦ ok ret
      ]

  -- `none` for a name without a class, and for a service that cannot be disabled
  abbrev pub to_disable_of : Bool → Result (Service H) → Machine H → Result (Option (Entitlement H))
  to_disable_of assume_yes (err entitlement_not_found) m = ok none
  to_disable_of assume_yes (err e) m = err e
  to_disable_of assume_yes (ok service) m = elim (can_be_disabled service assume_yes m) [
    | err e ↦ err e
    | ok ret ↦ ok (if ret then some (instance service assume_yes) else none)
  ]

  abbrev pub add_some : Option (Entitlement H) → List (Entitlement H) → List (Entitlement H)
  add_some none es = es
  add_some (some e) es = e ∷ es

  -- the services that a detach disables, in the order in which services are disabled
  unfoldable pub to_disable : Bool → List String → Action H (List (Entitlement H))
  to_disable assume_yes [] = pure []
  to_disable assume_yes (name ∷ names) =
      reads (λ m. to_disable_of assume_yes (entitlement_factory env (str name) m) m) >>= λ found.
      to_disable assume_yes names >>= λ rest. pure (add_some found rest)

  unfoldable pub list_services : List (Entitlement H) → Action H (Unit {0})
  list_services [] = pure tt
  list_services (e ∷ es) = info (named "    {}" (str e.name ∷ [])) >> list_services es

  -- What `_perform_disable` returns is not looked at.
  unfoldable pub disable_all : List (Entitlement H) → Action H (Unit {0})
  unfolding perform_disable
  disable_all [] = pure tt
  disable_all (e ∷ es) = perform_disable e false >> disable_all es

  abbrev pub finish_detach : List (Entitlement H) → Bool → Action H ℕ
  finish_detach es confirmed =
      if not confirmed
      then pure 1
      else (disable_all es
          >> commands.delete_cache
          >> commands.delete_machine_token
          >> commands.update_apt_and_motd_messages
          >> info (named "DETACH_SUCCESS" [])
          >> pure 0)

  unfoldable pub detach : Bool → Action H ℕ
  unfolding to_disable list_services disable_all entitlements_disable_order
  detach assume_yes = reads (λ m. entitlements_disable_order env depth) >>= λ names.
      to_disable assume_yes names >>= λ es.
      (when (is_nonempty es)
          (info (named "Detach will disable the following service{}:" []) >> list_services es)
        >> prompt_for_confirmation assume_yes false
        >>= finish_detach es)

  unfoldable pub action_detach : LockAccess H → Option Args → Bool → Action H ℕ
  unfolding guarded detach
  action_detach access args assume_yes = guarded access args "pro detach" (
      detach assume_yes >>= λ ret.
      (when (ret == 0) commands.start_daemon >> commands.process_events >> pure ret))

  -- get_valid_entitlement_names: the names that are found, with repetitions, and those that are not
  abbrev pub split_names : List String → List Value → List String × List String
  split_names [] valid = ([], [])
  split_names (name ∷ names) valid =
      let (found, others) = split_names names valid in
      if has_value (str name) valid then (name ∷ found, others) else (found, name ∷ others)

  -- the set of the names, sorted; without names, the valid services are not asked for
  unfoldable pub get_valid_entitlement_names :
      List String → Machine H → Result (List String × List String)
  unfolding valid_services sort_by
  get_valid_entitlement_names [] m = ok ([], [])
  get_valid_entitlement_names (name ∷ names) m = elim (valid_services env true true m) [
    | err e ↦ err e
    | ok valid ↦
        let (found, others) = split_names (name ∷ names) valid in
        ok (found, sort_by (λ s. s) (unique others))
  ]

  unfoldable pub disable_named : Bool → List String → Action H Bool
  unfolding perform_disable
  disable_named assume_yes [] = pure true
  disable_named assume_yes (name ∷ names) =
      reads (entitlement_factory env (str name)) >>= λ service.
      perform_disable (instance service assume_yes) true >>= λ ret.
      disable_named assume_yes names >>= λ rest. pure (ret && rest)

  abbrev pub finish_disable : List String → Bool → Action H ℕ
  finish_disable not_found ret =
      if is_nonempty not_found
      then (reads (valid_services env true false)
          >> raise (other_error "InvalidServiceToDisableError"))
      else (commands.process_events >> pure (if ret then 0 else 1))

  unfoldable pub action_disable : LockAccess H → Option Args → Bool → List String → Action H ℕ
  unfolding guarded get_valid_entitlement_names disable_named
  action_disable access args assume_yes names = guarded access args "pro disable" (
      reads (get_valid_entitlement_names names) >>= λ (found, not_found).
      disable_named assume_yes found >>= finish_disable not_found)
