-- ===== src/Entitlement/Disable.antt =====
-- `disable` and the services that depend on the one disabled (uaclient/entitlements/base.py).
-- Services disable one another, so the code is written over the call of `disable` on another
-- service, and closed with a bound on the depth of these calls, at which Python's own limit on
-- recursion stands. The prompt's text is the argument of `input` and is no part of the model.
use ubuntu_advantage_client.Base.{
  ℕ, zero, suc, String, Bool, true, false, Option, none, some, List, [], ◌∷◌, if◌then◌else◌, not,
  ◌&&◌,
}
use ubuntu_advantage_client.Exception.{recursion_error}
use ubuntu_advantage_client.Json.{str}
use ubuntu_advantage_client.Machine.{
  Message, named, about, Action, pure, raise, reads, info, when, ◌>>=◌, ◌>>◌,
}
use ubuntu_advantage_client.Prompt.{prompt_for_confirmation, handle_message_operations}
use ubuntu_advantage_client.Entitlement.{Env, Entitlement}
use ubuntu_advantage_client.Entitlement.Checks.{CanDisable, can_disable}
use ubuntu_advantage_client.Entitlement.Status.{
  CanDisableFailure, CanDisableFailureReason, ApplicationStatus, enabled, disabled,
}

-- A message whose template ends with the text of the message of a failure, if there is one.
abbrev pub with_cause : String → Option Message → String → Message
with_cause template none title = named template (str title ∷ [])
with_cause template (some cause) title = about template cause (str title ∷ [])

abbrev pub message_of_disable : Option CanDisableFailure → Option Message
message_of_disable none = none
message_of_disable (some fail) = fail.message

-- `some r` is `return False, r`
abbrev pub stop_or :
    {H F : Type 0} → Option (Option F) → Action H (Bool × Option F) → Action H (Bool × Option F)
stop_or (some r) rest = pure (false, r)
stop_or none rest = rest

-- ent.disable(silent=…), for each instance
abbrev pub Disabler : Type 0 → Type 0
Disabler H = Entitlement H → Bool → Action H CanDisable

module _ {H : Type 0} (disabler : Disabler H) (env : Env H) (e : Entitlement H) where
  -- One round of the loop of `_disable_dependent_services`, by what it branches on: the answer of
  -- `disable`, the answer of the user, and the status. `rest` is the rounds that follow.
  abbrev pub dependent_answered :
      Entitlement H
      → Action H (Bool × Option Message)
      → CanDisable
      → Action H (Bool × Option Message)
  dependent_answered ent rest (true, fail) = rest
  dependent_answered ent rest (false, fail) = pure (
    false,
    some (with_cause "FAILED_DISABLING_DEPENDENT_SERVICE" (message_of_disable fail) ent.title),
  )

  abbrev pub dependent_confirmed :
      Bool
      → Entitlement H
      → Action H (Bool × Option Message)
      → Bool
      → Action H (Bool × Option Message)
  dependent_confirmed silent ent rest false =
      pure
        (false, some (named "DEPENDENT_SERVICE_STOPS_DISABLE" (str e.title ∷ str ent.title ∷ [])))
  dependent_confirmed silent ent rest true =
      when (not silent) (info (named "DISABLING_DEPENDENT_SERVICE" (str ent.title ∷ [])))
      >> disabler ent true
      >>= dependent_answered ent rest

  abbrev pub dependent_status :
      Bool
      → Entitlement H
      → Action H (Bool × Option Message)
      → ApplicationStatus × Option Message
      → Action H (Bool × Option Message)
  dependent_status silent ent rest (disabled, _) = rest
  dependent_status silent ent rest (enabled, _) =
      prompt_for_confirmation e.assume_yes false >>= dependent_confirmed silent ent rest

  -- The loop of `_disable_dependent_services`.
  unfoldable pub disable_dependents : Bool → List String → Action H (Bool × Option Message)
  disable_dependents silent [] = pure (true, none)
  disable_dependents silent (name ∷ names) =
      let rest = disable_dependents silent names in
      let ent : Entitlement H = record {
        service = env.service name;
        assume_yes = true;
        allow_beta = false;
      } in
      reads ent.application_status >>= dependent_status silent ent rest

  -- What `disable` does with the answer of `can_disable`, by the reason of a failure, and with the
  -- answer of `_disable_dependent_services`.
  abbrev pub dependents_answered :
      CanDisableFailure → Bool × Option Message → Action H (Option (Option CanDisableFailure))
  dependents_answered fail (true, msg) = pure none
  dependents_answered fail (false, msg) = pure (some (some (record fail { message = msg })))

  unfoldable pub resolve_by :
      Bool
      → CanDisableFailure
      → CanDisableFailureReason
      → Action H (Option (Option CanDisableFailure))
  unfolding disable_dependents
  resolve_by silent fail CanDisableFailureReason.active_dependent_services =
      disable_dependents silent e.dependent_services >>= dependents_answered fail
  resolve_by silent fail _ = pure (some (some fail))

  unfoldable pub resolve_disable : Bool → CanDisable → Action H (Option (Option CanDisableFailure))
  unfolding resolve_by
  resolve_disable silent (true, _) = pure none
  resolve_disable silent (false, none) = pure (some none)
  resolve_disable silent (false, some fail) = resolve_by silent fail fail.reason

  -- `_check_for_reboot_msg`
  unfoldable pub check_for_reboot_msg : String → Bool → Action H (Unit {0})
  check_for_reboot_msg operation silent = reads e.check_for_reboot >>= λ reboot.
      when (reboot && not silent) (info (named "ENABLE_REBOOT_REQUIRED_TMPL" (str operation ∷ [])))

  -- the rest of `disable`
  unfoldable pub perform_disable : Bool → Action H CanDisable
  unfolding check_for_reboot_msg
  perform_disable silent = e.perform_disable silent >>= λ performed.
      if not performed
      then pure (false, none)
      else (handle_message_operations e.messaging.post_disable >>= λ posted.
          if not posted
          then pure (false, none)
          else (check_for_reboot_msg "disable operation" silent >> pure (true, none)))

  unfoldable pub disable_step : Bool → Action H CanDisable
  unfolding resolve_disable perform_disable
  disable_step silent = handle_message_operations e.messaging.pre_disable >>= λ prepared.
      if not prepared
      then pure (false, none)
      else (reads (can_disable env e false) >>= λ answer.
          resolve_disable silent answer >>= λ stop. stop_or stop (perform_disable silent))

-- `disable` of a class that extends the base class, after `super().disable`
abbrev pub own_disable : {H : Type 0} → Entitlement H → CanDisable → Action H CanDisable
own_disable e (ret, fail) = when ret e.after_disable >> pure (ret, fail)

module _ {H : Type 0} (env : Env H) where
  -- The number bounds how deep the calls on other services go.
  unfoldable pub disable : ℕ → Disabler H
  unfolding disable_step
  disable zero e silent = raise recursion_error
  disable (suc depth) e silent = disable_step (disable depth) env e silent >>= own_disable e
