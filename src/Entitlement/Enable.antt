-- ===== src/Entitlement/Enable.antt =====
-- `enable`, the services that are incompatible and the services that are required
-- (uaclient/entitlements/base.py), over the calls on other services as in `disable`.
use ubuntu_advantage_client.Base.{
  ℕ, zero, suc, String, Bool, true, false, Option, none, some, List, [], ◌∷◌, if◌then◌else◌, not,
}
use ubuntu_advantage_client.Exception.{recursion_error}
use ubuntu_advantage_client.Json.{str}
use ubuntu_advantage_client.Config.{is_config_value_true}
use ubuntu_advantage_client.Machine.{Message, named, Action, pure, raise, reads, info, ◌>>=◌, ◌>>◌}
use ubuntu_advantage_client.Prompt.{prompt_for_confirmation, handle_message_operations}
use ubuntu_advantage_client.Entitlement.{Env, Entitlement, IncompatibleService}
use ubuntu_advantage_client.Entitlement.Checks.{
  CanEnable, can_enable, blocking_incompatible_services,
}
use ubuntu_advantage_client.Entitlement.Disable.{Disabler, with_cause, stop_or, disable}
use ubuntu_advantage_client.Entitlement.Status.{
  CanEnableFailure, CanEnableFailureReason, is_disabled,
}

abbrev pub message_of_enable : Option CanEnableFailure → Option Message
message_of_enable none = none
message_of_enable (some fail) = fail.message

-- `bool(ret)` of a pair: a tuple that is not empty is true
abbrev pub truthy_pair : {A B : Type 0} → A × B → Bool
truthy_pair r = true

-- ent.enable(silent=…), for each instance
abbrev pub Enabler : Type 0 → Type 0
Enabler H = Entitlement H → Bool → Action H CanEnable

module _ {H : Type 0} (disabler : Disabler H) (env : Env H) (e : Entitlement H) where
  -- The loop of `handle_incompatible_services`. `ret` is the pair that `disable` returns.
  unfoldable pub disable_blocking :
      Bool → List IncompatibleService → Action H (Bool × Option Message)
  disable_blocking block [] = pure (true, none)
  disable_blocking block (s ∷ ss) =
      let rest = disable_blocking block ss in
      let ent : Entitlement H = record {
        service = env.service s.entitlement;
        assume_yes = true;
        allow_beta = false;
      } in
      let e_msg = named "INCOMPATIBLE_SERVICE_STOPS_ENABLE" (str e.title ∷ str ent.title ∷ []) in
      if block
      then pure (false, some e_msg)
      else (prompt_for_confirmation e.assume_yes false >>= λ confirmed.
          if not confirmed
          then pure (false, some e_msg)
          else (info (named "Disabling incompatible service: {}" (str ent.title ∷ []))
              >> disabler ent true
              >>= λ ret. if not (truthy_pair ret) then pure (truthy_pair ret, none) else rest))

  unfoldable pub handle_incompatible_services : Action H (Bool × Option Message)
  unfolding disable_blocking
  handle_incompatible_services =
      reads (λ m. is_config_value_true m.config ("features" ∷ "block_disable_on_enable" ∷ []))
      >>= λ block. reads (blocking_incompatible_services env e) >>= λ services.
          disable_blocking block services

module _ {H : Type 0} (enabler : Enabler H) (env : Env H) (e : Entitlement H) where
  -- The loop of `_enable_required_services`.
  unfoldable pub enable_required : List String → Action H (Bool × Option Message)
  enable_required [] = pure (true, none)
  enable_required (name ∷ names) =
      let rest = enable_required names in
      let ent : Entitlement H = record {
        service = env.service name;
        assume_yes = false;
        allow_beta = true;
      } in
      reads ent.application_status >>= λ (status, _).
      if not (is_disabled status)
      then rest
      else (prompt_for_confirmation e.assume_yes false >>= λ confirmed.
          if not confirmed
          then pure (
            false,
            some (named "REQUIRED_SERVICE_STOPS_ENABLE" (str e.title ∷ str ent.title ∷ [])),
          )
          else (info (named "Enabling required service: {}" (str ent.title ∷ []))
              >> enabler ent true
              >>= λ (ret, fail).
                  if not ret
                  then pure (
                    ret,
                    some (
                        with_cause "ERROR_ENABLING_REQUIRED_SERVICE" (message_of_enable fail)
                          ent.title),
                  )
                  else rest))

module _ {H : Type 0} (enabler : Enabler H) (disabler : Disabler H) (env : Env H)
    (e : Entitlement H) where
  -- What `enable` does with the answer of `can_enable`.
  unfoldable pub resolve_enable : CanEnable → Action H (Option (Option CanEnableFailure))
  unfolding handle_incompatible_services enable_required
  resolve_enable (true, _) = pure none
  resolve_enable (false, none) = pure (some none)
  resolve_enable (false, some fail) = elim fail.reason [
    | CanEnableFailureReason.incompatible_service ↦
        handle_incompatible_services disabler env e >>= λ (ret, error).
        pure (if not ret then some (some (record fail { message = error })) else none)
    | CanEnableFailureReason.inactive_required_services ↦
        enable_required enabler env e e.required_services >>= λ (ret, error).
        pure (if not ret then some (some (record fail { message = error })) else none)
    | _ ↦ pure (some (some fail))
  ]

  -- the rest of `enable`
  unfoldable pub perform_enable : Bool → Action H CanEnable
  perform_enable silent = handle_message_operations e.messaging.pre_enable >>= λ prepared.
      if not prepared
      then pure (false, none)
      else (e.perform_enable silent >>= λ performed.
          if not performed
          then pure (false, none)
          else (handle_message_operations e.messaging.post_enable >>= λ posted.
              if not posted then pure (false, none) else pure (true, none)))

  unfoldable pub enable_step : Bool → Action H CanEnable
  unfolding resolve_enable perform_enable
  enable_step silent = handle_message_operations e.messaging.pre_can_enable >>= λ prepared.
      if not prepared
      then pure (false, none)
      else (can_enable env e >>= λ answer.
          resolve_enable answer >>= λ stop. stop_or stop (perform_enable silent))

module _ {H : Type 0} (env : Env H) where
  -- The number bounds how deep the calls on other services go.
  unfoldable pub enable : ℕ → Enabler H
  unfolding enable_step
  enable zero e silent = raise recursion_error
  enable (suc depth) e silent = enable_step (enable depth) (disable env depth) env e silent
