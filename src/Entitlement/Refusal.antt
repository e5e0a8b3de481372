-- ===== src/Entitlement/Refusal.antt =====
-- The reasons of failure that the parts of `enable` report.
use ubuntu_advantage_client.Base.{ℕ, ◌≡◌, Bool, true, false, Option, none, some, not, if◌then◌else◌}
use ubuntu_advantage_client.Exception.{ok}
use ubuntu_advantage_client.Machine.{Machine, Message, Action, pure, ◌>>=◌}
use ubuntu_advantage_client.Machine.Steps.{returns_through}
use ubuntu_advantage_client.Prompt.{handle_message_operations}
use ubuntu_advantage_client.Entitlement.{Env, Entitlement}
use ubuntu_advantage_client.Entitlement.Checks.{CanEnable}
use ubuntu_advantage_client.Entitlement.Disable.{disable}
use ubuntu_advantage_client.Entitlement.Enable.{
  perform_enable, resolve_enable, handle_incompatible_services, enable_required, enable,
}
use ubuntu_advantage_client.Entitlement.Status.{CanEnableFailure, CanEnableFailureReason}

-- the reasons that `enable` can do something about
abbrev pub is_resolvable : CanEnableFailureReason → Bool
is_resolvable CanEnableFailureReason.incompatible_service = true
is_resolvable CanEnableFailureReason.inactive_required_services = true
is_resolvable _ = false

module _ {H : Type 0} (env : Env H) (e : Entitlement H) (silent : Bool) where
  pub perform_enable-reason :
      (depth : ℕ) (b : Bool) (m m' : Machine H) (r : Option CanEnableFailure)
      → perform_enable (enable env depth) (disable env depth) env e silent m ≡ (ok (b, r), m')
      → r ≡ none
  unfolding perform_enable
  perform_enable-reason depth b m m' r h =
      let (b₁, m₁, _, h₁) =
        returns_through (handle_message_operations e.messaging.pre_enable m) _ (b, r) m' h in
      prepared b₁ m₁ h₁
    where
      posted :
          (c : Bool) (m₁ : Machine H)
          → (if not c then pure {A = CanEnable} (false, none) else pure (true, none)) m₁
            ≡ (ok (b, r), m')
          → r ≡ none
      posted true m₁ h = cc h
      posted false m₁ h = cc h

      performed :
          (c : Bool) (m₁ : Machine H)
          → (if not c
                then pure {A = CanEnable} (false, none)
                else (handle_message_operations e.messaging.post_enable >>= λ d.
                    if not d then pure (false, none) else pure (true, none)))
              m₁
            ≡ (ok (b, r), m')
          → r ≡ none
      performed true m₁ h =
          let (d, m₂, _, h₂) =
            returns_through (handle_message_operations e.messaging.post_enable m₁) _ (b, r) m' h in
          posted d m₂ h₂
      performed false m₁ h = cc h

      prepared :
          (c : Bool) (m₁ : Machine H)
          → (if not c
                then pure {A = CanEnable} (false, none)
                else (e.perform_enable silent >>= λ d.
                    if not d
                    then pure (false, none)
                    else (handle_message_operations e.messaging.post_enable >>= λ d.
                        if not d then pure (false, none) else pure (true, none))))
              m₁
            ≡ (ok (b, r), m')
          → r ≡ none
      prepared true m₁ h =
          let (d, m₂, _, h₂) = returns_through (e.perform_enable silent m₁) _ (b, r) m' h in
          performed d m₂ h₂
      prepared false m₁ h = cc h

  -- what `enable` reports, compared with the refusal of `can_enable` in the state `m₂`
  abbrev pub Reports : CanEnableFailure → Machine H → CanEnableFailure → Machine H → Type 0
  Reports refusal m₂ fail m' =
      (fail.reason ≡ refusal.reason)
      × (is_resolvable refusal.reason ≡ false → (fail ≡ refusal) × (m' ≡ m₂))

  -- a block that ends with a new message for the refusal
  new_message :
      (refusal fail : CanEnableFailure) (a : Action H (Bool × Option Message)) (m m' : Machine H)
      → (a >>= λ (ret, error).
            pure (if not ret then some (some (record refusal { message = error })) else none))
          m
        ≡ (ok (some (some fail)), m')
      → fail.reason ≡ refusal.reason
  new_message refusal fail a m m' h =
      let ((ret, error), m₁, _, h₁) = returns_through (a m) _ (some (some fail)) m' h in
      go ret error m₁ h₁
    where
      go :
          (ret : Bool) (error : Option Message) (m₁ : Machine H)
          → pure {A = Option (Option CanEnableFailure)}
              (if not ret then some (some (record refusal { message = error })) else none)
              m₁
            ≡ (ok (some (some fail)), m')
          → fail.reason ≡ refusal.reason
      go true error m₁ h = cc h
      go false error m₁ h = cc h

  pub resolve_refused :
      (depth : ℕ) (reason : CanEnableFailureReason) (message : Option Message)
      (fail : CanEnableFailure) (m m' : Machine H)
      → resolve_enable
          (enable env depth)
          (disable env depth)
          env
          e
          (false, some (record { reason = reason; message = message }))
          m
        ≡ (ok (some (some fail)), m')
      → Reports (record { reason = reason; message = message }) m fail m'
  unfolding resolve_enable
  resolve_refused depth CanEnableFailureReason.incompatible_service message fail m m' h = (
    new_message (record { reason = CanEnableFailureReason.incompatible_service; message = message })
        fail (handle_incompatible_services (disable env depth) env e) m m' h,
    λ r. cc r,
  )
  resolve_refused depth CanEnableFailureReason.inactive_required_services message fail m m' h = (
    new_message
        (record { reason = CanEnableFailureReason.inactive_required_services; message = message })
        fail (enable_required (enable env depth) env e e.required_services) m m' h,
    λ r. cc r,
  )
  resolve_refused depth reason message fail m m' h = (cc h, λ r. (cc h, cc h))
