-- ===== src/Entitlement/Disabled.antt =====
-- What a disable that reports success leaves behind, for services whose own methods keep to what
-- they promise.
use mathlib.Core.Path.{subst}
use ubuntu_advantage_client.Base.{
  ℕ, zero, suc, String, ◌≡◌, ap, ◌∙◌, Bool, true, false, Option, none, some, [], ◌∷◌, if◌then◌else◌,
  not, All, All-map, ◌&&◌,
}
use ubuntu_advantage_client.Exception.{Result, ok}
use ubuntu_advantage_client.Json.{str}
use ubuntu_advantage_client.Machine.{Machine, Action, named, pure, reads, info, when, ◌>>=◌, ◌>>◌}
use ubuntu_advantage_client.Machine.Steps.{returns_through, read_through, goes_on}
use ubuntu_advantage_client.Prompt.{handle_message_operations}
use ubuntu_advantage_client.Entitlement.{Env, Entitlement}
use ubuntu_advantage_client.Entitlement.Checks.{can_disable, CanDisable}
use ubuntu_advantage_client.Entitlement.Disable.{
  Disabler, disable, disable_step, stop_or, resolve_disable, perform_disable, check_for_reboot_msg,
  own_disable,
}
use ubuntu_advantage_client.Entitlement.Verdict.{Inactive}
use ubuntu_advantage_client.Entitlement.Status.{CanDisableFailure}
use ubuntu_advantage_client.Entitlement.Promises.{
  KeepsInactive, KeepsPromises, >>=-KeepsInactive, if-KeepsInactive, pure-KeepsInactive,
  reads-KeepsInactive, instance_of, when-info-KeepsInactive, when-KeepsInactive, KeepsCalls,
}
use ubuntu_advantage_client.Entitlement.Resolved.{resolve-KeepsInactive, resolve-Inactive}

module _ {H : Type 0} (env : Env H) (promises : KeepsPromises env) (disabler : Disabler H)
    (calls : KeepsCalls env disabler) (name : String) (yes_to_all beta : Bool) where
  -- the instance that is being disabled
  abbrev self : Entitlement H
  self = instance_of env name yes_to_all beta

  reboot-KeepsInactive :
      (operation : String) (silent : Bool)
      → KeepsInactive env (check_for_reboot_msg disabler env self operation silent)
  unfolding check_for_reboot_msg
  reboot-KeepsInactive operation silent =
      >>=-KeepsInactive env (reads (env.service name).check_for_reboot)
        (λ reboot.
          when (reboot && not silent)
            (info (named "ENABLE_REBOOT_REQUIRED_TMPL" (str operation ∷ []))))
        (reads-KeepsInactive env (env.service name).check_for_reboot)
        (λ reboot. when-info-KeepsInactive env promises (reboot && not silent) _)

  -- what stays disabled through an action that ended in `m'`
  through :
      {A : Type 0} (a : Action H A) (r : Result A) (m m' : Machine H) (k : String)
      → KeepsInactive env a
      → a m ≡ (r, m')
      → Inactive env m k
      → Inactive env m' k
  through a r m m' k keeps p h = subst (λ t. Inactive env t k) (ap (λ t. t.1) p) (keeps m k h)

  perform-Inactive :
      (silent : Bool) (m m' : Machine H) (r : Option CanDisableFailure)
      → perform_disable disabler env self silent m ≡ (ok (true, r), m')
      → Inactive env m' name × ((k : String) → Inactive env m k → Inactive env m' k)
  unfolding perform_disable
  perform-Inactive silent m m' r h =
      let (m₁, p₁, h₁) = goes_on _ ((env.service name).perform_disable silent) m m' r h in
      let (m₂, p₂, h₂) =
        goes_on _ (handle_message_operations (env.service name).messaging.post_disable) m₁ m' r
          h₁ in
      let (_, m₃, p₃, h₃) = returns_through _ (λ _. pure (true, none)) (true, r) m' h₂ in
      let last : (k : String) → Inactive env m₁ k → Inactive env m' k = λ k off.
        subst (λ t. Inactive env t k) (ap (λ t. t.1) h₃)
          (through (check_for_reboot_msg disabler env self "disable operation" silent) _ m₂ m₃ k
            (reboot-KeepsInactive "disable operation" silent) p₃
            (through (handle_message_operations (env.service name).messaging.post_disable) _ m₁ m₂ k
              (promises.after_keeps name) p₂ off)) in
      (
        last name (promises.disables name silent m m₁ p₁),
        λ k off. last k (
            through ((env.service name).perform_disable silent) _ m m₁ k
              (promises.disable_keeps name silent) p₁ off),
      )

  perform-KeepsInactive :
      (silent : Bool) → KeepsInactive env (perform_disable disabler env self silent)
  unfolding perform_disable
  perform-KeepsInactive silent =
      let posted = λ (b : Bool).
        if not b
        then pure {A = CanDisable} (false, none)
        else (check_for_reboot_msg disabler env self "disable operation" silent
            >> pure (true, none)) in
      >>=-KeepsInactive env ((env.service name).perform_disable silent)
        (λ b.
          if not b
          then pure (false, none)
          else (handle_message_operations (env.service name).messaging.post_disable >>= posted))
        (promises.disable_keeps name silent)
        (λ b.
          if-KeepsInactive env (not b) (pure (false, none)) _
            (pure-KeepsInactive env {A = CanDisable} (false, none))
            (>>=-KeepsInactive env
              (handle_message_operations (env.service name).messaging.post_disable) posted
              (promises.after_keeps name)
              (λ c.
                if-KeepsInactive env (not c) (pure (false, none)) _
                  (pure-KeepsInactive env {A = CanDisable} (false, none))
                  (>>=-KeepsInactive env
                    (check_for_reboot_msg disabler env self "disable operation" silent)
                    (λ _. pure {A = CanDisable} (true, none))
                    (reboot-KeepsInactive "disable operation" silent) (λ _ m k h. h)))))

  stop_or-KeepsInactive :
      (silent : Bool) (stop : Option (Option CanDisableFailure))
      → KeepsInactive env (stop_or stop (perform_disable disabler env self silent))
  stop_or-KeepsInactive silent none = perform-KeepsInactive silent
  stop_or-KeepsInactive silent (some r) = λ m k h. h

  step-KeepsInactive : (silent : Bool) → KeepsInactive env (disable_step disabler env self silent)
  unfolding disable_step
  step-KeepsInactive silent =
      let decide = λ (answer : CanDisable).
        resolve_disable disabler env self silent answer >>= λ stop.
        stop_or stop (perform_disable disabler env self silent) in
      >>=-KeepsInactive env (handle_message_operations (env.service name).messaging.pre_disable)
        (λ b. if not b then pure (false, none) else (reads (can_disable env self false) >>= decide))
        (promises.before_keeps name)
        (λ b.
          if-KeepsInactive env (not b) (pure (false, none)) _
            (pure-KeepsInactive env {A = CanDisable} (false, none))
            (>>=-KeepsInactive env (reads (can_disable env self false)) decide
              (reads-KeepsInactive env (can_disable env self false))
              (λ answer.
                >>=-KeepsInactive env (resolve_disable disabler env self silent answer)
                  (λ stop. stop_or stop (perform_disable disabler env self silent))
                  (resolve-KeepsInactive env promises disabler calls name yes_to_all beta silent
                    answer)
                  (stop_or-KeepsInactive silent))))

  stopped-Inactive :
      (silent : Bool) (stop : Option (Option CanDisableFailure)) (answer : CanDisable)
      (m₁ m₂ m' : Machine H) (r : Option CanDisableFailure)
      → can_disable env self false m₁ ≡ ok answer
      → resolve_disable disabler env self silent answer m₁ ≡ (ok stop, m₂)
      → stop_or stop (perform_disable disabler env self silent) m₂ ≡ (ok (true, r), m')
      → Inactive env m' name × All (Inactive env m') (env.service name).dependent_services
  stopped-Inactive silent (some x) answer m₁ m₂ m' r p q h = cc h
  stopped-Inactive silent none answer m₁ m₂ m' r p q h =
      let (off, keeps) = perform-Inactive silent m₂ m' r h in
      (
        off,
        All-map keeps (env.service name).dependent_services (
            resolve-Inactive env promises disabler calls name yes_to_all beta silent answer m₁ m₂ p
              q),
      )

  step-Inactive :
      (silent : Bool) (m m' : Machine H) (r : Option CanDisableFailure)
      → disable_step disabler env self silent m ≡ (ok (true, r), m')
      → Inactive env m' name × All (Inactive env m') (env.service name).dependent_services
  unfolding disable_step
  step-Inactive silent m m' r h =
      let (m₁, p₁, h₁) =
        goes_on _ (handle_message_operations (env.service name).messaging.pre_disable) m m' r h in
      let (answer, m₂, p₂, h₂) = returns_through _ _ (true, r) m' h₁ in
      let (stop, m₃, p₃, h₃) =
        returns_through _ (λ stop. stop_or stop (perform_disable disabler env self silent))
          (true, r) m' h₂ in
      stopped-Inactive silent stop answer m₂ m₃ m' r
        (read_through (can_disable env self false) answer m₁ m₂ p₂) p₃ h₃

module _ {H : Type 0} (env : Env H) (promises : KeepsPromises env) where
  Disables : ℕ → Type 0
  Disables depth =
      (name : String) (yes_to_all beta silent : Bool)
      → KeepsInactive env (disable env depth (instance_of env name yes_to_all beta) silent)
        × ((m m' : Machine H) (r : Option CanDisableFailure)
            → disable env depth (instance_of env name yes_to_all beta) silent m ≡ (ok (true, r), m')
            → Inactive env m' name × All (Inactive env m') (env.service name).dependent_services)

  own-KeepsInactive :
      (name : String) (yes_to_all beta : Bool) (answer : CanDisable)
      → KeepsInactive env (own_disable (instance_of env name yes_to_all beta) answer)
  own-KeepsInactive name yes_to_all beta (ret, fail) =
      >>=-KeepsInactive env (when ret (env.service name).after_disable)
        (λ _. pure {A = CanDisable} (ret, fail))
        (when-KeepsInactive env ret (env.service name).after_disable (promises.own_keeps name))
        (λ _ m k h. h)

  disable-Disables : (depth : ℕ) → Disables depth
  unfolding disable Disables
  disable-Disables zero name yes_to_all beta silent = ((λ m k h. h), λ m m' r h. cc h)
  disable-Disables (suc depth) name yes_to_all beta silent =
      let calls : KeepsCalls env (disable env depth) = record {
        calls_keep = λ n. (disable-Disables depth n true false true).0;
        calls_disable = λ n m m' r h. ((disable-Disables depth n true false true).1 m m' r h).0;
      } in
      (
        >>=-KeepsInactive env
            (disable_step (disable env depth) env (instance_of env name yes_to_all beta) silent)
            (own_disable (instance_of env name yes_to_all beta))
            (step-KeepsInactive env promises (disable env depth) calls name yes_to_all beta silent)
            (own-KeepsInactive name yes_to_all beta),
        λ m m' r h.
            let (answer, m₁, p, q) =
              returns_through
                (disable_step (disable env depth) env (instance_of env name yes_to_all beta) silent
                  m)
                (own_disable (instance_of env name yes_to_all beta)) (true, r) m' h in
            let (u, m₂, p₂, q₂) =
              returns_through (when answer.0 (env.service name).after_disable m₁) (λ _. pure answer)
                (true, r) m' q in
            let reported : answer ≡ (true, r) = cc in
            let ended : m₂ ≡ m' = cc in
            let (off, others) =
              step-Inactive env promises (disable env depth) calls name yes_to_all beta silent m m₁
                r (p ∙ ap (λ a. (ok a, m₁)) reported) in
            let keep : (k : String) → Inactive env m₁ k → Inactive env m' k = λ k h.
              subst (λ t. Inactive env t k) (ap (λ t. t.1) p₂ ∙ ended)
                (when-KeepsInactive env answer.0 (env.service name).after_disable
                  (promises.own_keeps name) m₁ k h) in
            (keep name off, All-map keep (env.service name).dependent_services others),
      )

-- For services that keep what they promise: where `disable` of a service reports success, the
-- service is reported disabled afterwards, and so is every service that depends on it.
pub disable_success :
    {H : Type 0} (env : Env H) (promises : KeepsPromises env) (depth : ℕ) (name : String)
    (yes_to_all beta silent : Bool) (m m' : Machine H) (r : Option CanDisableFailure)
    → disable env depth
        (record { service = env.service name; assume_yes = yes_to_all; allow_beta = beta })
        silent
        m
      ≡ (ok (true, r), m')
    → Inactive env m' name × All (Inactive env m') (env.service name).dependent_services
unfolding Disables
disable_success env promises depth name yes_to_all beta silent =
    (disable-Disables env promises depth name yes_to_all beta silent).1
