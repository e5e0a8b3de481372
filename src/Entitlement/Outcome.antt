-- ===== src/Entitlement/Outcome.antt =====
-- What an enable that ends has done.
use ubuntu_advantage_client.Base.{
  ℕ, zero, suc, ◌≡◌, Bool, true, false, Option, none, some, not, if◌then◌else◌,
}
use ubuntu_advantage_client.Exception.{ok}
use ubuntu_advantage_client.Machine.{Machine, Action, pure, ◌>>=◌}
use ubuntu_advantage_client.Machine.Steps.{returns_through, goes_on}
use ubuntu_advantage_client.Prompt.{handle_message_operations}
use ubuntu_advantage_client.Entitlement.{Env, Entitlement}
use ubuntu_advantage_client.Entitlement.Checks.{can_enable, CanEnable}
use ubuntu_advantage_client.Entitlement.Disable.{disable, stop_or}
use ubuntu_advantage_client.Entitlement.Enable.{perform_enable, resolve_enable, enable}
use ubuntu_advantage_client.Entitlement.Status.{CanEnableFailure}
use ubuntu_advantage_client.Entitlement.Refusal.{
  is_resolvable, Reports, perform_enable-reason, resolve_refused,
}

module _ {H : Type 0} (env : Env H) (e : Entitlement H) (silent : Bool) where
  -- `_perform_enable` has returned True, and then the operations of post_enable.
  abbrev pub Performed : Machine H → Type 0
  Performed m' =
      (m₁ : Machine H) × (m₂ : Machine H) × (e.perform_enable silent m₁ ≡ (ok true, m₂))
      × (handle_message_operations e.messaging.post_enable m₂ ≡ (ok true, m'))

  perform_enable-Performed :
      (depth : ℕ) (m m' : Machine H) (r : Option CanEnableFailure)
      → perform_enable (enable env depth) (disable env depth) env e silent m ≡ (ok (true, r), m')
      → Performed m' × (r ≡ none)
  unfolding perform_enable
  perform_enable-Performed depth m m' r h =
      let (m₁, p₁, h₁) = goes_on _ (handle_message_operations e.messaging.pre_enable) m m' r h in
      let (m₂, p₂, h₂) = goes_on _ (e.perform_enable silent) m₁ m' r h₁ in
      let (m₃, p₃, h₃) = goes_on _ (handle_message_operations e.messaging.post_enable) m₂ m' r h₂ in
      ((m₁, m₂, p₂, cc), cc)

  after_resolve :
      (depth : ℕ) (stop : Option (Option CanEnableFailure)) (m m' : Machine H)
      (r : Option CanEnableFailure)
      → stop_or stop (perform_enable (enable env depth) (disable env depth) env e silent) m
        ≡ (ok (true, r), m')
      → Performed m' × (r ≡ none)
  after_resolve depth none m m' r h = perform_enable-Performed depth m m' r h
  after_resolve depth (some x) m m' r h = cc h

  -- An enable that reports success has called `_perform_enable`, which returned True, and then all
  -- operations of post_enable, in whose state it ends, and gives no reason of failure.
  pub enable_success :
      (depth : ℕ) (m m' : Machine H) (r : Option CanEnableFailure)
      → enable env depth e silent m ≡ (ok (true, r), m')
      → Performed m' × (r ≡ none)
  unfolding enable
  enable_success zero m m' r h = cc h
  enable_success (suc depth) m m' r h =
      let (m₁, p₁, h₁) =
        goes_on _ (handle_message_operations e.messaging.pre_can_enable) m m' r h in
      let (answer, m₂, p₂, h₂) = returns_through (can_enable env e m₁) _ (true, r) m' h₁ in
      let (stop, m₃, p₃, h₃) =
        returns_through (resolve_enable (enable env depth) (disable env depth) env e answer m₂) _
          (true, r) m' h₂ in
      after_resolve depth stop m₃ m' r h₃

  -- An enable that reports a reason of failure reports one of `can_enable`: the operations of
  -- pre_can_enable have succeeded, `can_enable` has then refused, and the reason is the same. Where
  -- it is neither an incompatible service nor an inactive required one, the whole refusal is
  -- reported as it is, in the state that `can_enable` has left.
  pub enable_refused :
      (depth : ℕ) (m m' : Machine H) (fail : CanEnableFailure)
      → enable env depth e silent m ≡ (ok (false, some fail), m')
      → (m₁ : Machine H) × (m₂ : Machine H) × (refusal : CanEnableFailure)
        × (handle_message_operations e.messaging.pre_can_enable m ≡ (ok true, m₁))
        × (can_enable env e m₁ ≡ (ok (false, some refusal), m₂))
        × (fail.reason ≡ refusal.reason)
        × (is_resolvable refusal.reason ≡ false → (fail ≡ refusal) × (m' ≡ m₂))
  unfolding enable
  enable_refused zero m m' fail h = cc h
  enable_refused (suc depth) m m' fail h =
      let (b, m₁, p, h₁) =
        returns_through (handle_message_operations e.messaging.pre_can_enable m) _
          (false, some fail) m' h in
      prepared b m₁ p h₁
    where
      rest : CanEnable → Action H CanEnable
      rest answer = resolve_enable (enable env depth) (disable env depth) env e answer >>= λ stop.
          stop_or stop (perform_enable (enable env depth) (disable env depth) env e silent)

      Found : Machine H → Type 0
      Found m₁ =
          (m₂ : Machine H) × (refusal : CanEnableFailure) × (can_enable env e m₁
            ≡ (ok (false, some refusal), m₂))
          × Reports env e silent refusal m₂ fail m'

      stopped :
          (answer : CanEnable) (stop : Option (Option CanEnableFailure)) (m₁ m₂ m₃ : Machine H)
          → can_enable env e m₁ ≡ (ok answer, m₂)
          → resolve_enable (enable env depth) (disable env depth) env e answer m₂ ≡ (ok stop, m₃)
          → stop_or stop (perform_enable (enable env depth) (disable env depth) env e silent) m₃
            ≡ (ok (false, some fail), m')
          → Found m₁
      stopped answer none m₁ m₂ m₃ q r h =
          cc (perform_enable-reason env e silent depth false m₃ m' (some fail) h)
      stopped (true, x) (some y) m₁ m₂ m₃ q r h = cc r
      stopped (false, none) (some y) m₁ m₂ m₃ q r h = cc (r, h)
      stopped (false, some refusal) (some y) m₁ m₂ m₃ q r h = (
        m₂,
        refusal,
        q,
        resolve_refused env e silent depth refusal.reason refusal.message fail m₂ m' (cc (r, h)),
      )

      prepared :
          (b : Bool) (m₁ : Machine H)
          → handle_message_operations e.messaging.pre_can_enable m ≡ (ok b, m₁)
          → (if not b then pure (false, none) else (can_enable env e >>= rest)) m₁
            ≡ (ok (false, some fail), m')
          → (m₁ : Machine H) × (m₂ : Machine H) × (refusal : CanEnableFailure)
            × (handle_message_operations e.messaging.pre_can_enable m ≡ (ok true, m₁))
            × (can_enable env e m₁ ≡ (ok (false, some refusal), m₂))
            × (fail.reason ≡ refusal.reason)
            × (is_resolvable refusal.reason ≡ false → (fail ≡ refusal) × (m' ≡ m₂))
      prepared false m₁ p h = cc h
      prepared true m₁ p h =
          let (answer, m₂, q, h₂) =
            returns_through (can_enable env e m₁) rest (false, some fail) m' h in
          let (stop, m₃, r, h₃) =
            returns_through (resolve_enable (enable env depth) (disable env depth) env e answer m₂)
              (λ stop.
                stop_or stop (perform_enable (enable env depth) (disable env depth) env e silent))
              (false, some fail) m' h₂ in
          let (m₂', refusal, found, same) = stopped answer stop m₁ m₂ m₃ q r h₃ in
          (m₁, m₂', refusal, p, found, same.0, same.1)
