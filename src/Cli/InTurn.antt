-- ===== src/Cli/InTurn.antt =====
-- The services that an enable works through, where all of them succeed.
use mathlib.Core.Path.{subst}
use ubuntu_advantage_client.Base.{
  ℕ, arith, String, ◌≡◌, refl, sym, ◌∙◌, ap, Bool, true, false, Option, none, some, List, [], ◌∷◌,
  if◌then◌else◌,
}
use ubuntu_advantage_client.Exception.{Exception, Result, ok, err, user_facing, is_user_facing}
use ubuntu_advantage_client.Json.{end}
use ubuntu_advantage_client.Machine.{
  Machine, Action, pure, raise, reads, info, continue, ◌>>=◌, ◌>>◌,
}
use ubuntu_advantage_client.Machine.Steps.{returns_through}
use ubuntu_advantage_client.EventLogger.{error, service_failed, services_failed, service_processed}
use ubuntu_advantage_client.Entitlement.{Env}
use ubuntu_advantage_client.Entitlement.Status.{CanEnableFailure}
use ubuntu_advantage_client.Entitlement.Checks.{CanEnable}
use ubuntu_advantage_client.Entitlement.Refresh.{Selector}
use ubuntu_advantage_client.Registry.{valid_services}
use ubuntu_advantage_client.Contract.{ContractClient, name_of}
use ubuntu_advantage_client.Security.Ask.{message_of_error}
use ubuntu_advantage_client.Cli.{Commands, report_message}
use ubuntu_advantage_client.Cli.Enable.{
  Enabling, enable_entitlement_by_name, answered, caught, enable_one, enable_named, finish_enable,
}

module _ {H : Type 0} (env : Env H) (sel : Selector H) (depth : ℕ) (client : ContractClient H)
    (commands : Commands H) where
  -- the action that ends a block
  last_pure :
      {A B : Type 0} (a : Action H A) (b c : B) (m m' : Machine H)
      → (a >> pure b) m ≡ (ok c, m')
      → b ≡ c
  last_pure a b c m m' h = let (_, m₁, _, r) = returns_through (a m) (λ _. pure b) c m' h in cc

  answered-true :
      (name : String) (s t : Enabling) (a : CanEnable) (m m' : Machine H)
      → answered env sel depth client commands name s a m ≡ (ok t, m')
      → t.ret ≡ true
      → (a.0 ≡ true) × (commands.log (service_processed name) m ≡ (ok tt, m')) × (t ≡ s)
  answered-true name s t (true, reason) m m' h r =
      let (u, m₁, p, q) =
        returns_through (commands.log (service_processed name) m) (λ _. pure s) t m' h in
      (refl, cc, cc)
  answered-true name s t (false, none) m m' h r =
      let e = last_pure (commands.log (service_failed name)) (record s { ret = false }) t m m' h in
      cc
  answered-true name s t (false, some fail) m m' h r =
      let e = last_pure (report_message env depth commands name fail.message) _ t m m' h in cc

  -- an exception that is caught leaves `ret` false
  caught_false :
      (a : Action H (Unit {0})) (s t : Enabling) (e : Exception) (b : Bool) (m m' : Machine H)
      → (if b then (a >> pure (record s { ret = false })) m else (err e, m)) ≡ (ok t, m')
      → t.ret ≡ false
  caught_false a s t e true m m' h =
      ap (λ u. u.ret) (sym (last_pure a (record s { ret = false }) t m m' h))
  caught_false a s t e false m m' h = cc h

  caught-ok :
      (name : String) (s t : Enabling) (m' : Machine H) (r : Result Enabling × Machine H)
      → caught env sel depth client commands name s r ≡ (ok t, m')
      → t.ret ≡ true
      → r ≡ (ok t, m')
  caught-ok name s t m' (ok u, m₁) h k = h
  caught-ok name s t m' (err e, m₁) h k =
      let refused =
        caught_false
          (info (message_of_error e)
            >> commands.log (
                error (name_of (message_of_error e)) (some (name_of (message_of_error e)))
                  (some name) none end))
          s t e (is_user_facing e) m₁ m' h in
      cc

  -- The services, in turn: each has answered that it is enabled, and the status was updated.
  abbrev pub EnabledInTurn : Bool → Bool → List String → Machine H → Machine H → Type 0
  EnabledInTurn assume_yes allow_beta [] m m' = m ≡ m'
  EnabledInTurn assume_yes allow_beta (name ∷ names) m m' =
      (reason : Option CanEnableFailure) × (m₁ : Machine H) × (m₂ : Machine H)
      × (enable_entitlement_by_name env sel depth client commands assume_yes allow_beta name m
          ≡ (ok (true, reason), m₁))
      × ((commands.update_status >> commands.log (service_processed name)) m₁ ≡ (ok tt, m₂))
      × EnabledInTurn assume_yes allow_beta names m₂ m'

  enable_one-true :
      (assume_yes allow_beta : Bool) (name : String) (s t : Enabling) (m m' : Machine H)
      → enable_one env sel depth client commands assume_yes allow_beta name s m ≡ (ok t, m')
      → t.ret ≡ true
      → (t ≡ s) × EnabledInTurn assume_yes allow_beta (name ∷ []) m m'
  unfolding enable_one
  enable_one-true assume_yes allow_beta name s t m m' h k =
      let enabling =
        enable_entitlement_by_name env sel depth client commands assume_yes allow_beta name in
      let then_answer : CanEnable → Action H Enabling =
        λ answer. commands.update_status >> answered env sel depth client commands name s answer in
      let returned = caught-ok name s t m' ((enabling >>= then_answer) m) h k in
      let (answer, m₁, p, q) = returns_through (enabling m) then_answer t m' returned in
      let (_, m₂, u, v) =
        returns_through (commands.update_status m₁)
          (λ _. answered env sel depth client commands name s answer) t m' q in
      let (enabled, processed, same) = answered-true name s t answer m₂ m' v k in
      (
        same,
        (
          answer.1,
          m₁,
          m',
          p ∙ ap (λ b. (ok (b, answer.1), m₁)) enabled,
          ap (λ r. continue (λ _. commands.log (service_processed name)) r.0 r.1) u ∙ processed,
          refl,
        ),
      )

  pub enable_named-true :
      (assume_yes allow_beta : Bool) (names : List String) (s t : Enabling) (m m' : Machine H)
      → enable_named env sel depth client commands assume_yes allow_beta names s m ≡ (ok t, m')
      → t.ret ≡ true
      → (t ≡ s) × EnabledInTurn assume_yes allow_beta names m m'
  unfolding enable_named
  enable_named-true assume_yes allow_beta [] s t m m' h k = (cc, cc)
  enable_named-true assume_yes allow_beta (name ∷ names) s t m m' h k =
      let (u, m₁, p, q) =
        returns_through (enable_one env sel depth client commands assume_yes allow_beta name s m)
          (enable_named env sel depth client commands assume_yes allow_beta names) t m' h in
      let (same, others) = enable_named-true assume_yes allow_beta names u t m₁ m' q k in
      let (same₁, (reason, m₂, m₃, e₁, e₂, e₃)) =
        enable_one-true assume_yes allow_beta name s u m m₁ p (ap (λ v. v.ret) (sym same) ∙ k) in
      (
        same ∙ same₁,
        (
          reason,
          m₂,
          m₃,
          e₁,
          e₂,
          subst (λ x. EnabledInTurn assume_yes allow_beta names x m') (sym e₃) others,
        ),
      )

  -- the end: nothing was not found, and nothing has failed
  pub finish_enable-0 :
      (allow_beta : Bool) (not_found : List String) (ret : Bool) (m m' : Machine H)
      → finish_enable env sel depth client commands allow_beta
          (record { ret = ret; not_found = not_found })
          m
        ≡ (ok 0, m')
      → (not_found ≡ []) × (ret ≡ true) × (commands.process_events m ≡ (ok tt, m'))
  finish_enable-0 allow_beta [] true m m' h =
      let (u, m₁, p, q) = returns_through (commands.process_events m) (λ _. pure 0) 0 m' h in
      (refl, refl, cc)
  finish_enable-0 allow_beta [] false m m' h =
      let one = last_pure commands.process_events 1 0 m m' h in ground (arith, one)
  finish_enable-0 allow_beta (x ∷ xs) ret m m' h =
      let told =
        reads (valid_services env allow_beta false) >> commands.log (services_failed (x ∷ xs)) in
      let (u, m₁, p, q) =
        returns_through (told m) (λ _. raise (user_facing "INVALID_SERVICE_OP_FAILURE")) 0 m' h in
      cc
