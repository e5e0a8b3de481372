-- ===== src/Cli/Zero.antt =====
-- What an enable that ends with 0 has done.
use mathlib.Core.Path.{subst}
use ubuntu_advantage_client.Base.{ℕ, String, ◌≡◌, sym, ◌∙◌, ap, Bool, true, Option, List, []}
use ubuntu_advantage_client.Exception.{ok}
use ubuntu_advantage_client.Machine.{Machine, named, Action, reads, info, ◌>>=◌, ◌>>◌}
use ubuntu_advantage_client.Machine.Steps.{returns_through, read_through}
use ubuntu_advantage_client.Entitlement.{Env}
use ubuntu_advantage_client.Entitlement.Refresh.{Selector}
use ubuntu_advantage_client.Cli.InTurn.{EnabledInTurn, enable_named-true, finish_enable-0}
use ubuntu_advantage_client.Cli.Found.{get_valid_entitlement_names-all, guarded-ok}
use ubuntu_advantage_client.Lock.{enter}
use ubuntu_advantage_client.Contract.{ContractClient}
use ubuntu_advantage_client.Cli.{Args, LockAccess, Commands, get_valid_entitlement_names}
use ubuntu_advantage_client.Cli.Enable.{
  try_refresh, enable_named, finish_enable, enable_services, action_enable,
}

module _ {H : Type 0} (env : Env H) (sel : Selector H) (depth : ℕ) (client : ContractClient H)
    (commands : Commands H) where
  -- After the refresh, all the names are valid, and each service has answered in turn that it is
  -- enabled; the events are processed at the end.
  abbrev pub AllEnabled : Bool → Bool → List String → Machine H → Type 0
  AllEnabled assume_yes allow_beta names m =
      (m₁ : Machine H) × (m₂ : Machine H) × ((info (named "REFRESH_CONTRACT_ENABLE" [])
            >> try_refresh env sel depth client commands)
          m
        ≡ (ok tt, m₁))
      × (get_valid_entitlement_names env depth commands names m₁ ≡ ok (names, []))
      × EnabledInTurn env sel depth client commands assume_yes allow_beta names m₁ m₂
      × ((commands.process_events m₂).0 ≡ ok tt)

  enable_services-0 :
      (assume_yes allow_beta : Bool) (names : List String) (m m' : Machine H)
      → enable_services env sel depth client commands assume_yes allow_beta names m ≡ (ok 0, m')
      → AllEnabled assume_yes allow_beta names m
  unfolding enable_services
  enable_services-0 assume_yes allow_beta names m m' h =
      let refreshed : Action H (Unit {0}) =
        info (named "REFRESH_CONTRACT_ENABLE" []) >> try_refresh env sel depth client commands in
      let all = enable_named env sel depth client commands assume_yes allow_beta in
      let finish = finish_enable env sel depth client commands allow_beta in
      let valid = get_valid_entitlement_names env depth commands names in
      let run : List String × List String → Action H ℕ =
        λ (found, not_found). all found (record { ret = true; not_found = not_found }) >>= finish in
      let (parts, m₁, p, q) = returns_through ((refreshed >> reads valid) m) run 0 m' h in
      let (_, m₀, u, v) = returns_through (refreshed m) (λ _. reads valid) parts m₁ p in
      let known = read_through valid parts m₀ m₁ v in
      let (t, m₂, w, x) =
        returns_through (all parts.0 (record { ret = true; not_found = parts.1 }) m₁) finish 0 m'
          q in
      let (none_missing, success, processed) =
        finish_enable-0 env sel depth client commands allow_beta t.not_found t.ret m₂ m' x in
      let (same, in_turn) =
        enable_named-true env sel depth client commands assume_yes allow_beta parts.0
          (record { ret = true; not_found = parts.1 }) t m₁ m₂ w success in
      let no_others : parts.1 ≡ [] = sym (ap (λ s. s.not_found) same) ∙ none_missing in
      let known' : valid m₁ ≡ ok (parts.0, []) = known ∙ ap (λ l. ok (parts.0, l)) no_others in
      let found = get_valid_entitlement_names-all env depth commands names parts.0 m₁ known' in
      (
        m₁,
        m₂,
        u ∙ ap (λ r. (ok tt, r.1)) v,
        known' ∙ ap (λ l. ok (l, [])) found,
        subst (λ l. EnabledInTurn env sel depth client commands assume_yes allow_beta l m₁ m₂) found
            in_turn,
        ap (λ r. r.0) processed,
      )

  -- Where `pro enable` ends with 0, it has got the lock, all the names that it was given are names of
  -- services after the refresh, and each of these services, one after the other and from the machine
  -- that the one before has left, has answered that it is enabled.
  pub action_enable-zero :
      (access : LockAccess H) (args : Option Args) (assume_yes allow_beta : Bool)
      (names : List String) (m : Machine H)
      → (action_enable env sel depth client commands access args assume_yes allow_beta names m).0
        ≡ ok 0
      → ((enter (access.running m) "pro enable" (access.process_of m)).0 ≡ ok tt)
        × AllEnabled assume_yes allow_beta names
            (access.with_process (enter (access.running m) "pro enable" (access.process_of m)).1 m)
  unfolding action_enable
  action_enable-zero access args assume_yes allow_beta names m h =
      let body = enable_services env sel depth client commands assume_yes allow_beta names in
      let start =
        access.with_process (enter (access.running m) "pro enable" (access.process_of m)).1 m in
      let (locked, returned) = guarded-ok access args "pro enable" body 0 m h in
      (
        locked,
        enable_services-0 assume_yes allow_beta names start (body start).1
            (ap (λ r. (r, (body start).1)) returned),
      )
