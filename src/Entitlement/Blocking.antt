-- ===== src/Entitlement/Blocking.antt =====
-- What becomes of incompatible services (uaclient/entitlements/base.py), and of a service whose
-- entitlement the contract no longer has (uaclient/contract.py).
use ubuntu_advantage_client.Base.{
  ℕ, ◌≡◌, refl, ◌∙◌, Bool, true, false, Option, none, some, List, [], ◌∷◌, arith,
}
use ubuntu_advantage_client.Exception.{Exception, Result, ok, err, attribute_error}
use ubuntu_advantage_client.Json.{str, obj, Fields, end, field, get, dropped}
use ubuntu_advantage_client.Json.Dict.{Keyed}
use ubuntu_advantage_client.Config.{is_config_value_true}
use ubuntu_advantage_client.Machine.{Machine, Action, info, named, pure, reads, ◌>>=◌, ◌>>◌}
use ubuntu_advantage_client.Machine.Steps.{returns_through}
use ubuntu_advantage_client.Prompt.{prompt_for_confirmation}
use ubuntu_advantage_client.Entitlement.{Env, Entitlement, IncompatibleService}
use ubuntu_advantage_client.Entitlement.Checks.{CanDisable, blocking_incompatible_services}
use ubuntu_advantage_client.Entitlement.Disable.{disable}
use ubuntu_advantage_client.Entitlement.Enable.{disable_blocking, handle_incompatible_services}
use ubuntu_advantage_client.Entitlement.Refresh.{
  Selector, contract_overrides, process_contract_deltas, service_type, process_deltas,
  access_deltas, process_entitlement_delta,
}
use ubuntu_advantage_client.Registry.{entitlement_factory}
use ubuntu_advantage_client.Deltas.{get_dict_deltas}
use ubuntu_advantage_client.Deltas.Pointwise.{get-get_dict_deltas}

module _ {H : Type 0} (env : Env H) (depth : ℕ) (e : Entitlement H) where
  -- an incompatible service, as `handle_incompatible_services` makes it
  abbrev pub blocking : IncompatibleService → Entitlement H
  blocking s = record { service = env.service s.entitlement; assume_yes = true; allow_beta = false }

  abbrev pub announced : IncompatibleService → Action H (Unit {0})
  announced s = info (named "Disabling incompatible service: {}" (str (blocking s).title ∷ []))

  -- `disable` has been called on each service in turn, and has returned some answer.
  abbrev pub AskedInTurn : List IncompatibleService → Machine H → Machine H → Type 0
  AskedInTurn [] m m' = m ≡ m'
  AskedInTurn (s ∷ ss) m m' =
      (answer : CanDisable) × (m₁ : Machine H) × (disable env depth (blocking s) true
          (announced s m).1
        ≡ (ok answer, m₁))
      × AskedInTurn ss m₁ m'

  disable_blocking-true :
      (ss : List IncompatibleService) (m m' : Machine H) (r : Bool × Option _)
      → e.assume_yes ≡ true
      → disable_blocking (disable env depth) env e false ss m ≡ (ok r, m')
      → (r ≡ (true, none)) × AskedInTurn ss m m'
  unfolding disable_blocking prompt_for_confirmation
  disable_blocking-true [] m m' r yes_to_all h = (cc h, cc h)
  disable_blocking-true (s ∷ ss) m m' r yes_to_all h =
      let (answer, m₁, p, q) =
        returns_through ((announced s >> disable env depth (blocking s) true) m)
          (λ ret. disable_blocking (disable env depth) env e false ss) r m' (rw yes_to_all at h) in
      let (all, asked) = disable_blocking-true ss m₁ m' r yes_to_all q in
      (all, (answer, m₁, p, asked))

  -- With assume_yes, where the configuration does not forbid to disable services: if
  -- `handle_incompatible_services` returns, it reports success, and `disable` has been called on each
  -- incompatible service in turn, whatever it answered, also that the service could not be disabled.
  pub handle_incompatible_services-true :
      (ss : List IncompatibleService) (m m' : Machine H) (r : Bool × Option _)
      → e.assume_yes ≡ true
      → is_config_value_true m.config ("features" ∷ "block_disable_on_enable" ∷ []) ≡ ok false
      → blocking_incompatible_services env e m ≡ ok ss
      → handle_incompatible_services (disable env depth) env e m ≡ (ok r, m')
      → (r ≡ (true, none)) × AskedInTurn ss m m'
  unfolding handle_incompatible_services
  handle_incompatible_services-true ss m m' r yes_to_all allowed found h =
      disable_blocking-true ss m m' r yes_to_all (rw (allowed, found) at h)

-- an action that raises and changes nothing
abbrev pub Fails : {H A : Type 0} → Action H A → Machine H → Type 0
Fails a m = (x : Exception) × (a m ≡ (err x, m))

reads-Fails :
    {H A B : Type 0} (f : Machine H → Result A) (g : A → Action H B) (m : Machine H)
    → ((a : A) → f m ≡ ok a → Fails (g a) m)
    → Fails (reads f >>= g) m
reads-Fails {H} {A} {B} f g m fails = go (f m) refl
  where
    go : (r : Result A) → f m ≡ r → Fails (reads f >>= g) m
    go (err x) h = (x, rw h refl)
    go (ok a) h = let (x, p) = fails a h in (x, rw h p)

module _ {H : Type 0} (env : Env H) (sel : Selector H) (depth : ℕ) where
  dropped_deltas :
      (e : Entitlement H) (orig_access deltas : Fields) (allow_enable : Bool) (m : Machine H)
      → get "entitlement" deltas ≡ some dropped
      → process_contract_deltas env depth e sel orig_access deltas allow_enable m
        ≡ (err attribute_error, m)
  unfolding process_contract_deltas
  dropped_deltas e orig_access end allow_enable m h = cc h
  dropped_deltas e orig_access (field k v fs) allow_enable m h = ground arith

  process_deltas-Fails :
      (orig_access deltas : Fields) (allow_enable : Bool) (m : Machine H)
      → get "entitlement" deltas ≡ some dropped
      → Fails (process_deltas env sel depth orig_access deltas allow_enable) m
  unfolding process_deltas
  process_deltas-Fails orig_access deltas allow_enable m h =
      reads-Fails (λ _. service_type env sel depth orig_access deltas) _ m
        λ name p. reads-Fails (entitlement_factory env name) _ m λ service q. (
          attribute_error,
          rw
              (dropped_deltas
                (record { service = service; assume_yes = allow_enable; allow_beta = false })
                orig_access deltas allow_enable m h)
              refl,
        )

  -- no overrides are applied to access details without an entitlement
  overrides_gone :
      (access n : Fields) (m : Machine H)
      → get "entitlement" access ≡ none
      → contract_overrides sel access m ≡ ok n
      → ⊥
  unfolding contract_overrides
  overrides_gone access n m gone h = cc (rw (gone, contract_overrides) at h)

  access_deltas-dropped :
      (orig_access new_access deltas s : Fields) (series_overrides : Bool) (m : Machine H)
      → Keyed orig_access
      → Keyed new_access
      → get "entitlement" orig_access ≡ some (obj s)
      → get "entitlement" new_access ≡ none
      → access_deltas env sel depth orig_access new_access series_overrides m ≡ ok deltas
      → get "entitlement" deltas ≡ some dropped
  unfolding access_deltas
  access_deltas-dropped orig_access new_access deltas s false m ho hn old gone h =
      get-get_dict_deltas orig_access new_access deltas "entitlement" ho hn h ∙ rw (old, gone) refl
  access_deltas-dropped orig_access new_access deltas s true m ho hn old gone h =
      go (contract_overrides sel new_access m) refl h
    where
      go :
          (r : Result Fields)
          → contract_overrides sel new_access m ≡ r
          → elim r [ err x ↦ err x | ok new ↦ get_dict_deltas orig_access (obj new) ] ≡ ok deltas
          → get "entitlement" deltas ≡ some dropped
      go (err x) p h = cc h
      go (ok n) p h = elim (overrides_gone new_access n m gone p) [ ]

  -- The new access details of a service lack the entitlement that the old ones have: its changes are
  -- never processed. An exception is raised and nothing is changed, with the overrides and without.
  pub process_dropped :
      (orig_access new_access s : Fields) (allow_enable series_overrides : Bool) (m : Machine H)
      → Keyed orig_access
      → Keyed new_access
      → get "entitlement" orig_access ≡ some (obj s)
      → get "entitlement" new_access ≡ none
      → Fails
          (process_entitlement_delta env sel depth orig_access new_access allow_enable
            series_overrides)
          m
  unfolding process_entitlement_delta
  process_dropped orig_access new_access s allow_enable series_overrides m ho hn old gone =
      reads-Fails (access_deltas env sel depth orig_access new_access series_overrides) _ m
        λ deltas p. go deltas (
          access_deltas-dropped orig_access new_access deltas s series_overrides m ho hn old gone p)
    where
      after : Fields → Action H (Fields × Bool)
      after deltas = elim deltas [
        | end ↦ pure (end, false)
        | field k v fs ↦ process_deltas env sel depth orig_access (field k v fs) allow_enable
      ]

      go : (deltas : Fields) → get "entitlement" deltas ≡ some dropped → Fails (after deltas) m
      go end h = cc h
      go (field k v fs) h = process_deltas-Fails orig_access (field k v fs) allow_enable m h
