-- ===== src/Contract/Rounds.antt =====
-- A refresh works through all services, also where one of them fails.
use ubuntu_advantage_client.Base.{
  ℕ, String, ◌≡◌, refl, Bool, true, false, Option, none, some, List, [], ◌∷◌, ◌++◌, ◌||◌, ◌&&◌,
  ◌===◌, not, if◌then◌else◌, arith,
}
use ubuntu_advantage_client.Exception.{Result, ok, err, is_user_facing, user_facing}
use ubuntu_advantage_client.Json.{Value, Fields, end, field, get}
use ubuntu_advantage_client.Machine.{Machine}
use ubuntu_advantage_client.Entitlement.{Env}
use ubuntu_advantage_client.Entitlement.Refresh.{Selector}
use ubuntu_advantage_client.Registry.{entitlements_enable_order}
use ubuntu_advantage_client.EventLogger.{Call, service_failed, service_processed}
use ubuntu_advantage_client.EventLogger.History.{any_fails}
use ubuntu_advantage_client.Contract.{
  Round, no_errors, recorded, attempt_new, round, rounds, process_entitlements_delta,
}

abbrev pub Answer : Type 0
Answer = Result (Fields × Bool)

abbrev pub is_failure : Answer → Bool
is_failure (ok _) = false
is_failure (err e) = true

abbrev pub is_unexpected : Answer → Bool
is_unexpected (ok _) = false
is_unexpected (err e) = not (is_user_facing e)

-- one of the services raised an exception
abbrev pub any_failure : List (String × Answer) → Bool
any_failure [] = false
any_failure ((name, a) ∷ answers) = is_failure a || any_failure answers

-- one of them raised an exception that is not for the user
abbrev pub any_unexpected : List (String × Answer) → Bool
any_unexpected [] = false
any_unexpected ((name, a) ∷ answers) = is_unexpected a || any_unexpected answers

-- the service of this name raised an exception
abbrev pub failed_in : List (String × Answer) → String → Bool
failed_in [] x = false
failed_in ((name, a) ∷ answers) x = (is_failure a && name === x) || failed_in answers x

any_fails-append :
    (cs ds : List Call) (x : String) → any_fails (cs ++ ds) x ≡ (any_fails cs x || any_fails ds x)
any_fails-append [] ds x = refl
any_fails-append (c ∷ cs) ds x = ground (arith, any_fails-append cs ds x)

abbrev has_error : Round → Bool
has_error r = r.unexpected_error || r.delta_error

-- what the record of one service adds
abbrev Recorded : Round → Round → String → Answer → String → Type 0
Recorded r r' name a x =
    (r'.unexpected_error ≡ (r.unexpected_error || is_unexpected a))
    × (has_error r' ≡ (has_error r || is_failure a))
    × (any_fails r'.events x ≡ (any_fails r.events x || (is_failure a && name === x)))

recorded-Recorded :
    (name : String) (r : Round) (a : Answer) (x : String) → Recorded r (recorded name r a) name a x
recorded-Recorded name r (ok (end, enabled)) x = (ground arith, ground arith, ground arith)
recorded-Recorded name r (ok (field k v fs, true)) x = (
  ground arith,
  ground arith,
  ground (arith, any_fails-append r.events (service_processed name ∷ []) x),
)
recorded-Recorded name r (ok (field k v fs, false)) x = (ground arith, ground arith, ground arith)
recorded-Recorded name r (err e) x =
    let appended = any_fails-append r.events (service_failed name ∷ []) x in
    (ground arith, ground arith, ground (arith, appended))

module _ {H : Type 0} (env : Env H) (sel : Selector H) (depth : ℕ) (past new : Fields)
    (allow_enable series_overrides : Bool) where
  abbrev answer_of : String → Value → Machine H → Answer × Machine H
  answer_of name entitlement m =
      attempt_new env sel depth past new allow_enable series_overrides name entitlement m

  abbrev pub turn :
      String
      → Option Value
      → (Machine H → List (String × Answer) × Machine H)
      → Machine H
      → List (String × Answer) × Machine H
  turn name none others m = others m
  turn name (some entitlement) others m =
      let (answer, m₁) = answer_of name entitlement m in
      let (answers, m₂) = others m₁ in ((name, answer) ∷ answers, m₂)

  -- the answers of these services, and the machine that they leave, one after the other
  abbrev pub in_turn : List String → Machine H → List (String × Answer) × Machine H
  in_turn [] m = ([], m)
  in_turn (name ∷ names) m = turn name (get name new) (in_turn names) m

  abbrev all_rounds : List String → Round → Machine H → Round × Machine H
  all_rounds = rounds env sel depth past new allow_enable series_overrides

  -- What the rounds leave, compared with all the answers in turn.
  abbrev Agrees : Round → Round × Machine H → List (String × Answer) × Machine H → String → Type 0
  Agrees r (r', m') (answers, m'') x =
      (m' ≡ m'')
      × (r'.unexpected_error ≡ (r.unexpected_error || any_unexpected answers))
      × (has_error r' ≡ (has_error r || any_failure answers))
      × (any_fails r'.events x ≡ (any_fails r.events x || failed_in answers x))

  abbrev one_round : String → Option Value → List String → Round → Machine H → Round × Machine H
  one_round name o names r m =
      let (r', m') = round env sel depth past new allow_enable series_overrides name r o m in
      all_rounds names r' m'

  turn-Agrees :
      (name : String) (o : Option Value) (names : List String) (r : Round) (m : Machine H)
      (x : String)
      → ((r' : Round) (m' : Machine H) → Agrees r' (all_rounds names r' m') (in_turn names m') x)
      → Agrees r (one_round name o names r m) (turn name o (in_turn names) m) x
  turn-Agrees name none names r m x rest = rest r m
  turn-Agrees name (some entitlement) names r m x rest =
      let (answer, m₁) = answer_of name entitlement m in
      let (e₁, e₂, e₃) = recorded-Recorded name r answer x in
      let (same, u, f, l) = rest (recorded name r answer) m₁ in
      (same, ground (arith, u, e₁), ground (arith, f, e₂), ground (arith, l, e₃))

  rounds-Agrees :
      (names : List String) (r : Round) (m : Machine H) (x : String)
      → Agrees r (all_rounds names r m) (in_turn names m) x
  unfolding rounds
  rounds-Agrees [] r m x = (refl, ground arith, ground arith, ground arith)
  rounds-Agrees (name ∷ names) r m x =
      turn-Agrees name (get name new) names r m x (λ r' m'. rounds-Agrees names r' m' x)

  -- The machine, the end and the failed services that the event logger is told, compared with the
  -- answers in turn.
  abbrev pub WorkedThrough :
      (Result (Unit {0}) × List Call) × Machine H
      → List (String × Answer) × Machine H
      → String
      → Type 0
  WorkedThrough done turns x =
      (done.1 ≡ turns.1)
      × (done.0.0 ≡ (
          if any_unexpected turns.0
          then err (user_facing "UNEXPECTED_ERROR")
          else if any_failure turns.0
          then err (user_facing "ATTACH_FAILURE_DEFAULT_SERVICES")
          else ok tt))
      × (any_fails done.0.1 x ≡ failed_in turns.0 x)

  -- A refresh works through the services that the new entitlements have, in the order in which
  -- services are enabled, also where one of them raises an exception. At the end, it fails with
  -- UNEXPECTED_ERROR where one of the exceptions was not for the user, with
  -- ATTACH_FAILURE_DEFAULT_SERVICES where there were others only, and returns where there was none;
  -- and the services that the event logger is told to have failed are those that raised one.
  pub process_entitlements_delta_lem :
      (names : List String) (m : Machine H) (x : String)
      → entitlements_enable_order env depth ≡ ok names
      → WorkedThrough
          (process_entitlements_delta env sel depth past new allow_enable series_overrides m)
          (in_turn names m)
          x
  unfolding process_entitlements_delta
  process_entitlements_delta_lem names m x order =
      let (same, u, f, l) = rounds-Agrees names no_errors m x in
      rw order (same, ground (arith, u, f), l)
