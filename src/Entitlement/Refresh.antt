-- ===== src/Entitlement/Refresh.antt =====
-- `process_contract_deltas` (uaclient/entitlements/base.py) and `process_entitlement_delta`
-- (uaclient/contract.py): what a service does when its contract has changed.
use ubuntu_advantage_client.Base.{
  ℕ, String, Bool, true, false, Option, none, some, [], ◌∷◌, if◌then◌else◌, not, ◌&&◌, ◌||◌,
}
use ubuntu_advantage_client.Exception.{Result, ok, err, user_facing, attribute_error, runtime_error}
use ubuntu_advantage_client.Json.{
  Value, null, bool, str, obj, dropped, Fields, end, field, get, remove, value_or, get_attr, truthy,
  py_eq,
}
use Prim.Native.String.{◌++◌}
use ubuntu_advantage_client.Registry.{entitlement_factory}
use ubuntu_advantage_client.Machine.{Machine, named, Action, pure, reads, info, ◌>>=◌, ◌>>◌}
use ubuntu_advantage_client.Overrides.{apply_contract_overrides}
use ubuntu_advantage_client.Deltas.{get_dict_deltas}
use ubuntu_advantage_client.Entitlement.{Env, Entitlement}
use ubuntu_advantage_client.Entitlement.Contract.{check_application_status_on_cache}
use ubuntu_advantage_client.Entitlement.Checks.{can_enable, can_disable}
use ubuntu_advantage_client.Entitlement.Disable.{disable}
use ubuntu_advantage_client.Entitlement.Enable.{truthy_pair, enable}
use ubuntu_advantage_client.Entitlement.Status.{ApplicationStatus, is_disabled}

-- The series and the cloud that the overrides are selected by.
pub record Selector (H : Type 0) : Type 0 where
  pub series : Machine H → Result String
  pub cloud_type : Machine H → Result (Option String)

-- value in (False, DROPPED_KEY)
abbrev pub is_withdrawn : Value → Bool
is_withdrawn v = py_eq v (bool false) || py_eq v dropped

-- "machine-access-{}".format(name)
abbrev pub access_key : String → String
access_key name = "machine-access-" ++ name

-- x or default, as the code writes it for a token
abbrev pub first_truthy : Value → Value → Value
first_truthy a b = if truthy a then a else b

-- `delta_directives` is read before the overrides are applied, which change a dict in place.
abbrev pub directives_after : Fields → Fields → Value
directives_after old new = elim (get "directives" old) [
  | none ↦ obj end
  | some d ↦ elim d [ obj fs ↦ value_or (obj fs) (get "directives" new) | other ↦ other ]
]

-- deltas.get("entitlement", {}).get(…): only a dict has `get`, `DROPPED_KEY` has not
abbrev pub delta_entitlement : Fields → Result Fields
delta_entitlement deltas = elim (value_or (obj end) (get "entitlement" deltas)) [
  | obj d ↦ ok d
  | _ ↦ err attribute_error
]

-- `transition_to_unentitled`, from the delta of the entitlement after the overrides
unfoldable pub transition_to_unentitled : Fields → Fields → Bool
transition_to_unentitled orig_access delta =
    truthy (obj orig_access)
    && elim (get "entitled" delta) [ none ↦ false | some v ↦ is_withdrawn v ]

module _ {H : Type 0} (sel : Selector H) where
  -- `apply_contract_overrides` on this machine, which it asks once it has seen the entitlement
  unfoldable pub contract_overrides : Fields → Machine H → Result Fields
  contract_overrides access m = elim (get "entitlement" access) [
    | none ↦ err runtime_error
    | some _ ↦ elim (sel.series m) [
      | err x ↦ err x
      | ok series ↦ elim (sel.cloud_type m) [
        | err x ↦ err x
        | ok cloud ↦ apply_contract_overrides access series cloud
      ]
    ]
  ]

  -- the deltas as they are left, which the overrides are applied to if the entitlement is in them
  unfoldable pub overridden : Fields → Fields → Machine H → Result Fields
  unfolding contract_overrides
  overridden end deltas m = ok deltas
  overridden (field k v d) deltas m = contract_overrides deltas m

module _ {H : Type 0} (env : Env H) (depth : ℕ) (e : Entitlement H) where
  -- The status that decides whether there is anything to disable.
  unfoldable pub status_before : Value → Machine H → Result ApplicationStatus
  status_before directives m =
      if truthy directives && truthy (value_or null (get "status-cache" m.cache))
      then check_application_status_on_cache e.service m
      else elim (e.application_status m) [ err x ↦ err x | ok (status, _) ↦ ok status ]

  -- cfg.delete_cache_key("machine-access-{}".format(self.name))
  abbrev pub delete_access_cache : Action H (Unit {0})
  delete_access_cache m = (ok tt, record m { cache = remove (access_key e.name) m.cache })

  -- `self.can_disable()` is a pair.
  unfoldable pub disable_if_possible : Action H (Unit {0})
  disable_if_possible = reads (can_disable env e false) >>= λ answer.
      if truthy_pair answer then (disable env depth e false >>= λ _. pure tt) else pure tt

  -- The service has lost its entitlement.
  unfoldable pub disable_unentitled : Value → Action H Bool
  unfolding status_before disable_if_possible
  disable_unentitled directives = reads (status_before directives) >>= λ status.
      (if not (is_disabled status) then disable_if_possible else pure tt)
      >> delete_access_cache
      >> pure true

  -- `bool(delta_obligations.get("enableByDefault") and resourceToken)`
  unfoldable pub enable_by_default : Fields → Fields → Fields → Result Bool
  enable_by_default orig_access deltas delta =
      let token =
        first_truthy (value_or null (get "resourceToken" orig_access))
          (value_or null (get "resourceToken" deltas)) in
      elim (get_attr "enableByDefault" null (value_or (obj end) (get "obligations" delta))) [
        | err x ↦ err x
        | ok wanted ↦ ok (truthy wanted && truthy token)
      ]

  -- The service is still entitled: it is enabled where the contract says so.
  unfoldable pub enable_entitled : Bool → Bool → Action H Bool
  enable_entitled wanted allow_enable =
      let e' : Entitlement H = record {
        service = e.service;
        assume_yes = e.assume_yes;
        allow_beta = wanted || e.allow_beta;
      } in
      can_enable env e' >>= λ (possible, _).
      if possible && wanted
      then (if allow_enable
          then (info (named "ENABLE_BY_DEFAULT_TMPL" (str e.name ∷ []))
              >> enable env depth e' false
              >>= λ _. pure true)
          else (info (named "ENABLE_BY_DEFAULT_MANUAL_TMPL" (str e.name ∷ [])) >> pure true))
      else pure false

  -- `process_contract_deltas`: whether they were processed, and the deltas with the overrides.
  unfoldable pub process_contract_deltas :
      Selector H → Fields → Fields → Bool → Action H (Bool × Fields)
  unfolding overridden transition_to_unentitled disable_unentitled enable_by_default enable_entitled
  process_contract_deltas sel orig_access end allow_enable = pure (true, end)
  process_contract_deltas sel orig_access (field k v fs) allow_enable =
      let deltas = field k v fs in
      reads (λ _. delta_entitlement deltas) >>= λ before.
      reads (overridden sel before deltas) >>= λ new_deltas.
      reads (λ _. delta_entitlement new_deltas) >>= λ delta.
      if transition_to_unentitled orig_access delta
      then (disable_unentitled (directives_after before delta) >>= λ done. pure (done, new_deltas))
      else (reads (λ _. enable_by_default orig_access new_deltas delta) >>= λ wanted.
          enable_entitled wanted allow_enable >>= λ done. pure (done, new_deltas))

-- the `type` of the entitlement in a dict of access details
abbrev pub type_in : Fields → Result Value
type_in access = get_attr "type" null (value_or (obj end) (get "entitlement" access))

module _ {H : Type 0} (env : Env H) (sel : Selector H) (depth : ℕ) where
  -- The name that the class is found by.
  unfoldable pub service_type : Fields → Fields → Result Value
  service_type orig_access deltas = elim (type_in orig_access) [
    | err x ↦ err x
    | ok name ↦ if truthy name then ok name else elim (type_in deltas) [
      | err x ↦ err x
      | ok other ↦
          if truthy other
          then ok other
          else err (user_facing "INVALID_CONTRACT_DELTAS_SERVICE_TYPE")
    ]
  ]

  -- the delta of one service, once there is one
  unfoldable pub process_deltas : Fields → Fields → Bool → Action H (Fields × Bool)
  unfolding process_contract_deltas service_type
  process_deltas orig_access deltas allow_enable =
      reads (λ _. service_type orig_access deltas) >>= λ name.
      reads (entitlement_factory env name) >>= λ service.
      let e : Entitlement H = record {
        service = service;
        assume_yes = allow_enable;
        allow_beta = false;
      } in
      process_contract_deltas env depth e sel orig_access deltas allow_enable
      >>= λ (ret, new_deltas).
          if ret
          then pure (new_deltas, true)
          else (service.process_own_deltas orig_access new_deltas allow_enable >>= λ own.
              pure (new_deltas, own))

  -- the overrides on the new access dict, and the deltas
  unfoldable pub access_deltas : Fields → Fields → Bool → Machine H → Result Fields
  unfolding contract_overrides
  access_deltas orig_access new_access series_overrides m =
      elim (if series_overrides then contract_overrides sel new_access m else ok new_access) [
        | err x ↦ err x
        | ok new ↦ get_dict_deltas orig_access (obj new)
      ]

  unfoldable pub process_entitlement_delta :
      Fields → Fields → Bool → Bool → Action H (Fields × Bool)
  unfolding access_deltas process_deltas
  process_entitlement_delta orig_access new_access allow_enable series_overrides =
      reads (access_deltas orig_access new_access series_overrides) >>= λ deltas. elim deltas [
        | end ↦ pure (end, false)
        | field k v fs ↦ process_deltas orig_access (field k v fs) allow_enable
      ]
