-- ===== src/Entitlement/Contract.antt =====
-- What the machine token says of a service: `contract_status`, `is_access_expired`,
-- `_check_application_status_on_cache`, the names of the service and whether it is valid
-- (uaclient/entitlements/base.py).
use ubuntu_advantage_client.Base.{
  ℕ, String, Bool, true, false, Option, none, some, List, [], ◌∷◌, if◌then◌else◌, not, ◌||◌, leb,
}
use ubuntu_advantage_client.Exception.{Result, ok, err, value_error, type_error, ◌>>=◌}
use ubuntu_advantage_client.Json.{
  Value, null, str, arr, obj, Items, nil, cons, end, get, value_or, get_attr, subscript, truthy,
  py_eq,
}
use ubuntu_advantage_client.Config.{is_config_value_true}
use ubuntu_advantage_client.Machine.{Machine}
use ubuntu_advantage_client.Entitlement.{Env, Service, Entitlement}
use ubuntu_advantage_client.Entitlement.Status.{
  ApplicationStatus, enabled, disabled, ContractStatus, entitled, unentitled,
}

-- entitlement_cfg["entitlement"].get(key)
abbrev pub entitlement_entry : String → Value → Value → Result Value
entitlement_entry key default cfg = do
  entitlement ← subscript "entitlement" cfg
  get_attr key default entitlement

abbrev expiry_of : (String → Option ℕ) → Value → Result ℕ
expiry_of strptime (str s) = elim (strptime s) [ none ↦ err value_error | some t ↦ ok t ]
expiry_of strptime _ = err type_error

abbrev listed : Value → Result Items
listed (arr xs) = ok xs
listed _ = err type_error

-- The loop over the services of the status cache: the first of that name decides.
unfoldable pub cached_status : String → Items → Result ApplicationStatus
cached_status name nil = ok disabled
cached_status name (cons service rest) =
    let others = cached_status name rest in
    do
      service_name ← get_attr "name" null service
      if py_eq service_name (str name)
          then (do
            service_status ← get_attr "status" null service
            ok (if py_eq service_status (str "enabled") then enabled else disabled))
          else others

module _ {H : Type 0} where
  -- cfg.machine_token_file.entitlements.get(name, {})
  abbrev pub entitlement_cfg : String → Machine H → Value
  entitlement_cfg name m = value_or (obj end) (get name m.entitlements)

  unfoldable pub contract_status : Service H → Machine H → Result ContractStatus
  contract_status s m =
      if not m.attached
      then ok unentitled
      else if truthy (entitlement_cfg s.name m)
      then (do
        is_entitled ← entitlement_entry "entitled" null (entitlement_cfg s.name m)
        ok (if truthy is_entitled then entitled else unentitled))
      else ok unentitled

  -- `expiry >= datetime.utcnow()` is access that has not expired
  unfoldable pub is_access_expired : Env H → Service H → Machine H → Result Bool
  is_access_expired env s m = do
    expire_str ← get_attr "expires" null (entitlement_cfg s.name m)
    if not (truthy expire_str) then ok false else (do
      expiry ← expiry_of env.strptime expire_str
      ok (if leb (env.utcnow m) expiry then false else true))

  unfoldable pub presentation_name : Service H → Machine H → Result Value
  presentation_name s m = do
    entitlement ← get_attr "entitlement" (obj end) (entitlement_cfg s.name m)
    affordances ← get_attr "affordances" (obj end) entitlement
    get_attr "presentedAs" (str s.name) affordances

  unfoldable pub valid_names : Service H → Machine H → Result (List Value)
  unfolding presentation_name
  valid_names s m = do
    presented ← presentation_name s m
    ok (if py_eq presented (str s.name) then str s.name ∷ [] else str s.name ∷ presented ∷ [])

  -- The value is kept in `_valid_service`; what it is computed from does not change while an
  -- instance is used.
  unfoldable pub valid_service : Entitlement H → Machine H → Result Bool
  valid_service e m =
      if not e.is_beta || e.allow_beta
      then ok true
      else is_config_value_true m.config ("features" ∷ "allow_beta" ∷ [])

  unfoldable pub check_application_status_on_cache :
      Service H → Machine H → Result ApplicationStatus
  unfolding cached_status
  check_application_status_on_cache s m = elim (get "status-cache" m.cache) [
    | none ↦ ok disabled
    | some status_cache ↦ do
      services ← get_attr "services" (arr nil) status_cache
      xs ← listed services
      cached_status s.name xs
  ]
