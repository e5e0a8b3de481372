-- ===== src/Contract.antt =====
-- The refresh of the contract: `process_entitlements_delta`, `_create_attach_forbidden_message` and
-- `request_updated_contract` (uaclient/contract.py).
pub mod Rounds
mod Tests
use ubuntu_advantage_client.Base.{
  ℕ, String, Bool, true, false, Option, none, some, List, [], ◌∷◌, ◌++◌, ◌===◌, ◌==◌, ◌||◌, ◌&&◌,
  not, if◌then◌else◌,
}
use ubuntu_advantage_client.Exception.{
  Exception, Result, ok, err, attribute_error, key_error, user_facing, other_error, is_user_facing,
  ◌>>=◌ as and_then,
}
use ubuntu_advantage_client.Json.{
  Value, null, str, datetime, obj, arr, Items, nil, cons, Fields, end, field, get, value_or, truthy,
  subscript, text_in,
}
use ubuntu_advantage_client.Machine.{
  Machine, Message, named, about, Action, pure, raise, reads, ◌>>=◌, ◌>>◌,
}
use ubuntu_advantage_client.Entitlement.{Env}
use ubuntu_advantage_client.Entitlement.Refresh.{Selector, process_entitlement_delta}
use ubuntu_advantage_client.Registry.{entitlements_enable_order}
use ubuntu_advantage_client.EventLogger.{Call, service_failed, service_processed}

-- The local variables of the loop, and what it has told the event logger.
pub record Round : Type 0 where
  pub delta_error : Bool
  pub unexpected_error : Bool
  pub events : List Call

abbrev pub no_errors : Round
no_errors = record { delta_error = false; unexpected_error = false; events = [] }

-- Access details that are no dict raise an exception that is not for the user.
abbrev pub as_dict : Value → Result Fields
as_dict (obj access) = ok access
as_dict _ = err attribute_error

-- what is recorded of one service
abbrev pub recorded : String → Round → Result (Fields × Bool) → Round
recorded name r (ok (end, enabled)) = r
recorded name r (ok (field k v fs, enabled)) =
    if enabled then record r { events = r.events ++ service_processed name ∷ [] } else r
recorded name r (err e) =
    if is_user_facing e
    then record r { delta_error = true; events = r.events ++ service_failed name ∷ [] }
    else record r { unexpected_error = true; events = r.events ++ service_failed name ∷ [] }

abbrev pub conclude : Round → Result (Unit {0})
conclude r =
    if r.unexpected_error
    then err (user_facing "UNEXPECTED_ERROR")
    else if r.delta_error
    then err (user_facing "ATTACH_FAILURE_DEFAULT_SERVICES")
    else ok tt

module _ {H : Type 0} (env : Env H) (sel : Selector H) (depth : ℕ) where
  -- the delta of one service, by the details it had and has
  unfoldable pub attempt : Value → Value → Bool → Bool → Action H (Fields × Bool)
  attempt orig new allow_enable series_overrides = reads (λ m. as_dict orig) >>= λ orig_access.
      reads (λ m. as_dict new) >>= λ new_access.
      process_entitlement_delta env sel depth orig_access new_access allow_enable series_overrides

  module _ (past new : Fields) (allow_enable series_overrides : Bool) where
    -- the delta of the service of a name, where the new entitlements have it
    abbrev pub attempt_new : String → Value → Action H (Fields × Bool)
    attempt_new name entitlement =
        attempt (value_or (obj end) (get name past)) entitlement allow_enable series_overrides

    abbrev pub round : String → Round → Option Value → Machine H → Round × Machine H
    round name r none m = (r, m)
    round name r (some entitlement) m =
        let (answer, m') = attempt_new name entitlement m in (recorded name r answer, m')

    -- the loop over the services
    unfoldable pub rounds : List String → Round → Machine H → Round × Machine H
    unfolding attempt
    rounds [] r m = (r, m)
    rounds (name ∷ names) r m = let (r', m') = round name r (get name new) m in rounds names r' m'

    -- The events are those of the loop, also where it ends with an error.
    abbrev pub process_in_order :
        Result (List String) → Machine H → (Result (Unit {0}) × List Call) × Machine H
    process_in_order (err e) m = ((err e, []), m)
    process_in_order (ok names) m =
        let (r, m') = rounds names no_errors m in ((conclude r, r.events), m')

    unfoldable pub process_entitlements_delta :
        Machine H → (Result (Unit {0}) × List Call) × Machine H
    unfolding rounds entitlements_enable_order
    process_entitlements_delta m = process_in_order (entitlements_enable_order env depth) m

-- info["time"].strftime(…): the time itself is kept
abbrev pub date_of : Value → Result Value
date_of info =
    and_then (subscript "time" info)
      λ time. elim time [ datetime t ↦ ok (datetime t) | _ ↦ err attribute_error ]

abbrev pub forbidden : Message → Message
forbidden reason_msg = about "ATTACH_FORBIDDEN" reason_msg []

abbrev pub forbidden_for : Value → Value → Value → Result Message
forbidden_for info contract_id reason =
    if is_text "no-longer-effective" reason
    then and_then (date_of info)
        (λ date. ok (forbidden (named "ATTACH_FORBIDDEN_EXPIRED" (contract_id ∷ date ∷ []))))
    else if is_text "not-effective-yet" reason
    then and_then (date_of info)
        (λ date. ok (forbidden (named "ATTACH_FORBIDDEN_NOT_YET" (contract_id ∷ date ∷ []))))
    else if is_text "never-effective" reason
    then ok (forbidden (named "ATTACH_FORBIDDEN_NEVER" (contract_id ∷ [])))
    else ok (named "ATTACH_EXPIRED_TOKEN" [])
  where
    is_text : String → Value → Bool
    is_text s (str t) = s === t
    is_text s _ = false

-- api_errors[0], where it has "info"
abbrev pub forbidden_info : Items → Result (Option Value)
forbidden_info nil = ok none
forbidden_info (cons e es) =
    and_then (text_in "info" e)
      λ found. if found then and_then (subscript "info" e) (λ info. ok (some info)) else ok none

unfoldable pub create_attach_forbidden_message : Items → Result Message
create_attach_forbidden_message api_errors = and_then (forbidden_info api_errors) λ found.
    elim found [
      | none ↦ ok (named "ATTACH_EXPIRED_TOKEN" [])
      | some info ↦ and_then (subscript "contractId" info) λ contract_id.
          and_then (subscript "reason" info) λ reason. forbidden_for info contract_id reason
    ]

-- The name of the message with which attach is refused.
abbrev pub name_of : Message → String
name_of (named name values) = name
name_of (about name (named reason others) values) = reason
name_of (about name (about other m others) values) = name

-- What the server answers to an attach: a refusal with its code and its errors, no connection, or
-- another exception.
pub data AttachReply : Type 0 where
  attached : AttachReply
  contract_api_error : ℕ → Items → AttachReply
  url_error : AttachReply
  raised : Exception → AttachReply

-- The machine token, and the two requests, which write the token that they get.
pub record ContractClient (H : Type 0) : Type 0 where
  pub machine_token : Machine H → Value
  pub request_contract_machine_attach : Value → Action H AttachReply
  pub request_machine_token_update : Value → Value → Action H (Unit {0})

abbrev pub refused_attach : Result Message → Result (Unit {0})
refused_attach (ok msg) = err (user_facing (name_of msg))
refused_attach (err e) = err e

unfoldable pub attach_result : AttachReply → Result (Unit {0})
unfolding create_attach_forbidden_message
attach_result attached = ok tt
attach_result (contract_api_error code api_errors) =
    if code == 401
    then err (other_error "AttachInvalidTokenError")
    else if code == 403
    then refused_attach (create_attach_forbidden_message api_errors)
    else err (other_error "ContractAPIError")
attach_result url_error = err (user_facing "CONNECTIVITY_ERROR")
attach_result (raised e) = err e

module _ {H : Type 0} (env : Env H) (sel : Selector H) (depth : ℕ) (client : ContractClient H) where
  -- the request, by whether there is a contract token
  unfoldable pub request_token : Value → Value → Action H (Unit {0})
  unfolding attach_result
  request_token orig_token contract_token =
      if truthy contract_token
      then (client.request_contract_machine_attach contract_token >>= λ reply.
          reads (λ m. attach_result reply))
      else (reads (λ m. subscript "machineToken" orig_token) >>= λ machine_token.
          reads (λ m.
            and_then
              (and_then
                (and_then (subscript "machineTokenInfo" orig_token) (subscript "contractInfo"))
                (subscript "id"))
              (λ id. ok id))
          >>= λ contract_id. client.request_machine_token_update machine_token contract_id)

  -- the deltas, where the request has returned
  abbrev pub process_after :
      Fields → Bool → Result (Unit {0}) × Machine H → (Result (Unit {0}) × List Call) × Machine H
  process_after orig_entitlements allow_enable (err e, m) = ((err e, []), m)
  process_after orig_entitlements allow_enable (ok _, m) =
      process_entitlements_delta env sel depth orig_entitlements m.entitlements allow_enable true m

  unfoldable pub request_updated_contract :
      Value → Bool → Machine H → (Result (Unit {0}) × List Call) × Machine H
  unfolding request_token process_entitlements_delta
  request_updated_contract contract_token allow_enable m =
      if truthy (client.machine_token m) && truthy contract_token
      then ((err (user_facing "UNEXPECTED_CONTRACT_TOKEN_ON_ATTACHED_MACHINE"), []), m)
      else process_after m.entitlements allow_enable
          (request_token (client.machine_token m) contract_token m)
