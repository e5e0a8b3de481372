-- ===== src/Security/Ask.antt =====
-- The service of a pocket, and what the fix asks the user: to attach, to enable a service, for a new
-- token (uaclient/security.py).
use ubuntu_advantage_client.Base.{
  ℕ, String, Bool, true, false, Option, none, some, List, [], ◌∷◌, ◌===◌, ◌==◌, not, ◌||◌,
  if◌then◌else◌,
}
use ubuntu_advantage_client.Exception.{
  Exception, Result, ok, err, map_ok, user_facing, other_error, is_user_facing,
}
use ubuntu_advantage_client.Json.{Value, str, arr, Items, nil, cons}
use ubuntu_advantage_client.Text.{codes, codes_eq}
use ubuntu_advantage_client.Machine.{
  Machine, Message, named, Action, pure, reads, info, when, ◌>>=◌, ◌>>◌,
}
use ubuntu_advantage_client.Prompt.{input, prompt_choices}
use ubuntu_advantage_client.Entitlement.{Env, Entitlement}
use ubuntu_advantage_client.Entitlement.Status.{UserFacingStatus}
use ubuntu_advantage_client.Entitlement.Applicability.{user_facing_status}
use ubuntu_advantage_client.Entitlement.Contract.{valid_service}
use ubuntu_advantage_client.Registry.{entitlement_factory}
use ubuntu_advantage_client.Security.{ua_infra_pocket, ua_apps_pocket}

-- What the fix calls in other modules and asks of the system: `os.getuid() == 0`, the title of the
-- cloud where it has Pro images, whether a time of the status cache lies before now, the commands
-- attach, enable and detach, apt, and the notice that a reboot is required.
pub record Calls (H : Type 0) : Type 0 where
  pub is_root : Machine H → Bool
  pub pro_cloud : Machine H → Option Value
  pub is_past : Value → Machine H → Result Bool
  pub action_attach : String → Action H ℕ
  pub action_enable : String → Action H ℕ
  pub action_detach : Action H ℕ
  pub run_apt_update_command : Action H (Unit {0})
  pub apt_install : List String → Action H (Unit {0})
  pub should_reboot : List String → Machine H → Result Bool
  pub add_reboot_notice : Action H (Unit {0})

abbrev pub is_active_status : UserFacingStatus → Bool
is_active_status UserFacingStatus.active = true
is_active_status _ = false

abbrev pub items_of : List String → Items
items_of [] = nil
items_of (s ∷ ss) = cons (str s) (items_of ss)

abbrev pub texts : List String → Value
texts ss = arr (items_of ss)

-- colorize_commands([…])
abbrev pub command : List String → Message
command words = named "colorize_commands" (texts words ∷ [])

-- err.msg
abbrev pub message_of_error : Exception → Message
message_of_error (user_facing code) = named code []
message_of_error (other_error name) = named name []
message_of_error _ = named "LOCK_HELD_ERROR" []

abbrev pub service_for : String → String
service_for pocket =
    if pocket === ua_infra_pocket
    then "esm-infra"
    else if pocket === ua_apps_pocket
    then "esm-apps"
    else "no-service-needed"

module _ {H : Type 0} (env : Env H) where
  -- `entitlement_factory` raises on a name it does not know, so what it returns is a class.
  unfoldable pub get_service_for_pocket : String → Machine H → Result (Entitlement H)
  get_service_for_pocket pocket m =
      map_ok (λ s. record { service = s; assume_yes = false; allow_beta = false })
        (entitlement_factory env (str (service_for pocket)) m)

  unfoldable pub is_pocket_used_by_beta_service : String → Action H Bool
  unfolding get_service_for_pocket
  is_pocket_used_by_beta_service pocket = reads (get_service_for_pocket pocket) >>= λ ent.
      reads (user_facing_status env ent.service) >>= λ (status, _).
      if is_active_status status
      then pure false
      else (reads (valid_service ent) >>= λ valid. pure (not valid))

module _ {H : Type 0} (calls : Calls H) where
  abbrev pub use_pro : Option Value → Action H (Unit {0})
  use_pro none = pure tt
  use_pro (some cloud) = info (named "SECURITY_USE_PRO_TMPL" (cloud ∷ []))

  unfoldable pub inform_ubuntu_pro_existence_if_applicable : Action H (Unit {0})
  inform_ubuntu_pro_existence_if_applicable = reads (λ m. ok (calls.pro_cloud m)) >>= use_pro

  -- `ret_code == 0`, or False where the user is to see the error
  abbrev pub attach_answer : Result ℕ × Machine H → Result Bool × Machine H
  attach_answer (ok code, m) = (ok (code == 0), m)
  attach_answer (err e, m) =
      if is_user_facing e then (info (message_of_error e) >> pure false) m else (err e, m)

  unfoldable pub run_ua_attach : String → Action H Bool
  run_ua_attach token = info (command ("pro" ∷ "attach" ∷ token ∷ [])) >> λ m.
      attach_answer (calls.action_attach token m)

  unfoldable pub prompt_for_attach : Action H Bool
  unfolding inform_ubuntu_pro_existence_if_applicable run_ua_attach
  prompt_for_attach =
      inform_ubuntu_pro_existence_if_applicable
      >> info (named "SECURITY_UPDATE_NOT_INSTALLED_SUBSCRIPTION" [])
      >> prompt_choices
          (named "Choose: [S]ubscribe at ubuntu.com [A]ttach existing token [C]ancel" [])
          ("s" ∷ "a" ∷ "c" ∷ [])
      >>= λ choice.
          if codes_eq choice (codes "c")
          then pure false
          else (when (codes_eq choice (codes "s"))
                (info (named "PROMPT_UA_SUBSCRIPTION_URL" []) >> input >> pure tt)
              >> (if codes_eq choice (codes "a") || codes_eq choice (codes "s")
                  then (info (named "PROMPT_ENTER_TOKEN" []) >> input >>= run_ua_attach)
                  else pure true))

  unfoldable pub prompt_for_enable : String → Action H Bool
  prompt_for_enable service =
      info (named "SECURITY_SERVICE_DISABLED" (str service ∷ []))
      >> prompt_choices (named "Choose: [E]nable {} [C]ancel" (str service ∷ [])) ("e" ∷ "c" ∷ [])
      >>= λ choice.
          if codes_eq choice (codes "e")
          then (info (command ("pro" ∷ "enable" ∷ service ∷ []))
              >> calls.action_enable service
              >>= λ code. pure (code == 0))
          else pure false

  unfoldable pub prompt_for_new_token : Action H Bool
  unfolding inform_ubuntu_pro_existence_if_applicable run_ua_attach
  prompt_for_new_token =
      inform_ubuntu_pro_existence_if_applicable
      >> info (named "SECURITY_UPDATE_NOT_INSTALLED_EXPIRED" [])
      >> prompt_choices
          (named "Choose: [R]enew your subscription (at {}) [C]ancel"
            (str "https://ubuntu.com/pro" ∷ []))
          ("r" ∷ "c" ∷ [])
      >>= λ choice.
          if codes_eq choice (codes "r")
          then (info (named "PROMPT_EXPIRED_ENTER_TOKEN" []) >> input >>= λ token.
              (info (command ("pro" ∷ "detach" ∷ []))
                >> calls.action_detach
                >> run_ua_attach token))
          else pure false
