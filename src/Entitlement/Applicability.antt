-- ===== src/Entitlement/Applicability.antt =====
-- `applicability_status` and `user_facing_status` (uaclient/entitlements/base.py).
use ubuntu_advantage_client.Base.{
  String, Bool, true, false, Option, none, some, List, [], ◌∷◌, if◌then◌else◌, not, ◌||◌, ◌&&◌,
}
use ubuntu_advantage_client.Base.Int.{ℤ, pos, ltb_ℤ, eq_ℤ}
use ubuntu_advantage_client.Exception.{Result, ok, err, attribute_error, ◌>>=◌}
use ubuntu_advantage_client.Text.{codes, split, int_of}
use ubuntu_advantage_client.Json.{Value, null, bool, str, obj, end, get_attr, truthy, text_in}
use ubuntu_advantage_client.Machine.{Machine, Message, named}
use ubuntu_advantage_client.Entitlement.{Env, Service, StaticAffordance, Platform}
use ubuntu_advantage_client.Entitlement.Contract.{entitlement_cfg, entitlement_entry}
use ubuntu_advantage_client.Entitlement.Kernel.{KernelMatch, match_kernel}
use ubuntu_advantage_client.Entitlement.Status.{
  ApplicationStatus, enabled, disabled, ApplicabilityStatus, applicable, inapplicable,
  UserFacingStatus,
}

abbrev pub Applicability : Type 0
Applicability = ApplicabilityStatus × Option Message

-- `some msg` is `return INAPPLICABLE, msg`
abbrev pub Check : Type 0
Check = Result (Option Message)

-- A check that passes lets the next one decide.
infixr 20 ◌and_then◌
abbrev pub ◌and_then◌ : {A : Type 0} → Result (Option A) → Result (Option A) → Result (Option A)
first and_then second = first >>= λ r. elim r [ none ↦ second | some msg ↦ ok (some msg) ]

abbrev pub refuse_unless : Bool → Message → Check
refuse_unless b msg = ok (if b then none else some msg)

-- `affordance is not None and text not in affordance`
abbrev pub check_in : Value → String → Message → Check
check_in null text msg = ok none
check_in affordance text msg = text_in text affordance >>= λ found. refuse_unless found msg

-- `major.minor`, each an `int`; `none` is the `ValueError` that is caught
unfoldable pub min_version : String → Option (ℤ × ℤ)
min_version text = elim (split b'.' (codes text)) [
  | [] ↦ none
  | major ∷ rest ↦ elim rest [
    | [] ↦ none
    | minor ∷ more ↦ elim more [
      | [] ↦ elim (int_of major) [
        | none ↦ none
        | some a ↦ elim (int_of minor) [ none ↦ none | some b ↦ some (a, b) ]
      ]
      | _ ↦ none
    ]
  ]
]

-- the kernel is not older than major.minor
abbrev pub is_recent : KernelMatch → ℤ → ℤ → Bool
is_recent k major minor =
    not (ltb_ℤ (pos k.major) major) && not (eq_ℤ (pos k.major) major && ltb_ℤ (pos k.minor) minor)

abbrev pub against_min : Option (ℤ × ℤ) → Option KernelMatch → Message → Check
against_min none k msg = ok (some msg)
against_min (some v) none msg = ok (some msg)
against_min (some (major, minor)) (some k) msg = refuse_unless (is_recent k major minor) msg

abbrev pub verdict : Option Message → Applicability
verdict none = (applicable, none)
verdict (some msg) = (inapplicable, some msg)

-- {ApplicationStatus.ENABLED: UserFacingStatus.ACTIVE, …}[application_status]
abbrev pub shown_as : ApplicationStatus → UserFacingStatus
shown_as enabled = UserFacingStatus.active
shown_as disabled = UserFacingStatus.inactive

-- `value is False`
abbrev pub is_false : Value → Bool
is_false (bool false) = true
is_false _ = false

module _ {H : Type 0} (env : Env H) (s : Service H) where
  -- the loop over `static_affordances`
  unfoldable pub check_static : List (StaticAffordance H) → Machine H → Check
  check_static [] m = ok none
  check_static (a ∷ rest) m =
      let others = check_static rest m in
      do
        result ← a.functor m
        if (result && a.expected_result) || (not result && not a.expected_result)
            then others
            else ok (some a.error_message)

  -- `not match or match.group("flavor") not in affordance_kernels`
  unfoldable pub check_flavor : Value → String → Check
  check_flavor null kernel = ok none
  check_flavor kernels kernel =
      let msg = named "INAPPLICABLE_KERNEL" (str s.title ∷ str kernel ∷ kernels ∷ []) in
      elim (match_kernel kernel) [ none ↦ ok (some msg) | some k ↦ check_in kernels k.flavor msg ]

  unfoldable pub check_min_kernel : Value → String → Check
  unfolding min_version
  check_min_kernel minimum kernel =
      let msg = named "INAPPLICABLE_KERNEL_VER" (str s.title ∷ str kernel ∷ minimum ∷ []) in
      if not (truthy minimum) then ok none else elim minimum [
        | str text ↦ against_min (min_version text) (match_kernel kernel) msg
        | _ ↦ err attribute_error
      ]

  -- the checks of the contract's affordances against the platform
  unfoldable pub check_platform : Value → Platform → Check
  unfolding check_flavor check_min_kernel
  check_platform affordances p = do
    arches ← get_attr "architectures" null affordances
    series ← get_attr "series" null affordances
    kernels ← get_attr "kernelFlavors" null affordances
    min_kernel ← get_attr "minKernelVersion" null affordances
    check_in arches p.arch (named "INAPPLICABLE_ARCH" (str s.title ∷ str p.arch ∷ arches ∷ []))
        and_then check_in series p.series
            (named "INAPPLICABLE_SERIES" (str s.title ∷ str p.version ∷ []))
        and_then check_flavor kernels p.kernel
        and_then check_min_kernel min_kernel p.kernel

  unfoldable pub applicability_status : Machine H → Result Applicability
  unfolding check_static check_platform
  applicability_status m =
      if not (truthy (entitlement_cfg s.name m))
      then ok (applicable, some (named "NO_ENTITLEMENT_AFFORDANCES_CHECKED" []))
      else (check_static s.static_affordances m and_then (do
        affordances ← entitlement_entry "affordances" (obj end) (entitlement_cfg s.name m)
        platform ← env.platform m
        check_platform affordances platform))
        >>= λ r. ok (verdict r)

  -- the part of `user_facing_status` that follows the applicability
  unfoldable pub entitled_status : Machine H → Result (UserFacingStatus × Option Message)
  entitled_status m =
      let refused : UserFacingStatus × Option Message =
        (UserFacingStatus.unavailable, some (named "SERVICE_NOT_ENTITLED" (str s.title ∷ []))) in
      if not (truthy (entitlement_cfg s.name m)) then ok refused else (do
        is_entitled ← entitlement_entry "entitled" (bool false) (entitlement_cfg s.name m)
        if is_false is_entitled then ok refused else (do
          (status, explanation) ← s.application_status m
          ok (shown_as status, explanation)))

  unfoldable pub user_facing_status : Machine H → Result (UserFacingStatus × Option Message)
  unfolding applicability_status entitled_status
  user_facing_status m = do
    (applicability, details) ← applicability_status m
    elim applicability [
      | applicable ↦ entitled_status m
      | inapplicable ↦ ok (UserFacingStatus.inapplicable, details)
    ]
