-- ===== src/Exception.antt =====
-- Python's exceptions, as far as the modelled code raises or catches them, and computations that
-- may raise one (uaclient/exceptions.py and the built-in classes).
use ubuntu_advantage_client.Base.{◌≡◌, refl, String, Bool, true, false, List, [], ◌∷◌, contains}
use ubuntu_advantage_client.Base.Int.{ℤ}

-- `user_facing code` stands for `UserFacingError` with the message of that name.
pub data Exception : Type 0 where
  attribute_error key_error type_error value_error runtime_error recursion_error : Exception
  user_facing : String → Exception
  entitlement_not_found : Exception
  lock_held : String → String → ℤ → Exception
  -- `SecurityAPIError` with its text
  security_api_error : String → Exception
  other_error : String → Exception

pub data Result {ℓ} (A : Type ℓ) : Type ℓ where
  err : Exception → Result A
  ok : A → Result A

-- the classes that extend `UserFacingError`, as far as they are named here
abbrev pub user_facing_classes : List String
user_facing_classes =
    "NonRootUserError" ∷ "UnattachedError" ∷ "AlreadyAttachedError" ∷ "AttachError"
    ∷ "AttachInvalidTokenError" ∷ "ConnectivityError" ∷ "SecurityAPIMetadataError"
    ∷ "InvalidServiceToDisableError" ∷ "IncorrectTypeError" ∷ []

-- `except exceptions.UserFacingError`
abbrev pub is_user_facing : Exception → Bool
is_user_facing (user_facing _) = true
is_user_facing (lock_held _ _ _) = true
is_user_facing (other_error name) = contains user_facing_classes name
is_user_facing _ = false

infixl 5 ◌>>=◌
-- what follows code that may raise
abbrev pub ◌>>=◌ {ℓ κ} :
    {B : Type κ} {A : Type ℓ} (first : Result A) (next : (value : A) → Result B) → Result B
err raised >>= next = err raised
ok value >>= next = next value

abbrev pub map_ok {ℓ κ} : {A : Type ℓ} {B : Type κ} → (A → B) → Result A → Result B
map_ok f (err raised) = err raised
map_ok f (ok value) = ok (f value)

-- where the whole returns, the first part has returned, and what follows returns from its value
pub >>=-eq-ok {κ ℓ} :
    {B : Type κ} {A : Type ℓ} (first : Result A) (next : A → Result B) {last : B}
    → (first >>= next) ≡ ok last
    → (value : A) × (first ≡ ok value) × (next value ≡ ok last)
>>=-eq-ok (err raised) next returned = cc
>>=-eq-ok (ok value) next returned = (value, refl, returned)

pub ok-injective {ℓ} : {A : Type ℓ} {a b : A} → ok a ≡ ok b → a ≡ b
ok-injective h = cc h
