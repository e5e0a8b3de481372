-- ===== src/TokenFile.antt =====
-- The machine token on disk and what is kept of it in memory: `MachineTokenFile` (uaclient/files.py).
pub mod Classes
pub mod Public
pub mod Fresh
mod Tests
use ubuntu_advantage_client.Base.{
  String, Bool, true, false, Option, none, some, List, [], ◌∷◌, ◌===◌, ◌||◌, not, if◌then◌else◌,
}
use ubuntu_advantage_client.Exception.{
  Result, ok, err, other_error, attribute_error, type_error, ◌>>=◌,
}
use ubuntu_advantage_client.Json.{
  Value, null, str, arr, obj, Items, nil, cons, Fields, end, field, get, put, remove, value_or,
  get_attr, subscript, truthy,
}
use ubuntu_advantage_client.DataTypes.{Attributes, Parsed, parsed, refused, from_dict, to_dict}
use ubuntu_advantage_client.Overrides.{apply_contract_overrides}
use ubuntu_advantage_client.Overlay.{depth_first_merge_overlay_dict}
use ubuntu_advantage_client.TokenFile.Classes.{public_machine_token_fields}

-- The two files, and the attributes that cache: `none` is None.
pub record MachineTokenFile : Type 0 where
  pub is_root : Bool
  pub private_file : Option Value
  pub public_file : Option Value
  pub cached_token : Option Value
  pub cached_entitlements : Option Fields
  pub cached_expiry : Option Value

abbrev pub written : Parsed Attributes → Result Fields
written (parsed kwargs) = ok (to_dict false kwargs)
written (refused e) = err (other_error "IncorrectTypeError")

-- PublicMachineTokenData.from_dict(content).to_dict(False)
unfoldable pub public_content : Value → Result Fields
unfolding from_dict to_dict
public_content (obj content) = written (from_dict public_machine_token_fields content)
public_content _ = err attribute_error

abbrev pub non_root : {A : Type 0} → Result A
non_root = err (other_error "NonRootUserError")

abbrev pub merged_with : Option (Result Fields) → Value → Result Value
merged_with none content = ok content
merged_with (some (err e)) content = err e
merged_with (some (ok end)) content = ok content
merged_with (some (ok (field k v fs))) (obj base) =
    depth_first_merge_overlay_dict base (field k v fs) >>= λ d. ok (obj d)
merged_with (some (ok (field k v fs))) _ = err attribute_error

-- `encoded` is what json.loads reads of what json.dumps has written, `decoded` what the decoder that
-- knows times makes of it; the overlay is None where there is no path.
module _ (encoded decoded : Value → Value) (overlay : Option (Result Fields)) where
  -- The private file is written before the public content is made.
  abbrev pub write_public : MachineTokenFile → Result Fields → Result (Unit {0}) × MachineTokenFile
  write_public f (err e) = (err e, f)
  write_public f (ok content) = (
    ok tt,
    record f {
      public_file = some (encoded (obj content));
      cached_token = none;
      cached_entitlements = none;
    },
  )

  -- by whether it is root that writes
  abbrev pub write_if : Bool → Value → MachineTokenFile → Result (Unit {0}) × MachineTokenFile
  write_if is_root content f =
      if is_root
      then write_public (record f { private_file = some (encoded content) })
          (public_content (encoded content))
      else (non_root, f)

  unfoldable pub write : Value → MachineTokenFile → Result (Unit {0}) × MachineTokenFile
  unfolding public_content
  write content f = write_if f.is_root content f

  unfoldable pub delete : MachineTokenFile → Result (Unit {0}) × MachineTokenFile
  delete f =
      if f.is_root
      then (
        ok tt,
        record f {
          public_file = none;
          private_file = none;
          cached_token = none;
          cached_entitlements = none;
        },
      )
      else (non_root, f)

  abbrev pub decoded_file : Option Value → Value
  decoded_file none = null
  decoded_file (some content) = decoded content

  unfoldable pub read : MachineTokenFile → Value
  read f = decoded_file (if f.is_root then f.private_file else f.public_file)

  -- what is read, with the overlay where there is a token
  unfoldable pub read_with_overlay : MachineTokenFile → Result Value
  unfolding read
  read_with_overlay f = if truthy (read f) then merged_with overlay (read f) else ok (read f)

  abbrev pub cache_token : MachineTokenFile → Result Value → Result Value × MachineTokenFile
  cache_token f (err e) = (err e, f)
  cache_token f (ok token) = (ok token, record f { cached_token = some token })

  abbrev pub token_or_read : Option Value → MachineTokenFile → Result Value × MachineTokenFile
  token_or_read none f = cache_token f (read_with_overlay f)
  token_or_read (some token) f =
      if truthy token then (ok token, f) else cache_token f (read_with_overlay f)

  unfoldable pub machine_token : MachineTokenFile → Result Value × MachineTokenFile
  unfolding read_with_overlay
  machine_token f = token_or_read f.cached_token f

  abbrev pub expiry_in : Value → Result Value
  expiry_in token =
      subscript "machineTokenInfo" token >>= subscript "contractInfo" >>= subscript "effectiveTo"

  abbrev pub cache_expiry : Result Value × MachineTokenFile → Result Value × MachineTokenFile
  cache_expiry (err e, f) = (err e, f)
  cache_expiry (ok token, f) = elim (expiry_in token) [
    | err e ↦ (err e, f)
    | ok expiry ↦ (ok expiry, record f { cached_expiry = some expiry })
  ]

  abbrev pub expiry_or_read : Option Value → MachineTokenFile → Result Value × MachineTokenFile
  expiry_or_read none f = cache_expiry (machine_token f)
  expiry_or_read (some expiry) f =
      if truthy expiry then (ok expiry, f) else cache_expiry (machine_token f)

  unfoldable pub contract_expiry_datetime : MachineTokenFile → Result Value × MachineTokenFile
  unfolding machine_token
  contract_expiry_datetime f = expiry_or_read f.cached_expiry f
