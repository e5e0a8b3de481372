-- ===== src/TokenFile/Fresh.antt =====
-- What is read after a write, and what is not read again.
use ubuntu_advantage_client.Base.{◌≡◌, refl, ◌∙◌, Bool, true, false, Option, some, if◌then◌else◌}
use ubuntu_advantage_client.Exception.{Result, ok, err}
use ubuntu_advantage_client.Json.{Value, Fields, truthy}
use ubuntu_advantage_client.TokenFile.{
  MachineTokenFile, public_content, write_public, write_if, write, read, merged_with,
  read_with_overlay, cache_token, machine_token, contract_expiry_datetime,
}

module _ (encoded decoded : Value → Value) (overlay : Option (Result Fields)) where
  -- the token that a file of this content holds, with the overlay
  abbrev pub token_of : Value → Result Value
  token_of content =
      if truthy (decoded (encoded content))
      then merged_with overlay (decoded (encoded content))
      else ok (decoded (encoded content))

  cache_token-answer :
      (f : MachineTokenFile) (r : Result Value) → (cache_token encoded decoded overlay f r).0 ≡ r
  cache_token-answer f (ok token) = refl
  cache_token-answer f (err e) = refl

  abbrev after_write :
      Value → MachineTokenFile → Result Fields → Result (Unit {0}) × MachineTokenFile
  after_write content f r =
      write_public encoded decoded overlay (record f { private_file = some (encoded content) }) r

  written-token :
      (content : Value) (f : MachineTokenFile) (r : Result Fields)
      → f.is_root ≡ true
      → (after_write content f r).0 ≡ ok tt
      → (machine_token encoded decoded overlay (after_write content f r).1).0 ≡ token_of content
  unfolding machine_token read_with_overlay read
  written-token content f (err e) root h = cc h
  written-token content f (ok d) root h =
      cache_token-answer (after_write content f (ok d)).1
        (read_with_overlay encoded decoded overlay (after_write content f (ok d)).1)
      ∙ rw root refl

  write_public-expiry :
      (f : MachineTokenFile) (r : Result Fields)
      → (write_public encoded decoded overlay f r).1.cached_expiry ≡ f.cached_expiry
  write_public-expiry f (ok d) = refl
  write_public-expiry f (err e) = refl

  write_if-expiry :
      (b : Bool) (content : Value) (f : MachineTokenFile)
      → (write_if encoded decoded overlay b content f).1.cached_expiry ≡ f.cached_expiry
  write_if-expiry true content f =
      write_public-expiry (record f { private_file = some (encoded content) })
        (public_content (encoded content))
  write_if-expiry false content f = refl

  write_if-token :
      (b : Bool) (content : Value) (f : MachineTokenFile)
      → f.is_root ≡ true
      → b ≡ true
      → (write_if encoded decoded overlay b content f).0 ≡ ok tt
      → (machine_token encoded decoded overlay (write_if encoded decoded overlay b content f).1).0
        ≡ token_of content
  write_if-token true content f root same h =
      written-token content f (public_content (encoded content)) root h
  write_if-token false content f root same h = cc same

  kept_expiry :
      (f : MachineTokenFile) (expiry : Value)
      → f.cached_expiry ≡ some expiry
      → truthy expiry ≡ true
      → (contract_expiry_datetime encoded decoded overlay f).0 ≡ ok expiry
  unfolding contract_expiry_datetime
  kept_expiry f expiry cached present = rw (cached, present) refl

  -- After root has written a token, the machine token is the one written, with the overlay, whatever
  -- was kept in memory before.
  pub machine_token-write :
      (content : Value) (f : MachineTokenFile)
      → f.is_root ≡ true
      → (write encoded decoded overlay content f).0 ≡ ok tt
      → (machine_token encoded decoded overlay (write encoded decoded overlay content f).1).0
        ≡ token_of content
  unfolding write
  machine_token-write content f root h = write_if-token f.is_root content f root root h

  -- A time of expiry that is kept in memory is answered also after root has written another token.
  pub contract_expiry_datetime-write :
      (content expiry : Value) (f : MachineTokenFile)
      → f.cached_expiry ≡ some expiry
      → truthy expiry ≡ true
      → (contract_expiry_datetime encoded decoded overlay
          (write encoded decoded overlay content f).1).0
        ≡ ok expiry
  unfolding write
  contract_expiry_datetime-write content expiry f cached present =
      kept_expiry (write encoded decoded overlay content f).1 expiry
        (write_if-expiry f.is_root content f ∙ cached) present
