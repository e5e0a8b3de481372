-- ===== src/Machine.antt =====
-- What the client reads and changes on a machine, and the actions on it: Python code that changes
-- the state and may raise. What was written before a raise stays written.
pub mod Steps
pub mod OnlyShows
pub mod Avoids
use ubuntu_advantage_client.Base.{
  ℕ, String, Bool, true, false, Option, none, some, List, [], ◌∷◌, ◌++◌, if◌then◌else◌,
}
use ubuntu_advantage_client.Exception.{Exception, Result, ok, err}
use ubuntu_advantage_client.Json.{Value, Fields}

-- A `NamedMessage` of uaclient/messages.py: the constant and what its template is filled with.
-- `about` is one whose template also takes the text of another failure's message.
pub data Message : Type 0 where
  named : String → List Value → Message
  about : String → Message → List Value → Message

-- `H` is the state of the system outside the client: packages, snaps, files of the services.
pub record Machine (H : Type 0) : Type 0 where
  pub host : H
  -- cfg.is_attached, cfg.cfg, cfg.machine_token_file.entitlements
  pub attached : Bool
  pub config : Fields
  pub entitlements : Fields
  -- the files of the data directory that `read_cache` reads, by key
  pub cache : Fields
  -- what the user types, and what `event.info` has shown
  pub answers : List String
  pub shown : List Message

abbrev pub Action : Type 0 → Type 0 → Type 0
Action H A = Machine H → Result A × Machine H

module _ {H A : Type 0} where
  abbrev pub pure : A → Action H A
  pure a m = (ok a, m)

  abbrev pub raise : Exception → Action H A
  raise e m = (err e, m)

  -- code that only reads the machine
  abbrev pub reads : (Machine H → Result A) → Action H A
  reads f m = (f m, m)

module _ {H A B : Type 0} where
  abbrev pub continue : (A → Action H B) → Result A → Action H B
  continue f (ok a) m = f a m
  continue f (err e) m = (err e, m)

  infixl 5 ◌>>=◌ ◌>>◌
  abbrev pub ◌>>=◌ : Action H A → (A → Action H B) → Action H B
  ◌>>=◌ a f m = continue f (a m).0 (a m).1

  abbrev pub ◌>>◌ : Action H A → Action H B → Action H B
  a >> b = a >>= λ _. b

module _ {H : Type 0} where
  -- event.info
  abbrev pub info : Message → Action H (Unit {0})
  info x m = (ok tt, record m { shown = m.shown ++ x ∷ [] })

  abbrev pub when : Bool → Action H (Unit {0}) → Action H (Unit {0})
  when true a = a
  when false a = pure tt
