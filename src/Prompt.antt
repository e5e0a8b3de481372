-- ===== src/Prompt.antt =====
-- `prompt_for_confirmation`, `prompt_choices` and `handle_message_operations` (uaclient/util.py).
pub mod Choices
mod Tests
use ubuntu_advantage_client.Base.{ℕ, String, Bool, true, false, List, [], ◌∷◌, ◌||◌, if◌then◌else◌}
use ubuntu_advantage_client.Exception.{ok, err, other_error}
use ubuntu_advantage_client.Text.{codes, codes_eq, lower, strip}
use ubuntu_advantage_client.Json.{str}
use ubuntu_advantage_client.Machine.{Message, named, Action, pure, raise, info, ◌>>=◌, ◌>>◌}

-- The tests on what was typed.
abbrev pub confirms : Bool → String → Bool
confirms default a =
    let value = strip (lower (codes a)) in
    if codes_eq value []
    then default
    else codes_eq value (codes "y") || codes_eq value (codes "yes")

-- value in valid_choices
abbrev pub is_choice : List String → List ℕ → Bool
is_choice [] value = false
is_choice (c ∷ cs) value = codes_eq value (codes c) || is_choice cs value

-- The message of a refused choice is made before anything is typed: its value is empty.
abbrev pub not_a_choice : Message
not_a_choice = named "{} is not one of: {}" (str "" ∷ [])

module _ {H : Type 0} where
  abbrev pub next_line : List String → Action H String
  next_line [] m = (err (other_error "EOFError"), m)
  next_line (a ∷ rest) m = (ok a, record m { answers = rest })

  -- input(): the next line that the user types
  abbrev pub input : Action H String
  input m = next_line m.answers m

  unfoldable pub prompt_for_confirmation : Bool → Bool → Action H Bool
  prompt_for_confirmation assume_yes default =
      if assume_yes then pure true else (input >>= λ a. pure (confirms default a))

  -- `while True`: a round for each line that the user types.
  unfoldable pub choose : Message → List String → List String → Action H (List ℕ)
  choose msg valid [] m = (info msg >> raise (other_error "EOFError")) m
  choose msg valid (a ∷ typed) m =
      let again = (info not_a_choice >> choose msg valid typed) in
      (info msg >> input >>= λ line.
      if is_choice valid (lower (codes line)) then pure (lower (codes line)) else again)
        m

  unfoldable pub prompt_choices : Message → List String → Action H (List ℕ)
  unfolding choose
  prompt_choices msg valid m = choose msg valid m.answers m

-- An item of a list of message operations: a text, or a callable with its arguments.
pub data MessageOperation (H : Type 0) : Type 0 where
  text : Message → MessageOperation H
  call : Action H Bool → MessageOperation H

module _ {H : Type 0} where
  unfoldable pub handle_message_operations : List (MessageOperation H) → Action H Bool
  handle_message_operations [] = pure true
  handle_message_operations (text msg ∷ ops) = info msg >> handle_message_operations ops
  handle_message_operations (call functor ∷ ops) =
      functor >>= λ done. if done then handle_message_operations ops else pure false
