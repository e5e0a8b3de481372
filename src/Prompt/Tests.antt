-- ===== src/Prompt/Tests.antt =====
-- A prompt with two choices.
use ubuntu_advantage_client.Base.{ℕ, String, ◌≡◌, refl, false, List, [], ◌∷◌}
use ubuntu_advantage_client.Exception.{ok}
use ubuntu_advantage_client.Json.{end}
use ubuntu_advantage_client.Text.{codes}
use ubuntu_advantage_client.Machine.{Message, Machine, named}
use ubuntu_advantage_client.Prompt.{prompt_choices}
use ubuntu_advantage_client.Prompt.Choices.{prompt_choices-first}

abbrev question : Message
question = named "PROMPT_ENTER_TOKEN" []

abbrev choices : List String
choices = "s" ∷ "c" ∷ []

-- two lines that are refused, a choice in upper case, and a line for the next prompt
abbrev machine : Machine ℕ
machine = record {
  host = 0;
  attached = false;
  config = end;
  entitlements = end;
  cache = end;
  answers = "" ∷ "x" ∷ "S" ∷ "yes" ∷ [];
  shown = [];
}

prompt_choices-first_example :
    ((prompt_choices question choices machine).0 ≡ ok (codes "s"))
    × ((prompt_choices question choices machine).1.answers ≡ "yes" ∷ [])
prompt_choices-first_example =
    prompt_choices-first question choices ("" ∷ "x" ∷ []) "S" ("yes" ∷ []) machine
      (refl, (refl, tt)) refl refl
