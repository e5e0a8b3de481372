-- ===== src/Prompt/Choices.antt =====
-- The answer that `prompt_choices` returns.
use mathlib.Core.Path.{subst}
use ubuntu_advantage_client.Base.{
  String, ◌≡◌, refl, sym, Bool, true, false, List, [], ◌∷◌, ◌++◌, All,
}
use ubuntu_advantage_client.Exception.{ok}
use ubuntu_advantage_client.Text.{codes, lower}
use ubuntu_advantage_client.Machine.{Message, Machine, info}
use ubuntu_advantage_client.Prompt.{is_choice, not_a_choice, choose, prompt_choices}

-- the line, as it is compared, is one of the choices
abbrev pub accepted : List String → String → Bool
accepted valid line = is_choice valid (lower (codes line))

module _ {H : Type 0} (msg : Message) (valid : List String) where
  choose-accepted :
      (a : String) (after : List String) (m : Machine H)
      → accepted valid a ≡ true
      → m.answers ≡ a ∷ after
      → ((choose msg valid (a ∷ after) m).0 ≡ ok (lower (codes a)))
        × ((choose msg valid (a ∷ after) m).1.answers ≡ after)
  unfolding choose
  choose-accepted a after m good typed = rw (typed, good) (refl, refl)

  choose-refused :
      (b : String) (typed : List String) (m : Machine H)
      → accepted valid b ≡ false
      → m.answers ≡ b ∷ typed
      → (m' : Machine H) × (m'.answers ≡ typed)
        × (choose msg valid (b ∷ typed) m ≡ choose msg valid typed m')
  unfolding choose
  choose-refused b typed m bad lines = (
    (info not_a_choice (record (info msg m).1 { answers = typed })).1,
    refl,
    rw (lines, bad) refl,
  )

  choose-first :
      (before : List String) (a : String) (after : List String) (m : Machine H)
      → All (λ b. accepted valid b ≡ false) before
      → accepted valid a ≡ true
      → m.answers ≡ before ++ a ∷ after
      → ((choose msg valid (before ++ a ∷ after) m).0 ≡ ok (lower (codes a)))
        × ((choose msg valid (before ++ a ∷ after) m).1.answers ≡ after)
  choose-first [] a after m bad good typed = choose-accepted a after m good typed
  choose-first (b ∷ before) a after m bad good typed =
      let (m', lines, same) = choose-refused b (before ++ a ∷ after) m bad.0 typed in
      rw same (choose-first before a after m' bad.1 good lines)

  -- `prompt_choices` returns, in lower case, the first line that the user types and that is one of
  -- the choices, and leaves the lines that follow unread.
  pub prompt_choices-first :
      (before : List String) (a : String) (after : List String) (m : Machine H)
      → All (λ b. accepted valid b ≡ false) before
      → accepted valid a ≡ true
      → m.answers ≡ before ++ a ∷ after
      → ((prompt_choices msg valid m).0 ≡ ok (lower (codes a)))
        × ((prompt_choices msg valid m).1.answers ≡ after)
  unfolding prompt_choices
  prompt_choices-first before a after m bad good typed =
      subst
        (λ lines.
          ((choose msg valid lines m).0 ≡ ok (lower (codes a)))
          × ((choose msg valid lines m).1.answers ≡ after))
        (sym typed) (choose-first before a after m bad good typed)
