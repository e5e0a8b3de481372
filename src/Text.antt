-- ===== src/Text.antt =====
-- The operations of Python's `str` that the modelled code calls, on the code points of a text.
-- Letters, digits and blanks are those of ASCII.
use Prim.Native.Char.{Char, code}
use Prim.Native.Nat.{◌*◌}
use ubuntu_advantage_client.Base.{
  ℕ, ◌+◌, ◌-◌, String, Bool, true, false, Option, none, some, List, [], ◌∷◌, ◌&&◌, ◌||◌, leb, ◌==◌,
  if◌then◌else◌, map, is_nonempty, not, zero, suc, length,
}
use ubuntu_advantage_client.Base.Int.{ℤ, pos, negsuc}

abbrev pub codes : String → List ℕ
codes String.[] = []
codes (String.◌∷◌ c s) = code c ∷ codes s

abbrev pub codes_eq : List ℕ → List ℕ → Bool
codes_eq [] [] = true
codes_eq (a ∷ s) (b ∷ t) = (a == b) && codes_eq s t
codes_eq _ _ = false

abbrev pub is_digit : ℕ → Bool
is_digit c = leb b'0' c && leb c b'9'

abbrev pub is_blank : ℕ → Bool
is_blank c = (c == 32) || (leb 9 c && leb c 13) || (leb 28 c && leb c 31)

abbrev pub lower_code : ℕ → ℕ
lower_code c = if leb b'A' c && leb c b'Z' then c + 32 else c

-- s.lower()
abbrev pub lower : List ℕ → List ℕ
lower s = map lower_code s

abbrev pub lstrip : List ℕ → List ℕ
lstrip [] = []
lstrip (c ∷ s) = elim (is_blank c) [ true ↦ lstrip s | false ↦ c ∷ s ]

abbrev pub rstrip : List ℕ → List ℕ
rstrip [] = []
rstrip (c ∷ s) =
    let rest = rstrip s in if is_blank c && not (is_nonempty rest) then [] else c ∷ rest

-- s.strip()
abbrev pub strip : List ℕ → List ℕ
strip s = lstrip (rstrip s)

-- s.split(sep), for a separator of one character
unfoldable pub split : ℕ → List ℕ → List (List ℕ)
split sep [] = [] ∷ []
split sep (c ∷ s) = elim (split sep s) [
  | [] ↦ []
  | w ∷ ws ↦ if c == sep then [] ∷ (w ∷ ws) else (c ∷ w) ∷ ws
]

-- The digits of an `int` literal, single underscores between them; `last` is whether one came last.
unfoldable pub int_digits : ℕ → Bool → List ℕ → Option ℕ
int_digits n last [] = if last then some n else none
int_digits n last (c ∷ s) =
    let rest = int_digits (if is_digit c then n * 10 + (c - 48) else n) (is_digit c) s in
    if is_digit c || ((c == b'_') && last) then rest else none

abbrev pub signed : Bool → Option ℕ → Option ℤ
signed minus none = none
signed minus (some n) = some (if minus && leb 1 n then negsuc (n - 1) else pos n)

unfoldable pub int_signed : List ℕ → Option ℤ
unfolding int_digits
int_signed [] = none
int_signed (c ∷ s) =
    if c == b'-'
    then signed true (int_digits 0 false s)
    else if c == b'+'
    then signed false (int_digits 0 false s)
    else signed false (int_digits 0 false (c ∷ s))

-- int(s); `none` stands for `ValueError`
unfoldable pub int_of : List ℕ → Option ℤ
unfolding int_signed
int_of s = int_signed (strip s)

abbrev pub prefix_of : List ℕ → List ℕ → Bool
prefix_of [] t = true
prefix_of (a ∷ s) [] = false
prefix_of (a ∷ s) (b ∷ t) = (a == b) && prefix_of s t

-- s in t
abbrev pub infix_of : List ℕ → List ℕ → Bool
infix_of s [] = prefix_of s []
infix_of s (b ∷ t) = prefix_of s (b ∷ t) || infix_of s t

-- the character of the second text where the first has this one
abbrev pub translated : String → String → Char → Char
translated String.[] t c = c
translated (String.◌∷◌ a s) String.[] c = c
translated (String.◌∷◌ a s) (String.◌∷◌ b t) c = elim (code a == code c) [
  | true ↦ b
  | false ↦ translated s t c
]

-- s.upper()
abbrev pub upper : String → String
upper String.[] = ""
upper (String.◌∷◌ c s) =
    String.◌∷◌ (translated "abcdefghijklmnopqrstuvwxyz" "ABCDEFGHIJKLMNOPQRSTUVWXYZ" c) (upper s)

abbrev pub concat : String → String → String
concat String.[] t = t
concat (String.◌∷◌ c s) t = String.◌∷◌ c (concat s t)

-- s.replace(old, new), for an `old` that is not empty. The number counts the characters of an
-- occurrence that are still to be passed over.
abbrev pub replace_from : String → String → ℕ → String → String
replace_from old new skip String.[] = ""
replace_from old new zero (String.◌∷◌ c s) = elim (prefix_of (codes old) (code c ∷ codes s)) [
  | true ↦ concat new (replace_from old new (length (codes old) - 1) s)
  | false ↦ String.◌∷◌ c (replace_from old new 0 s)
]
replace_from old new (suc skip) (String.◌∷◌ c s) = replace_from old new skip s

abbrev pub replace : String → String → String → String
replace old new s = replace_from old new 0 s
