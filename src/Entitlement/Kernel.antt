-- ===== src/Entitlement/Kernel.antt =====
-- `RE_KERNEL_UNAME` (uaclient/entitlements/base.py): `re.match` on a kernel's release. Digits and
-- letters are those of ASCII.
use Prim.Native.Char.{code}
use Prim.Native.Nat.{◌*◌}
use ubuntu_advantage_client.Base.{
  ℕ, ◌+◌, ◌-◌, String, Bool, true, false, Option, none, some, ◌&&◌, ◌||◌, leb, ◌==◌, ◌===◌,
  if◌then◌else◌,
}
use ubuntu_advantage_client.Text.{is_digit}

-- the groups of a match that the code uses
pub record KernelMatch : Type 0 where
  pub major : ℕ
  pub minor : ℕ
  pub flavor : String

infixl 5 ◌>>=◌
abbrev ◌>>=◌ : {A B : Type 0} → Option A → (A → Option B) → Option B
none >>= f = none
some a >>= f = f a

-- [\d]*, as a number, and what follows
abbrev digits : ℕ → String → ℕ × String
digits n String.[] = (n, "")
digits n (String.◌∷◌ c s) =
    let rest = digits (n * 10 + (code c - 48)) s in
    if is_digit (code c) then rest else (n, String.◌∷◌ c s)

-- [\d]+
abbrev number : String → Option (ℕ × String)
number String.[] = none
number (String.◌∷◌ c s) = if is_digit (code c) then some (digits 0 (String.◌∷◌ c s)) else none

-- [.-], and `-` alone
abbrev separator : Bool → String → Option String
separator dot String.[] = none
separator dot (String.◌∷◌ c s) =
    if (code c == b'-') || (dot && (code c == b'.')) then some s else none

abbrev is_word : ℕ → Bool
is_word c =
    is_digit c
    || (leb b'A' c && leb c b'Z')
    || (leb b'a' c && leb c b'z')
    || (c == b'_')
    || (c == b'-')

-- [A-Za-z0-9_-]*
abbrev word : String → String
word String.[] = ""
word (String.◌∷◌ c s) = let rest = word s in if is_word (code c) then String.◌∷◌ c rest else ""

unfoldable pub match_kernel : String → Option KernelMatch
match_kernel s = do
  (major, s₁) ← number s
  s₂ ← separator true s₁
  (minor, s₃) ← number s₂
  s₄ ← separator true s₃
  (_, s₅) ← number s₄
  s₆ ← separator false s₅
  (_, s₇) ← number s₆
  s₈ ← separator false s₇
  if word s₈ === "" then none else some (record { major = major; minor = minor; flavor = word s₈ })
