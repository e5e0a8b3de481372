-- ===== src/Dict.antt =====
-- Python's `dict` with texts as keys: its items in insertion order, and `sorted` of values by a text.
pub mod Sorting
use ubuntu_advantage_client.Base.{
  ℕ, String, ◌≡◌, refl, Bool, true, false, Option, none, some, List, [], ◌∷◌, ◌===◌, eq_iff, ltb,
  ◌==◌, if◌then◌else◌, arith,
}
use ubuntu_advantage_client.Text.{codes}

abbrev pub Dict {ℓ} : Type ℓ → Type ℓ
Dict A = List (String × A)

module _ {ℓ} {A : Type ℓ} where
  -- d.get(key)
  abbrev pub lookup : String → Dict A → Option A
  lookup k [] = none
  lookup k ((j, v) ∷ d) = elim (j === k) [ true ↦ some v | false ↦ lookup k d ]

  -- d[key] = value: a new key goes to the end
  abbrev pub insert : String → A → Dict A → Dict A
  insert k v [] = (k, v) ∷ []
  insert k v ((j, w) ∷ d) = elim (j === k) [ true ↦ (j, v) ∷ d | false ↦ (j, w) ∷ insert k v d ]

  -- d.values()
  abbrev pub values : Dict A → List A
  values [] = []
  values ((k, v) ∷ d) = v ∷ values d

  -- list(d)
  abbrev pub keys : Dict A → List String
  keys [] = []
  keys ((k, v) ∷ d) = k ∷ keys d

  -- Every key stands once.
  abbrev pub Unique : Dict A → Type ℓ
  Unique [] = Unit
  Unique ((k, v) ∷ d) = (lookup k d ≡ none) × Unique d

  pub lookup-insert :
      (k j : String) (v : A) (d : Dict A)
      → lookup j (insert k v d) ≡ (if k === j then some v else lookup j d)
  lookup-insert k j v [] = ground arith
  lookup-insert k j v ((i, w) ∷ d) =
      ground (arith, lookup-insert k j v d, eq_iff i k, eq_iff i j, eq_iff k j)

  pub insert-Unique : (k : String) (v : A) (d : Dict A) → Unique d → Unique (insert k v d)
  insert-Unique k v [] h = (refl, tt)
  insert-Unique k v ((i, w) ∷ d) h =
      ground (arith, insert-Unique k v d h.1, lookup-insert k i v d, eq_iff i k, eq_iff k i)

-- the order of texts, by code points
abbrev pub codes_leb : List ℕ → List ℕ → Bool
codes_leb [] t = true
codes_leb (a ∷ s) [] = false
codes_leb (a ∷ s) (b ∷ t) = let rest = codes_leb s t in if a == b then rest else ltb a b

module _ {ℓ} {A : Type ℓ} where
  abbrev pub place : (A → String) → A → List A → List A
  place key x [] = x ∷ []
  place key x (y ∷ ys) =
      let rest = place key x ys in
      if codes_leb (codes (key x)) (codes (key y)) then x ∷ (y ∷ ys) else y ∷ rest

  -- sorted(xs, key=key), which keeps the order of values with the same key
  unfoldable pub sort_by : (A → String) → List A → List A
  sort_by key [] = []
  sort_by key (x ∷ xs) = place key x (sort_by key xs)
