-- ===== src/Dict/Sorting.antt =====
-- What sorting by a text keeps.
use ubuntu_advantage_client.Base.{
  ℕ, String, ◌≡◌, refl, Bool, true, false, List, [], ◌∷◌, if◌then◌else◌, arith, All, Any, here,
  there, Bool-cases, inl, inr,
}
use ubuntu_advantage_client.Text.{codes}
use ubuntu_advantage_client.Dict.{codes_leb, place, sort_by}

codes_leb-total : (s t : List ℕ) → codes_leb s t ≡ false → codes_leb t s ≡ true
codes_leb-total [] t h = cc h
codes_leb-total (a ∷ s) [] h = refl
codes_leb-total (a ∷ s) (b ∷ t) h = ground (arith, codes_leb-total s t)

module _ {A : Type 0} (key : A → String) where
  abbrev below : A → A → Bool
  below x y = codes_leb (codes (key x)) (codes (key y))

  abbrev pub Leads : A → List A → Type 0
  Leads x [] = Unit
  Leads x (y ∷ ys) = below x y ≡ true

  -- Each key is at most the next.
  abbrev pub Ordered : List A → Type 0
  Ordered [] = Unit
  Ordered (x ∷ xs) = Leads x xs × Ordered xs

  place-Leads : (y x : A) (xs : List A) → below y x ≡ true → Leads y xs → Leads y (place key x xs)
  place-Leads y x [] h k = h
  place-Leads y x (z ∷ zs) h k = elim (Bool-cases (below x z)) [ inl b ↦ rw b h | inr b ↦ rw b k ]

  place-Ordered : (x : A) (xs : List A) → Ordered xs → Ordered (place key x xs)
  place-Ordered x [] h = (tt, tt)
  place-Ordered x (y ∷ ys) h =
      let placed = place-Ordered x ys h.1 in
      elim (Bool-cases (below x y)) [
        | inl b ↦ rw b (b, h)
        | inr b ↦
            rw b
              (place-Leads y x ys (codes_leb-total (codes (key x)) (codes (key y)) b) h.0, placed)
      ]

  pub sort_by-Ordered : (xs : List A) → Ordered (sort_by key xs)
  unfolding sort_by
  sort_by-Ordered [] = tt
  sort_by-Ordered (x ∷ xs) = place-Ordered x (sort_by key xs) (sort_by-Ordered xs)

  place-here : (P : A → Type 0) (x : A) (xs : List A) → P x → Any P (place key x xs)
  place-here P x [] h = here h
  place-here P x (y ∷ ys) h =
      let rest = place-here P x ys h in
      elim (Bool-cases (below x y)) [ inl b ↦ rw b (here h) | inr b ↦ rw b (there rest) ]

  place-there : (P : A → Type 0) (x : A) (xs : List A) → Any P xs → Any P (place key x xs)
  place-there P x [] h = elim h [ ]
  place-there P x (y ∷ ys) (here h) = elim (Bool-cases (below x y)) [
    | inl b ↦ rw b (there (here h))
    | inr b ↦ rw b (here h)
  ]
  place-there P x (y ∷ ys) (there h) =
      let rest = place-there P x ys h in
      elim (Bool-cases (below x y)) [ inl b ↦ rw b (there (there h)) | inr b ↦ rw b (there rest) ]

  pub sort_by-Any : (P : A → Type 0) (xs : List A) → Any P xs → Any P (sort_by key xs)
  unfolding sort_by
  sort_by-Any P [] h = elim h [ ]
  sort_by-Any P (x ∷ xs) (here h) = place-here P x (sort_by key xs) h
  sort_by-Any P (x ∷ xs) (there h) = place-there P x (sort_by key xs) (sort_by-Any P xs h)

  place-All-back : (P : A → Type 0) (x : A) (xs : List A) → All P (place key x xs) → P x × All P xs
  place-All-back P x [] h = h
  place-All-back P x (y ∷ ys) h = go (below x y) refl h (place-All-back P x ys)
    where
      go :
          (b : Bool)
          → below x y ≡ b
          → All P (if b then x ∷ (y ∷ ys) else y ∷ place key x ys)
          → (All P (place key x ys) → P x × All P ys)
          → P x × All P (y ∷ ys)
      go true e h rest = h
      go false e h rest = let (first, others) = rest h.1 in (first, (h.0, others))

  -- what holds of every member of the sorted list holds of every member
  pub sort_by-All-back : (P : A → Type 0) (xs : List A) → All P (sort_by key xs) → All P xs
  unfolding sort_by
  sort_by-All-back P [] h = tt
  sort_by-All-back P (x ∷ xs) h =
      let (first, others) = place-All-back P x (sort_by key xs) h in
      (first, sort_by-All-back P xs others)
