-- ===== src/Machine/OnlyShows.antt =====
-- Actions that change nothing on the machine but what has been shown.
use ubuntu_advantage_client.Base.{◌≡◌, refl, ◌∙◌, ap, Bool, true, false, if◌then◌else◌}
use ubuntu_advantage_client.Exception.{Result, ok, err}
use ubuntu_advantage_client.Machine.{
  Machine, Message, Action, continue, pure, reads, info, when, ◌>>=◌, ◌>>◌,
}

module _ {H : Type 0} where
  -- The machine afterwards is the one before, with other messages.
  abbrev pub SameButShown : Machine H → Machine H → Type 0
  SameButShown m m' = m' ≡ record m { shown = m'.shown }

  pub record OnlyShows {A : Type 0} (a : Action H A) : Type 0 where
    pub same : (m : Machine H) → SameButShown m (a m).1

  pub pure-OnlyShows : {A : Type 0} {a : A} → OnlyShows (pure a)
  pure-OnlyShows = record { same = λ m. refl }

  pub reads-OnlyShows : {A : Type 0} {f : Machine H → Result A} → OnlyShows (reads f)
  reads-OnlyShows = record { same = λ m. refl }

  pub info-OnlyShows : {x : Message} → OnlyShows (info x)
  info-OnlyShows = record { same = λ m. refl }

  pub when-OnlyShows : (b : Bool) {a : Action H (Unit {0})} → OnlyShows a → OnlyShows (when b a)
  when-OnlyShows true h = h
  when-OnlyShows false h = record { same = λ m. refl }

  pub if-OnlyShows :
      {A : Type 0} (b : Bool) {p q : Action H A}
      → OnlyShows p
      → OnlyShows q
      → OnlyShows (if b then p else q)
  if-OnlyShows true hp hq = hp
  if-OnlyShows false hp hq = hq

  SameButShown-trans :
      (m m₁ m₂ : Machine H) → SameButShown m m₁ → SameButShown m₁ m₂ → SameButShown m m₂
  SameButShown-trans m m₁ m₂ h k =
      k ∙ ap {A = Machine H} {B = Machine H} (λ x. record x { shown = m₂.shown }) h

  pub >>=-OnlyShows :
      {A B : Type 0} {a : Action H A} {f : A → Action H B}
      → OnlyShows a
      → ((x : A) → OnlyShows (f x))
      → OnlyShows (a >>= f)
  >>=-OnlyShows {A} {B} {a} {f} ka kf = record { same = λ m. go m (a m) (ka.same m) }
    where
      go :
          (m : Machine H) (r : Result A × Machine H)
          → SameButShown m r.1
          → SameButShown m (continue f r.0 r.1).1
      go m (ok x, m₁) h = SameButShown-trans m m₁ (f x m₁).1 h ((kf x).same m₁)
      go m (err e, m₁) h = h

  -- a read, and then what only shows
  pub read-OnlyShows :
      {A B : Type 0} (f : Machine H → Result A) {g : A → Action H B}
      → ((x : A) → OnlyShows (g x))
      → OnlyShows (reads f >>= g)
  read-OnlyShows f {g} h = >>=-OnlyShows {a = reads f} {f = g} (reads-OnlyShows {f = f}) h

  -- a message, and then what only shows
  pub show-OnlyShows :
      {B : Type 0} {x : Message} {b : Action H B} → OnlyShows b → OnlyShows (info x >> b)
  show-OnlyShows {B} {x} {b} h =
      >>=-OnlyShows {a = info x} {f = λ _. b} (info-OnlyShows {x = x}) (λ _. h)
