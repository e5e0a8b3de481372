-- ===== src/Registry/Order.antt =====
-- The order in which services are enabled or disabled.
use mathlib.Core.List.{append_assoc, append-nil}
use ubuntu_advantage_client.Base.{
  ℕ, zero, suc, ◌+◌, ◌<◌, ◌≤◌, String, ◌≡◌, refl, sym, ◌∙◌, eq_refl, eq_of_===, ◌||◌, ◌⊎◌, inl, inr,
  true, false, List, [], ◌∷◌, ◌++◌, All, contains, contains-append, Bool-cases, arith, ◌===◌,
}
use ubuntu_advantage_client.Exception.{Result, ok}
use ubuntu_advantage_client.Registry.{Sorting, visit_all, sort_visit, sort_from, sort_entitlements}

module _ (deps : String → List String) where
  -- No name stands twice, and each stands behind all its dependencies; `seen` stands before.
  abbrev pub Topological : List String → List String → Type 0
  Topological seen [] = Unit
  Topological seen (n ∷ ns) =
      (contains seen n ≡ false)
      × All (λ d. contains seen d ≡ true) (deps n)
      × Topological (seen ++ n ∷ []) ns

  Topological-append :
      (seen ns : List String) (n : String)
      → Topological seen ns
      → contains (seen ++ ns) n ≡ false
      → All (λ d. contains (seen ++ ns) d ≡ true) (deps n)
      → Topological seen (ns ++ n ∷ [])
  Topological-append seen [] n h fresh all = (rw append-nil at fresh, rw append-nil at all, tt)
  Topological-append seen (m ∷ ns) n h fresh all = (
    h.0,
    h.1,
    Topological-append (seen ++ m ∷ []) ns n h.2 (rw append_assoc fresh) (rw append_assoc all),
  )

  -- The state between visits.
  pub record IsSorted (s : Sorting) : Type 0 where
    pub same : (k : String) → contains s.visited k ≡ contains s.order k
    pub sorted : Topological [] s.order

module _ (deps : String → List String) (rank : String → ℕ) where
  -- What a visit has done to the state: it has added only names of a rank below `r`.
  record Grows (r : ℕ) (s t : Sorting) : Type 0 where
    is_sorted : IsSorted deps t
    keeps : (k : String) → contains s.order k ≡ true → contains t.order k ≡ true
    adds : (k : String) → contains t.order k ≡ true → (contains s.order k ≡ true) ⊎ (rank k < r)

  Grows-refl : (r : ℕ) (s : Sorting) → IsSorted deps s → Grows r s s
  Grows-refl r s h = record { is_sorted = h; keeps = λ k e. e; adds = λ k e. inl e }

  weaken : (k : String) (q r : ℕ) (A : Type 0) → q ≤ r → A ⊎ (rank k < q) → A ⊎ (rank k < r)
  weaken k q r A h (inl a) = inl a
  weaken k q r A h (inr b) = inr (omega arith)

  Grows-trans : (q r : ℕ) (s t u : Sorting) → q ≤ r → Grows q s t → Grows r t u → Grows r s u
  Grows-trans q r s t u h g g' = record {
    is_sorted = g'.is_sorted;
    keeps = λ k e. g'.keeps k (g.keeps k e);
    adds = λ k e. elim (g'.adds k e) [
      | inl old ↦ weaken k q r (contains s.order k ≡ true) h (g.adds k old)
      | inr below ↦ inr below
    ];
  }

  -- a visit that returns, with its state
  abbrev Visits : ℕ → String → Result Sorting → Sorting → Type 0
  Visits r name result s =
      (t : Sorting) × (result ≡ ok t) × Grows r s t × (contains t.order name ≡ true)

  still_absent :
      (name d : String) (s t : Sorting)
      → rank d < rank name
      → contains s.order name ≡ false
      → Grows (rank d + 1) s t
      → contains t.order name ≡ false
  still_absent name d s t h absent g = elim (Bool-cases (contains t.order name)) [
    | inr no_name ↦ no_name
    | inl added ↦ elim (g.adds name added) [ inl old ↦ cc | inr below ↦ absurd (omega arith) ]
  ]

  visit_all_lem :
      (visit : String → Sorting → Result Sorting) (name : String)
      → ((d : String) (s : Sorting)
          → rank d < rank name
          → IsSorted deps s
          → Visits (rank d + 1) d (visit d s) s)
      → (ds : List String) (s : Sorting) → All (λ d. rank d < rank name) ds
      → IsSorted deps s
      → contains s.order name ≡ false
      → (t : Sorting) × (visit_all deps visit name ds s ≡ ok t)
        × Grows (rank name) s t
        × All (λ d. contains t.order d ≡ true) ds
  unfolding visit_all
  visit_all_lem visit name good [] s h v absent = (s, refl, Grows-refl (rank name) s v, tt)
  visit_all_lem visit name good (d ∷ ds) s h v absent =
      let (t, e, g, has_d) = good d s h.0 v in
      let absent' = still_absent name d s t h.0 absent g in
      let (u, e', g', has_ds) = visit_all_lem visit name good ds t h.1 g.is_sorted absent' in
      (
        u,
        rw (v.same name ∙ absent) (rw e e'),
        Grows-trans (rank d + 1) (rank name) s t u (omega arith) g g',
        (g'.keeps d has_d, has_ds),
      )

  contains-append_last :
      (xs : List String) (n k : String) → contains (xs ++ n ∷ []) k ≡ (n === k || contains xs k)
  contains-append_last xs n k = rw contains-append (ground arith)

  add_last : String → Sorting → Sorting
  add_last name t = record { visited = name ∷ t.visited; order = t.order ++ name ∷ [] }

  add_last-Grows :
      (name : String) (s t : Sorting)
      → Grows (rank name) s t
      → contains s.order name ≡ false
      → All (λ d. contains t.order d ≡ true) (deps name)
      → Grows (rank name + 1) s (add_last name t)
  unfolding add_last
  add_last-Grows name s t g absent all = record {
    is_sorted = record {
      same = λ k. ground (arith, contains-append_last t.order name k, g.is_sorted.same k);
      sorted =
          Topological-append deps [] t.order name g.is_sorted.sorted
            (elim (Bool-cases (contains t.order name)) [
              | inr absent' ↦ absent'
              | inl added ↦ elim (g.adds name added) [
                | inl old ↦ cc
                | inr below ↦ absurd (omega arith)
              ]
            ])
            all;
    };
    keeps = λ k e. ground (arith, contains-append_last t.order name k, g.keeps k e);
    adds = λ k e. elim (Bool-cases (name === k)) [
      | inl self ↦ inr (rw (← (eq_of_=== name k self)) (omega arith))
      | inr other ↦
          weaken k (rank name) (rank name + 1) (contains s.order k ≡ true) (omega arith)
            (g.adds k (ground (arith, contains-append_last t.order name k)))
    ];
  }

  module _ (ranked : (n : String) → All (λ d. rank d < rank n) (deps n)) where
    sort_visit_lem :
        (depth : ℕ) (name : String) (s : Sorting)
        → rank name < depth
        → IsSorted deps s
        → Visits (rank name + 1) name (sort_visit deps depth name s) s
    unfolding sort_visit add_last
    sort_visit_lem zero name s h v = absurd (omega arith)
    sort_visit_lem (suc depth) name s h v = elim (Bool-cases (contains s.visited name)) [
      | inl known ↦ (s, rw known, Grows-refl (rank name + 1) s v, sym (v.same name) ∙ known)
      | inr unknown ↦
          let (t, e, g, all) =
            visit_all_lem (sort_visit deps depth) name
              (λ d s' below v'. sort_visit_lem depth d s' (omega arith) v') (deps name) s
              (ranked name) v (sym (v.same name) ∙ unknown) in
          (
            add_last name t,
            rw unknown (rw e),
            add_last-Grows name s t g (sym (v.same name) ∙ unknown) all,
            rw contains-append_last (ground (arith, eq_refl name)),
          )
    ]

    sort_from_lem :
        (depth bound : ℕ) (cs : List String) (s : Sorting)
        → bound ≤ depth
        → All (λ c. rank c < bound) cs
        → IsSorted deps s
        → (t : Sorting) × (sort_from deps depth cs s ≡ ok t)
          × Grows bound s t
          × All (λ c. contains t.order c ≡ true) cs
    unfolding sort_from
    sort_from_lem depth bound [] s h below v = (s, refl, Grows-refl bound s v, tt)
    sort_from_lem depth bound (c ∷ cs) s h below v =
        let (t, e, g, has_c) = sort_visit_lem depth c s (omega arith) v in
        let (u, e', g', has_cs) = sort_from_lem depth bound cs t h below.1 g.is_sorted in
        (
          u,
          rw e e',
          Grows-trans (rank c + 1) bound s t u (omega arith) g g',
          (g'.keeps c has_c, has_cs),
        )

-- Where the dependencies of the services are acyclic, shown by a rank that falls along each of
-- them, and the bound on the depth is above the ranks, the sort returns an order in which every
-- given class stands, no name stands twice, and each name stands behind all its dependencies.
pub sort_entitlements-Topological :
    (deps : String → List String) (rank : String → ℕ) (depth : ℕ) (classes : List String)
    → ((n : String) → All (λ d. rank d < rank n) (deps n))
    → All (λ c. rank c < depth) classes
    → (order : List String) × (sort_entitlements deps depth classes ≡ ok order)
      × Topological deps [] order
      × All (λ c. contains order c ≡ true) classes
unfolding sort_entitlements
sort_entitlements-Topological deps rank depth classes ranked below =
    let (t, e, g, all) =
      sort_from_lem deps rank ranked depth depth classes (record { visited = []; order = [] })
        (omega arith) below (record { same = λ k. refl; sorted = tt }) in
    (t.order, rw e, g.is_sorted.sorted, all)
