-- ===== src/Security/Related.antt =====
-- The notices that belong to a notice.
use mathlib.Core.Path.{subst}
use ubuntu_advantage_client.Base.{
  String, ◌≡◌, refl, ◌∙◌, sym, ap, true, Option, none, some, List, [], ◌∷◌, ◌===◌, eq_iff, not,
  if◌then◌else◌, arith, is_nonempty, All, All-map, Any, Any-map, here, there, Bool-cases, inl, inr,
}
use ubuntu_advantage_client.Exception.{Result, ok, ◌>>=◌, >>=-eq-ok, ok-injective}
use ubuntu_advantage_client.Dict.{Dict, lookup, insert, lookup-insert, values, sort_by}
use ubuntu_advantage_client.Dict.Sorting.{Ordered, sort_by-Ordered, sort_by-Any}
use ubuntu_advantage_client.Security.Notice.{Usn}
use ubuntu_advantage_client.Security.Merge.{fetch, related_from, ids_of, get_related_usns}

module _ (get_notice : String → Result Usn) where
  -- What is kept under an id is the notice of that id.
  abbrev Fetched : Dict Usn → Type 0
  Fetched related =
      (id : String) (usn : Usn) → lookup id related ≡ some usn → get_notice id ≡ ok usn

  abbrev Found : Dict Usn → String → Type 0
  Found related id = (usn : Usn) × (lookup id related ≡ some usn)

  -- what a fetch leaves: the id is there, and what was there stays
  abbrev Grown : Dict Usn → Dict Usn → Type 0
  Grown old new = Fetched new × ((id : String) → Found old id → Found new id)

  insert-Grown :
      (id : String) (usn : Usn) (old : Dict Usn)
      → get_notice id ≡ ok usn
      → Fetched old
      → Grown old (insert id usn old) × Found (insert id usn old) id
  insert-Grown id usn old g h = (
    (
      λ id' u l. ground (arith, lookup-insert id id' usn old, eq_iff id id', h id' u),
      λ id' (u, l). elim (Bool-cases (id === id')) [
        | inl b ↦ (usn, ground (arith, lookup-insert id id' usn old))
        | inr b ↦ (u, ground (arith, lookup-insert id id' usn old))
      ],
    ),
    (usn, ground (arith, lookup-insert id id usn old, eq_iff id id)),
  )

  fetch-Grown :
      (id : String) (old new : Dict Usn) (seen : Option Usn)
      → lookup id old ≡ seen
      → Fetched old
      → fetch get_notice id old seen ≡ ok new
      → Grown old new × Found new id
  fetch-Grown id old new (some usn) known h returned =
      subst (λ d. Grown old d × Found d id) (ok-injective returned) ((h, λ id' f. f), (usn, known))
  fetch-Grown id old new none known h returned =
      let (usn, g, r) = >>=-eq-ok (get_notice id) (λ usn. ok (insert id usn old)) returned in
      subst (λ d. Grown old d × Found d id) (ok-injective r) (insert-Grown id usn old g h)

  related_from-Grown :
      (ids : List String) (old new : Dict Usn)
      → Fetched old
      → related_from get_notice ids old ≡ ok new
      → Grown old new × All (Found new) ids
  unfolding related_from
  related_from-Grown [] old new h returned =
      (subst (Grown old) (ok-injective returned) (h, λ id f. f), tt)
  related_from-Grown (id ∷ ids) old new h returned =
      let (d, r, rest) =
        >>=-eq-ok (fetch get_notice id old (lookup id old)) (related_from get_notice ids)
          returned in
      let (grown, found) = fetch-Grown id old d (lookup id old) refl h r in
      let (more, all) = related_from-Grown ids d new grown.0 rest in
      ((more.0, λ i f. more.1 i (grown.1 i f)), (more.1 id found, all))

  lookup-values :
      (id : String) (d : Dict Usn) (usn : Usn)
      → lookup id d ≡ some usn
      → Any (λ u. usn ≡ u) (values d)
  lookup-values id [] usn h = cc h
  lookup-values id ((j, u) ∷ d) usn h = elim (Bool-cases (j === id)) [
    | inl b ↦ here (ground arith)
    | inr b ↦ there (lookup-values id d usn (ground arith))
  ]

  -- A call for a notice that has issues and that returns gives a list of notices, ordered by id,
  -- in which the notice of every id stands that one of the issues names.
  pub get_related_usns-Complete :
      (usn : Usn) (usns : List Usn)
      → is_nonempty usn.cves ≡ true
      → get_related_usns get_notice usn ≡ ok usns
      → Ordered (λ u. u.id) usns
        × All (λ id. Any (λ u. get_notice id ≡ ok u) usns) (ids_of usn.cves)
  unfolding get_related_usns
  get_related_usns-Complete usn usns cves returned =
      let fetched = related_from get_notice (ids_of usn.cves) [] in
      let finish : Dict Usn → Result (List Usn) =
        λ related. ok (sort_by (λ u. u.id) (values related)) in
      let (related, r, rest) =
        >>=-eq-ok fetched finish
          (sym (ap (λ b. if not b then ok (usn ∷ []) else (fetched >>= finish)) cves) ∙ returned) in
      let ((sound, _), all) = related_from-Grown (ids_of usn.cves) [] related (λ id u h. cc h) r in
      subst
        (λ xs.
          Ordered (λ u. u.id) xs × All (λ id. Any (λ u. get_notice id ≡ ok u) xs) (ids_of usn.cves))
        (ok-injective rest)
        (
          sort_by-Ordered (λ u. u.id) (values related),
          All-map
              (λ id (u, l).
                sort_by-Any (λ u. u.id) (λ u. get_notice id ≡ ok u) (values related)
                  (Any-map (λ v same. sound id u l ∙ ap ok same) (values related)
                    (lookup-values id related u l)))
              (ids_of usn.cves) all,
        )
