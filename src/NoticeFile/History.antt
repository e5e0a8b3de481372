-- ===== src/NoticeFile/History.antt =====
-- What the file of the notices holds after a history of calls.
use ubuntu_advantage_client.Base.{
  arith, String, eq_iff, ◌≡◌, refl, ◌∙◌, ap, Bool, true, false, List, [], ◌∷◌, ◌++◌, ◌&&◌, ◌||◌,
  not, if◌then◌else◌, Bool-cases, inl, inr,
}
use ubuntu_advantage_client.Exception.{Result, ok, err, other_error}
use ubuntu_advantage_client.NoticeFile.{
  Notice, NoticeFile, same, has, read_or_empty, append_new, add, is_removed, kept, write_or_delete,
  remove,
}

pub data Call : Type 0 where
  add_notice : String → String → Call
  remove_notices : String → String → Call

abbrev pub distinct : List Notice → Bool
distinct [] = true
distinct (n ∷ ns) = not (has n ns) && distinct ns

same_trans : (a b c : Notice) → same a b ≡ true → same a c ≡ same b c
same_trans a b c h = ground (arith, eq_iff a.label b.label, eq_iff a.description b.description)

has-++ : (n k : Notice) (ns : List Notice) → has k (ns ++ n ∷ []) ≡ (has k ns || same k n)
has-++ n k [] = ground arith
has-++ n k (x ∷ ns) = ground (arith, has-++ n k ns)

same_sym : (a b : Notice) → same a b ≡ same b a
same_sym a b = ground (
  arith,
  eq_iff a.label b.label,
  eq_iff b.label a.label,
  eq_iff a.description b.description,
  eq_iff b.description a.description,
)

distinct-++ :
    (n : Notice) (ns : List Notice)
    → has n ns ≡ false
    → distinct ns ≡ true
    → distinct (ns ++ n ∷ []) ≡ true
distinct-++ n [] h d = refl
distinct-++ n (x ∷ ns) h d = ground (arith, has-++ n x ns, distinct-++ n ns, same_sym n x)

same-has : (k n : Notice) (ns : List Notice) → same k n ≡ true → has k ns ≡ has n ns
same-has k n [] h = refl
same-has k n (x ∷ ns) h = ground (arith, same_trans k n x h, same-has k n ns h)

append_new-has :
    (n k : Notice) (f : NoticeFile)
    → has k (read_or_empty (append_new n f)) ≡ (has k (read_or_empty f) || same k n)
append_new-has n k f = elim (Bool-cases (has n (read_or_empty f))) [
  | inl b ↦ rw b (ground (arith, b, same-has k n (read_or_empty f)))
  | inr b ↦ rw b (has-++ n k (read_or_empty f))
]

append_new-distinct :
    (n : Notice) (f : NoticeFile)
    → distinct (read_or_empty f) ≡ true
    → distinct (read_or_empty (append_new n f)) ≡ true
append_new-distinct n f h = elim (Bool-cases (has n (read_or_empty f))) [
  | inl b ↦ rw b h
  | inr b ↦ rw b (distinct-++ n (read_or_empty f) b h)
]

append_new-root : (n : Notice) (f : NoticeFile) → (append_new n f).is_root ≡ f.is_root
append_new-root n f = elim (Bool-cases (has n (read_or_empty f))) [
  | inl b ↦ rw b refl
  | inr b ↦ rw b refl
]

module _ (match : String → String → Bool) where
  same-is_removed :
      (l d : String) (a b : Notice)
      → same a b ≡ true
      → is_removed match l d a ≡ is_removed match l d b
  same-is_removed l d a b h =
      let e : a.label ≡ b.label = ground (arith, eq_iff a.label b.label) in
      let e' : a.description ≡ b.description = ground (arith, eq_iff a.description b.description) in
      cc

  kept-has :
      (l d : String) (k : Notice) (ns : List Notice)
      → has k (kept match l d ns) ≡ (has k ns && not (is_removed match l d k))
  unfolding kept
  kept-has l d k [] = refl
  kept-has l d k (x ∷ ns) = ground (arith, kept-has l d k ns, same-is_removed l d k x)

  kept-distinct :
      (l d : String) (ns : List Notice) → distinct ns ≡ true → distinct (kept match l d ns) ≡ true
  unfolding kept
  kept-distinct l d [] h = refl
  kept-distinct l d (x ∷ ns) h = ground (arith, kept-distinct l d ns, kept-has l d x ns)

  read-write_or_delete :
      (ns : List Notice) (f : NoticeFile) → read_or_empty (write_or_delete match ns f) ≡ ns
  read-write_or_delete [] f = refl
  read-write_or_delete (n ∷ ns) f = refl

  write_or_delete-root :
      (ns : List Notice) (f : NoticeFile) → (write_or_delete match ns f).is_root ≡ f.is_root
  write_or_delete-root [] f = refl
  write_or_delete-root (n ∷ ns) f = refl

  abbrev pub perform : Call → NoticeFile → Result (Unit {0}) × NoticeFile
  perform (add_notice label description) f = add label description f
  perform (remove_notices label_regex descr_regex) f = remove match label_regex descr_regex f

  -- the file after the calls
  abbrev pub perform_all : List Call → NoticeFile → NoticeFile
  perform_all [] f = f
  perform_all (c ∷ cs) f = perform_all cs (perform c f).1

  -- whether a notice is noted after a call, by whether it was before
  abbrev pub noted_after : Call → Notice → Bool → Bool
  noted_after (add_notice label description) k before =
      before || same k (record { label = label; description = description })
  noted_after (remove_notices l d) k before = before && not (is_removed match l d k)

  abbrev pub noted : List Call → Notice → Bool → Bool
  noted [] k before = before
  noted (c ∷ cs) k before = noted cs k (noted_after c k before)

  -- what holds of the result of a call of root
  abbrev Noted : Call → Notice → NoticeFile → Result (Unit {0}) × NoticeFile → Type 0
  Noted c k f r =
      (r.0 ≡ ok tt)
      × (r.1.is_root ≡ true)
      × (distinct (read_or_empty r.1) ≡ true)
      × (has k (read_or_empty r.1) ≡ noted_after c k (has k (read_or_empty f)))

  if-Noted :
      (c : Call) (k : Notice) (f : NoticeFile) (r s : Result (Unit {0}) × NoticeFile) (b : Bool)
      → b ≡ true
      → Noted c k f r
      → Noted c k f (if b then r else s)
  if-Noted c k f r s true h n = n
  if-Noted c k f r s false h n = cc h

  perform-Noted :
      (c : Call) (k : Notice) (f : NoticeFile)
      → f.is_root ≡ true
      → distinct (read_or_empty f) ≡ true
      → Noted c k f (perform c f)
  unfolding add remove
  perform-Noted (add_notice l d) k f root h =
      let n : Notice = record { label = l; description = d } in
      if-Noted (add_notice l d) k f (ok tt, append_new n f)
        (err (other_error "NonRootUserError"), f) f.is_root root
        (refl, append_new-root n f ∙ root, append_new-distinct n f h, append_new-has n k f)
  perform-Noted (remove_notices l d) k f root h =
      let left = kept match l d (read_or_empty f) in
      let same_list = read-write_or_delete left f in
      if-Noted (remove_notices l d) k f (ok tt, write_or_delete match left f)
        (err (other_error "NonRootUserError"), f) f.is_root root
        (
          refl,
          write_or_delete-root left f ∙ root,
          ap distinct same_list ∙ kept-distinct l d (read_or_empty f) h,
          ap (has k) same_list ∙ kept-has l d k (read_or_empty f),
        )

  -- Where root calls `add` and `remove`, whatever the calls are: a notice stands in the file at the
  -- end exactly where the history says so, by the last call that adds or removes it, no notice
  -- stands in it twice if none did before, and a further call succeeds.
  pub perform_all_lem :
      (cs : List Call) (c : Call) (k : Notice) (f : NoticeFile)
      → f.is_root ≡ true
      → distinct (read_or_empty f) ≡ true
      → (has k (read_or_empty (perform_all cs f)) ≡ noted cs k (has k (read_or_empty f)))
        × (distinct (read_or_empty (perform_all cs f)) ≡ true)
        × ((perform c (perform_all cs f)).0 ≡ ok tt)
  perform_all_lem [] c k f root h = (refl, h, (perform-Noted c k f root h).0)
  perform_all_lem (d ∷ cs) c k f root h =
      let (_, root₁, distinct₁, has₁) = perform-Noted d k f root h in
      let (has₂, distinct₂, success) = perform_all_lem cs c k (perform d f).1 root₁ distinct₁ in
      (has₂ ∙ ap (noted cs k) has₁, distinct₂, success)
