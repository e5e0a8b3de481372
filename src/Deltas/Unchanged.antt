-- ===== src/Deltas/Unchanged.antt =====
-- When there are no deltas.
use ubuntu_advantage_client.Base.{
  String, ◌≤◌, ◌≡◌, ◌≢◌, ◌↔◌, refl, none, some, true, Option-cases, Bool-cases, inl, inr, arith,
  if◌then◌else◌,
}
use ubuntu_advantage_client.Exception.{ok, >>=-eq-ok}
use ubuntu_advantage_client.Json.{Value, obj, dropped, Fields, end, field, get, put, size, py_eq}
use ubuntu_advantage_client.Deltas.Steps.{changed_value}
use ubuntu_advantage_client.Deltas.{or_dropped, add_new, put_sub, changed, get_dict_deltas}

-- A dict that was read holds `DROPPED_KEY` nowhere.
abbrev pub Plain : Fields → Type 0
Plain end = Unit
Plain (field k dropped fs) = ⊥
Plain (field k (obj s) fs) = Plain s × Plain fs
Plain (field k v fs) = Plain fs

-- no key of the second dict is missing in the first
abbrev pub NoNew : Fields → Fields → Type 0
NoNew o end = Unit
NoNew o (field k v n) = (get k o ≢ none) × NoNew o n

-- Every value of the first dict stands in the second, and a dict in it has the same keys there.
abbrev pub Kept : Fields → Fields → Type 0
Kept end n = Unit
Kept (field k (obj s) o) n =
    ((t : Fields) × (get k n ≡ some (obj t)) × Kept s t × NoNew s t) × Kept o n
Kept (field k v o) n = ((w : Value) × (get k n ≡ some w) × (py_eq v w ≡ true)) × Kept o n

size-put :
    (k : String) (v : Value) (d : Fields) → (size d ≤ size (put k v d)) × (1 ≤ size (put k v d))
size-put k v end = omega arith
size-put k v (field j w d) = ground (arith, size-put k v d)

size-put_sub : (k : String) (e d : Fields) → size d ≤ size (put_sub k e d)
unfolding put_sub
size-put_sub k end d = omega arith
size-put_sub k (field j v e) d = (size-put k (obj (field j v e)) d).0

size-add_new : (o n d : Fields) → size d ≤ size (add_new o n d)
unfolding add_new
size-add_new o end d = omega arith
size-add_new o (field k v n) d =
    ground (arith, size-add_new o n d, size-add_new o n (put k v d), size-put k v d)

size-changed : (o n d e : Fields) → changed o n d ≡ ok e → size d ≤ size e
unfolding changed
size-changed end n d e r = ground arith
size-changed (field j (obj s) o) n d e r = elim (Option-cases (get j n)) [
  | inl gone ↦ ground (arith, size-changed o n (put j dropped d) e, size-put j dropped d, gone)
  | inr (w, found) ↦
      let (t, u, same, sub, rest) = changed_value j s o n d e w found r in
      omega (
        arith,
        size-changed o n (put_sub j (add_new s t u) d) e rest,
        size-put_sub j (add_new s t u) d,
      )
]
size-changed (field j v o) n d e r =
    let d' = if py_eq v (or_dropped (get j n)) then d else put j (or_dropped (get j n)) d in
    ground (arith, size-changed o n d' e r, size-put j (or_dropped (get j n)) d)

end_of_size : (d : Fields) → size d ≤ 0 → d ≡ end
end_of_size end h = refl
end_of_size (field k v d) h = absurd (omega arith)

size_of_end : (d : Fields) → d ≡ end → size d ≤ 0
size_of_end d h = rw h (omega arith)

put-ne-end : (k : String) (v : Value) (d : Fields) → put k v d ≢ end
put-ne-end k v end h = cc
put-ne-end k v (field j w d) h = ground arith

NoNew-of : (o n : Fields) → add_new o n end ≡ end → NoNew o n
unfolding add_new
NoNew-of o end h = tt
NoNew-of o (field k v n) h = ground (
  arith,
  NoNew-of o n,
  size-add_new o n (put k v end),
  size-put k v end,
  size_of_end (add_new o n (put k v end)),
)

put_sub_end : (k : String) (e : Fields) → put_sub k e end ≡ end → e ≡ end
unfolding put_sub
put_sub_end k end h = refl
put_sub_end k (field j v e) h = cc

Kept-of : (o n : Fields) → Plain o → changed o n end ≡ ok end → Kept o n
unfolding changed py_eq
Kept-of end n p r = tt
Kept-of (field j (obj s) o) n p r = elim (Option-cases (get j n)) [
  | inl gone ↦
      ground (arith, size-changed o n (put j dropped end) end, size-put j dropped end, gone)
  | inr (w, found) ↦
      let (t, u, same, sub, rest) = changed_value j s o n end end w found r in
      let e = add_new s t u in
      let nothing : put_sub j e end ≡ end =
        end_of_size (put_sub j e end) (size-changed o n (put_sub j e end) end rest) in
      let quiet : e ≡ end = put_sub_end j e nothing in
      let none_changed : u ≡ end =
        end_of_size u (omega (arith, size-add_new s t u, size_of_end e quiet)) in
      ((t, cc, Kept-of s t p.0 (cc), NoNew-of s t (cc)), Kept-of o n p.1 (rw nothing at rest))
]
Kept-of (field j dropped o) n p r = absurd p
Kept-of (field j v o) n p r = elim (Option-cases (get j n)) [
  | inl gone ↦
      ground (arith, size-changed o n (put j dropped end) end, size-put j dropped end, gone)
  | inr (w, found) ↦ elim (Bool-cases (py_eq v w)) [
    | inl same ↦ ((w, found, same), Kept-of o n p (rw (found, same, changed) at r))
    | inr new ↦ ground (arith, size-changed o n (put j w end) end, size-put j w end, found, new)
  ]
]

add_new-NoNew : (o n d : Fields) → NoNew o n → add_new o n d ≡ d
unfolding add_new
add_new-NoNew o end d h = refl
add_new-NoNew o (field k v n) d h = ground (arith, add_new-NoNew o n d h.1)

changed-Kept : (o n d : Fields) → Kept o n → changed o n d ≡ ok d
unfolding changed put_sub
changed-Kept end n d h = refl
changed-Kept (field j (obj s) o) n d h =
    let (t, found, kept, fresh) = h.0 in
    rw (found, changed)
      (rw (changed-Kept s t end kept) (rw (add_new-NoNew s t end fresh) (changed-Kept o n d h.1)))
changed-Kept (field j v o) n d h =
    let (w, found, same) = h.0 in rw found (rw same (changed-Kept o n d h.1))

-- Two contract dicts, the old one without `DROPPED_KEY`, have no deltas exactly when every value
-- of the old one stands in the new one, compared by `==` or, for a dict, recursively, and the new
-- one has no further key, nor has any dict in it.
pub no_deltas_iff :
    (o n : Fields) → Plain o → (get_dict_deltas o (obj n) ≡ ok end) ↔ (Kept o n × NoNew o n)
unfolding get_dict_deltas
no_deltas_iff o n p = (
  λ r.
      let (e, q, rest) = >>=-eq-ok (changed o n end) (λ e. ok (add_new o n e)) r in
      let quiet : add_new o n e ≡ end = ground arith in
      let none_changed : e ≡ end =
        end_of_size e (omega (arith, size-add_new o n e, size_of_end (add_new o n e) quiet)) in
      (Kept-of o n p (cc), NoNew-of o n (cc)),
  λ h. rw (changed-Kept o n end h.0) (rw (add_new-NoNew o n end h.1)),
)
