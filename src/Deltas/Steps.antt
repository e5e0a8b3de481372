-- ===== src/Deltas/Steps.antt =====
-- What a first loop that returns has done at a key whose old value is a dict.
use ubuntu_advantage_client.Base.{String, ◌≡◌, refl, some, arith}
use ubuntu_advantage_client.Exception.{ok, >>=-eq-ok}
use ubuntu_advantage_client.Json.{Value, null, obj, Fields, end, field, get}
use ubuntu_advantage_client.Deltas.{put_sub, add_new, changed}

module _ (j : String) (s o n d e : Fields) where
  pub changed_value :
      (w : Value)
      → get j n ≡ some w
      → changed (field j (obj s) o) n d ≡ ok e
      → (t : Fields) × (u : Fields) × (w ≡ obj t)
        × (changed s t end ≡ ok u)
        × (changed o n (put_sub j (add_new s t u) d) ≡ ok e)
  unfolding changed
  changed_value (obj t) found r =
      let r' = rw (found, changed) at r in
      let (u, p, q) =
        >>=-eq-ok (changed s t end) (λ u. changed o n (put_sub j (add_new s t u) d)) r' in
      (t, u, refl, p, q)
  changed_value null found r = ground arith
  changed_value w found r = ground arith
