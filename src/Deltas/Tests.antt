-- ===== src/Deltas/Tests.antt =====
-- Deltas of a small contract.
use ubuntu_advantage_client.Base.{◌≡◌, ◌↔◌, refl, Bool, true, false}
use ubuntu_advantage_client.Exception.{ok}
use ubuntu_advantage_client.Json.{Value, null, bool, str, obj, dropped, Fields, end, field, get}
use ubuntu_advantage_client.Json.Dict.{Keyed}
use ubuntu_advantage_client.Deltas.{get_dict_deltas}
use ubuntu_advantage_client.Deltas.Pointwise.{delta_of, get-get_dict_deltas}
use ubuntu_advantage_client.Deltas.Unchanged.{Kept, NoNew, no_deltas_iff}

abbrev obligations : Bool → Fields
obligations b = field "enableByDefault" (bool b) end

abbrev old_access : Fields
old_access =
    field "entitled" (bool true)
      (field "obligations" (obj (obligations false)) (field "type" (str "ros") end))

abbrev new_access : Fields
new_access =
    field "entitled" (bool true)
      (field "obligations" (obj (obligations true)) (field "series" (str "focal") end))

abbrev deltas : Fields
deltas =
    field "obligations" (obj (obligations true))
      (field "type" dropped (field "series" (str "focal") end))

deltas_of_access : get_dict_deltas old_access (obj new_access) ≡ ok deltas
unfolding get_dict_deltas ubuntu_advantage_client.Json.py_eq
deltas_of_access = refl

old_access-Keyed : Keyed old_access
old_access-Keyed = (refl, (refl, (refl, tt)))

new_access-Keyed : Keyed new_access
new_access-Keyed = (refl, (refl, (refl, tt)))

get-get_dict_deltas_example :
    get "obligations" deltas
    ≡ delta_of (get "obligations" old_access) (get "obligations" new_access)
get-get_dict_deltas_example =
    get-get_dict_deltas old_access new_access deltas "obligations" old_access-Keyed new_access-Keyed
      deltas_of_access

no_deltas_iff_example :
    (get_dict_deltas old_access (obj old_access) ≡ ok end)
    ↔ (Kept old_access old_access × NoNew old_access old_access)
no_deltas_iff_example = no_deltas_iff old_access old_access (tt, tt)
