-- ===== src/NoticeFile/Tests.antt =====
-- Two notices, of which one is removed.
use ubuntu_advantage_client.Base.{
  String, ◌≡◌, refl, Bool, true, false, none, some, List, [], ◌∷◌, ◌===◌,
}
use ubuntu_advantage_client.Exception.{ok}
use ubuntu_advantage_client.NoticeFile.{Notice, NoticeFile, add, remove, kept, has, read_or_empty}
use ubuntu_advantage_client.NoticeFile.History.{
  Call, add_notice, remove_notices, distinct, perform, perform_all, noted, perform_all_lem,
}

abbrev file : NoticeFile
file = record { is_root = true; file = none }

abbrev reboot : Notice
reboot = record { label = ""; description = "Reboot required" }

abbrev equal : String → String → Bool
equal a b = a === b

abbrev calls : List Call
calls =
    add_notice "" "Reboot required"
    ∷ add_notice "" "Operation in progress"
    ∷ add_notice "" "Reboot required"
    ∷ remove_notices "" "Operation in progress"
    ∷ []

one_left : (perform_all equal calls file).file ≡ some (reboot ∷ [])
unfolding add remove kept
one_left = refl

perform_all_lem_example :
    (has reboot (read_or_empty (perform_all equal calls file)) ≡ noted equal calls reboot false)
    × (distinct (read_or_empty (perform_all equal calls file)) ≡ true)
    × ((perform equal (add_notice "" "a") (perform_all equal calls file)).0 ≡ ok tt)
perform_all_lem_example = perform_all_lem equal calls (add_notice "" "a") reboot file refl refl
