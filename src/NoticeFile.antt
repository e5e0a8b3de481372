-- ===== src/NoticeFile.antt =====
-- `NoticeFile` (uaclient/files.py). The file holds the notices that `write` has written, or is
-- missing: `write` is called for lists that are not empty only.
pub mod History
mod Tests
use ubuntu_advantage_client.Base.{
  String, Bool, false, Option, none, some, List, [], ◌∷◌, ◌++◌, ◌===◌, ◌&&◌, ◌||◌, not,
  if◌then◌else◌, is_nonempty,
}
use ubuntu_advantage_client.Exception.{Result, ok, err, other_error}

-- [label, description]
pub record Notice : Type 0 where
  pub label : String
  pub description : String

pub record NoticeFile : Type 0 where
  pub is_root : Bool
  pub file : Option (List Notice)

abbrev pub same : Notice → Notice → Bool
same a b = (a.label === b.label) && (a.description === b.description)

-- notice in notices
abbrev pub has : Notice → List Notice → Bool
has n [] = false
has n (x ∷ xs) = same n x || has n xs

-- self.read() or []
abbrev pub read_or_empty : NoticeFile → List Notice
read_or_empty f = elim f.file [ none ↦ [] | some notices ↦ notices ]

abbrev pub write : List Notice → NoticeFile → NoticeFile
write notices f = record f { file = some notices }

abbrev pub append_new : Notice → NoticeFile → NoticeFile
append_new n f = if not (has n (read_or_empty f)) then write (read_or_empty f ++ n ∷ []) f else f

unfoldable pub add : String → String → NoticeFile → Result (Unit {0}) × NoticeFile
add label description f =
    if f.is_root
    then (ok tt, append_new (record { label = label; description = description }) f)
    else (err (other_error "NonRootUserError"), f)

-- `match` is `re.match` as a test.
module _ (match : String → String → Bool) where
  abbrev pub is_removed : String → String → Notice → Bool
  is_removed label_regex descr_regex n =
      match label_regex n.label && match descr_regex n.description

  unfoldable pub kept : String → String → List Notice → List Notice
  kept label_regex descr_regex [] = []
  kept label_regex descr_regex (n ∷ ns) =
      let rest = kept label_regex descr_regex ns in
      if is_removed label_regex descr_regex n then rest else n ∷ rest

  abbrev pub write_or_delete : List Notice → NoticeFile → NoticeFile
  write_or_delete notices f =
      if is_nonempty notices then write notices f else record f { file = none }

  unfoldable pub remove : String → String → NoticeFile → Result (Unit {0}) × NoticeFile
  unfolding kept
  remove label_regex descr_regex f =
      if f.is_root
      then (ok tt, write_or_delete (kept label_regex descr_regex (read_or_empty f)) f)
      else (err (other_error "NonRootUserError"), f)
