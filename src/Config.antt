-- ===== src/Config.antt =====
-- `is_config_value_true` (uaclient/util.py): flags of uaclient.conf.
use ubuntu_advantage_client.Base.{
  String, Bool, true, false, Option, none, some, List, [], ◌∷◌, ◌===◌, if◌then◌else◌,
}
use ubuntu_advantage_client.Exception.{Result, ok, err, user_facing}
use ubuntu_advantage_client.Json.{Value, bool, str, obj, Fields, end, get, value_or}
use ubuntu_advantage_client.Text.{codes, codes_eq, lower}

-- The loop over the path. `none` is the early `return False` at a value that is no dict.
unfoldable pub value_at : String → List String → Value → Value → Option Value
value_at leaf [] default value = some value
value_at leaf (key ∷ keys) default value =
    let default' = if key === leaf then str "false" else default in
    elim value [ obj fs ↦ value_at leaf keys default' (value_or default' (get key fs)) | _ ↦ none ]

-- str(value).lower() == word, for a word of lower-case letters that no other value is written as
abbrev pub reads_as : String → Value → Bool
reads_as word (str s) = codes_eq (lower (codes s)) (codes word)
reads_as word (bool true) = word === "true"
reads_as word (bool false) = word === "false"
reads_as word _ = false

-- the two tests on the value that was found
unfoldable pub flag_of : Option Value → Result Bool
flag_of none = ok false
flag_of (some value) =
    if reads_as "true" value
    then ok true
    else if reads_as "false" value
    then ok false
    else err (user_facing "ERROR_INVALID_CONFIG_VALUE")

-- paths[-1]
abbrev pub last_of : List String → String
last_of [] = ""
last_of (k ∷ []) = k
last_of (k ∷ j ∷ ks) = last_of (j ∷ ks)

-- `path_to_value` is given split at its dots.
unfoldable pub is_config_value_true : Fields → List String → Result Bool
unfolding value_at flag_of
is_config_value_true config paths = flag_of (value_at (last_of paths) paths (obj end) (obj config))
