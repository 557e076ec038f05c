-- ===== src/Cli/Properties.antt =====
-- `parse_property` and `parse_config` of src/cli.rs, and `BTreeMap<String, String>` in the order of the keys' bytes.
pub mod Lookup
use jkq.Prelude.{
  ltb, ◌==◌, if◌then◌else◌, is_some, Bytes, is_empty, Result, ok, ◌>>=◌, ◌>>◌, fail_if, ok_or,
  map_err, ℕ, ◌+◌, Bool, true, false, ◌&&◌, ◌||◌, Option, none, some, List, [], ◌∷◌,
}
use jkq.Text.{same, trim, split_once, lines}

unfoldable pub before : Bytes → Bytes → Bool
before s [] = false
before [] (b ∷ t) = true
before (a ∷ s) (b ∷ t) = let rest = before s t in ltb a b || a == b && rest

abbrev pub PropertyMap : Type 0
PropertyMap = List (Bytes × Bytes)

unfoldable pub lookup : Bytes → PropertyMap → Option Bytes
unfolding same
lookup key [] = none
lookup key ((k, value) ∷ more) =
    let rest = lookup key more in if same k key then some value else rest

abbrev pub contains_key : Bytes → PropertyMap → Bool
contains_key key properties = is_some (lookup key properties)

unfoldable pub put : Bytes → Bytes → PropertyMap → PropertyMap
unfolding same before
put key value [] = (key, value) ∷ []
put key value ((k, v) ∷ more) =
    let rest = put key value more in
    if before key k
    then (key, value) ∷ ((k, v) ∷ more)
    else if same k key
    then (key, value) ∷ more
    else (k, v) ∷ rest

unfoldable pub delete : Bytes → PropertyMap → PropertyMap
unfolding same
delete key [] = []
delete key ((k, v) ∷ more) =
    let rest = delete key more in if same k key then rest else (k, v) ∷ rest

pub data PropertyError : Type 0 where
  no_equals_sign empty_key : PropertyError

unfoldable pub parse_property : Bytes → Result PropertyError (Bytes × Bytes)
unfolding split_once trim
parse_property text = do
  (key, value) ← ok_or (split_once b'=' text) no_equals_sign
  fail_if (is_empty (trim key)) empty_key
  ok (trim key, value)

pub data ConfigError : Type 0 where
  in_line : ℕ → PropertyError → ConfigError

-- Empty, or a comment.
unfoldable pub skips_line : Bytes → Bool
skips_line [] = true
skips_line (b ∷ s) = b == b'#'

-- The loop from the line with this index.
unfoldable pub config_lines : ℕ → List Bytes → PropertyMap → Result ConfigError PropertyMap
unfolding trim skips_line parse_property put
config_lines index [] properties = ok properties
config_lines index (text ∷ texts) properties =
    let line : Bytes = trim text in
    let skipped = config_lines (index + 1) texts properties in
    let taken : Result ConfigError PropertyMap =
      map_err (in_line (index + 1)) (parse_property line) >>= λ (key, value).
      config_lines (index + 1) texts (put key (trim value) properties) in
    if skips_line line then skipped else taken

unfoldable pub parse_config : Bytes → Result ConfigError PropertyMap
unfolding config_lines lines
parse_config source = config_lines 0 (lines source) []
