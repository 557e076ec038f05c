-- ===== src/Text.antt =====
-- What src/cli.rs uses of Rust's `str`, on the bytes of a text's UTF-8 form.
pub mod Integers
pub mod Suffixes
pub mod Splitting
use jkq.Prelude.{
  leb, ◌==◌, if◌then◌else◌, is_some, Bytes, is_empty, ℕ, zero, suc, ◌-◌, Bool, true, false, ◌&&◌,
  ◌||◌, Option, none, some, List, [], ◌∷◌, map_some,
}

unfoldable pub same : Bytes → Bytes → Bool
same [] [] = true
same (a ∷ s) (b ∷ t) = let rest = same s t in a == b && rest
same _ _ = false

-- The bytes of the white-space character in front, as many as it has: 0 if there is none. The characters are
-- those of Unicode's White_Space.
unfoldable pub white_length : Bytes → ℕ
white_length [] = 0
white_length (a ∷ []) = if leb 9 a && leb a 13 || a == 32 then 1 else 0
white_length (a ∷ (b ∷ [])) =
    if leb 9 a && leb a 13 || a == 32
    then 1
    else if a == 0xC2 && (b == 0x85 || b == 0xA0)
    then 2
    else 0
white_length (a ∷ (b ∷ (c ∷ _))) =
    if leb 9 a && leb a 13 || a == 32
    then 1
    else if a == 0xC2 && (b == 0x85 || b == 0xA0)
    then 2
    else if a == 0xE1 && b == 0x9A && c == 0x80
        || a == 0xE2
          && b == 0x80
          && (leb 0x80 c && leb c 0x8A || c == 0xA8 || c == 0xA9 || c == 0xAF)
        || a == 0xE2 && b == 0x81 && c == 0x9F
        || a == 0xE3 && b == 0x80 && c == 0x80
    then 3
    else 0

-- The text after its leading white space; `skipped` bytes belong to the character before.
unfoldable pub trim_start_from : ℕ → Bytes → Bytes
unfolding white_length
trim_start_from skipped [] = []
trim_start_from zero (b ∷ s) =
    let white : ℕ = white_length (b ∷ s) in
    let rest = trim_start_from (white - 1) s in if white == 0 then b ∷ s else rest
trim_start_from (suc skipped) (b ∷ s) = trim_start_from skipped s

unfoldable pub trim_start : Bytes → Bytes
unfolding trim_start_from
trim_start s = trim_start_from 0 s

-- Stops where only white space is left.
unfoldable pub trim_end : Bytes → Bytes
unfolding trim_start
trim_end [] = []
trim_end (b ∷ s) = let rest = trim_end s in if is_empty (trim_start (b ∷ s)) then [] else b ∷ rest

unfoldable pub trim : Bytes → Bytes
unfolding trim_end
trim s = trim_end (trim_start s)

unfoldable pub strip_prefix : Bytes → Bytes → Option Bytes
strip_prefix [] s = some s
strip_prefix (p ∷ ps) [] = none
strip_prefix (p ∷ ps) (b ∷ s) = let rest = strip_prefix ps s in if p == b then rest else none

unfoldable pub strip_suffix : Bytes → Bytes → Option Bytes
unfolding same
strip_suffix suffix [] = if is_empty suffix then some [] else none
strip_suffix suffix (b ∷ s) =
    let rest = strip_suffix suffix s in
    if same suffix (b ∷ s) then some [] else map_some (λ front. b ∷ front) rest

-- In two at the first separator.
unfoldable pub split_once : ℕ → Bytes → Option (Bytes × Bytes)
split_once separator [] = none
split_once separator (b ∷ s) =
    let rest = split_once separator s in
    if b == separator then some ([], s) else map_some (λ (front, back). (b ∷ front, back)) rest

abbrev onto_first : ℕ → List Bytes → List Bytes
onto_first b [] = (b ∷ []) ∷ []
onto_first b (part ∷ parts) = (b ∷ part) ∷ parts

-- At every separator.
unfoldable pub split : ℕ → Bytes → List Bytes
split separator [] = [] ∷ []
split separator (b ∷ s) =
    let parts = split separator s in if b == separator then [] ∷ parts else onto_first b parts

-- A line ends at a line feed, which a carriage return may precede.
unfoldable pub lines : Bytes → List Bytes
unfolding strip_prefix
lines [] = []
lines (b ∷ s) =
    let rest = lines s in
    if b == b'\n'
    then [] ∷ rest
    else if b == b'\r' && is_some (strip_prefix (b'\n' ∷ []) s)
    then rest
    else onto_first b rest
