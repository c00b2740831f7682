-- ===== src/Base/Text.antt =====
-- The functions of Rust's `str` and `char` that the program calls: trimming, ASCII case, prefixes,
-- search and splitting, by clauses over the characters of a text.
use Prim.Native.String.{[], ◌∷◌}
use Prim.Native.String
use mcpway.Base.{
  ℕ, String, Char, code, Bool, true, false, ◌&&◌, ◌||◌, Option, none, some, if◌then◌else◌, leb, eqb,
}

infixr 65 ◌++◌
abbrev pub ◌++◌ : String → String → String
s ++ t = String.◌++◌ s t

abbrev pub is_empty : String → Bool
is_empty [] = true
is_empty (c ∷ s) = false

-- Unicode `White_Space`, which `str::trim` removes.
unfoldable pub is_whitespace : Char → Bool
is_whitespace c =
    (leb 9 (code c) && leb (code c) 13)
    || eqb (code c) 32
    || eqb (code c) 0x85
    || eqb (code c) 0xA0
    || eqb (code c) 0x1680
    || (leb 0x2000 (code c) && leb (code c) 0x200A)
    || eqb (code c) 0x2028
    || eqb (code c) 0x2029
    || eqb (code c) 0x202F
    || eqb (code c) 0x205F
    || eqb (code c) 0x3000

-- `trim_start_matches(p)`, `trim_end_matches(p)` and `trim_matches(p)`
unfoldable pub trim_start_matches : (Char → Bool) → String → String
trim_start_matches p [] = []
trim_start_matches p (c ∷ s) = let rest = trim_start_matches p s in if p c then rest else c ∷ s

unfoldable pub trim_end_matches : (Char → Bool) → String → String
trim_end_matches p [] = []
trim_end_matches p (c ∷ s) =
    let rest = trim_end_matches p s in if is_empty rest && p c then [] else c ∷ rest

unfoldable pub trim_matches : (Char → Bool) → String → String
unfolding trim_start_matches trim_end_matches
trim_matches p s = trim_end_matches p (trim_start_matches p s)

unfoldable pub trim : String → String
unfolding trim_matches is_whitespace
trim s = trim_matches is_whitespace s

-- The character of `to` at the place where `c` stands in `from`, or `c` itself.
pub translate : String → String → Char → Char
translate (a ∷ from) (b ∷ to) c =
    let rest = translate from to c in if eqb (code a) (code c) then b else rest
translate _ _ c = c

abbrev pub lower_letters : String
lower_letters = "abcdefghijklmnopqrstuvwxyz"

abbrev pub upper_letters : String
upper_letters = "ABCDEFGHIJKLMNOPQRSTUVWXYZ"

unfoldable pub char_lowercase : Char → Char
unfolding translate
char_lowercase c = translate upper_letters lower_letters c

unfoldable pub char_uppercase : Char → Char
unfolding translate
char_uppercase c = translate lower_letters upper_letters c

abbrev pub map_chars : (Char → Char) → String → String
map_chars f [] = []
map_chars f (c ∷ s) = f c ∷ map_chars f s

unfoldable pub to_ascii_lowercase : String → String
unfolding char_lowercase
to_ascii_lowercase s = map_chars char_lowercase s

-- `strip_prefix`
unfoldable pub strip_prefix : String → String → Option String
strip_prefix [] s = some s
strip_prefix (p ∷ ps) [] = none
strip_prefix (p ∷ ps) (c ∷ s) =
    let rest = strip_prefix ps s in if eqb (code p) (code c) then rest else none

unfoldable pub starts_with : String → String → Bool
unfolding strip_prefix
starts_with s p = elim (strip_prefix p s) [ none ↦ false | some rest ↦ true ]

-- `s.contains(p)`
unfoldable pub contains : String → String → Bool
unfolding starts_with
contains p [] = starts_with [] p
contains p (c ∷ s) = starts_with (c ∷ s) p || contains p s

-- `split_once(sep)` at the first character with the code `sep`
unfoldable pub split_once : ℕ → String → Option (String × String)
split_once sep [] = none
split_once sep (c ∷ s) =
    let rest = split_once sep s in
    if eqb (code c) sep
    then some ([], s)
    else elim rest [ none ↦ none | some (a, b) ↦ some (c ∷ a, b) ]

-- `strip_suffix(c)` at a character with the code `c`
unfoldable pub strip_last : ℕ → String → Option String
strip_last last [] = none
strip_last last (c ∷ s) =
    let rest = strip_last last s in
    if is_empty s
    then (if eqb (code c) last then some [] else none)
    else elim rest [ none ↦ none | some t ↦ some (c ∷ t) ]

-- `char::is_ascii_alphanumeric`
abbrev pub is_ascii_alphanumeric : Char → Bool
is_ascii_alphanumeric c =
    (leb 48 (code c) && leb (code c) 57)
    || (leb 65 (code c) && leb (code c) 90)
    || (leb 97 (code c) && leb (code c) 122)
