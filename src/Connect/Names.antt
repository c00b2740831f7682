-- ===== src/Connect/Names.antt =====
-- rust/src/connect.rs, `sanitize_wrapper_name`: the file's name. The loop that joins dashes has as much
-- fuel as the name has characters, and each round that finds two dashes makes it shorter.
use Prim.Native.String.{[], ◌∷◌}
use mcpway.Base.{
  ℕ, zero, suc, ◌≤◌, ◌<◌, String, Char, code, Bool, true, false, ◌&&◌, ◌||◌, ◌≡◌, refl, arith, eqb,
  if◌then◌else◌,
}
use mcpway.Base.Text.{map_chars, is_empty, is_ascii_alphanumeric, char_lowercase, trim_matches}

unfoldable pub is_dash : Char → Bool
is_dash c = eqb (code c) b'-'

unfoldable pub kept : Char → Char
unfolding char_lowercase
kept c =
    if is_ascii_alphanumeric c || eqb (code c) b'-' || eqb (code c) b'_'
    then char_lowercase c
    else "-"

-- `out.contains("--")`
unfoldable pub has_two : String → Bool
unfolding is_dash
has_two [] = false
has_two (c ∷ []) = false
has_two (c ∷ d ∷ s) = (is_dash c && is_dash d) || has_two (d ∷ s)

-- `out.replace("--", "-")`
unfoldable pub join_dashes : String → String
unfolding is_dash
join_dashes [] = []
join_dashes (c ∷ []) = c ∷ []
join_dashes (c ∷ d ∷ s) =
    let joined = "-" ∷ join_dashes s in
    let other = c ∷ join_dashes (d ∷ s) in if is_dash c && is_dash d then joined else other

unfoldable pub join_all : ℕ → String → String
unfolding has_two join_dashes
join_all zero s = s
join_all (suc fuel) s = let more = join_all fuel (join_dashes s) in if has_two s then more else s

abbrev pub count_chars : String → ℕ
count_chars [] = 0
count_chars (c ∷ s) = suc (count_chars s)

unfoldable pub sanitize_wrapper_name : String → String
unfolding kept join_all trim_matches
sanitize_wrapper_name raw =
    let out = map_chars kept raw in
    let trimmed = trim_matches is_dash (join_all (count_chars out) out) in
    if is_empty trimmed then "wrapper" else trimmed

length-join_dashes : (s : String) → count_chars (join_dashes s) ≤ count_chars s
unfolding join_dashes
length-join_dashes [] = omega arith
length-join_dashes (c ∷ []) = omega arith
length-join_dashes (c ∷ d ∷ s) = ground (arith, length-join_dashes s, length-join_dashes (d ∷ s))

join_dashes-shorter : (s : String) → has_two s ≡ true → count_chars (join_dashes s) < count_chars s
unfolding join_dashes has_two
join_dashes-shorter [] h = ground arith
join_dashes-shorter (c ∷ []) h = ground arith
join_dashes-shorter (c ∷ d ∷ s) h =
    ground (arith, length-join_dashes s, join_dashes-shorter (d ∷ s))

has_two-short : (s : String) → count_chars s ≤ 0 → has_two s ≡ false
unfolding has_two
has_two-short [] h = refl
has_two-short (c ∷ s) h = absurd (omega (arith, h))

-- The loop that joins dashes ends: with as many rounds as the text has characters, or more, no two
-- dashes stand together in what is left.
pub join_all-has_two :
    (fuel : ℕ) (s : String) → count_chars s ≤ fuel → has_two (join_all fuel s) ≡ false
unfolding join_all
join_all-has_two zero s h = has_two-short s h
join_all-has_two (suc fuel) s h =
    ground (arith, join_all-has_two fuel (join_dashes s), join_dashes-shorter s)
