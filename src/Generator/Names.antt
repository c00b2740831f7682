-- ===== src/Generator/Names.antt =====
-- rust/src/generator/normalize.rs: names of artifacts and of environment variables. The loop over two
-- equal marks is that of connect.rs, at a dash and at a low line.
use Prim.Native.String.{[], ◌∷◌}
use mcpway.Base.{ℕ, zero, suc, String, Char, code, Bool, false, ◌&&◌, ◌||◌, eqb, if◌then◌else◌}
use mcpway.Base.Text.{is_ascii_alphanumeric, char_uppercase, trim_matches, map_chars}
use mcpway.Connect.Names.{is_dash, kept, join_all, count_chars}

-- The dash's loop ends as `Connect.Names.join_all-has_two` says.
unfoldable pub sanitize_artifact_name : String → String
unfolding kept join_all trim_matches
sanitize_artifact_name raw =
    let out = map_chars kept raw in trim_matches is_dash (join_all (count_chars out) out)

is_line : Char → Bool
is_line c = eqb (code c) b'_'

unfoldable pub env_kept : Char → Char
unfolding char_uppercase
env_kept c = if is_ascii_alphanumeric c then char_uppercase c else "_"

-- `out.contains("__")`
unfoldable pub has_lines : String → Bool
unfolding is_line
has_lines [] = false
has_lines (c ∷ []) = false
has_lines (c ∷ d ∷ s) = (is_line c && is_line d) || has_lines (d ∷ s)

-- `out.replace("__", "_")`
unfoldable pub join_lines : String → String
unfolding is_line
join_lines [] = []
join_lines (c ∷ []) = c ∷ []
join_lines (c ∷ d ∷ s) =
    let joined = "_" ∷ join_lines s in
    let other = c ∷ join_lines (d ∷ s) in if is_line c && is_line d then joined else other

unfoldable pub join_all_lines : ℕ → String → String
unfolding has_lines join_lines
join_all_lines zero s = s
join_all_lines (suc fuel) s =
    let more = join_all_lines fuel (join_lines s) in if has_lines s then more else s

unfoldable pub sanitize_env_key : String → String
unfolding env_kept join_all_lines trim_matches is_line
sanitize_env_key raw =
    let out = map_chars env_kept raw in trim_matches is_line (join_all_lines (count_chars out) out)
