-- ===== src/Config/Headers.antt =====
-- rust/src/config.rs, `parse_headers` and `parse_env_values`: which value a name has in the end.
use mcpway.Base.{
  String, ◌≡◌, refl, inl, inr, ◌||◌, Option, none, some, List, [], ◌∷◌, arith, ◌==◌, if◌then◌else◌,
  Option-cases, or_else,
}
use mcpway.Base.Text.{◌++◌, is_empty, trim, split_once}
use mcpway.Base.Result.{ok, map_ok}
use mcpway.Config.{
  parse_headers, add_header, add_headers, add_bearer, add_env, add_envs, parse_env_values,
}
use mcpway.Base.Dict.{Dict, lookup, lookup-insert}

-- The value that one option gives to the name.
unfoldable pub header_at : String → String → Option String
unfolding split_once trim
header_at k raw = elim (split_once b':' raw) [
  | none ↦ none
  | some (key, value) ↦
      if is_empty (trim key) || is_empty (trim value)
      then none
      else if trim key == k
      then some (trim value)
      else none
]

unfoldable pub env_at : String → String → Option String
unfolding split_once trim
env_at k raw = elim (split_once b'=' raw) [
  | none ↦ none
  | some (key, value) ↦
      if is_empty (trim key) then none else if trim key == k then some value else none
]

-- The value by the last of the options that gives one.
unfoldable pub last_of : (String → Option String) → List String → Option String
last_of f [] = none
last_of f (raw ∷ more) = or_else (last_of f more) (f raw)

unfoldable pub bearer_at : String → Option String → Option String
unfolding trim
bearer_at k none = none
bearer_at k (some token) =
    if is_empty (trim token)
    then none
    else if "Authorization" == k
    then some ("Bearer " ++ trim token)
    else none

lookup-add_header :
    (k raw : String) (d : Dict String)
    → lookup k (add_header raw d) ≡ or_else (header_at k raw) (lookup k d)
unfolding add_header header_at
lookup-add_header k raw d = elim (Option-cases (split_once b':' raw)) [
  | inl e ↦ rw (add_header, header_at, e) refl
  | inr ((key, value), e) ↦
      rw (add_header, header_at, e) (ground (arith, lookup-insert (trim key) k (trim value) d))
]

lookup-add_headers :
    (k : String) (raws : List String) (d : Dict String)
    → lookup k (add_headers raws d) ≡ or_else (last_of (header_at k) raws) (lookup k d)
unfolding add_headers last_of
lookup-add_headers k [] d = refl
lookup-add_headers k (raw ∷ more) d =
    ground (arith, lookup-add_headers k more (add_header raw d), lookup-add_header k raw d)

lookup-add_bearer :
    (k : String) (token : Option String) (d : Dict String)
    → lookup k (add_bearer token d) ≡ or_else (bearer_at k token) (lookup k d)
unfolding add_bearer bearer_at
lookup-add_bearer k none d = refl
lookup-add_bearer k (some token) d =
    ground (arith, lookup-insert "Authorization" k ("Bearer " ++ trim token) d)

-- The headers are always accepted. A name has the bearer token's value if it is `Authorization` and the
-- token is not blank, and otherwise the value of the last option that names it, cut at the first
-- colon with both parts trimmed and not empty; a name that no such option gives has no value.
pub parse_headers-lookup :
    (k : String) (raws : List String) (token : Option String)
    → map_ok (lookup k) (parse_headers raws token)
      ≡ ok (or_else (bearer_at k token) (last_of (header_at k) raws))
unfolding parse_headers lookup
parse_headers-lookup k raws token =
    ground (arith, lookup-add_bearer k token (add_headers raws []), lookup-add_headers k raws [])

lookup-add_env :
    (k raw : String) (d : Dict String)
    → lookup k (add_env raw d) ≡ or_else (env_at k raw) (lookup k d)
unfolding add_env env_at
lookup-add_env k raw d = elim (Option-cases (split_once b'=' raw)) [
  | inl e ↦ rw (add_env, env_at, e) refl
  | inr ((key, value), e) ↦
      rw (add_env, env_at, e) (ground (arith, lookup-insert (trim key) k value d))
]

lookup-add_envs :
    (k : String) (raws : List String) (d : Dict String)
    → lookup k (add_envs raws d) ≡ or_else (last_of (env_at k) raws) (lookup k d)
unfolding add_envs last_of
lookup-add_envs k [] d = refl
lookup-add_envs k (raw ∷ more) d =
    ground (arith, lookup-add_envs k more (add_env raw d), lookup-add_env k raw d)

-- A variable has the value of the last option that names it, all after the first `=`, untrimmed.
pub parse_env_values-lookup :
    (k : String) (raws : List String) → lookup k (parse_env_values raws) ≡ last_of (env_at k) raws
unfolding parse_env_values lookup
parse_env_values-lookup k raws = ground (arith, lookup-add_envs k raws [])
