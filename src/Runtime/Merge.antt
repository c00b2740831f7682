-- ===== src/Runtime/Merge.antt =====
-- What a session's effective arguments are, read at one key.
use mcpway.Base.{String, ◌≡◌, refl, some, List, [], ◌∷◌, ◌++◌, append-nil, sym, arith, or_else}
use mcpway.Base.Dict.{Dict, lookup, lookup-insert_all}
use mcpway.Base.Dict.Sorted.{IsSorted, last_entry-IsSorted}
use mcpway.Runtime.{RuntimeArgs, RuntimeArgsStore, merge, merge_list, merge_map, get_effective}

merge_list-append : (base overlay : List String) → merge_list base overlay ≡ base ++ overlay
unfolding merge_list
merge_list-append base [] = sym (append-nil base)
merge_list-append base (x ∷ overlay) = refl

lookup-merge_map :
    (k : String) (base overlay : Dict String)
    → IsSorted overlay
    → lookup k (merge_map base overlay) ≡ or_else (lookup k overlay) (lookup k base)
unfolding merge_map lookup
lookup-merge_map k base [] s = refl
lookup-merge_map k base (e ∷ overlay) s =
    ground (arith, lookup-insert_all k base (e ∷ overlay), last_entry-IsSorted k (e ∷ overlay) s)

-- A session with an overlay runs with the global extra arguments followed by its own, and with
-- the overlay's value of each variable and header that the overlay sets, else the global one. The
-- overlay's maps are assumed to hold their keys in order, each once, as a map does.
pub get_effective-overlay :
    (store : RuntimeArgsStore) (id k : String) (overlay : RuntimeArgs)
    → lookup id store.sessions ≡ some overlay
    → IsSorted overlay.env
    → IsSorted overlay.headers
    → let args = get_effective (some id) store in
      (args.extra_cli_args ≡ store.global.extra_cli_args ++ overlay.extra_cli_args)
      × (lookup k args.env ≡ or_else (lookup k overlay.env) (lookup k store.global.env))
      × (lookup k args.headers ≡ or_else (lookup k overlay.headers) (lookup k store.global.headers))
unfolding get_effective merge
get_effective-overlay store id k overlay found env headers = ground (
  arith,
  merge_list-append store.global.extra_cli_args overlay.extra_cli_args,
  lookup-merge_map k store.global.env overlay.env env,
  lookup-merge_map k store.global.headers overlay.headers headers,
)
