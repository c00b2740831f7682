-- ===== src/Base/Dict.antt =====
-- A dictionary with text keys: the model of `BTreeMap<String, V>`, whose entries stand in key
-- order, and of `HashMap<String, V>`, whose order no theorem depends on. Clients use `dict_laws`.
pub mod Sorted
use Prim.Native.String.{compare}
use text.Mathlib.TextEquality.{path_by_compare}
use text.Mathlib.TextPositions.{compare_refl}
use mcpway.Base.{
  ◌+◌, ◌≤◌, String, Ordering, ◌≡◌, refl, ap, ◌∙◌, sym, Bool, Option, none, some, List, [], ◌∷◌,
  arith, ◌==◌, eq_iff, if◌then◌else◌, is_some, length, or_else,
}

pub compare_eq : (k j : String) → compare k j ≡ Ordering.eq → k ≡ j
compare_eq k j h = path_by_compare k j h

pub compare_ne : (k j : String) → k ≡ j → compare k j ≡ Ordering.eq
compare_ne k j h = ap (compare k) (sym h) ∙ compare_refl k

abbrev pub Dict {ℓ} : Type ℓ → Type ℓ
Dict V = List (String × V)

module _ {ℓ} {V : Type ℓ} where
  -- `get`
  unfoldable pub lookup : String → Dict V → Option V
  lookup k [] = none
  lookup k ((j, v) ∷ d) = if j == k then some v else lookup k d

  -- `contains_key`
  abbrev pub contains : String → Dict V → Bool
  contains k d = is_some (lookup k d)

  -- `insert`: an equal key is overwritten, a new one stands before the first greater key.
  unfoldable pub insert : String → V → Dict V → Dict V
  insert k v [] = (k, v) ∷ []
  insert k v ((j, w) ∷ d) = elim (compare k j) [
    | Ordering.lt ↦ (k, v) ∷ (j, w) ∷ d
    | Ordering.eq ↦ (k, v) ∷ d
    | Ordering.gt ↦ (j, w) ∷ insert k v d
  ]

  -- `remove`
  unfoldable pub remove : String → Dict V → Dict V
  remove k [] = []
  remove k ((j, v) ∷ d) = let rest = remove k d in if j == k then rest else (j, v) ∷ rest

  -- `extend`, or a loop of `insert` over the entries of another map
  unfoldable pub insert_all : Dict V → Dict V → Dict V
  insert_all d [] = d
  insert_all d ((k, v) ∷ more) = insert_all (insert k v d) more

  abbrev pub keys : Dict V → List String
  keys [] = []
  keys ((k, v) ∷ d) = k ∷ keys d

  -- What `lookup` finds after `insert_all`: the last entry of the key, if there is one.
  abbrev pub last_entry : String → Dict V → Option V
  last_entry k [] = none
  last_entry k ((j, v) ∷ d) = or_else (last_entry k d) (if j == k then some v else none)

  pub lookup-insert :
      (k j : String) (v : V) (d : Dict V)
      → lookup j (insert k v d) ≡ (if k == j then some v else lookup j d)
  unfolding lookup insert
  lookup-insert k j v [] = refl
  lookup-insert k j v ((i, w) ∷ d) =
      ground (arith, eq_iff k j, eq_iff i j, compare_eq k i, compare_ne k i, lookup-insert k j v d)

  pub lookup-remove :
      (k j : String) (d : Dict V) → lookup j (remove k d) ≡ (if k == j then none else lookup j d)
  unfolding lookup remove
  lookup-remove k j [] = ground arith
  lookup-remove k j ((i, w) ∷ d) =
      ground (arith, eq_iff k j, eq_iff i k, eq_iff i j, lookup-remove k j d)

  pub lookup-insert_all :
      (k : String) (d more : Dict V)
      → lookup k (insert_all d more) ≡ or_else (last_entry k more) (lookup k d)
  unfolding insert_all
  lookup-insert_all k d [] = refl
  lookup-insert_all k d ((j, v) ∷ more) =
      ground (arith, lookup-insert_all k (insert j v d) more, lookup-insert j k v d)

  pub length-insert_fresh :
      (k : String) (v : V) (d : Dict V) → lookup k d ≡ none → length (insert k v d) ≡ length d + 1
  unfolding lookup insert
  length-insert_fresh k v [] h = omega arith
  length-insert_fresh k v ((i, w) ∷ d) h =
      ground (arith, eq_iff i k, compare_eq k i, length-insert_fresh k v d)

  pub length-insert-le : (k : String) (v : V) (d : Dict V) → length (insert k v d) ≤ length d + 1
  unfolding insert
  length-insert-le k v [] = omega arith
  length-insert-le k v ((i, w) ∷ d) = ground (arith, length-insert-le k v d)

  pub length-remove-le : (k : String) (d : Dict V) → length (remove k d) ≤ length d
  unfolding remove
  length-remove-le k [] = omega arith
  length-remove-le k ((i, w) ∷ d) = ground (arith, length-remove-le k d)

pub ruleset dict_laws = (lookup-insert, lookup-remove)
