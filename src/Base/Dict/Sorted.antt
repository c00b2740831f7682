-- ===== src/Base/Dict/Sorted.antt =====
-- The entries of a `BTreeMap` stand in strictly rising key order, so each key stands once.
use Prim.Native.String.{compare}
use mcpway.Base.{String, Ordering, ◌≡◌, refl, none, [], ◌∷◌, arith, eq_iff}
use mcpway.Base.Order.{compare_gt, compare_trans}
use mcpway.Base.Dict.{Dict, lookup, insert, remove, insert_all, last_entry, compare_eq, compare_ne}

module _ {ℓ} {V : Type ℓ} where
  -- Every key of the dictionary comes after `k`.
  abbrev pub Above : String → Dict V → Type 0
  Above k [] = Unit
  Above k ((j, v) ∷ d) = (compare k j ≡ Ordering.lt) × Above k d

  abbrev pub IsSorted : Dict V → Type 0
  IsSorted [] = Unit
  IsSorted ((k, v) ∷ d) = Above k d × IsSorted d

  Above-trans : (i k : String) (d : Dict V) → compare i k ≡ Ordering.lt → Above k d → Above i d
  Above-trans i k [] h a = tt
  Above-trans i k ((j, v) ∷ d) h a = (compare_trans i k j h a.0, Above-trans i k d h a.1)

  Above-insert :
      (i k : String) (v : V) (d : Dict V)
      → compare i k ≡ Ordering.lt
      → Above i d
      → Above i (insert k v d)
  unfolding insert
  Above-insert i k v [] h a = (h, tt)
  Above-insert i k v ((j, w) ∷ d) h a = ground (arith, Above-insert i k v d h a.1)

  -- Inserting keeps the order.
  pub insert-IsSorted : (k : String) (v : V) (d : Dict V) → IsSorted d → IsSorted (insert k v d)
  unfolding insert
  insert-IsSorted k v [] s = (tt, tt)
  insert-IsSorted k v ((j, w) ∷ d) s = ground (
    arith,
    Above-trans k j d,
    Above-insert j k v d,
    compare_gt k j,
    compare_eq k j,
    insert-IsSorted k v d s.1,
  )

  Above-remove : (i k : String) (d : Dict V) → Above i d → Above i (remove k d)
  unfolding remove
  Above-remove i k [] a = tt
  Above-remove i k ((j, v) ∷ d) a = ground (arith, Above-remove i k d a.1)

  pub remove-IsSorted : (k : String) (d : Dict V) → IsSorted d → IsSorted (remove k d)
  unfolding remove
  remove-IsSorted k [] s = tt
  remove-IsSorted k ((j, v) ∷ d) s = ground (arith, Above-remove j k d s.0, remove-IsSorted k d s.1)

  pub lookup-Above : (k : String) (d : Dict V) → Above k d → lookup k d ≡ none
  unfolding lookup
  lookup-Above k [] a = refl
  lookup-Above k ((j, v) ∷ d) a = ground (arith, eq_iff j k, compare_ne k j, lookup-Above k d a.1)

  -- In a sorted dictionary the last entry of a key is its only one.
  pub last_entry-IsSorted : (k : String) (d : Dict V) → IsSorted d → last_entry k d ≡ lookup k d
  unfolding lookup
  last_entry-IsSorted k [] s = refl
  last_entry-IsSorted k ((j, v) ∷ d) s =
      ground (arith, eq_iff j k, last_entry-IsSorted k d s.1, lookup-Above j d s.0)

  pub insert_all-IsSorted : (d more : Dict V) → IsSorted d → IsSorted (insert_all d more)
  unfolding insert_all
  insert_all-IsSorted d [] s = s
  insert_all-IsSorted d ((k, v) ∷ more) s =
      insert_all-IsSorted (insert k v d) more (insert-IsSorted k v d s)
