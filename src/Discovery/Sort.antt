-- ===== src/Discovery/Sort.antt =====
-- `sort_by` of the standard library, a stable sort, as the insertion sort.
use mcpway.Base.{◌+◌, List, [], ◌∷◌, Ordering, ◌≡◌, ◌≢◌, refl, arith, length, All}

module _ {A : Type 0} where
  unfoldable pub insert_by : (A → A → Ordering) → A → List A → List A
  insert_by cmp x [] = x ∷ []
  insert_by cmp x (y ∷ ys) = elim (cmp x y) [
    | Ordering.gt ↦ y ∷ insert_by cmp x ys
    | _ ↦ x ∷ y ∷ ys
  ]

  unfoldable pub sort_by : (A → A → Ordering) → List A → List A
  unfolding insert_by
  sort_by cmp [] = []
  sort_by cmp (x ∷ xs) = insert_by cmp x (sort_by cmp xs)

  length-insert_by :
      (cmp : A → A → Ordering) (x : A) (xs : List A) → length (insert_by cmp x xs) ≡ length xs + 1
  unfolding insert_by
  length-insert_by cmp x [] = refl
  length-insert_by cmp x (y ∷ ys) = ground (arith, length-insert_by cmp x ys)

  pub length-sort_by : (cmp : A → A → Ordering) (xs : List A) → length (sort_by cmp xs) ≡ length xs
  unfolding sort_by
  length-sort_by cmp [] = refl
  length-sort_by cmp (x ∷ xs) =
      ground (arith, length-sort_by cmp xs, length-insert_by cmp x (sort_by cmp xs))

  pub All-insert_by :
      (P : A → Type 0) (cmp : A → A → Ordering) (x : A) (xs : List A)
      → P x
      → All P xs
      → All P (insert_by cmp x xs)
  unfolding insert_by
  All-insert_by P cmp x [] p a = (p, tt)
  All-insert_by P cmp x (y ∷ ys) p a = ground (arith, All-insert_by P cmp x ys p a.1)

  pub All-sort_by :
      (P : A → Type 0) (cmp : A → A → Ordering) (xs : List A) → All P xs → All P (sort_by cmp xs)
  unfolding sort_by
  All-sort_by P cmp [] a = tt
  All-sort_by P cmp (x ∷ xs) a =
      All-insert_by P cmp x (sort_by cmp xs) a.0 (All-sort_by P cmp xs a.1)

  -- Every two neighbours are related.
  unfoldable pub IsOrdered : (A → A → Type 0) → List A → Type 0
  IsOrdered R [] = Unit
  IsOrdered R (x ∷ []) = Unit
  IsOrdered R (x ∷ y ∷ ys) = R x y × IsOrdered R (y ∷ ys)

  -- The comparison does not find each of two after the other.
  abbrev pub IsTotal : (A → A → Ordering) → Type 0
  IsTotal cmp = (x y : A) → cmp x y ≡ Ordering.gt → cmp y x ≢ Ordering.gt

  insert_by-IsOrdered :
      (cmp : A → A → Ordering) (x : A) (ys : List A)
      → IsTotal cmp
      → IsOrdered (λ l r. cmp l r ≢ Ordering.gt) ys
      → IsOrdered (λ l r. cmp l r ≢ Ordering.gt) (insert_by cmp x ys)
  unfolding IsOrdered insert_by
  insert_by-IsOrdered cmp x [] total h = tt
  insert_by-IsOrdered cmp x (y ∷ []) total h = ground (arith, total x y)
  insert_by-IsOrdered cmp x (y ∷ z ∷ zs) total h =
      ground (arith, h, total x y, insert_by-IsOrdered cmp x (z ∷ zs) total h.1)

  pub sort_by-IsOrdered :
      (cmp : A → A → Ordering) (xs : List A)
      → IsTotal cmp
      → IsOrdered (λ l r. cmp l r ≢ Ordering.gt) (sort_by cmp xs)
  unfolding sort_by IsOrdered
  sort_by-IsOrdered cmp [] total = tt
  sort_by-IsOrdered cmp (x ∷ xs) total =
      insert_by-IsOrdered cmp x (sort_by cmp xs) total (sort_by-IsOrdered cmp xs total)
