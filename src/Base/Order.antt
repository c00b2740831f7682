-- ===== src/Base/Order.antt =====
-- The byte order of texts (`str::cmp`): it is a strict total order.
use Prim.Native.Nat.{compare as compare_ℕ}
use Prim.Native.String.{[], ◌∷◌, compare, then}
use Prim.Native.String.compare
use text.Mathlib.TextPositions.{compare_refl}
use mcpway.Base.{◌≢◌, ℕ, String, code, Ordering, ◌≡◌, sym, ◌∙◌, ◌⊎◌, inl, inr, arith, ◌<◌}

lt_of_compare : (m n : ℕ) → compare_ℕ m n ≡ Ordering.lt → m < n
lt_of_compare m n h = ground arith

then_lt :
    (m n : ℕ) (p : Ordering)
    → then (compare_ℕ m n) p ≡ Ordering.lt
    → (m < n) ⊎ ((m ≡ n) × (p ≡ Ordering.lt))
then_lt m n p h = ground arith

lt_then :
    (m n : ℕ) (p : Ordering)
    → (m < n) ⊎ ((m ≡ n) × (p ≡ Ordering.lt))
    → then (compare_ℕ m n) p ≡ Ordering.lt
lt_then m n p h = ground arith

then_gt :
    (m n : ℕ) (p : Ordering)
    → then (compare_ℕ m n) p ≡ Ordering.gt
    → (n < m) ⊎ ((m ≡ n) × (p ≡ Ordering.gt))
then_gt m n p h = ground arith

not_lt_nil : (s : String) → compare s [] ≢ Ordering.lt
not_lt_nil [] h = cc h
not_lt_nil (c ∷ s) h = cc (h, compare.cons-nil c s)

-- A text that comes after another has the other before it.
pub compare_gt : (s t : String) → compare s t ≡ Ordering.gt → compare t s ≡ Ordering.lt
compare_gt [] [] h = cc h
compare_gt [] (d ∷ t) h = cc (h, compare.nil-cons d t)
compare_gt (c ∷ s) [] h = compare.nil-cons c s
compare_gt (c ∷ s) (d ∷ t) h =
    compare.cons-cons d c t s
    ∙ lt_then (code d) (code c) (compare t s) (
        flip (compare_gt s t)
          (then_gt (code c) (code d) (compare s t) (sym (compare.cons-cons c d s t) ∙ h)))
  where
    flip :
        (compare s t ≡ Ordering.gt → compare t s ≡ Ordering.lt)
        → (code d < code c) ⊎ ((code c ≡ code d) × (compare s t ≡ Ordering.gt))
        → (code d < code c) ⊎ ((code d ≡ code c) × (compare t s ≡ Ordering.lt))
    flip ih (inl l) = inl l
    flip ih (inr (e, g)) = inr (sym e, ih g)

-- The order is transitive.
pub compare_trans :
    (s t u : String)
    → compare s t ≡ Ordering.lt
    → compare t u ≡ Ordering.lt
    → compare s u ≡ Ordering.lt
compare_trans [] t [] h k = absurd (not_lt_nil t k)
compare_trans [] t (e ∷ u) h k = compare.nil-cons e u
compare_trans (c ∷ s) [] u h k = absurd (not_lt_nil (c ∷ s) h)
compare_trans (c ∷ s) (d ∷ t) [] h k = absurd (not_lt_nil (d ∷ t) k)
compare_trans (c ∷ s) (d ∷ t) (e ∷ u) h k =
    compare.cons-cons c e s u
    ∙ lt_then (code c) (code e) (compare s u) (
        join (then_lt (code c) (code d) (compare s t) (sym (compare.cons-cons c d s t) ∙ h))
          (then_lt (code d) (code e) (compare t u) (sym (compare.cons-cons d e t u) ∙ k))
          (compare_trans s t u))
  where
    join :
        (code c < code d) ⊎ ((code c ≡ code d) × (compare s t ≡ Ordering.lt))
        → (code d < code e) ⊎ ((code d ≡ code e) × (compare t u ≡ Ordering.lt))
        → (compare s t ≡ Ordering.lt → compare t u ≡ Ordering.lt → compare s u ≡ Ordering.lt)
        → (code c < code e) ⊎ ((code c ≡ code e) × (compare s u ≡ Ordering.lt))
    join (inl p) (inl q) ih = inl (omega arith)
    join (inl p) (inr (e, q)) ih = inl (omega arith)
    join (inr (e, p)) (inl q) ih = inl (omega arith)
    join (inr (e, p)) (inr (e', q)) ih = inr (e ∙ e', ih p q)

pub compare_irrefl : (s : String) → compare s s ≢ Ordering.lt
compare_irrefl s h = cc (h, compare_refl s)
