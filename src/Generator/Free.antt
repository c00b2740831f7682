-- ===== src/Generator/Free.antt =====
-- rust/src/generator/normalize.rs: the loop that looks for a free name of a variable ends.
use mcpway.Base.{
  ℕ, zero, suc, ◌≤◌, ◌<◌, String, ◌≡◌, refl, sym, ap, ◌∙◌, inl, inr, true, false, List, [], ◌∷◌,
  arith, eq_iff, ◌==◌, if◌then◌else◌, Bool-cases, eq-false_of_ne, length,
}
use text.Mathlib.TextLemmas.{append_cancel_left, append-nil, cons-append, nil≢cons}
use mcpway.Base.Text.{◌++◌}
use mcpway.Base.Decimal.{print_nat, parse_digits, parse_digits-print_nat}
use mcpway.Generator.{member, candidate, free_name}

-- The list less one name.
unfoldable pub without : String → List String → List String
without k [] = []
without k (s ∷ more) = let rest = without k more in if s == k then rest else s ∷ rest

member-without :
    (j k : String) (names : List String)
    → (k == j) ≡ false
    → member j names ≡ true
    → member j (without k names) ≡ true
unfolding without
member-without j k [] other h = h
member-without j k (s ∷ more) other h =
    ground (arith, other, h, eq_iff s k, eq_iff s j, eq_iff k j, member-without j k more other)

length-without-le : (k : String) (names : List String) → length (without k names) ≤ length names
unfolding without
length-without-le k [] = omega arith
length-without-le k (s ∷ more) = ground (arith, length-without-le k more)

length-without :
    (k : String) (names : List String)
    → member k names ≡ true
    → length (without k names) < length names
unfolding without
length-without k [] h = ground (arith, h)
length-without k (s ∷ more) h = ground (arith, h, length-without k more, length-without-le k more)

print_nat-inj : (m n : ℕ) → print_nat m ≡ print_nat n → m ≡ n
print_nat-inj m n h =
    ground (arith, sym (parse_digits-print_nat m) ∙ ap parse_digits h ∙ parse_digits-print_nat n)

suffix_not_empty : (base s : String) → base ≡ base ++ "_" ++ s → ⊥
suffix_not_empty base s h =
    nil≢cons (append_cancel_left base "" ("_" ++ s) (append-nil base ∙ h) ∙ cons-append "_" "" s)

candidate-inj : (base : String) (m n : ℕ) → candidate base m ≡ candidate base n → m ≡ n
unfolding candidate
candidate-inj base zero zero h = refl
candidate-inj base zero (suc n) h = absurd (suffix_not_empty base (print_nat (suc n)) h)
candidate-inj base (suc m) zero h = absurd (suffix_not_empty base (print_nat (suc m)) (sym h))
candidate-inj base (suc m) (suc n) h =
    let s = "_" ++ print_nat (suc m) in
    let t = "_" ++ print_nat (suc n) in
    let tails : s ≡ t = append_cancel_left base s t h in
    print_nat-inj (suc m) (suc n)
      (append_cancel_left "_" (print_nat (suc m)) (print_nat (suc n)) tails)

candidate-other : (base : String) (m n : ℕ) → n < m → (candidate base n == candidate base m) ≡ false
candidate-other base m n h =
    eq-false_of_ne (candidate base n) (candidate base m)
      (λ e. omega (arith, h, candidate-inj base n m e))

-- `small` has every candidate from `n` on that is taken, and no more names than there is fuel.
free_name-covered :
    (fuel : ℕ) (base : String) (n : ℕ) (used small : List String)
    → length small ≤ fuel
    → ((m : ℕ)
        → n ≤ m
        → member (candidate base m) used ≡ true
        → member (candidate base m) small ≡ true)
    → member (free_name fuel base n used) used ≡ false
unfolding free_name
free_name-covered zero base n used [] h cover = elim (Bool-cases (member (candidate base n) used)) [
  | inl e ↦ absurd (ground (arith, cover n (omega arith) e))
  | inr e ↦ e
]
free_name-covered zero base n used (s ∷ small) h cover = absurd (omega (arith, h))
free_name-covered (suc fuel) base n used small h cover =
    let taken = candidate base n in
    elim (Bool-cases (member taken used)) [
      | inl e ↦
          let shorter = length-without taken small (cover n (omega arith) e) in
          rw e (
            free_name-covered fuel base (suc n) used (without taken small)
              (omega (arith, h, shorter))
              (λ (m : ℕ) (le : suc n ≤ m) (is : member (candidate base m) used ≡ true).
                member-without (candidate base m) taken small (candidate-other base m n le)
                  (cover m (omega (arith, le)) is)))
      | inr e ↦ rw e e
    ]

-- The loop ends with a name that is not taken, after at most as many rounds as there are names taken.
pub free_name-member :
    (base : String) (used : List String) → member (free_name (length used) base 0 used) used ≡ false
free_name-member base used =
    free_name-covered (length used) base 0 used used (omega arith) (λ m le is. is)
