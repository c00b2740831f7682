-- ===== src/Base/Decimal.antt =====
-- How integers print in decimal, and `str::parse` for `u16`, `u64` and `i64`. The loop that prints
-- has more fuel than the number has digits, which `parse_digits-print` shows to be enough.
use Prim.Native.String.{[], ◌∷◌}
use mcpway.Base.{
  ℕ, zero, suc, ◌+◌, ◌-◌, ◌*◌, ◌/◌, ◌%◌, ◌≤◌, ◌<◌, String, Char, code, Bool, true, false, Option,
  none, some, ◌≡◌, refl, sym, ap, ◌∙◌, arith, Bool-cases, inl, inr, ltb, leb, eqb, ◌&&◌,
  if◌then◌else◌,
}
use mcpway.Base.Int.{ℤ, pos, negsuc, fits_i64}

-- The character of a digit.
digit : ℕ → Char
digit zero = "0"
digit (suc zero) = "1"
digit (suc (suc zero)) = "2"
digit (suc (suc (suc zero))) = "3"
digit (suc (suc (suc (suc zero)))) = "4"
digit (suc (suc (suc (suc (suc zero))))) = "5"
digit (suc (suc (suc (suc (suc (suc zero)))))) = "6"
digit (suc (suc (suc (suc (suc (suc (suc zero))))))) = "7"
digit (suc (suc (suc (suc (suc (suc (suc (suc zero)))))))) = "8"
digit _ = "9"

code-digit : (d : ℕ) → d < 10 → code (digit d) ≡ 48 + d
unfolding digit
code-digit zero h = refl
code-digit (suc zero) h = refl
code-digit (suc (suc zero)) h = refl
code-digit (suc (suc (suc zero))) h = refl
code-digit (suc (suc (suc (suc zero)))) h = refl
code-digit (suc (suc (suc (suc (suc zero))))) h = refl
code-digit (suc (suc (suc (suc (suc (suc zero)))))) h = refl
code-digit (suc (suc (suc (suc (suc (suc (suc zero))))))) h = refl
code-digit (suc (suc (suc (suc (suc (suc (suc (suc zero)))))))) h = refl
code-digit (suc (suc (suc (suc (suc (suc (suc (suc (suc zero))))))))) h = refl
code-digit (suc (suc (suc (suc (suc (suc (suc (suc (suc (suc d)))))))))) h =
    absurd (omega (arith, h))

-- The digits of a number before those of `after`.
push_digits : ℕ → ℕ → String → String
unfolding digit
push_digits zero n after = after
push_digits (suc fuel) n after =
    let longer = digit (n % 10) ∷ after in
    let more = push_digits fuel (n / 10) longer in if ltb n 10 then longer else more

unfoldable pub print_nat : ℕ → String
unfolding push_digits
print_nat n = push_digits (suc n) n []

unfoldable pub print_int : ℤ → String
unfolding print_nat
print_int (pos n) = print_nat n
print_int (negsuc n) = "-" ∷ print_nat (suc n)

-- The number that the digits say after the digits of `n`.
unfoldable pub read_digits : ℕ → String → Option ℕ
read_digits n [] = some n
read_digits n (c ∷ s) =
    let rest = read_digits (n * 10 + (code c - 48)) s in
    if leb 48 (code c) && leb (code c) 57 then rest else none

-- The digits of a number; at least one.
unfoldable pub parse_digits : String → Option ℕ
unfolding read_digits
parse_digits [] = none
parse_digits (c ∷ s) = read_digits 0 (c ∷ s)

unfoldable pub signed : Bool → Option ℕ → Option ℤ
signed negative none = none
signed false (some n) = some (pos n)
signed true (some zero) = some (pos 0)
signed true (some (suc n)) = some (negsuc n)

unfoldable pub parse_int : String → Option ℤ
unfolding parse_digits signed
parse_int [] = none
parse_int (c ∷ s) =
    if eqb (code c) 45
    then signed true (parse_digits s)
    else if eqb (code c) 43
    then signed false (parse_digits s)
    else signed false (parse_digits (c ∷ s))

-- `str::parse::<i64>`, which refuses what is out of range.
unfoldable pub parse_i64 : String → Option ℤ
unfolding parse_int
parse_i64 s = elim (parse_int s) [ none ↦ none | some n ↦ if fits_i64 n then some n else none ]

-- `str::parse` for an unsigned integer up to `max`, which takes a sign `+`.
unfoldable pub parse_unsigned : ℕ → String → Option ℕ
unfolding parse_digits
parse_unsigned max [] = none
parse_unsigned max (c ∷ s) =
    let number = if eqb (code c) 43 then parse_digits s else parse_digits (c ∷ s) in
    elim number [ none ↦ none | some n ↦ if leb n max then some n else none ]

read_digit :
    (d : ℕ) (a : ℕ) (after : String)
    → d < 10
    → read_digits a (digit d ∷ after) ≡ read_digits (a * 10 + d) after
unfolding read_digits
read_digit d a after h = ground (arith, code-digit d h)

read-push_digits :
    (fuel n : ℕ) (after : String)
    → n < fuel
    → read_digits 0 (push_digits fuel n after) ≡ read_digits n after
unfolding push_digits
read-push_digits zero n after h = absurd (omega (arith, h))
read-push_digits (suc fuel) n after h =
    let last = digit (n % 10) ∷ after in
    let rest = read-push_digits fuel (n / 10) last in
    let step = read_digit (n % 10) (n / 10) after (omega arith) in
    elim (Bool-cases (ltb n 10)) [
      | inl e ↦ rw e (ground (arith, read_digit (n % 10) 0 after))
      | inr e ↦ rw e (rest (ground arith) ∙ step ∙ ap (λ k. read_digits k after) (omega arith))
    ]

-- What is printed for a number starts with a digit, so it has no sign and is not empty.
first_digit :
    (fuel n : ℕ) (after : String)
    → (c : Char) × (s : String) × (push_digits (suc fuel) n after ≡ c ∷ s) × (48 ≤ code c)
unfolding push_digits
first_digit zero n after = elim (Bool-cases (ltb n 10)) [
  | inl e ↦ rw e (digit (n % 10), after, refl, ground (arith, code-digit (n % 10)))
  | inr e ↦ rw e (digit (n % 10), after, refl, ground (arith, code-digit (n % 10)))
]
first_digit (suc fuel) n after =
    let rest = first_digit fuel (n / 10) (digit (n % 10) ∷ after) in
    elim (Bool-cases (ltb n 10)) [
      | inl e ↦ rw e (digit (n % 10), after, refl, ground (arith, code-digit (n % 10)))
      | inr e ↦ rw e rest
    ]

pub parse_digits-print_nat : (n : ℕ) → parse_digits (print_nat n) ≡ some n
unfolding parse_digits print_nat
parse_digits-print_nat n =
    let (c, s, e, big) = first_digit n n [] in
    let read : read_digits 0 (push_digits (suc n) n []) ≡ some n =
      read-push_digits (suc n) n [] (omega arith) in
    ap parse_digits e ∙ sym (ap (read_digits 0) e) ∙ read

parse_int-print_nat : (n : ℕ) → parse_int (print_nat n) ≡ some (pos n)
unfolding parse_int print_nat
parse_int-print_nat n =
    let (c, s, e, big) = first_digit n n [] in
    let digits : parse_digits (c ∷ s) ≡ some n =
      sym (ap parse_digits e) ∙ parse_digits-print_nat n in
    ap parse_int e ∙ ground (arith, digits, big)

-- What is printed for an integer is parsed as that integer.
parse_int-print_int : (n : ℤ) → parse_int (print_int n) ≡ some n
unfolding print_int parse_int
parse_int-print_int (pos n) = parse_int-print_nat n
parse_int-print_int (negsuc n) = ap (signed true) (parse_digits-print_nat (suc n))

pub parse_i64-print_int : (n : ℤ) → parse_i64 (print_int n) ≡ (if fits_i64 n then some n else none)
unfolding parse_i64
parse_i64-print_int n = ground (arith, parse_int-print_int n)

pub parse_unsigned-le : (max : ℕ) (s : String) (n : ℕ) → parse_unsigned max s ≡ some n → n ≤ max
unfolding parse_unsigned
parse_unsigned-le max [] n h = ground arith
parse_unsigned-le max (c ∷ s) n h = ground arith
