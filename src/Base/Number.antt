-- ===== src/Base/Number.antt =====
-- Decimal numerals, as `int(...)`, `str(...)` and `\d+` read and write them, over the ASCII digits.
use Prim.Native.Nat.{ℕ, zero, suc, ◌+◌, ◌-◌, ◌*◌, ◌/◌, ◌%◌, ◌<◌}
use mathlib.Core.Path.{◌≡◌, refl, ◌∙◌, ap}
use mathlib.Core.Logic.{inl, inr}
use mathlib.Core.Bool.{Bool, true, false, ◌&&◌}
use mathlib.Core.List.{[], ◌∷◌, ◌++◌}
use native.Mathlib.Omega.{arith}
use seekbase.Base.Tests.{leb, ltb, if◌then◌else◌, Bool-cases}
use seekbase.Base.Texts.{Text}
use seekbase.Base.Lists.{All}

unfoldable pub is_digit : ℕ → Bool
is_digit c = leb 48 c && leb c 57

-- The longest run of digits at the front, and what follows it.
unfoldable pub span_digits : Text → Text × Text
unfolding is_digit
span_digits [] = ([], [])
span_digits (c ∷ s) =
    let (digits, rest) = span_digits s in if is_digit c then (c ∷ digits, rest) else ([], c ∷ s)

-- The number that a run of digits stands for, after the digits read before it.
unfoldable pub value_from : ℕ → Text → ℕ
value_from n [] = n
value_from n (c ∷ s) = value_from (n * 10 + (c - 48)) s

print_from : ℕ → ℕ → Text → Text
print_from zero n after = after
print_from (suc fuel) n after =
    let longer = print_from fuel (n / 10) ((48 + n % 10) ∷ after) in
    if ltb n 10 then (48 + n) ∷ after else longer

-- str(n): `n + 1` rounds are enough, since `n / 10 < n`.
unfoldable pub print_nat : ℕ → Text
unfolding print_from
print_nat n = print_from (suc n) n []

-- Text that does not go on with a digit.
unfoldable pub ends_run : Text → Bool
unfolding is_digit
ends_run [] = true
ends_run (c ∷ s) = if is_digit c then false else true

span-digits_append :
    (ds rest : Text)
    → All (λ c. is_digit c ≡ true) ds
    → ends_run rest ≡ true
    → span_digits (ds ++ rest) ≡ (ds, rest)
unfolding span_digits ends_run
span-digits_append [] [] h e = refl
span-digits_append [] (c ∷ rest) h e = ground arith
span-digits_append (c ∷ ds) rest h e = rw (span-digits_append ds rest h.1 e) (rw h.0)

print_from-digits :
    (fuel n : ℕ) (after : Text)
    → All (λ c. is_digit c ≡ true) after
    → All (λ c. is_digit c ≡ true) (print_from fuel n after)
unfolding print_from is_digit
print_from-digits zero n after h = h
print_from-digits (suc fuel) n after h = elim (Bool-cases (ltb n 10)) [
  | inl small ↦ rw small (ground arith, h)
  | inr big ↦ rw big (print_from-digits fuel (n / 10) _ (ground arith, h))
]

print_from-value :
    (fuel n : ℕ) (after : Text)
    → n < fuel
    → value_from 0 (print_from fuel n after) ≡ value_from n after
unfolding print_from value_from
print_from-value zero n after h = absurd (omega arith)
print_from-value (suc fuel) n after h = elim (Bool-cases (ltb n 10)) [
  | inl small ↦ rw small (ap (λ k. value_from k after) (ground arith))
  | inr big ↦ rw big (
      print_from-value fuel (n / 10) _ (ground arith) ∙ ap (λ k. value_from k after) (ground arith))
]

-- Reading back what was printed: the digits are exactly the numeral, and they stand for `n`.
pub span_digits-print_nat :
    (n : ℕ) (rest : Text)
    → ends_run rest ≡ true
    → span_digits (print_nat n ++ rest) ≡ (print_nat n, rest)
unfolding print_nat
span_digits-print_nat n rest e =
    span-digits_append (print_from (suc n) n []) rest (print_from-digits (suc n) n [] tt) e

pub value_from-print_nat : (n : ℕ) → value_from 0 (print_nat n) ≡ n
unfolding print_nat value_from
value_from-print_nat n = print_from-value (suc n) n [] (omega arith)

print_from-cons :
    (fuel n : ℕ) (c : ℕ) (after : Text)
    → (d : ℕ) × (s : Text) × (print_from fuel n (c ∷ after) ≡ d ∷ s)
unfolding print_from
print_from-cons zero n c after = (c, after, refl)
print_from-cons (suc fuel) n c after = elim (Bool-cases (ltb n 10)) [
  | inl small ↦ (48 + n, c ∷ after, rw small)
  | inr big ↦
      let (d, s, e) = print_from-cons fuel (n / 10) (48 + n % 10) (c ∷ after) in (d, s, rw big e)
]

pub print_nat-cons : (n : ℕ) → (d : ℕ) × (s : Text) × (print_nat n ≡ d ∷ s)
unfolding print_nat print_from
print_nat-cons n = elim (Bool-cases (ltb n 10)) [
  | inl small ↦ (48 + n, [], rw small)
  | inr big ↦ let (d, s, e) = print_from-cons n (n / 10) (48 + n % 10) [] in (d, s, rw big e)
]

pub print_nat-digits : (n : ℕ) → All (λ c. is_digit c ≡ true) (print_nat n)
unfolding print_nat
print_nat-digits n = print_from-digits (suc n) n [] tt
