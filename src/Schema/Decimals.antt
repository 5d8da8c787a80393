-- ===== src/Schema/Decimals.antt =====
-- The declared type `decimal(p,s)`.
use seekbase.Base.{
  ℕ, ◌≡◌, refl, ◌++◌, Text, codes, true, ◌&&◌, some, leb, same, if◌then◌else◌, ok, err,
  schema_error,
}
use seekbase.Base.Number.{
  print_nat, span_digits-print_nat, value_from-print_nat, ends_run, is_digit, print_nat-cons,
}
use seekbase.Schema.Types.{
  find_scalar, strip_prefix, decimal_digits, decimal_tail, decimal_body, decimal_rest,
  decimal_numbers, at_end, decimal_match, decimal_sql, decimal_type, sql_type,
}

-- `decimal(p,s)` with the two numbers in decimal, and what follows the closing bracket.
abbrev pub decimal_text : ℕ → ℕ → Text → Text
decimal_text p s after =
    codes "decimal(" ++ (print_nat p ++ (codes "," ++ (print_nat s ++ (codes ")" ++ after))))

decimal_digits-print_nat :
    (n : ℕ) (rest : Text)
    → decimal_digits (print_nat n, codes "," ++ rest) ≡ some (print_nat n, rest)
unfolding decimal_digits strip_prefix
decimal_digits-print_nat n rest = let (d, s, e) = print_nat-cons n in rw e

decimal_tail-print_nat :
    (n : ℕ) (after : Text)
    → at_end after ≡ true
    → decimal_tail (print_nat n, codes ")" ++ after) ≡ some (print_nat n)
unfolding decimal_tail strip_prefix
decimal_tail-print_nat n after h = let (d, s, e) = print_nat-cons n in rw e (rw h)

decimal_match-decimal_text :
    (p s : ℕ) (after : Text)
    → at_end after ≡ true
    → decimal_match (decimal_text p s after) ≡ some (p, s)
unfolding decimal_match decimal_body decimal_rest decimal_numbers strip_prefix
decimal_match-decimal_text p s after h =
    rw
      (span_digits-print_nat p (codes "," ++ (print_nat s ++ (codes ")" ++ after)))
        (unfold ends_run is_digit in refl))
      (rw (decimal_digits-print_nat p (print_nat s ++ (codes ")" ++ after))) (
        rw (span_digits-print_nat s (codes ")" ++ after) (unfold ends_run is_digit in refl)) (
          rw (decimal_tail-print_nat s after h)
            (rw (value_from-print_nat p, value_from-print_nat s)))))

-- `decimal(p,s)`, also with a line feed behind it, is the type `DECIMAL(p,s)` if 1 <= p and s <= p,
-- and is refused otherwise.
pub sql_type-decimal_text :
    (p s : ℕ) (after : Text)
    → at_end after ≡ true
    → sql_type (decimal_text p s after)
      ≡ (if leb 1 p && leb s p then ok (decimal_sql p s) else err schema_error)
unfolding sql_type find_scalar same decimal_type
sql_type-decimal_text p s after h = rw (decimal_match-decimal_text p s after h)
