-- ===== src/Base/Breaks.antt =====
-- Line breaks: `\n`, `\r` and `\r\n`, which `bytes.splitlines` and the lines of a text file share.
use Prim.Native.Nat.{ℕ}
use mathlib.Core.Path.{◌≡◌, refl, ap, ◌∙◌}
use mathlib.Core.Bool.{false, ◌||◌}
use mathlib.Core.List.{List, [], ◌∷◌, ◌++◌}
use native.Mathlib.Omega.{arith}
use seekbase.Base.Tests.{◌==◌, if◌then◌else◌}
use seekbase.Base.Texts.{Text}
use seekbase.Base.Lists.{All}
use seekbase.Base.Strip.{has_char}

-- A character before a text that is cut into lines.
abbrev pub cons_first : ℕ → List Text → List Text
cons_first c [] = (c ∷ []) ∷ []
cons_first c (l ∷ ls) = (c ∷ l) ∷ ls

-- What a character is, seen with the one behind it: a line break alone, the first of `\r\n`, or another.
pub data Break : Type 0 where
  single double inner : Break

unfoldable pub break_at : ℕ → ℕ → Break
break_at c d =
    if c == 10 then single else if c == 13 then if d == 10 then double else single else inner

-- s.splitlines()
unfoldable pub lines : Text → List Text
unfolding break_at
lines [] = []
lines (c ∷ []) = if c == 10 || c == 13 then [] ∷ [] else (c ∷ []) ∷ []
lines (c ∷ d ∷ s) = elim (break_at c d) [
  | single ↦ [] ∷ lines (d ∷ s)
  | double ↦ [] ∷ lines s
  | inner ↦ cons_first c (lines (d ∷ s))
]

-- A text without a line break.
abbrev pub IsLine : Text → Type 0
IsLine = All (λ c. (c == 10 || c == 13) ≡ false)

lines-inner :
    (c d : ℕ) (s : Text)
    → (c == 10 || c == 13) ≡ false
    → lines (c ∷ d ∷ s) ≡ cons_first c (lines (d ∷ s))
unfolding lines break_at
lines-inner c d s h = ground (arith, h)

lines-break : (s : Text) → lines (10 ∷ s) ≡ [] ∷ lines s
unfolding lines break_at
lines-break [] = refl
lines-break (d ∷ s) = refl

-- A complete line is the first.
pub lines-line : (l s : Text) → IsLine l → lines (l ++ 10 ∷ s) ≡ l ∷ lines s
unfolding lines
lines-line [] s h = lines-break s
lines-line (c ∷ []) s h = lines-inner c 10 s h.0 ∙ ap (cons_first c) (lines-break s)
lines-line (c ∷ d ∷ l) s h =
    lines-inner c d (l ++ 10 ∷ s) h.0 ∙ ap (cons_first c) (lines-line (d ∷ l) s h.1)

-- A last line without a break is a line, unless it is empty.
pub lines-last : (c : ℕ) (l : Text) → IsLine (c ∷ l) → lines (c ∷ l) ≡ (c ∷ l) ∷ []
unfolding lines
lines-last c [] h = rw h.0
lines-last c (d ∷ l) h = lines-inner c d l h.0 ∙ ap (cons_first c) (lines-last d l h.1)

pub IsLine-has_char : (s : Text) → has_char 10 s ≡ false → has_char 13 s ≡ false → IsLine s
unfolding has_char
IsLine-has_char [] n r = tt
IsLine-has_char (c ∷ s) n r =
    (ground (arith, n, r), IsLine-has_char s (ground (arith, n)) (ground (arith, r)))
