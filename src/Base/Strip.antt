-- ===== src/Base/Strip.antt =====
-- `str.strip` and its relatives, over the ASCII white space.
use Prim.Native.Nat.{ℕ}
use mathlib.Core.Bool.{Bool, false, ◌&&◌, ◌||◌}
use mathlib.Core.List.{[], ◌∷◌}
use seekbase.Base.Tests.{◌==◌, leb, if◌then◌else◌}
use seekbase.Base.Texts.{Text}

-- tab to carriage return, the four separators, and the space
unfoldable pub is_space : ℕ → Bool
is_space c = leb 9 c && leb c 13 || leb 28 c && leb c 32

unfoldable pub lstrip : Text → Text
unfolding is_space
lstrip [] = []
lstrip (c ∷ s) = let rest = lstrip s in if is_space c then rest else c ∷ s

unfoldable pub cons_unless : (ℕ → Bool) → ℕ → Text → Text
cons_unless drops c [] = if drops c then [] else c ∷ []
cons_unless drops c (d ∷ s) = c ∷ d ∷ s

unfoldable pub rstrip_by : (ℕ → Bool) → Text → Text
unfolding cons_unless
rstrip_by drops [] = []
rstrip_by drops (c ∷ s) = cons_unless drops c (rstrip_by drops s)

-- s.strip()
unfoldable pub strip : Text → Text
unfolding lstrip rstrip_by is_space
strip s = rstrip_by is_space (lstrip s)

-- `c in s`, for a single character
unfoldable pub has_char : ℕ → Text → Bool
has_char c [] = false
has_char c (x ∷ s) = x == c || has_char c s

unfoldable pub lstrip_by : (ℕ → Bool) → Text → Text
lstrip_by drops [] = []
lstrip_by drops (c ∷ s) = let rest = lstrip_by drops s in if drops c then rest else c ∷ s

abbrev pub is_byte_space : ℕ → Bool
is_byte_space c = leb 9 c && leb c 13 || c == 32

-- s.strip() of bytes
unfoldable pub strip_bytes : Text → Text
unfolding lstrip_by rstrip_by
strip_bytes s = rstrip_by is_byte_space (lstrip_by is_byte_space s)
