-- ===== src/Search/Names.antt =====
-- `_ident`, `_phys`, `veccol` and `tokcol`, and pieces of SQL put together.
use seekbase.Base.{
  ℕ, zero, suc, Text, codes, List, [], ◌∷◌, ◌++◌, Bool, true, false, ◌||◌, ◌&&◌, ◌==◌, leb,
  if◌then◌else◌, Result, ok, err, query_error, ◌>>=◌,
}
use seekbase.Schema.Types.{at_end}

-- the pieces of an f-string
unfoldable pub concat : List Text → Text
concat [] = []
concat (p ∷ ps) = p ++ concat ps

-- sep.join(parts)
unfoldable pub join_by : Text → List Text → Text
join_by sep [] = []
join_by sep (p ∷ []) = p
join_by sep (p ∷ q ∷ ps) = p ++ (sep ++ join_by sep (q ∷ ps))

-- sep.join("?" * n)
unfoldable pub marks : ℕ → Text
marks zero = []
marks (suc zero) = codes "?"
marks (suc (suc n)) = codes "?, " ++ marks (suc n)

abbrev pub is_letter : ℕ → Bool
is_letter c = leb 65 c && leb c 90 || leb 97 c && leb c 122 || c == 95

abbrev pub is_word_char : ℕ → Bool
is_word_char c = is_letter c || leb 48 c && leb c 57

-- `[A-Za-z0-9_]*$`, with what `$` accepts
unfoldable pub ident_rest : Text → Bool
unfolding at_end
ident_rest [] = true
ident_rest (c ∷ s) = let rest = ident_rest s in if is_word_char c then rest else at_end (c ∷ s)

-- _IDENT.match
unfoldable pub is_ident : Text → Bool
unfolding ident_rest
is_ident [] = false
is_ident (c ∷ s) = is_letter c && ident_rest s

abbrev pub quoted : Text → Text
quoted name = b'"' ∷ (name ++ b'"' ∷ [])

-- _ident
unfoldable pub ident : Text → Result Text
unfolding is_ident
ident name = if is_ident name then ok (quoted name) else err query_error

abbrev pub phys_name : Text → Text
phys_name name = codes "_sb_" ++ name

-- _phys
unfoldable pub phys : Text → Result Text
unfolding ident
phys name = ident (phys_name name)

abbrev pub veccol : Text → Text
veccol col = codes "_vec_" ++ col

abbrev pub tokcol : Text → Text
tokcol col = codes "_tok_" ++ col

-- [_ident(n) for n in names]
unfoldable pub idents : List Text → Result (List Text)
unfolding ident
idents [] = ok []
idents (n ∷ names) = do first ← ident n; rest ← idents names; ok (first ∷ rest)
