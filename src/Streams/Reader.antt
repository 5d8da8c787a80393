-- ===== src/Streams/Reader.antt =====
-- `_read_new_lines`: the complete lines behind each file's checkpointed offset.
use seekbase.Base.{
  ℕ, suc, ◌+◌, Text, List, [], ◌∷◌, ◌++◌, Bool, true, false, not, ◌||◌, ◌&&◌, Option, none, some,
  length, drop, leb, ltb, ◌==◌, if◌then◌else◌,
}
use seekbase.Base.Breaks.{single, double, inner, break_at, cons_first}
use seekbase.Base.Strip.{is_byte_space}

-- A file's bytes.
abbrev pub Bytes : Type 0
Bytes = List ℕ

-- chunk.splitlines(keepends=True)
unfoldable pub splitlines : Bytes → List Bytes
unfolding break_at
splitlines [] = []
splitlines (c ∷ []) = (c ∷ []) ∷ []
splitlines (c ∷ d ∷ s) = elim (break_at c d) [
  | single ↦ (c ∷ []) ∷ splitlines (d ∷ s)
  | double ↦ (c ∷ d ∷ []) ∷ splitlines s
  | inner ↦ cons_first c (splitlines (d ∷ s))
]

-- raw.endswith(b"\n")
unfoldable pub ends_line : Bytes → Bool
ends_line [] = false
ends_line (c ∷ []) = c == 10
ends_line (c ∷ d ∷ s) = ends_line (d ∷ s)

-- not raw.strip()
unfoldable pub is_blank : Bytes → Bool
is_blank [] = true
is_blank (c ∷ s) = is_byte_space c && is_blank s

-- The raw lines that the inner loop passes, `have` lines being taken before.
unfoldable pub passed : ℕ → ℕ → List Bytes → List Bytes
unfolding ends_line is_blank
passed max_lines have [] = []
passed max_lines have (raw ∷ raws) =
    let rest = passed max_lines (if is_blank raw then have else suc have) raws in
    if not (ends_line raw) || leb max_lines have then [] else raw ∷ rest

unfoldable pub not_blank : List Bytes → List Bytes
unfolding is_blank
not_blank [] = []
not_blank (raw ∷ raws) = let rest = not_blank raws in if is_blank raw then rest else raw ∷ rest

unfoldable pub join : List Bytes → Bytes
join [] = []
join (l ∷ ls) = l ++ join ls

abbrev pub Offsets : Type 0
Offsets = Text → ℕ

-- One file: the lines that are taken, and the offset behind them.
unfoldable pub read_file : ℕ → ℕ → ℕ → Bytes → List Bytes × ℕ
unfolding passed not_blank join splitlines
read_file max_lines have start content =
    let raws = passed max_lines have (splitlines (drop start content)) in
    (not_blank raws, start + length (join raws))

abbrev pub new_offset : Text → ℕ → ℕ → List (Text × ℕ) → List (Text × ℕ)
new_offset path start pos offsets = if ltb start pos then (path, pos) ∷ offsets else offsets

-- _read_new_lines; the files stand in the order of their names, without content if they cannot be read
unfoldable pub read_new_lines :
    ℕ → ℕ → Offsets → List (Text × Option Bytes) → List Bytes × List (Text × ℕ)
unfolding read_file
read_new_lines max_lines have offsets [] = ([], [])
read_new_lines max_lines have offsets ((path, none) ∷ files) =
    let rest = read_new_lines max_lines have offsets files in
    if leb max_lines have then ([], []) else rest
read_new_lines max_lines have offsets ((path, some content) ∷ files) =
    let (lines, pos) = read_file max_lines have (offsets path) content in
    let (more, later) = read_new_lines max_lines (have + length lines) offsets files in
    if leb max_lines have
    then ([], [])
    else (lines ++ more, new_offset path (offsets path) pos later)
