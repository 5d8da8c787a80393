-- ===== src/Store/Jsonl.antt =====
-- `_rows_to_jsonl` and `_jsonl_to_rows`: the rows that go into a bash stage and come out of it.
use seekbase.Base.{
  ◌≡◌, ◌≢◌, refl, Text, List, [], ◌∷◌, ◌++◌, All, Result, ok, err, query_error, ◌>>=◌,
}
use seekbase.Base.Strip.{strip_bytes}
use seekbase.Base.Breaks.{lines, lines-line}
use seekbase.Value.{Dict}
use seekbase.Json.{Loaded, object, other_json, malformed, IsJson}

-- `dumps` prints with `default=str` and encodes
unfoldable pub rows_to_jsonl : (Dict → Text) → List Dict → Text
rows_to_jsonl dumps [] = []
rows_to_jsonl dumps (r ∷ rows) = dumps r ++ 10 ∷ rows_to_jsonl dumps rows

unfoldable pub row_of_line : Loaded → Result (List Dict)
row_of_line (object d) = ok (d ∷ [])
row_of_line other_json = err query_error
row_of_line malformed = err query_error

unfoldable pub read_line : (Text → Loaded) → Text → Result (List Dict)
unfolding row_of_line
read_line loads [] = ok []
read_line loads (c ∷ s) = row_of_line (loads (c ∷ s))

unfoldable pub read_lines : (Text → Loaded) → List Text → Result (List Dict)
unfolding read_line strip_bytes
read_lines loads [] = ok []
read_lines loads (line ∷ ls) = do
  row ← read_line loads (strip_bytes line)
  rest ← read_lines loads ls
  ok (row ++ rest)

unfoldable pub jsonl_to_rows : (Text → Loaded) → Text → Result (List Dict)
unfolding read_lines lines
jsonl_to_rows loads data_bytes = read_lines loads (lines data_bytes)

module _ (dumps : Dict → Text) (loads : Text → Loaded) where
  read_line-dumps :
      (s : Text) (d : Dict) → s ≢ [] → loads s ≡ object d → read_line loads s ≡ ok (d ∷ [])
  unfolding read_line row_of_line
  read_line-dumps [] d some_text h = absurd (some_text refl)
  read_line-dumps (c ∷ s) d some_text h = rw h

  -- Rows each of which `json.dumps` prints as a text of one line, not empty and with no white space around
  -- it, that `json.loads` reads back as the row: printed as JSON lines they are read back, in their order.
  pub jsonl_to_rows-rows_to_jsonl :
      (rows : List Dict)
      → All (IsJson dumps loads strip_bytes) rows
      → jsonl_to_rows loads (rows_to_jsonl dumps rows) ≡ ok rows
  unfolding jsonl_to_rows rows_to_jsonl read_lines lines
  jsonl_to_rows-rows_to_jsonl [] h = refl
  jsonl_to_rows-rows_to_jsonl (r ∷ rows) h =
      rw (lines-line (dumps r) (rows_to_jsonl dumps rows) h.0.one_line) (
        rw (read_lines, h.0.bare)
          (rw (read_line-dumps (dumps r) r h.0.some_text h.0.again)
            (rw (jsonl_to_rows-rows_to_jsonl rows h.1))))
