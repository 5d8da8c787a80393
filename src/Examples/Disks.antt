-- ===== src/Examples/Disks.antt =====
-- A file with one line, printed, read back and torn.
use seekbase.Base.{
  ℕ, zero, suc, List, Option, none, some, ◌≡◌, refl, Text, codes, [], ◌∷◌, ◌++◌, same,
  if◌then◌else◌, ok,
}
use seekbase.Base.Strip.{strip, strip_bytes, has_char}
use seekbase.Base.Breaks.{IsLine-has_char}
use seekbase.Value.{Dict, text}
use seekbase.Json.{Loaded, object, malformed, IsJson}
use seekbase.Files.Mirror.{Mirror, append_all, append, iter_events}
use seekbase.Files.Disk.{Disk, append_lines, read_events}
use seekbase.Files.Stands.{Stands, text_of, read_back, append_lines-Stands, read_events-Stands}
use seekbase.Store.Jsonl.{rows_to_jsonl, jsonl_to_rows, jsonl_to_rows-rows_to_jsonl}

abbrev row : Dict
row = (codes "id", text (codes "a")) ∷ []

abbrev printed_row : Text
printed_row = codes "{\"id\": \"a\"}"

abbrev dumps : Dict → Text
dumps d = printed_row

abbrev loads : Text → Loaded
loads s = if same s printed_row then object row else malformed

row-IsJson : IsJson dumps loads strip row
unfolding same strip has_char
row-IsJson = record {
  one_line = IsLine-has_char printed_row refl refl;
  some_text = λ e. cc;
  bare = refl;
  again = refl;
}

row-IsJson_bytes : IsJson dumps loads strip_bytes row
unfolding same strip_bytes has_char
row-IsJson_bytes = record {
  one_line = IsLine-has_char printed_row refl refl;
  some_text = λ e. cc;
  bare = refl;
  again = refl;
}

jsonl_to_rows-rows_to_jsonl_example :
    jsonl_to_rows loads (rows_to_jsonl dumps (row ∷ row ∷ [])) ≡ ok (row ∷ row ∷ [])
jsonl_to_rows-rows_to_jsonl_example =
    jsonl_to_rows-rows_to_jsonl dumps loads (row ∷ row ∷ [])
      (row-IsJson_bytes, (row-IsJson_bytes, tt))

abbrev day : Text
day = codes "20240101"

append_lines-Stands_example :
    Stands dumps
      (append_lines dumps day (codes "docs") (row ∷ row ∷ []) [])
      (append_all day (codes "docs") (row ∷ row ∷ []) [])
append_lines-Stands_example = append_lines-Stands dumps day (codes "docs") (row ∷ row ∷ []) [] [] tt

abbrev one_line : Mirror
one_line = record { ds = day; lines = (codes "docs", row) ∷ [] } ∷ []

abbrev one_file : Disk
one_file = append_lines dumps day (codes "docs") (row ∷ []) []

one_file-Stands : Stands dumps one_file one_line
unfolding append_lines append_all append
one_file-Stands = append_lines-Stands dumps day (codes "docs") (row ∷ []) [] [] tt

read_events-Stands_example :
    read_events loads (codes "docs") one_file
    ≡ read_back dumps loads (iter_events (codes "docs") one_line)
read_events-Stands_example =
    read_events-Stands dumps loads (codes "docs") one_file one_line one_file-Stands
      ((row-IsJson, tt), tt)

abbrev torn_row : Text
torn_row = codes "{\"id\":"

abbrev map_cons : ℕ → Option Text → Option Text
map_cons c none = none
map_cons c (some s) = some (c ∷ s)

-- A codec in which the byte 0 is in no character.
unfoldable decode : List ℕ → Option Text
decode [] = some []
decode (zero ∷ b) = none
decode (suc c ∷ b) = map_cons c (decode b)

unfoldable encode : Text → List ℕ
encode [] = []
encode (c ∷ s) = suc c ∷ encode s

abbrev one_row : List (Text × Dict)
one_row = (codes "docs", row) ∷ []

abbrev torn_text : Text
torn_text = text_of dumps (codes "docs") one_row ++ torn_row

abbrev cut_file : List ℕ
cut_file = 35 ∷ 0 ∷ []
