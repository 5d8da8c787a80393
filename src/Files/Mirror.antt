-- ===== src/Files/Mirror.antt =====
-- The tree `files/ds=YYYYMMDD/<table>.jsonl`, one JSON object to a line. A partition holds the lines
-- of its files, each with its table; `iter_events` reads partitions in the order of their names, so
-- they are kept in that order here.
use seekbase.Base.{Text, codes, List, [], ◌∷◌, ◌++◌, map, same, text_le, if◌then◌else◌}
use seekbase.Value.{Value, text, Dict, get, or_null}
use seekbase.Schema.Data.{TableSpec, column_names, ds_column, created_at_column, deleted_at_column}

pub record Partition : Type 0 where
  pub ds : Text
  pub lines : List (Text × Dict)

abbrev pub Mirror : Type 0
Mirror = List Partition

-- _append
unfoldable pub append : Text → Text → Dict → Mirror → Mirror
append ds name line [] = record { ds = ds; lines = (name, line) ∷ [] } ∷ []
append ds name line (p ∷ ps) =
    if same p.ds ds
    then record p { lines = p.lines ++ (name, line) ∷ [] } ∷ ps
    else if text_le ds p.ds
    then record { ds = ds; lines = (name, line) ∷ [] } ∷ p ∷ ps
    else p ∷ append ds name line ps

-- the line of an inserted record
unfoldable pub put_line : TableSpec → Text → Text → Dict → Dict
unfolding get
put_line spec ds now rec =
    map (λ c. (c, or_null (get c rec))) (column_names spec)
    ++ (ds_column, text ds) ∷ (created_at_column, text now) ∷ []

unfoldable pub append_all : Text → Text → List Dict → Mirror → Mirror
append_all ds name [] mirror = mirror
append_all ds name (line ∷ lines) mirror = append_all ds name lines (append ds name line mirror)

unfoldable pub write_puts : TableSpec → List Dict → Text → Text → Mirror → Mirror
unfolding append_all put_line
write_puts spec records ds now = append_all ds spec.name (map (put_line spec ds now) records)

abbrev pub deleted_key : Text
deleted_key = codes "_deleted"

-- the line of a deleted key
unfoldable pub delete_line : Text → Value → Dict
delete_line now k = (deleted_key, k) ∷ (deleted_at_column, text now) ∷ []

unfoldable pub write_deletes : Text → List Value → Text → Text → Mirror → Mirror
unfolding append_all delete_line
write_deletes name keys ds now = append_all ds name (map (delete_line now) keys)

unfoldable pub events_of : Text → Text → List (Text × Dict) → List (Text × Dict)
events_of name ds [] = []
events_of name ds ((n, line) ∷ lines) =
    let rest = events_of name ds lines in if same n name then (ds, line) ∷ rest else rest

-- iter_events
unfoldable pub iter_events : Text → Mirror → List (Text × Dict)
unfolding events_of
iter_events name [] = []
iter_events name (p ∷ ps) = events_of name p.ds p.lines ++ iter_events name ps
