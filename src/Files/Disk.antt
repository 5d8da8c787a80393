-- ===== src/Files/Disk.antt =====
-- The files of the mirror as text: `_append` prints a line behind a file's text, `iter_events` cuts a
-- text into lines and reads each.
use seekbase.Base.{
  ℕ, Option, none, some, Result, ok, err, other, Text, List, [], ◌∷◌, ◌++◌, map, same, text_le,
  if◌then◌else◌,
}
use seekbase.Base.Strip.{strip}
use seekbase.Base.Breaks.{lines}
use seekbase.Value.{Dict}
use seekbase.Json.{Loaded, object, other_json, malformed}

-- A directory `ds=...` with the text of each table's file, empty if there is none.
pub record Folder : Type 0 where
  pub ds : Text
  pub file : Text → Text

-- The directories in the order of their names.
abbrev pub Disk : Type 0
Disk = List Folder

abbrev pub write_file : Text → Text → Folder → Folder
write_file name s f = record f { file = λ n. if same name n then f.file n ++ s else f.file n }

abbrev pub new_folder : Text → Folder
new_folder ds = record { ds = ds; file = λ n. [] }

-- _append
unfoldable pub append_text : Text → Text → Text → Disk → Disk
append_text ds name s [] = write_file name s (new_folder ds) ∷ []
append_text ds name s (f ∷ fs) =
    let rest = append_text ds name s fs in
    if same f.ds ds
    then write_file name s f ∷ fs
    else if text_le ds f.ds
    then write_file name s (new_folder ds) ∷ f ∷ fs
    else f ∷ rest

-- the line that is written for a record
unfoldable pub printed : (Dict → Text) → Dict → Text
printed dumps record' = dumps record' ++ 10 ∷ []

unfoldable pub append_lines : (Dict → Text) → Text → Text → List Dict → Disk → Disk
unfolding append_text printed
append_lines dumps ds name [] disk = disk
append_lines dumps ds name (line ∷ ls) disk =
    append_lines dumps ds name ls (append_text ds name (printed dumps line) disk)

-- the branches of the loop over the lines of a file
unfoldable pub event_of : Loaded → List Loaded
event_of (object d) = object d ∷ []
event_of other_json = other_json ∷ []
event_of malformed = []

unfoldable pub read_record : (Text → Loaded) → Text → List Loaded
unfolding event_of
read_record loads [] = []
read_record loads (c ∷ s) = event_of (loads (c ∷ s))

unfoldable pub records_of : (Text → Loaded) → List Text → List Loaded
unfolding read_record strip
records_of loads [] = []
records_of loads (line ∷ ls) = read_record loads (strip line) ++ records_of loads ls

unfoldable pub read_file : (Text → Loaded) → Text → List Loaded
unfolding records_of lines
read_file loads content = records_of loads (lines content)

abbrev pub read_decoded : (Text → Loaded) → Option Text → Result (List Loaded)
read_decoded loads none = err other
read_decoded loads (some content) = ok (read_file loads content)

-- A file as it is on the disk. `decode` is the codec of `open(path, encoding="utf-8")`, none where it
-- raises; the loop over the lines is not in a try block.
unfoldable pub read_bytes : (List ℕ → Option Text) → (Text → Loaded) → List ℕ → Result (List Loaded)
unfolding read_file
read_bytes decode loads content = read_decoded loads (decode content)

-- `_append`, of a record: the bytes behind those that are there
unfoldable pub append_bytes : (Text → List ℕ) → (Dict → Text) → Dict → List ℕ → List ℕ
unfolding printed
append_bytes encode dumps line content = content ++ encode (printed dumps line)

-- iter_events, of files whose bytes decode
unfoldable pub read_events : (Text → Loaded) → Text → Disk → List (Text × Loaded)
unfolding read_file
read_events loads name [] = []
read_events loads name (f ∷ fs) =
    map (λ r. (f.ds, r)) (read_file loads (f.file name)) ++ read_events loads name fs
