-- ===== src/Tasks/Results.antt =====
-- `result`: the rows of a finished query, from its result file.
use seekbase.Base.{
  Text, codes, List, not, ◌||◌, Option, none, some, same, if◌then◌else◌, Result, ok, err,
  query_error, ◌>>=◌,
}
use seekbase.Value.{Dict}
use seekbase.Tasks.Record.{Task}
use seekbase.Tasks.Log.{Log, status}
use seekbase.Tasks.Drive.{pending, running, failed, cancelled}

-- The result files, by task id.
abbrev pub ResultFiles : Type 0
ResultFiles = Text → Option (List Dict)

-- _persist_result; the file is replaced as a whole
unfoldable pub persist : Text → List Dict → ResultFiles → ResultFiles
persist id rows files name = if same id name then some rows else files name

unfoldable pub read_rows : Option (List Dict) → Result (List Dict)
read_rows none = err query_error
read_rows (some rows) = ok rows

unfoldable pub result_of : ResultFiles → Task → Result (List Dict)
unfolding read_rows same
result_of files t =
    if same t.state pending || same t.state running
    then err query_error
    else if same t.state cancelled
    then err query_error
    else if same t.state failed
    then err query_error
    else if not (same t.op (codes "query"))
    then err query_error
    else read_rows (files t.id)

-- result
unfoldable pub result : Text → Log → ResultFiles → Result (List Dict)
unfolding status result_of
result id log files = do t ← status id log; result_of files t
