-- ===== src/Tasks/Log.antt =====
-- The task log: `append` and `status`. A line is added at the end of the partition that the id names,
-- and the last line of an id is its state.
use seekbase.Base.{
  ℕ, ◌*◌, ◌+◌, Text, codes, List, [], ◌∷◌, ◌++◌, Bool, true, false, not, ◌||◌, ◌&&◌, Option, none,
  some, same, select, ltb, ◌==◌, if◌then◌else◌, Result, err, not_found,
}
use seekbase.Base.Number.{is_digit}
use seekbase.Tasks.Record.{Task, WireTask, field, get_text, to_wire, from_wire}

-- s.split(sep), for a separator of one character: the first piece and the others
unfoldable pub split_on : ℕ → Text → Text × List Text
split_on sep [] = ([], [])
split_on sep (c ∷ s) =
    let (first, rest) = split_on sep s in if c == sep then ([], first ∷ rest) else (c ∷ first, rest)

unfoldable pub all_digits : Text → Bool
unfolding is_digit
all_digits [] = true
all_digits (c ∷ s) = is_digit c && all_digits s

-- s.isdigit()
unfoldable pub isdigit : Text → Bool
unfolding all_digits
isdigit [] = false
isdigit (c ∷ s) = all_digits (c ∷ s)

unfoldable pub ds_of_parts : Text × List Text → Option Text
unfolding isdigit
ds_of_parts (first, []) = none
ds_of_parts (first, ds ∷ []) = none
ds_of_parts (first, ds ∷ third ∷ more) = if isdigit ds then some ds else none

-- _ds_of
unfoldable pub ds_of : Text → Option Text
unfolding split_on ds_of_parts
ds_of id = ds_of_parts (split_on b'_' id)

-- f"{_ds_of(id)}" in the name of the partition
abbrev pub partition_of : Option Text → Text
partition_of none = codes "None"
partition_of (some ds) = ds

-- The lines of each partition `ds=<name>.jsonl`.
abbrev pub Log : Type 0
Log = Text → List WireTask

-- append
unfoldable pub append : Task → Log → Log
unfolding to_wire ds_of
append t log name =
    if same (partition_of (ds_of t.id)) name then log name ++ to_wire t ∷ [] else log name

abbrev pub text_is : Option Text → Text → Bool
text_is none id = false
text_is (some t) id = same t id

-- d.get("task") == task_id or d.get("ticket") == task_id
unfoldable pub is_line_of : Text → WireTask → Bool
unfolding field same
is_line_of id d =
    text_is (get_text (field (codes "task") d)) id
    || text_is (get_text (field (codes "ticket") d)) id

-- `_find`: `found` is the last line of the task so far
unfoldable pub find_last : Text → Option WireTask → List WireTask → Option WireTask
unfolding is_line_of
find_last id found [] = found
find_last id found (d ∷ lines) = find_last id (if is_line_of id d then some d else found) lines

unfoldable pub task_of : Option WireTask → Result Task
unfolding from_wire
task_of none = err not_found
task_of (some d) = from_wire d

unfoldable pub status_in : Text → Log → Option Text → Result Task
unfolding task_of find_last
status_in id log none = err not_found
status_in id log (some ds) = task_of (find_last id none (log ds))

-- status
unfoldable pub status : Text → Log → Result Task
unfolding status_in ds_of
status id log = status_in id log (ds_of id)

-- A file, with its modification time in seconds.
pub record LogFile : Type 0 where
  pub path : Text
  pub mtime : ℕ

abbrev pub day : ℕ
day = 86400

-- the files that are not unlinked, of those that are to be kept for `days`
unfoldable pub keep_recent : ℕ → ℕ → List LogFile → List LogFile
unfolding select
keep_recent now days files = select (λ f. not (ltb (f.mtime + days * day) now)) files

-- gc: the log partitions and the result files that stay
unfoldable pub gc : ℕ → List LogFile → List LogFile → List LogFile × List LogFile
unfolding keep_recent
gc now logs results = (keep_recent now 30 logs, keep_recent now 7 results)
