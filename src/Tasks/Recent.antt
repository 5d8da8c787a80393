-- ===== src/Tasks/Recent.antt =====
-- `TaskService.list`: the last line of each task of the newest partitions, sorted by the time of
-- submission, and cut.
use seekbase.Base.{
  ℕ, ◌*◌, Text, codes, List, [], ◌∷◌, Bool, true, false, Option, none, some, same, text_le, length,
  take, leb, if◌then◌else◌, Result, ok, ◌>>=◌,
}
use seekbase.Tasks.Record.{Task, WireTask, field, get_text, from_wire}

-- a or b, of two texts that may be missing
abbrev pub or_text : Option Text → Option Text → Option Text
or_text (some (c ∷ s)) b = some (c ∷ s)
or_text (some []) b = b
or_text none b = b

-- d.get("task") or d.get("ticket")
unfoldable pub line_key : WireTask → Option Text
unfolding field
line_key d = or_text (get_text (field (codes "task") d)) (get_text (field (codes "ticket") d))

abbrev pub same_key : Option Text → Option Text → Bool
same_key none none = true
same_key (some a) (some b) = same a b
same_key none (some b) = false
same_key (some a) none = false

-- The dict `out`, in the order in which its keys came.
abbrev pub Latest : Type 0
Latest = List (Option Text × WireTask)

-- out[k] = d
unfoldable pub set_key : Option Text → WireTask → Latest → Latest
unfolding same
set_key k d [] = (k, d) ∷ []
set_key k d ((j, e) ∷ out) =
    let rest = set_key k d out in if same_key j k then (j, d) ∷ out else (j, e) ∷ rest

unfoldable pub add_lines : List WireTask → Latest → Latest
unfolding set_key line_key
add_lines [] out = out
add_lines (d ∷ lines) out = add_lines lines (set_key (line_key d) d out)

-- _scan, over the partitions from the newest on
unfoldable pub scan : ℕ → List (List WireTask) → Latest → Latest
unfolding add_lines
scan limit [] out = out
scan limit (lines ∷ partitions) out =
    let rest = scan limit partitions (add_lines lines out) in
    if leb (limit * 3) (length out) then out else rest

unfoldable pub tasks_of : Latest → Result (List Task)
unfolding from_wire
tasks_of [] = ok []
tasks_of ((k, d) ∷ out) = do t ← from_wire d; ts ← tasks_of out; ok (t ∷ ts)

-- t.submitted_at or ""
abbrev pub submitted : Task → Text
submitted t = elim t.submitted_at [ none ↦ [] | some s ↦ s ]

-- The place of a task before the first that is not later; `sort` is stable, also with `reverse`.
unfoldable pub insert_task : Task → List Task → List Task
unfolding text_le
insert_task t [] = t ∷ []
insert_task t (u ∷ us) =
    let rest = insert_task t us in
    if text_le (submitted u) (submitted t) then t ∷ u ∷ us else u ∷ rest

unfoldable pub sort_tasks : List Task → List Task
unfolding insert_task
sort_tasks [] = []
sort_tasks (t ∷ ts) = insert_task t (sort_tasks ts)

-- list
unfoldable pub list_tasks : ℕ → List (List WireTask) → Result (List Task)
unfolding scan tasks_of sort_tasks
list_tasks limit partitions = do
  ts ← tasks_of (scan limit partitions [])
  ok (take limit (sort_tasks ts))
