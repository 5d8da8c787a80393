-- ===== src/Tasks/Drive.antt =====
-- `submit`, `adopt`, `_drive` and `cancel`: the life of a background task, as the lines that it writes
-- to the log. `cancel` may come at any `await`; what the thread of the bridge does with the line that
-- is being written then is not determined, so it is an argument. That the log cannot be written is left out.
use seekbase.Base.{Text, codes, List, [], ◌∷◌, ◌++◌, Bool, true, false, Option, none, some, length}
use seekbase.Value.{Dict}
use seekbase.Admin.Replay.{Stats}
use seekbase.Tasks.Record.{Task}
use seekbase.Tasks.Log.{Log, append}

abbrev pub pending : Text
pending = codes "pending"

abbrev pub running : Text
running = codes "running"

abbrev pub done : Text
done = codes "done"

abbrev pub failed : Text
failed = codes "failed"

abbrev pub cancelled : Text
cancelled = codes "cancelled"

-- How the awaited work ends, if nobody cancels it.
pub data Ending : Type 0 where
  rows : List Dict → Ending
  counted : Stats → Ending
  raised : Text → Ending
  timed_out : Ending

-- Whether a second cancellation comes while the line `cancelled` is being written, and then whether that
-- line is written.
pub data Again : Type 0 where
  once : Again
  again : Bool → Again

-- When a cancellation comes: before the wrapper's first step, at the await of the line `running`, of
-- the work, or of the last line. The Bool tells whether the line that was being written is written.
pub data Moment : Type 0 where
  never unstarted : Moment
  starting : Bool → Again → Moment
  working : Again → Moment
  finishing : Bool → Again → Moment

unfoldable pub last_line : Text → Task → Ending → Task
last_line ts t (rows rs) = record t { state = done; rows = some (length rs); finished_at = some ts }
last_line ts t (counted s) = record t { state = done; stats = some s; finished_at = some ts }
last_line ts t (raised e) = record t { state = failed; error = some e; finished_at = some ts }
last_line ts t timed_out = record t {
  state = failed;
  error = some (codes "exceeded max task runtime (300s)");
  finished_at = some ts;
}

abbrev pub line_if : Bool → Task → List Task
line_if true t = t ∷ []
line_if false t = []

-- the `except asyncio.CancelledError` clause
abbrev pub cancelled_lines : Text → Task → Again → List Task
cancelled_lines ts t once = record t { state = cancelled; finished_at = some ts } ∷ []
cancelled_lines ts t (again written) =
    line_if written (record t { state = cancelled; finished_at = some ts })

-- A cancellation at the last line. The line `done` is written in the try block, whose clause writes the
-- line `cancelled`; `failed` is written in a clause, and no other clause catches the cancellation.
abbrev pub cancelled_at_end : Text → Task → Ending → Again → List Task
cancelled_at_end ts t (rows rs) a = cancelled_lines ts t a
cancelled_at_end ts t (counted s) a = cancelled_lines ts t a
cancelled_at_end ts t (raised e) a = []
cancelled_at_end ts t timed_out a = []

-- the line `running`, which an adopted task has from its birth
abbrev pub running_line : Bool → Task → List Task
running_line true t = []
running_line false t = record t { state = running } ∷ []

-- _drive: the lines that it appends
unfoldable pub drive : Text → Bool → Task → Ending → Moment → List Task
unfolding last_line
drive ts adopted t ending unstarted = []
drive ts adopted t ending (starting written a) =
    line_if written (record t { state = running }) ++ cancelled_lines ts t a
drive ts adopted t ending (working a) =
    running_line adopted t ++ cancelled_lines ts (record t { state = running }) a
drive ts adopted t ending (finishing written a) =
    let t' = record t { state = running } in
    running_line adopted t
    ++ (line_if written (last_line ts t' ending) ++ cancelled_at_end ts t' ending a)
drive ts adopted t ending never =
    running_line adopted t ++ last_line ts (record t { state = running }) ending ∷ []

abbrev pub new_task : Text → Text → Text → Option Text → Text → Task
new_task id op state query ts = record {
  id = id;
  op = op;
  state = state;
  error = none;
  matched = none;
  stats = none;
  query = query;
  rows = none;
  submitted_at = some ts;
  finished_at = none;
}

unfoldable pub append_lines : List Task → Log → Log
unfolding append
append_lines [] log = log
append_lines (t ∷ ts) log = append_lines ts (append t log)

-- submit: the pending task, and everything that its wrapper writes
unfoldable pub submit : Text → Text → Option Text → Text → Text → Ending → Moment → Log → Log
unfolding drive append_lines
submit id op query born ts ending moment =
    let t = new_task id op pending query born in append_lines (t ∷ drive ts false t ending moment)

-- adopt
unfoldable pub adopt : Text → Text → Option Text → Text → Text → Ending → Moment → Log → Log
unfolding drive append_lines
adopt id op query born ts ending moment =
    let t = new_task id op running query born in append_lines (t ∷ drive ts true t ending moment)
