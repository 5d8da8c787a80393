-- ===== src/Tasks/Life.antt =====
-- The life of a task in the log: its last line is what `status` gives.
use seekbase.Base.{
  ◌≡◌, refl, sym, ap, ◌∙◌, ◌≢◌, Text, List, [], ◌∷◌, ◌++◌, Bool, true, false, Option, none, some,
  same, same_refl, Option-cases, not, ◌||◌, ◌&&◌, if◌then◌else◌, inl, inr, ok, member, All,
  All-append,
}
use seekbase.Tasks.Record.{Task, WireTask, field, to_wire}
use seekbase.Tasks.Log.{
  Log, ds_of, append, partition_of, is_line_of, find_last, status, status_in, task_of,
}
use seekbase.Tasks.Drive.{
  Ending, rows, counted, raised, timed_out, Again, once, again, Moment, never, unstarted, starting,
  working, finishing, last_line, line_if, cancelled_lines, cancelled_at_end, drive, new_task,
  append_lines, submit, pending, running, done, failed, cancelled,
}
use seekbase.Tasks.Trip.{from_wire-to_wire}

find_last-append :
    (id : Text) (found : Option WireTask) (lines : List WireTask) (d : WireTask)
    → find_last id found (lines ++ d ∷ [])
      ≡ (if is_line_of id d then some d else find_last id found lines)
unfolding find_last
find_last-append id found [] d = refl
find_last-append id found (e ∷ lines) d =
    find_last-append id (if is_line_of id e then some e else found) lines d

is_line_of-to_wire : (t : Task) → is_line_of t.id (to_wire t) ≡ true
unfolding is_line_of to_wire field same
is_line_of-to_wire t = rw (same_refl t.id)

-- A task id whose second part is a run of digits.
abbrev pub IsDated : Text → Type 0
IsDated id = ds_of id ≢ none

append-own :
    (t : Task) (log : Log) (ds : Text)
    → ds_of t.id ≡ some ds
    → append t log ds ≡ log ds ++ to_wire t ∷ []
unfolding append
append-own t log ds e =
    let own : same (partition_of (ds_of t.id)) ds ≡ true = rw e (same_refl ds) in rw own

-- The last line of an id decides: behind the append of a task, `status` gives that task.
pub status-append :
    (t : Task) (log : Log) → IsDated t.id → t.id ≢ [] → status t.id (append t log) ≡ ok t
unfolding status status_in task_of
status-append t log dated h = elim (Option-cases (ds_of t.id)) [
  | inl e ↦ absurd (dated e)
  | inr (ds, e) ↦ rw e (
      ap (λ l. task_of (find_last t.id none l)) (append-own t log ds e)
      ∙ (ap task_of (find_last-append t.id none (log ds) (to_wire t))
          ∙ rw (is_line_of-to_wire t) (from_wire-to_wire t h)))
]

append_lines-last :
    (ts : List Task) (t : Task) (log : Log)
    → append_lines (ts ++ t ∷ []) log ≡ append t (append_lines ts log)
unfolding append_lines
append_lines-last [] t log = refl
append_lines-last (u ∷ ts) t log = append_lines-last ts t (append u log)

-- The task that the last line carries, `t` if there is none.
abbrev pub last_of : Task → List Task → Task
last_of t [] = t
last_of t (u ∷ us) = last_of u us

EndsWith : List Task → Task → Type 0
EndsWith lines t = (before : List Task) × (lines ≡ before ++ t ∷ [])

last_of-EndsWith : (t : Task) (us : List Task) → EndsWith (t ∷ us) (last_of t us)
unfolding EndsWith
last_of-EndsWith t [] = ([], refl)
last_of-EndsWith t (u ∷ us) =
    let (before, e) = last_of-EndsWith u us in (t ∷ before, ap (λ l. t ∷ l) e)

-- The lines of a task, written to the log one after the other, leave the task that the last carries.
status-append_lines :
    (lines : List Task) (t : Task) (log : Log)
    → EndsWith lines t
    → IsDated t.id
    → t.id ≢ []
    → status t.id (append_lines lines log) ≡ ok t
unfolding EndsWith
status-append_lines lines t log (before, e) dated h =
    ap (λ l. status t.id (append_lines l log)) e
    ∙ (ap (status t.id) (append_lines-last before t log)
        ∙ status-append t (append_lines before log) dated h)

-- done, failed or cancelled
abbrev pub is_settled : Text → Bool
is_settled state = member state (done ∷ failed ∷ cancelled ∷ [])

-- A line of the task `id`, in one of the five states.
abbrev pub IsLineOf : Text → Task → Type 0
IsLineOf id u = (u.id ≡ id) × (member u.state (pending ∷ running ∷ []) ≡ not (is_settled u.state))

pub last_of-IsLineOf :
    (id : Text) (t : Task) (us : List Task)
    → IsLineOf id t
    → All (IsLineOf id) us
    → IsLineOf id (last_of t us)
last_of-IsLineOf id t [] h all = h
last_of-IsLineOf id t (u ∷ us) h all = last_of-IsLineOf id u us all.0 all.1

-- Behind the lines of one task, `status` gives the last.
pub status-last_of :
    (id : Text) (t : Task) (us : List Task) (log : Log)
    → IsLineOf id t
    → All (IsLineOf id) us
    → IsDated id
    → id ≢ []
    → status id (append_lines (t ∷ us) log) ≡ ok (last_of t us)
status-last_of id t us log h all dated ne =
    let e = (last_of-IsLineOf id t us h all).0 in
    rw e at (
      status-append_lines (t ∷ us) (last_of t us) log (last_of-EndsWith t us) (rw e dated)
        (rw e ne))

module _ (ts : Text) (t : Task) where
  line_if-IsLineOf : (b : Bool) (u : Task) → IsLineOf t.id u → All (IsLineOf t.id) (line_if b u)
  line_if-IsLineOf true u h = (h, tt)
  line_if-IsLineOf false u h = tt

  cancelled_lines-IsLineOf :
      (u : Task) (a : Again) → u.id ≡ t.id → All (IsLineOf t.id) (cancelled_lines ts u a)
  unfolding member same
  cancelled_lines-IsLineOf u once h = ((h, refl), tt)
  cancelled_lines-IsLineOf u (again true) h = ((h, refl), tt)
  cancelled_lines-IsLineOf u (again false) h = tt

  cancelled_at_end-IsLineOf :
      (u : Task) (ending : Ending) (a : Again)
      → u.id ≡ t.id
      → All (IsLineOf t.id) (cancelled_at_end ts u ending a)
  cancelled_at_end-IsLineOf u (rows rs) a h = cancelled_lines-IsLineOf u a h
  cancelled_at_end-IsLineOf u (counted s) a h = cancelled_lines-IsLineOf u a h
  cancelled_at_end-IsLineOf u (raised e) a h = tt
  cancelled_at_end-IsLineOf u timed_out a h = tt

  last_line-IsLineOf :
      (u : Task) (ending : Ending) → u.id ≡ t.id → IsLineOf t.id (last_line ts u ending)
  unfolding last_line member same
  last_line-IsLineOf u (rows rs) h = (h, refl)
  last_line-IsLineOf u (counted s) h = (h, refl)
  last_line-IsLineOf u (raised e) h = (h, refl)
  last_line-IsLineOf u timed_out h = (h, refl)

  pub drive-IsLineOf :
      (ending : Ending) (moment : Moment) → All (IsLineOf t.id) (drive ts false t ending moment)
  unfolding drive member same
  drive-IsLineOf ending never =
      ((refl, refl), (last_line-IsLineOf (record t { state = running }) ending refl, tt))
  drive-IsLineOf ending unstarted = tt
  drive-IsLineOf ending (starting w a) =
      All-append (IsLineOf t.id) (line_if w (record t { state = running })) (cancelled_lines ts t a)
        (line_if-IsLineOf w (record t { state = running }) (refl, refl))
        (cancelled_lines-IsLineOf t a refl)
  drive-IsLineOf ending (working a) =
      ((refl, refl), cancelled_lines-IsLineOf (record t { state = running }) a refl)
  drive-IsLineOf ending (finishing w a) =
      let u = record t { state = running } in
      (
        (refl, refl),
        All-append (IsLineOf t.id) (line_if w (last_line ts u ending))
            (cancelled_at_end ts u ending a)
            (line_if-IsLineOf w (last_line ts u ending) (last_line-IsLineOf u ending refl))
            (cancelled_at_end-IsLineOf u ending a refl),
      )

-- Whether the line `cancelled` is written when it is begun.
abbrev pub survives : Again → Bool
survives once = true
survives (again written) = written

-- Whether a line `done`, `failed` or `cancelled` is written: none is when the cancellation comes before
-- the wrapper's first step, when it comes while a line `failed` is being written and that line is lost,
-- or when a second cancellation loses the line `cancelled` and no line `done` was written.
abbrev pub settles : Ending → Moment → Bool
settles ending never = true
settles ending unstarted = false
settles ending (starting w a) = survives a
settles ending (working a) = survives a
settles (rows rs) (finishing w a) = w || survives a
settles (counted s) (finishing w a) = w || survives a
settles (raised e) (finishing w a) = w
settles timed_out (finishing w a) = w

or_true : (b : Bool) → (b || true) ≡ true
or_true true = refl
or_true false = refl

or_false : (b : Bool) → (b || false) ≡ b
or_false true = refl
or_false false = refl

and_true : (b c : Bool) → ((b && true) || c) ≡ (b || c)
and_true true c = refl
and_true false c = refl

and_false : (b c : Bool) → ((b && false) || c) ≡ c
and_false true c = refl
and_false false c = refl

-- The lines of a cancellation at the line `l`, behind an unsettled line.
cancelled-settles :
    (ts : Text) (u t l : Task) (w : Bool) (a : Again)
    → is_settled u.state ≡ false
    → is_settled (last_of u (line_if w l ++ cancelled_lines ts t a)).state
      ≡ ((w && is_settled l.state) || survives a)
unfolding member same
cancelled-settles ts u t l true once h = sym (or_true (is_settled l.state))
cancelled-settles ts u t l true (again true) h = sym (or_true (is_settled l.state))
cancelled-settles ts u t l true (again false) h = sym (or_false (is_settled l.state))
cancelled-settles ts u t l false once h = refl
cancelled-settles ts u t l false (again true) h = refl
cancelled-settles ts u t l false (again false) h = h

failed-settles :
    (u l : Task) (w : Bool)
    → is_settled u.state ≡ false
    → is_settled l.state ≡ true
    → is_settled (last_of u (line_if w l ++ [])).state ≡ w
failed-settles u l true h k = k
failed-settles u l false h k = h

pub last_of-settles :
    (ts : Text) (t : Task) (ending : Ending) (moment : Moment)
    → t.state ≡ pending
    → is_settled (last_of t (drive ts false t ending moment)).state ≡ settles ending moment
unfolding drive last_line member same
last_of-settles ts t (rows rs) never h = refl
last_of-settles ts t (counted s) never h = refl
last_of-settles ts t (raised e) never h = refl
last_of-settles ts t timed_out never h = refl
last_of-settles ts t ending unstarted h = rw h refl
last_of-settles ts t ending (starting w a) h =
    cancelled-settles ts t t (record t { state = running }) w a (rw h refl)
    ∙ and_false w (survives a)
last_of-settles ts t ending (working a) h =
    cancelled-settles ts (record t { state = running }) (record t { state = running }) t false a
      refl
last_of-settles ts t (rows rs) (finishing w a) h =
    let u = record t { state = running } in
    cancelled-settles ts u u (last_line ts u (rows rs)) w a refl ∙ and_true w (survives a)
last_of-settles ts t (counted s) (finishing w a) h =
    let u = record t { state = running } in
    cancelled-settles ts u u (last_line ts u (counted s)) w a refl ∙ and_true w (survives a)
last_of-settles ts t (raised e) (finishing w a) h =
    let u = record t { state = running } in failed-settles u (last_line ts u (raised e)) w refl refl
last_of-settles ts t timed_out (finishing w a) h =
    let u = record t { state = running } in failed-settles u (last_line ts u timed_out) w refl refl

-- A submitted task, with an id that has a date in it: whatever the work does and whenever it is
-- cancelled, `status` finds the task. It is done, failed or cancelled, unless the cancellation came
-- before the first step of its wrapper, or the cancellation loses the line `failed` that is being
-- written, or a second cancellation loses the line `cancelled` and no line `done` was written; then it
-- is pending or running for good.
pub status-submit :
    (id op : Text) (query : Option Text) (born ts : Text) (ending : Ending) (moment : Moment)
    (log : Log)
    → IsDated id
    → id ≢ []
    → (t : Task) × (status id (submit id op query born ts ending moment log) ≡ ok t)
      × (is_settled t.state ≡ settles ending moment)
      × (member t.state (pending ∷ running ∷ []) ≡ not (settles ending moment))
unfolding submit
status-submit id op query born ts ending moment log dated h =
    let t = new_task id op pending query born in
    let lines = drive ts false t ending moment in
    let own : IsLineOf id t = (refl, unfold member same in refl) in
    let all = drive-IsLineOf ts t ending moment in
    let settled = last_of-settles ts t ending moment refl in
    let line = last_of-IsLineOf id t lines own all in
    (
      last_of t lines,
      status-last_of id t lines log own all dated h,
      settled,
      line.1 ∙ ap not settled,
    )
