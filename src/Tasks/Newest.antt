-- ===== src/Tasks/Newest.antt =====
-- What a list of recent tasks holds.
use seekbase.Base.{
  ℕ, zero, suc, ◌≤◌, ◌≡◌, refl, sym, ap, ◌∙◌, codes, ◌||◌, Text, List, [], ◌∷◌, Bool, true, false,
  Option, none, some, same, same_iff, same_refl, map, All, ◌≢◌, text_le, length, take,
  if◌then◌else◌, Bool-cases, inl, inr, ok, OnOk-ok, >>=-eq-ok, arith,
}
use seekbase.Tasks.Record.{Task, WireTask, Field, absent, text, field, get_text, to_wire}
use seekbase.Tasks.Log.{is_line_of, find_last, text_is}
use seekbase.Tasks.Trip.{field-ticket}
use seekbase.Tasks.Recent.{
  Latest, or_text, same_key, set_key, line_key, add_lines, scan, tasks_of, submitted, insert_task,
  sort_tasks, list_tasks,
}

text_le-total : (a b : Text) → text_le a b ≡ false → text_le b a ≡ true
unfolding text_le
text_le-total [] b h = absurd (cc h)
text_le-total (x ∷ a) [] h = refl
text_le-total (x ∷ a) (y ∷ b) h = ground (arith, h, text_le-total a b)

-- Each task was submitted no later than the one before it.
abbrev pub IsDescending : List Task → Type 0
IsDescending [] = Unit
IsDescending (t ∷ []) = Unit
IsDescending (t ∷ u ∷ ts) = (text_le (submitted u) (submitted t) ≡ true) × IsDescending (u ∷ ts)

insert_task-below :
    (t u : Task) (us : List Task)
    → text_le (submitted t) (submitted u) ≡ true
    → IsDescending (u ∷ us)
    → IsDescending (u ∷ insert_task t us)
unfolding insert_task
insert_task-below t u [] le h = (le, tt)
insert_task-below t u (v ∷ us) le h = elim (Bool-cases (text_le (submitted v) (submitted t))) [
  | inl e ↦ rw e (le, (e, h.1))
  | inr e ↦ rw e (h.0, insert_task-below t v us (text_le-total (submitted v) (submitted t) e) h.1)
]

insert_task-IsDescending :
    (t : Task) (us : List Task) → IsDescending us → IsDescending (insert_task t us)
unfolding insert_task
insert_task-IsDescending t [] h = tt
insert_task-IsDescending t (u ∷ us) h = elim (Bool-cases (text_le (submitted u) (submitted t))) [
  | inl e ↦ rw e (e, h)
  | inr e ↦ rw e (insert_task-below t u us (text_le-total (submitted u) (submitted t) e) h)
]

sort_tasks-IsDescending : (ts : List Task) → IsDescending (sort_tasks ts)
unfolding sort_tasks
sort_tasks-IsDescending [] = tt
sort_tasks-IsDescending (t ∷ ts) =
    insert_task-IsDescending t (sort_tasks ts) (sort_tasks-IsDescending ts)

take-IsDescending : (n : ℕ) (ts : List Task) → IsDescending ts → IsDescending (take n ts)
take-IsDescending zero ts h = tt
take-IsDescending (suc n) [] h = tt
take-IsDescending (suc zero) (t ∷ ts) h = tt
take-IsDescending (suc (suc n)) (t ∷ []) h = tt
take-IsDescending (suc (suc n)) (t ∷ u ∷ ts) h = (h.0, take-IsDescending (suc n) (u ∷ ts) h.1)

length-take : (n : ℕ) (ts : List Task) → length (take n ts) ≤ n
length-take zero ts = omega arith
length-take (suc n) [] = omega arith
length-take (suc n) (t ∷ ts) = omega (arith, length-take n ts)

-- The first entry of a key, and the last line of it.
abbrev pub lookup : Option Text → Latest → Option WireTask
lookup k [] = none
lookup k ((j, d) ∷ out) = if same_key j k then some d else lookup k out

abbrev pub last_of : Option Text → List WireTask → Option WireTask → Option WireTask
last_of k [] found = found
last_of k (d ∷ lines) found = last_of k lines (if same_key (line_key d) k then some d else found)

-- A list of tasks that is returned has at most `limit` of them, the latest submission first.
pub list_tasks-IsDescending :
    (limit : ℕ) (partitions : List (List WireTask)) (ts : List Task)
    → list_tasks limit partitions ≡ ok ts
    → (length ts ≤ limit) × IsDescending ts
unfolding list_tasks
list_tasks-IsDescending limit partitions ts h =
    let (found, _, end) =
      >>=-eq-ok (tasks_of (scan limit partitions [])) (λ ts. ok (take limit (sort_tasks ts))) h in
    OnOk-ok (λ l. (length l ≤ limit) × IsDescending l) end
      (
        length-take limit (sort_tasks found),
        take-IsDescending limit (sort_tasks found) (sort_tasks-IsDescending found),
      )

same_key-eq : (j k : Option Text) → same_key j k ≡ true → j ≡ k
same_key-eq none none h = refl
same_key-eq none (some b) h = absurd (cc h)
same_key-eq (some a) none h = absurd (cc h)
same_key-eq (some a) (some b) h = ap some ((same_iff a b).0 h)

same_key_refl : (k : Option Text) → same_key k k ≡ true
same_key_refl none = refl
same_key_refl (some a) = same_refl a

lookup-set_key :
    (k key : Option Text) (d : WireTask) (out : Latest)
    → lookup k (set_key key d out) ≡ (if same_key key k then some d else lookup k out)
unfolding set_key
lookup-set_key k key d [] = refl
lookup-set_key k key d ((j, e) ∷ out) = elim (Bool-cases (same_key j key)) [
  | inl old ↦ rw old (
      rw (same_key-eq j key old)
        (elim (Bool-cases (same_key key k)) [ inl h ↦ rw h refl | inr h ↦ rw h refl ]))
  | inr new ↦ rw new (elim (Bool-cases (same_key j k)) [
    | inl h ↦
        let differ : same_key key k ≡ false = elim (Bool-cases (same_key key k)) [
          | inl both ↦ absurd (
              let same' = same_key-eq j k h in
              let same'' = same_key-eq key k both in
              let p : same_key k k ≡ false = rw (same', same'') at new in cc (p, same_key_refl k))
          | inr apart ↦ apart
        ] in
        rw (h, differ) refl
    | inr h ↦ rw h (lookup-set_key k key d out)
  ])
]

lookup-add_lines :
    (k : Option Text) (lines : List WireTask) (out : Latest)
    → lookup k (add_lines lines out) ≡ last_of k lines (lookup k out)
unfolding add_lines
lookup-add_lines k [] out = refl
lookup-add_lines k (d ∷ lines) out =
    lookup-add_lines k lines (set_key (line_key d) d out)
    ∙ ap (last_of k lines) (lookup-set_key k (line_key d) d out)

-- Lines of tasks whose ids are not empty.
abbrev pub AllNamed : List Task → Type 0
AllNamed = All λ t. t.id ≢ []

or_text-named : (a : Text) (b : Option Text) → a ≢ [] → or_text (some a) b ≡ some a
or_text-named [] b named = absurd (named refl)
or_text-named (c ∷ s) b named = refl

line_key-to_wire : (t : Task) → t.id ≢ [] → line_key (to_wire t) ≡ some t.id
unfolding line_key to_wire field same
line_key-to_wire t named = or_text-named t.id _ named

text_is-either :
    (id : Text) (b : Bool) (f : Field) → f ≡ absent → (b || text_is (get_text f) id) ≡ b
text_is-either id true f h = refl
text_is-either id false f h = rw h refl

field-task : (t : Task) → field (codes "task") (to_wire t) ≡ text t.id
unfolding field to_wire same
field-task t = refl

is_line_of-id : (id : Text) (t : Task) → is_line_of id (to_wire t) ≡ same t.id id
unfolding is_line_of
is_line_of-id id t =
    ap (λ f. text_is (get_text f) id || text_is (get_text (field (codes "ticket") (to_wire t))) id)
      (field-task t)
    ∙ text_is-either id (same t.id id) (field (codes "ticket") (to_wire t)) (field-ticket t)

last_of-find_last :
    (id : Text) (ts : List Task) (found : Option WireTask)
    → AllNamed ts
    → last_of (some id) (map to_wire ts) found ≡ find_last id found (map to_wire ts)
unfolding find_last
last_of-find_last id [] found h = refl
last_of-find_last id (t ∷ ts) found h =
    let next : Bool → Option WireTask = λ b. if b then some (to_wire t) else found in
    ap (λ k. last_of (some id) (map to_wire ts) (next (same_key k (some id))))
      (line_key-to_wire t h.0)
    ∙ (last_of-find_last id ts (next (same t.id id)) h.1
        ∙ ap (λ b. find_last id (next b) (map to_wire ts)) (sym (is_line_of-id id t)))

-- Of the lines of a partition that `append` wrote, for tasks with ids that are not empty, `list` keeps
-- for each id the line that `status` finds.
pub add_lines-find_last :
    (id : Text) (ts : List Task)
    → AllNamed ts
    → lookup (some id) (add_lines (map to_wire ts) []) ≡ find_last id none (map to_wire ts)
add_lines-find_last id ts h =
    lookup-add_lines (some id) (map to_wire ts) [] ∙ last_of-find_last id ts none h
