-- ===== src/Examples/Reads.antt =====
-- A pool of two cursors with one read, and a log with one task.
use seekbase.Base.{
  ℕ, ◌+◌, ◌≤◌, ◌<◌, ◌≡◌, refl, List, [], ◌∷◌, map, length, none, some, ok, arith, same,
}
use seekbase.Runtime.Pool.{Pool, create, submit, borrow, Reached, created, submitted, borrowed}
use seekbase.Runtime.Exclusive.{times, held, Reached-exclusive}
use seekbase.Tasks.Record.{field, to_wire, from_wire, wire_id}
use seekbase.Tasks.Log.{find_last}
use seekbase.Tasks.Recent.{
  list_tasks, scan, add_lines, set_key, line_key, tasks_of, sort_tasks, insert_task,
}
use seekbase.Tasks.Newest.{IsDescending, lookup, list_tasks-IsDescending, add_lines-find_last}
use seekbase.Examples.{task}

abbrev cursors : List ℕ
cursors = 4 ∷ 5 ∷ []

abbrev waiting_pool : Pool
waiting_pool = submit 1 (create cursors)

abbrev reading_pool : Pool
reading_pool = borrow 1 [] 4 (5 ∷ []) waiting_pool

reading_pool-Reached : Reached cursors reading_pool
reading_pool-Reached =
    borrowed waiting_pool 1 [] 4 (5 ∷ []) (submitted (create cursors) 1 created)
      (unfold submit create in omega arith) (unfold submit create in refl)
      (unfold submit create in refl)

cursors_differ : (c : ℕ) → times c cursors ≤ 1
cursors_differ c = ground arith

Reached-exclusive_example :
    ((c : ℕ) → held c reading_pool.running + times c reading_pool.free ≤ 1)
    × (length reading_pool.running < length cursors → 1 ≤ length reading_pool.free)
Reached-exclusive_example =
    Reached-exclusive cursors reading_pool cursors_differ reading_pool-Reached

listed : list_tasks 5 ((to_wire task ∷ []) ∷ []) ≡ ok (task ∷ [])
unfolding list_tasks scan add_lines set_key line_key tasks_of sort_tasks insert_task field to_wire
    from_wire wire_id same
listed = refl

list_tasks-IsDescending_example : (length (task ∷ []) ≤ 5) × IsDescending (task ∷ [])
list_tasks-IsDescending_example =
    list_tasks-IsDescending 5 ((to_wire task ∷ []) ∷ []) (task ∷ []) listed

add_lines-find_last_example :
    lookup (some task.id) (add_lines (map to_wire (task ∷ task ∷ [])) [])
    ≡ find_last task.id none (map to_wire (task ∷ task ∷ []))
add_lines-find_last_example =
    add_lines-find_last task.id (task ∷ task ∷ [])
      ((λ e. absurd (cc e)), ((λ e. absurd (cc e)), tt))
