-- ===== src/Runtime/Pool.antt =====
-- seekbase/runtime/readpool.py: `ReadPool.run` on the threads of the executor, as steps. A thread runs
-- one read at a time: it takes a cursor from the queue, and puts it back when the read returns or
-- raises. `close` and what a read does with its cursor are left out.
use seekbase.Base.{ℕ, ◌<◌, ◌≡◌, List, [], ◌∷◌, ◌++◌, length}

-- A read that is run, and its cursor.
pub record Read : Type 0 where
  pub read : ℕ
  pub cursor : ℕ

-- `waiting`: the reads that the executor has not begun, in order.
pub record Pool : Type 0 where
  pub free : List ℕ
  pub waiting : List ℕ
  pub running : List Read

-- __init__: a thread for each cursor
unfoldable pub create : List ℕ → Pool
create cursors = record { free = cursors; waiting = []; running = [] }

-- run_in_executor
unfoldable pub submit : ℕ → Pool → Pool
submit r p = record p { waiting = p.waiting ++ r ∷ [] }

-- `_free.get()` in a thread that begins the first read that waits
unfoldable pub borrow : ℕ → List ℕ → ℕ → List ℕ → Pool → Pool
borrow r waiting c free p = record p {
  free = free;
  waiting = waiting;
  running = record { read = r; cursor = c } ∷ p.running;
}

-- the `finally` clause
unfoldable pub give_back : List Read → Read → List Read → Pool → Pool
give_back before r after p = record p { free = p.free ++ r.cursor ∷ []; running = before ++ after }

pub data Reached (cursors : List ℕ) : Pool → Type 0 where
  created : Reached cursors (create cursors)
  submitted : (p : Pool) (r : ℕ) → Reached cursors p → Reached cursors (submit r p)
  borrowed :
      (p : Pool) (r : ℕ) (waiting : List ℕ) (c : ℕ) (free : List ℕ)
      → Reached cursors p
      → length p.running < length cursors
      → p.waiting ≡ r ∷ waiting
      → p.free ≡ c ∷ free
      → Reached cursors (borrow r waiting c free p)
  given_back :
      (p : Pool) (before : List Read) (r : Read) (after : List Read)
      → Reached cursors p
      → p.running ≡ before ++ r ∷ after
      → Reached cursors (give_back before r after p)
