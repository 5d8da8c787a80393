-- ===== src/Write/Worker.antt =====
-- The write worker and its queue: `_submit`, `close`, and `_worker_loop` cut at the places where it
-- waits. `process_batch` is one step of the worker; what others do meanwhile are steps between the
-- one that takes a batch and the one that ends it. That no file or log can be written is left out.
use seekbase.Base.{
  ℕ, ◌≡◌, Text, List, [], ◌∷◌, ◌++◌, map, Bool, true, false, ◌||◌, Option, none, some,
  if◌then◌else◌, Result, ok, err,
}
use seekbase.Schema.Data.{Schema}
use seekbase.Tasks.Record.{Task}
use seekbase.Tasks.Log.{Log}
use seekbase.Write.Execute.{World, Engine, Op}
use seekbase.Write.Batch.{process_batch}

-- An operation with its future, and the world at the time when it is executed.
pub record Job : Type 0 where
  pub future : ℕ
  pub world : World
  pub op : Op

-- Waiting at `get`, executing a batch, or returned.
pub data Phase : Type 0 where
  waiting finished : Phase
  busy : List Job → Phase

-- `none` in the queue is the marker of `close`. `answers`: the futures that were resolved
-- in the batches that have ended, in order; `engine` and `log` are as these left them.
pub record Worker : Type 0 where
  pub queue : List (Option Job)
  pub stop : Bool
  pub phase : Phase
  pub engine : Engine
  pub log : Log
  pub answers : List (ℕ × Result Task)

unfoldable pub submit : Job → Worker → Worker
submit job s = record s { queue = s.queue ++ some job ∷ [] }

unfoldable pub close : Worker → Worker
close s = record s { queue = s.queue ++ none ∷ []; stop = true }

-- What `get_nowait` takes: the jobs up to a marker, what stays in the queue, and whether there was one.
unfoldable pub drain : List (Option Job) → List Job × (List (Option Job) × Bool)
drain [] = ([], ([], false))
drain (none ∷ q) = ([], (q, true))
drain (some job ∷ q) = let (jobs, rest) = drain q in (job ∷ jobs, rest)

-- `get` returned: the marker ends the loop, a job starts a batch.
unfoldable pub take_batch : Option Job → List (Option Job) → Worker → Worker
unfolding drain
take_batch none q s = record s { queue = q; phase = finished }
take_batch (some job) q s =
    let (jobs, (rest, marked)) = drain q in
    record s { queue = rest; stop = s.stop || marked; phase = busy (job ∷ jobs) }

abbrev pub pair_up : List Job → List (Result Task) → List (ℕ × Result Task)
pair_up [] rs = []
pair_up (job ∷ jobs) [] = []
pair_up (job ∷ jobs) (r ∷ rs) = (job.future, r) ∷ pair_up jobs rs

-- `set_exception`, of the operations that raised
abbrev pub only_raised : List (ℕ × Result Task) → List (ℕ × Result Task)
only_raised [] = []
only_raised ((future, err x) ∷ ps) = (future, err x) ∷ only_raised ps
only_raised ((future, ok task) ∷ ps) = only_raised ps

-- `set_result`, of the operations that were executed
abbrev pub only_executed : List (ℕ × Result Task) → List (ℕ × Result Task)
only_executed [] = []
only_executed ((future, err x) ∷ ps) = only_executed ps
only_executed ((future, ok task) ∷ ps) = (future, ok task) ∷ only_executed ps

abbrev pub op_of : Job → World × Op
op_of job = (job.world, job.op)

-- The batch is executed. The futures of the operations that raise are resolved as they do, the others
-- when the tasks are in the log. Then the loop tests `_stop`.
unfoldable pub end_batch : Schema → Text → (ℕ → Text) → List Job → Worker → Worker
unfolding process_batch
end_batch schema ts ids jobs s =
    let result = process_batch schema ts ids (map op_of jobs) s.engine s.log in
    let pairs = pair_up jobs result.futures in
    record s {
      engine = result.engine;
      log = result.log;
      answers = s.answers ++ (only_raised pairs ++ only_executed pairs);
      phase = if s.stop then finished else waiting;
    }

abbrev pub new_worker : Engine → Log → Worker
new_worker e log = record {
  queue = [];
  stop = false;
  phase = waiting;
  engine = e;
  log = log;
  answers = [];
}

-- The states that are reached from a state, with the jobs that were submitted since, in order.
pub data Served (schema : Schema) (first : Worker) : List Job → Worker → Type 0 where
  started : Served schema first [] first
  submitted :
      (jobs : List Job) (s : Worker) (job : Job)
      → Served schema first jobs s
      → Served schema first (jobs ++ job ∷ []) (submit job s)
  closed :
      (jobs : List Job) (s : Worker)
      → Served schema first jobs s
      → Served schema first jobs (close s)
  took :
      (jobs : List Job) (s : Worker) (item : Option Job) (q : List (Option Job))
      → Served schema first jobs s
      → s.phase ≡ waiting
      → s.queue ≡ item ∷ q
      → Served schema first jobs (take_batch item q s)
  worked :
      (jobs : List Job) (s : Worker) (batch : List Job) (ts : Text) (ids : ℕ → Text)
      → Served schema first jobs s
      → s.phase ≡ busy batch
      → Served schema first jobs (end_batch schema ts ids batch s)

-- What the worker does by itself: the states that its own steps reach.
pub data Runs (schema : Schema) (first : Worker) : Worker → Type 0 where
  here : Runs schema first first
  takes :
      (s : Worker) (item : Option Job) (q : List (Option Job))
      → Runs schema first s
      → s.phase ≡ waiting
      → s.queue ≡ item ∷ q
      → Runs schema first (take_batch item q s)
  works :
      (s : Worker) (batch : List Job) (ts : Text) (ids : ℕ → Text)
      → Runs schema first s
      → s.phase ≡ busy batch
      → Runs schema first (end_batch schema ts ids batch s)
