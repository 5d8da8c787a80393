-- ===== src/Streams/Table.antt =====
-- `start_stream`, `StreamHandle` and `close`: the handles of a service's streams.
use seekbase.Base.{
  ℕ, suc, ◌≡◌, Text, List, [], ◌∷◌, Bool, true, false, ◌==◌, Option, none, some, same,
  if◌then◌else◌, Result, Error, ok, err, query_error, ◌>>=◌,
}

-- `handles`: the dict `_streams`. `running`: the tasks that are not done. Tasks are numbered from 0.
pub record Streams : Type 0 where
  pub handles : List (Text × ℕ)
  pub running : ℕ → Bool
  pub started : ℕ

abbrev pub no_streams : Streams
no_streams = record { handles = []; running = λ id. false; started = 0 }

-- self._streams.get(name)
unfoldable pub handle : Text → List (Text × ℕ) → Option ℕ
unfolding same
handle name [] = none
handle name ((n, id) ∷ hs) = if same n name then some id else handle name hs

-- self._streams[name] = handle
unfoldable pub set_handle : Text → ℕ → List (Text × ℕ) → List (Text × ℕ)
unfolding same
set_handle name new [] = (name, new) ∷ []
set_handle name new ((n, id) ∷ hs) =
    let rest = set_handle name new hs in if same n name then (n, new) ∷ hs else (n, id) ∷ rest

abbrev pub is_running : (ℕ → Bool) → Option ℕ → Bool
is_running running none = false
is_running running (some id) = running id

abbrev pub mark : ℕ → Bool → (ℕ → Bool) → ℕ → Bool
mark id now running j = if j == id then now else running j

-- A new task, and its handle under the name.
abbrev pub add_handle : Text → Streams → Streams
add_handle name s = record {
  handles = set_handle name s.started s.handles;
  running = mark s.started true s.running;
  started = suc s.started;
}

-- start_stream; `compiled` is what `_compile` gives.
unfoldable pub start_stream {ℓ} : {A : Type ℓ} → Result A → Text → Streams → Result Streams
unfolding handle set_handle
start_stream compiled name s =
    if is_running s.running (handle name s.handles)
    then err query_error
    else (do _ ← compiled; ok (add_handle name s))

-- The task of a stream is done: it raised, or it was stopped.
abbrev pub end_task : ℕ → Streams → Streams
end_task id s = record s { running = mark id false s.running }

-- The states of a service: streams are started, and end by themselves or by `stop`.
pub data Reached {ℓ} (A : Type ℓ) : Streams → Type ℓ where
  opened : Reached A no_streams
  start :
      (s s' : Streams) (compiled : Result A) (name : Text)
      → Reached A s
      → start_stream compiled name s ≡ ok s'
      → Reached A s'
  ended : (s : Streams) (id : ℕ) → Reached A s → Reached A (end_task id s)

-- A call of `close`: the handles of its list that it has still to look at, or what it raised. It returns
-- when there are none.
pub data Close : Type 0 where
  stopping : List (Text × ℕ) → Close
  raised : Error → Close

-- The states of a service between the call of `close` in the state `first` and its end. `stop` sets the
-- event and waits until the task is done, and raises what the task raised in its last sweep, `ends id`.
-- While it waits other streams are started and end. A stream that ends by itself while it is waited for
-- is skipped afterwards, also if it raised; the code has fewer such states, since `stop` then raises.
pub data Closing {ℓ} (A : Type ℓ) (ends : ℕ → Result (Unit {0})) (first : Streams)
    : Close → Streams → Type ℓ where
  called : Closing A ends first (stopping first.handles) first
  stopped :
      (s : Streams) (name : Text) (id : ℕ) (hs : List (Text × ℕ))
      → Closing A ends first (stopping ((name, id) ∷ hs)) s
      → s.running id ≡ true
      → ends id ≡ ok tt
      → Closing A ends first (stopping hs) (end_task id s)
  broken :
      (s : Streams) (name : Text) (id : ℕ) (hs : List (Text × ℕ)) (e : Error)
      → Closing A ends first (stopping ((name, id) ∷ hs)) s
      → s.running id ≡ true
      → ends id ≡ err e
      → Closing A ends first (raised e) (end_task id s)
  skipped :
      (s : Streams) (name : Text) (id : ℕ) (hs : List (Text × ℕ))
      → Closing A ends first (stopping ((name, id) ∷ hs)) s
      → s.running id ≡ false
      → Closing A ends first (stopping hs) s
  meanwhile_start :
      (c : Close) (s s' : Streams) (compiled : Result A) (name : Text)
      → Closing A ends first c s
      → start_stream compiled name s ≡ ok s'
      → Closing A ends first c s'
  meanwhile_ended :
      (c : Close) (s : Streams) (id : ℕ)
      → Closing A ends first c s
      → Closing A ends first c (end_task id s)
