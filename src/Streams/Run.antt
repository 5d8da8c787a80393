-- ===== src/Streams/Run.antt =====
-- `_run`: the loop of a stream, its checkpoint, and the files that it follows. The files only grow. A
-- crash between landing a batch and the checkpoint is a step of its own.
use seekbase.Base.{
  ℕ, Text, List, [], ◌∷◌, ◌++◌, map, Bool, Option, none, some, same, if◌then◌else◌, Result, ok, err,
  ◌>>=◌, ◌≡◌, length,
}
use seekbase.Value.{Dict}
use seekbase.Json.{Loaded}
use seekbase.Store.Jsonl.{jsonl_to_rows}
use seekbase.Streams.Reader.{Bytes, Offsets, join, read_new_lines}

-- _land: the rows of a batch. `chain` is the run of the middles, `insert` the sink.
unfoldable pub insert_all : (List Dict → Result (Unit {0})) → List Dict → Result ℕ
insert_all insert [] = ok 0
insert_all insert (r ∷ rows) = do _ ← insert (r ∷ rows); ok (length (r ∷ rows))

unfoldable pub land :
    (Bytes → Result Bytes)
    → (Text → Loaded)
    → (List Dict → Result (Unit {0}))
    → List Bytes
    → Result ℕ
unfolding jsonl_to_rows insert_all join
land chain loads insert lines = do
  data_bytes ← chain (join lines)
  rows ← jsonl_to_rows loads data_bytes
  insert_all insert rows

-- `files`: the bytes of each file, none while it is not there. `offsets`: the checkpoint, which `_run` has in memory too. `landed`: the lines of all batches that
-- `_land` took without an exception.
pub record Stream : Type 0 where
  pub files : Text → Bytes
  pub offsets : Offsets
  pub landed : List Bytes

-- offsets.update(new)
unfoldable pub update : List (Text × ℕ) → Offsets → Offsets
update [] offsets path = offsets path
update ((p, pos) ∷ new) offsets path =
    let rest = update new offsets path in if same p path then pos else rest

-- The files that the pattern matches, each with whether it can be opened.
abbrev pub contents : (Text → Bytes) → List (Text × Bool) → List (Text × Option Bytes)
contents files = map λ p. (p.0, if p.1 then some (files p.0) else none)

-- the end of a batch: `offsets.update` and `_checkpoint`
unfoldable pub commit : List Bytes → List (Text × ℕ) → Stream → Stream
unfolding update
commit lines new s = record s { offsets = update new s.offsets; landed = s.landed ++ lines }

abbrev after_landing : List Bytes → List (Text × ℕ) → Stream → Result ℕ → Result Stream
after_landing lines new s (err e) = err e
after_landing lines new s (ok n) = ok (commit lines new s)

unfoldable pub land_batch :
    (List Bytes → Result ℕ) → List Bytes × List (Text × ℕ) → Stream → Result Stream
unfolding commit
land_batch lands ([], new) s = ok s
land_batch lands (l ∷ lines, new) s = after_landing (l ∷ lines) new s (lands (l ∷ lines))

-- One round of the loop, and the last sweep.
unfoldable pub poll : ℕ → (List Bytes → Result ℕ) → List (Text × Bool) → Stream → Result Stream
unfolding land_batch read_new_lines
poll max_lines lands paths s =
    land_batch lands (read_new_lines max_lines 0 s.offsets (contents s.files paths)) s

abbrev pub grow : Text → Bytes → Stream → Stream
grow path more s = record s { files = λ p. if same path p then s.files p ++ more else s.files p }

-- The states of a stream that is started, stopped, killed and started again.
pub data Follows (max_lines : ℕ) : Stream → Type 0 where
  fresh :
      (files : Text → Bytes)
      → Follows max_lines (record { files = files; offsets = λ path. 0; landed = [] })
  grew :
      (s : Stream) (path : Text) (more : Bytes)
      → Follows max_lines s
      → Follows max_lines (grow path more s)
  polled :
      (s s' : Stream) (chain : Bytes → Result Bytes) (loads : Text → Loaded)
      (insert : List Dict → Result (Unit {0})) (paths : List (Text × Bool))
      → Follows max_lines s
      → poll max_lines (land chain loads insert) paths s ≡ ok s'
      → Follows max_lines s'
  killed :
      (s : Stream) (lines : List Bytes)
      → Follows max_lines s
      → Follows max_lines (record s { landed = s.landed ++ lines })
  unreadable :
      (s : Stream) → Follows max_lines s → Follows max_lines (record s { offsets = λ path. 0 })
