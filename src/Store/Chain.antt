-- ===== src/Store/Chain.antt =====
-- `_run_bash_chain`: a process pipeline, and when it gives what its stages give one after the other.
use seekbase.Base.{
  ℕ, zero, suc, Text, List, [], ◌∷◌, Bool, if◌then◌else◌, Result, ok, err, query_error, other,
  ◌>>=◌,
}
use seekbase.Streams.Reader.{Bytes}

-- Popen.wait(): an exit code, or the signal that killed the process, a negative code.
pub data Exit : Type 0 where
  exited killed_by : ℕ → Exit

-- What a process writes on stdout, having read all of its stdin, and how it ends.
abbrev pub Process : Type 0
Process = Bytes → Bytes × Exit

pub data Spawned : Type 0 where
  spawned : Process → Spawned
  not_there spawn_failed : Spawned  -- FileNotFoundError, another exception

-- Popen: the first one that raises ends the loop.
abbrev pub start : Spawned → Result (List Process) → Result (List Process)
start (spawned p) later = do procs ← later; ok (p ∷ procs)
start not_there later = err query_error
start spawn_failed later = err other

-- The loop over `argvs`.
unfoldable pub start_all : (List Text → Spawned) → List (List Text) → Result (List Process)
start_all popen [] = ok []
start_all popen (argv ∷ argvs) = start (popen argv) (start_all popen argvs)

-- stdout of the last process and its end; what the ends of the others are is lost.
unfoldable pub communicate : Bytes → Exit → List Process → Bytes × Exit
communicate stdin exit [] = (stdin, exit)
communicate stdin exit (p ∷ procs) = communicate (p stdin).0 (p stdin).1 procs

abbrev pub verdict : Bytes × Exit → Result Bytes
verdict (out, exited zero) = ok out
verdict (out, exited (suc code)) = err query_error
verdict (out, killed_by signal) = err query_error

-- Without a stage `procs[0]` raises an IndexError.
unfoldable pub finish : Bool → Bytes → List Process → Result Bytes
unfolding communicate
finish in_time stdin [] = err other
finish in_time stdin (p ∷ procs) =
    if in_time then verdict (communicate stdin (exited 0) (p ∷ procs)) else err query_error

-- `popen`: the processes. `in_time`: whether the pipeline ends before the timeout.
module _ (popen : List Text → Spawned) (in_time : List (List Text) → Bytes → Bool) where
  unfoldable pub run_bash_chain : List (List Text) → Bytes → Result Bytes
  unfolding start_all finish
  run_bash_chain argvs stdin = do
    procs ← start_all popen argvs
    finish (in_time argvs stdin) stdin procs
