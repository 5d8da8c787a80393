-- ===== src/Write/Serial.antt =====
-- The worker executes the submitted operations one after the other, in the order of submission.
use seekbase.Base.{
  ℕ, suc, ◌≡◌, refl, sym, ap, ◌∙◌, Text, List, [], ◌∷◌, ◌++◌, append_assoc, append-nil, map, Bool,
  true, false, Option, none, some, if◌then◌else◌, Result, ok, err,
}
use mathlib.Core.List.{map-append, Perm, perm_middle}
use mathlib.Core.List.Perm
use seekbase.Schema.Data.{Schema}
use seekbase.Tasks.Record.{Task}
use seekbase.Tasks.Log.{Log}
use seekbase.Write.Execute.{World, Engine, Op, Outcome, execute}
use seekbase.Write.Batch.{run_ops, kind, matched_of, resolve_all, process_batch}
use seekbase.Write.Worker.{
  Job, Phase, waiting, busy, finished, Worker, submit, close, drain, take_batch, pair_up,
  only_raised, only_executed, op_of, end_batch, new_worker, Served, started, submitted, closed,
  took, worked,
}

abbrev pub answer : Result (Op × Outcome) → Result (Text × Option ℕ)
answer (ok (op, out)) = ok (kind op, matched_of out)
answer (err x) = err x

-- What a future tells of its operation: the kind and the count of a task, or the error.
abbrev pub told : ℕ × Result Task → ℕ × Result (Text × Option ℕ)
told (future, ok task) = (future, ok (task.op, task.matched))
told (future, err x) = (future, err x)

-- The operations of the jobs, executed one after the other.
abbrev pub run_jobs : Schema → List Job → Engine → List (Result (Op × Outcome)) × Engine
run_jobs schema jobs e = run_ops schema (map op_of jobs) e

abbrev pub answered : List Job → List (Result (Op × Outcome)) → List (ℕ × Result (Text × Option ℕ))
answered [] rs = []
answered (job ∷ jobs) [] = []
answered (job ∷ jobs) (r ∷ rs) = (job.future, answer r) ∷ answered jobs rs

run_ops-append_engine :
    (schema : Schema) (a b : List (World × Op)) (e : Engine)
    → (run_ops schema (a ++ b) e).1 ≡ (run_ops schema b (run_ops schema a e).1).1
unfolding run_ops
run_ops-append_engine schema [] b e = refl
run_ops-append_engine schema ((w, op) ∷ a) b e =
    run_ops-append_engine schema a b (execute w schema op e).1

answered-append :
    (schema : Schema) (a b : List Job) (e : Engine)
    → answered (a ++ b) (run_jobs schema (a ++ b) e).0
      ≡ answered a (run_jobs schema a e).0
        ++ answered b (run_jobs schema b (run_jobs schema a e).1).0
unfolding run_ops
answered-append schema [] b e = refl
answered-append schema (job ∷ a) b e =
    rw (answered-append schema a b (execute job.world schema job.op e).1)

told-pair_up :
    (ts : Text) (ids : ℕ → Text) (n : ℕ) (jobs : List Job) (rs : List (Result (Op × Outcome)))
    → map told (pair_up jobs (resolve_all ts ids n rs)) ≡ answered jobs rs
unfolding resolve_all
told-pair_up ts ids n [] rs = refl
told-pair_up ts ids n (job ∷ jobs) [] = refl
told-pair_up ts ids n (job ∷ jobs) ((ok (op, out)) ∷ rs) = rw (told-pair_up ts ids (suc n) jobs rs)
told-pair_up ts ids n (job ∷ jobs) (err x ∷ rs) = rw (told-pair_up ts ids n jobs rs)

told-only :
    (ps : List (ℕ × Result Task))
    → Perm (map told (only_raised ps) ++ map told (only_executed ps)) (map told ps)
told-only [] = Perm.rfl
told-only ((future, err x) ∷ ps) = Perm.cons _ (told-only ps)
told-only ((future, ok task) ∷ ps) =
    Perm.trans (perm_middle (map told (only_raised ps)) (map told (only_executed ps)))
      (Perm.cons _ (told-only ps))

-- What a batch adds to the answers.
told-end_batch :
    (answers : List (ℕ × Result Task)) (ps : List (ℕ × Result Task))
    (before batch : List (ℕ × Result (Text × Option ℕ)))
    → Perm (map told answers) before
    → map told ps ≡ batch
    → Perm (map told (answers ++ (only_raised ps ++ only_executed ps))) (before ++ batch)
told-end_batch answers ps before batch h e =
    rw (map-append told answers (only_raised ps ++ only_executed ps)) (
      rw (map-append told (only_raised ps) (only_executed ps))
        (rw (sym e) (Perm.append h (told-only ps))))

-- The jobs in a queue, and those of a batch that is executed.
abbrev pub jobs_in : List (Option Job) → List Job
jobs_in [] = []
jobs_in (none ∷ q) = jobs_in q
jobs_in (some job ∷ q) = job ∷ jobs_in q

abbrev pub in_batch : Phase → List Job
in_batch waiting = []
in_batch finished = []
in_batch (busy jobs) = jobs

jobs_in-append : (a b : List (Option Job)) → jobs_in (a ++ b) ≡ jobs_in a ++ jobs_in b
jobs_in-append [] b = refl
jobs_in-append (none ∷ a) b = jobs_in-append a b
jobs_in-append (some job ∷ a) b = ap (λ l. job ∷ l) (jobs_in-append a b)

drain-jobs_in : (q : List (Option Job)) → (drain q).0 ++ jobs_in (drain q).1.0 ≡ jobs_in q
unfolding drain
drain-jobs_in [] = refl
drain-jobs_in (none ∷ q) = refl
drain-jobs_in (some job ∷ q) = ap (λ l. job ∷ l) (drain-jobs_in q)

-- `past`: the jobs of the batches that have ended. They come first among those submitted, then those of the batch,
-- then those in the queue; the database is as if they had been executed one by one, and the futures that
-- were resolved are theirs, each once, with what each returned or raised, in whatever order.
pub record Serial (schema : Schema) (e : Engine) (jobs : List Job) (s : Worker) : Type 0 where
  pub past : List Job
  pub order : jobs ≡ past ++ (in_batch s.phase ++ jobs_in s.queue)
  pub state : s.engine ≡ (run_jobs schema past e).1
  pub resolved : Perm (map told s.answers) (answered past (run_jobs schema past e).0)

idle_after :
    (stop : Bool) (jobs : List Job) → jobs ≡ in_batch (if stop then finished else waiting) ++ jobs
idle_after true jobs = refl
idle_after false jobs = refl

run_jobs-append_engine :
    (schema : Schema) (a b : List Job) (e : Engine)
    → (run_jobs schema (a ++ b) e).1 ≡ (run_jobs schema b (run_jobs schema a e).1).1
run_jobs-append_engine schema a b e =
    rw (map-append op_of a b) (run_ops-append_engine schema (map op_of a) (map op_of b) e)

module _ (schema : Schema) (e : Engine) where
  take_batch-Serial :
      (jobs : List Job) (s : Worker) (first : Option Job) (q : List (Option Job))
      → s.phase ≡ waiting
      → s.queue ≡ first ∷ q
      → Serial schema e jobs s
      → Serial schema e jobs (take_batch first q s)
  unfolding take_batch
  take_batch-Serial jobs s none q idle full h = record {
    past = h.past;
    order = rw (idle, full) at h.order;
    state = h.state;
    resolved = h.resolved;
  }
  take_batch-Serial jobs s (some job) q idle full h = record {
    past = h.past;
    order = (rw (idle, full) at h.order) ∙ ap (λ l. h.past ++ job ∷ l) (sym (drain-jobs_in q));
    state = h.state;
    resolved = h.resolved;
  }

  end_batch-Serial :
      (jobs : List Job) (s : Worker) (batch : List Job) (ts : Text) (ids : ℕ → Text)
      → s.phase ≡ busy batch
      → Serial schema e jobs s
      → Serial schema e jobs (end_batch schema ts ids batch s)
  unfolding end_batch process_batch
  end_batch-Serial jobs s batch ts ids working h = record {
    past = h.past ++ batch;
    order =
        (rw working at h.order)
        ∙ (sym (append_assoc h.past batch (jobs_in s.queue))
            ∙ ap (λ l. (h.past ++ batch) ++ l) (idle_after s.stop (jobs_in s.queue)));
    state =
        ap (λ x. (run_jobs schema batch x).1) h.state
        ∙ sym (run_jobs-append_engine schema h.past batch e);
    resolved = rw (answered-append schema h.past batch e) (
        told-end_batch s.answers
          (pair_up batch (resolve_all ts ids 0 (run_jobs schema batch s.engine).0))
          (answered h.past (run_jobs schema h.past e).0)
          (answered batch (run_jobs schema batch (run_jobs schema h.past e).1).0) h.resolved
          (told-pair_up ts ids 0 batch (run_jobs schema batch s.engine).0
            ∙ ap (λ x. answered batch (run_jobs schema batch x).0) h.state));
  }

  -- At any time, whatever was submitted and closed while the worker waited or worked: before the current
  -- batch, if there is one, the database was as if the operations of the earlier batches had been
  -- executed one by one in the order of submission; the futures that these batches resolved are theirs,
  -- each with what its operation returned or raised; and the other operations are in the batch or in the
  -- queue, in order.
  pub Served-Serial :
      (log : Log) (jobs : List Job) (s : Worker)
      → Served schema (new_worker e log) jobs s
      → Serial schema e jobs s
  unfolding submit close
  Served-Serial log _ _ started = record {
    past = [];
    order = refl;
    state = unfold run_ops in refl;
    resolved = Perm.rfl;
  }
  Served-Serial log _ _ (submitted jobs s job before) =
      let h = Served-Serial log jobs s before in
      record {
        past = h.past;
        order =
            ap (λ l. l ++ job ∷ []) h.order
            ∙ (rw (jobs_in-append s.queue (some job ∷ [])) (
                append_assoc h.past (in_batch s.phase ++ jobs_in s.queue) (job ∷ [])
                ∙ ap (λ l. h.past ++ l)
                    (append_assoc (in_batch s.phase) (jobs_in s.queue) (job ∷ []))));
        state = h.state;
        resolved = h.resolved;
      }
  Served-Serial log _ _ (closed jobs s before) =
      let h = Served-Serial log jobs s before in
      record {
        past = h.past;
        order =
            h.order
            ∙ ap (λ l. h.past ++ (in_batch s.phase ++ l))
                (sym (jobs_in-append s.queue (none ∷ []) ∙ append-nil (jobs_in s.queue)));
        state = h.state;
        resolved = h.resolved;
      }
  Served-Serial log _ _ (took jobs s item q before idle full) =
      take_batch-Serial jobs s item q idle full (Served-Serial log jobs s before)
  Served-Serial log _ _ (worked jobs s batch ts ids before working) =
      end_batch-Serial jobs s batch ts ids working (Served-Serial log jobs s before)
