-- ===== src/Write/Closing.antt =====
-- What becomes of the queue when the service is closed.
use seekbase.Base.{
  ℕ, ◌≡◌, refl, sym, ap, ◌∙◌, Text, List, [], ◌∷◌, ◌++◌, append-nil, map, Bool, true, false, Option,
  none, some, if◌then◌else◌, ◌||◌, Bool-cases, inl, inr, arith,
}
use mathlib.Core.Path.{subst}
use mathlib.Core.List.{Perm}
use seekbase.Schema.Data.{Schema}
use seekbase.Tasks.Log.{Log}
use seekbase.Write.Execute.{Engine}
use seekbase.Write.Worker.{
  Job, waiting, busy, finished, Worker, submit, close, drain, take_batch, end_batch, new_worker,
  Served, started, submitted, closed, took, worked, Runs, here, takes, works,
}
use seekbase.Write.Serial.{told, answered, run_jobs, jobs_in, Serial, Served-Serial}

-- Once the loop has returned, no future is resolved any more.
pub Served-finished :
    (schema : Schema) (first : Worker) (jobs : List Job) (s : Worker)
    → first.phase ≡ finished
    → Served schema first jobs s
    → (s.phase ≡ finished) × (s.answers ≡ first.answers)
unfolding submit close
Served-finished schema first _ _ over started = (over, refl)
Served-finished schema first _ _ over (submitted jobs s job before) =
    Served-finished schema first jobs s over before
Served-finished schema first _ _ over (closed jobs s before) =
    Served-finished schema first jobs s over before
Served-finished schema first _ _ over (took jobs s item q before idle full) =
    absurd (cc (idle, (Served-finished schema first jobs s over before).0))
Served-finished schema first _ _ over (worked jobs s batch ts ids before working) =
    absurd (cc (working, (Served-finished schema first jobs s over before).0))

-- An operation that is submitted while a batch is executed, before the service is closed, stays in the
-- queue when the loop returns; its future is never resolved, whatever happens after.
pub close-abandons :
    (schema : Schema) (s : Worker) (batch : List Job) (job : Job) (ts : Text) (ids : ℕ → Text)
    (jobs : List Job) (later : Worker)
    → s.phase ≡ busy batch
    → s.queue ≡ []
    → Served schema (end_batch schema ts ids batch (close (submit job s))) jobs later
    → (jobs_in (end_batch schema ts ids batch (close (submit job s))).queue ≡ job ∷ [])
      × (later.phase ≡ finished)
      × (later.answers ≡ (end_batch schema ts ids batch s).answers)
unfolding end_batch close submit
close-abandons schema s batch job ts ids jobs later working empty after =
    let over =
      Served-finished schema (end_batch schema ts ids batch (close (submit job s))) jobs later refl
        after in
    (rw empty refl, over.0, over.1)

-- Every item of the queue is a job.
abbrev IsUnmarked : List (Option Job) → Type 0
IsUnmarked [] = Unit
IsUnmarked (none ∷ q) = ⊥
IsUnmarked (some job ∷ q) = IsUnmarked q

IsUnmarked-submit :
    (q : List (Option Job)) (job : Job) → IsUnmarked q → IsUnmarked (q ++ some job ∷ [])
IsUnmarked-submit [] job h = tt
IsUnmarked-submit (none ∷ q) job h = h
IsUnmarked-submit (some first ∷ q) job h = IsUnmarked-submit q job h

drain-unmarked : (q : List (Option Job)) → IsUnmarked q → drain q ≡ (jobs_in q, ([], false))
unfolding drain
drain-unmarked [] h = refl
drain-unmarked (none ∷ q) h = absurd h
drain-unmarked (some job ∷ q) h = rw (drain-unmarked q h)

drain-marked :
    (q : List (Option Job)) → IsUnmarked q → drain (q ++ none ∷ []) ≡ (jobs_in q, ([], true))
unfolding drain
drain-marked [] h = refl
drain-marked (none ∷ q) h = absurd h
drain-marked (some job ∷ q) h = rw (drain-marked q h)

-- Until the service is closed there is no marker in the queue, and the loop has not returned.
record Open (s : Worker) : Type 0 where
  unmarked : s.stop ≡ false → IsUnmarked s.queue
  runs : s.phase ≡ finished → s.stop ≡ true

not_stopped : (a b : Bool) → (a || b) ≡ false → a ≡ false
not_stopped a b h = ground (arith, h)

take_batch-Open :
    (s : Worker) (item : Option Job) (q : List (Option Job))
    → s.queue ≡ item ∷ q
    → Open s
    → Open (take_batch item q s)
unfolding take_batch
take_batch-Open s none q full h = record {
  unmarked = λ n. absurd (rw full at (h.unmarked n));
  runs = λ _. elim (Bool-cases s.stop) [ inl e ↦ e | inr e ↦ absurd (rw full at (h.unmarked e)) ];
}
take_batch-Open s (some job) q full h = record {
  unmarked = λ n.
      let before = not_stopped s.stop (drain q).1.1 n in
      subst IsUnmarked (ap (λ d. d.1.0) (sym (drain-unmarked q (rw full at (h.unmarked before)))))
        tt;
  runs = λ p. absurd (cc p);
}

stops : (stop : Bool) → (if stop then finished else waiting) ≡ finished → stop ≡ true
stops true p = refl
stops false p = absurd (cc p)

Served-Open :
    (schema : Schema) (e : Engine) (log : Log) (jobs : List Job) (s : Worker)
    → Served schema (new_worker e log) jobs s
    → Open s
unfolding submit close end_batch
Served-Open schema e log _ _ started = record { unmarked = λ _. tt; runs = λ h. cc h }
Served-Open schema e log _ _ (submitted jobs s job before) =
    let h = Served-Open schema e log jobs s before in
    record { unmarked = λ n. IsUnmarked-submit s.queue job (h.unmarked n); runs = h.runs }
Served-Open schema e log _ _ (closed jobs s before) = record {
  unmarked = λ n. absurd (cc n);
  runs = λ _. refl;
}
Served-Open schema e log _ _ (took jobs s item q before idle full) =
    take_batch-Open s item q full (Served-Open schema e log jobs s before)
Served-Open schema e log _ _ (worked jobs s batch ts ids before working) =
    let h = Served-Open schema e log jobs s before in
    record { unmarked = h.unmarked; runs = λ p. stops s.stop p }

-- Closing, and what the worker does then by itself, as long as it waited.
unfoldable pub run_down : Schema → Text → (ℕ → Text) → List (Option Job) → Worker → Worker
unfolding drain take_batch end_batch
run_down schema ts ids [] s = s
run_down schema ts ids (none ∷ q) s = take_batch none q s
run_down schema ts ids (some job ∷ q) s =
    end_batch schema ts ids (job ∷ (drain q).0) (take_batch (some job) q s)

run_down-Runs :
    (schema : Schema) (first s : Worker) (q : List (Option Job)) (ts : Text) (ids : ℕ → Text)
    → s.phase ≡ waiting
    → s.queue ≡ q
    → Runs schema first s
    → Runs schema first (run_down schema ts ids q s)
unfolding run_down
run_down-Runs schema first s [] ts ids idle full h = h
run_down-Runs schema first s (none ∷ q) ts ids idle full h = takes s none q h idle full
run_down-Runs schema first s (some job ∷ q) ts ids idle full h =
    works (take_batch (some job) q s) (job ∷ (drain q).0) ts ids (takes s (some job) q h idle full)
      (unfold take_batch in refl)

-- The steps of the worker are steps of the service.
Runs-Served :
    (schema : Schema) (first : Worker) (jobs : List Job) (s last : Worker)
    → Served schema first jobs s
    → Runs schema s last
    → Served schema first jobs last
Runs-Served schema first jobs s _ before here = before
Runs-Served schema first jobs s _ before (takes t item q h idle full) =
    took jobs t item q (Runs-Served schema first jobs s t before h) idle full
Runs-Served schema first jobs s _ before (works t batch ts ids h working) =
    worked jobs t batch ts ids (Runs-Served schema first jobs s t before h) working

run_down-finished :
    (schema : Schema) (ts : Text) (ids : ℕ → Text) (q : List (Option Job)) (s : Worker)
    → s.stop ≡ true
    → IsUnmarked q
    → ((run_down schema ts ids (q ++ none ∷ []) s).phase ≡ finished)
      × (jobs_in (run_down schema ts ids (q ++ none ∷ []) s).queue ≡ [])
unfolding run_down take_batch end_batch
run_down-finished schema ts ids [] s stopped h = (refl, refl)
run_down-finished schema ts ids (none ∷ q) s stopped h = absurd h
run_down-finished schema ts ids (some job ∷ q) s stopped h =
    (rw stopped refl, ap (λ d. jobs_in d.1.0) (drain-marked q h))

Serial-finished :
    (schema : Schema) (e : Engine) (jobs : List Job) (s : Worker)
    → s.phase ≡ finished
    → jobs_in s.queue ≡ []
    → Serial schema e jobs s
    → Perm (map told s.answers) (answered jobs (run_jobs schema jobs e).0)
Serial-finished schema e jobs s over empty h =
    let all : h.past ≡ jobs = sym ((rw (over, empty) at h.order) ∙ append-nil h.past) in
    subst (λ l. Perm (map told s.answers) (answered l (run_jobs schema l e).0)) all h.resolved

-- If the service is closed while the worker waits, and was not closed before, the worker's own next
-- steps, from the state that close leaves, end its loop, and then the futures of the submitted
-- operations, and no others, are resolved, each once, with what the operation returns or raises when
-- they are executed one after the other.
pub close-answers :
    (schema : Schema) (e : Engine) (log : Log) (jobs : List Job) (s : Worker) (ts : Text)
    (ids : ℕ → Text)
    → Served schema (new_worker e log) jobs s
    → s.phase ≡ waiting
    → s.stop ≡ false
    → (last : Worker) × Runs schema (close s) last
      × (last.phase ≡ finished)
      × Perm (map told last.answers) (answered jobs (run_jobs schema jobs e).0)
unfolding close
close-answers schema e log jobs s ts ids served idle opened =
    let last = run_down schema ts ids (close s).queue (close s) in
    let steps = run_down-Runs schema (close s) (close s) (close s).queue ts ids idle refl here in
    let over =
      run_down-finished schema ts ids s.queue (close s) refl
        ((Served-Open schema e log jobs s served).unmarked opened) in
    let all =
      Runs-Served schema (new_worker e log) jobs (close s) last (closed jobs s served) steps in
    (
      last,
      steps,
      over.0,
      Serial-finished schema e jobs last over.0 over.1 (Served-Serial schema e log jobs last all),
    )
