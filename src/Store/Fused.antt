-- ===== src/Store/Fused.antt =====
-- The stages of a process pipeline, and the same stages run one after the other.
use seekbase.Base.{
  zero, suc, ◌≡◌, refl, ap, ◌∙◌, Text, List, [], ◌∷◌, ◌++◌, Bool, true, false, Result, ok, err,
  ◌>>=◌, >>=-eq-ok,
}
use seekbase.Streams.Reader.{Bytes}
use seekbase.Store.Chain.{
  Exit, exited, killed_by, Process, Spawned, spawned, not_there, spawn_failed, start, start_all,
  communicate, verdict, finish, run_bash_chain,
}

-- A stage that ended well.
verdict-ok : (r : Bytes × Exit) {out : Bytes} → verdict r ≡ ok out → r ≡ (out, exited 0)
verdict-ok (out, exited zero) h = cc
verdict-ok (out, exited (suc code)) h = cc
verdict-ok (out, killed_by signal) h = cc

communicate-append :
    (stdin : Bytes) (exit : Exit) (ps qs : List Process)
    → communicate stdin exit (ps ++ qs)
      ≡ communicate (communicate stdin exit ps).0 (communicate stdin exit ps).1 qs
unfolding communicate
communicate-append stdin exit [] qs = refl
communicate-append stdin exit (p ∷ ps) qs = communicate-append (p stdin).0 (p stdin).1 ps qs

start-append :
    (s : Spawned) (first : Result (List Process)) (both second : Result (List Process))
    (ps : List Process)
    → start s first ≡ ok ps
    → ((qs : List Process) → first ≡ ok qs → both ≡ (second >>= λ rs. ok (qs ++ rs)))
    → start s both ≡ (second >>= λ rs. ok (ps ++ rs))
start-append (spawned p) (ok qs) both (ok rs) ps h k = rw (k qs refl) cc
start-append (spawned p) (ok qs) both (err e) ps h k = rw (k qs refl)
start-append (spawned p) (err e) both second ps h k = absurd (cc h)
start-append not_there first both second ps h k = absurd (cc h)
start-append spawn_failed first both second ps h k = absurd (cc h)

>>=-ok : {A : Type 0} (r : Result A) → r ≡ (r >>= λ a. ok a)
>>=-ok (ok a) = refl
>>=-ok (err e) = refl

nil : {ps : List Process} → ok [] ≡ ok ps → [] ≡ ps
nil h = cc

start_all-append :
    (popen : List Text → Spawned) (first second : List (List Text)) (ps : List Process)
    → start_all popen first ≡ ok ps
    → start_all popen (first ++ second) ≡ (start_all popen second >>= λ qs. ok (ps ++ qs))
unfolding start_all
start_all-append popen [] second ps h =
    >>=-ok (start_all popen second)
    ∙ ap (λ l. start_all popen second >>= λ qs. ok (l ++ qs)) (nil h)
start_all-append popen (a ∷ first) second ps h =
    start-append (popen a) (start_all popen first) (start_all popen (first ++ second))
      (start_all popen second) ps h (start_all-append popen first second)

-- What the first stages gave, if they ended in time and well, is where the others begin.
finish-append :
    (stdin out : Bytes) (first_in_time : Bool) (ps : List Process) (q : Process) (qs : List Process)
    → finish first_in_time stdin ps ≡ ok out
    → finish true stdin (ps ++ q ∷ qs) ≡ finish true out (q ∷ qs)
unfolding finish
finish-append stdin out true (p ∷ ps) q qs h = ap verdict (
    communicate-append stdin (exited 0) (p ∷ ps) (q ∷ qs)
    ∙ ap (λ r. communicate r.0 r.1 (q ∷ qs)) (verdict-ok (communicate stdin (exited 0) (p ∷ ps)) h))
finish-append stdin out false (p ∷ ps) q qs h = absurd (cc h)
finish-append stdin out b [] q qs h = absurd (cc h)

start-finish :
    (s : Spawned) (later : Result (List Process)) (stdin out : Bytes) (first_in_time : Bool)
    (ps : List Process)
    → finish first_in_time stdin ps ≡ ok out
    → ((start s later >>= λ qs. ok (ps ++ qs)) >>= finish true stdin)
      ≡ (start s later >>= finish true out)
start-finish (spawned p) (ok qs) stdin out b ps h = finish-append stdin out b ps p qs h
start-finish (spawned p) (err e) stdin out b ps h = refl
start-finish not_there later stdin out b ps h = refl
start-finish spawn_failed later stdin out b ps h = refl

module _ (popen : List Text → Spawned) (in_time : List (List Text) → Bytes → Bool) where
  -- Fused stages: if the first stages run for themselves give `out`, then the pipeline with further
  -- stages behind them gives, or raises, what the further stages do with `out` as their stdin, when
  -- both end before the timeout.
  pub run_bash_chain-append :
      (first : List (List Text)) (argv : List Text) (argvs : List (List Text)) (stdin out : Bytes)
      → run_bash_chain popen in_time first stdin ≡ ok out
      → in_time (first ++ argv ∷ argvs) stdin ≡ true
      → in_time (argv ∷ argvs) out ≡ true
      → run_bash_chain popen in_time (first ++ argv ∷ argvs) stdin
        ≡ run_bash_chain popen in_time (argv ∷ argvs) out
  unfolding run_bash_chain start_all
  run_bash_chain-append first argv argvs stdin out h both second =
      let (ps, started, finished) =
        >>=-eq-ok (start_all popen first) (finish (in_time first stdin) stdin) h in
      rw (both, second, start_all-append popen first (argv ∷ argvs) ps started)
        (start-finish (popen argv) (start_all popen argvs) stdin out (in_time first stdin) ps
          finished)
