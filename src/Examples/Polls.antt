-- ===== src/Examples/Polls.antt =====
-- A task that is polled, and two commands of a process pipeline.
use seekbase.Base.{
  ◌≡◌, refl, Text, codes, List, [], ◌∷◌, Bool, true, false, same, if◌then◌else◌, none, some, arith,
  ok,
}
use seekbase.Tasks.Record.{Task}
use seekbase.Tasks.Wait.{wait, poll, wait-settles}
use seekbase.Tasks.Drive.{raised, once, working, drive, new_task, pending}
use seekbase.Tasks.Life.{is_settled}
use seekbase.Streams.Reader.{Bytes}
use seekbase.Store.Chain.{
  exited, Spawned, spawned, not_there, start_all, communicate, finish, run_bash_chain,
}
use seekbase.Store.Fused.{run_bash_chain-append}
use seekbase.Examples.{id, empty_log, id-IsDated, some_id}

-- The work is cancelled, and a poll comes behind each line.
wait-settles_example :
    (t : Task) × (wait
        (poll id
          (new_task id (codes "query") pending none (codes "now"))
          (drive
            (codes "later")
            false
            (new_task id (codes "query") pending none (codes "now"))
            (raised (codes "no"))
            (working once))
          empty_log
          (λ n. n))
        3
        0
      ≡ some (ok t))
    × (is_settled t.state ≡ true)
wait-settles_example =
    wait-settles id (codes "query") none (codes "now") (codes "later") (raised (codes "no"))
      (working once) empty_log (λ n. n) 2 id-IsDated some_id refl (unfold drive in omega arith)

-- `cat` is the one command that is there.
abbrev popen : List Text → Spawned
popen [] = not_there
popen (name ∷ arguments) =
    if same name (codes "cat") then spawned (λ b. (b, exited 0)) else not_there

abbrev in_time : List (List Text) → Bytes → Bool
in_time argvs stdin = true

abbrev cat : List Text
cat = codes "cat" ∷ []

one_cat : run_bash_chain popen in_time (cat ∷ []) (codes "[1]") ≡ ok (codes "[1]")
unfolding run_bash_chain start_all communicate finish same
one_cat = refl

run_bash_chain-append_example :
    run_bash_chain popen in_time (cat ∷ cat ∷ []) (codes "[1]")
    ≡ run_bash_chain popen in_time (cat ∷ []) (codes "[1]")
run_bash_chain-append_example =
    run_bash_chain-append popen in_time (cat ∷ []) cat [] (codes "[1]") (codes "[1]") one_cat refl
      refl
