-- ===== src/Examples/Workers.antt =====
-- The write worker with two operations.
use seekbase.Base.{ℕ, ◌≡◌, refl, Text, codes, [], ◌∷◌, some, map}
use mathlib.Core.List.{Perm}
use seekbase.Tasks.Log.{Log}
use seekbase.Write.Worker.{
  Job, busy, finished, Worker, submit, close, drain, take_batch, end_batch, new_worker, Served,
  started, submitted, took, worked, Runs,
}
use seekbase.Write.Serial.{Serial, Served-Serial, told, answered, run_jobs, jobs_in}
use seekbase.Write.Closing.{close-abandons, close-answers}
use seekbase.Admin.Reached.{empty_engine}
use seekbase.Examples.{schema, insert_one, delete_all, first_day, second_day}

abbrev first_job : Job
first_job = record { future = 0; world = first_day; op = insert_one }

abbrev second_job : Job
second_job = record { future = 1; world = second_day; op = delete_all }

abbrev no_log : Log
no_log name = []

abbrev fresh : Worker
fresh = new_worker empty_engine no_log

abbrev now : Text
now = codes "20240102T00:00:00"

abbrev ids : ℕ → Text
ids n = codes "t_20240102_x"

abbrev queued : Worker
queued = submit second_job (submit first_job fresh)

queued-Served : Served schema fresh (first_job ∷ second_job ∷ []) queued
queued-Served =
    submitted (first_job ∷ []) (submit first_job fresh) second_job
      (submitted [] fresh first_job started)

abbrev working : Worker
working = take_batch (some first_job) (some second_job ∷ []) queued

abbrev ended : Worker
ended = end_batch schema now ids (first_job ∷ second_job ∷ []) working

ended-Served : Served schema fresh (first_job ∷ second_job ∷ []) ended
ended-Served =
    worked (first_job ∷ second_job ∷ []) working (first_job ∷ second_job ∷ []) now ids
      (took (first_job ∷ second_job ∷ []) queued (some first_job) (some second_job ∷ [])
        queued-Served (unfold submit in refl) (unfold submit in refl))
      (unfold take_batch drain in refl)

Served-Serial_example : Serial schema empty_engine (first_job ∷ second_job ∷ []) ended
Served-Serial_example =
    Served-Serial schema empty_engine no_log (first_job ∷ second_job ∷ []) ended ended-Served

abbrev one_working : Worker
one_working = record fresh { phase = busy (first_job ∷ []) }

abbrev abandoned : Worker
abandoned = end_batch schema now ids (first_job ∷ []) (close (submit second_job one_working))

close-abandons_example :
    (jobs_in abandoned.queue ≡ second_job ∷ [])
    × (abandoned.phase ≡ finished)
    × (abandoned.answers ≡ (end_batch schema now ids (first_job ∷ []) one_working).answers)
close-abandons_example =
    close-abandons schema one_working (first_job ∷ []) second_job now ids [] abandoned refl refl
      started

close-answers_example :
    (last : Worker) × Runs schema (close queued) last
    × (last.phase ≡ finished)
    × Perm (map told last.answers) (
        answered
          (first_job ∷ second_job ∷ [])
          (run_jobs schema (first_job ∷ second_job ∷ []) empty_engine).0)
close-answers_example =
    close-answers schema empty_engine no_log (first_job ∷ second_job ∷ []) queued now ids
      queued-Served (unfold submit in refl) (unfold submit in refl)
