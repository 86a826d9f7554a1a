-- ===== src/Scheduler/Tests.antt =====
-- The result on the scheduler, applied to a concrete history.
use tts_studio.Base.{◌≡◌, refl, some, List, [], ◌∷◌}
use tts_studio.Base.Table.{select, update}
use tts_studio.Scheduler.{
  Task, task_key, Event, submits, task_ends, callback, open_scheduler, is_live, run, track,
}
use tts_studio.Scheduler.Live.{run-one_task}

abbrev first : Task
first = record { job = "a"; number = 0 }

abbrev second : Task
second = record { job = "a"; number = 1 }

-- The second submission replaces a task that has ended; the first task's callback comes too late to
-- discard the new one.
abbrev events : List Event
events = submits "a" ∷ submits "a" ∷ task_ends first ∷ submits "a" ∷ callback first ∷ []

run-one_task_example :
    (second ≡ second) × (select task_key "a" (run open_scheduler events).tasks ≡ some second)
unfolding run is_live select update track
run-one_task_example = run-one_task events second second refl refl refl
