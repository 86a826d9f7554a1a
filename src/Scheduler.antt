-- ===== src/Scheduler.antt =====
-- src/tts_studio/generation/scheduler.py: one asyncio task for each durable Generation Job. A task
-- is its job and a number; the event loop ends a live task and later runs its callback.
pub mod Live
mod Tests
use tts_studio.Base.{
  ℕ, ◌+◌, String, Bool, true, false, not, ◌&&◌, ◌||◌, Option, none, some, List, [], ◌∷◌, ◌++◌, ◌==◌,
  str_eq, is_some, length, if◌then◌else◌,
}
use tts_studio.Base.Exec.{
  Result, ok, err, Exec, pure, gets, raise_if, modify, ◌>>=◌, ◌>>◌, runtime_error,
}
use tts_studio.Base.Table.{select, update, delete}

pub record Task : Type 0 where
  pub job : String
  pub number : ℕ

abbrev pub task_key : Task → String
task_key t = t.job

abbrev pub same_task : Task → Task → Bool
same_task t u = str_eq t.job u.job && t.number == u.number

-- `tasks` is the dictionary by job; `live` are the tasks that are not done.
pub record Scheduler : Type 0 where
  pub closed : Bool
  pub tasks : List Task
  pub live : List Task
  pub next_number : ℕ

abbrev pub open_scheduler : Scheduler
open_scheduler = record { closed = false; tasks = []; live = []; next_number = 0 }

unfoldable pub is_live : Task → List Task → Bool
is_live t [] = false
is_live t (u ∷ us) = same_task u t || is_live t us

abbrev pub renumber : Task → Task → Task
renumber t u = record u { number = t.number }

-- `self._tasks[job_id] = task`.
unfoldable pub track : Task → List Task → List Task
track t ts =
    if is_some (select task_key t.job ts)
    then update task_key t.job (renumber t) ts
    else ts ++ t ∷ []

-- `job_id in self._tasks and not self._tasks[job_id].done()`.
abbrev pub is_busy : String → Scheduler → Bool
is_busy job s = elim (select task_key job s.tasks) [ none ↦ false | some t ↦ is_live t s.live ]

abbrev pub new_task : String → Scheduler → Task
new_task job s = record { job = job; number = s.next_number }

unfoldable pub submit : String → Exec Scheduler (Unit {0})
submit job = do
  closed ← gets (λ s. s.closed)
  raise_if closed runtime_error
  busy ← gets (is_busy job)
  if busy
      then pure tt
      else modify (λ s. record s {
        tasks = track (new_task job s) s.tasks;
        live = new_task job s ∷ s.live;
        next_number = s.next_number + 1;
      })

unfoldable pub tracked_count : Scheduler → ℕ
tracked_count s = length s.tasks

unfoldable pub without : Task → List Task → List Task
without t [] = []
without t (u ∷ us) = let rest = without t us in if same_task u t then rest else u ∷ rest

-- The event loop ends a task.
unfoldable pub ends : Task → Scheduler → Scheduler
unfolding without
ends t s = record s { live = without t s.live }

-- `self._tasks.get(job_id) is task`.
abbrev pub holds : Task → List Task → Bool
holds t ts = elim (select task_key t.job ts) [ none ↦ false | some u ↦ same_task u t ]

-- `_discard_done`, which the event loop calls for a task that is done.
unfoldable pub discard_done : Task → Scheduler → Scheduler
discard_done t s = if holds t s.tasks then record s { tasks = delete task_key t.job s.tasks } else s

-- `task.cancel()` and `gather`: every live task that is tracked has ended.
unfoldable pub end_tracked : List Task → List Task → List Task
unfolding without
end_tracked [] live = live
end_tracked (t ∷ ts) live = end_tracked ts (without t live)

unfoldable pub close : Scheduler → Scheduler
unfolding end_tracked
close s = record s { closed = true; live = end_tracked s.tasks s.live }

-- What can happen, in the order in which the event loop does it. A callback is run of a task that is
-- done.
pub data Event : Type 0 where
  submits : String → Event
  task_ends : Task → Event
  callback : Task → Event
  closes : Event

unfoldable pub step : Scheduler → Event → Scheduler
unfolding submit ends discard_done close
step s (submits job) = (submit job s).1
step s (task_ends t) = ends t s
step s (callback t) = if is_live t s.live then s else discard_done t s
step s closes = close s

unfoldable pub run : Scheduler → List Event → Scheduler
unfolding step
run s [] = s
run s (e ∷ es) = run (step s e) es
