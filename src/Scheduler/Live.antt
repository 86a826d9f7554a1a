-- ===== src/Scheduler/Live.antt =====
-- No two live tasks of one job.
use text.Mathlib.TextPositions.{eq_refl}
use tts_studio.Base.{
  ◌≡◌, refl, String, true, false, none, some, List, [], ◌∷◌, arith, eq_iff, str_eq, Bool-cases,
  if-true, if-false, Option-cases, inl, inr, ap, ◌∙◌, sym, ◌⊎◌, ◌+◌,
}
use mathlib.Core.Option.{some-injective}
use mathlib.Core.Path.{subst}
use tts_studio.Base.Table.{select, delete, select-update, select-append, select-delete, key-select}
use tts_studio.Scheduler.{
  Task, Scheduler, task_key, same_task, is_live, track, is_busy, renumber, new_task, submit,
  without, ends, holds, discard_done, end_tracked, close, Event, submits, task_ends, callback,
  closes, step, run, open_scheduler,
}

same_number : (t u : Task) → u.job ≡ t.job → renumber t u ≡ t
same_number t u h i = record { job = h i; number = t.number }

track_hit :
    (t : Task) (k : String) (ts : List Task)
    → str_eq t.job k ≡ true
    → select task_key k (track t ts) ≡ some t
unfolding track select
track_hit t k ts h = elim (Option-cases (select task_key t.job ts)) [
  | inl e ↦
      rw (e, select-append task_key k ts (t ∷ []))
        (ground (arith, e, h, (eq_iff t.job k).0 h, new_row))
  | inr (u, e) ↦
      rw (e, select-update task_key k t.job (renumber t) ts (λ a. refl))
        (ground
          (arith, e, h, (eq_iff t.job k).0 h, same_number t u (key-select task_key t.job ts e)))
]
  where
    new_row : select task_key k (t ∷ []) ≡ some t
    new_row = rw (select, h)

track_miss :
    (t : Task) (k : String) (ts : List Task)
    → str_eq t.job k ≡ false
    → select task_key k (track t ts) ≡ select task_key k ts
unfolding track select
track_miss t k ts h = ground (
  arith,
  select-append task_key k ts (t ∷ []),
  select-update task_key k t.job (renumber t) ts (λ a. refl),
)

-- Every live task is the one that the dictionary holds for its job.
pub record IsTracked (s : Scheduler) : Type 0 where
  pub held : (t : Task) → is_live t s.live ≡ true → select task_key t.job s.tasks ≡ some t

same_task_sound : (t u : Task) → same_task t u ≡ true → t ≡ u
same_task_sound t u h i = record {
  job = (eq_iff t.job u.job).0 (ground arith) i;
  number = number i;
}
  where
    number : t.number ≡ u.number
    number = ground arith

abbrev added : String → Scheduler → Scheduler
added job s = record s {
  tasks = track (new_task job s) s.tasks;
  live = new_task job s ∷ s.live;
  next_number = s.next_number + 1;
}

submit_cases :
    (job : String) (s : Scheduler)
    → ((submit job s).1 ≡ s) ⊎ ((is_busy job s ≡ false) × ((submit job s).1 ≡ added job s))
unfolding submit
submit_cases job s = ground arith

added_old :
    (job : String) (s : Scheduler) (t : Task)
    → is_busy job s ≡ false
    → is_live t s.live ≡ true
    → select task_key t.job s.tasks ≡ some t
    → select task_key t.job (track (new_task job s) s.tasks) ≡ some t
added_old job s t idle l h = elim (Bool-cases (str_eq job t.job)) [
  | inl e ↦ absurd (ground (arith, (eq_iff job t.job).0 e))
  | inr e ↦ track_miss (new_task job s) t.job s.tasks e ∙ h
]

added-IsTracked :
    (job : String) (s : Scheduler) → IsTracked s → is_busy job s ≡ false → IsTracked (added job s)
unfolding is_live
added-IsTracked job s v idle = record {
  held = λ t l. elim (Bool-cases (same_task (new_task job s) t)) [
    | inl e ↦
        subst (λ x. select task_key x.job (track (new_task job s) s.tasks) ≡ some x)
          (same_task_sound (new_task job s) t e)
          (track_hit (new_task job s) job s.tasks (eq_refl job))
    | inr e ↦
        let old : is_live t s.live ≡ true = ground (arith, l, e) in
        added_old job s t idle old (v.held t old)
  ];
}

submit-IsTracked : (job : String) (s : Scheduler) → IsTracked s → IsTracked (submit job s).1
submit-IsTracked job s v = elim (submit_cases job s) [
  | inl p ↦ subst IsTracked (sym p) v
  | inr (idle, p) ↦ subst IsTracked (sym p) (added-IsTracked job s v idle)
]

is_live-without :
    (t u : Task) (live : List Task) → is_live u (without t live) ≡ true → is_live u live ≡ true
unfolding is_live without
is_live-without t u [] h = h
is_live-without t u (x ∷ live) h = ground (arith, is_live-without t u live)

is_live-end_tracked :
    (ts : List Task) (u : Task) (live : List Task)
    → is_live u (end_tracked ts live) ≡ true
    → is_live u live ≡ true
unfolding end_tracked
is_live-end_tracked [] u live h = h
is_live-end_tracked (t ∷ ts) u live h =
    is_live-without t u live (is_live-end_tracked ts u (without t live) h)

kept :
    (t u : Task) (s : Scheduler)
    → holds t s.tasks ≡ true
    → is_live t s.live ≡ false
    → is_live u s.live ≡ true
    → select task_key u.job s.tasks ≡ some u
    → select task_key u.job (delete task_key t.job s.tasks) ≡ some u
kept t u s h dead l e = elim (Bool-cases (str_eq t.job u.job)) [
  | inl same ↦
      let here : select task_key t.job s.tasks ≡ some u =
        ap (λ k. select task_key k s.tasks) ((eq_iff t.job u.job).0 same) ∙ e in
      let is_same : same_task u t ≡ true = ground (arith, here, h) in
      absurd (ground (arith, ap (λ x. is_live x s.live) (same_task_sound u t is_same)))
  | inr other ↦ select-delete task_key u.job t.job s.tasks ∙ if-false _ none _ other ∙ e
]

-- Only the entry of a task that is done is discarded, so every live task stays tracked.
discard-IsTracked :
    (t : Task) (s : Scheduler)
    → IsTracked s
    → is_live t s.live ≡ false
    → IsTracked (discard_done t s)
unfolding discard_done
discard-IsTracked t s v dead = elim (Bool-cases (holds t s.tasks)) [
  | inl h ↦
      subst IsTracked (sym (if-true (holds t s.tasks) _ s h))
        (record { held = λ u l. kept t u s h dead l (v.held u l) })
  | inr h ↦ subst IsTracked (sym (if-false (holds t s.tasks) _ s h)) v
]

step-IsTracked : (s : Scheduler) (e : Event) → IsTracked s → IsTracked (step s e)
unfolding step ends close
step-IsTracked s (submits job) v = submit-IsTracked job s v
step-IsTracked s (task_ends t) v = record { held = λ u l. v.held u (is_live-without t u s.live l) }
step-IsTracked s (callback t) v = elim (Bool-cases (is_live t s.live)) [
  | inl l ↦ subst IsTracked (sym (if-true (is_live t s.live) s (discard_done t s) l)) v
  | inr l ↦
      subst IsTracked (sym (if-false (is_live t s.live) s (discard_done t s) l))
        (discard-IsTracked t s v l)
]
step-IsTracked s closes v = record {
  held = λ u l. v.held u (is_live-end_tracked s.tasks u s.live l);
}

run-IsTracked : (s : Scheduler) (es : List Event) → IsTracked s → IsTracked (run s es)
unfolding run
run-IsTracked s [] v = v
run-IsTracked s (e ∷ es) v = run-IsTracked (step s e) es (step-IsTracked s e v)

start-IsTracked : IsTracked open_scheduler
unfolding is_live
start-IsTracked = record { held = λ t l. cc }

-- After any events on a new scheduler, two live tasks of the same job are the same task, and it is
-- the one that the dictionary holds.
pub run-one_task :
    (es : List Event) (t u : Task)
    → is_live t (run open_scheduler es).live ≡ true
    → is_live u (run open_scheduler es).live ≡ true
    → t.job ≡ u.job
    → (t ≡ u) × (select task_key t.job (run open_scheduler es).tasks ≡ some t)
run-one_task es t u l k e =
    let v = run-IsTracked open_scheduler es start-IsTracked in
    (
      some-injective t u (
          sym (v.held t l)
          ∙ ap (λ j. select task_key j (run open_scheduler es).tasks) e
          ∙ v.held u k),
      v.held t l,
    )
