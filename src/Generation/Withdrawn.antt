-- ===== src/Generation/Withdrawn.antt =====
-- What becomes of a job of `create` that the scheduler refuses.
use mathlib.Core.Path.{subst}
use tts_studio.Base.{
  String, Bool, ◌≡◌, refl, sym, ap, ◌∙◌, true, false, Option, none, some, arith, is_some,
}
use tts_studio.Base.Exec.{Error, Result, ok, err, Exec, continue, pure, raise, transaction}
use text.Mathlib.TextPositions.{eq_refl}
use tts_studio.Base.Table.{select-update}
use tts_studio.Base.Json.{end}
use tts_studio.Events.Text.{TextRules}
use tts_studio.Models.Installations.{Numbers}
use tts_studio.Registry.Domain.{GenerationJob, GenerationState, queued, Db, job_key}
use tts_studio.Registry.Jobs.{cleared_reference, clear_reference_id}
use tts_studio.Generation.State.{
  Core, ReferenceHandle, release_reference, on_db, on_store, publish, fail_job,
}
use tts_studio.Generation.Ends.{HasEnded, fail_ends}
use tts_studio.Generation.Kept.{cleared_kept, job_in_state, state_at, publish_kept}
use tts_studio.Generation.Run.{drop_handle}
use tts_studio.Generation.Create.{
  Request, Answers, schedule, withdraw, release, not_scheduled, clear_given, keep_handle,
}

module _ (numbers : Numbers) (rules : TextRules) (a : Answers) (r : Request) where
  keep_handle_db :
      (h : Option ReferenceHandle) (k : String) (c : Core)
      → (keep_handle numbers rules a k h c).db ≡ c.db
  keep_handle_db none k c = refl
  keep_handle_db (some h) k c = refl

  then_raised :
      {A : Type 0} (q : Result A × Core) (x : Error)
      → (continue q λ u. raise {A = GenerationJob} x).1 ≡ q.1
  then_raised (ok u, c) x = refl
  then_raised (err e, c) x = refl

  -- The row that `clear_reference_id` gives back.
  cleared_row :
      (now k : String) (st : GenerationState) (db : Db)
      → state_at k db ≡ some st
      → (j : GenerationJob) × ((clear_reference_id now k db).0 ≡ ok j) × (j.id ≡ k) × (j.state ≡ st)
  unfolding clear_reference_id transaction
  cleared_row now k st db at =
      let (j, e, s, i) = job_in_state k db st at in
      let u = select-update job_key k k (cleared_reference now) db.jobs (λ j. refl) in
      let q = eq_refl k in (cleared_reference now j, ground arith, i, s)

  module _ (k : String) (j : GenerationJob) (i : k ≡ j.id) (s : j.state ≡ queued) where
    -- The job as it is when its reference has been cleared.
    abbrev Cleared : Bool → Core → Type 0
    Cleared b c =
        (j' : GenerationJob) × (c' : Core) × (clear_given numbers rules a b j c ≡ (ok j', c'))
        × (state_at k c'.db ≡ some queued)
        × (k ≡ j'.id)
        × (j'.state ≡ queued)

    cleared : (b : Bool) (c : Core) → state_at k c.db ≡ some queued → Cleared b c
    unfolding clear_given on_db
    cleared false c at = (j, c, refl, at, i, s)
    cleared true c at =
        let (j', e, n, q) = cleared_row c.now k queued c.db at in
        let found : (clear_reference_id c.now j.id c.db).0 ≡ ok j' =
          subst (λ x. (clear_reference_id c.now x c.db).0 ≡ ok j') i e in
        (
          j',
          record c { db = (clear_reference_id c.now j.id c.db).1 },
          rw found refl,
          cleared_kept k c.now j.id c.db ∙ at,
          sym n,
          q,
        )

    not_scheduled-HasEnded :
        (c : Core)
        → state_at k c.db ≡ some queued
        → HasEnded k (not_scheduled numbers rules a r j c).1
    unfolding not_scheduled
    not_scheduled-HasEnded c at =
        let (j', c', e, f, n, q) = cleared (is_some r.reference_id) c at in
        rw e (
          fail_ends k rules c' queued f j' n q "scheduler_failed"
            "Generation could not be scheduled." false)

    withdraw-HasEnded :
        (h : Option ReferenceHandle) (x : Error) (c : Core) (b : Bool)
        → release numbers rules a h (drop_handle j.id c) ≡ ok b
        → state_at k c.db ≡ some queued
        → HasEnded k (withdraw numbers rules a r j h x c).1
    unfolding withdraw
    withdraw-HasEnded h x c true q at =
        let d = drop_handle j.id c in
        rw q (
          subst (HasEnded k) (sym (then_raised (not_scheduled numbers rules a r j d) x))
            (not_scheduled-HasEnded d at))
    withdraw-HasEnded h x c false q at =
        let d = drop_handle j.id c in
        let code : String = "cleanup_failed" in
        let message : String = "Generation cleanup failed; restart Core to retry cleanup." in
        rw q (
          subst (HasEnded k) (sym (then_raised (fail_job rules j code message false d) x))
            (fail_ends k rules d queued at j i s code message false))

    same_service :
        (h : Option ReferenceHandle) (c : Core)
        → (publish rules "generation.queued" j "Generation was queued." none end
            (keep_handle numbers rules a j.id h c)).1.has_references
          ≡ c.has_references
    unfolding publish on_store
    same_service none c = ground arith
    same_service (some h) c = ground arith

    told_then :
        (q : Result (Unit {0}) × Core) (m : Exec Core GenerationJob)
        → q.0 ≡ ok tt
        → HasEnded k (m q.1).1
        → HasEnded k (continue q λ u. m).1
    told_then (ok u, c) m e h = h
    told_then (err x, c) m e h = absurd (ground arith)

    -- If the scheduler refuses a queued job that `create` has stored, its event is stored and the
    -- release of its reference does not raise, then the job has failed, been cancelled or completed
    -- when `create` raises: it is not left queued.
    pub schedule-HasEnded :
        (h : Option ReferenceHandle) (x : Error) (c : Core) (b : Bool)
        → a.submit ≡ err x
        → state_at k c.db ≡ some queued
        → (publish rules "generation.queued" j "Generation was queued." none end
            (keep_handle numbers rules a j.id h c)).0
          ≡ ok tt
        → release_reference c.has_references h a.release ≡ ok b
        → HasEnded k (schedule numbers rules a r j h c).1
    unfolding schedule release
    schedule-HasEnded h x c b refused at told released =
        let kept = keep_handle numbers rules a j.id h c in
        let name : String = "generation.queued" in
        let message : String = "Generation was queued." in
        let c₁ = (publish rules name j message none end kept).1 in
        let db = publish_kept k rules name message j none end kept ∙ keep_handle_db h j.id c in
        told_then (publish rules name j message none end kept)
          (elim a.submit [ ok u ↦ pure j | err e ↦ withdraw numbers rules a r j h e ]) told
          (rw refused (
            withdraw-HasEnded h x c₁ b
              (subst (λ y. release_reference y h a.release ≡ ok b) (sym (same_service h c))
                released)
              (ap (state_at k) db ∙ at)))
