-- ===== src/Generation/Finished.antt =====
-- `_run_job` as a whole: whatever it is answered, it does not leave its job under way.
use mathlib.Core.Path.{subst}
use tts_studio.Base.{
  String, Bool, if◌then◌else◌, ◌≡◌, refl, sym, ap, ◌∙◌, true, false, not, ◌&&◌, some, arith, inl,
  inr, ◌⊎◌, Bool-cases,
}
use tts_studio.Base.Exec.{
  pure, Error, Result, ok, err, generation_cancelled, cancelled_error, continue,
}
use tts_studio.Base.Outcomes.{Ends, bind-Ends}
use tts_studio.Events.Text.{TextRules}
use tts_studio.Models.Installations.{Numbers}
use tts_studio.Audio.Pcm.{Validator}
use tts_studio.Registry.Domain.{
  GenerationJob, GenerationState, queued, completed, is_terminal, is_cancellable,
}
use tts_studio.Generation.State.{Core, cancel_job}
use tts_studio.Generation.Run.{Answers, Task, in_core, begun}
use tts_studio.Generation.Ending.{
  reads_job, verdict_for, Verdict, finished, is_pending, failing, escapes, is_cancelling,
  verdict_of, attempt_job, judge, clean_up, record_end, finish, run_job,
}
use tts_studio.Generation.Kept.{state_at, get_found}
use tts_studio.Generation.Steps.{At, Failed, is_settled}
use tts_studio.Generation.Pieces.{AreFair, get_kept}
use tts_studio.Generation.Finals.{generate-Ends}
use tts_studio.Generation.Ends.{HasEnded, fits, fail_ends, cancel_ends}
use tts_studio.Generation.Cleaned.{clean-Ends, Cut}
use tts_studio.Generation.Ending.{clean_steps, close_task, end_pcm, begin, judged}
use tts_studio.Generation.Run.{generate}
use tts_studio.Generation.Pcm.{discard}

then_same : {A : Type 0} (r : Result A × Core) → (continue r λ x. pure tt).1 ≡ r.1
then_same (ok x, c) = refl
then_same (err e, c) = refl

module _ (k : String) where
  only_cut : (st : GenerationState) (x : Error) → fits k st (escapes x) ≡ true → x ≡ cancelled_error
  only_cut st x h = ground arith

  read_fits :
      (st : GenerationState) (b : Bool) (j : GenerationJob) (e : Error)
      → j.state ≡ st
      → (b ≡ true → is_cancellable st ≡ true)
      → (e ≡ generation_cancelled → is_settled k st ≡ true)
      → reads_job e ≡ true
      → fits k st (verdict_for b (is_terminal j.state) e) ≡ true
  unfolding verdict_for reads_job
  read_fits st b j e s c h r = ground arith

  other_fits :
      (st : GenerationState) (e : Error)
      → (e ≡ generation_cancelled → is_settled k st ≡ true)
      → reads_job e ≡ false
      → fits k st (verdict_for false false e) ≡ true
  unfolding verdict_for reads_job
  other_fits st e h r = ground arith

  module _ (st : GenerationState) (t : Task) (at : At k st t) where
    -- What the handlers read of the job.
    cancelling_found :
        (j : GenerationJob) × (b : Bool) × (is_cancelling k t ≡ (ok (j, b), t))
        × (j.state ≡ st)
        × (b ≡ true → is_cancellable st ≡ true)
    unfolding is_cancelling in_core
    cancelling_found =
        let (j, e, s, i) = get_found k st t.core at in
        let b = not t.core.closing && j.cancellation_requested && is_cancellable j.state in
        (j, b, rw e refl, s, ground arith)

    verdict_fits :
        (e : Error)
        → (e ≡ generation_cancelled → is_settled k st ≡ true)
        → (v : Verdict) × (verdict_of k e t ≡ (ok v, t)) × (fits k st v ≡ true)
    unfolding verdict_of
    verdict_fits e h =
        let (j, b, f, s, c) = cancelling_found in
        elim (Bool-cases (reads_job e)) [
          | inl r ↦
              (verdict_for b (is_terminal j.state) e, rw r (rw f refl), read_fits st b j e s c h r)
          | inr r ↦ (verdict_for false false e, rw r refl, other_fits st e h r)
        ]

  -- A task that stands with a verdict that fits its job.
  abbrev Stands : Verdict × Task → Type 0
  Stands r = (st : GenerationState) × (At k st r.1) × (fits k st r.0 ≡ true)

  abbrev as_verdict : Bool → Verdict
  as_verdict b = if b then is_pending else finished

  module _ (numbers : Numbers) (rules : TextRules) (v : Validator) (a : Answers)
      (fair : AreFair k a) where
    begin-Ends :
        (j : GenerationJob) (t : Task)
        → j.id ≡ k
        → At k queued t
        → Ends (λ b s. Stands (as_verdict b, s)) (Failed k) (begin numbers rules v a j t)
    unfolding begin
    begin-Ends j t i at =
        bind-Ends (λ x s. At k completed s) (λ b s. Stands (as_verdict b, s)) (Failed k)
          (generate numbers rules v a j) (λ x. pure false) t
          (generate-Ends k numbers rules v a j i t fair at) (λ x s at. (completed, at, refl))

    try-Ends :
        (t : Task)
        → At k queued t
        → Ends (λ b s. Stands (as_verdict b, s)) (Failed k) (attempt_job numbers rules v a k t)
    unfolding attempt_job in_core
    try-Ends t at =
        let (j, e, s, i) = get_found k queued t.core at in
        elim (Bool-cases j.cancellation_requested) [
          | inl c ↦ rw e (rw c (queued, at, refl))
          | inr c ↦ rw e (rw c (begin-Ends j t i at))
        ]

    judge-Stands :
        (r : Result Bool × Task)
        → Ends (λ b s. Stands (as_verdict b, s)) (Failed k) r
        → Stands (judge numbers rules v a k r)
    unfolding judge judged
    judge-Stands (ok true, s) h = h
    judge-Stands (ok false, s) h = h
    judge-Stands (err e, s) (st, at, plain) =
        let (w, p, f) = verdict_fits st s at e plain in rw p (st, at, f)

    -- The end of a job is recorded, unless the task is cut short.
    recorded :
        (is_failed : Bool) (w : Verdict) (c : Core) (st : GenerationState)
        → state_at k c.db ≡ some st
        → fits k st w ≡ true
        → ((is_failed ≡ false) × (w ≡ escapes cancelled_error))
          ⊎ HasEnded k (record_end numbers rules v a k is_failed w c).1
    unfolding record_end
    recorded true w c st at f =
        let (j, e, s, i) = get_found k st c at in
        inr (
          rw e (
            fail_ends k rules c st at j (sym i) s "cleanup_failed"
              "Generation cleanup failed; restart Core to retry cleanup." false))
    recorded false (failing code message retryable) c st at f =
        let (j, e, s, i) = get_found k st c at in
        inr (rw e (fail_ends k rules c st at j (sym i) s code message retryable))
    recorded false is_pending c st at f =
        let (j, e, s, i) = get_found k st c at in
        inr (
          rw e (
            subst (HasEnded k) (sym (then_same (cancel_job rules j c)))
              (cancel_ends k rules c st at j (sym i) s f)))
    recorded false finished c st at f = inr (st, at, f)
    recorded false (escapes x) c st at f = inl (refl, ap escapes (only_cut st x f))

    end_pcm_kept : (c : Core) → (end_pcm numbers rules v a k c).1.db ≡ c.db
    unfolding end_pcm
    end_pcm_kept c = let q = get_kept k k c in ground (arith, q)

    finish_kept :
        (is_failed : Bool) (w : Verdict) (c : Core)
        → (finish numbers rules v a k is_failed w c).1.db
          ≡ (record_end numbers rules v a k is_failed w c).1.db
    unfolding finish
    finish_kept is_failed w c =
        let q = end_pcm_kept (record_end numbers rules v a k is_failed w c).1 in ground (arith, q)

    finish_cut :
        (c : Core) (st : GenerationState)
        → state_at k c.db ≡ some st
        → (finish numbers rules v a k false (escapes cancelled_error) c).0 ≡ err cancelled_error
    unfolding finish record_end end_pcm
    finish_cut c st at = let (j, e, s, i) = get_found k st c at in rw e refl

    -- What a run comes to.
    abbrev HasSettled : Result (Unit {0}) × Core → Type 0
    HasSettled r = (r.0 ≡ err cancelled_error) ⊎ HasEnded k r.1

    abbrev core_of : Result (Unit {0}) × Task → Result (Unit {0}) × Core
    core_of r = (r.0, r.1.core)

    finished_settles :
        (is_failed : Bool) (w : Verdict) (st : GenerationState) (t : Task)
        → At k st t
        → fits k st w ≡ true
        → HasSettled (core_of (in_core (finish numbers rules v a k is_failed w) t))
    unfolding in_core
    finished_settles is_failed w st t at f = elim (recorded is_failed w t.core st at f) [
      | inl (p, q) ↦ inl (
          subst (λ b. (finish numbers rules v a k b w t.core).0 ≡ err cancelled_error) (sym p)
            (subst (λ w. (finish numbers rules v a k false w t.core).0 ≡ err cancelled_error)
              (sym q) (finish_cut t.core st at)))
      | inr (st', ended, e) ↦ inr (st', ap (state_at k) (finish_kept is_failed w t.core) ∙ ended, e)
    ]

    steps_settle :
        (w : Verdict) (st : GenerationState) (r : Result Bool × Task)
        → fits k st w ≡ true
        → Ends (λ b s. At k st s) (Cut k st) r
        → HasSettled (core_of (continue r λ b. in_core (finish numbers rules v a k b w)))
    steps_settle w st (ok b, t) f at = finished_settles b w st t at f
    steps_settle w st (err e, t) f (at, cut) = inl (ap err cut)

    close_settles :
        (w : Verdict) (st : GenerationState) (t : Task)
        → At k st t
        → fits k st w ≡ true
        → HasSettled (core_of (close_task numbers rules v a k (w, t)))
    unfolding close_task clean_up in_core
    close_settles w st t at f =
        let s = record t { core = record t.core { streams = discard k t.core.streams } } in
        steps_settle w st (clean_steps numbers rules v a k s) f
          (clean-Ends k st numbers rules v a s fair.4 fair.5 at)

  module _ (numbers : Numbers) (rules : TextRules) (v : Validator) (a : Answers) where
    -- If the job is queued when its task starts, no other task moves it while the task awaits, and
    -- neither the files nor the reference service answer as a cancelled stream does, then the job is
    -- completed, cancelled or failed when the task is over, whatever the Worker, the files and the
    -- stores have answered or raised, unless the task itself was cancelled.
    pub run_job-ends :
        (c : Core)
        → AreFair k a
        → state_at k c.db ≡ some queued
        → ((run_job numbers rules v a k c).0 ≡ err cancelled_error)
          ⊎ HasEnded k (run_job numbers rules v a k c).1
    unfolding run_job
    run_job-ends c fair at =
        let (st, stands, f) =
          judge-Stands numbers rules v a fair (attempt_job numbers rules v a k (begun c))
            (try-Ends numbers rules v a fair (begun c) at) in
        let r = judge numbers rules v a k (attempt_job numbers rules v a k (begun c)) in
        close_settles numbers rules v a fair r.0 st r.1 stands f
