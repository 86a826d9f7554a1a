-- ===== src/Generation/Ends.antt =====
-- `_run_job` as a whole: whatever it is answered, it does not leave its job under way.
use mathlib.Core.Path.{subst}
use tts_studio.Base.{
  String, Bool, ◌≡◌, ◌≢◌, refl, ap, ◌∙◌, true, false, some, arith, inl, inr, Bool-cases,
}
use tts_studio.Base.Exec.{
  transaction, pure, Error, Result, ok, err, Exec, generation_cancelled, cancelled_error, ◌>>◌,
  continue,
}
use tts_studio.Base.Outcomes.{Ends}
use tts_studio.Base.Json.{end, finite_json, finite_fields}
use tts_studio.Events.Text.{TextRules}
use tts_studio.Registry.Domain.{
  GenerationJob, GenerationState, cancelled, failed, Db, is_terminal, may_move,
}
use tts_studio.Registry.Jobs.{transition_job, is_resolution}
use tts_studio.Generation.State.{
  Core, on_db, fail_job, cancel_job, error_of, with_error, may_retry, publish,
}
use tts_studio.Generation.Ending.{Verdict, finished, is_pending, failing, escapes}
use tts_studio.Generation.Kept.{state_at, job_in_state, publish_kept, transition_state, row_state}
use tts_studio.Generation.Steps.{is_settled}

module _ (k : String) where
  -- The job with the id is in a state that it does not leave.
  abbrev pub HasEnded : Core → Type 0
  HasEnded c = (st : GenerationState) × (state_at k c.db ≡ some st) × (is_terminal st ≡ true)

  -- What a verdict promises of the state of the job.
  abbrev pub fits : GenerationState → Verdict → Bool
  fits st finished = is_terminal st
  fits st is_pending = is_settled k st
  fits st (failing code message retryable) = true
  fits st (escapes cancelled_error) = true
  fits st (escapes e) = false

  -- A transition to an end that the state machine allows is never refused.
  never_refused :
      (now code message : String) (retryable : Bool) (st st' : GenerationState) (db : Db)
      (x : Error)
      → state_at k db ≡ some st
      → may_move st st' ≡ true
      → is_resolution st' ≡ true
      → (transition_job now k st' (with_error (error_of code message retryable)) db).0 ≢ err x
  unfolding transition_job transaction finite_fields finite_json
  never_refused now code message retryable st st' db x at m e h =
      let p = with_error (error_of code message retryable) in
      let (j, f, s, i) = job_in_state k db st at in
      let (j', g, _) = row_state k st now st' p db j f in ground arith

  after_end :
      (st' : GenerationState) (c : Core) (r : Result GenerationJob × Db) (st : GenerationState)
      {A : Type 0} (f : GenerationJob → Exec Core A)
      → Ends
          (λ j db. (state_at k db ≡ some st') × (j.id ≡ k) × (j.state ≡ st'))
          (λ e db. (state_at k db ≡ some st) × (e ≢ generation_cancelled))
          r
      → ((x : Error) → r.0 ≢ err x)
      → ((j : GenerationJob) (c : Core) → (f j c).1.db ≡ c.db)
      → state_at k (continue (r.0, record c { db = r.1 }) f).1.db ≡ some st'
  after_end st' c (ok j, db) st f (at, _, _) ok_only keeps =
      ap (state_at k) (keeps j (record c { db = db })) ∙ at
  after_end st' c (err e, db) st f h ok_only keeps = absurd (ok_only e refl)

  may_fail : (st : GenerationState) → is_terminal st ≡ false → may_move st failed ≡ true
  unfolding may_move
  may_fail st h = ground arith

  may_cancel :
      (st : GenerationState)
      → is_settled k st ≡ true
      → is_terminal st ≡ false
      → may_move st cancelled ≡ true
  unfolding may_move
  may_cancel st s h = ground arith

  -- What `_cancel_job` does after its transition.
  abbrev announced : TextRules → GenerationJob → Exec Core GenerationJob
  announced rules ended =
      publish rules "generation.cancelled" ended "Generation was cancelled." ended.error end
      >> pure ended

  announced_kept :
      (rules : TextRules) (j : GenerationJob) (c : Core) → (announced rules j c).1.db ≡ c.db
  announced_kept rules j c =
      let p =
        publish_kept k rules "generation.cancelled" "Generation was cancelled." j j.error end c in
      ground (arith, p)

  module _ (rules : TextRules) (c : Core) (st : GenerationState) (at : state_at k c.db ≡ some st)
      (j : GenerationJob) (i : k ≡ j.id) (s : j.state ≡ st) where
    pub fail_ends :
        (code message : String) (retryable : Bool)
        → HasEnded (fail_job rules j code message retryable c).1
    unfolding fail_job on_db
    fail_ends code message retryable = elim (Bool-cases (is_terminal j.state)) [
      | inl e ↦ rw e (st, at, subst (λ x. is_terminal x ≡ true) s e)
      | inr e ↦
          let now = c.now in
          let again = may_retry rules c.closing j code retryable in
          let p = with_error (error_of code message again) in
          let open_still = subst (λ x. is_terminal x ≡ false) s e in
          rw e (
            failed,
            subst
                (λ x.
                  state_at k
                    (continue
                      (
                        (transition_job now x failed p c.db).0,
                        record c { db = (transition_job now x failed p c.db).1 },
                      )
                      λ ended.
                        publish rules "generation.failed" ended "Generation failed." ended.error
                          end).1.db
                  ≡ some failed)
                i
                (after_end failed c (transition_job now k failed p c.db) st
                  (λ ended.
                    publish rules "generation.failed" ended "Generation failed." ended.error end)
                  (transition_state k st now failed p c.db at)
                  (λ x.
                    never_refused now code message again st failed c.db x at
                      (may_fail st open_still) refl)
                  (λ ended d.
                    publish_kept k rules "generation.failed" "Generation failed." ended ended.error
                      end d)),
            refl,
          )
    ]

    pub cancel_ends : is_settled k st ≡ true → HasEnded (cancel_job rules j c).1
    unfolding cancel_job on_db
    cancel_ends settled = elim (Bool-cases (is_terminal j.state)) [
      | inl e ↦ rw e (st, at, subst (λ x. is_terminal x ≡ true) s e)
      | inr e ↦
          let now = c.now in
          let code : String = "generation_cancelled" in
          let message : String = "Generation was cancelled." in
          let p = with_error (error_of code message false) in
          let open_still = subst (λ x. is_terminal x ≡ false) s e in
          rw e (
            cancelled,
            subst
                (λ x.
                  state_at k
                    (continue
                      (
                        (transition_job now x cancelled p c.db).0,
                        record c { db = (transition_job now x cancelled p c.db).1 },
                      )
                      (announced rules)).1.db
                  ≡ some cancelled)
                i
                (after_end cancelled c (transition_job now k cancelled p c.db) st (announced rules)
                  (transition_state k st now cancelled p c.db at)
                  (λ x.
                    never_refused now code message false st cancelled c.db x at
                      (may_cancel st settled open_still) refl)
                  (announced_kept rules)),
            refl,
          )
    ]
