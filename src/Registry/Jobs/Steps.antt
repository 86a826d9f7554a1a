-- ===== src/Registry/Jobs/Steps.antt =====
-- Each method on Generation Jobs lets every job of the table live on.
use mathlib.Core.Path.{subst}
use tts_studio.Base.{
  String, ◌≡◌, refl, ap, ◌≤◌, true, some, [], ◌∷◌, ◌++◌, arith, sym, Option-cases, Bool-cases, inl,
  inr, ◌⊎◌,
}
use tts_studio.Base.Exec.{Result, ok, err, transaction, read}
use tts_studio.Base.Json.{Fields}
use tts_studio.Registry.Domain.{
  GenerationJob, GenerationState, failed, Db, job_at, may_move, is_cancellable,
}
use tts_studio.Registry.Jobs.{
  NewJob, Progress, create_job, get_job, clear_reference_id, request_cancellation, transition_job,
  flagged, cleared_reference, no_progress, new_row, or_fresh, mark_recovery_failure, advanced,
  is_resolution,
}
use tts_studio.Registry.Jobs.Transition.{
  next_row, transition_found, transition_none, transition_err,
}
use tts_studio.Registry.Evolution.{Later, IsPrivateJob, JobChange, keep, add, rewrite, only}

next_row-Later :
    (now : String) (st : GenerationState) (p : Progress) (j : GenerationJob)
    → may_move j.state st ≡ true
    → (j.cancellation_requested ≡ true → is_resolution st ≡ true)
    → j.bytes_written ≤ (next_row now st p j j).bytes_written
    → j.frame_count ≤ (next_row now st p j j).frame_count
    → Later j (next_row now st p j j)
unfolding advanced may_move
next_row-Later now st p j h g b f = ground arith

next_row-IsPrivate :
    (now : String) (st : GenerationState) (p : Progress) (j a : GenerationJob)
    → IsPrivateJob a
    → IsPrivateJob (next_row now st p j a)
unfolding advanced
next_row-IsPrivate now st p j a h = ground arith

id_next_row :
    (now : String) (st : GenerationState) (p : Progress) (j a : GenerationJob)
    → (next_row now st p j a).id ≡ a.id
unfolding advanced
id_next_row now st p j a = refl

retry_of_next_row :
    (now : String) (st : GenerationState) (p : Progress) (j a : GenerationJob)
    → (next_row now st p j a).retry_of ≡ a.retry_of
unfolding advanced
retry_of_next_row now st p j a = refl

abbrev pub Changes : Db → Result GenerationJob × Db → Type 0
Changes db r = JobChange db.jobs r.1.jobs

module _ (now k : String) (db : Db) where
  transition_result :
      (st : GenerationState) (p : Progress) (r : Result GenerationJob × Db)
      → transition_job now k st p db ≡ r
      → Changes db r
  unfolding advanced
  transition_result st p (err e, db') h = keep (ap (λ d. d.jobs) (transition_err now k st p db h))
  transition_result st p (ok j', db') h = elim (Option-cases (job_at k db)) [
    | inl e ↦ absurd (transition_none now k st p db e h)
    | inr (j, e) ↦
        let (m, g, b, f, p', _) = transition_found now k st p db e h in
        rewrite k (next_row now st p j) (id_next_row now st p j) (retry_of_next_row now st p j)
          (next_row-IsPrivate now st p j)
          (only k (next_row now st p j) db.jobs e (next_row-Later now st p j m g b f))
          (ap (λ d. d.jobs) p')
  ]

  pub transition_job-Changes :
      (st : GenerationState) (p : Progress) → Changes db (transition_job now k st p db)
  transition_job-Changes st p = transition_result st p (transition_job now k st p db) refl

  cancellation_result :
      (r : Result GenerationJob × Db) → request_cancellation now k db ≡ r → Changes db r
  unfolding request_cancellation transaction
  cancellation_result (err e, db') h = keep (ground arith)
  cancellation_result (ok j', db') h = elim (Option-cases (job_at k db)) [
    | inl e ↦ absurd (ground arith)
    | inr (j, e) ↦ elim (Bool-cases (is_cancellable j.state)) [
      | inl c ↦
          rewrite k (flagged now) (λ a. refl) (λ a. refl) (λ a h. h)
            (only k (flagged now) db.jobs e (ground arith)) (ground arith)
      | inr c ↦ keep (ground arith)
    ]
  ]

  pub request_cancellation-Changes : Changes db (request_cancellation now k db)
  request_cancellation-Changes = cancellation_result (request_cancellation now k db) refl

  clear_result : (r : Result GenerationJob × Db) → clear_reference_id now k db ≡ r → Changes db r
  unfolding clear_reference_id transaction
  clear_result (err e, db') h = keep (ground arith)
  clear_result (ok j', db') h = elim (Option-cases (job_at k db)) [
    | inl e ↦ absurd (ground arith)
    | inr (j, e) ↦
        rewrite k (cleared_reference now) (λ a. refl) (λ a. refl) (λ a h. h) (λ a _. ground arith)
          (ground arith)
  ]

  pub clear_reference_id-Changes : Changes db (clear_reference_id now k db)
  clear_reference_id-Changes = clear_result (clear_reference_id now k db) refl

  recovery_cases :
      (e : Fields)
      → ((mark_recovery_failure now k e db).1 ≡ db)
        ⊎ ((mark_recovery_failure now k e db).1
            ≡ (transition_job now k failed (record no_progress { error = some e }) db).1)
  unfolding mark_recovery_failure get_job read
  recovery_cases e = ground arith

  pub mark_recovery_failure-Changes : (e : Fields) → Changes db (mark_recovery_failure now k e db)
  mark_recovery_failure-Changes e = elim (recovery_cases e) [
    | inl p ↦ keep (ap (λ d. d.jobs) p)
    | inr p ↦ subst (λ d. JobChange db.jobs d.jobs) (sym p) (transition_job-Changes failed _)
  ]

  create_cases :
      (a : NewJob)
      → ((create_job now k a db).1 ≡ db)
        ⊎ ((create_job now k a db).1
            ≡ record db { jobs = db.jobs ++ new_row now (or_fresh k a.job_id) a ∷ [] })
  unfolding create_job transaction
  create_cases a = ground arith

  pub create_job-Changes : (a : NewJob) → Changes db (create_job now k a db)
  create_job-Changes a = elim (create_cases a) [
    | inl p ↦ keep (ap (λ d. d.jobs) p)
    | inr p ↦ add now (or_fresh k a.job_id) a (ap (λ d. d.jobs) p)
  ]
