-- ===== src/Registry/Calls/Jobs.antt =====
-- What each call of the registry does to the table of Generation Jobs.
use tts_studio.Base.{String, ◌≡◌, refl, arith, Option-cases, inl, inr, ◌⊎◌}
use tts_studio.Base.Exec.{transaction}
use tts_studio.Base.Json.{Fields}
use tts_studio.Base.Table.{select, update}
use tts_studio.Registry.Domain.{Db, AlignmentResult, AudioArtifact, job_key, artifact_key}
use tts_studio.Registry.Evolution.{JobChange, keep, rewrite}
use tts_studio.Registry.Jobs.{or_fresh}
use tts_studio.Registry.Jobs.Steps.{
  create_job-Changes, clear_reference_id-Changes, request_cancellation-Changes,
  transition_job-Changes, mark_recovery_failure-Changes,
}
use tts_studio.Registry.Artifacts.{
  NewArtifact, create_artifact, delete_artifact, with_artifact, without_artifact,
}
use tts_studio.Registry.Alignments.{get_alignment, create_alignment, retry_alignment}
use tts_studio.Registry.Alignments.Runs.{
  Encoding, start_alignment, complete_alignment, fail_alignment, recover_alignment,
}
use tts_studio.Registry.Calls.{
  Call, creates, clears, cancels, moves, recovers, creates_artifact, deletes_artifact,
  gets_alignment, creates_alignment, retries_alignment, starts_alignment, completes_alignment,
  fails_alignment, recovers_alignment, step,
}

-- The alignment calls leave the table of jobs alone.
module _ (now k : String) (db : Db) where
  jobs-get_alignment : (get_alignment k db).1.jobs ≡ db.jobs
  unfolding get_alignment transaction
  jobs-get_alignment = ground arith

  jobs-create_alignment : (create_alignment now k db).1.jobs ≡ db.jobs
  unfolding create_alignment transaction
  jobs-create_alignment = ground arith

  jobs-retry_alignment : (retry_alignment now k db).1.jobs ≡ db.jobs
  unfolding retry_alignment transaction
  jobs-retry_alignment = ground arith

  jobs-start_alignment : (start_alignment now k db).1.jobs ≡ db.jobs
  unfolding start_alignment transaction
  jobs-start_alignment = ground arith

  module _ (enc : Encoding) where
    jobs-complete_alignment :
        (r : AlignmentResult) → (complete_alignment enc now k r db).1.jobs ≡ db.jobs
    unfolding complete_alignment transaction
    jobs-complete_alignment r = ground arith

    jobs-fail_alignment : (e : Fields) → (fail_alignment enc now k e db).1.jobs ≡ db.jobs
    unfolding fail_alignment transaction
    jobs-fail_alignment e = ground arith

    jobs-recover_alignment : (recover_alignment enc now k db).1.jobs ≡ db.jobs
    unfolding recover_alignment transaction
    jobs-recover_alignment = ground arith

  pub jobs-create_artifact :
      (a : NewArtifact)
      → ((create_artifact now k a db).1.jobs ≡ db.jobs)
        ⊎ ((create_artifact now k a db).1.jobs
            ≡ update job_key a.job_id (with_artifact now (or_fresh k a.artifact_id)) db.jobs)
  unfolding create_artifact transaction
  jobs-create_artifact a = ground arith

  -- A call that deletes nothing leaves the jobs; any other clears the artifact of one job.
  pub delete_cases :
      ((delete_artifact now k db).1.jobs ≡ db.jobs)
      ⊎ ((a : AudioArtifact) × ((delete_artifact now k db).1.jobs
            ≡ update job_key a.job_id (without_artifact now) db.jobs))
  unfolding delete_artifact transaction
  delete_cases = elim (Option-cases (select artifact_key k db.artifacts)) [
    | inl e ↦ inl (ground arith)
    | inr (a, e) ↦ inr (a, ground arith)
  ]

-- Every call changes the table of jobs in one of the three ways.
pub step-JobChange :
    (enc : Encoding) (db : Db) (now : String) (c : Call)
    → JobChange db.jobs (step enc db now c).jobs
unfolding step
step-JobChange enc db now (creates fresh a) = create_job-Changes now fresh db a
step-JobChange enc db now (clears k) = clear_reference_id-Changes now k db
step-JobChange enc db now (cancels k) = request_cancellation-Changes now k db
step-JobChange enc db now (moves k st p) = transition_job-Changes now k db st p
step-JobChange enc db now (recovers k e) = mark_recovery_failure-Changes now k db e
step-JobChange enc db now (creates_artifact fresh a) = elim (jobs-create_artifact now fresh db a) [
  | inl p ↦ keep p
  | inr p ↦
      rewrite a.job_id (with_artifact now (or_fresh fresh a.artifact_id)) (λ j. refl) (λ j. refl)
        (λ j h. h) (λ j _. ground arith) p
]
step-JobChange enc db now (deletes_artifact id) = elim (delete_cases now id db) [
  | inl p ↦ keep p
  | inr (a, p) ↦
      rewrite a.job_id (without_artifact now) (λ j. refl) (λ j. refl) (λ j h. h)
        (λ j _. ground arith) p
]
step-JobChange enc db now (gets_alignment k) = keep (jobs-get_alignment now k db)
step-JobChange enc db now (creates_alignment k) = keep (jobs-create_alignment now k db)
step-JobChange enc db now (retries_alignment k) = keep (jobs-retry_alignment now k db)
step-JobChange enc db now (starts_alignment k) = keep (jobs-start_alignment now k db)
step-JobChange enc db now (completes_alignment k r) = keep (jobs-complete_alignment now k db enc r)
step-JobChange enc db now (fails_alignment k e) = keep (jobs-fail_alignment now k db enc e)
step-JobChange enc db now (recovers_alignment k) = keep (jobs-recover_alignment now k db enc)
