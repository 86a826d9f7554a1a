-- ===== src/Registry/Calls/Life.antt =====
-- What no history of registry calls can do to a Generation Job.
use tts_studio.Base.{String, ◌≡◌, ◌≢◌, ◌≤◌, true, some, List, [], ◌∷◌, arith, All}
use tts_studio.Registry.Domain.{GenerationJob, Db, job_at, is_terminal, GenerationState}
use tts_studio.Registry.Evolution.{
  Evolves, Evolves-refl, Evolves-trans, IsPrivateJob, JobChange-Evolves, JobChange-IsPrivate, rank,
}
use tts_studio.Registry.Alignments.Runs.{Encoding}
use tts_studio.Registry.Calls.{Call, step, run}
use tts_studio.Registry.Calls.Jobs.{step-JobChange}

pub run-Evolves :
    (enc : Encoding) (db : Db) (cs : List (String × Call)) → Evolves db (run enc db cs)
unfolding run
run-Evolves enc db [] = Evolves-refl db
run-Evolves enc db ((now, c) ∷ cs) =
    Evolves-trans (JobChange-Evolves db (step enc db now c) (step-JobChange enc db now c))
      (run-Evolves enc (step enc db now c) cs)

module _ (enc : Encoding) (db : Db) (cs : List (String × Call)) (k : String) (j : GenerationJob)
    (found : job_at k db ≡ some j) where
  -- After any history of registry calls, failing ones included, a job that was in the table is still
  -- there, with the same id, model and retention, at least as many bytes and frames written, and in
  -- a state that is no earlier in the life of a job.
  pub run-job :
      (j' : GenerationJob) × (job_at k (run enc db cs) ≡ some j')
      × (j'.id ≡ j.id)
      × (j'.model_id ≡ j.model_id)
      × (j'.retain_artifact ≡ j.retain_artifact)
      × (j.bytes_written ≤ j'.bytes_written)
      × (j.frame_count ≤ j'.frame_count)
      × (rank j.state ≤ rank j'.state)
  run-job =
      let (j', e, l) = (run-Evolves enc db cs).at k j found in
      (j', e, l.same_id, l.same_model, l.same_retain, l.more_bytes, l.more_frames, l.moves_on)

  -- A job that has completed, been cancelled or failed is in the same state after any history of
  -- registry calls.
  pub run-ended :
      is_terminal j.state ≡ true
      → (j' : GenerationJob) × (job_at k (run enc db cs) ≡ some j') × (j'.state ≡ j.state)
  run-ended ended =
      let (j', e, l) = (run-Evolves enc db cs).at k j found in (j', e, l.stays_ended ended)

  -- Once its cancellation is requested, a job that has not completed is not completed by any history
  -- of registry calls, and the request is never taken back.
  pub run-cancelled :
      j.cancellation_requested ≡ true
      → j.state ≢ GenerationState.completed
      → (j' : GenerationJob) × (job_at k (run enc db cs) ≡ some j')
        × (j'.cancellation_requested ≡ true)
        × (j'.state ≢ GenerationState.completed)
  run-cancelled asked open_still =
      let (j', e, l) = (run-Evolves enc db cs).at k j found in
      (j', e, l.keeps_flag asked, ground (arith, l.resolves asked))

-- If every ended job that keeps no audio has an empty text, so it is after any history of registry
-- calls.
pub run-IsPrivate :
    (enc : Encoding) (db : Db) (cs : List (String × Call))
    → All IsPrivateJob db.jobs
    → All IsPrivateJob (run enc db cs).jobs
unfolding run
run-IsPrivate enc db [] all = all
run-IsPrivate enc db ((now, c) ∷ cs) all =
    run-IsPrivate enc (step enc db now c) cs
      (JobChange-IsPrivate db.jobs (step enc db now c).jobs (step-JobChange enc db now c) all)
