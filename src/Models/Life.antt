-- ===== src/Models/Life.antt =====
-- What no history of calls of the model registry can do to a Download Job.
use tts_studio.Base.{String, ◌≡◌, arith, ◌≤◌, true, some, List, [], ◌∷◌, All}
use tts_studio.Base.Exec.{transaction}
use tts_studio.Base.Int.{ℤ}
use tts_studio.Base.Json.{Fields}
use tts_studio.Models.Domain.{DownloadJob, EngineRow, Db, download_at, is_terminal}
use tts_studio.Models.Installations.{Numbers, update_replica_summary, set_desired_replicas}
use tts_studio.Models.Engines.{upsert_engine_installation}
use tts_studio.Models.Evolution.{Becomes, Becomes-refl, Becomes-trans, same, IsBoundedJob, rank}
use tts_studio.Models.Steps.{create-Keeps, request-Keeps, transition-Keeps, recovery-Keeps}
use tts_studio.Models.Activation.{activate_model-Keeps, remove_model-Keeps}
use tts_studio.Models.Calls.{
  Call, upserts, creates, cancels, moves, recovers, summarises, scales, activates, removes, step,
  run,
}

downloads-upsert :
    (e : EngineRow) (db : Db) → (upsert_engine_installation e db).1.downloads ≡ db.downloads
unfolding upsert_engine_installation transaction
downloads-upsert e db = ground arith

module _ (numbers : Numbers) where
  downloads-summary :
      (now k : String) (s : Fields) (db : Db)
      → (update_replica_summary numbers now k s db).1.downloads ≡ db.downloads
  unfolding update_replica_summary transaction
  downloads-summary now k s db = ground arith

  downloads-replicas :
      (now k : String) (n : ℤ) (db : Db)
      → (set_desired_replicas numbers now k n db).1.downloads ≡ db.downloads
  unfolding set_desired_replicas transaction
  downloads-replicas now k n db = ground arith

  step-Becomes :
      (db : Db) (now : String) (c : Call) → Becomes db.downloads (step numbers db now c).downloads
  unfolding step
  step-Becomes db now (upserts e) = same db.downloads _ (downloads-upsert e db)
  step-Becomes db now (creates fresh a) = create-Keeps now fresh db fresh a
  step-Becomes db now (cancels k) = request-Keeps now k db
  step-Becomes db now (moves k s p) = transition-Keeps now k s p db
  step-Becomes db now (recovers k e) = recovery-Keeps now k db e
  step-Becomes db now (summarises k s) = same db.downloads _ (downloads-summary now k s db)
  step-Becomes db now (scales k n) = same db.downloads _ (downloads-replicas now k n db)
  step-Becomes db now (activates a) = activate_model-Keeps now a db numbers
  step-Becomes db now (removes k) = remove_model-Keeps k db

  run-Becomes :
      (db : Db) (cs : List (String × Call)) → Becomes db.downloads (run numbers db cs).downloads
  unfolding run
  run-Becomes db [] = Becomes-refl db.downloads
  run-Becomes db ((now, c) ∷ cs) =
      Becomes-trans db.downloads (step numbers db now c).downloads _ (step-Becomes db now c)
        (run-Becomes (step numbers db now c) cs)

  module _ (db : Db) (cs : List (String × Call)) where
    -- After any history of calls of the model registry, failing ones included, a Download Job that
    -- was in the table is still there, with the same repository, engine and staging path, at least
    -- as many bytes, in a state that is no earlier in its life, with a request to cancel kept, and
    -- in the same state if it had ended.
    pub run-download :
        (k : String) (j : DownloadJob)
        → download_at k db ≡ some j
        → (j' : DownloadJob) × (download_at k (run numbers db cs) ≡ some j')
          × (j'.repository_id ≡ j.repository_id)
          × (j'.engine_installation_id ≡ j.engine_installation_id)
          × (j'.staging_path ≡ j.staging_path)
          × (j.bytes_downloaded ≤ j'.bytes_downloaded)
          × (rank j.state ≤ rank j'.state)
          × (j.cancellation_requested ≡ true → j'.cancellation_requested ≡ true)
          × (is_terminal j.state ≡ true → j'.state ≡ j.state)
    run-download k j found =
        let (j', e, l) = (run-Becomes db cs).evolves.at k j found in
        (
          j', e, l.same_repository, l.same_engine, l.same_staging, l.more_bytes, l.moves_on,
          l.keeps_flag, l.stays_ended,
        )

    -- If no Download Job has more bytes than its total, where it has one, then so it is after any
    -- history of calls of the model registry.
    pub run-IsBounded :
        All IsBoundedJob db.downloads → All IsBoundedJob (run numbers db cs).downloads
    run-IsBounded h = (run-Becomes db cs).stays_bounded h
