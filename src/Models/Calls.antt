-- ===== src/Models/Calls.antt =====
-- The calls of `ModelRegistry` that write, one after another. Each is a transaction of its own.
use tts_studio.Base.{String, List, [], ◌∷◌}
use tts_studio.Base.Int.{ℤ}
use tts_studio.Base.Json.{Fields}
use tts_studio.Models.Domain.{DownloadState, EngineRow, Db}
use tts_studio.Models.Downloads.{
  NewDownload, Progress, create_download_job, request_download_cancellation,
  transition_download_job, mark_recovery_failure,
}
use tts_studio.Models.Installations.{Numbers, update_replica_summary, set_desired_replicas}
use tts_studio.Models.Engines.{upsert_engine_installation}
use tts_studio.Models.Activate.{Activation, activate_model, remove_model}

-- `fresh` stands for the id that `uuid4` makes.
pub data Call : Type 0 where
  upserts : EngineRow → Call
  creates : (fresh : String) → NewDownload → Call
  cancels : String → Call
  moves : String → DownloadState → Progress → Call
  recovers : String → Fields → Call
  summarises : String → Fields → Call
  scales : String → ℤ → Call
  activates : Activation → Call
  removes : String → Call

-- The database after a call at time `now`.
unfoldable pub step : Numbers → Db → String → Call → Db
step numbers db now (upserts e) = (upsert_engine_installation e db).1
step numbers db now (creates fresh a) = (create_download_job now fresh a db).1
step numbers db now (cancels k) = (request_download_cancellation now k db).1
step numbers db now (moves k s p) = (transition_download_job now k s p db).1
step numbers db now (recovers k e) = (mark_recovery_failure now k e db).1
step numbers db now (summarises k s) = (update_replica_summary numbers now k s db).1
step numbers db now (scales k n) = (set_desired_replicas numbers now k n db).1
step numbers db now (activates a) = (activate_model numbers now a db).1
step numbers db now (removes k) = (remove_model k db).1

unfoldable pub run : Numbers → Db → List (String × Call) → Db
unfolding step
run numbers db [] = db
run numbers db ((now, c) ∷ cs) = run numbers (step numbers db now c) cs
