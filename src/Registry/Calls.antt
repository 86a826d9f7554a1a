-- ===== src/Registry/Calls.antt =====
-- The calls of `GenerationRegistry` that write, as the Core makes them one after another: each is a
-- transaction of its own, and a call that raises leaves the database as it was.
pub mod Jobs
pub mod Life
pub mod Retried
use tts_studio.Base.{String, List, [], ◌∷◌}
use tts_studio.Base.Json.{Fields}
use tts_studio.Registry.Domain.{GenerationState, AlignmentResult, Db}
use tts_studio.Registry.Jobs.{
  NewJob, Progress, create_job, clear_reference_id, request_cancellation, transition_job,
  mark_recovery_failure,
}
use tts_studio.Registry.Artifacts.{NewArtifact, create_artifact, delete_artifact}
use tts_studio.Registry.Alignments.{get_alignment, create_alignment, retry_alignment}
use tts_studio.Registry.Alignments.Runs.{
  Encoding, start_alignment, complete_alignment, fail_alignment, recover_alignment,
}

-- `fresh` stands for the id that `uuid4` makes.
pub data Call : Type 0 where
  creates : (fresh : String) → NewJob → Call
  clears : String → Call
  cancels : String → Call
  moves : String → GenerationState → Progress → Call
  recovers : String → Fields → Call
  creates_artifact : (fresh : String) → NewArtifact → Call
  deletes_artifact : String → Call
  gets_alignment : String → Call
  creates_alignment : String → Call
  retries_alignment : String → Call
  starts_alignment : String → Call
  completes_alignment : String → AlignmentResult → Call
  fails_alignment : String → Fields → Call
  recovers_alignment : String → Call

-- The database after a call at time `now`.
unfoldable pub step : Encoding → Db → String → Call → Db
step enc db now (creates fresh a) = (create_job now fresh a db).1
step enc db now (clears k) = (clear_reference_id now k db).1
step enc db now (cancels k) = (request_cancellation now k db).1
step enc db now (moves k st p) = (transition_job now k st p db).1
step enc db now (recovers k e) = (mark_recovery_failure now k e db).1
step enc db now (creates_artifact fresh a) = (create_artifact now fresh a db).1
step enc db now (deletes_artifact id) = (delete_artifact now id db).1
step enc db now (gets_alignment k) = (get_alignment k db).1
step enc db now (creates_alignment k) = (create_alignment now k db).1
step enc db now (retries_alignment k) = (retry_alignment now k db).1
step enc db now (starts_alignment k) = (start_alignment now k db).1
step enc db now (completes_alignment k r) = (complete_alignment enc now k r db).1
step enc db now (fails_alignment k e) = (fail_alignment enc now k e db).1
step enc db now (recovers_alignment k) = (recover_alignment enc now k db).1

-- A history of calls, each with its time.
unfoldable pub run : Encoding → Db → List (String × Call) → Db
unfolding step
run enc db [] = db
run enc db ((now, c) ∷ cs) = run enc (step enc db now c) cs
