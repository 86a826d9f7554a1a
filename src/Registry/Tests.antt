-- ===== src/Registry/Tests.antt =====
-- The results on the registry, applied to a concrete job and history.
use tts_studio.Base.{String, ◌≡◌, ◌≢◌, refl, true, false, none, some, List, [], ◌∷◌, All}
use tts_studio.Base.Int.{pos}
use tts_studio.Base.Tests.{is_safe_text}
use tts_studio.Base.Exec.{transaction, ok}
use tts_studio.Base.Json.{field, end, bool, get}
use tts_studio.Registry.Jobs.{retry_for}
use tts_studio.Registry.Calls.Retried.{create_job_retried}
use tts_studio.Base.Table.{select}
use tts_studio.Registry.Domain.{GenerationJob, GenerationState, Db, job_at, can_retry}
use tts_studio.Registry.Paths.{managed_audio_path}
use tts_studio.Registry.Evolution.{IsPrivateJob}
use tts_studio.Registry.Jobs.{Progress, no_progress, NewJob, new_row, create_job}
use tts_studio.Registry.Alignments.Runs.{Encoding}
use tts_studio.Registry.Calls.{Call, run, cancels, moves}
use tts_studio.Registry.Calls.Life.{run-ended, run-cancelled, run-IsPrivate}

abbrev sizes : Encoding
sizes = record { result_bytes = λ r. 100; error_bytes = λ e. 10 }

abbrev job : GenerationJob
job = record {
  id = "a";
  model_id = "model";
  engine_id = "engine";
  voice_id = some "voice";
  reference_id = none;
  saved_voice_id = none;
  provider_id = none;
  text = "Hello";
  retain_artifact = false;
  options = none;
  state = GenerationState.generating;
  bytes_written = 20;
  frame_count = 10;
  sample_rate = none;
  channel_count = none;
  artifact_id = none;
  correlation_id = "c";
  cancellation_requested = false;
  error = none;
  created_at = "t0";
  updated_at = "t0";
  retry_of = none;
}

abbrev holding : GenerationJob → Db
holding j = record { jobs = j ∷ []; artifacts = []; alignments = [] }

-- Progress, a request to cancel, a completion that is refused, and the cancellation.
abbrev written : Progress
written = record no_progress { bytes_written = some (pos 40); frame_count = some (pos 20) }

abbrev history : List (String × Call)
history =
    ("t1", moves "a" GenerationState.finalizing written)
    ∷ ("t2", cancels "a")
    ∷ ("t3", moves "a" GenerationState.cancelled no_progress)
    ∷ ("t4", moves "a" GenerationState.completed no_progress)
    ∷ []

abbrev done_job : GenerationJob
done_job = record job { state = GenerationState.cancelled; text = "" }

abbrev flagged_job : GenerationJob
flagged_job = record job { cancellation_requested = true }

run-ended_example :
    (j' : GenerationJob) × (job_at "a" (run sizes (holding done_job) history) ≡ some j')
    × (j'.state ≡ GenerationState.cancelled)
unfolding select
run-ended_example = run-ended sizes (holding done_job) history "a" done_job refl refl

run-cancelled_example :
    (j' : GenerationJob) × (job_at "a" (run sizes (holding flagged_job) history) ≡ some j')
    × (j'.cancellation_requested ≡ true)
    × (j'.state ≢ GenerationState.completed)
unfolding select
run-cancelled_example =
    run-cancelled sizes (holding flagged_job) history "a" flagged_job refl refl (λ e. cc)

run-IsPrivate_example : All IsPrivateJob (run sizes (holding job) history).jobs
run-IsPrivate_example = run-IsPrivate sizes (holding job) history ((λ _ e. cc), tt)

abbrev retry : NewJob
retry = record {
  model_id = "model";
  engine_id = "engine";
  voice_id = some "voice";
  reference_id = none;
  saved_voice_id = none;
  provider_id = none;
  text = "Hello";
  retain_artifact = true;
  options = none;
  correlation_id = "c";
  job_id = some "b";
  retry_of = some "a";
}

-- A later request, with another text and without an id.
abbrev later_retry : NewJob
later_retry = record retry { text = "Bye"; job_id = none }

abbrev failed_job : GenerationJob
failed_job = record job {
  retain_artifact = true;
  state = GenerationState.failed;
  error = some (field "retryable" (bool true) end);
}

abbrev retried : GenerationJob
retried = new_row "t1" "b" retry

abbrev with_retry : Db
with_retry = record { jobs = failed_job ∷ retried ∷ []; artifacts = []; alignments = [] }

create_job_retried_example :
    (j' : GenerationJob) × (create_job "t2" "z" later_retry (run sizes with_retry history)
      ≡ (ok j', run sizes with_retry history))
    × (j'.id ≡ "b")
unfolding create_job transaction select is_safe_text retry_for can_retry get
create_job_retried_example =
    create_job_retried sizes "t1" "x" "t2" "z" "a" retry later_retry (holding failed_job) with_retry
      retried history refl refl refl (refl, refl, refl)

normalises : managed_audio_path "audio/./a//b.wav" ≡ ok "audio/a/b.wav"
unfolding managed_audio_path
normalises = refl
