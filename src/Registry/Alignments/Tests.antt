-- ===== src/Registry/Alignments/Tests.antt =====
-- The results on alignments, applied to a concrete alignment.
use tts_studio.Base.{◌≡◌, ◌≤◌, refl, true, false, none, some, [], ◌∷◌}
use tts_studio.Base.Tests.{is_safe_text}
use tts_studio.Base.Json.{is_finite, is_unit_interval}
use tts_studio.Base.Exec.{ok, transaction}
use tts_studio.Base.Int.{pos}
use tts_studio.Base.Table.{select, update}
use tts_studio.Registry.Domain.{
  GenerationJob, GenerationState, AudioArtifact, AlignmentState, AlignmentUnit, AlignmentResult,
  AlignmentRow, AlignmentJob, Db, job_at,
}
use tts_studio.Registry.Shape.{
  utf8, validate_alignment_shape, validate_alignment_result, is_shape_valid, are_units_valid,
  is_head_valid, bytes_eq,
}
use tts_studio.Registry.Shape.Units.{IsPlaced, units_apart}
use tts_studio.Registry.Alignments.{row_at, is_current, artifact_of}
use tts_studio.Registry.Alignments.Runs.{
  Encoding, complete_alignment, finished, is_open, truthy, max_result_bytes,
}
use tts_studio.Registry.Alignments.Completed.{complete_alignment_lem}

abbrev sizes : Encoding
sizes = record { result_bytes = λ r. 100; error_bytes = λ e. 10 }

abbrev job : GenerationJob
job = record {
  id = "a";
  model_id = "model";
  engine_id = "engine";
  voice_id = some "voice";
  reference_id = none;
  saved_voice_id = none;
  provider_id = none;
  text = "a b";
  retain_artifact = true;
  options = none;
  state = GenerationState.completed;
  bytes_written = 20;
  frame_count = 10;
  sample_rate = none;
  channel_count = none;
  artifact_id = some "f";
  correlation_id = "c";
  cancellation_requested = false;
  error = none;
  created_at = "t0";
  updated_at = "t0";
  retry_of = none;
}

abbrev artifact : AudioArtifact
artifact = record {
  id = "f";
  job_id = "a";
  path = "audio/a.wav";
  byte_size = 64;
  sha256 = "";
  sample_rate = 48000;
  channel_count = 1;
  frame_count = 10;
  duration_ms = none;
  created_at = "t0";
  retained_at = "t0";
}

abbrev row : AlignmentRow
row = record {
  job_id = "a";
  artifact_id = "f";
  state = AlignmentState.running;
  result_json = none;
  error_json = none;
  created_at = "t1";
  updated_at = "t1";
}

abbrev first : AlignmentUnit
first = record {
  text = "a";
  source_start = pos 0;
  source_end = pos 1;
  start_frames = pos 0;
  end_frames = pos 4;
  confidence = 0;
  estimated = false;
}

abbrev second : AlignmentUnit
second = record {
  text = "b";
  source_start = pos 2;
  source_end = pos 3;
  start_frames = pos 5;
  end_frames = pos 10;
  confidence = 0;
  estimated = false;
}

abbrev result : AlignmentResult
result = record {
  schema_version = pos 1;
  job_id = "a";
  artifact_id = "f";
  transcript = "a b";
  sample_rate_hz = pos 48000;
  total_frames = pos 10;
  unit = "word";
  aligner = "x";
  units = first ∷ second ∷ [];
}

abbrev holding : AlignmentRow → Db
holding r = record { jobs = job ∷ []; artifacts = artifact ∷ []; alignments = r ∷ [] }

units_apart_example :
    (1 ≤ 2) × (4 ≤ 5) × IsPlaced (utf8 "a b") 10 0 0 first × IsPlaced (utf8 "a b") 10 0 0 second
unfolding validate_alignment_shape is_shape_valid is_head_valid are_units_valid is_safe_text utf8
    bytes_eq is_finite is_unit_interval
units_apart_example = units_apart result [] [] [] first second refl refl

abbrev stored : AlignmentJob
stored = record {
  job_id = "a";
  artifact_id = "f";
  state = AlignmentState.completed;
  result = some result;
  error = none;
  created_at = "t1";
  updated_at = "t2";
}

complete_alignment_example :
    (j : GenerationJob) × (r : AlignmentRow) × (f : AudioArtifact) × (job_at "a" (holding row)
      ≡ some j)
    × (row_at "a" (holding row) ≡ some r)
    × (is_open r.state ≡ true)
    × (is_current j r (holding row) ≡ true)
    × (artifact_of "a" (truthy j.artifact_id) (holding row) ≡ some f)
    × (validate_alignment_result result j f ≡ ok tt)
    × (100 ≤ max_result_bytes)
    × (row_at "a" (holding (finished "t2" result row)) ≡ some (finished "t2" result r))
    × (job ∷ [] ≡ job ∷ [])
    × (artifact ∷ [] ≡ artifact ∷ [])
unfolding complete_alignment transaction select update is_safe_text utf8 bytes_eq is_finite
    is_unit_interval is_current
complete_alignment_example =
    complete_alignment_lem sizes "t2" "a" result (holding row) (holding (finished "t2" result row))
      stored refl
