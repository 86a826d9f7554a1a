-- ===== src/Generation/Tests.antt =====
-- The results on the alignments of a Worker, applied to a concrete answer.
use tts_studio.Base.Tests.{is_blank, has_nul, is_safe_text}
use tts_studio.Base.{ℕ, ◌≡◌, refl, String, true, false, none, some, [], ◌∷◌, arith, length}
use tts_studio.Base.Json.{is_finite, is_unit_interval}
use tts_studio.Base.Exec.{ok}
use tts_studio.Base.Int.{pos}
use tts_studio.Registry.Domain.{GenerationJob, GenerationState, AudioArtifact, AlignmentResult}
use tts_studio.Registry.Shape.{utf8, bytes_eq, validate_alignment_result}
use tts_studio.Workers.Domain.{
  AlignmentCapability, WorkerCapabilities, WireUnit, WireResult, Wire, contains,
}
use tts_studio.Workers.Alignment.{alignment_result_error}
use tts_studio.Generation.Alignment.{
  require_alignment_capability, alignment_result_from_worker, translated,
  validate_alignment_transcript,
}
use tts_studio.Generation.Accepted.{alignment_result_from_worker-validate}
use tts_studio.Generation.Handover.{alignment_result_error-handover}

-- A message has a byte per unit, and all bytes below 128 decode.
abbrev wire : Wire
wire = record { size = λ r. length r.units; decodes = λ bs. true }

abbrev pub job : GenerationJob
job = record {
  id = "a";
  model_id = "model";
  engine_id = "engine";
  voice_id = some "voice";
  reference_id = none;
  saved_voice_id = none;
  provider_id = none;
  text = "a b";
  retain_artifact = true;
  options = none;
  state = GenerationState.completed;
  bytes_written = 20;
  frame_count = 10;
  sample_rate = none;
  channel_count = none;
  artifact_id = some "f";
  correlation_id = "c";
  cancellation_requested = false;
  error = none;
  created_at = "t0";
  updated_at = "t0";
  retry_of = none;
}

abbrev artifact : AudioArtifact
artifact = record {
  id = "f";
  job_id = "a";
  path = "audio/a.wav";
  byte_size = 64;
  sha256 = "";
  sample_rate = 48000;
  channel_count = 1;
  frame_count = 10;
  duration_ms = none;
  created_at = "t0";
  retained_at = "t0";
}

abbrev capability : AlignmentCapability
capability = record { units = "word" ∷ []; languages = []; aligner = "x" }

abbrev pub capabilities : WorkerCapabilities
capabilities = record {
  engine_id = "engine";
  engine_version = "1";
  supported = "alignment" ∷ [];
  max_concurrency = 1;
  alignment = some capability;
}

abbrev word : String → ℕ → ℕ → ℕ → ℕ → WireUnit
word text s e f g = record {
  text = text;
  source_start = s;
  source_end = e;
  start_frames = f;
  end_frames = g;
  confidence = 0;
  estimated = false;
}

abbrev answer : WireResult
answer = record {
  schema_version = 1;
  transcript = "a b";
  sample_rate_hz = 48000;
  total_frames = 10;
  unit = "word";
  aligner = "x";
  units = word "a" 0 1 0 4 ∷ word "b" 2 3 5 9 ∷ [];
}

abbrev stored : AlignmentResult
stored = record {
  schema_version = pos 1;
  job_id = "a";
  artifact_id = "f";
  transcript = "a b";
  sample_rate_hz = pos 48000;
  total_frames = pos 10;
  unit = "word";
  aligner = "x";
  units = translated wire (word "a" 0 1 0 4) ∷ translated wire (word "b" 2 3 5 9) ∷ [];
}

alignment_result_from_worker-validate_example :
    validate_alignment_result stored job artifact ≡ ok tt
unfolding alignment_result_from_worker require_alignment_capability validate_alignment_transcript
    contains is_blank has_nul is_safe_text utf8 bytes_eq is_finite is_unit_interval
alignment_result_from_worker-validate_example =
    alignment_result_from_worker-validate wire answer job artifact capability stored refl
      capabilities refl refl refl refl (omega arith)

alignment_result_error-handover_example :
    (a : AlignmentResult) × (alignment_result_from_worker wire answer job artifact capability
      ≡ ok a)
    × (validate_alignment_result a job artifact ≡ ok tt)
unfolding alignment_result_error require_alignment_capability validate_alignment_transcript contains
    is_blank has_nul is_safe_text utf8 bytes_eq is_finite is_unit_interval
alignment_result_error-handover_example =
    alignment_result_error-handover wire answer job artifact capability capabilities refl refl refl
      refl refl refl refl
