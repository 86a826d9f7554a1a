-- ===== src/Registry/Domain.antt =====
-- src/tts_studio/generation/domain.py and the tables of generation/registry.py: the rows, the state
-- machine of a Generation Job and of an alignment, and the database that holds them.
use tts_studio.Base.{
  ℕ, String, Bool, true, false, not, ◌&&◌, ◌||◌, Option, none, some, List, str_eq, is_some,
}
use tts_studio.Base.Int.{ℤ}
use tts_studio.Base.Table.{select}
use tts_studio.Base.Json.{Double, Fields, get, bool, string, Json}

pub data GenerationState : Type 0 where
  queued loading generating finalizing completed cancelled failed : GenerationState

pub data AlignmentState : Type 0 where
  queued running completed failed : AlignmentState

pub record SynthesisOptions : Type 0 where
  pub speed : Option Double
  pub pitch : Option Double
  pub volume : Option Double

-- A row of `generation_jobs`, with the column `retry_of`.
pub record GenerationJob : Type 0 where
  pub id : String
  pub model_id : String
  pub engine_id : String
  pub voice_id : Option String
  pub reference_id : Option String
  pub saved_voice_id : Option String
  pub provider_id : Option String
  pub text : String
  pub retain_artifact : Bool
  pub options : Option SynthesisOptions
  pub state : GenerationState
  pub bytes_written : ℕ
  pub frame_count : ℕ
  pub sample_rate : Option ℕ
  pub channel_count : Option ℕ
  pub artifact_id : Option String
  pub correlation_id : String
  pub cancellation_requested : Bool
  pub error : Option Fields
  pub created_at : String
  pub updated_at : String
  pub retry_of : Option String

abbrev pub is_true : Option Json → Bool
is_true (some (bool true)) = true
is_true _ = false

abbrev is_text : String → Option Json → Bool
is_text t (some (string s)) = str_eq s t
is_text t _ = false

abbrev is_retryable : Option Fields → Bool
is_retryable none = false
is_retryable (some e) =
    is_true (get "retryable" e)
    && not (
        is_text "cleanup_failed" (get "code" e)
        || is_text "reference_recovery_required" (get "code" e))

abbrev pub is_failed : GenerationState → Bool
is_failed failed = true
is_failed _ = false

-- `GenerationJob.can_retry`.
unfoldable pub can_retry : GenerationJob → Bool
can_retry j =
    is_failed j.state
    && is_retryable j.error
    && j.retain_artifact
    && not (str_eq j.text "")
    && not (is_some j.artifact_id)
    && not (is_some j.reference_id)
    && (is_some j.voice_id || is_some j.saved_voice_id)

-- A row of `audio_artifacts`.
pub record AudioArtifact : Type 0 where
  pub id : String
  pub job_id : String
  pub path : String
  pub byte_size : ℕ
  pub sha256 : String
  pub sample_rate : ℕ
  pub channel_count : ℕ
  pub frame_count : ℕ
  pub duration_ms : Option ℕ
  pub created_at : String
  pub retained_at : String

-- `_TRANSITIONS`.
unfoldable pub may_move : GenerationState → GenerationState → Bool
may_move queued loading = true
may_move queued cancelled = true
may_move queued failed = true
may_move loading generating = true
may_move loading cancelled = true
may_move loading failed = true
may_move generating finalizing = true
may_move generating cancelled = true
may_move generating failed = true
may_move finalizing completed = true
may_move finalizing failed = true
may_move _ _ = false

-- `_ACTIVE_STATES`.
abbrev pub is_active : GenerationState → Bool
is_active loading = true
is_active generating = true
is_active finalizing = true
is_active _ = false

-- `_CANCELLABLE_STATES`.
abbrev pub is_cancellable : GenerationState → Bool
is_cancellable queued = true
is_cancellable loading = true
is_cancellable generating = true
is_cancellable _ = false

-- The states that end a job: those with no transition out.
abbrev pub is_terminal : GenerationState → Bool
is_terminal completed = true
is_terminal cancelled = true
is_terminal failed = true
is_terminal _ = false

pub record AlignmentUnit : Type 0 where
  pub text : String
  pub source_start : ℤ
  pub source_end : ℤ
  pub start_frames : ℤ
  pub end_frames : ℤ
  pub confidence : Double
  pub estimated : Bool

pub record AlignmentResult : Type 0 where
  pub schema_version : ℤ
  pub job_id : String
  pub artifact_id : String
  pub transcript : String
  pub sample_rate_hz : ℤ
  pub total_frames : ℤ
  pub unit : String
  pub aligner : String
  pub units : List AlignmentUnit

-- What a JSON column holds: a value that decodes, or text that does not.
pub data Stored (A : Type 0) : Type 0 where
  decoded : A → Stored A
  malformed : Stored A

-- A row of `generation_alignments`.
pub record AlignmentRow : Type 0 where
  pub job_id : String
  pub artifact_id : String
  pub state : AlignmentState
  pub result_json : Option (Stored AlignmentResult)
  pub error_json : Option (Stored Fields)
  pub created_at : String
  pub updated_at : String

pub record AlignmentJob : Type 0 where
  pub job_id : String
  pub artifact_id : String
  pub state : AlignmentState
  pub result : Option AlignmentResult
  pub error : Option Fields
  pub created_at : String
  pub updated_at : String

-- The three tables of the generation registry.
pub record Db : Type 0 where
  pub jobs : List GenerationJob
  pub artifacts : List AudioArtifact
  pub alignments : List AlignmentRow

-- The primary keys, and the unique column `audio_artifacts.job_id`.
abbrev pub job_key : GenerationJob → String
job_key j = j.id

abbrev pub artifact_key : AudioArtifact → String
artifact_key a = a.id

abbrev pub artifact_owner : AudioArtifact → String
artifact_owner a = a.job_id

abbrev pub alignment_key : AlignmentRow → String
alignment_key r = r.job_id

-- `SELECT * FROM generation_jobs WHERE id = ?`.
abbrev pub job_at : String → Db → Option GenerationJob
job_at k db = select job_key k db.jobs
