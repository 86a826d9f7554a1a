-- ===== src/Workers/Domain.antt =====
-- The records of src/tts_studio/workers/generation.py, and the fields of the messages of
-- packages/protocol/proto/tts_studio/engine/v1/engine.proto that the Core reads.
use tts_studio.Base.{ℕ, String, Bool, false, ◌||◌, Option, List, [], ◌∷◌, str_eq}
use tts_studio.Base.Json.{Double}

pub record AlignmentCapability : Type 0 where
  pub units : List String
  pub languages : List String
  pub aligner : String

pub record WorkerCapabilities : Type 0 where
  pub engine_id : String
  pub engine_version : String
  pub supported : List String
  pub max_concurrency : ℕ
  pub alignment : Option AlignmentCapability

-- `value in values`.
unfoldable pub contains : String → List String → Bool
contains s [] = false
contains s (t ∷ ts) = str_eq s t || contains s ts

-- `WorkerCapabilities.supports`.
abbrev pub supports : String → WorkerCapabilities → Bool
supports name c = contains name c.supported

pub record ProtocolVersion : Type 0 where
  pub major : ℕ
  pub minor : ℕ

pub record Capability : Type 0 where
  pub name : String
  pub supported : Bool

pub record DescribeResponse : Type 0 where
  pub protocol : ProtocolVersion
  pub engine_id : String
  pub engine_version : String
  pub capabilities : List Capability
  pub max_concurrency : ℕ
  pub alignment : Option AlignmentCapability

-- The message and the details of an error are not kept, only if there is a message.
pub record WorkerError : Type 0 where
  pub code : String
  pub has_message : Bool
  pub retryable : Bool

-- An `AlignmentUnit` of the wire; the confidence is the float that it is read as.
pub record WireUnit : Type 0 where
  pub text : String
  pub source_start : ℕ
  pub source_end : ℕ
  pub start_frames : ℕ
  pub end_frames : ℕ
  pub confidence : Double
  pub estimated : Bool

-- An `AlignmentResult` of the wire.
pub record WireResult : Type 0 where
  pub schema_version : ℕ
  pub transcript : String
  pub sample_rate_hz : ℕ
  pub total_frames : ℕ
  pub unit : String
  pub aligner : String
  pub units : List WireUnit

-- `len(message.SerializeToString())`, and whether `bytes.decode("utf-8")` does not raise.
pub record Wire : Type 0 where
  pub size : WireResult → ℕ
  pub decodes : List ℕ → Bool
