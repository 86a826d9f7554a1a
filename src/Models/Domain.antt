-- ===== src/Models/Domain.antt =====
-- src/tts_studio/models/registry.py: the rows, the states of a Download Job, and the tables. A JSON
-- column is the value that it was encoded from.
use tts_studio.Base.{ℕ, String, Bool, true, false, Option, none, some, List}
use tts_studio.Base.Json.{Fields}
use tts_studio.Base.Table.{select}

pub data DownloadState : Type 0 where
  queued validating downloading verifying activating completed cancelled failed : DownloadState

-- `_ACTIVE_STATES`.
abbrev pub is_active : DownloadState → Bool
is_active queued = true
is_active validating = true
is_active downloading = true
is_active verifying = true
is_active activating = true
is_active _ = false

-- `_TERMINAL_STATES`.
abbrev pub is_terminal : DownloadState → Bool
is_terminal completed = true
is_terminal cancelled = true
is_terminal failed = true
is_terminal _ = false

-- `_STATE_ORDER`, which has no place for the two states that end a job early.
abbrev pub order : DownloadState → Option ℕ
order queued = some 0
order validating = some 1
order downloading = some 2
order verifying = some 3
order activating = some 4
order completed = some 5
order cancelled = none
order failed = none

pub record DownloadJob : Type 0 where
  pub id : String
  pub repository_id : String
  pub requested_revision : Option String
  pub engine_installation_id : String
  pub state : DownloadState
  pub bytes_downloaded : ℕ
  pub total_bytes : Option ℕ
  pub phase : String
  pub staging_path : String
  pub target_model_id : Option String
  pub cancellation_requested : Bool
  pub correlation_id : String
  pub error : Option Fields
  pub created_at : String
  pub updated_at : String

-- A row of `model_installations`.
pub record ModelRow : Type 0 where
  pub id : String
  pub repository_id : String
  pub requested_revision : Option String
  pub resolved_commit : String
  pub engine_installation_id : String
  pub compatibility_evidence : Fields
  pub runtime_variant : String
  pub manifest : Fields
  pub checksum_summary : Fields
  pub byte_size : ℕ
  pub cache_path : String
  pub desired_load_state : String
  pub observed_load_state : String
  pub replica_summary : Fields
  pub last_error : Option Fields
  pub created_at : String
  pub updated_at : String

-- A row of `engine_installations`.
pub record EngineRow : Type 0 where
  pub id : String
  pub engine_id : String
  pub version : String
  pub command : List String
  pub working_directory : String
  pub environment : Fields
  pub capabilities : Fields
  pub lifecycle_state : String
  pub last_error : Option Fields
  pub created_at : String
  pub updated_at : String

pub record Db : Type 0 where
  pub engines : List EngineRow
  pub models : List ModelRow
  pub downloads : List DownloadJob

abbrev pub engine_key : EngineRow → String
engine_key e = e.id

abbrev pub model_key : ModelRow → String
model_key m = m.id

abbrev pub repository_key : ModelRow → String
repository_key m = m.repository_id

abbrev pub download_key : DownloadJob → String
download_key j = j.id

abbrev pub download_at : String → Db → Option DownloadJob
download_at k db = select download_key k db.downloads

abbrev pub model_at : String → Db → Option ModelRow
model_at k db = select model_key k db.models
