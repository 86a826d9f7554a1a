-- ===== src/Models/Activate.antt =====
-- src/tts_studio/models/registry.py: `ModelRegistry.activate_model` and `remove_model`.
use tts_studio.Base.{
  ℕ, String, Bool, true, false, not, ◌&&◌, ◌||◌, Option, none, some, List, [], ◌∷◌, ◌++◌, is_some,
  str_eq, opt_eq, if◌then◌else◌,
}
use tts_studio.Base.Exec.{
  ok, err, Exec, pure, lift, gets, raise_if, modify, transaction, ◌>>=◌, ◌>>◌,
  invalid_registry_data, invalid_download_transition, integrity_error,
}
use tts_studio.Base.Int.{ℤ, to_nat}
use tts_studio.Base.Json.{Fields, finite_fields}
use tts_studio.Base.Table.{select, update, delete}
use tts_studio.Models.Domain.{
  DownloadState, activating, completed, DownloadJob, ModelRow, Db, download_key, engine_key,
  model_key, model_at, repository_key,
}
use tts_studio.Models.Paths.{managed_relative_path}
use tts_studio.Models.Downloads.{find_download, required_text, is_encodable}
use tts_studio.Models.Installations.{
  Numbers, ModelInstallation, installation, set_models, model_read_back,
}

-- The arguments of `activate_model`.
pub record Activation : Type 0 where
  pub download_job_id : String
  pub model_id : String
  pub repository_id : String
  pub requested_revision : Option String
  pub resolved_commit : String
  pub engine_installation_id : String
  pub compatibility_evidence : Fields
  pub runtime_variant : String
  pub manifest : Fields
  pub checksum_summary : Fields
  pub byte_size : ℤ
  pub cache_path : String
  pub desired_load_state : String
  pub observed_load_state : String
  pub replica_summary : Fields
  pub last_error : Option Fields

abbrev pub are_encodable : Activation → Bool
are_encodable a =
    finite_fields a.compatibility_evidence
    && finite_fields a.manifest
    && finite_fields a.checksum_summary
    && finite_fields a.replica_summary
    && is_encodable a.last_error

abbrev pub activated : String → ℕ → String → Activation → ModelRow
activated now size path a = record {
  id = a.model_id;
  repository_id = a.repository_id;
  requested_revision = a.requested_revision;
  resolved_commit = a.resolved_commit;
  engine_installation_id = a.engine_installation_id;
  compatibility_evidence = a.compatibility_evidence;
  runtime_variant = a.runtime_variant;
  manifest = a.manifest;
  checksum_summary = a.checksum_summary;
  byte_size = size;
  cache_path = path;
  desired_load_state = a.desired_load_state;
  observed_load_state = a.observed_load_state;
  replica_summary = a.replica_summary;
  last_error = a.last_error;
  created_at = now;
  updated_at = now;
}

abbrev pub without_target : String → DownloadJob → DownloadJob
without_target id j =
    if opt_eq j.target_model_id (some id) then record j { target_model_id = none } else j

-- `ON DELETE SET NULL`, for one deleted model.
unfoldable pub null_target : String → List DownloadJob → List DownloadJob
null_target id [] = []
null_target id (j ∷ t) = without_target id j ∷ null_target id t

-- The column `repository_id` is unique, so its DELETE removes one row at most.
abbrev pub null_targets_of : Option ModelRow → List DownloadJob → List DownloadJob
null_targets_of none t = t
null_targets_of (some m) t = null_target m.id t

-- `DELETE FROM model_installations WHERE repository_id = ?`.
abbrev pub without_repository : String → Db → Db
without_repository r db = record db {
  models = delete repository_key r db.models;
  downloads = null_targets_of (select repository_key r db.models) db.downloads;
}

abbrev pub finished : String → String → DownloadJob → DownloadJob
finished now id j = record j {
  state = completed;
  phase = "completed";
  target_model_id = some id;
  updated_at = now;
}

abbrev pub is_activating : DownloadState → Bool
is_activating activating = true
is_activating _ = false

-- What the INSERT refuses after the DELETE: a model with the same id, or an engine that is unknown.
abbrev pub breaks_keys : Activation → Db → Bool
breaks_keys a db =
    is_some (model_at a.model_id db)
    || not (is_some (select engine_key a.engine_installation_id db.engines))

-- The texts of the new row, which are checked after the DELETE.
unfoldable pub required_texts : Activation → Exec Db Unit
required_texts a = do
  required_text a.model_id
  required_text a.repository_id
  required_text a.resolved_commit
  required_text a.engine_installation_id
  required_text a.runtime_variant
  required_text a.desired_load_state
  required_text a.observed_load_state

-- The statements that write: the old model goes, the new one comes, and the job is completed.
unfoldable pub replace_model : String → ℕ → String → Activation → Exec Db ModelRow
unfolding null_target required_texts
replace_model now size path a = do
  modify (without_repository a.repository_id)
  required_texts a
  broken ← gets (breaks_keys a)
  raise_if broken integrity_error
  set_models (λ t. t ++ activated now size path a ∷ [])
  modify (λ db. record db {
    downloads = update download_key a.download_job_id (finished now a.model_id) db.downloads;
  })
  model_read_back a.model_id

-- The job must be activating, and be of the same repository and engine.
unfoldable pub check_job : Activation → Exec Db Unit
check_job a = do
  job ← find_download a.download_job_id
  raise_if (not (is_activating job.state)) invalid_download_transition
  raise_if (not (str_eq job.repository_id a.repository_id)) invalid_registry_data
  raise_if (not (str_eq job.engine_installation_id a.engine_installation_id)) invalid_registry_data

-- `activate_model` up to the commit.
unfoldable pub activate_row : String → Activation → Exec Db ModelRow
unfolding check_job replace_model
activate_row now a = do
  size ← lift (elim (to_nat a.byte_size) [ none ↦ err invalid_registry_data | some n ↦ ok n ])
  path ← lift (managed_relative_path a.cache_path "models")
  raise_if (not (are_encodable a)) invalid_registry_data
  transaction do check_job a; replace_model now size path a

unfoldable pub activate_model : Numbers → String → Activation → Exec Db ModelInstallation
unfolding activate_row
activate_model numbers now a = do m ← activate_row now a; installation numbers m

unfoldable pub remove_model : String → Exec Db Bool
unfolding null_target
remove_model k = transaction do
  found ← gets (λ db. is_some (model_at k db))
  modify (λ db. record db {
    models = delete model_key k db.models;
    downloads = if found then null_target k db.downloads else db.downloads;
  })
  pure found
