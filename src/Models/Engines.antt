-- ===== src/Models/Engines.antt =====
-- src/tts_studio/models/registry.py: `ModelRegistry.upsert_engine_installation`.
use tts_studio.Base.{
  Bool, false, not, ◌&&◌, ◌||◌, List, [], ◌∷◌, ◌++◌, is_some, str_eq, if◌then◌else◌,
}
use tts_studio.Base.Exec.{
  Exec, gets, raise_if, modify, transaction, ◌>>=◌, ◌>>◌, invalid_registry_data, integrity_error,
}
use tts_studio.Base.Json.{finite_fields}
use tts_studio.Base.Table.{select, update}
use tts_studio.Models.Domain.{EngineRow, Db, engine_key}
use tts_studio.Models.Downloads.{required_text, is_encodable}

-- `INSERT … ON CONFLICT(id) DO UPDATE`: the columns but for `created_at`.
abbrev pub overwritten : EngineRow → EngineRow → EngineRow
overwritten new old = record new { created_at = old.created_at }

-- Another row has the same engine and version.
pub is_version_taken : EngineRow → List EngineRow → Bool
is_version_taken e [] = false
is_version_taken e (x ∷ t) =
    (not (str_eq x.id e.id) && str_eq x.engine_id e.engine_id && str_eq x.version e.version)
    || is_version_taken e t

abbrev pub upserted : EngineRow → List EngineRow → List EngineRow
upserted e t =
    if is_some (select engine_key e.id t)
    then update engine_key e.id (overwritten e) t
    else t ++ e ∷ []

-- The row has the arguments, and the time of the call in both time stamps.
unfoldable pub upsert_engine_installation : EngineRow → Exec Db Unit
unfolding is_version_taken
upsert_engine_installation e = do
  raise_if
      (not
        (finite_fields e.environment && finite_fields e.capabilities && is_encodable e.last_error))
      invalid_registry_data
  transaction do
    required_text e.id
    required_text e.engine_id
    required_text e.version
    required_text e.working_directory
    required_text e.lifecycle_state
    taken ← gets (λ db. is_version_taken e db.engines)
    raise_if taken integrity_error
    modify (λ db. record db { engines = upserted e db.engines })
