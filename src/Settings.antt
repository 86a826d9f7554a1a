-- ===== src/Settings.antt =====
-- src/tts_studio/settings: the Core settings, their one row, and the service over them. A field that
-- is not supplied is `none`; a supplied value may itself be absent.
pub mod Laws
pub mod Retention
mod Tests
use Prim.Native.Char.{code}
use tts_studio.Base.{
  ℕ, ◌+◌, String, Bool, true, false, not, ◌&&◌, ◌||◌, Option, none, some, List, [], ◌∷◌, ◌++◌, leb,
  ◌==◌, is_some, value_or, has_nul, is_blank, if◌then◌else◌,
}
use tts_studio.Base.Exec.{
  Error, Result, ok, err, Exec, pure, lift, gets, modify, required, transaction, read, ◌>>=◌, ◌>>◌,
  runtime_error, invalid_settings_data, settings_validation,
}
use tts_studio.Base.Int.{ℤ, is_positive}

pub record CoreSettings : Type 0 where
  pub retain_audio_by_default : Bool
  pub artifact_max_age_days : Option ℤ
  pub artifact_max_storage_bytes : Option ℤ
  pub api_token_env : Option String

-- `[A-Za-z_]`, and `[A-Za-z0-9_]`.
is_name_start : ℕ → Bool
is_name_start c = (leb b'A' c && leb c b'Z') || (leb b'a' c && leb c b'z') || c == b'_'

is_name_part : ℕ → Bool
unfolding is_name_start
is_name_part c = is_name_start c || (leb b'0' c && leb c b'9')

are_name_parts : String → Bool
unfolding is_name_part
are_name_parts String.[] = true
are_name_parts (String.◌∷◌ c s) = is_name_part (code c) && are_name_parts s

-- `_ENV_NAME.fullmatch`.
unfoldable pub is_env_name : String → Bool
unfolding is_name_start are_name_parts
is_env_name String.[] = false
is_env_name (String.◌∷◌ c s) = is_name_start (code c) && are_name_parts s

abbrev is_limit : Option ℤ → Bool
is_limit none = true
is_limit (some z) = is_positive z

abbrev is_token : Option String → Bool
is_token none = true
is_token (some s) = not (is_blank s) && not (has_nul s) && is_env_name s

-- `CoreSettings.__post_init__`.
unfoldable pub is_valid : CoreSettings → Bool
is_valid s =
    is_limit s.artifact_max_age_days
    && is_limit s.artifact_max_storage_bytes
    && is_token s.api_token_env

-- The row of `core_settings`, which may be missing.
pub record Row : Type 0 where
  pub columns : CoreSettings
  pub updated_at : String

abbrev pub Table : Type 0
Table = Option Row

-- `_settings` and `_validated`: both build a `CoreSettings`.
abbrev pub validated : CoreSettings → Result CoreSettings
validated s = if is_valid s then ok s else err invalid_settings_data

abbrev pub defaults : CoreSettings
defaults = record {
  retain_audio_by_default = true;
  artifact_max_age_days = none;
  artifact_max_storage_bytes = none;
  api_token_env = none;
}

abbrev row_of : String → CoreSettings → Row
row_of now s = record { columns = s; updated_at = now }

-- The upsert of the row, which is read back.
write_row : String → CoreSettings → Exec Table Row
write_row now s = do
  modify (λ _. some (row_of now s))
  row ← gets (λ t. t)
  required runtime_error row

-- The row is decoded after the transaction has been committed.
unfoldable pub reset_or_initialize : String → Exec Table CoreSettings
unfolding write_row
reset_or_initialize now = do
  row ← transaction (write_row now defaults)
  lift (validated row.columns)

unfoldable pub get_settings : String → Exec Table CoreSettings
unfolding reset_or_initialize
get_settings now = do
  row ← read (gets (λ t. t))
  elim row [ none ↦ reset_or_initialize now | some r ↦ lift (validated r.columns) ]

pub record SettingsPatch : Type 0 where
  pub retain_audio_by_default : Option Bool
  pub artifact_max_age_days : Option (Option ℤ)
  pub artifact_max_storage_bytes : Option (Option ℤ)
  pub api_token_env : Option (Option String)

abbrev is_supplied : SettingsPatch → Bool
is_supplied p =
    is_some p.retain_audio_by_default
    || is_some p.artifact_max_age_days
    || is_some p.artifact_max_storage_bytes
    || is_some p.api_token_env

-- `getattr(current, field) if value is _UNSET else value`.
abbrev pub merge : SettingsPatch → CoreSettings → CoreSettings
merge p s = record {
  retain_audio_by_default = value_or s.retain_audio_by_default p.retain_audio_by_default;
  artifact_max_age_days = value_or s.artifact_max_age_days p.artifact_max_age_days;
  artifact_max_storage_bytes = value_or s.artifact_max_storage_bytes p.artifact_max_storage_bytes;
  api_token_env = value_or s.api_token_env p.api_token_env;
}

abbrev pub current_of : Table → Result CoreSettings
current_of none = ok defaults
current_of (some r) = validated r.columns

-- `CoreSettingsRepository.update`.
unfoldable pub update : String → SettingsPatch → Exec Table CoreSettings
unfolding get_settings write_row
update now p = if not (is_supplied p) then get_settings now else (do
  row ← transaction do
    table ← gets (λ t. t)
    current ← lift (current_of table)
    candidate ← lift (validated (merge p current))
    write_row now candidate
  lift (validated row.columns))

-- `except (InvalidSettingsDataError, TypeError, ValueError)`.
abbrev as_validation : Error → Error
as_validation invalid_settings_data = settings_validation
as_validation e = e

abbrev renamed : Result CoreSettings × Table → Result CoreSettings × Table
renamed (ok s, t) = (ok s, t)
renamed (err e, t) = (err (as_validation e), t)

-- `SettingsService.update_settings`.
unfoldable pub update_settings : String → SettingsPatch → Exec Table CoreSettings
unfolding update
update_settings now p t = renamed (update now p t)

-- `SettingsService.apply_generation_defaults`.
unfoldable pub apply_generation_defaults : String → Option Bool → Exec Table Bool
unfolding get_settings
apply_generation_defaults now (some b) = pure b
apply_generation_defaults now none = do s ← get_settings now; pure s.retain_audio_by_default
