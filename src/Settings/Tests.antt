-- ===== src/Settings/Tests.antt =====
-- The results on settings, applied to concrete settings and artifacts.
use tts_studio.Base.{
  ◌≡◌, refl, String, true, false, none, some, List, [], ◌∷◌, str_eq, if◌then◌else◌, Bool,
}
use tts_studio.Base.Exec.{Result, ok, err, transaction, os_error}
use tts_studio.Base.Int.{pos}
use tts_studio.Registry.Domain.{AudioArtifact}
use tts_studio.Settings.{
  CoreSettings, SettingsPatch, Row, defaults, is_valid, update, update_settings, get_settings,
  merge,
}
use tts_studio.Settings.Laws.{update_settings_get}
use tts_studio.Settings.Retention.{
  Owner, RetentionClearResult, clear_retention, clear_retention_total, attempts, Sums,
  nothing_cleared,
}

abbrev patch : SettingsPatch
patch = record {
  retain_audio_by_default = some false;
  artifact_max_age_days = some (some (pos 7));
  artifact_max_storage_bytes = none;
  api_token_env = some none;
}

abbrev bad_patch : SettingsPatch
bad_patch = record patch { artifact_max_age_days = some (some (pos 0)) }

abbrev row : Row
row = record { columns = defaults; updated_at = "t0" }

abbrev changed : CoreSettings
changed = record defaults { retain_audio_by_default = false; artifact_max_age_days = some (pos 7) }

abbrev changed_row : Row
changed_row = record { columns = changed; updated_at = "t1" }

update_settings_get_example :
    (changed ≡ merge patch defaults)
    × (is_valid changed ≡ true)
    × (get_settings "t2" (some changed_row) ≡ (ok changed, some changed_row))
unfolding update_settings update transaction is_valid
update_settings_get_example =
    update_settings_get "t1" "t2" patch (some row) (some changed_row) defaults changed refl refl

abbrev artifact : String → AudioArtifact
artifact id = record {
  id = id;
  job_id = id;
  path = "audio/a.wav";
  byte_size = 64;
  sha256 = "";
  sample_rate = 48000;
  channel_count = 1;
  frame_count = 10;
  duration_ms = none;
  created_at = "t0";
  retained_at = "t0";
}

abbrev three : List AudioArtifact
three = artifact "a" ∷ artifact "b" ∷ artifact "c" ∷ []

abbrev removal : String → Result Bool
removal id = if str_eq id "a" then ok true else if str_eq id "b" then ok false else err os_error

-- The state is the number of deletions that were tried.
abbrev owner : Owner (List String)
owner = record { list_history = λ s. (ok three, s); delete_artifact = λ id s. (removal id, id ∷ s) }

clear_retention_example :
    (q : RetentionClearResult) × (clear_retention owner [] ≡ (ok q, (attempts owner three []).1))
    × Sums owner (attempts owner three []).0 nothing_cleared q
clear_retention_example = clear_retention_total owner three [] [] refl
