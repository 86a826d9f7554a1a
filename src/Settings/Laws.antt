-- ===== src/Settings/Laws.antt =====
-- What an update of the settings writes.
use tts_studio.Base.{String, ◌≡◌, refl, true, arith}
use tts_studio.Base.Exec.{Error, ok, err, transaction, read}
use tts_studio.Settings.{
  CoreSettings, SettingsPatch, defaults, Table, is_valid, current_of, merge, update_settings,
  get_settings, update, reset_or_initialize,
}

defaults_valid : is_valid defaults ≡ true
unfolding is_valid
defaults_valid = refl

-- An update that succeeds returns the valid settings that have the supplied values and keep the
-- others; every later reading returns them and changes nothing.
pub update_settings_get :
    (now later : String) (p : SettingsPatch) (t t' : Table) (c s : CoreSettings)
    → current_of t ≡ ok c
    → update_settings now p t ≡ (ok s, t')
    → (s ≡ merge p c) × (is_valid s ≡ true) × (get_settings later t' ≡ (ok s, t'))
unfolding update_settings update get_settings reset_or_initialize transaction read
update_settings_get now later p t t' c s e h = ground arith

-- An update that raises leaves the row as it was.
update_settings_err :
    (now : String) (p : SettingsPatch) (t t' : Table) (x : Error)
    → update_settings now p t ≡ (err x, t')
    → t' ≡ t
unfolding update_settings update get_settings reset_or_initialize transaction read
update_settings_err now p t t' x h = ground (arith, defaults_valid)
