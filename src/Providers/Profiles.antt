-- ===== src/Providers/Profiles.antt =====
-- src/tts_studio/providers/service.py, `validate_provider_input`, and the record of a profile.
use Prim.Native.Char.{code}
use Prim.Native.String.{count}
use tts_studio.Base.{
  ℕ, String, Bool, false, not, ◌&&◌, ◌||◌, none, some, ltb, ◌==◌, is_some, str_eq, if◌then◌else◌,
}
use tts_studio.Base.Tests.{is_space}
use tts_studio.Base.Exec.{
  Error, Result, ok, err, value_error, provider_egress, invalid_provider_profile,
}
use tts_studio.Settings.{is_env_name}
use tts_studio.Providers.Egress.{Net, Url, is_web, validate_provider_egress}

pub record ProviderProfile : Type 0 where
  pub id : String
  pub kind : String
  pub label : String
  pub base_url : String
  pub model : String
  pub api_key_env : String
  pub created_at : String
  pub updated_at : String

-- The keyword arguments of the checks.
pub record ProviderInput : Type 0 where
  pub kind : String
  pub label : String
  pub base_url : String
  pub model : String
  pub api_key_env : String

unfoldable pub lstrip : String → String
lstrip String.[] = String.[]
lstrip (String.◌∷◌ c s) = let rest = lstrip s in if is_space (code c) then rest else String.◌∷◌ c s

-- The text without the characters at its end that pass a test.
unfoldable pub rstrip : (ℕ → Bool) → String → String
rstrip test String.[] = String.[]
rstrip test (String.◌∷◌ c s) =
    let rest = rstrip test s in
    if str_eq rest "" && test (code c) then String.[] else String.◌∷◌ c rest

-- `value.strip()`.
abbrev pub strip : String → String
strip s = rstrip is_space (lstrip s)

abbrev pub is_slash : ℕ → Bool
is_slash c = c == b'/'

abbrev is_name_of : ℕ → String → Bool
is_name_of limit s = not (str_eq (strip s) "") && not (ltb limit (count (strip s)))

abbrev is_base : Url → Bool
is_base u =
    is_web u.scheme
    && not (str_eq u.netloc "")
    && str_eq u.query ""
    && str_eq u.fragment ""
    && not (is_some u.username)
    && not (is_some u.password)

-- `except ProviderEgressError`.
abbrev as_profile : Error → Error
as_profile provider_egress = invalid_provider_profile
as_profile e = e

abbrev refused : Result (Unit {0}) → Result (Unit {0})
refused (ok u) = ok u
refused (err e) = err (as_profile e)

unfoldable pub validate_provider_input : Net → ProviderInput → Result (Unit {0})
validate_provider_input net p =
    if not (str_eq p.kind "openai_compatible")
      || not (is_name_of 120 p.label)
      || not (is_name_of 256 p.model)
      || not (is_env_name p.api_key_env)
    then err invalid_provider_profile
    else elim (net.split p.base_url) [
      | none ↦ err value_error
      | some u ↦
          if not (is_base u)
          then err invalid_provider_profile
          else refused (validate_provider_egress net p.base_url false)
    ]
