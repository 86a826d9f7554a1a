-- ===== src/Providers/Table.antt =====
-- src/tts_studio/providers/registry.py: `ProviderRegistry` over its table and the Generation Jobs.
use tts_studio.Base.{
  String, Bool, false, not, ◌&&◌, ◌||◌, Option, some, List, [], ◌∷◌, ◌++◌, is_some, opt_eq,
  value_or,
}
use tts_studio.Base.Exec.{
  Exec, lift, gets, required, raise_if, modify, transaction, read, ◌>>=◌, ◌>>◌, provider_not_found,
  provider_in_use, integrity_error,
}
use tts_studio.Base.Table.{select, update, delete}
use tts_studio.Registry.Domain.{GenerationJob, is_terminal}
use tts_studio.Registry.Jobs.{or_fresh}
use tts_studio.Providers.Egress.{Net}
use tts_studio.Providers.Profiles.{
  ProviderProfile, ProviderInput, validate_provider_input, strip, rstrip, is_slash,
}

pub record Db : Type 0 where
  pub profiles : List ProviderProfile
  pub jobs : List GenerationJob

abbrev pub profile_key : ProviderProfile → String
profile_key p = p.id

abbrev pub profile_at : String → Db → Option ProviderProfile
profile_at k db = select profile_key k db.profiles

-- `_required` of the row with an id.
abbrev pub find_profile : String → Exec Db ProviderProfile
find_profile k db = required provider_not_found (profile_at k db) db

-- The columns of an input, as both statements write them.
abbrev pub written : String → ProviderInput → ProviderProfile → ProviderProfile
written now a p = record p {
  kind = a.kind;
  label = strip a.label;
  base_url = rstrip is_slash a.base_url;
  model = strip a.model;
  api_key_env = a.api_key_env;
  updated_at = now;
}

abbrev pub new_profile : String → String → ProviderInput → ProviderProfile
new_profile now id a = record {
  id = id;
  kind = a.kind;
  label = strip a.label;
  base_url = rstrip is_slash a.base_url;
  model = strip a.model;
  api_key_env = a.api_key_env;
  created_at = now;
  updated_at = now;
}

-- The values of an update that are supplied.
pub record Patch : Type 0 where
  pub kind : Option String
  pub label : Option String
  pub base_url : Option String
  pub model : Option String
  pub api_key_env : Option String

abbrev pub merged : ProviderProfile → Patch → ProviderInput
merged p a = record {
  kind = value_or p.kind a.kind;
  label = value_or p.label a.label;
  base_url = value_or p.base_url a.base_url;
  model = value_or p.model a.model;
  api_key_env = value_or p.api_key_env a.api_key_env;
}

-- Whether a job that has not ended names the provider.
unfoldable pub is_used : String → List GenerationJob → Bool
is_used k [] = false
is_used k (j ∷ js) = (opt_eq j.provider_id (some k) && not (is_terminal j.state)) || is_used k js

unfoldable pub get_profile : String → Exec Db ProviderProfile
get_profile k = read (find_profile k)

module _ (net : Net) where
  unfoldable pub create_profile :
      String → String → Option String → ProviderInput → Exec Db ProviderProfile
  create_profile now fresh provider_id a = do
    lift (validate_provider_input net a)
    let id = or_fresh fresh provider_id
    transaction do
      taken ← gets (λ db. is_some (profile_at id db))
      raise_if taken integrity_error
      modify (λ db. record db { profiles = db.profiles ++ new_profile now id a ∷ [] })
      find_profile id

  unfoldable pub update_profile : String → String → Patch → Exec Db ProviderProfile
  unfolding get_profile
  update_profile now k a = do
    current ← get_profile k
    lift (validate_provider_input net (merged current a))
    transaction do
      modify (λ db. record db {
        profiles = update profile_key k (written now (merged current a)) db.profiles;
      })
      find_profile k

unfoldable pub delete_profile : String → Exec Db (Unit {0})
unfolding is_used
delete_profile k = transaction do
  find_profile k
  used ← gets (λ db. is_used k db.jobs)
  raise_if used provider_in_use
  modify (λ db. record db { profiles = delete profile_key k db.profiles })
