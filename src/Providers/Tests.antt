-- ===== src/Providers/Tests.antt =====
-- The results on providers, applied to a concrete profile and a small network.
use tts_studio.Base.{
  ℕ, String, ◌≡◌, ◌≢◌, refl, true, false, none, some, List, [], ◌∷◌, All, str_eq, if◌then◌else◌,
  ◌==◌, value_or,
}
use tts_studio.Base.Exec.{transaction}
use tts_studio.Base.Table.{select, delete}
use tts_studio.Registry.Domain.{GenerationJob, GenerationState}
use tts_studio.Providers.Egress.{Url, Net, is_unsupported, provider_addresses}
use tts_studio.Providers.Policy.{IsTarget, provider_addresses-IsPermitted}
use tts_studio.Providers.Profiles.{ProviderProfile}
use tts_studio.Providers.Table.{Db, profile_at, delete_profile}
use tts_studio.Providers.Usage.{HasLeft, delete_profile_unused}

abbrev target : Url
target = record {
  scheme = "https";
  netloc = "tts.example";
  query = "";
  fragment = "";
  username = none;
  password = none;
  port = some none;
  hostname = some "tts.example";
}

-- Every name has one address, 8, which is global, and no host is an address.
abbrev net : Net
net = record {
  Address = ℕ;
  split = λ s. some target;
  lower = λ s. s;
  ip_address = λ s. if str_eq s "8" then some 8 else none;
  is_global = λ a. a == 8;
  is_loopback = λ a. a == 127;
  text = λ a. "8";
  getaddrinfo = λ host port. some ("8" ∷ []);
  distinct = λ bs. bs;
}

abbrev found : List ℕ
found = 8 ∷ []

provider_addresses-IsPermitted_example :
    (u : Url) × (some target ≡ some u)
    × (is_unsupported u ≡ false)
    × IsTarget net u.scheme (value_or "" u.hostname) true found
unfolding provider_addresses
provider_addresses-IsPermitted_example =
    provider_addresses-IsPermitted net "https://tts.example" true found refl

abbrev profile : String → ProviderProfile
profile id = record {
  id = id;
  kind = "openai_compatible";
  label = "Example";
  base_url = "https://tts.example";
  model = "m";
  api_key_env = "KEY";
  created_at = "t0";
  updated_at = "t0";
}

-- A job of the provider that has ended.
abbrev job : GenerationJob
job = record {
  id = "a";
  model_id = "model";
  engine_id = "engine";
  voice_id = some "voice";
  reference_id = none;
  saved_voice_id = none;
  provider_id = some "p";
  text = "";
  retain_artifact = false;
  options = none;
  state = GenerationState.failed;
  bytes_written = 0;
  frame_count = 0;
  sample_rate = none;
  channel_count = none;
  artifact_id = none;
  correlation_id = "c";
  cancellation_requested = false;
  error = none;
  created_at = "t0";
  updated_at = "t0";
  retry_of = none;
}

abbrev db : Db
db = record { profiles = profile "p" ∷ profile "q" ∷ []; jobs = job ∷ [] }

abbrev after : Db
after = record db { profiles = profile "q" ∷ [] }

delete_profile_unused_example :
    ((p : ProviderProfile) × (profile_at "p" db ≡ some p))
    × All (HasLeft "p") db.jobs
    × (profile_at "p" after ≡ none)
    × ((j : String) → j ≢ "p" → profile_at j after ≡ profile_at j db)
    × (after.jobs ≡ db.jobs)
unfolding delete_profile transaction select delete
delete_profile_unused_example = delete_profile_unused "p" db after refl
