-- ===== src/Generation/Run/Locals.antt =====
-- src/tts_studio/generation/service.py, `_run_job`: what the task is answered, its locals, and what it
-- makes of a job, a model and a reference.
use Prim.Native.Char.{code}
use tts_studio.Base.{
  ℕ, String, Bool, true, false, not, ◌&&◌, ◌||◌, Option, none, some, List, [], ◌∷◌, ◌==◌, leb,
  is_some, str_eq, if◌then◌else◌,
}
use tts_studio.Base.Exec.{
  Error, Result, ok, err, Exec, generation_failure, generation_capability, worker_failure,
}
use tts_studio.Base.Int.{pos}
use tts_studio.Base.Table.{select, delete}
use tts_studio.Registry.Domain.{GenerationJob, SynthesisOptions}
use tts_studio.Registry.Jobs.{Progress, no_progress}
use tts_studio.Registry.Artifacts.{NewArtifact}
use tts_studio.Registry.Paths.{glue}
use tts_studio.Models.Domain.{ModelRow}
use tts_studio.Providers.Profiles.{ProviderProfile}
use tts_studio.Providers.Table.{profile_key}
use tts_studio.Workers.Domain.{WorkerCapabilities, supports}
use tts_studio.Generation.State.{Core, ReferenceHandle, held_key, Answer}
use tts_studio.Generation.Stream.{Arrival, StreamResult}

-- A saved Voice, by the fields that the task reads.
pub record SavedVoice : Type 0 where
  pub id : String
  pub model_id : String
  pub relative_path : String
  pub transcript : Option String

-- The file that `finalize` has published: its name, its size and its digest.
pub record Published : Type 0 where
  pub name : String
  pub byte_size : ℕ
  pub sha256 : String

-- The answers of a run. `saved_voice` is the answer of the saved Voice service, if it is configured.
pub record Answers : Type 0 where
  pub saved_voice : Option (Result SavedVoice)
  pub acquire : Answer WorkerCapabilities
  pub load : Answer (Unit {0})
  pub open_writer : Result (Unit {0})
  pub environ : String → Option String
  pub synthesize : Result (Unit {0})
  pub arrivals : List Arrival
  pub finalize : Result Published
  pub abort : Result (Unit {0})
  pub release : Result (Unit {0})
  pub unload : Answer (Unit {0})
  pub close_stream : Answer (Unit {0})
  pub unload_again : Answer (Unit {0})
  pub discard : Result (Unit {0})
  pub abort_again : Result (Unit {0})
  pub release_again : Result (Unit {0})

-- The stores, and the locals of the task that its `finally` reads.
pub record Task : Type 0 where
  pub core : Core
  pub has_writer : Bool
  pub has_stream : Bool
  pub is_loaded : Bool
  pub published : Option String
  pub is_committed : Bool

-- `_unload_model`, of the answer of the lease.
abbrev unloaded : Result (Unit {0}) → Result (Unit {0})
unloaded (err (worker_failure code retryable)) =
    if str_eq code "model_not_loaded" then ok tt else err (worker_failure code retryable)
unloaded r = r

unfoldable pub unload : Answer (Unit {0}) → Exec Core (Unit {0})
unload x c = (unloaded x.result, x.others c)

abbrev pub begun : Core → Task
begun c = record {
  core = c;
  has_writer = false;
  has_stream = false;
  is_loaded = false;
  published = none;
  is_committed = false;
}

unfoldable pub in_core : {A : Type 0} → Exec Core A → Exec Task A
in_core m t = let r = m t.core in (r.0, record t { core = r.1 })

is_word_char : ℕ → Bool
is_word_char c =
    (leb b'A' c && leb c b'Z')
    || (leb b'a' c && leb c b'z')
    || (leb b'0' c && leb c b'9')
    || c == b'_'
    || c == b'.'
    || c == b'-'

-- `re.sub(r"[^A-Za-z0-9_.-]", "-", job_id)`.
safe_id : String → String
unfolding is_word_char
safe_id String.[] = String.[]
safe_id (String.◌∷◌ c s) =
    let rest = safe_id s in if is_word_char (code c) then String.◌∷◌ c rest else glue "-" rest

-- `_artifact_id`.
unfoldable pub artifact_id : String → String
unfolding safe_id
artifact_id k = glue "generation-" (safe_id k)

-- `bool(value)` of an optional text.
abbrev pub is_given : Option String → Bool
is_given none = false
is_given (some s) = not (str_eq s "")

-- `_require_option_capabilities`.
abbrev is_supported : String → WorkerCapabilities → Bool → Bool
is_supported name c asked = not asked || supports name c

unfoldable pub require_option_capabilities :
    WorkerCapabilities → Option SynthesisOptions → Result (Unit {0})
require_option_capabilities c none = ok tt
require_option_capabilities c (some o) =
    if is_supported "speed" c (is_some o.speed)
      && is_supported "pitch" c (is_some o.pitch)
      && is_supported "volume" c (is_some o.volume)
    then ok tt
    else err generation_capability

-- `_provider_config` of the id of a provider; the environment is read by name.
unfoldable pub provider_config :
    (String → Option String) → Option (List ProviderProfile) → String → Result (Unit {0})
provider_config environ none k = err (
    generation_failure "provider_configuration_missing" "The provider configuration is unavailable."
      true)
provider_config environ (some ps) k = elim (select profile_key k ps) [
  | none ↦ err (
      generation_failure "provider_configuration_missing"
        "The provider configuration is unavailable." false)
  | some p ↦
      if is_given (environ p.api_key_env)
      then ok tt
      else err (
          generation_failure "provider_configuration_missing"
            "The provider credential is not configured." true)
]

-- The configuration of a job's provider, and the test of `build_synthesis_request`.
abbrev pub configured : (String → Option String) → Core → Option String → Result (Unit {0})
configured environ c none = ok tt
configured environ c (some k) = provider_config environ c.providers k

abbrev pub reference_path : Option ReferenceHandle → Option String
reference_path none = none
reference_path (some h) = some h.relative_path

abbrev pub both_or_neither : Bool → Bool → Bool
both_or_neither a b = (a && b) || not (a || b)

abbrev pub handle_at : String → Core → Option ReferenceHandle
handle_at k c = elim (select held_key k c.handles) [ none ↦ none | some h ↦ some h.handle ]

abbrev pub drop_handle : String → Core → Core
drop_handle k c = record c { handles = delete held_key k c.handles }

-- The handle that stands for a saved Voice.
saved_handle : Answers → ModelRow → Result ReferenceHandle
saved_handle a m = elim a.saved_voice [
  | none ↦ err (
      generation_failure "saved_voice_recovery_required" "Saved Voice service is not configured."
        true)
  | some (err e) ↦
      err (generation_failure "saved_voice_not_found" "The saved Voice no longer exists." false)
  | some (ok v) ↦
      if str_eq v.model_id m.id
      then ok (record {
        reference_id = v.id;
        relative_path = v.relative_path;
        transcript = v.transcript;
        temporary = false;
      })
      else err (
          generation_failure "saved_voice_model_mismatch"
            "The saved Voice is pinned to a different model." false)
]

-- The reference of the job: the handle that the service holds, or that of its saved Voice.
unfoldable pub reference_of :
    Answers → ModelRow → GenerationJob → Option ReferenceHandle → Result (Option ReferenceHandle)
unfolding saved_handle
reference_of a m j (some h) = ok (some h)
reference_of a m j none =
    if is_some j.saved_voice_id
    then elim (saved_handle a m) [ err e ↦ err e | ok h ↦ ok (some h) ]
    else if is_some j.reference_id
    then err (
        generation_failure "reference_recovery_required"
          "Reference handoff was lost; generation requires recovery." true)
    else ok none

unfoldable pub unsupported : String → Error
unsupported message = generation_failure "capability_unsupported" message true

-- The counts and the format of a finished stream.
abbrev pub finalized : StreamResult → Progress
finalized r = record no_progress {
  bytes_written = some (pos r.pcm.byte_count);
  frame_count = some (pos r.pcm.frame_count);
  sample_rate = some (pos r.pcm.format.sample_rate);
  channel_count = some (pos r.pcm.format.channels);
}

abbrev pub counted : StreamResult → Progress
counted r = record no_progress {
  bytes_written = some (pos r.pcm.byte_count);
  frame_count = some (pos r.pcm.frame_count);
}

abbrev optional_pos : Option ℕ → Option tts_studio.Base.Int.ℤ
optional_pos none = none
optional_pos (some n) = some (pos n)

abbrev pub artifact_of : GenerationJob → Published → StreamResult → NewArtifact
artifact_of j p r = record {
  job_id = j.id;
  artifact_id = some (artifact_id j.id);
  path = glue "audio/" p.name;
  byte_size = pos p.byte_size;
  sha256 = p.sha256;
  sample_rate = pos r.pcm.format.sample_rate;
  channel_count = pos r.pcm.format.channels;
  frame_count = pos r.pcm.frame_count;
  duration_ms = optional_pos r.duration_ms;
}
