-- ===== src/Generation/State.antt =====
-- src/tts_studio/generation/service.py: what `GenerationService` keeps, the stores that it writes,
-- and its helpers that write them: `_publish`, `_transition`, `_cancel_job`, `_fail_job`,
-- `_release_reference`, `_get_model` and `get`.
use Prim.Native.Char.{code}
use tts_studio.Base.{
  ℕ, String, Bool, true, false, not, ◌&&◌, ◌||◌, Option, none, some, List, ◌==◌, is_some, str_eq,
  if◌then◌else◌,
}
use tts_studio.Base.Exec.{
  Error, Result, ok, err, Exec, pure, gets, ◌>>=◌, ◌>>◌, record_not_found, generation_job_not_found,
  generation_model_not_found, cleanup_error,
}
use tts_studio.Base.Int.{pos}
use tts_studio.Base.Json.{Json, null, bool, int, string, object, Fields, end, field}
use tts_studio.Base.Table.{select}
use tts_studio.Events.Text.{TextRules}
use tts_studio.Events.Store.{Store, Message, append}
use tts_studio.Registry.Domain.{
  GenerationJob, GenerationState, queued, loading, generating, finalizing, completed, cancelled,
  failed, Db, is_terminal,
}
use tts_studio.Registry.Jobs.{Progress, no_progress, get_job, transition_job}
use tts_studio.Models.Domain.{ModelRow}
use tts_studio.Models.Installations.{Numbers, put}
use tts_studio.Models.Installations
use tts_studio.Models.Domain as ModelTables
use tts_studio.Providers.Profiles.{ProviderProfile}
use tts_studio.Providers.Table.{profile_key}
use tts_studio.Generation.Pcm.{Pcm}

-- `_ReferenceHandle`.
pub record ReferenceHandle : Type 0 where
  pub reference_id : String
  pub relative_path : String
  pub transcript : Option String
  pub temporary : Bool

-- The entries of `_reference_handles`.
pub record Held : Type 0 where
  pub owner : String
  pub handle : ReferenceHandle

abbrev pub held_key : Held → String
held_key h = h.owner

-- The stores that the tasks of the Core share, with the maps of the service that they change. `now`
-- is the value of `_utc_now()`. The configuration of the service does not change.
pub record Core : Type 0 where
  pub db : Db
  pub store : Store
  pub models : ModelTables.Db
  pub providers : Option (List ProviderProfile)
  pub handles : List Held
  pub pcm : Pcm
  pub streams : List String
  pub closing : Bool
  pub has_references : Bool
  pub queue_bytes : ℕ
  pub now : String

module _ {A : Type 0} where
  -- A method of the generation registry, and one of the event store.
  unfoldable pub on_db : (String → Exec Db A) → Exec Core A
  on_db m c = let r = m c.now c.db in (r.0, record c { db = r.1 })

  unfoldable pub on_store : (String → Exec Store A) → Exec Core A
  on_store m c = let r = m c.now c.store in (r.0, record c { store = r.1 })

-- `except GenerationRecordNotFoundError`.
abbrev as_missing_job : Error → Error
as_missing_job record_not_found = generation_job_not_found
as_missing_job e = e

abbrev renamed {ℓ} : {A : Type ℓ} → (Error → Error) → Result A → Result A
renamed f (ok a) = ok a
renamed f (err e) = err (f e)

unfoldable pub get : String → Exec Core GenerationJob
unfolding on_db
get k c = let r = on_db (λ now. get_job k) c in (renamed as_missing_job r.0, r.1)

-- `GenerationState.value`.
unfoldable pub state_name : GenerationState → String
state_name queued = "queued"
state_name loading = "loading"
state_name generating = "generating"
state_name finalizing = "finalizing"
state_name completed = "completed"
state_name cancelled = "cancelled"
state_name failed = "failed"

abbrev optional_text : Option String → Json
optional_text none = null
optional_text (some s) = string s

abbrev error_field : Option Fields → Fields
error_field none = end
error_field (some e) = field "error" (object e) end

-- `payload.update(extra)`.
updated_with : Fields → Fields → Fields
updated_with end p = p
updated_with (field k v fs) p = updated_with fs (put k v p)

unfoldable pub payload : GenerationJob → String → Option Fields → Fields → Fields
unfolding updated_with state_name
payload j message error extra = updated_with extra (
    field "job_id" (string j.id) (
      field "model_id" (string j.model_id) (
        field "engine_id" (string j.engine_id) (
          field "voice_id" (optional_text j.voice_id) (
            field "state" (string (state_name j.state)) (
              field "bytes_written" (int (pos j.bytes_written)) (
                field "frame_count" (int (pos j.frame_count))
                  (field "message" (string message) (error_field error)))))))))

unfoldable pub message_of : String → GenerationJob → String → Option Fields → Fields → Message
unfolding payload
message_of event_type j message error extra = record {
  event_type = event_type;
  payload = payload j message error extra;
  download_id = none;
  stream_kind = some "generation";
  stream_id = some j.id;
}

-- The value of the key `error` of an ended job.
abbrev pub error_of : String → String → Bool → Fields
error_of code message retryable =
    field "code" (string code)
      (field "message" (string message) (field "retryable" (bool retryable) end))

abbrev pub with_error : Fields → Progress
with_error e = record no_progress { error = some e }

-- `_release_reference`, with the answer of `release_terminal` and of the `get` before it.
unfoldable pub release_reference : Bool → Option ReferenceHandle → Result (Unit {0}) → Result Bool
release_reference configured none answer = ok true
release_reference configured (some h) answer =
    if not h.temporary then ok true else if not configured then ok false else elim answer [
      | ok u ↦ ok true
      | err cleanup_error ↦ ok false
      | err record_not_found ↦ ok true
      | err e ↦ err e
    ]

-- The text after a prefix.
strip_prefix : String → String → Option String
strip_prefix String.[] s = some s
strip_prefix (String.◌∷◌ c p) String.[] = none
strip_prefix (String.◌∷◌ c p) (String.◌∷◌ d s) =
    let rest = strip_prefix p s in if code c == code d then rest else none

-- The provider that the id of a model names.
unfoldable pub provider_of : String → Option String
unfolding strip_prefix
provider_of k = strip_prefix "provider:" k

-- The model that stands for a provider.
abbrev pub remote_model : String → ModelRow
remote_model k = record {
  id = k;
  repository_id = k;
  requested_revision = none;
  resolved_commit = "remote";
  engine_installation_id = "openai_compatible@remote";
  compatibility_evidence = field "engine_id" (string "openai_compatible") end;
  runtime_variant = "remote";
  manifest = end;
  checksum_summary = end;
  byte_size = 0;
  cache_path = "models/remote";
  desired_load_state = "loaded";
  observed_load_state = "loaded";
  replica_summary = end;
  last_error = none;
  created_at = "";
  updated_at = "";
}

abbrev pub is_configured : String → Option (List ProviderProfile) → Bool
is_configured k none = false
is_configured k (some ps) = is_some (select profile_key k ps)

abbrev as_missing_model : Error → Error
as_missing_model record_not_found = generation_model_not_found
as_missing_model e = e

abbrev row_of : Result Installations.ModelInstallation → Result ModelRow
row_of (ok m) = ok m.row
row_of (err e) = err (as_missing_model e)

module _ (numbers : Numbers) where
  -- `_get_model`; the count of replicas of the model that it finds is not used.
  unfoldable pub get_model : String → Core → Result ModelRow
  unfolding provider_of
  get_model k c = elim (provider_of k) [
    | some p ↦
        if is_configured p c.providers then ok (remote_model k) else err generation_model_not_found
    | none ↦ row_of (Installations.get_model numbers k c.models).0
  ]

module _ (rules : TextRules) where
  unfoldable pub publish :
      String → GenerationJob → String → Option Fields → Fields → Exec Core (Unit {0})
  unfolding on_store message_of
  publish event_type j message error extra = do
    on_store (λ now. append rules now (message_of event_type j message error extra))
    pure tt

  abbrev pub event_name : GenerationState → String
  event_name loading = "generation.loading"
  event_name finalizing = "generation.finalizing"
  event_name _ = "generation.progress"

  -- `_transition`.
  unfoldable pub transition : String → GenerationState → String → Progress → Exec Core GenerationJob
  unfolding publish on_db
  transition k st message p = do
    updated ← on_db (λ now. transition_job now k st p)
    publish (event_name st) updated message none end
    pure updated

  abbrev cancelled_fields : Fields
  cancelled_fields = error_of "generation_cancelled" "Generation was cancelled." false

  cancel_open : GenerationJob → Exec Core GenerationJob
  unfolding publish on_db
  cancel_open j = do
    ended ← on_db (λ now. transition_job now j.id cancelled (with_error cancelled_fields))
    publish "generation.cancelled" ended "Generation was cancelled." ended.error end
    pure ended

  -- `_cancel_job`.
  unfoldable pub cancel_job : GenerationJob → Exec Core GenerationJob
  unfolding cancel_open
  cancel_job j = if is_terminal j.state then pure j else cancel_open j

  -- Whether the failure that is recorded may be retried.
  unfoldable pub may_retry : Bool → GenerationJob → String → Bool → Bool
  may_retry closing j code retryable =
      if closing
      then retryable
      else retryable
        && j.retain_artifact
        && not (is_some j.artifact_id)
        && not (is_some j.reference_id)
        && (is_some j.voice_id || is_some j.saved_voice_id)
        && not (str_eq code "cleanup_failed" || str_eq code "reference_recovery_required")

  fail_open : GenerationJob → String → String → Bool → Exec Core (Unit {0})
  unfolding publish on_db may_retry
  fail_open j code message retryable = do
    closing ← gets (λ c. c.closing)
    let e = error_of code message (may_retry closing j code retryable)
    ended ← on_db (λ now. transition_job now j.id failed (with_error e))
    publish "generation.failed" ended "Generation failed." ended.error end

  -- `_fail_job`.
  unfoldable pub fail_job : GenerationJob → String → String → Bool → Exec Core (Unit {0})
  unfolding fail_open
  fail_job j code message retryable =
      if is_terminal j.state then pure tt else fail_open j code message retryable

-- What a task awaits: what the other tasks do meanwhile, and what it is answered.
pub record Answer (A : Type 0) : Type 0 where
  pub others : Core → Core
  pub result : Result A

unfoldable pub await : {A : Type 0} → Answer A → Exec Core A
await a c = (a.result, a.others c)
