-- ===== src/Generation/Create.antt =====
-- src/tts_studio/generation/service.py, `create`: the checks of a request, the voice that it names, and
-- the job that it becomes. What the Worker and the other services answer are given in the order in
-- which the request awaits them.
pub mod Checks
unfoldable pub use Checks.*
use Prim.Native.String.{count}
use tts_studio.Base.{
  ℕ, ◌+◌, ◌-◌, ◌*◌, ◌^◌, String, Bool, true, false, not, ◌&&◌, ◌||◌, Option, none, some, List, [],
  ◌∷◌, ltb, leb, ◌==◌, is_some, str_eq, opt_eq, value_or, has_nul, is_blank, if◌then◌else◌,
}
use tts_studio.Base.Exec.{
  Error, Result, ok, err, Exec, pure, lift, gets, raise, raise_if, modify, ◌>>=◌, ◌>>◌,
  generation_request, generation_capability, generation_reference_not_found,
  generation_model_not_found, generation_voice_not_found, record_not_found,
  invalid_reference_transition, reference_recovery_required,
}
use tts_studio.Base.Json.{Double, Json, string, is_finite, get, end}
use tts_studio.Events.Text.{TextRules}
use tts_studio.Registry.Domain.{GenerationJob, SynthesisOptions}
use tts_studio.Registry.Jobs.{NewJob, create_job, clear_reference_id, count_some}
use tts_studio.Models.Domain.{ModelRow}
use tts_studio.Models.Installations.{Numbers}
use tts_studio.Workers.Domain.{WorkerCapabilities, supports, contains}
use tts_studio.Generation.State.{
  Core, ReferenceHandle, Held, Answer, await, on_db, get_model, provider_of, is_configured, publish,
  fail_job, release_reference,
}
use tts_studio.Generation.Run.{SavedVoice, require_option_capabilities, unload, drop_handle}

module _ (numbers : Numbers) (rules : TextRules) (a : Answers) where
  -- What is done with the model loaded, and the model unloaded in the end.
  loaded : {A : Type 0} → Exec Core A → Exec Core A
  unfolding await ensuring unload
  loaded m = do await a.load; ensuring m (unload a.unload)

  -- A reference or a saved Voice: its model, and whether the Worker can clone.
  check_pinned : Request → ModelRow → WorkerCapabilities → Exec Core (Unit {0})
  unfolding loaded pinned_model
  check_pinned r model lease = do
    pinned ← lift (pinned_model a r.saved_voice_id)
    raise_if (not (str_eq pinned model.id)) generation_request
    loaded (raise_if (not (supports "reference_cloning" lease)) generation_capability)

  check_voice : Request → Exec Core (Option ReferenceHandle)
  unfolding await
  check_voice r = do
    voices ← await a.voices
    raise_if (not (contains (value_or "" r.voice_id) voices)) generation_voice_not_found
    pure none

  -- A preset voice: it must be one that the Worker lists.
  find_voice : Request → WorkerCapabilities → Exec Core (Option ReferenceHandle)
  unfolding loaded check_voice
  find_voice r lease =
      loaded
        (raise_if (not (supports "preset_voices" lease)) generation_capability >> check_voice r)

  abbrev is_pinned : Request → Bool
  is_pinned r = is_some r.reference_id || is_some r.saved_voice_id

  -- The checks of the kind of voice, before it is claimed or looked up.
  check_kind : Request → ModelRow → WorkerCapabilities → Exec Core (Unit {0})
  unfolding check_pinned
  check_kind r model lease =
      if is_pinned r
      then check_pinned r model lease
      else raise_if (not (supports "preset_voices" lease)) generation_capability

  abbrev some_handle : Result ReferenceHandle → Result (Option ReferenceHandle)
  some_handle (ok h) = ok (some h)
  some_handle (err e) = err e

  abbrev some_saved : Result SavedVoice → Result (Option ReferenceHandle)
  some_saved (ok v) = ok (some (saved_handle v))
  some_saved (err e) = err e

  -- The reference is claimed, the saved Voice read, or the voice looked up.
  take_voice : Request → WorkerCapabilities → Exec Core (Option ReferenceHandle)
  unfolding find_voice
  take_voice r lease =
      if is_some r.reference_id
      then lift (some_handle (renamed as_claim a.claim))
      else if is_some r.saved_voice_id
      then lift (some_saved a.saved_again)
      else find_voice r lease

  in_lease : Request → ModelRow → WorkerCapabilities → Exec Core (Option ReferenceHandle)
  unfolding check_kind take_voice require_option_capabilities
  in_lease r model lease = do
    raise_if (not (supports "streaming_synthesis" lease)) generation_capability
    lift (require_option_capabilities lease r.options)
    check_kind r model lease
    take_voice r lease

  -- The part of `create` before the job exists: the model, and the handle of the voice.
  unfoldable pub prepare : Request → Exec Core (ModelRow × Option ReferenceHandle)
  unfolding validate_text validate_options validate_source get_model provider_of await in_lease
      ensuring
  prepare r = do
    lift (validate_text r.text)
    lift (validate_options r.options)
    lift (validate_source r.voice_id r.reference_id r.saved_voice_id)
    found ← gets (get_model numbers r.model_id)
    model ← lift found
    lease ← await a.acquire
    handle ← ensuring (in_lease r model lease) (await a.close_lease)
    pure (model, handle)

  abbrev pub new_job : Request → ModelRow → NewJob
  new_job r model = record {
    model_id = model.id;
    engine_id = engine_id model;
    voice_id = r.voice_id;
    reference_id = r.reference_id;
    saved_voice_id = r.saved_voice_id;
    provider_id = provider_of r.model_id;
    text = r.text;
    retain_artifact = resolve_retention r.retain_artifact a.retention;
    options = r.options;
    correlation_id = or_fresh_text r.fresh_correlation r.correlation_id;
    job_id = none;
    retry_of = r.retry_of;
  }

  -- `_release_reference` of a request that has failed.
  unfoldable pub release : Option ReferenceHandle → Core → Result Bool
  unfolding release_reference
  release h c = release_reference c.has_references h a.release

  -- `except BaseException`: a failed release raises over the error.
  unfoldable pub insert : Request → ModelRow × Option ReferenceHandle → Exec Core GenerationJob
  unfolding on_db release
  insert r p c =
      let made = on_db (λ now. create_job now r.fresh_job (new_job r p.0)) c in
      elim made.0 [
        | ok j ↦ (ok j, made.1)
        | err e ↦ elim (release p.1 made.1) [ ok b ↦ (err e, made.1) | err f ↦ (err f, made.1) ]
      ]

  abbrev pub keep_handle : String → Option ReferenceHandle → Core → Core
  keep_handle k none c = c
  keep_handle k (some h) c = record c { handles = record { owner = k; handle = h } ∷ c.handles }

  unfoldable pub clear_given : Bool → GenerationJob → Exec Core GenerationJob
  unfolding on_db
  clear_given true j = on_db (λ now. clear_reference_id now j.id)
  clear_given false j = pure j

  unfoldable pub not_scheduled : Request → GenerationJob → Exec Core (Unit {0})
  unfolding clear_given fail_job
  not_scheduled r j = do
    cleared ← clear_given (is_some r.reference_id) j
    fail_job rules cleared "scheduler_failed" "Generation could not be scheduled." false

  -- A job that cannot be scheduled fails, and the error goes on.
  unfoldable pub withdraw :
      Request → GenerationJob → Option ReferenceHandle → Error → Exec Core GenerationJob
  unfolding release not_scheduled fail_job
  withdraw r j handle e = do
    modify (drop_handle j.id)
    answered ← gets (release handle)
    is_released ← lift answered
    if is_released
        then not_scheduled r j
        else fail_job rules j "cleanup_failed"
            "Generation cleanup failed; restart Core to retry cleanup." false
    raise e

  unfoldable pub schedule :
      Request → GenerationJob → Option ReferenceHandle → Exec Core GenerationJob
  unfolding withdraw publish
  schedule r j handle = do
    modify (keep_handle j.id handle)
    publish rules "generation.queued" j "Generation was queued." none end
    elim a.submit [ ok u ↦ pure j | err e ↦ withdraw r j handle e ]

  unfoldable pub create : Request → Exec Core GenerationJob
  unfolding prepare insert schedule
  create r = do prepared ← prepare r; j ← insert r prepared; schedule r j prepared.1
