-- ===== src/Generation/Run.antt =====
-- src/tts_studio/generation/service.py, `_run_job`: the task of a Generation Job, from its admission
-- to its end. What the Worker, the files of the writer and the reference service answer are given in
-- the order in which the task awaits them.
pub mod Locals
unfoldable pub use Locals.*
use Prim.Native.Char.{code}
use tts_studio.Base.{
  ℕ, String, Bool, true, false, not, ◌&&◌, ◌||◌, Option, none, some, List, [], ◌∷◌, ◌==◌, leb,
  is_some, str_eq, if◌then◌else◌,
}
use tts_studio.Base.Exec.{
  Error, Result, ok, err, Exec, pure, lift, gets, raise_if, modify, ◌>>=◌, ◌>>◌, generation_failure,
  generation_capability, worker_failure, value_error,
}
use tts_studio.Base.Int.{pos}
use tts_studio.Base.Json.{Fields}
use tts_studio.Base.Table.{select, delete}
use tts_studio.Events.Text.{TextRules}
use tts_studio.Registry.Domain.{
  GenerationJob, loading, generating, finalizing, completed, SynthesisOptions,
}
use tts_studio.Registry.Jobs.{Progress, no_progress, transition_job, clear_reference_id}
use tts_studio.Registry.Artifacts.{create_artifact, NewArtifact}
use tts_studio.Registry.Paths.{glue}
use tts_studio.Models.Domain.{ModelRow}
use tts_studio.Models.Installations.{Numbers}
use tts_studio.Providers.Profiles.{ProviderProfile}
use tts_studio.Providers.Table.{profile_key}
use tts_studio.Workers.Domain.{WorkerCapabilities, supports}
use tts_studio.Audio.Pcm.{Validator}
use tts_studio.Generation.State.{
  Core, ReferenceHandle, held_key, Answer, await, on_db, get_model, publish, transition,
  release_reference,
}
use tts_studio.Generation.Stream.{Arrival, StreamResult, consume_stream}

module _ (numbers : Numbers) (rules : TextRules) (validator : Validator) (a : Answers) where
  -- The model and the reference of the job, and the Worker that is leased.
  unfoldable pub admit :
      GenerationJob → Exec Task (ModelRow × Option ReferenceHandle × WorkerCapabilities)
  unfolding unsupported
  admit j = do
    found ← in_core (gets (get_model numbers j.model_id))
    model ← lift found
    held ← in_core (gets (handle_at j.id))
    reference ← lift (reference_of a model j held)
    lease ← in_core (await a.acquire)
    raise_if (not (supports "streaming_synthesis" lease))
        (unsupported "The Worker does not support streaming synthesis.")
    pure (model, reference, lease)

  unfoldable pub await_load : Exec Task (Unit {0})
  unfolding in_core await
  await_load = do in_core (await a.load); modify (λ t. record t { is_loaded = true })

  unfoldable pub load_started : String → Exec Task GenerationJob
  unfolding in_core transition await_load
  load_started k = do
    await_load
    in_core (transition rules k generating "Generating audio." no_progress)

  -- The model is loaded, and the job generates.
  unfoldable pub load_model : GenerationJob → Exec Task GenerationJob
  unfolding in_core transition load_started
  load_model j = do
    started ← in_core (transition rules j.id loading "Loading the model." no_progress)
    load_started started.id

  -- The writer and the request.
  unfoldable pub request :
      GenerationJob → Option ReferenceHandle → WorkerCapabilities → Exec Task (Unit {0})
  unfolding unsupported
  request j reference lease = do
    lift a.open_writer
    modify (λ t. record t { has_writer = true })
    raise_if
        (not (is_some j.reference_id || is_some j.saved_voice_id)
          && not (supports "preset_voices" lease))
        (unsupported "The Worker does not support preset voices.")
    lift (require_option_capabilities lease j.options)
    config ← in_core (gets (λ c. configured a.environ c j.provider_id))
    lift config
    raise_if (both_or_neither (is_given j.voice_id) (is_given (reference_path reference)))
        value_error
    lift a.synthesize

  -- The stream, in `_streams` while it is read.
  unfoldable pub stream : GenerationJob → Exec Task StreamResult
  unfolding in_core consume_stream
  stream j = do
    modify (λ t. record t {
      has_stream = true;
      core = record t.core { streams = j.id ∷ t.core.streams };
    })
    consumed ← in_core (consume_stream rules j validator a.arrivals)
    pure consumed.0

  unfoldable pub publish_artifact : GenerationJob → StreamResult → Exec Task (Unit {0})
  unfolding in_core
  publish_artifact j r = do
    p ← lift a.finalize
    modify (λ t. record t { published = some (artifact_id j.id) })
    in_core (on_db (λ now. create_artifact now "" (artifact_of j p r)))
    pure tt

  -- The artifact is published and recorded, or the staged audio is dropped.
  unfoldable pub store_audio : GenerationJob → StreamResult → Exec Task (Unit {0})
  unfolding publish_artifact
  store_audio j r = if j.retain_artifact then publish_artifact j r else lift a.abort

  unfoldable pub release_held : GenerationJob → Option ReferenceHandle → Exec Task (Unit {0})
  unfolding in_core release_reference
  release_held j reference = do
    in_core (modify (drop_handle j.id))
    can_release ← in_core (gets (λ c. c.has_references))
    is_released ← lift (release_reference can_release reference a.release)
    raise_if (not is_released) (
        generation_failure "cleanup_failed"
          "Generation cleanup failed; restart Core to retry cleanup." true)
    in_core (on_db (λ now. clear_reference_id now j.id))
    pure tt

  unfoldable pub release_used : GenerationJob → Option ReferenceHandle → Exec Task (Unit {0})
  unfolding release_held
  release_used j reference = if is_some reference then release_held j reference else pure tt

  -- The completion is announced, and the model unloaded.
  unfoldable pub announce : GenerationJob → Exec Task (Unit {0})
  unfolding in_core unload
  announce done = do
    modify (λ t. record t { is_committed = true })
    in_core (
        publish rules "generation.completed" done "Generation completed." none
          tts_studio.Base.Json.end)
    in_core (unload a.unload)
    modify (λ t. record t { is_loaded = false })

  unfoldable pub complete : GenerationJob → StreamResult → Exec Task (Unit {0})
  unfolding in_core announce
  complete j r = do
    done ← in_core (on_db (λ now. transition_job now j.id completed (counted r)))
    announce done

  unfoldable pub settle_audio :
      GenerationJob → Option ReferenceHandle → StreamResult → Exec Task (Unit {0})
  unfolding store_audio release_used complete
  settle_audio j reference r = do store_audio j r; release_used j reference; complete j r

  unfoldable pub finalize_job :
      String → GenerationJob → Option ReferenceHandle → StreamResult → Exec Task (Unit {0})
  unfolding in_core transition settle_audio
  finalize_job k j reference r = do
    in_core (transition rules k finalizing "Finalizing the WAV artifact." (finalized r))
    settle_audio j reference r

  unfoldable pub synthesize :
      GenerationJob → Option ReferenceHandle → WorkerCapabilities → Exec Task StreamResult
  unfolding request stream
  synthesize j reference lease = do request j reference lease; stream j

  unfoldable pub produce_audio :
      GenerationJob → Option ReferenceHandle → WorkerCapabilities → Exec Task (Unit {0})
  unfolding load_model synthesize finalize_job
  produce_audio j reference lease = do
    started ← load_model j
    r ← synthesize j reference lease
    finalize_job started.id j reference r

  unfoldable pub generate : GenerationJob → Exec Task (Unit {0})
  unfolding admit produce_audio
  generate j = do admitted ← admit j; produce_audio j admitted.1 admitted.2
