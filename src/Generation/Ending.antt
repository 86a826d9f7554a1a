-- ===== src/Generation/Ending.antt =====
-- src/tts_studio/generation/service.py, `_run_job`: what its `except` clauses and its `finally` do.
use tts_studio.Base.{String, Bool, true, false, not, ◌&&◌, ◌||◌, Option, none, some, if◌then◌else◌}
use tts_studio.Base.Exec.{
  Error, Result, ok, err, Exec, pure, lift, gets, raise, modify, ◌>>=◌, ◌>>◌, generation_failure,
  generation_cancelled, cancelled_error, generation_capability, invalid_generation_transition,
  worker_failure,
}
use tts_studio.Events.Text.{TextRules}
use tts_studio.Registry.Domain.{GenerationJob, is_terminal, is_cancellable}
use tts_studio.Registry.Jobs.{clear_reference_id}
use tts_studio.Registry.Artifacts.{delete_artifact}
use tts_studio.Models.Installations.{Numbers}
use tts_studio.Audio.Pcm.{Validator}
use tts_studio.Generation.Pcm.{end_job, discard}
use tts_studio.Generation.State.{
  Core, ReferenceHandle, await, on_db, get, cancel_job, fail_job, release_reference,
}
use tts_studio.Generation.Stream.{code_or_failed}
use tts_studio.Generation.Run.{
  Answers, Task, begun, in_core, unload, generate, handle_at, drop_handle,
}

-- What the task has come to when its `finally` starts.
pub data Verdict : Type 0 where
  finished is_pending : Verdict
  failing : (code message : String) (retryable : Bool) → Verdict
  escapes : Error → Verdict

-- A cancellation that was requested and may still be carried out.
unfoldable pub is_cancelling : String → Exec Task (GenerationJob × Bool)
unfolding in_core
is_cancelling k = do
  current ← in_core (get k)
  closing ← in_core (gets (λ c. c.closing))
  pure (current, not closing && current.cancellation_requested && is_cancellable current.state)

-- The `except` clauses that read the job first.
unfoldable pub reads_job : Error → Bool
reads_job generation_cancelled = false
reads_job (generation_failure code message retryable) = false
reads_job generation_capability = false
reads_job (worker_failure code retryable) = false
reads_job e = true

-- What they make of an error, of a job that is being cancelled or that has ended. The text of the error
-- of a capability that a Worker lacks is not kept.
unfoldable pub verdict_for : Bool → Bool → Error → Verdict
verdict_for is_cancelled ended cancelled_error =
    if is_cancelled then is_pending else escapes cancelled_error
verdict_for is_cancelled ended generation_cancelled = is_pending
verdict_for is_cancelled ended invalid_generation_transition =
    if is_cancelled
    then is_pending
    else failing "generation_failed" "Generation state could not advance." false
verdict_for is_cancelled ended (generation_failure code message retryable) =
    failing code message retryable
verdict_for is_cancelled ended generation_capability = failing "capability_unsupported" "" false
verdict_for is_cancelled ended (worker_failure code retryable) =
    failing (code_or_failed code) "The engine Worker failed during generation." retryable
verdict_for is_cancelled ended e =
    if is_cancelled
    then is_pending
    else if ended
    then finished
    else failing "generation_failed" "Generation failed." false

read_verdict : String → Error → Exec Task Verdict
unfolding is_cancelling verdict_for
read_verdict k e = do c ← is_cancelling k; pure (verdict_for c.1 (is_terminal (c.0).state) e)

-- The `except` clauses.
unfoldable pub verdict_of : String → Error → Exec Task Verdict
unfolding reads_job read_verdict
verdict_of k e = if reads_job e then read_verdict k e else pure (verdict_for false false e)

-- Whether a step of the clean-up has failed: `except Exception`, which lets a cancellation through.
unfoldable pub attempt : {A : Type 0} → Exec Task A → Exec Task Bool
attempt m t =
    let r = m t in
    elim r.0 [
      | ok x ↦ (ok false, r.1)
      | err cancelled_error ↦ (err cancelled_error, r.1)
      | err e ↦ (ok true, r.1)
    ]

abbrev pub when : Bool → Exec Task Bool → Exec Task Bool
when true m = m
when false m = pure false

module _ (numbers : Numbers) (rules : TextRules) (validator : Validator) (a : Answers) where
  unfoldable pub begin : GenerationJob → Exec Task Bool
  unfolding generate
  begin j = do generate numbers rules validator a j; pure false

  -- The `try` of the task, and whether it returns because the job is to be cancelled.
  unfoldable pub attempt_job : String → Exec Task Bool
  unfolding in_core begin
  attempt_job k = do j ← in_core (get k); if j.cancellation_requested then pure true else begin j

  unfoldable pub judged : Result Verdict → Verdict
  judged (ok v) = v
  judged (err e) = escapes e

  unfoldable pub judge : String → Result Bool × Task → Verdict × Task
  unfolding verdict_of judged
  judge k (ok true, t) = (is_pending, t)
  judge k (ok false, t) = (finished, t)
  judge k (err e, t) = let r = verdict_of k e t in (judged r.0, r.1)

  unfoldable pub discard_published : Option String → Exec Task (Unit {0})
  unfolding in_core
  discard_published none = pure tt
  discard_published (some id) = do in_core (on_db (λ now. delete_artifact now id)); pure tt

  unfoldable pub drop_audio : Bool → Option String → Exec Task (Unit {0})
  unfolding discard_published
  drop_audio true published = lift a.abort_again
  drop_audio false published = do lift a.discard; lift a.abort_again; discard_published published

  unfoldable pub release_last : String → ReferenceHandle → Exec Task Bool
  unfolding in_core release_reference
  release_last k h = do
    can_release ← in_core (gets (λ c. c.has_references))
    is_released ← lift (release_reference can_release (some h) a.release_again)
    if is_released
        then (in_core (on_db (λ now. clear_reference_id now k)) >> pure false)
        else pure true

  -- A release that fails, or raises, is a failed clean-up.
  abbrev pub either : Result Bool → Result Bool
  either (ok b) = ok b
  either (err cancelled_error) = err cancelled_error
  either (err e) = ok true

  abbrev settled : Exec Task Bool → Exec Task Bool
  settled m t = let r = m t in (either r.0, r.1)

  unfoldable pub release_dropped : String → Option ReferenceHandle → Bool → Exec Task Bool
  unfolding release_last
  release_dropped k none closing = pure false
  release_dropped k (some h) true = pure false
  release_dropped k (some h) false = settled (release_last k h)

  -- The handle leaves the map unless the service is closing.
  abbrev pub taken_handle : String → Bool → Core → Core
  taken_handle k closing c = if closing then c else drop_handle k c

  abbrev without_stream : String → Core → Core
  without_stream k c = record c { streams = discard k c.streams }

  -- The four steps of the clean-up, each with whether it has failed: the stream is closed, the model
  -- unloaded, the audio of a job that has not completed removed, and the reference released.
  unfoldable pub close_step : Exec Task Bool
  unfolding in_core await attempt
  close_step = do
    has_stream ← gets (λ t. t.has_stream)
    when has_stream (attempt (in_core (await a.close_stream)))

  unfoldable pub unload_step : Exec Task Bool
  unfolding in_core unload attempt
  unload_step = do
    is_loaded ← gets (λ t. t.is_loaded)
    when is_loaded (attempt (in_core (unload a.unload_again)))

  unfoldable pub audio_step : Exec Task Bool
  unfolding drop_audio attempt
  audio_step = do
    task ← gets (λ t. t)
    when task.has_writer (attempt (drop_audio task.is_committed task.published))

  unfoldable pub release_step : String → Exec Task Bool
  unfolding in_core release_dropped
  release_step k = do
    closing ← in_core (gets (λ c. c.closing))
    handle ← in_core (gets (handle_at k))
    in_core (modify (taken_handle k closing))
    release_dropped k handle closing

  unfoldable pub clean_steps : String → Exec Task Bool
  unfolding close_step unload_step audio_step release_step
  clean_steps k = do
    stream_failed ← close_step
    unload_failed ← unload_step
    audio_failed ← audio_step
    release_failed ← release_step k
    pure (stream_failed || unload_failed || audio_failed || release_failed)

  -- The clean-up, and whether a step of it has failed.
  unfoldable pub clean_up : String → Exec Task Bool
  unfolding in_core clean_steps discard
  clean_up k = do in_core (modify (without_stream k)); clean_steps k

  -- How the job ends: a clean-up that failed takes the place of any other end.
  unfoldable pub record_end : String → Bool → Verdict → Exec Core (Unit {0})
  record_end k true v = do
    j ← get k
    fail_job rules j "cleanup_failed" "Generation cleanup failed; restart Core to retry cleanup."
        false
  record_end k false (failing code message retryable) = do
    j ← get k
    fail_job rules j code message retryable
  record_end k false is_pending = do j ← get k; cancel_job rules j; pure tt
  record_end k false finished = pure tt
  record_end k false (escapes e) = pure tt

  abbrev raised : Verdict → Exec Core (Unit {0})
  raised (escapes e) = raise e
  raised v = pure tt

  -- The live PCM of the job, at its end.
  unfoldable pub end_pcm : String → Exec Core (Unit {0})
  end_pcm k = do
    j ← get k
    modify (λ c. record c { pcm = end_job j.state j.retain_artifact k c.pcm })

  unfoldable pub finish : String → Bool → Verdict → Exec Core (Unit {0})
  unfolding record_end end_pcm
  finish k failed v = do record_end k failed v; end_pcm k; raised v

  unfoldable pub close_task : String → Verdict × Task → Result (Unit {0}) × Task
  unfolding clean_up in_core finish
  close_task k v = (do failed ← clean_up k; in_core (finish k failed v.0)) v.1

  -- `_run_job`.
  unfoldable pub run_job : String → Exec Core (Unit {0})
  unfolding attempt_job judge close_task
  run_job k c = let r = close_task k (judge k (attempt_job k (begun c))) in (r.0, r.1.core)
