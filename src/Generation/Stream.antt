-- ===== src/Generation/Stream.antt =====
-- src/tts_studio/generation/service.py, `_consume_stream`: what the Core does with the events of a
-- Worker, and what it hands to the writer.
use tts_studio.Base.{
  ℕ, String, Bool, true, false, not, ◌&&◌, Option, none, some, List, [], ◌∷◌, ◌++◌, is_some, ◌==◌,
  ltb, length, if◌then◌else◌, str_eq,
}
use tts_studio.Base.Exec.{
  Error, Result, ok, err, Exec, pure, lift, gets, required, raise, raise_if, modify, ◌>>=◌, ◌>>◌,
  audio_validation, generation_failure, generation_cancelled, queue_full,
}
use tts_studio.Base.Int.{ℤ, pos}
use tts_studio.Base.Json.{int, end, field}
use tts_studio.Events.Text.{TextRules}
use tts_studio.Registry.Domain.{GenerationJob}
use tts_studio.Audio.Pcm.{Validator, Header, PcmResult, accept_header, accept_chunk, finish}
use tts_studio.Generation.Pcm.{broadcast}
use tts_studio.Generation.State.{Core, get, publish}

-- A `SynthesisEvent` by its payload; the numbers of a result are `total_frames` and `duration_ms`.
pub data Event : Type 0 where
  header : Header → Event
  chunk : (sequence : ℤ) (pcm : List ℕ) → Event
  progress : Event
  result : (total_frames : ℤ) (duration_ms : ℕ) → Event
  error : (code : String) (retryable : Bool) → Event
  unknown : Event

-- A turn of the stream: what the other tasks do until it comes, and the event, or what the stream of
-- the Worker or the writer has raised.
pub record Arrival : Type 0 where
  pub others : Core → Core
  pub event : Result Event

-- The locals of `_consume_stream`, with the chunks that have gone into the queue of the writer.
pub record Production : Type 0 where
  pub core : Core
  pub validator : Validator
  pub result : Option (ℤ × ℕ)
  pub queued : List (List ℕ)

pub record StreamResult : Type 0 where
  pub pcm : PcmResult
  pub duration_ms : Option ℕ

abbrev pub malformed : String → Error
malformed message = generation_failure "malformed_pcm" message false

-- `except AudioValidationError`; the text of the error is not kept.
abbrev as_malformed : Error → Error
as_malformed audio_validation = malformed ""
as_malformed e = e

module _ {A : Type 0} where
  unfoldable pub in_core : Exec Core A → Exec Production A
  in_core m p = let r = m p.core in (r.0, record p { core = r.1 })

  abbrev renamed : Result A → Result A
  renamed (ok a) = ok a
  renamed (err e) = err (as_malformed e)

  unfoldable pub in_validator : Exec Validator A → Exec Production A
  in_validator m p = let r = m p.validator in (renamed r.0, record p { validator = r.1 })

-- `payload in {"header", "error"}`.
abbrev may_open : Event → Bool
may_open (header h) = true
may_open (error c r) = true
may_open _ = false

-- `event.error.code or "worker_failed"`.
abbrev pub code_or_failed : String → String
code_or_failed code = if str_eq code "" then "worker_failed" else code

-- `duration_ms or None`.
abbrev or_none : ℕ → Option ℕ
or_none n = if n == 0 then none else some n

unfoldable pub end_stream : Exec Production StreamResult
unfolding in_validator
end_stream = do
  last ← gets (λ p. p.result)
  final ← required (malformed "The Worker ended without a synthesis result.") last
  pcm ← in_validator (finish final.0)
  pure (record { pcm = pcm; duration_ms = or_none final.1 })

abbrev pub opened : Core → Validator → Production
opened c v = record { core = c; validator = v; result = none; queued = [] }

module _ (rules : TextRules) (job : GenerationJob) where
  abbrev broadcast_chunk : List ℕ → Core → Core
  broadcast_chunk pcm c = record c { pcm = broadcast job.retain_artifact job.id pcm c.pcm }

  -- A chunk above the budget of the queue is refused. One that must wait is put when the consumer has
  -- made room, and what other tasks do meanwhile stands with the next event that arrives.
  take_chunk : ℤ → List ℕ → Exec Production (Unit {0})
  unfolding in_validator in_core
  take_chunk sequence pcm = do
    in_validator (accept_chunk sequence pcm)
    budget ← in_core (gets (λ c. c.queue_bytes))
    raise_if (ltb budget (length pcm)) queue_full
    modify (λ p. record p { queued = p.queued ++ pcm ∷ [] })
    in_core (modify (broadcast_chunk pcm))

  report : GenerationJob → Exec Production (Unit {0})
  unfolding in_core
  report current = do
    count ← gets (λ p. p.validator.byte_count)
    in_core (
        publish rules "generation.progress" current "Generation is in progress." none
          (field "bytes_written" (int (pos count)) end))

  take_header : Header → Exec Production (Unit {0})
  unfolding in_validator
  take_header h = do in_validator (accept_header h); pure tt

  -- The branches on the payload.
  take_event : GenerationJob → Event → Exec Production (Unit {0})
  unfolding take_chunk report take_header
  take_event current (header h) = take_header h
  take_event current (chunk sequence pcm) = take_chunk sequence pcm
  take_event current progress = report current
  take_event current (result frames duration) =
      modify (λ p. record p { result = some (frames, duration) })
  take_event current (error code retryable) = raise (
      generation_failure (code_or_failed code) "The engine Worker failed during synthesis."
        retryable)
  take_event current unknown = raise (malformed "The Worker sent an unknown synthesis event.")

  -- One turn of the loop of `produce`.
  unfoldable pub produce : Event → Exec Production (Unit {0})
  unfolding in_core take_event
  produce event = do
    current ← in_core (get job.id)
    raise_if current.cancellation_requested generation_cancelled
    is_over ← gets (λ p. is_some p.result)
    raise_if is_over (malformed "The Worker sent an event after its terminal result.")
    is_open ← gets (λ p. is_some p.validator.format)
    raise_if (not is_open && not (may_open event))
        (malformed "The Worker must send the audio header first.")
    take_event current event

  unfoldable pub produce_all : List Arrival → Exec Production (Unit {0})
  unfolding in_core produce
  produce_all [] = pure tt
  produce_all (a ∷ rest) = do
    in_core (modify a.others)
    event ← lift a.event
    produce event
    produce_all rest

  -- `_consume_stream`: the validator is that of `PcmValidator()`, and the chunks of the queue reach the
  -- writer in order.
  unfoldable pub consume_stream :
      Validator → List Arrival → Exec Core (StreamResult × List (List ℕ))
  unfolding produce_all end_stream
  consume_stream v arrivals c =
      let run = produce_all arrivals >> end_stream in
      let r = run (opened c v) in (elim r.0 [ ok a ↦ ok (a, r.1.queued) | err e ↦ err e ], r.1.core)
