-- ===== src/Generation/Cases.antt =====
-- The results on requests and on the run of a job, applied to a concrete Worker, scheduler and job.
use tts_studio.Generation.Tests.{job, capabilities}
use tts_studio.Base.Tests.{is_blank, has_nul, is_safe_text}
use tts_studio.Base.{◌≡◌, refl, true, false, none, some, [], ◌∷◌, arith, ◌⊎◌}
use tts_studio.Base.Exec.{Result, ok, err, cancelled_error}
use tts_studio.Base.Int.{pos}
use tts_studio.Base.Table.{select}
use tts_studio.Events.Text.{TextRules}
use tts_studio.Models.Installations.{Numbers}
use tts_studio.Audio.Pcm.{AudioFormat, Validator, Header}
use tts_studio.Providers.Profiles.{ProviderProfile}
use tts_studio.Generation.State.{Core, Answer}
use tts_studio.Generation.Stream.{Arrival, Event, header, chunk, result}
use tts_studio.Generation.Run.{Answers}
use tts_studio.Generation.Ending.{run_job}
use tts_studio.Generation.Ends.{HasEnded}
use Prim.Native.String.{count}
use tts_studio.Base.{◌≤◌, ◌++◌}
use tts_studio.Registry.Jobs.{new_row, has_one_source}
use tts_studio.Generation.State.{
  remote_model, get_model, publish, provider_of, await, on_db, on_store, message_of, payload,
}
use tts_studio.Generation.Create.{
  insert, schedule, validate_text, validate_options, validate_source, ensuring, engine_id,
}
use tts_studio.Generation.Run.{unload, require_option_capabilities}
use tts_studio.Registry.Jobs.{create_job}
use tts_studio.Base.Exec.{transaction}
use tts_studio.Base.Json.{get}
use tts_studio.Events.Payload.{is_event_type, safe_object, fields_have_audio}
use tts_studio.Events.Text.{unsafe_text}
use mathlib.Core.Bool.{xor}
use tts_studio.Base.Exec.{os_error}
use tts_studio.Generation.Create.{keep_handle}
use tts_studio.Generation.Withdrawn.{schedule-HasEnded}
use tts_studio.Generation.State.{release_reference}
use tts_studio.Events.Store.{append, resolve_stream, is_accepted}
use tts_studio.Generation.Create.{Request, create, prepare, new_job}
use tts_studio.Generation.Create
use tts_studio.Generation.Created.{create-queued}
use tts_studio.Base.Exec.{record_not_found}
use tts_studio.Generation.Finished.{run_job-ends}
use tts_studio.Registry.Domain.{GenerationJob, GenerationState}
use tts_studio.Workers.Domain.{contains}

abbrev rules : TextRules
rules = record { is_word = λ c. false; casefold = λ s. s }

abbrev numbers : Numbers
numbers = record { of_float = λ x. pos 0; of_text = λ s. none }

abbrev waiting : GenerationJob
waiting = record job {
  model_id = "provider:p";
  state = GenerationState.queued;
  artifact_id = none;
  bytes_written = 0;
  frame_count = 0;
}

abbrev profile : ProviderProfile
profile = record {
  id = "p";
  kind = "openai_compatible";
  label = "remote";
  base_url = "https://example.com";
  model = "m";
  api_key_env = "KEY";
  created_at = "t0";
  updated_at = "t0";
}

abbrev core : Core
core = record {
  db = record { jobs = waiting ∷ []; artifacts = []; alignments = [] };
  store = record { events = []; last_event_id = 0; retention_limit = 10 };
  models = record { downloads = []; models = []; engines = [] };
  providers = some (profile ∷ []);
  handles = [];
  pcm = record { subscribers = []; replays = []; disabled = [] };
  streams = [];
  closing = false;
  has_references = false;
  queue_bytes = 1048576;
  now = "t0";
}

-- Time passes while the task awaits.
abbrev answered : {A : Type 0} → Result A → Answer A
answered r = record { others = λ c. record c { now = "t1" }; result = r }

abbrev format : AudioFormat
format = record { sample_rate = 48000; channels = 1; sample_format = "S16LE"; sample_width = 2 }

abbrev arrives : Event → Arrival
arrives e = record { others = λ c. record c { now = "t2" }; event = ok e }

-- A Worker that sends two frames and its result, and a file system that publishes them.
abbrev answers : Answers
answers = record {
  saved_voice = none;
  acquire =
      answered
        (ok (record capabilities { supported = "streaming_synthesis" ∷ "preset_voices" ∷ [] }));
  load = answered (ok tt);
  open_writer = ok tt;
  environ = λ s. none;
  synthesize = ok tt;
  arrivals =
      arrives (header (Header.core format))
      ∷ arrives (chunk (pos 0) (0 ∷ 0 ∷ 1 ∷ 0 ∷ []))
      ∷ arrives (result (pos 2) 0)
      ∷ [];
  finalize = ok (record {
    name = "generation-a.wav";
    byte_size = 48;
    sha256 = "0123456789abcdef0123456789abcdef0123456789abcdef0123456789abcdef";
  });
  abort = ok tt;
  release = ok tt;
  unload = answered (ok tt);
  close_stream = answered (ok tt);
  unload_again = answered (ok tt);
  discard = ok tt;
  abort_again = ok tt;
  release_again = ok tt;
}

abbrev validator : Validator
validator = record {
  max_bytes = 1000;
  format = none;
  next_sequence = 0;
  byte_count = 0;
  finished = false;
}

run_job-ends_example :
    ((run_job numbers rules validator answers "a" core).0 ≡ err cancelled_error)
    ⊎ HasEnded "a" (run_job numbers rules validator answers "a" core).1
unfolding select
run_job-ends_example =
    run_job-ends "a" numbers rules validator answers core
      (
        λ c. refl,
        λ c. refl,
        (λ c. refl, (λ c. refl, (λ c. refl, tt))),
        λ c. refl,
        λ c. refl,
        λ c. refl,
        λ p. absurd (ground arith),
        λ p. absurd (ground arith),
        λ p. absurd (ground arith),
      )
      refl

abbrev asked : Request
asked = record {
  model_id = "provider:p";
  voice_id = some "v";
  reference_id = none;
  saved_voice_id = none;
  text = "a b";
  retain_artifact = none;
  correlation_id = some "c";
  options = none;
  retry_of = none;
  fresh_job = "n";
  fresh_correlation = "f";
}

-- A Worker that lists the voice, and a scheduler that takes the job or refuses it.
abbrev told : Result (Unit {0}) → Create.Answers
told submit = record {
  retention = none;
  acquire =
      answered
        (ok (record capabilities { supported = "streaming_synthesis" ∷ "preset_voices" ∷ [] }));
  load = answered (ok tt);
  unload = answered (ok tt);
  saved_voice = none;
  recording = none;
  claim = err record_not_found;
  saved_again = err record_not_found;
  voices = answered (ok ("v" ∷ []));
  close_lease = answered (ok tt);
  release = ok tt;
  submit = submit;
}

abbrev made : GenerationJob
made = new_row "t1" "n" (new_job numbers rules (told (ok tt)) asked (remote_model "provider:p"))

abbrev after : Core
after = (create numbers rules (told (ok tt)) asked core).1

create-queued_example :
    (is_blank "a b" ≡ false)
    × (has_nul "a b" ≡ false)
    × (count "a b" ≤ 10000)
    × (has_one_source (some "v") none none ≡ true)
    × (made.state ≡ GenerationState.queued)
    × (made.text ≡ "a b")
    × (made.voice_id ≡ some "v")
    × (made.reference_id ≡ none)
    × (made.saved_voice_id ≡ none)
    × (after.db ≡ record (prepare numbers rules (told (ok tt)) asked core).1.db {
      jobs = (prepare numbers rules (told (ok tt)) asked core).1.db.jobs ++ made ∷ [];
    })
unfolding create prepare insert schedule publish append resolve_stream is_accepted select new_row
    validate_text validate_options validate_source is_blank has_nul get_model provider_of await
    unload ensuring contains require_option_capabilities create_job transaction engine_id get on_db
    on_store message_of payload is_safe_text is_event_type safe_object unsafe_text xor
    fields_have_audio
create-queued_example = create-queued numbers rules (told (ok tt)) asked core after made refl refl

schedule-HasEnded_example :
    HasEnded "a" (schedule numbers rules (told (err os_error)) asked waiting none core).1
unfolding publish append resolve_stream is_accepted select on_store message_of payload is_event_type
    safe_object unsafe_text xor fields_have_audio get release_reference is_safe_text is_blank
    has_nul transaction
schedule-HasEnded_example =
    schedule-HasEnded numbers rules (told (err os_error)) asked "a" waiting refl refl none os_error
      core true refl refl refl refl
