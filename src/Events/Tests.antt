-- ===== src/Events/Tests.antt =====
-- The results on the event store, applied to a concrete log.
use mathlib.Core.Bool.{xor}
use tts_studio.Base.{leb, ◌&&◌, ℕ, ◌≡◌, refl, String, true, false, none, some, List, [], ◌∷◌, arith}
use tts_studio.Base.Json.{end}
use tts_studio.Base.Tests.{is_space}
use tts_studio.Events.Text.{TextRules, unsafe_text}
use tts_studio.Events.Store.{Event, Store, Message, Stream}
use tts_studio.Base.{is_some}
use tts_studio.Base.Json.{field, string, int, float, get}
use tts_studio.Base.Int.{pos}
use tts_studio.Base.Exec.{transaction}
use tts_studio.Events.Payload.{safe_object, fields_have_audio, is_event_type}
use tts_studio.Events.Store.{append, is_generation, job_of, conflicts}
use tts_studio.Events.Safe.{append_safe}
use tts_studio.Events.Progress.{Percent, progress_fields}
use tts_studio.Events.Log.{Retains, publish, publish-Retains}

abbrev rules : TextRules
rules = record { is_word = λ c. leb b'0' c && leb c b'z'; casefold = λ s. s }

abbrev empty : Store
empty = record { events = []; last_event_id = 0; retention_limit = 2 }

abbrev activated : Message
activated = record {
  event_type = "model.activated";
  payload = end;
  download_id = some "d";
  stream_kind = none;
  stream_id = none;
}

-- Refused: an event of a generation has a stream.
abbrev loose : Message
loose = record activated { event_type = "generation.failed"; download_id = none }

abbrev messages : List (String × Message)
messages =
    ("t1", activated)
    ∷ ("t2", loose)
    ∷ ("t3", activated)
    ∷ ("t4", activated)
    ∷ ("t5", activated)
    ∷ []

abbrev event : ℕ → Event
event n = record {
  id = n;
  event_type = "model.activated";
  stream_kind = some "download";
  stream_id = some "d";
  payload = end;
  created_at = "t";
}

abbrev log : List Event
log = event 1 ∷ event 2 ∷ event 3 ∷ []

abbrev store : Store
store = record { events = event 2 ∷ event 3 ∷ []; last_event_id = 3; retention_limit = 2 }

store-Retains : Retains log store
store-Retains = record {
  numbered = (refl, (refl, (refl, tt)));
  newest = refl;
  counted = refl;
  positive = omega arith;
}

publish-Retains_example :
    Retains (publish rules ([], empty) messages).0 (publish rules ([], empty) messages).1
publish-Retains_example =
    publish-Retains rules [] empty messages
      (record { numbered = tt; newest = refl; counted = refl; positive = omega arith })

abbrev wanted : Stream
wanted = (some "download", some "d")

abbrev done_message : Message
done_message = record {
  event_type = "generation.completed";
  payload = field "job_id" (string "j") end;
  download_id = none;
  stream_kind = some "generation";
  stream_id = some "j";
}

abbrev done_event : Event
done_event = record {
  id = 1;
  event_type = "generation.completed";
  stream_kind = some "generation";
  stream_id = some "j";
  payload = field "job_id" (string "j") end;
  created_at = "t1";
}

append_safe_example :
    (done_event.payload ≡ done_message.payload)
    × (safe_object rules done_event.payload ≡ true)
    × (is_generation done_message ≡ true
        → (done_event.stream_kind ≡ some "generation")
          × (is_some done_event.stream_id ≡ true)
          × (fields_have_audio rules done_event.payload ≡ false))
    × (conflicts (job_of done_message) done_event.stream_id ≡ false)
unfolding append transaction is_event_type safe_object xor get fields_have_audio unsafe_text
append_safe_example =
    append_safe rules "t1" done_message empty
      (record empty { events = done_event ∷ []; last_event_id = 1 }) done_event refl

abbrev percent : Percent
percent = record { rounded = λ n t. 0; hundred = 0 }

abbrev progress_event : Event
progress_event = record {
  id = 1;
  event_type = "download.progress";
  stream_kind = some "download";
  stream_id = some "d";
  payload =
      progress_fields "d" "fetching" 5 "m"
        (field "total_bytes" (int (pos 8)) (field "percentage" (float 0) end));
  created_at = "t1";
}

-- Paths and secrets are unsafe; a date and a web address are not.
texts :
    (unsafe_text rules "in C:\\tmp" ≡ true)
    × (unsafe_text rules "see /etc/x" ≡ true)
    × (unsafe_text rules "Socket:/a" ≡ true)
    × (unsafe_text rules "BEARER  a" ≡ true)
    × (unsafe_text rules "hf_abcdefghijklmnopqrst" ≡ true)
    × (unsafe_text rules "hf_abcdefghijklmnopqrs" ≡ false)
    × (unsafe_text rules "https://a.b/c" ≡ false)
    × (unsafe_text rules "1/2/2024" ≡ false)
unfolding unsafe_text is_space
texts = (refl, refl, refl, refl, refl, refl, refl, refl)
