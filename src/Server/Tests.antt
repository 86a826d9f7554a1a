-- ===== src/Server/Tests.antt =====
-- The results on the event stream, applied to a concrete log.
use tts_studio.Base.{
  leb, ◌&&◌, ℕ, ◌≡◌, refl, String, true, false, some, List, [], ◌∷◌, ◌++◌, arith, drop, Bool,
}
use tts_studio.Base.Json.{end}
use tts_studio.Events.Text.{TextRules, unsafe_text}
use tts_studio.Events.Payload.{is_identifier}
use tts_studio.Events.Store.{Event, Store, matching}
use tts_studio.Events.Log.{Retains}
use tts_studio.Server.Sse.{deliver, emit, reading}
use tts_studio.Base.{IsPrefix}
use tts_studio.Server.Delivered.{deliver-IsFaithful}
use tts_studio.Server.Reaches.{still, deliver-reaches}

abbrev rules : TextRules
rules = record { is_word = λ c. leb b'0' c && leb c b'z'; casefold = λ s. s }

abbrev event : ℕ → String → String → Event
event n kind d = record {
  id = n;
  event_type = kind;
  stream_kind = some "download";
  stream_id = some d;
  payload = end;
  created_at = "t";
}

abbrev first : List Event
first = event 1 "download.queued" "d" ∷ event 2 "download.queued" "e" ∷ []

abbrev log : List Event
log =
    first
    ++ event 3 "download.progress" "d"
      ∷ event 4 "model.activated" "d"
      ∷ event 5 "download.failed" "e"
      ∷ []

-- Two looks at the store, before and after the last three events.
abbrev early : Store
early = record { events = first; last_event_id = 2; retention_limit = 4 }

abbrev late : Store
late = record { events = drop 1 log; last_event_id = 5; retention_limit = 4 }

early-Retains : Retains first early
early-Retains = record {
  numbered = (refl, (refl, tt));
  newest = refl;
  counted = refl;
  positive = omega arith;
}

late-Retains : Retains log late
late-Retains = record {
  numbered = (refl, (refl, (refl, (refl, (refl, tt)))));
  newest = refl;
  counted = refl;
  positive = omega arith;
}

abbrev looks : List (Store × Bool)
looks = (early, false) ∷ (early, false) ∷ (late, false) ∷ (late, true) ∷ []

deliver-IsFaithful_example :
    IsPrefix
      (deliver rules (some "d") 2 0 reading looks).events
      (matching 0 (some "download", some "d") log)
deliver-IsFaithful_example =
    deliver-IsFaithful rules (some "d") 2 log late-Retains.numbered 0 reading looks
      ((2, early-Retains), ((2, early-Retains), ((5, late-Retains), ((5, late-Retains), tt))))

deliver-reaches_example :
    (deliver rules (some "d") 1 1 reading (still 2 late)).events
    ≡ (emit (some "d") (matching 1 (some "download", some "d") log)).0
unfolding is_identifier matching unsafe_text
deliver-reaches_example =
    deliver-reaches rules (some "d") 1 log late late-Retains (omega arith) (omega arith) refl 2 1
      (omega arith) (omega arith) (omega arith)
