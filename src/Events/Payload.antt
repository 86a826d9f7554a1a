-- ===== src/Events/Payload.antt =====
-- src/tts_studio/events.py: what an event may be called and may carry.
use Prim.Native.Char.{code}
use Prim.Native.String.{count}
use tts_studio.Base.{
  ℕ, String, Bool, true, false, not, ◌&&◌, ◌||◌, leb, ◌==◌, str_eq, if◌then◌else◌,
}
use tts_studio.Events.Text.{TextRules, unsafe_text}
use tts_studio.Base.Json.{
  Json, null, bool, int, float, string, array, object, Items, nil, cons, Fields, end, field,
  is_finite,
}

is_lower : ℕ → Bool
is_lower c = leb b'a' c && leb c b'z'

is_digit : ℕ → Bool
is_digit c = leb b'0' c && leb c b'9'

-- Where the match of `[a-z][a-z0-9]*(?:\.[a-z][a-z0-9]*)+\Z` stands: at the first letter of a
-- segment, or inside one; `dotted` is whether a dot has passed.
pub data Mode : Type 0 where
  opening inside : (dotted : Bool) → Mode

matches : Mode → String → Bool
unfolding is_lower is_digit
matches (opening d) String.[] = false
matches (opening d) (String.◌∷◌ c s) = is_lower (code c) && matches (inside d) s
matches (inside d) String.[] = d
matches (inside d) (String.◌∷◌ c s) =
    if code c == b'.'
    then matches (opening true) s
    else (is_lower (code c) || is_digit (code c)) && matches (inside d) s

-- `_safe_event_type`.
unfoldable pub is_event_type : String → Bool
unfolding matches
is_event_type s = matches (opening false) s

is_sensitive : String → Bool
is_sensitive k =
    str_eq k "authorization"
    || str_eq k "command"
    || str_eq k "environment"
    || str_eq k "secret"
    || str_eq k "stack"
    || str_eq k "token"
    || str_eq k "traceback"
    || str_eq k "working_directory"

is_audio_key : String → Bool
is_audio_key k =
    str_eq k "audio"
    || str_eq k "audio_bytes"
    || str_eq k "audio_data"
    || str_eq k "audio_chunk"
    || str_eq k "audio_chunks"
    || str_eq k "pcm"
    || str_eq k "pcm_bytes"
    || str_eq k "pcm_data"
    || str_eq k "pcm_chunk"
    || str_eq k "pcm_chunks"
    || str_eq k "wav"
    || str_eq k "wav_bytes"
    || str_eq k "wav_data"

module _ (rules : TextRules) where
  -- `_safe_value` and `_safe_object`, which return the value that they accept.
  unfoldable mutual
    unfolding is_sensitive

    pub safe_value : String → Json → Bool
    safe_value k null = not (is_sensitive (rules.casefold k))
    safe_value k (bool b) = not (is_sensitive (rules.casefold k))
    safe_value k (int n) = not (is_sensitive (rules.casefold k))
    safe_value k (float x) = not (is_sensitive (rules.casefold k)) && is_finite x
    safe_value k (string s) = not (is_sensitive (rules.casefold k)) && not (unsafe_text rules s)
    safe_value k (array xs) = not (is_sensitive (rules.casefold k)) && safe_items xs
    safe_value k (object fs) = not (is_sensitive (rules.casefold k)) && safe_object fs

    pub safe_items : Items → Bool
    safe_items nil = true
    safe_items (cons x xs) = safe_value "item" x && safe_items xs

    pub safe_object : Fields → Bool
    safe_object end = true
    safe_object (field k v fs) = safe_value k v && safe_object fs

  -- `_contains_audio_payload`.
  unfoldable mutual
    unfolding is_audio_key

    pub has_audio : Json → Bool
    has_audio (array xs) = items_have_audio xs
    has_audio (object fs) = fields_have_audio fs
    has_audio _ = false

    pub items_have_audio : Items → Bool
    items_have_audio nil = false
    items_have_audio (cons x xs) = has_audio x || items_have_audio xs

    pub fields_have_audio : Fields → Bool
    fields_have_audio end = false
    fields_have_audio (field k v fs) =
        is_audio_key (rules.casefold k) || has_audio v || fields_have_audio fs

  has_break : String → Bool
  has_break String.[] = false
  has_break (String.◌∷◌ c s) = code c == 13 || code c == 10 || code c == 0 || has_break s

  -- `_safe_identifier` of a text.
  unfoldable pub is_identifier : String → Bool
  unfolding has_break
  is_identifier s =
      not (str_eq s "") && leb (count s) 128 && not (has_break s) && not (unsafe_text rules s)
