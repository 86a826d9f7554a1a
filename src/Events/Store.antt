-- ===== src/Events/Store.antt =====
-- src/tts_studio/events.py: `EventStore`. The table is kept in the order of its ids.
use Prim.Native.Char.{code}
use mathlib.Core.Bool.{xor}
use text.Mathlib.Text.{starts_with}
use tts_studio.Base.{
  ℕ, ◌+◌, ◌-◌, String, Bool, true, false, not, ◌&&◌, ◌||◌, Option, none, some, List, [], ◌∷◌, ◌++◌,
  ltb, ◌==◌, str_eq, opt_eq, is_some, length, take, if◌then◌else◌,
}
use tts_studio.Base.Exec.{
  Result, ok, err, Exec, pure, lift, gets, required, raise_if, modify, transaction, read, ◌>>=◌,
  ◌>>◌, unsafe_event_payload, value_error,
}
use tts_studio.Base.Int.{ℤ, to_nat}
use tts_studio.Base.Json.{Json, string, Fields, get}
use tts_studio.Events.Text.{TextRules}
use tts_studio.Events.Payload.{is_event_type, safe_object, fields_have_audio, is_identifier}

pub record Event : Type 0 where
  pub id : ℕ
  pub event_type : String
  pub stream_kind : Option String
  pub stream_id : Option String
  pub payload : Fields
  pub created_at : String

-- `model_events`, `model_event_cursor`, and the retention limit of the store. The last id is also
-- what AUTOINCREMENT counts from: both are set by an INSERT and go back with its transaction.
pub record Store : Type 0 where
  pub events : List Event
  pub last_event_id : ℕ
  pub retention_limit : ℕ

-- `DurableEvent.terminal`.
pub is_terminal_event : Event → Bool
is_terminal_event e =
    str_eq e.event_type "model.activated"
    || str_eq e.event_type "download.cancelled"
    || str_eq e.event_type "download.failed"
    || str_eq e.event_type "generation.completed"
    || str_eq e.event_type "generation.cancelled"
    || str_eq e.event_type "generation.failed"

-- The arguments of `append` but for the time.
pub record Message : Type 0 where
  pub event_type : String
  pub payload : Fields
  pub download_id : Option String
  pub stream_kind : Option String
  pub stream_id : Option String

-- `event_type.split(".", maxsplit=1)[0]`.
first_segment : String → String
first_segment String.[] = String.[]
first_segment (String.◌∷◌ c s) =
    let rest = first_segment s in if code c == b'.' then String.[] else String.◌∷◌ c rest

abbrev is_kind : String → Bool
is_kind k = str_eq k "download" || str_eq k "generation"

pub infer_kind : String → Option String
unfolding first_segment
infer_kind t =
    if is_kind (first_segment t)
    then some (first_segment t)
    else if starts_with t "model."
    then some "download"
    else none

abbrev text_of : Option Json → Option String
text_of (some (string s)) = some s
text_of _ = none

-- A stream's identity: kind and id.
abbrev pub Stream : Type 0
Stream = Option String × Option String

abbrev pub is_generation : Message → Bool
is_generation m = starts_with m.event_type "generation."

abbrev pub job_of : Message → Option String
job_of m = text_of (get "job_id" m.payload)

-- `download_id`, where it is given, must agree with the kind, and names the stream.
abbrev pub with_download : Option String → Stream → Result Stream
with_download none s = ok s
with_download (some d) (none, i) = ok (some "download", some d)
with_download (some d) (some k, i) =
    if str_eq k "download" then ok (some "download", some d) else err unsafe_event_payload

-- Without a stream, the job of the payload names it.
abbrev pub with_job : Bool → Option String → Option String → Stream → Stream
with_job false (some k) (some j) (none, i) = (some k, some j)
with_job _ _ _ s = s

abbrev pub conflicts : Option String → Option String → Bool
conflicts (some j) (some i) = not (str_eq i j)
conflicts _ _ = false

-- `SELECT id … ORDER BY id DESC LIMIT 1 OFFSET n`: the row with `n` rows behind it.
unfoldable pub nth_newest : ℕ → List Event → Option Event
nth_newest n [] = none
nth_newest n (e ∷ es) = let rest = nth_newest n es in if length es == n then some e else rest

-- `DELETE FROM model_events WHERE id < ?`.
unfoldable pub delete_below : ℕ → List Event → List Event
delete_below t [] = []
delete_below t (e ∷ es) = let rest = delete_below t es in if ltb e.id t then rest else e ∷ rest

-- The ids below this one are pruned: `COALESCE((…), 0)`.
abbrev threshold : Option Event → ℕ
threshold none = 0
threshold (some e) = e.id

unfoldable pub prune : ℕ → List Event → List Event
unfolding nth_newest delete_below
prune limit es = delete_below (threshold (nth_newest (limit - 1) es)) es

module _ (rules : TextRules) where
  -- `_safe_stream_kind`, `_safe_identifier` and the test that a kind has an id.
  unfoldable pub safe_stream : Stream → Result Stream
  unfolding is_identifier
  safe_stream (none, none) = ok (none, none)
  safe_stream (none, some i) =
      if is_identifier rules i then ok (none, some i) else err unsafe_event_payload
  safe_stream (some k, none) = err unsafe_event_payload
  safe_stream (some k, some i) =
      if is_kind k && is_identifier rules i then ok (some k, some i) else err unsafe_event_payload

  -- The stream that an event is stored under, or the refusal.
  unfoldable pub resolve_stream : Message → Result Stream
  unfolding infer_kind safe_stream
  resolve_stream m = elim (with_download m.download_id (m.stream_kind, m.stream_id)) [
    | err e ↦ err e
    | ok s ↦
        if is_generation m && not (opt_eq s.0 (some "generation") && is_some s.1)
        then err unsafe_event_payload
        else let t = with_job (is_generation m) (infer_kind m.event_type) (job_of m) s in
          if conflicts (job_of m) t.1 then err unsafe_event_payload else safe_stream t
  ]

  unfoldable pub is_accepted : Message → Bool
  is_accepted m =
      is_event_type m.event_type
      && safe_object rules m.payload
      && not (xor (is_some m.stream_kind) (is_some m.stream_id))

  abbrev event_of : String → ℕ → Message → Stream → Event
  event_of now id m s = record {
    id = id;
    event_type = m.event_type;
    stream_kind = s.0;
    stream_id = s.1;
    payload = m.payload;
    created_at = now;
  }

  -- The INSERT, the UPDATE of the cursor and the DELETE, in one transaction.
  insert_event : String → Message → Stream → Exec Store Event
  unfolding prune
  insert_event now m s = do
    last ← gets (λ st. st.last_event_id)
    modify (λ st. record st {
      events = st.events ++ event_of now (last + 1) m s ∷ [];
      last_event_id = last + 1;
    })
    modify (λ st. record st { events = prune st.retention_limit st.events })
    pure (event_of now (last + 1) m s)

  unfoldable pub append : String → Message → Exec Store Event
  unfolding resolve_stream is_accepted insert_event
  append now m = do
    raise_if (not (is_accepted m)) unsafe_event_payload
    stream ← lift (resolve_stream m)
    raise_if (is_generation m && fields_have_audio rules m.payload) unsafe_event_payload
    transaction (insert_event now m stream)

-- `EventStore.__init__`, over an empty database.
unfoldable pub init : ℤ → Result Store
init z = elim (to_nat z) [
  | none ↦ err value_error
  | some n ↦
      if ltb n 1
      then err value_error
      else ok (record { events = []; last_event_id = 0; retention_limit = n })
]

pub record EventBatch : Type 0 where
  pub events : List Event
  pub cursor_expired : Bool
  pub reset_cursor : ℕ

-- `SELECT MIN(id)`, over a table in the order of its ids.
abbrev pub oldest : List Event → Option ℕ
oldest [] = none
oldest (e ∷ es) = some e.id

abbrev is_before : ℕ → Option ℕ → Bool
is_before cursor none = false
is_before cursor (some o) = ltb (cursor + 1) o

unfoldable pub is_expired : ℕ → Store → Bool
is_expired cursor st = is_before cursor (oldest st.events) || ltb st.last_event_id cursor

-- The WHERE clause: after the cursor, and of the stream if one is asked for.
abbrev pub is_wanted : ℕ → Stream → Event → Bool
is_wanted cursor (none, i) e = ltb cursor e.id
is_wanted cursor (some k, i) e =
    ltb cursor e.id && opt_eq e.stream_kind (some k) && opt_eq e.stream_id i

unfoldable pub matching : ℕ → Stream → List Event → List Event
matching cursor s [] = []
matching cursor s (e ∷ es) =
    let rest = matching cursor s es in if is_wanted cursor s e then e ∷ rest else rest

unfoldable pub read_batch : ℕ → Stream → ℕ → Store → EventBatch
unfolding is_expired matching
read_batch cursor s limit st =
    if is_expired cursor st
    then record { events = []; cursor_expired = true; reset_cursor = st.last_event_id }
    else record {
      events = take limit (matching cursor s st.events);
      cursor_expired = false;
      reset_cursor = st.last_event_id;
    }

-- The arguments of `read_after` but for the cursor and the limit.
pub record Query : Type 0 where
  pub download_id : Option String
  pub stream_kind : Option String
  pub stream_id : Option String

-- A download id must agree with the stream, and replaces it.
abbrev query_stream : Query → Result Stream
query_stream q = elim q.download_id [
  | none ↦ ok (q.stream_kind, q.stream_id)
  | some d ↦
      if is_some q.stream_kind
        && not (opt_eq q.stream_kind (some "download") && opt_eq q.stream_id (some d))
      then err unsafe_event_payload
      else ok (some "download", some d)
]

unfoldable pub read_after : TextRules → ℤ → Query → ℤ → Exec Store EventBatch
unfolding read_batch safe_stream
read_after rules cursor q limit = do
  after ← required value_error (to_nat cursor)
  size ← required value_error (to_nat limit)
  raise_if (ltb size 1 || ltb 1000 size) value_error
  raise_if (xor (is_some q.stream_kind) (is_some q.stream_id)) unsafe_event_payload
  asked ← lift (query_stream q)
  stream ← lift (safe_stream rules asked)
  read (gets (read_batch after stream size))

-- A new client starts immediately before the oldest retained event.
unfoldable pub initial_cursor : Store → ℕ
initial_cursor st = elim (oldest st.events) [ none ↦ 0 | some o ↦ o - 1 ]
