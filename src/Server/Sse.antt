-- ===== src/Server/Sse.antt =====
-- src/tts_studio/server/events.py, `iter_sse_events`: the frames that a client gets. The text of a
-- frame is not modelled: a frame is its event, or the cursor of a reset.
use tts_studio.Base.{
  ℕ, String, Bool, true, false, ◌&&◌, Option, none, some, List, [], ◌∷◌, ◌++◌, is_some,
  if◌then◌else◌,
}
use tts_studio.Base.Exec.{Error, Result, ok, err}
use tts_studio.Base.Int.{pos}
use tts_studio.Events.Text.{TextRules}
use tts_studio.Events.Store.{
  Event, Store, EventBatch, Query, read_after, initial_cursor, is_terminal_event,
}

-- Why no more frames come: the rounds are over, after a batch or after none; the download has
-- ended; the client must start again; the client is gone; or the store has raised.
pub data Outcome : Type 0 where
  reading waiting finished disconnected : Outcome
  reset : ℕ → Outcome
  raised : Error → Outcome

pub record Delivery : Type 0 where
  pub events : List Event
  pub outcome : Outcome

-- The frames of one batch, and whether an event has ended the download that is asked for.
unfoldable pub emit : Option String → List Event → List Event × Bool
emit d [] = ([], false)
emit d (e ∷ es) =
    let rest = emit d es in
    if is_some d && is_terminal_event e then (e ∷ [], true) else (e ∷ rest.0, rest.1)

-- `cursor = event.id` for each event of a batch.
unfoldable pub next_cursor : ℕ → List Event → ℕ
next_cursor c [] = c
next_cursor c (e ∷ es) = next_cursor e.id es

abbrev pub before : List Event → Delivery → Delivery
before es d = record d { events = es ++ d.events }

abbrev pub download_query : Option String → Query
download_query d = record { download_id = d; stream_kind = none; stream_id = none }

-- One round of the loop after the batch was read; `rest` stands for the rounds that follow, from a
-- cursor.
abbrev pub answered :
    Option String → ℕ → Bool → (ℕ → Outcome → Delivery) → Result EventBatch → Delivery
answered d cursor gone rest (err e) = record { events = []; outcome = raised e }
answered d cursor gone rest (ok b) =
    if b.cursor_expired
    then record { events = []; outcome = reset b.reset_cursor }
    else elim b.events [
      | [] ↦ if gone then record { events = []; outcome = disconnected } else rest cursor waiting
      | e ∷ es ↦
          let (sent, last) = emit d (e ∷ es) in
          if last
          then record { events = sent; outcome = finished }
          else before sent (rest (next_cursor cursor (e ∷ es)) reading)
    ]

module _ (rules : TextRules) (d : Option String) (size : ℕ) where
  -- The loop over rounds, each with the store as it then is and whether the client is then gone.
  unfoldable pub deliver : ℕ → Outcome → List (Store × Bool) → Delivery
  unfolding emit next_cursor
  deliver cursor outcome [] = record { events = []; outcome = outcome }
  deliver cursor outcome ((st, gone) ∷ rounds) =
      answered d cursor gone (λ c o. deliver c o rounds)
        (read_after rules (pos cursor) (download_query d) (pos size) st).0

-- A client without a cursor starts before the oldest event of the store.
abbrev first_cursor : Option ℕ → Store → ℕ
first_cursor none st = initial_cursor st
first_cursor (some c) st = c

unfoldable pub iter_sse_events :
    TextRules → Option String → ℕ → Option ℕ → Store → List (Store × Bool) → Delivery
unfolding deliver
iter_sse_events rules d size last_event_id st rounds =
    deliver rules d size (first_cursor last_event_id st) reading rounds
