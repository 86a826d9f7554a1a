-- ===== src/Workers/Streams.antt =====
-- src/tts_studio/workers/generation.py: the synthesis of `GrpcWorkerLease`, and
-- `_LeaseSynthesisStream`, which gives the slot of the lease back however it ends.
use tts_studio.Base.{
  ℕ, zero, suc, String, Bool, true, false, ◌||◌, Option, none, some, List, [], ◌∷◌, ◌++◌, ◌==◌,
  str_eq, length, if◌then◌else◌,
}
use tts_studio.Base.Exec.{
  Result, ok, err, Exec, pure, raise, lift, gets, raise_if, modify, ◌>>=◌, ◌>>◌, worker_capacity,
  rpc_error, timeout_error,
}
use tts_studio.Workers.Lease.{
  Stream, Session, Reply, HardStop, Act, ensure_loaded_model, unloaded, stop,
}

unfoldable pub stream_at : ℕ → List Stream → Option Stream
stream_at i [] = none
stream_at zero (t ∷ ts) = some t
stream_at (suc i) (t ∷ ts) = stream_at i ts

unfoldable pub set_stream : ℕ → Stream → List Stream → List Stream
set_stream i t [] = []
set_stream zero t (x ∷ xs) = t ∷ xs
set_stream (suc i) t (x ∷ xs) = x ∷ set_stream i t xs

abbrev pub new_stream : Stream
new_stream = record { terminal = false; outcome = none }

abbrev pub started : Session → Session
started s = record s {
  synthesis_active = true;
  synthesis_stream = some (length s.streams);
  streams = s.streams ++ new_stream ∷ [];
}

-- `synthesize`, which returns the new stream; the call of the stub may raise.
unfoldable pub synthesize : String → Result (Unit {0}) → Exec Session ℕ
synthesize id call = do
  ensure_loaded_model id
  busy ← gets (λ s. s.synthesis_active)
  raise_if busy worker_capacity
  lift call
  i ← gets (λ s. length s.streams)
  modify started
  pure i

abbrev pub is_current : ℕ → Option ℕ → Bool
is_current i none = false
is_current i (some j) = i == j

-- `_release_synthesis`: a stream that is not the current one releases nothing.
unfoldable pub release_synthesis : ℕ → Session → Session
release_synthesis i s =
    if is_current i s.synthesis_stream
    then record s { synthesis_stream = none; synthesis_active = false }
    else s

-- The loop of `_cancel_synthesis` over the answers that come before the time is up.
unfoldable pub confirmed : List (Result Reply) → Result (Unit {0})
confirmed [] = err timeout_error
confirmed (err e ∷ rs) = err e
confirmed (ok r ∷ rs) =
    let rest = confirmed rs in
    if r.done || str_eq r.error.code "model_not_loaded" then ok tt else rest

abbrev pub stopped_instead : Result (Unit {0}) → Option HardStop → Act
stopped_instead (ok u) h = pure tt
stopped_instead (err e) none = raise e
stopped_instead (err e) (some h) = stop h

-- `_cancel_synthesis`.
unfoldable pub cancel_synthesis : List (Result Reply) → Option HardStop → Act
unfolding confirmed
cancel_synthesis answers h s = elim s.model_id [
  | none ↦ (ok tt, s)
  | some id ↦ (do stopped_instead (confirmed answers) h; modify (unloaded id)) s
]

-- How `call.cancel` ended, and what the Worker answers while the synthesis is cancelled.
pub record Closing : Type 0 where
  pub cancel : Result (Unit {0})
  pub answers : List (Result Reply)
  pub hard_stop : Option HardStop

abbrev pub ended : Stream → Closing → Act
ended t c = do lift c.cancel; if t.terminal then pure tt else cancel_synthesis c.answers c.hard_stop

abbrev pub recorded : ℕ → Stream → Result (Unit {0}) × Session → Result (Unit {0}) × Session
recorded i t (r, s) = (
  r,
  release_synthesis i
      (record s { streams = set_stream i (record t { outcome = some r }) s.streams }),
)

-- `aclose` of a stream: its `_close` runs once, and releases the slot however it ends; every later
-- call ends as the first.
unfoldable pub close_stream : ℕ → Closing → Act
unfolding release_synthesis cancel_synthesis stream_at set_stream
close_stream i c s = elim (stream_at i s.streams) [
  | none ↦ (ok tt, s)
  | some t ↦ elim t.outcome [ some r ↦ (r, s) | none ↦ recorded i t (ended t c s) ]
]

-- What the iterator of the call gives: an event, with or without a result or an error, its end, or
-- an exception.
pub data Item : Type 0 where
  event : (is_last : Bool) → Item
  exhausted : Item
  failing : Item

abbrev pub marked : ℕ → Stream → Session → Session
marked i t s = record s { streams = set_stream i (record t { terminal = true }) s.streams }

-- `__anext__`, which returns whether there is an event.
unfoldable pub next_event : ℕ → Item → Closing → Exec Session Bool
unfolding close_stream
next_event i item c s = elim (stream_at i s.streams) [
  | none ↦ (ok false, s)
  | some t ↦ elim item [
    | event last ↦ (ok true, if last then marked i t s else s)
    | exhausted ↦ (do modify (marked i t); close_stream i c; pure false) s
    | failing ↦ (do close_stream i c; raise rpc_error) s
  ]
]

-- `aclose` of the lease.
unfoldable pub close_lease : Closing → Act
close_lease c s = elim s.synthesis_stream [ none ↦ (ok tt, s) | some i ↦ close_stream i c s ]
