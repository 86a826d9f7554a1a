-- ===== src/Generation/Pcm.antt =====
-- src/tts_studio/generation/service.py: the live PCM of the jobs, `_pcm_subscribers`,
-- `_pcm_terminated`, `_pcm_replay` and `_pcm_replay_disabled`. A subscriber is its queue, with the
-- sets that the queue is in; a method that visits the subscribers of a job in any order treats each
-- by itself.

mod Tests
pub mod Live
pub mod Bounded
pub mod Replayed
use tts_studio.Base.{
  ℕ, ◌+◌, String, Bool, true, false, not, ◌&&◌, ◌||◌, Option, none, some, List, [], ◌∷◌, ◌++◌, ltb,
  leb, ◌==◌, str_eq, length, if◌then◌else◌,
}
use tts_studio.Base.Table.{select, delete}
use tts_studio.Registry.Domain.{GenerationState, completed, is_terminal}

-- A queue of `subscribe_pcm`: what it holds, what its subscriber has been given, and whether it is
-- in `_pcm_subscribers` and in `_pcm_terminated`.
pub record Subscriber : Type 0 where
  pub id : ℕ
  pub owner : String
  pub queue : List (Option (List ℕ))
  pub is_attached : Bool
  pub is_terminated : Bool

-- An entry of `_pcm_replay`.
pub record Replay : Type 0 where
  pub owner : String
  pub bytes : List ℕ

abbrev pub replay_key : Replay → String
replay_key r = r.owner

pub record Pcm : Type 0 where
  pub subscribers : List Subscriber
  pub replays : List Replay
  pub disabled : List String

-- `_EPHEMERAL_REPLAY_MAX_BYTES`, and `maxsize` of a queue.
abbrev pub max_replay : ℕ
max_replay = 8388608

abbrev pub max_queue : ℕ
max_queue = 8

unfoldable pub is_in : String → List String → Bool
is_in k [] = false
is_in k (s ∷ ss) = str_eq s k || is_in k ss

unfoldable pub discard : String → List String → List String
discard k [] = []
discard k (s ∷ ss) = let rest = discard k ss in if str_eq s k then rest else s ∷ rest

-- `put_nowait`, which leaves a full queue as it is.
abbrev pub put_nowait : Option (List ℕ) → List (Option (List ℕ)) → List (Option (List ℕ))
put_nowait x q = if ltb (length q) max_queue then q ++ x ∷ [] else q

-- `_terminate_pcm_subscriber`.
abbrev pub terminated : Subscriber → Subscriber
terminated s = record s {
  queue = put_nowait none s.queue;
  is_attached = false;
  is_terminated = true;
}

abbrev pub listens : String → Subscriber → Bool
listens k s = s.is_attached && str_eq s.owner k

-- A chunk for one subscriber: a queue that is full ends the subscription.
unfoldable pub offered : List ℕ → Subscriber → Subscriber
offered pcm s =
    if ltb (length s.queue) max_queue
    then record s { queue = s.queue ++ some pcm ∷ [] }
    else terminated s

unfoldable pub each : (Subscriber → Subscriber) → String → List Subscriber → List Subscriber
each f k [] = []
each f k (s ∷ ss) = (if listens k s then f s else s) ∷ each f k ss

unfoldable pub has_listener : String → List Subscriber → Bool
has_listener k [] = false
has_listener k (s ∷ ss) = listens k s || has_listener k ss

-- `_pcm_replay.setdefault(job_id, bytearray())`.
unfoldable pub replay_of : String → List Replay → List ℕ
replay_of k rs = elim (select replay_key k rs) [ none ↦ [] | some r ↦ r.bytes ]

abbrev extended : String → List ℕ → Pcm → Pcm
extended k bytes p = record p {
  replays = record { owner = k; bytes = bytes } ∷ delete replay_key k p.replays;
}

-- The chunk is kept for a later subscriber, within the limit.
unfoldable pub keep_replay : Bool → String → List ℕ → Pcm → Pcm
unfolding is_in has_listener replay_of
keep_replay retain k pcm p =
    let old = replay_of k p.replays in
    if retain || has_listener k p.subscribers || is_in k p.disabled
    then p
    else if leb (length old + length pcm) max_replay
    then extended k (old ++ pcm) p
    else record p { replays = delete replay_key k p.replays; disabled = k ∷ p.disabled }

-- What `produce` does with an accepted chunk besides the queue of the writer.
unfoldable pub broadcast : Bool → String → List ℕ → Pcm → Pcm
unfolding keep_replay each offered
broadcast retain k pcm p =
    let q = keep_replay retain k pcm p in
    record q { subscribers = each (offered pcm) k q.subscribers }

abbrev pub without_replay : String → Pcm → Pcm
without_replay k p = record p {
  replays = delete replay_key k p.replays;
  disabled = discard k p.disabled;
}

-- The end of `_run_job`: the subscribers of the job are ended, and only a completed job that keeps no
-- artifact keeps its replay.
unfoldable pub end_job : GenerationState → Bool → String → Pcm → Pcm
unfolding each discard
end_job completed false k p = record p { subscribers = each terminated k p.subscribers }
end_job st retain k p =
    let q = without_replay k p in record q { subscribers = each terminated k q.subscribers }

-- The first part of `subscribe_pcm`: the replay of an ended job, which is given out once, or the
-- queue `id` of a new subscriber.
unfoldable pub subscribe : ℕ → GenerationState → String → Pcm → Option (List ℕ) × Pcm
unfolding discard
subscribe id st k p =
    if is_terminal st
    then (
      elim (select replay_key k p.replays) [ none ↦ none | some r ↦ some r.bytes ],
      without_replay k p,
    )
    else (
      none,
      record p {
        subscribers =
            record { id = id; owner = k; queue = []; is_attached = true; is_terminated = false }
            ∷ p.subscribers;
      },
    )

-- One turn of the loop of `subscribe_pcm`: the subscriber waits, is given a chunk, or is at its end.
pub data Turn : Type 0 where
  waits ends : Turn
  yields : List ℕ → Turn

abbrev taken : List (Option (List ℕ)) → Subscriber → Turn × Subscriber
taken [] s = (if s.is_terminated then ends else waits, s)
taken (none ∷ q) s = (ends, record s { queue = q })
taken (some pcm ∷ q) s = (yields pcm, record s { queue = q })

unfoldable pub next_chunk : Subscriber → Turn × Subscriber
next_chunk s = taken s.queue s

-- The `finally` of `subscribe_pcm`: the queue leaves both sets.
unfoldable pub leave : ℕ → List Subscriber → List Subscriber
leave id [] = []
leave id (s ∷ ss) = let rest = leave id ss in if s.id == id then rest else s ∷ rest

-- A turn of the loop of one subscriber.
unfoldable pub take_turn : ℕ → List Subscriber → List Subscriber
unfolding next_chunk
take_turn id [] = []
take_turn id (s ∷ ss) = (if s.id == id then (next_chunk s).1 else s) ∷ take_turn id ss

-- What the tasks of the Core do to the live PCM.
pub data Step : Type 0 where
  sends : (retain : Bool) (job : String) (pcm : List ℕ) → Step
  ends_job : GenerationState → (retain : Bool) (job : String) → Step
  subscribes : ℕ → GenerationState → (job : String) → Step
  takes leaves : ℕ → Step

unfoldable pub step : Step → Pcm → Pcm
unfolding broadcast end_job subscribe take_turn leave
step (sends retain k pcm) p = broadcast retain k pcm p
step (ends_job st retain k) p = end_job st retain k p
step (subscribes id st k) p = (subscribe id st k p).1
step (takes id) p = record p { subscribers = take_turn id p.subscribers }
step (leaves id) p = record p { subscribers = leave id p.subscribers }

unfoldable pub run : List Step → Pcm → Pcm
unfolding step
run [] p = p
run (s ∷ ss) p = run ss (step s p)
