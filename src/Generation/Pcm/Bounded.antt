-- ===== src/Generation/Pcm/Bounded.antt =====
-- The memory that the live PCM may take.
use tts_studio.Base.{
  ◌==◌, ℕ, ◌+◌, ◌≤◌, String, Bool, ◌≡◌, none, some, List, [], ◌∷◌, ◌++◌, arith, length,
  length-append, All, inl, inr, Bool-cases,
}
use tts_studio.Base.Table.{All-delete}
use tts_studio.Registry.Domain.{GenerationState}
use tts_studio.Generation.Pcm.{
  Pcm, Subscriber, Replay, replay_key, max_replay, max_queue, replay_of, keep_replay, broadcast,
  each, offered, terminated, end_job, subscribe, leave, take_turn, next_chunk, step, Step, sends,
  ends_job, subscribes, takes, leaves, run,
}

abbrev pub IsShort : Subscriber → Type 0
IsShort s = length s.queue ≤ max_queue

abbrev pub IsSmall : Replay → Type 0
IsSmall r = length r.bytes ≤ max_replay

-- No queue of a subscriber holds more than 8 chunks, and no replay more than 8 MiB.
abbrev pub IsBounded : Pcm → Type 0
IsBounded p = All IsShort p.subscribers × All IsSmall p.replays

length-snoc {ℓ} : {A : Type ℓ} (xs : List A) (x : A) → length (xs ++ x ∷ []) ≡ length xs + 1
length-snoc xs x = length-append xs (x ∷ [])

terminated-IsShort : (s : Subscriber) → IsShort s → IsShort (terminated s)
terminated-IsShort s h = ground (arith, length-snoc s.queue none)

offered-IsShort : (pcm : List ℕ) (s : Subscriber) → IsShort s → IsShort (offered pcm s)
unfolding offered
offered-IsShort pcm s h = ground (arith, length-snoc s.queue (some pcm), length-snoc s.queue none)

next_chunk-IsShort : (s : Subscriber) → IsShort s → IsShort (next_chunk s).1
unfolding next_chunk
next_chunk-IsShort s h = ground arith

each-IsShort :
    (f : Subscriber → Subscriber) (k : String) (ss : List Subscriber)
    → ((s : Subscriber) → IsShort s → IsShort (f s))
    → All IsShort ss
    → All IsShort (each f k ss)
unfolding each
each-IsShort f k [] step all = tt
each-IsShort f k (s ∷ ss) step all = (ground (arith, step s all.0), each-IsShort f k ss step all.1)

take_turn-IsShort : (id : ℕ) (ss : List Subscriber) → All IsShort ss → All IsShort (take_turn id ss)
unfolding take_turn
take_turn-IsShort id [] all = tt
take_turn-IsShort id (s ∷ ss) all =
    (ground (arith, next_chunk-IsShort s all.0), take_turn-IsShort id ss all.1)

leave-IsShort : (id : ℕ) (ss : List Subscriber) → All IsShort ss → All IsShort (leave id ss)
unfolding leave
leave-IsShort id [] all = tt
leave-IsShort id (s ∷ ss) all = elim (Bool-cases (s.id == id)) [
  | inl e ↦ rw e (leave-IsShort id ss all.1)
  | inr e ↦ rw e (all.0, leave-IsShort id ss all.1)
]

keep_replay-IsBounded :
    (retain : Bool) (k : String) (pcm : List ℕ) (p : Pcm)
    → IsBounded p
    → IsBounded (keep_replay retain k pcm p)
unfolding keep_replay
keep_replay-IsBounded retain k pcm p (s, r) =
    let d = All-delete replay_key IsSmall k p.replays r in
    ground (arith, length-append (replay_of k p.replays) pcm)

broadcast-IsBounded :
    (retain : Bool) (k : String) (pcm : List ℕ) (p : Pcm)
    → IsBounded p
    → IsBounded (broadcast retain k pcm p)
unfolding broadcast
broadcast-IsBounded retain k pcm p h =
    let (s, r) = keep_replay-IsBounded retain k pcm p h in
    (
      each-IsShort (offered pcm) k (keep_replay retain k pcm p).subscribers (offered-IsShort pcm) s,
      r,
    )

end_job-IsBounded :
    (st : GenerationState) (retain : Bool) (k : String) (p : Pcm)
    → IsBounded p
    → IsBounded (end_job st retain k p)
unfolding end_job
end_job-IsBounded st retain k p (s, r) =
    let e = each-IsShort terminated k p.subscribers terminated-IsShort s in
    let d = All-delete replay_key IsSmall k p.replays r in ground arith

subscribe-IsBounded :
    (id : ℕ) (st : GenerationState) (k : String) (p : Pcm)
    → IsBounded p
    → IsBounded (subscribe id st k p).1
unfolding subscribe
subscribe-IsBounded id st k p (s, r) =
    let d = All-delete replay_key IsSmall k p.replays r in ground arith

step-IsBounded : (e : Step) (p : Pcm) → IsBounded p → IsBounded (step e p)
unfolding step
step-IsBounded (sends retain k pcm) p h = broadcast-IsBounded retain k pcm p h
step-IsBounded (ends_job st retain k) p h = end_job-IsBounded st retain k p h
step-IsBounded (subscribes id st k) p h = subscribe-IsBounded id st k p h
step-IsBounded (takes id) p (s, r) = (take_turn-IsShort id p.subscribers s, r)
step-IsBounded (leaves id) p (s, r) = (leave-IsShort id p.subscribers s, r)

-- From live PCM in which no queue of a subscriber holds more than 8 chunks and no replay more than
-- 8 MiB, every sequence of chunks, ends of jobs, subscriptions, turns and departures leads to such
-- live PCM.
pub run_pcm-IsBounded : (es : List Step) (p : Pcm) → IsBounded p → IsBounded (run es p)
unfolding run
run_pcm-IsBounded [] p h = h
run_pcm-IsBounded (e ∷ es) p h = run_pcm-IsBounded es (step e p) (step-IsBounded e p h)
