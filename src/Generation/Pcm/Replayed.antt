-- ===== src/Generation/Pcm/Replayed.antt =====
-- The replay that a late subscriber of a job without an artifact is given.
use mathlib.Core.Path.{subst}
use mathlib.Core.List.{append_assoc, append-nil}
use tts_studio.Base.{
  ℕ, ◌+◌, ◌≤◌, String, ◌≡◌, ◌≢◌, ◌⊎◌, refl, sym, ap, ◌∙◌, Bool, false, some, Option-cases,
  Bool-cases, inl, inr, List, [], ◌∷◌, ◌++◌, arith, length, length-append, str_eq, eq_iff,
  if◌then◌else◌, All,
}
use text.Mathlib.TextPositions.{eq_refl}
use tts_studio.Base.Table.{select, delete, select-delete}
use tts_studio.Registry.Domain.{GenerationState, completed}
use tts_studio.Generation.Pcm.{
  Pcm, Subscriber, Replay, replay_key, max_replay, is_in, has_listener, replay_of, keep_replay,
  broadcast, each, offered, terminated, end_job, subscribe, discard, listens, leave, take_turn,
  next_chunk, Step, sends, ends_job, subscribes, takes, leaves, step, run,
}

-- A step that a job `k` without an artifact lets happen while nobody subscribes to it: a chunk of its
-- own, or what other jobs and their subscribers do.
abbrev pub IsApart : String → Step → Type 0
IsApart k (sends retain j pcm) = (retain ≡ false) ⊎ (str_eq j k ≡ false)
IsApart k (ends_job st retain j) = str_eq j k ≡ false
IsApart k (subscribes id st j) = str_eq j k ≡ false
IsApart k (takes id) = Unit {0}
IsApart k (leaves id) = Unit {0}

-- The bytes that a step sends for the job, and those of a history.
abbrev pub chunk_of : String → Step → List ℕ
chunk_of k (sends retain j pcm) = if str_eq j k then pcm else []
chunk_of k (ends_job st retain j) = []
chunk_of k (subscribes id st j) = []
chunk_of k (takes id) = []
chunk_of k (leaves id) = []

unfoldable pub sent_of : String → List Step → List ℕ
sent_of k [] = []
sent_of k (s ∷ ss) = chunk_of k s ++ sent_of k ss

module _ (k : String) where
  -- Nobody listens to the job, and its replay is on.
  abbrev pub IsQuiet : Pcm → List ℕ → Type 0
  IsQuiet p bs =
      (has_listener k p.subscribers ≡ false)
      × (is_in k p.disabled ≡ false)
      × (replay_of k p.replays ≡ bs)

  -- No subscriber comes to listen to the job.
  has_listener-each :
      (f : Subscriber → Subscriber) (j : String) (ss : List Subscriber)
      → ((s : Subscriber) → listens k s ≡ false → listens k (f s) ≡ false)
      → has_listener k ss ≡ false
      → has_listener k (each f j ss) ≡ false
  unfolding has_listener each
  has_listener-each f j [] still h = refl
  has_listener-each f j (s ∷ ss) still h = ground (arith, still s, has_listener-each f j ss still)

  listens-offered :
      (pcm : List ℕ) (s : Subscriber) → listens k s ≡ false → listens k (offered pcm s) ≡ false
  unfolding offered
  listens-offered pcm s h = ground arith

  has_listener-leave :
      (id : ℕ) (ss : List Subscriber)
      → has_listener k ss ≡ false
      → has_listener k (leave id ss) ≡ false
  unfolding has_listener leave
  has_listener-leave id [] h = refl
  has_listener-leave id (s ∷ ss) h = ground (arith, has_listener-leave id ss)

  listens-next_chunk : (s : Subscriber) → listens k (next_chunk s).1 ≡ listens k s
  unfolding next_chunk
  listens-next_chunk s = ground arith

  has_listener-take_turn :
      (id : ℕ) (ss : List Subscriber)
      → has_listener k ss ≡ false
      → has_listener k (take_turn id ss) ≡ false
  unfolding has_listener take_turn
  has_listener-take_turn id [] h = refl
  has_listener-take_turn id (s ∷ ss) h =
      ground (arith, listens-next_chunk s, has_listener-take_turn id ss)

  -- What is done to the replay of another job.
  replay_of-delete :
      (j : String) (rs : List Replay)
      → str_eq j k ≡ false
      → replay_of k (delete replay_key j rs) ≡ replay_of k rs
  unfolding replay_of
  replay_of-delete j rs d = ground (arith, select-delete replay_key k j rs)

  replay_of-other :
      (j : String) (bytes : List ℕ) (rs : List Replay)
      → str_eq j k ≡ false
      → replay_of k (record { owner = j; bytes = bytes } ∷ delete replay_key j rs) ≡ replay_of k rs
  unfolding replay_of select
  replay_of-other j bytes rs d = rw (replay_of, select, d) (replay_of-delete j rs d)

  replay_of-own :
      (bytes : List ℕ) (rs : List Replay)
      → replay_of k (record { owner = k; bytes = bytes } ∷ rs) ≡ bytes
  unfolding replay_of select
  replay_of-own bytes rs = rw (replay_of, select, eq_refl k) refl

  is_in-discard :
      (j : String) (ks : List String) → is_in k ks ≡ false → is_in k (discard j ks) ≡ false
  unfolding is_in discard
  is_in-discard j [] h = refl
  is_in-discard j (x ∷ xs) h = ground (arith, is_in-discard j xs)

  keep_replay-other :
      (retain : Bool) (j : String) (pcm bs : List ℕ) (p : Pcm)
      → str_eq j k ≡ false
      → IsQuiet p bs
      → IsQuiet (keep_replay retain j pcm p) bs
  unfolding keep_replay is_in
  keep_replay-other retain j pcm bs p d (a, b, c) = (
    ground arith,
    ground arith,
    ground (
      arith,
      replay_of-other j (replay_of j p.replays ++ pcm) p.replays d,
      replay_of-delete j p.replays d,
    ),
  )

  keep_replay-own :
      (pcm bs : List ℕ) (p : Pcm)
      → IsQuiet p bs
      → length bs + length pcm ≤ max_replay
      → IsQuiet (keep_replay false k pcm p) (bs ++ pcm)
  unfolding keep_replay
  keep_replay-own pcm bs p (a, b, c) l = (
    ground arith,
    ground arith,
    ground (arith, replay_of-own (bs ++ pcm) (delete replay_key k p.replays)),
  )

  broadcast-IsQuiet :
      (retain : Bool) (j : String) (pcm bs : List ℕ) (p : Pcm)
      → IsQuiet (keep_replay retain j pcm p) bs
      → IsQuiet (broadcast retain j pcm p) bs
  unfolding broadcast
  broadcast-IsQuiet retain j pcm bs p (a, b, c) = (
    has_listener-each (offered pcm) j (keep_replay retain j pcm p).subscribers (listens-offered pcm)
        a,
    b,
    c,
  )

  own-IsQuiet :
      (retain : Bool) (j : String) (pcm bs : List ℕ) (p : Pcm)
      → retain ≡ false
      → j ≡ k
      → IsQuiet p bs
      → length bs + length pcm ≤ max_replay
      → IsQuiet (broadcast retain j pcm p) (bs ++ pcm)
  own-IsQuiet retain j pcm bs p off same q l =
      subst (λ b. IsQuiet (broadcast b j pcm p) (bs ++ pcm)) (sym off)
        (subst (λ i. IsQuiet (broadcast false i pcm p) (bs ++ pcm)) (sym same)
          (broadcast-IsQuiet false k pcm (bs ++ pcm) p (keep_replay-own pcm bs p q l)))

  sends-IsQuiet :
      (retain : Bool) (j : String) (pcm bs : List ℕ) (p : Pcm)
      → IsApart k (sends retain j pcm)
      → IsQuiet p bs
      → length bs + length (chunk_of k (sends retain j pcm)) ≤ max_replay
      → IsQuiet (broadcast retain j pcm p) (bs ++ chunk_of k (sends retain j pcm))
  sends-IsQuiet retain j pcm bs p apart q l = elim (Bool-cases (str_eq j k)) [
    | inl e ↦ rw e (
        own-IsQuiet retain j pcm bs p (ground arith) ((eq_iff j k).0 e) q
          (subst (λ b. length bs + length (if b then pcm else []) ≤ max_replay) e l))
    | inr d ↦ rw d (
        subst (IsQuiet (broadcast retain j pcm p)) (sym (append-nil bs))
          (broadcast-IsQuiet retain j pcm bs p (keep_replay-other retain j pcm bs p d q)))
  ]

  ends-IsQuiet :
      (st : GenerationState) (retain : Bool) (j : String) (bs : List ℕ) (p : Pcm)
      → str_eq j k ≡ false
      → IsQuiet p bs
      → IsQuiet (end_job st retain j p) bs
  unfolding end_job
  ends-IsQuiet st retain j bs p d (a, b, c) = (
    ground (arith, has_listener-each terminated j p.subscribers (λ s h. refl)),
    ground (arith, is_in-discard j p.disabled),
    ground (arith, replay_of-delete j p.replays d),
  )

  subscribes-IsQuiet :
      (id : ℕ) (st : GenerationState) (j : String) (bs : List ℕ) (p : Pcm)
      → str_eq j k ≡ false
      → IsQuiet p bs
      → IsQuiet (subscribe id st j p).1 bs
  unfolding subscribe has_listener
  subscribes-IsQuiet id st j bs p d (a, b, c) = (
    ground arith,
    ground (arith, is_in-discard j p.disabled),
    ground (arith, replay_of-delete j p.replays d),
  )

  step-IsQuiet :
      (s : Step) (bs : List ℕ) (p : Pcm)
      → IsApart k s
      → IsQuiet p bs
      → length bs + length (chunk_of k s) ≤ max_replay
      → IsQuiet (step s p) (bs ++ chunk_of k s)
  unfolding step
  step-IsQuiet (sends retain j pcm) bs p apart q l = sends-IsQuiet retain j pcm bs p apart q l
  step-IsQuiet (ends_job st retain j) bs p d q l =
      subst (IsQuiet (end_job st retain j p)) (sym (append-nil bs))
        (ends-IsQuiet st retain j bs p d q)
  step-IsQuiet (subscribes id st j) bs p d q l =
      subst (IsQuiet (subscribe id st j p).1) (sym (append-nil bs))
        (subscribes-IsQuiet id st j bs p d q)
  step-IsQuiet (takes id) bs p _ (a, b, c) l =
      (has_listener-take_turn id p.subscribers a, b, c ∙ sym (append-nil bs))
  step-IsQuiet (leaves id) bs p _ (a, b, c) l =
      (has_listener-leave id p.subscribers a, b, c ∙ sym (append-nil bs))

  run-IsQuiet :
      (ss : List Step) (bs : List ℕ) (p : Pcm)
      → All (IsApart k) ss
      → IsQuiet p bs
      → length bs + length (sent_of k ss) ≤ max_replay
      → IsQuiet (run ss p) (bs ++ sent_of k ss)
  unfolding run sent_of
  run-IsQuiet [] bs p all q l = subst (IsQuiet p) (sym (append-nil bs)) q
  run-IsQuiet (s ∷ ss) bs p (apart, all) q l =
      let own = chunk_of k s in
      let room : length bs + length own ≤ max_replay =
        omega (arith, length-append own (sent_of k ss)) in
      let all_room : length (bs ++ own) + length (sent_of k ss) ≤ max_replay =
        omega (arith, length-append own (sent_of k ss), length-append bs own) in
      subst (IsQuiet (run ss (step s p))) (append_assoc bs own (sent_of k ss))
        (run-IsQuiet ss (bs ++ own) (step s p) all (step-IsQuiet s bs p apart q room) all_room)

  ended-IsQuiet : (bs : List ℕ) (p : Pcm) → IsQuiet p bs → IsQuiet (end_job completed false k p) bs
  unfolding end_job
  ended-IsQuiet bs p (a, b, c) =
      (has_listener-each terminated k p.subscribers (λ s h. refl) a, b, c)

  given :
      (id : ℕ) (bs : List ℕ) (p : Pcm)
      → IsQuiet p bs
      → bs ≢ []
      → (subscribe id completed k p).0 ≡ some bs
  unfolding subscribe replay_of
  given id bs p (a, b, c) more = elim (Option-cases (select replay_key k p.replays)) [
    | inl e ↦ absurd (more (ground arith))
    | inr (r, e) ↦ ground arith
  ]

  -- If nobody subscribes to a job that keeps no artifact until it has completed, it has no replay yet
  -- and none was given up, and it sends some bytes but at most 8 MiB, all before its end, then the
  -- first to subscribe to it is given all its bytes, in order, whatever other jobs and their
  -- subscribers do before and after its end.
  pub subscribe-replay :
      (id : ℕ) (ss more : List Step) (p : Pcm)
      → IsQuiet p []
      → All (IsApart k) ss
      → All (IsApart k) more
      → sent_of k ss ≢ []
      → sent_of k more ≡ []
      → length (sent_of k ss) ≤ max_replay
      → (subscribe id completed k (run more (end_job completed false k (run ss p)))).0
        ≡ some (sent_of k ss)
  subscribe-replay id ss more p quiet before after some_sent none_sent l =
      let done = run-IsQuiet ss [] p before quiet (omega arith) in
      let last =
        run-IsQuiet more (sent_of k ss) (end_job completed false k (run ss p)) after
          (ended-IsQuiet (sent_of k ss) (run ss p) done) (rw none_sent (omega arith)) in
      given id (sent_of k ss) (run more (end_job completed false k (run ss p)))
        (subst (IsQuiet (run more (end_job completed false k (run ss p))))
          (ap (λ t. sent_of k ss ++ t) none_sent ∙ append-nil (sent_of k ss)) last)
        some_sent
