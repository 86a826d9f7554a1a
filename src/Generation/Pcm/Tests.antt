-- ===== src/Generation/Pcm/Tests.antt =====
-- The results on live PCM, applied to concrete subscribers and chunks.
use tts_studio.Base.{◌≡◌, refl, inl, true, false, some, List, [], ◌∷◌, arith, IsPrefix}
use tts_studio.Base.Table.{select, delete}
use tts_studio.Registry.Domain.{GenerationState}
use tts_studio.Generation.Pcm.{
  Pcm, Step, sends, ends_job, subscribes, takes, run, subscribe, end_job, is_in, has_listener,
  replay_of, each, offered, leave, keep_replay, discard,
}
use tts_studio.Generation.Pcm.Live.{
  Live, chunk, turn, delivered, delivered_prefix, sent, subscriber,
}
use tts_studio.Generation.Pcm.Replayed.{sent_of, subscribe-replay}
use tts_studio.Generation.Pcm.Bounded.{IsBounded, run_pcm-IsBounded}

abbrev silent : Pcm
silent = record { subscribers = []; replays = []; disabled = [] }

abbrev lives : List Live
lives = chunk (1 ∷ 2 ∷ []) ∷ turn ∷ chunk (3 ∷ 4 ∷ []) ∷ Live.ending ∷ turn ∷ turn ∷ []

abbrev steps : List Step
steps = subscribes 1 GenerationState.generating "a" ∷ sends false "a" (1 ∷ 2 ∷ []) ∷ takes 1 ∷ []

delivered_prefix_example : IsPrefix (delivered lives (subscriber 1 "a" [] true false)) (sent lives)
delivered_prefix_example = delivered_prefix 1 "a" lives

-- A job sends two chunks; between them job "b" sends one and ends, and it ends again after the job.
abbrev sending : List Step
sending =
    sends false "a" (1 ∷ 2 ∷ [])
    ∷ sends false "b" (9 ∷ 9 ∷ [])
    ∷ ends_job GenerationState.failed false "b"
    ∷ sends false "a" (3 ∷ 4 ∷ [])
    ∷ []

abbrev afterwards : List Step
afterwards = ends_job GenerationState.failed false "b" ∷ []

subscribe-replay_example :
    (subscribe 1 GenerationState.completed "a"
      (run afterwards (end_job GenerationState.completed false "a" (run sending silent)))).0
    ≡ some (sent_of "a" sending)
unfolding has_listener is_in replay_of sent_of select
subscribe-replay_example =
    subscribe-replay "a" 1 sending afterwards silent (refl, refl, refl)
      (inl refl, (inl refl, (refl, (inl refl, tt)))) (refl, tt) (λ e. cc) refl (omega arith)

run_pcm-IsBounded_example : IsBounded (run steps silent)
run_pcm-IsBounded_example = run_pcm-IsBounded steps silent (tt, tt)

-- The replay skips what is sent while somebody listens: a subscriber that leaves early makes the
-- replay of the job lack the chunk that it was given.
abbrev visited : List Step
visited =
    sends false "a" (1 ∷ 2 ∷ [])
    ∷ subscribes 1 GenerationState.generating "a"
    ∷ sends false "a" (3 ∷ 4 ∷ [])
    ∷ Step.leaves 1
    ∷ sends false "a" (5 ∷ 6 ∷ [])
    ∷ []

replay_gap :
    (subscribe 2 GenerationState.completed "a"
      (end_job GenerationState.completed false "a" (run visited silent))).0
    ≡ some (1 ∷ 2 ∷ 5 ∷ 6 ∷ [])
unfolding run subscribe end_job select delete each offered leave is_in has_listener replay_of
    keep_replay discard
replay_gap = refl
