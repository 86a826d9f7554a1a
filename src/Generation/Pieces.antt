-- ===== src/Generation/Pieces.antt =====
-- What the parts of a run leave of the state of its job.
use tts_studio.Base.{
  Option, ◌∙◌, ap, String, ◌≡◌, ◌≢◌, refl, none, List, [], ◌∷◌, arith, inl, inr, All,
}
use tts_studio.Base.Exec.{err, transaction, read, generation_cancelled, Result-cases}
use tts_studio.Base.Int.{pos}
use tts_studio.Base.Json.{field, int, end}
use tts_studio.Base.Table.{select}
use tts_studio.Events.Text.{TextRules}
use tts_studio.Audio.Pcm.{Validator}
use tts_studio.Registry.Paths.{managed_audio_path}
use tts_studio.Registry.Domain.{GenerationJob, GenerationState, Db, job_key}
use tts_studio.Registry.Jobs.{get_job, or_fresh}
use tts_studio.Registry.Artifacts.{
  NewArtifact, create_artifact, delete_artifact, with_artifact, without_artifact,
}
use tts_studio.Generation.State.{Core, on_db, get}
use tts_studio.Generation.Stream.{
  Arrival, Production, opened, Event, header, chunk, progress, result, error, unknown, in_core,
  in_validator, produce, produce_all, end_stream, consume_stream,
}
use tts_studio.Generation.Run.{Answers}
use tts_studio.Registry.Calls.Jobs.{jobs-create_artifact, delete_cases}
use tts_studio.Generation.Kept.{state_of, state_at, state_of-update, publish_kept}

-- Other tasks do not move the job.
abbrev pub Respects : String → (Core → Core) → Type 0
Respects k f = (c : Core) → state_at k (f c).db ≡ state_at k c.db

-- The answers of a run: other tasks do not move the job while it awaits, and neither the files nor the
-- reference service answer as a stream does that is cancelled.
abbrev pub AreFair : String → Answers → Type 0
AreFair k a =
    (Respects k a.acquire.others)
    × (Respects k a.load.others)
    × (All (λ x. Respects k x.others) a.arrivals)
    × (Respects k a.unload.others)
    × (Respects k a.close_stream.others)
    × (Respects k a.unload_again.others)
    × (a.finalize ≢ err generation_cancelled)
    × (a.abort ≢ err generation_cancelled)
    × (a.release ≢ err generation_cancelled)

module _ (k : String) where
  abbrev table_state : List GenerationJob → Option GenerationState
  table_state t = state_of (select job_key k t)

  pub created_kept :
      (now fresh : String) (a : NewArtifact) (db : Db)
      → state_at k (create_artifact now fresh a db).1 ≡ state_at k db
  created_kept now fresh a db = elim (jobs-create_artifact now fresh db a) [
    | inl p ↦ ap table_state p
    | inr p ↦
        ap table_state p
        ∙ state_of-update k a.job_id (with_artifact now (or_fresh fresh a.artifact_id)) db.jobs
            (λ j. refl) (λ j. refl)
  ]

  pub created_plain :
      (now fresh : String) (a : NewArtifact) (db : Db)
      → (create_artifact now fresh a db).0 ≢ err generation_cancelled
  unfolding create_artifact transaction managed_audio_path
  created_plain now fresh a db h = ground arith

  pub deleted_kept :
      (now id : String) (db : Db) → state_at k (delete_artifact now id db).1 ≡ state_at k db
  deleted_kept now id db = elim (delete_cases now id db) [
    | inl p ↦ ap table_state p
    | inr (a, p) ↦
        ap table_state p
        ∙ state_of-update k a.job_id (without_artifact now) db.jobs (λ j. refl) (λ j. refl)
  ]

  pub get_kept : (i : String) (c : Core) → (get i c).1.db ≡ c.db
  unfolding get on_db get_job read
  get_kept i c = refl

  module _ (rules : TextRules) (job : GenerationJob) where
    event_kept : (e : Event) (p : Production) → (produce rules job e p).1.core.db ≡ p.core.db
    unfolding produce in_core in_validator
    event_kept (header h) p = ground (arith, get_kept job.id p.core)
    event_kept (chunk n pcm) p = ground (arith, get_kept job.id p.core)
    event_kept progress p = elim (Result-cases (get job.id p.core).0) [
      | inr (x, e) ↦ ground (arith, get_kept job.id p.core)
      | inl (j, e) ↦
          let written = field "bytes_written" (int (pos p.validator.byte_count)) end in
          let c = (get job.id p.core).1 in
          let q =
            publish_kept k rules "generation.progress" "Generation is in progress." j none written
              c in
          ground (arith, get_kept job.id p.core, q)
    ]
    event_kept (result n d) p = ground (arith, get_kept job.id p.core)
    event_kept (error c r) p = ground (arith, get_kept job.id p.core)
    event_kept unknown p = ground (arith, get_kept job.id p.core)

    stream_kept :
        (arrivals : List Arrival) (p : Production)
        → All (λ a. Respects k a.others) arrivals
        → state_at k (produce_all rules job arrivals p).1.core.db ≡ state_at k p.core.db
    unfolding produce_all in_core
    stream_kept [] p all = refl
    stream_kept (a ∷ rest) p all = elim (Result-cases a.event) [
      | inr (x, e) ↦ ground (arith, all.0 p.core)
      | inl (event, e) ↦
          let moved = record p { core = a.others p.core } in
          let q = event_kept event moved in
          let rest = stream_kept rest (produce rules job event moved).1 all.1 in
          ground (arith, q, rest, all.0 p.core)
    ]

    over_kept : (p : Production) → (end_stream p).1.core ≡ p.core
    unfolding end_stream in_validator
    over_kept p = ground arith

    pub consume_kept :
        (v : Validator) (arrivals : List Arrival) (c : Core)
        → All (λ a. Respects k a.others) arrivals
        → state_at k (consume_stream rules job v arrivals c).1.db ≡ state_at k c.db
    unfolding consume_stream
    consume_kept v arrivals c all =
        let q = stream_kept arrivals (opened c v) all in
        let e = over_kept (produce_all rules job arrivals (opened c v)).1 in ground (arith, q, e)
