-- ===== src/Generation/Finals.antt =====
-- How a run ends: its audio is stored, its reference released and its job completed.
use mathlib.Core.Path.{subst}
use tts_studio.Base.{
  String, Bool, ◌≡◌, ◌≢◌, refl, sym, Option, none, some, arith, inl, inr, Bool-cases,
}
use tts_studio.Base.Exec.{Result, ok, err, generation_cancelled, Result-cases, ◌>>=◌, ◌>>◌}
use tts_studio.Base.Outcomes.{Ends, bind-Ends}
use tts_studio.Base.Json.{end}
use tts_studio.Events.Text.{TextRules}
use tts_studio.Models.Installations.{Numbers}
use tts_studio.Workers.Domain.{WorkerCapabilities}
use tts_studio.Audio.Pcm.{Validator}
use tts_studio.Registry.Domain.{GenerationJob, queued, generating, finalizing, completed, Db}
use tts_studio.Registry.Jobs.{transition_job, no_progress}
use tts_studio.Generation.State.{ReferenceHandle, on_db, publish, transition, release_reference}
use tts_studio.Generation.Stream.{StreamResult}
use tts_studio.Generation.Run.{
  Answers, Task, announce, publish_artifact, artifact_of, release_held, in_core, unload, admit,
  load_model, request, stream, store_audio, release_used, complete, generate,
}
use tts_studio.Generation.Kept.{
  state_at, publish_kept, cleared_kept, cleared_plain, transition_state, Moved,
}
use tts_studio.Generation.Pieces.{AreFair, Respects, created_kept, created_plain}
use tts_studio.Generation.Run.{
  counted, finalized, settle_audio, finalize_job, synthesize, produce_audio,
}
use tts_studio.Generation.Steps.{
  At, Failed, kept-Ends, transition-Ends, admit-Ends, load-Ends, request-Ends, stream-Ends,
}

module _ (k : String) (numbers : Numbers) (rules : TextRules) (v : Validator) (a : Answers)
    (j : GenerationJob) (i : j.id ≡ k) where
  publish_artifact_kept :
      (r : StreamResult) (t : Task)
      → state_at k (publish_artifact numbers rules v a j r t).1.core.db ≡ state_at k t.core.db
  unfolding publish_artifact in_core on_db
  publish_artifact_kept r t = elim (Result-cases a.finalize) [
    | inr (x, e) ↦ ground arith
    | inl (p, e) ↦
        let q = created_kept k t.core.now "" (artifact_of j p r) t.core.db in ground (arith, q)
  ]

  publish_artifact_plain :
      (r : StreamResult) (t : Task)
      → a.finalize ≢ err generation_cancelled
      → (publish_artifact numbers rules v a j r t).0 ≢ err generation_cancelled
  unfolding publish_artifact in_core on_db
  publish_artifact_plain r t plain h = elim (Result-cases a.finalize) [
    | inr (x, e) ↦ ground arith
    | inl (p, e) ↦
        let q = created_plain k t.core.now "" (artifact_of j p r) t.core.db in ground (arith, q)
  ]

  store-Ends :
      (r : StreamResult) (t : Task)
      → a.finalize ≢ err generation_cancelled
      → a.abort ≢ err generation_cancelled
      → At k finalizing t
      → Ends (λ x s. At k finalizing s) (Failed k) (store_audio numbers rules v a j r t)
  unfolding store_audio
  store-Ends r t f b at = elim (Bool-cases j.retain_artifact) [
    | inl e ↦ rw e (
        kept-Ends k finalizing t (publish_artifact numbers rules v a j r t) at
          (publish_artifact_kept r t) (λ p. absurd (publish_artifact_plain r t f p)))
    | inr e ↦ rw e (kept-Ends k finalizing t (a.abort, t) at refl (λ p. absurd (b p)))
  ]

  release_held_kept :
      (reference : Option ReferenceHandle) (t : Task)
      → state_at k (release_held numbers rules v a j reference t).1.core.db ≡ state_at k t.core.db
  unfolding release_held in_core on_db
  release_held_kept reference t =
      let q = cleared_kept k t.core.now j.id t.core.db in ground (arith, q)

  release_plain :
      (configured : Bool) (reference : Option ReferenceHandle)
      → a.release ≢ err generation_cancelled
      → release_reference configured reference a.release ≢ err generation_cancelled
  unfolding release_reference
  release_plain configured reference plain h = ground arith

  release_held_plain :
      (reference : Option ReferenceHandle) (t : Task)
      → a.release ≢ err generation_cancelled
      → (release_held numbers rules v a j reference t).0 ≢ err generation_cancelled
  unfolding release_held in_core on_db
  release_held_plain reference t plain h =
      let q = cleared_plain k t.core.now j.id t.core.db in
      let p = release_plain t.core.has_references reference plain in ground (arith, q, p)

  release-Ends :
      (reference : Option ReferenceHandle) (t : Task)
      → a.release ≢ err generation_cancelled
      → At k finalizing t
      → Ends (λ x s. At k finalizing s) (Failed k) (release_used numbers rules v a j reference t)
  unfolding release_used
  release-Ends none t plain at = at
  release-Ends (some h) t plain at =
      kept-Ends k finalizing t (release_held numbers rules v a j (some h) t) at
        (release_held_kept (some h) t) (λ p. absurd (release_held_plain (some h) t plain p))

  announce_kept :
      (done : GenerationJob) (t : Task)
      → Respects k a.unload.others
      → state_at k (announce numbers rules v a done t).1.core.db ≡ state_at k t.core.db
  unfolding announce in_core unload
  announce_kept done t calm =
      let c =
        (publish rules "generation.completed" done "Generation completed." none end t.core).1 in
      let p =
        publish_kept k rules "generation.completed" "Generation completed." done none end t.core in
      ground (arith, p, calm c)

  lift_db : Task → Result GenerationJob × Db → Result GenerationJob × Task
  lift_db t r = (r.0, record t { core = record t.core { db = r.1 } })

  completed-Ends :
      (t : Task) (r : Result GenerationJob × Db)
      → Moved k finalizing t.core.now completed no_progress t.core.db r
      → Ends (λ d s. At k completed s) (Failed k) (lift_db t r)
  unfolding lift_db
  completed-Ends t (ok d, db) (at, _, _) = at
  completed-Ends t (err e, db) (at, plain) = (finalizing, at, λ p. absurd (plain p))

  complete-Ends :
      (r : StreamResult) (t : Task)
      → Respects k a.unload.others
      → At k finalizing t
      → Ends (λ x s. At k completed s) (Failed k) (complete numbers rules v a j r t)
  unfolding complete in_core on_db lift_db
  complete-Ends r t calm at =
      bind-Ends (λ d s. At k completed s) (λ x s. At k completed s) (Failed k)
        (in_core (on_db (λ now. transition_job now j.id completed (counted r))))
        (announce numbers rules v a) t
        (subst
          (λ i.
            Ends (λ d s. At k completed s) (Failed k)
              (lift_db t (transition_job t.core.now i completed (counted r) t.core.db)))
          (sym i)
          (completed-Ends t (transition_job t.core.now k completed (counted r) t.core.db)
            (transition_state k finalizing t.core.now completed (counted r) t.core.db at)))
        (λ d s at.
          kept-Ends k completed s (announce numbers rules v a d s) at (announce_kept d s calm)
            (λ p. refl))

  settle-Ends :
      (reference : Option ReferenceHandle) (r : StreamResult) (t : Task)
      → Respects k a.unload.others
      → a.finalize ≢ err generation_cancelled
      → a.abort ≢ err generation_cancelled
      → a.release ≢ err generation_cancelled
      → At k finalizing t
      → Ends (λ x s. At k completed s) (Failed k) (settle_audio numbers rules v a j reference r t)
  unfolding settle_audio
  settle-Ends reference r t calm f b l at =
      bind-Ends (λ x s. At k finalizing s) (λ x s. At k completed s) (Failed k)
        (store_audio numbers rules v a j r)
        (λ x. release_used numbers rules v a j reference >> complete numbers rules v a j r) t
        (store-Ends r t f b at)
        (λ x s at.
          bind-Ends (λ x s. At k finalizing s) (λ x s. At k completed s) (Failed k)
            (release_used numbers rules v a j reference) (λ x. complete numbers rules v a j r) s
            (release-Ends reference s l at) (λ x u at. complete-Ends r u calm at))

  finalize-Ends :
      (reference : Option ReferenceHandle) (r : StreamResult) (t : Task)
      → AreFair k a
      → At k generating t
      → Ends (λ x s. At k completed s) (Failed k) (finalize_job numbers rules v a k j reference r t)
  unfolding finalize_job
  finalize-Ends reference r t (_, _, _, calm, _, _, f, b, l) at =
      bind-Ends (λ g s. At k finalizing s × (g.id ≡ k)) (λ x s. At k completed s) (Failed k)
        (in_core (transition rules k finalizing "Finalizing the WAV artifact." (finalized r)))
        (λ g. settle_audio numbers rules v a j reference r) t
        (transition-Ends k rules generating finalizing "Finalizing the WAV artifact." (finalized r)
          t at)
        (λ g s (at, _). settle-Ends reference r s calm f b l at)

  synthesize-Ends :
      (reference : Option ReferenceHandle) (lease : WorkerCapabilities) (t : Task)
      → AreFair k a
      → At k generating t
      → Ends
          (λ r s. At k generating s)
          (Failed k)
          (synthesize numbers rules v a j reference lease t)
  unfolding synthesize
  synthesize-Ends reference lease t fair at =
      bind-Ends (λ x s. At k generating s) (λ r s. At k generating s) (Failed k)
        (request numbers rules v a j reference lease) (λ x. stream numbers rules v a j) t
        (request-Ends k numbers rules v a j i reference lease t at)
        (λ x s at. stream-Ends k numbers rules v a j i s fair.2 at)

  produce-Ends :
      (reference : Option ReferenceHandle) (lease : WorkerCapabilities) (t : Task)
      → AreFair k a
      → At k queued t
      → Ends
          (λ x s. At k completed s)
          (Failed k)
          (produce_audio numbers rules v a j reference lease t)
  unfolding produce_audio
  produce-Ends reference lease t fair at =
      bind-Ends (λ g s. At k generating s × (g.id ≡ k)) (λ x s. At k completed s) (Failed k)
        (load_model numbers rules v a j)
        (λ g.
          ◌>>=◌ (synthesize numbers rules v a j reference lease)
            (finalize_job numbers rules v a g.id j reference))
        t (load-Ends k numbers rules v a j i t fair.1 at)
        (λ g s (at, same).
          bind-Ends (λ r u. At k generating u) (λ x u. At k completed u) (Failed k)
            (synthesize numbers rules v a j reference lease)
            (finalize_job numbers rules v a g.id j reference) s
            (synthesize-Ends reference lease s fair at)
            (λ r u at.
              subst
                (λ i.
                  Ends (λ x u. At k completed u) (Failed k)
                    (finalize_job numbers rules v a i j reference r u))
                (sym same) (finalize-Ends reference r u fair at)))

  -- A run of a queued job completes it, or raises, and then the job is in a state that it cannot be
  -- cancelled from only if the error is not that of a cancelled stream.
  pub generate-Ends :
      (t : Task)
      → AreFair k a
      → At k queued t
      → Ends (λ x s. At k completed s) (Failed k) (generate numbers rules v a j t)
  unfolding generate
  generate-Ends t fair at =
      bind-Ends (λ m s. At k queued s) (λ x s. At k completed s) (Failed k)
        (admit numbers rules v a j) (λ m. produce_audio numbers rules v a j m.1 m.2) t
        (admit-Ends k numbers rules v a j i t fair.0 at) (λ m s at. produce-Ends m.1 m.2 s fair at)
