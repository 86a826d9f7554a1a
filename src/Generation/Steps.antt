-- ===== src/Generation/Steps.antt =====
-- The parts of a run, one after another, as steps of the state machine of its job.
use mathlib.Core.Path.{subst}
use tts_studio.Base.{
  String, Bool, ◌≡◌, ◌≢◌, refl, sym, ap, ◌∙◌, true, ◌||◌, Option, none, some, ◌∷◌, arith, All,
}
use tts_studio.Base.Exec.{Error, Result, ok, err, generation_cancelled, ◌>>=◌, ◌>>◌, continue}
use tts_studio.Base.Outcomes.{Ends, bind-Ends}
use tts_studio.Base.Json.{end}
use tts_studio.Events.Text.{TextRules}
use tts_studio.Models.Installations.{Numbers}
use tts_studio.Workers.Domain.{WorkerCapabilities}
use tts_studio.Audio.Pcm.{Validator}
use tts_studio.Registry.Domain.{
  GenerationJob, GenerationState, queued, loading, generating, Db, is_terminal, is_cancellable,
}
use tts_studio.Registry.Jobs.{Progress, transition_job, no_progress}
use tts_studio.Generation.State.{
  Core, ReferenceHandle, on_db, await, publish, event_name, transition,
}
use tts_studio.Generation.Run.{
  Answers, Task, await_load, load_started, in_core, admit, load_model, request, stream,
}
use tts_studio.Generation.Kept.{state_at, publish_kept, publish_plain, transition_state}
use tts_studio.Generation.Pieces.{Respects, consume_kept}

module _ (k : String) where
  abbrev pub At : GenerationState → Task → Type 0
  At st t = state_at k t.core.db ≡ some st

  -- A state from which a job can be cancelled, or that it does not leave.
  abbrev pub is_settled : GenerationState → Bool
  is_settled st = is_cancellable st || is_terminal st

  -- Where a run that raises leaves its job.
  abbrev pub Failed : Error → Task → Type 0
  Failed e t =
      (st : GenerationState) × (At st t) × (e ≡ generation_cancelled → is_settled st ≡ true)

  abbrev pub lift_core : {A : Type 0} → Task → Result A × Core → Result A × Task
  lift_core t r = (r.0, record t { core = r.1 })

  module _ {A : Type 0} (st : GenerationState) where
    pub kept-Ends :
        (t : Task) (r : Result A × Task)
        → At st t
        → state_at k r.1.core.db ≡ state_at k t.core.db
        → (r.0 ≡ err generation_cancelled → is_settled st ≡ true)
        → Ends (λ a s. At st s) Failed r
    kept-Ends t (ok a, s) at h c = h ∙ at
    kept-Ends t (err e, s) at h c = (st, h ∙ at, λ p. c (ap err p))

  module _ (rules : TextRules) where
    after_publish :
        (st : GenerationState) (t : Task) (j : GenerationJob) (r : Result (Unit {0}) × Core)
        → state_at k r.1.db ≡ some st
        → r.0 ≢ err generation_cancelled
        → j.id ≡ k
        → Ends (λ j s. At st s × (j.id ≡ k)) Failed (in_core (λ c. continue r λ x c. (ok j, c)) t)
    unfolding in_core
    after_publish st t j (ok x, c) at plain i = (at, i)
    after_publish st t j (err e, c) at plain i = (st, at, λ p. absurd (plain (ap err p)))

    moved-Ends :
        (st st' : GenerationState) (name message : String) (t : Task)
        (r : Result GenerationJob × Db)
        → Ends
            (λ j db. (state_at k db ≡ some st') × (j.id ≡ k) × (j.state ≡ st'))
            (λ e db. (state_at k db ≡ some st) × (e ≢ generation_cancelled))
            r
        → Ends
            (λ j s. At st' s × (j.id ≡ k))
            Failed
            (in_core
              (◌>>=◌
                (λ c. (r.0, record c { db = r.1 }))
                λ j. publish rules name j message none end >> λ c. (ok j, c))
              t)
    unfolding in_core
    moved-Ends st st' name message t (err e, db) (at, plain) = (st, at, λ p. absurd (plain p))
    moved-Ends st st' name message t (ok j, db) (at, i, s) =
        let c = record t.core { db = db } in
        after_publish st' t j (publish rules name j message none end c)
          (ap (state_at k) (publish_kept k rules name message j none end c) ∙ at)
          (publish_plain k rules name message j none end c) i

    pub transition-Ends :
        (st st' : GenerationState) (message : String) (p : Progress) (t : Task)
        → At st t
        → Ends (λ j s. At st' s × (j.id ≡ k)) Failed (in_core (transition rules k st' message p) t)
    unfolding transition on_db in_core
    transition-Ends st st' message p t at =
        moved-Ends st st' (event_name rules st') message t
          (transition_job t.core.now k st' p t.core.db)
          (transition_state k st t.core.now st' p t.core.db at)

  module _ (numbers : Numbers) (rules : TextRules) (v : Validator) (a : Answers) (j : GenerationJob)
      (i : j.id ≡ k) where
    pub admit-Ends :
        (t : Task)
        → Respects k a.acquire.others
        → At queued t
        → Ends (λ m s. At queued s) Failed (admit numbers rules v a j t)
    unfolding admit in_core await
    admit-Ends t calm at =
        kept-Ends queued t (admit numbers rules v a j t) at (ground (arith, calm t.core))
          (λ p. refl)

    await_load_kept :
        (t : Task)
        → Respects k a.load.others
        → state_at k (await_load numbers rules v a t).1.core.db ≡ state_at k t.core.db
    unfolding await_load in_core await
    await_load_kept t calm = ground (arith, calm t.core)

    started-Ends :
        (t : Task)
        → Respects k a.load.others
        → At loading t
        → Ends (λ g s. At generating s × (g.id ≡ k)) Failed (load_started numbers rules v a k t)
    unfolding load_started
    started-Ends t calm at =
        bind-Ends (λ x s. At loading s) (λ g s. At generating s × (g.id ≡ k)) Failed
          (await_load numbers rules v a)
          (λ x. in_core (transition rules k generating "Generating audio." no_progress)) t
          (kept-Ends loading t (await_load numbers rules v a t) at (await_load_kept t calm)
            (λ p. refl))
          (λ x s at. transition-Ends rules loading generating "Generating audio." no_progress s at)

    pub load-Ends :
        (t : Task)
        → Respects k a.load.others
        → At queued t
        → Ends (λ g s. At generating s × (g.id ≡ k)) Failed (load_model numbers rules v a j t)
    unfolding load_model
    load-Ends t calm at =
        bind-Ends (λ g s. At loading s × (g.id ≡ k)) (λ g s. At generating s × (g.id ≡ k)) Failed
          (in_core (transition rules j.id loading "Loading the model." no_progress))
          (λ g. load_started numbers rules v a g.id) t
          (subst
            (λ i.
              Ends (λ g s. At loading s × (g.id ≡ k)) Failed
                (in_core (transition rules i loading "Loading the model." no_progress) t))
            (sym i) (transition-Ends rules queued loading "Loading the model." no_progress t at))
          (λ g s (at, i).
            subst
              (λ i.
                Ends (λ g s. At generating s × (g.id ≡ k)) Failed
                  (load_started numbers rules v a i s))
              (sym i) (started-Ends s calm at))

    pub request-Ends :
        (reference : Option ReferenceHandle) (lease : WorkerCapabilities) (t : Task)
        → At generating t
        → Ends (λ x s. At generating s) Failed (request numbers rules v a j reference lease t)
    unfolding request in_core
    request-Ends reference lease t at =
        kept-Ends generating t (request numbers rules v a j reference lease t) at (ground arith)
          (λ p. refl)

    pub stream-Ends :
        (t : Task)
        → All (λ a. Respects k a.others) a.arrivals
        → At generating t
        → Ends (λ x s. At generating s) Failed (stream numbers rules v a j t)
    unfolding stream in_core
    stream-Ends t calm at =
        let c = record t.core { streams = j.id ∷ t.core.streams } in
        let q = consume_kept k rules j v a.arrivals c calm in
        kept-Ends generating t (stream numbers rules v a j t) at (ground (arith, q)) (λ p. refl)
