-- ===== src/Generation/Kept.antt =====
-- Which operations of the service keep the state of a Generation Job, and what a transition does to
-- it.
use mathlib.Core.Path.{subst}
use text.Mathlib.TextPositions.{eq_refl}
use mathlib.Core.Option
use tts_studio.Base.{
  String, Bool, ◌≡◌, ◌≢◌, refl, sym, ap, Option, none, some, List, arith, inl, inr, Option-cases,
}
use tts_studio.Base.Exec.{
  Result, ok, err, Exec, transaction, read, pure, ◌>>=◌, generation_cancelled,
}
use tts_studio.Base.Outcomes.{Ends}
use tts_studio.Base.Table.{select, update, select-update, key-select}
use tts_studio.Registry.Domain.{GenerationJob, GenerationState, Db, job_at, job_key}
use tts_studio.Registry.Jobs.{
  Progress, get_job, transition_job, clear_reference_id, cleared_reference, advanced,
}
use tts_studio.Registry.Jobs.Transition.{next_row, transition_found, transition_err}
use tts_studio.Base.Json.{Fields}
use tts_studio.Events.Text.{TextRules}
use tts_studio.Events.Store.{
  Store, Message, Stream, append, resolve_stream, safe_stream, with_job, is_generation, infer_kind,
  job_of,
}
use tts_studio.Events.Safe.{rest}
use tts_studio.Generation.State.{Core, on_db, on_store, get, publish, message_of}

abbrev pub state_of : Option GenerationJob → Option GenerationState
state_of none = none
state_of (some j) = some j.state

-- The state of the job with an id.
abbrev pub state_at : String → Db → Option GenerationState
state_at k db = state_of (job_at k db)

state_of-map :
    (f : GenerationJob → GenerationJob) (o : Option GenerationJob)
    → ((j : GenerationJob) → (f j).state ≡ j.state)
    → state_of (Option.map f o) ≡ state_of o
state_of-map f none h = refl
state_of-map f (some j) h = ap some (h j)

pub state_of-update :
    (k i : String) (f : GenerationJob → GenerationJob) (t : List GenerationJob)
    → ((j : GenerationJob) → (f j).id ≡ j.id)
    → ((j : GenerationJob) → (f j).state ≡ j.state)
    → state_of (select job_key k (update job_key i f t)) ≡ state_of (select job_key k t)
state_of-update k i f t same_id same_state =
    let e = select-update job_key k i f t same_id in
    ground (arith, e, state_of-map f (select job_key k t) same_state)

-- The job that stands in a state.
pub job_in_state :
    (k : String) (db : Db) (st : GenerationState)
    → state_at k db ≡ some st
    → (j : GenerationJob) × (job_at k db ≡ some j) × (j.state ≡ st) × (j.id ≡ k)
job_in_state k db st h = elim (Option-cases (job_at k db)) [
  | inl e ↦ absurd (ground arith)
  | inr (j, e) ↦ (j, e, ground arith, key-select job_key k db.jobs e)
]

module _ (k : String) where
  pub cleared_kept :
      (now i : String) (db : Db) → state_at k (clear_reference_id now i db).1 ≡ state_at k db
  unfolding clear_reference_id transaction
  cleared_kept now i db =
      let e = state_of-update k i (cleared_reference now) db.jobs (λ j. refl) (λ j. refl) in
      ground arith

  pub cleared_plain :
      (now i : String) (db : Db) → (clear_reference_id now i db).0 ≢ err generation_cancelled
  unfolding clear_reference_id transaction
  cleared_plain now i db h = ground arith

module _ (k : String) (st : GenerationState) where
  -- A block that leaves the job in its state, however it ends.
  abbrev pub Keeps : {A : Type 0} → Exec Core A → Core → Type 0
  Keeps {A} m c = state_at k (m c).1.db ≡ state_at k c.db

  pub get_found :
      (c : Core)
      → state_at k c.db ≡ some st
      → (j : GenerationJob) × (get k c ≡ (ok j, c)) × (j.state ≡ st) × (j.id ≡ k)
  unfolding get on_db get_job read
  get_found c h = let (j, e, s, i) = job_in_state k c.db st h in (j, ground arith, s, i)

  module _ (now : String) (st' : GenerationState) (p : Progress) (db : Db) where
    pub row_state :
        (j : GenerationJob)
        → job_at k db ≡ some j
        → (j' : GenerationJob) × (select job_key k (update job_key k (next_row now st' p j) db.jobs)
            ≡ some j')
          × (j'.state ≡ st')
    unfolding advanced
    row_state j e =
        let u = select-update job_key k k (next_row now st' p j) db.jobs (λ a. refl) in
        let r = eq_refl k in (next_row now st' p j j, ground arith, refl)

    transition_plain :
        {db' : Db} → transition_job now k st' p db ≡ (err generation_cancelled, db') → ⊥
    unfolding transition_job transaction
    transition_plain h = ground arith

    -- What a transition of the job leaves behind: its new state, or the old one.
    abbrev pub Moved : Result GenerationJob × Db → Type 0
    Moved r =
        Ends (λ j db'. (state_at k db' ≡ some st') × (j.id ≡ k) × (j.state ≡ st'))
          (λ e db'. (state_at k db' ≡ some st) × (e ≢ generation_cancelled)) r

    moved :
        (r : Result GenerationJob × Db)
        → transition_job now k st' p db ≡ r
        → state_at k db ≡ some st
        → Moved r
    moved (err e, db') h at = (
      subst (λ d. state_at k d ≡ some st) (sym (transition_err now k st' p db h)) at,
      λ q. transition_plain (subst (λ x. transition_job now k st' p db ≡ (err x, db')) q h),
    )
    moved (ok j', db') h at =
        let (j, e, _, _) = job_in_state k db st at in
        let (_, _, _, _, d, f) = transition_found now k st' p db e h in
        let (i, g, s) = row_state j e in
        let same : i ≡ j' = ground arith in
        (ground arith, key-select job_key k db'.jobs f, ground arith)

    pub transition_state : state_at k db ≡ some st → Moved (transition_job now k st' p db)
    transition_state at = moved (transition_job now k st' p db) refl at

module _ (k : String) (rules : TextRules) where
  pub publish_kept :
      (name message : String) (j : GenerationJob) (e : Option Fields) (extra : Fields) (c : Core)
      → (publish rules name j message e extra c).1.db ≡ c.db
  unfolding publish on_store
  publish_kept name message j e extra c = ground arith

  safe_plain : (s : Stream) → safe_stream rules s ≢ err generation_cancelled
  unfolding safe_stream
  safe_plain s h = ground arith

  rest_plain :
      (gen : Bool) (i j : Option String) (s : Stream)
      → rest rules gen i j s ≢ err generation_cancelled
  rest_plain gen i j s h = ground (arith, safe_plain (with_job gen i j s))

  resolve_plain :
      (m : Message) → m.download_id ≡ none → resolve_stream rules m ≢ err generation_cancelled
  unfolding resolve_stream
  resolve_plain m h = rw h (
      rest_plain (is_generation m) (infer_kind m.event_type) (job_of m)
        (m.stream_kind, m.stream_id))

  append_plain :
      (now : String) (m : Message) (s : Store)
      → m.download_id ≡ none
      → (append rules now m s).0 ≢ err generation_cancelled
  unfolding append transaction
  append_plain now m s h e = let p = resolve_plain m h in ground arith

  renamed_plain :
      {A : Type 0} (r : Result A × Store) (c : Core)
      → r.0 ≢ err generation_cancelled
      → (◌>>=◌ (λ c. (r.0, record c { store = r.1 })) (λ x. pure tt) c).0 ≢ err generation_cancelled
  renamed_plain (ok a, s) c h e = absurd (cc)
  renamed_plain (err x, s) c h e = absurd (ground (arith, h))

  pub publish_plain :
      (name message : String) (j : GenerationJob) (e : Option Fields) (extra : Fields) (c : Core)
      → (publish rules name j message e extra c).0 ≢ err generation_cancelled
  unfolding publish on_store message_of
  publish_plain name message j e extra c =
      renamed_plain (append rules c.now (message_of name j message e extra) c.store) c
        (append_plain c.now (message_of name j message e extra) c.store refl)
