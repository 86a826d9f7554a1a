-- ===== src/Models/Activation.antt =====
-- `activate_model`: what a successful call has checked and written.
use mathlib.Core.Path.{subst}
use tts_studio.Base.{
  All, ℕ, String, ◌≡◌, refl, ap, sym, ◌∙◌, true, false, Option, none, some, arith, List, [], ◌∷◌,
  ◌++◌, ◌⊎◌, inl, inr, Option-cases, eq_iff,
}
use tts_studio.Base.Exec.{
  Error, Result, ok, err, transaction, Result-cases, bind-eq-ok, transaction-eq-ok, ◌>>=◌,
}
use tts_studio.Base.Int.{to_nat}
use tts_studio.Base.Table.{select, update, delete}
use tts_studio.Models.Domain.{
  DownloadState, activating, DownloadJob, ModelRow, Db, download_at, download_key, repository_key,
  model_at,
}
use tts_studio.Models.Paths.{managed_relative_path}
use tts_studio.Models.Installations.{Numbers}
use tts_studio.Models.Activate.{
  remove_model, Activation, activate_row, check_job, activate_model, activated, finished,
  is_activating, null_target, without_target, null_targets_of, replace_model, required_texts,
  without_repository, breaks_keys,
}
use tts_studio.Models.Evolution.{
  Becomes, Becomes-trans, IsBoundedJob, Keeps, Later, rewritten, same,
}

-- The database after a replacement.
abbrev pub replaced_by : String → ℕ → String → Activation → Db → Db
replaced_by now size path a db = record db {
  models = delete repository_key a.repository_id db.models ++ activated now size path a ∷ [];
  downloads =
      update download_key a.download_job_id (finished now a.model_id)
        (null_targets_of (select repository_key a.repository_id db.models) db.downloads);
}

texts_unchanged : (a : Activation) (db db' : Db) → required_texts a db ≡ (ok tt, db') → db' ≡ db
unfolding required_texts
texts_unchanged a db db' h = ground arith

replaced :
    (now : String) (size : ℕ) (path : String) (a : Activation) (db db' : Db) (m : ModelRow)
    → replace_model now size path a db ≡ (ok m, db')
    → (db' ≡ replaced_by now size path a db)
      × (breaks_keys a (without_repository a.repository_id db) ≡ false)
      × (model_at a.model_id db' ≡ some m)
unfolding replace_model required_texts
replaced now size path a db db' m h = ground arith

pub activation_err :
    (now : String) (a : Activation) (db db' : Db) (x : Error)
    → activate_row now a db ≡ (err x, db')
    → db' ≡ db
unfolding activate_row transaction
activation_err now a db db' x h = ground arith

select-null_target :
    (id k : String) (t : List DownloadJob)
    → (a : DownloadJob) → select download_key k t ≡ some a
    → select download_key k (null_target id t) ≡ some (without_target id a)
unfolding select null_target
select-null_target id k [] a h = ground arith
select-null_target id k (j ∷ t) a h = ground (arith, select-null_target id k t a)

without_target-Later : (id : String) (j : DownloadJob) → Later j (without_target id j)
without_target-Later id j = ground arith

without_target-IsBounded :
    (id : String) (j : DownloadJob) → IsBoundedJob j → IsBoundedJob (without_target id j)
without_target-IsBounded id j h = ground arith

null_target-IsBounded :
    (id : String) (t : List DownloadJob) → All IsBoundedJob t → All IsBoundedJob (null_target id t)
unfolding null_target
null_target-IsBounded id [] h = tt
null_target-IsBounded id (j ∷ t) h =
    (without_target-IsBounded id j h.0, null_target-IsBounded id t h.1)

pub null_target-Becomes : (id : String) (t : List DownloadJob) → Becomes t (null_target id t)
null_target-Becomes id t = record {
  evolves = record {
    at = λ k a e. (without_target id a, select-null_target id k t a e, without_target-Later id a);
  };
  stays_bounded = null_target-IsBounded id t;
}

null_targets_of-Becomes :
    (o : Option ModelRow) (t : List DownloadJob) → Becomes t (null_targets_of o t)
null_targets_of-Becomes none t = same t t refl
null_targets_of-Becomes (some m) t = null_target-Becomes m.id t

-- A job that loses its target keeps its state.
pub null_targets_of-state :
    (o : Option ModelRow) (k : String) (t : List DownloadJob) (a : DownloadJob)
    → select download_key k t ≡ some a
    → (a' : DownloadJob) × (select download_key k (null_targets_of o t) ≡ some a')
      × (a'.state ≡ a.state)
null_targets_of-state none k t a h = (a, h, refl)
null_targets_of-state (some m) k t a h =
    (without_target m.id a, select-null_target m.id k t a h, ground arith)

-- What the job must be, and what is then written.
pub record Checked (now : String) (a : Activation) (db : Db) (m : ModelRow) (db' : Db)
    : Type 0 where
  pub size : ℕ
  pub path : String
  pub job : DownloadJob
  pub job_found : download_at a.download_job_id db ≡ some job
  pub job_activating : job.state ≡ activating
  pub job_repository : job.repository_id ≡ a.repository_id
  pub job_engine : job.engine_installation_id ≡ a.engine_installation_id
  pub written : db' ≡ replaced_by now size path a db
  pub no_clash : breaks_keys a (without_repository a.repository_id db) ≡ false
  pub model_found : model_at a.model_id db' ≡ some m

module _ (now : String) (a : Activation) (db db' : Db) (m : ModelRow) where
  activating_only : (s : DownloadState) → is_activating s ≡ true → s ≡ activating
  activating_only s h = ground arith

  job_checked :
      {db'' : Db}
      → check_job a db ≡ (ok tt, db'')
      → (db'' ≡ db)
        × (j : DownloadJob) × (download_at a.download_job_id db ≡ some j)
        × (is_activating j.state ≡ true)
        × (j.repository_id ≡ a.repository_id)
        × (j.engine_installation_id ≡ a.engine_installation_id)
  unfolding check_job
  job_checked h = elim (Option-cases (download_at a.download_job_id db)) [
    | inl e ↦ absurd (ground arith)
    | inr (j, e) ↦
        let rep = eq_iff j.repository_id a.repository_id in
        let eng = eq_iff j.engine_installation_id a.engine_installation_id in
        (ground arith, j, e, ground arith, ground arith, ground arith)
  ]

  body :
      (size : ℕ) (path : String)
      → to_nat a.byte_size ≡ some size
      → managed_relative_path a.cache_path "models" ≡ ok path
      → activate_row now a db ≡ (ok m, db')
      → ◌>>=◌ (check_job a) (λ _. replace_model now size path a) db ≡ (ok m, db')
  unfolding activate_row
  body size path e e' h =
      transaction-eq-ok (check_job a >>= λ _. replace_model now size path a) db (ground arith)

  no_size : to_nat a.byte_size ≡ none → activate_row now a db ≡ (ok m, db') → ⊥
  unfolding activate_row transaction
  no_size e h = ground arith

  no_path :
      (x : Error)
      → managed_relative_path a.cache_path "models" ≡ err x
      → activate_row now a db ≡ (ok m, db')
      → ⊥
  unfolding activate_row transaction
  no_path x e h = ground arith

  pub activate_row-Checked : activate_row now a db ≡ (ok m, db') → Checked now a db m db'
  activate_row-Checked h = elim (Option-cases (to_nat a.byte_size)) [
    | inl e ↦ absurd (no_size e h)
    | inr (size, e) ↦ elim (Result-cases (managed_relative_path a.cache_path "models")) [
      | inr (x, e') ↦ absurd (no_path x e' h)
      | inl (path, e') ↦
          let (_, d, c, w) =
            bind-eq-ok (check_job a) (λ _. replace_model now size path a) db
              (body size path e e' h) in
          let (p, j, found, act, r, g) = job_checked c in
          let (q, c', f) =
            replaced now size path a db db' m
              (subst (λ x. replace_model now size path a x ≡ (ok m, db')) p w) in
          record {
            size = size;
            path = path;
            job = j;
            job_found = found;
            job_activating = activating_only j.state act;
            job_repository = r;
            job_engine = g;
            written = q;
            no_clash = c';
            model_found = f;
          }
    ]
  ]

  finished-Later : (j : DownloadJob) → j.state ≡ activating → Later j (finished now a.model_id j)
  finished-Later j h = ground arith

  Checked-Becomes : Checked now a db m db' → Becomes db.downloads db'.downloads
  Checked-Becomes c =
      let old = select repository_key a.repository_id db.models in
      let nulled = null_targets_of old db.downloads in
      let (j, e, p) = null_targets_of-state old a.download_job_id db.downloads c.job c.job_found in
      Becomes-trans db.downloads nulled db'.downloads (null_targets_of-Becomes old db.downloads) (
        rewritten a.download_job_id (finished now a.model_id) nulled db'.downloads (λ x. refl)
          (λ x h. h) e (finished-Later j (p ∙ c.job_activating)) (ap (λ d. d.downloads) c.written))

module _ (now : String) (a : Activation) (db : Db) where
  row_result : (r : Result ModelRow × Db) → activate_row now a db ≡ r → Keeps db r
  row_result (err x, db') h =
      same db.downloads db'.downloads (ap (λ d. d.downloads) (activation_err now a db db' x h))
  row_result (ok m, db') h = Checked-Becomes now a db db' m (activate_row-Checked now a db db' m h)

  row-Keeps : Keeps db (activate_row now a db)
  row-Keeps = row_result (activate_row now a db) refl

  -- Decoding the row of the new model writes nothing.
  activate_model-row :
      (numbers : Numbers) → (activate_model numbers now a db).1 ≡ (activate_row now a db).1
  unfolding activate_model
  activate_model-row numbers = ground arith

  pub activate_model-Keeps : (numbers : Numbers) → Keeps db (activate_model numbers now a db)
  activate_model-Keeps numbers =
      subst (λ d. Becomes db.downloads d.downloads) (sym (activate_model-row numbers)) row-Keeps

module _ (k : String) (db : Db) where
  removed :
      ((remove_model k db).1.downloads ≡ db.downloads)
      ⊎ ((remove_model k db).1.downloads ≡ null_target k db.downloads)
  unfolding remove_model transaction
  removed = ground arith

  pub remove_model-Keeps : Keeps db (remove_model k db)
  remove_model-Keeps = elim removed [
    | inl p ↦ same db.downloads _ p
    | inr p ↦ subst (λ x. Becomes db.downloads x) (sym p) (null_target-Becomes k db.downloads)
  ]
