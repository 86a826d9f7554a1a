-- ===== src/Models/Replaced.antt =====
-- `activate_model` replaces the model of a repository and completes the Download Job.
use mathlib.Core.Option.{some-injective}
use tts_studio.Base.{
  String, ◌≡◌, ◌≢◌, refl, ap, sym, ◌∙◌, none, some, arith, [], ◌∷◌, ◌++◌, eq_iff, if◌then◌else◌,
  str_eq,
}
use text.Mathlib.TextPositions.{eq_refl}
use tts_studio.Base.Exec.{ok}
use tts_studio.Base.Table.{select, delete, select-update, select-append, select-delete}
use tts_studio.Models.Domain.{
  activating, completed, DownloadJob, ModelRow, Db, download_at, download_key, repository_key,
  model_key, model_at,
}
use tts_studio.Models.Installations.{Numbers, ModelInstallation}
use tts_studio.Models.Activate.{
  Activation, activate_row, activate_model, activated, finished, null_targets_of,
}
use tts_studio.Models.Activation.{Checked, activate_row-Checked, null_targets_of-state}

module _ (now : String) (a : Activation) (db db' : Db) (m : ModelRow)
    (c : Checked now a db m db') where
  abbrev row : ModelRow
  row = activated now c.size c.path a

  models_after : db'.models ≡ delete repository_key a.repository_id db.models ++ row ∷ []
  models_after = ap (λ d. d.models) c.written

  last_row :
      (r : String)
      → elim (select repository_key r (delete repository_key a.repository_id db.models)) [
        | none ↦ select repository_key r (row ∷ [])
        | some x ↦ some x
      ]
        ≡ (if str_eq a.repository_id r then some row else select repository_key r db.models)
  unfolding select
  last_row r = ground (arith, select-delete repository_key r a.repository_id db.models)

  at_repository :
      (r : String)
      → select repository_key r db'.models
        ≡ (if str_eq a.repository_id r then some row else select repository_key r db.models)
  at_repository r =
      ap (select repository_key r) models_after
      ∙ select-append repository_key r (delete repository_key a.repository_id db.models) (row ∷ [])
      ∙ last_row r

  first_row :
      elim (select model_key a.model_id (delete repository_key a.repository_id db.models)) [
        | none ↦ select model_key a.model_id (row ∷ [])
        | some x ↦ some x
      ]
      ≡ some row
  unfolding select
  first_row = let fresh = c.no_clash in ground (arith, eq_refl a.model_id)

  new_model : m ≡ row
  new_model = some-injective m row (
      sym c.model_found
      ∙ ap (select model_key a.model_id) models_after
      ∙ select-append model_key a.model_id (delete repository_key a.repository_id db.models)
          (row ∷ [])
      ∙ first_row)

  job_after :
      (j : DownloadJob) × (download_at a.download_job_id db' ≡ some j)
      × (j.state ≡ completed)
      × (j.target_model_id ≡ some a.model_id)
  job_after =
      let old = select repository_key a.repository_id db.models in
      let (j, e, _) = null_targets_of-state old a.download_job_id db.downloads c.job c.job_found in
      (
        finished now a.model_id j,
        ap (download_at a.download_job_id) c.written
            ∙ select-update download_key a.download_job_id a.download_job_id
                (finished now a.model_id) (null_targets_of old db.downloads) (λ x. refl)
            ∙ ground (arith, eq_refl a.download_job_id),
        refl,
        refl,
      )

activate_model-row_ok :
    (numbers : Numbers) (now : String) (a : Activation) (db db' : Db) (i : ModelInstallation)
    → activate_model numbers now a db ≡ (ok i, db')
    → activate_row now a db ≡ (ok i.row, db')
unfolding activate_model
activate_model-row_ok numbers now a db db' i h = ground arith

-- A call of `activate_model` that returns found the job in the state activating, with the repository
-- and the engine that it was given. It has replaced the model of that repository by the one that it
-- returns, under the given id and commit, left the models of all other repositories as they were, and
-- completed the job with the new model as its target.
pub activate_model-replaces :
    (numbers : Numbers) (now : String) (a : Activation) (db db' : Db) (i : ModelInstallation)
    → activate_model numbers now a db ≡ (ok i, db')
    → ((j : DownloadJob) × (download_at a.download_job_id db ≡ some j)
        × (j.state ≡ activating)
        × (j.repository_id ≡ a.repository_id)
        × (j.engine_installation_id ≡ a.engine_installation_id))
      × (select repository_key a.repository_id db'.models ≡ some i.row)
      × (model_at a.model_id db' ≡ some i.row)
      × (i.row.resolved_commit ≡ a.resolved_commit)
      × ((r : String)
          → r ≢ a.repository_id
          → select repository_key r db'.models ≡ select repository_key r db.models)
      × ((j : DownloadJob) × (download_at a.download_job_id db' ≡ some j)
          × (j.state ≡ completed)
          × (j.target_model_id ≡ some a.model_id))
activate_model-replaces numbers now a db db' i h =
    let c =
      activate_row-Checked now a db db' i.row (activate_model-row_ok numbers now a db db' i h) in
    let e = new_model now a db db' i.row c in
    (
      (c.job, c.job_found, c.job_activating, c.job_repository, c.job_engine),
      at_repository now a db db' i.row c a.repository_id ∙ ground (arith, eq_refl a.repository_id),
      c.model_found,
      ap (λ m. m.resolved_commit) e,
      λ r d. at_repository now a db db' i.row c r ∙ ground (arith, eq_iff a.repository_id r),
      job_after now a db db' i.row c,
    )
