-- ===== src/Models/Tests.antt =====
-- The results on the model registry, applied to a concrete job and history.
use tts_studio.Base.{
  String, ◌≡◌, ◌≢◌, ◌≤◌, refl, true, false, none, some, List, [], ◌∷◌, All, arith,
}
use tts_studio.Base.Int.{pos}
use tts_studio.Base.Tests.{is_blank}
use tts_studio.Base.Exec.{transaction}
use tts_studio.Base.Json.{field, end, int, get, finite_fields}
use tts_studio.Base.Table.{select, update, delete}
use tts_studio.Models.Domain.{
  activating, completed, downloading, failed, DownloadJob, ModelRow, EngineRow, Db, download_at,
  repository_key,
}
use tts_studio.Registry.Paths.{lacks, starts_with_slash, parts, has_dot_part, join}
use tts_studio.Models.Paths.{managed_relative_path}
use tts_studio.Models.Downloads.{no_progress}
use tts_studio.Models.Installations.{Numbers, ModelInstallation}
use tts_studio.Models.Activate.{Activation, activate_model, activated}
use tts_studio.Models.Calls.{Call, run, moves, activates}
use tts_studio.Models.Evolution.{IsBoundedJob, rank}
use tts_studio.Models.Life.{run-download, run-IsBounded}
use tts_studio.Models.Replaced.{activate_model-replaces}

abbrev numbers : Numbers
numbers = record { of_float = λ x. pos 0; of_text = λ s. none }

abbrev engine : EngineRow
engine = record {
  id = "engine@1";
  engine_id = "engine";
  version = "1";
  command = [];
  working_directory = "/w";
  environment = end;
  capabilities = end;
  lifecycle_state = "ready";
  last_error = none;
  created_at = "t0";
  updated_at = "t0";
}

abbrev loading : DownloadJob
loading = record {
  id = "d";
  repository_id = "org/model";
  requested_revision = none;
  engine_installation_id = "engine@1";
  state = downloading;
  bytes_downloaded = 10;
  total_bytes = some 50;
  phase = "downloading";
  staging_path = "staging/d";
  target_model_id = none;
  cancellation_requested = false;
  correlation_id = "c";
  error = none;
  created_at = "t0";
  updated_at = "t0";
}

abbrev ready : DownloadJob
ready = record loading { state = activating; bytes_downloaded = 50 }

abbrev new_model : Activation
new_model = record {
  download_job_id = "d";
  model_id = "new";
  repository_id = "org/model";
  requested_revision = none;
  resolved_commit = "abc";
  engine_installation_id = "engine@1";
  compatibility_evidence = end;
  runtime_variant = "cpu";
  manifest = end;
  checksum_summary = end;
  byte_size = pos 50;
  cache_path = "models/new";
  desired_load_state = "unloaded";
  observed_load_state = "unloaded";
  replica_summary = end;
  last_error = none;
}

abbrev old_model : ModelRow
old_model = record (activated "t0" 40 "models/old" new_model) {
  id = "old";
  replica_summary = field "running" (int (pos 2)) end;
}

abbrev holding : DownloadJob → Db
holding j = record { engines = engine ∷ []; models = old_model ∷ []; downloads = j ∷ [] }

-- Progress, a step back that is refused, the activation, and a failure that comes too late.
abbrev history : List (String × Call)
history =
    ("t1", moves "d" activating (record no_progress { bytes_downloaded = some (pos 50) }))
    ∷ ("t2", moves "d" downloading no_progress)
    ∷ ("t3", activates new_model)
    ∷ ("t4", moves "d" failed no_progress)
    ∷ []

run-download_example :
    (j' : DownloadJob) × (download_at "d" (run numbers (holding loading) history) ≡ some j')
    × (j'.repository_id ≡ "org/model")
    × (j'.engine_installation_id ≡ "engine@1")
    × (j'.staging_path ≡ "staging/d")
    × (10 ≤ j'.bytes_downloaded)
    × (2 ≤ rank j'.state)
    × (false ≡ true → j'.cancellation_requested ≡ true)
    × (false ≡ true → j'.state ≡ downloading)
unfolding select
run-download_example = run-download numbers (holding loading) history "d" loading refl

run-IsBounded_example : All IsBoundedJob (run numbers (holding loading) history).downloads
run-IsBounded_example = run-IsBounded numbers (holding loading) history ((omega arith), tt)

abbrev scaled : ModelInstallation
scaled = record {
  row = record old_model {
    replica_summary = field "running" (int (pos 2)) (field "desired_replicas" (int (pos 3)) end);
    updated_at = "t1";
  };
  desired_replicas = pos 3;
}

abbrev with_model : ModelRow → Db
with_model m = record (holding ready) { models = m ∷ [] }

abbrev active : ModelInstallation
active = record { row = activated "t1" 50 "models/new" new_model; desired_replicas = pos 1 }

abbrev after : Db
after = record (with_model active.row) {
  downloads =
      record ready {
        state = completed;
        phase = "completed";
        target_model_id = some "new";
        updated_at = "t1";
      }
      ∷ [];
}

activate_model-replaces_example :
    ((j : DownloadJob) × (some ready ≡ some j)
      × (j.state ≡ activating)
      × (j.repository_id ≡ "org/model")
      × (j.engine_installation_id ≡ "engine@1"))
    × (some active.row ≡ some active.row)
    × (some active.row ≡ some active.row)
    × (active.row.resolved_commit ≡ "abc")
    × ((r : String)
        → r ≢ "org/model"
        → select repository_key r after.models ≡ select repository_key r (holding ready).models)
    × ((j : DownloadJob) × (download_at "d" after ≡ some j)
        × (j.state ≡ completed)
        × (j.target_model_id ≡ some "new"))
unfolding select update delete activate_model transaction managed_relative_path lacks
    starts_with_slash parts has_dot_part join finite_fields is_blank get
activate_model-replaces_example =
    activate_model-replaces numbers "t1" new_model (holding ready) after active refl
