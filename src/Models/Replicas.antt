-- ===== src/Models/Replicas.antt =====
-- The number of replicas that a model asks for: `set_desired_replicas` and `get_model`.
use tts_studio.Base.{String, ◌≡◌}
use tts_studio.Base.Exec.{ok}
use tts_studio.Base.Int.{ℤ}
use tts_studio.Base.Json.{Json, int, Fields}
use tts_studio.Models.Domain.{ModelRow, Db}
use tts_studio.Models.Installations.{Numbers, ModelInstallation, put, set_desired_replicas}

module _ (numbers : Numbers) (now k : String) (n : ℤ) (db db' : Db) (i : ModelInstallation)
    (h : set_desired_replicas numbers now k n db ≡ (ok i, db')) where
  abbrev summary : ModelRow → Fields
  summary m = put "desired_replicas" (int n) m.replica_summary
