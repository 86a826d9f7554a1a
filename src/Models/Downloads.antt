-- ===== src/Models/Downloads.antt =====
-- src/tts_studio/models/registry.py: the methods of `ModelRegistry` on Download Jobs.
use tts_studio.Base.{
  ℕ, String, Bool, true, false, not, ◌&&◌, ◌||◌, Option, none, some, List, [], ◌∷◌, ◌++◌, ltb,
  is_some, is_blank, value_or, if◌then◌else◌,
}
use tts_studio.Base.Exec.{
  Result, ok, err, Exec, pure, lift, gets, required, raise_if, modify, transaction, read, ◌>>=◌,
  ◌>>◌, record_not_found, runtime_error, invalid_registry_data, invalid_download_transition,
  integrity_error,
}
use tts_studio.Base.Int.{ℤ, to_nat}
use tts_studio.Base.Json.{Fields, finite_fields}
use tts_studio.Base.Table.{select, update}
use tts_studio.Registry.Jobs.{or_fresh}
use tts_studio.Models.Domain.{
  DownloadState, queued, cancelled, failed, DownloadJob, Db, download_at, download_key, engine_key,
  is_active, is_terminal, order,
}
use tts_studio.Models.Paths.{managed_relative_path}

-- `row is None` raises.
abbrev pub find_download : String → Exec Db DownloadJob
find_download k db = required record_not_found (download_at k db) db

-- `_required_row`.
abbrev pub read_back : String → Exec Db DownloadJob
read_back k db = required runtime_error (download_at k db) db

abbrev pub set_downloads : (List DownloadJob → List DownloadJob) → Exec Db Unit
set_downloads f = modify λ db. record db { downloads = f db.downloads }

-- `_required_text` of this file lets a NUL through.
abbrev pub required_text : String → Exec Db Unit
required_text s = raise_if (is_blank s) invalid_registry_data

pub record NewDownload : Type 0 where
  pub repository_id : String
  pub engine_installation_id : String
  pub staging_path : String
  pub correlation_id : String
  pub requested_revision : Option String
  pub job_id : Option String

abbrev pub new_download : String → String → String → NewDownload → DownloadJob
new_download now id path a = record {
  id = id;
  repository_id = a.repository_id;
  requested_revision = a.requested_revision;
  engine_installation_id = a.engine_installation_id;
  state = queued;
  bytes_downloaded = 0;
  total_bytes = none;
  phase = "queued";
  staging_path = path;
  target_model_id = none;
  cancellation_requested = false;
  correlation_id = a.correlation_id;
  error = none;
  created_at = now;
  updated_at = now;
}

-- The primary key, and the foreign key to the engine.
abbrev pub breaks_keys : String → String → Db → Bool
breaks_keys id engine db =
    is_some (download_at id db) || not (is_some (select engine_key engine db.engines))

unfoldable pub create_download_job : String → String → NewDownload → Exec Db DownloadJob
create_download_job now fresh a = do
  path ← lift (managed_relative_path a.staging_path "staging")
  let id = or_fresh fresh a.job_id
  transaction do
    required_text id
    required_text a.repository_id
    required_text a.engine_installation_id
    required_text a.correlation_id
    broken ← gets (breaks_keys id a.engine_installation_id)
    raise_if broken integrity_error
    set_downloads (λ t. t ++ new_download now id path a ∷ [])
    read_back id

unfoldable pub get_download_job : String → Exec Db DownloadJob
get_download_job k = read (find_download k)

abbrev pub flagged : String → DownloadJob → DownloadJob
flagged now j = record j { cancellation_requested = true; updated_at = now }

unfoldable pub request_download_cancellation : String → String → Exec Db DownloadJob
request_download_cancellation now k = transaction do
  current ← find_download k
  if is_terminal current.state then pure tt else set_downloads (update download_key k (flagged now))
  read_back k

abbrev pub is_early_end : DownloadState → Bool
is_early_end cancelled = true
is_early_end failed = true
is_early_end _ = false

abbrev pub is_before : Option ℕ → Option ℕ → Bool
is_before (some m) (some n) = ltb m n
is_before _ _ = false

-- `_validate_transition`: a terminal state stays; else an early end, or no step back.
unfoldable pub may_move : DownloadState → DownloadState → Bool
may_move current target =
    not (is_terminal current)
    && (is_early_end target
        || (is_some (order target) && not (is_before (order target) (order current))))

-- The arguments of `transition_download_job`; a total that is not supplied is `none`.
pub record Progress : Type 0 where
  pub phase : Option String
  pub bytes_downloaded : Option ℤ
  pub total_bytes : Option (Option ℤ)
  pub error : Option Fields

abbrev pub no_progress : Progress
no_progress = record { phase = none; bytes_downloaded = none; total_bytes = none; error = none }

-- `_encode_optional_object`.
abbrev pub is_encodable : Option Fields → Bool
is_encodable none = true
is_encodable (some e) = finite_fields e

-- The number of bytes, which is refused if it is negative.
unfoldable pub next_bytes : ℕ → Option ℤ → Result ℕ
next_bytes n none = ok n
next_bytes n (some z) = elim (to_nat z) [ none ↦ err invalid_registry_data | some m ↦ ok m ]

-- A total must not be below the bytes; the current one is kept where none is supplied.
unfoldable pub checked_total : ℕ → Option ℕ → Result (Option ℕ)
checked_total bytes none = ok none
checked_total bytes (some t) = if ltb t bytes then err invalid_registry_data else ok (some t)

unfoldable pub supplied_total : ℕ → Option ℤ → Result (Option ℕ)
unfolding checked_total
supplied_total bytes none = ok none
supplied_total bytes (some z) = elim (to_nat z) [
  | none ↦ err invalid_registry_data
  | some t ↦ checked_total bytes (some t)
]

unfoldable pub next_total : ℕ → Option ℕ → Option (Option ℤ) → Result (Option ℕ)
unfolding checked_total supplied_total
next_total bytes current none = checked_total bytes current
next_total bytes current (some total) = supplied_total bytes total

abbrev pub moved : String → DownloadState → ℕ → Option ℕ → Progress → DownloadJob → DownloadJob
moved now state bytes total p j = record j {
  state = state;
  phase = value_or j.phase p.phase;
  bytes_downloaded = bytes;
  total_bytes = total;
  error = p.error;
  updated_at = now;
}

unfoldable pub transition_download_job :
    String → String → DownloadState → Progress → Exec Db DownloadJob
unfolding may_move next_bytes next_total
transition_download_job now k state p = do
  raise_if (not (is_encodable p.error)) invalid_registry_data
  transaction do
    current ← find_download k
    raise_if (not (may_move current.state state)) invalid_download_transition
    bytes ← lift (next_bytes current.bytes_downloaded p.bytes_downloaded)
    raise_if (ltb bytes current.bytes_downloaded) invalid_registry_data
    total ← lift (next_total bytes current.total_bytes p.total_bytes)
    set_downloads (update download_key k (moved now state bytes total p))
    read_back k

unfoldable pub mark_recovery_failure : String → String → Fields → Exec Db DownloadJob
mark_recovery_failure now k e = do
  current ← get_download_job k
  raise_if (not (is_active current.state)) invalid_download_transition
  transition_download_job now k failed (record no_progress { error = some e })
