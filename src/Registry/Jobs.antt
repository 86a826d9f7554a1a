-- ===== src/Registry/Jobs.antt =====
-- src/tts_studio/generation/registry.py: the methods of `GenerationRegistry` on Generation Jobs.
-- `now` is the value of `_utc_now()`, `fresh` that of `str(uuid4())`.
pub mod Transition
pub mod Steps
pub mod Retries
use tts_studio.Base.{
  ℕ, String, Bool, true, false, not, ◌&&◌, ◌||◌, Option, none, some, List, [], ◌∷◌, ◌++◌, ltb,
  str_eq, is_some, value_or, has_nul, is_safe_text, opt_eq, if◌then◌else◌, ◌==◌, ◌+◌,
}
use tts_studio.Base.Exec.{
  Result, ok, err, Exec, pure, lift, gets, required, raise_if, modify, transaction, read, ◌>>=◌,
  ◌>>◌, record_not_found, invalid_registry_data, invalid_generation_transition, integrity_error,
}
use tts_studio.Base.Int.{ℤ, to_nat, is_positive}
use tts_studio.Base.Json.{Fields, finite_fields}
use tts_studio.Base.Table.{select, update}
use tts_studio.Registry.Domain.{
  GenerationJob, GenerationState, queued, failed, cancelled, SynthesisOptions, Db, job_at, job_key,
  artifact_owner, can_retry, may_move, is_active, is_cancellable, is_terminal,
}

-- `_job_or_missing` of the query by id.
abbrev pub find_job : String → Exec Db GenerationJob
find_job k db = required record_not_found (job_at k db) db

abbrev pub set_jobs : (List GenerationJob → List GenerationJob) → Exec Db Unit
set_jobs f = modify λ db. record db { jobs = f db.jobs }

-- `SELECT * FROM generation_jobs WHERE retry_of = ?`.
unfoldable pub retry_for : String → List GenerationJob → Option GenerationJob
retry_for k [] = none
retry_for k (j ∷ t) = if opt_eq j.retry_of (some k) then some j else retry_for k t

-- The arguments of `create_job`.
pub record NewJob : Type 0 where
  pub model_id : String
  pub engine_id : String
  pub voice_id : Option String
  pub reference_id : Option String
  pub saved_voice_id : Option String
  pub provider_id : Option String
  pub text : String
  pub retain_artifact : Bool
  pub options : Option SynthesisOptions
  pub correlation_id : String
  pub job_id : Option String
  pub retry_of : Option String

-- `job_id or str(uuid4())`.
abbrev pub or_fresh : String → Option String → String
or_fresh fresh none = fresh
or_fresh fresh (some s) = if str_eq s "" then fresh else s

-- `_required_text`.
abbrev pub required_text : String → Result String
required_text s = if is_safe_text s then ok s else err invalid_registry_data

abbrev pub count_some : Option String → ℕ
count_some o = if is_some o then 1 else 0

-- `_validate_source`: exactly one voice source.
abbrev pub has_one_source : Option String → Option String → Option String → Bool
has_one_source v r s = count_some v + count_some r + count_some s == 1

-- The texts that the INSERT statement checks while it binds its parameters.
pub are_bindable : NewJob → Bool
are_bindable a =
    is_safe_text a.model_id
    && is_safe_text a.engine_id
    && is_safe_text (value_or "-" a.voice_id)
    && is_safe_text (value_or "-" a.reference_id)
    && is_safe_text (value_or "-" a.saved_voice_id)
    && is_safe_text (value_or "-" a.provider_id)
    && is_safe_text a.correlation_id

-- The row that the INSERT statement writes.
unfoldable pub new_row : String → String → NewJob → GenerationJob
new_row now id a = record {
  id = id;
  model_id = a.model_id;
  engine_id = a.engine_id;
  voice_id = a.voice_id;
  reference_id = a.reference_id;
  saved_voice_id = a.saved_voice_id;
  provider_id = a.provider_id;
  text = a.text;
  retain_artifact = a.retain_artifact;
  options = a.options;
  state = queued;
  bytes_written = 0;
  frame_count = 0;
  sample_rate = none;
  channel_count = none;
  artifact_id = none;
  correlation_id = a.correlation_id;
  cancellation_requested = false;
  error = none;
  created_at = now;
  updated_at = now;
  retry_of = a.retry_of;
}

-- The INSERT statement and the row read back: a duplicate id violates the primary key.
pub insert_job : String → String → NewJob → Exec Db GenerationJob
insert_job now id a = do
  raise_if (not (are_bindable a)) invalid_registry_data
  taken ← gets (job_at id)
  raise_if (is_some taken) integrity_error
  set_jobs (λ t. t ++ new_row now id a ∷ [])
  find_job id

-- The guards of a retry: the original exists, can be retried and has no artifact.
pub check_retry : String → Exec Db Unit
check_retry k = do
  original ← find_job k
  artifact ← gets (λ db. select artifact_owner k db.artifacts)
  raise_if (not (can_retry original) || is_some artifact) invalid_generation_transition

-- The body of the transaction: the retry that exists already is returned unchanged.
pub retry_or_insert :
    String → String → NewJob → Option GenerationJob → Option String → Exec Db GenerationJob
retry_or_insert now id a existing none = insert_job now id a
retry_or_insert now id a (some j) (some k) = pure j
retry_or_insert now id a none (some k) = do check_retry k; insert_job now id a

abbrev existing_retry : Option String → Db → Option GenerationJob
existing_retry none db = none
existing_retry (some k) db = retry_for k db.jobs

unfoldable pub create_job : String → String → NewJob → Exec Db GenerationJob
unfolding retry_or_insert insert_job check_retry new_row are_bindable
create_job now fresh a = do
  id ← lift (required_text (or_fresh fresh a.job_id))
  raise_if (not (has_one_source a.voice_id a.reference_id a.saved_voice_id)) invalid_registry_data
  raise_if (has_nul a.text) invalid_registry_data
  transaction
      do existing ← gets (existing_retry a.retry_of); retry_or_insert now id a existing a.retry_of

unfoldable pub get_retry : String → Exec Db (Option GenerationJob)
get_retry k = read (gets λ db. retry_for k db.jobs)

unfoldable pub get_job : String → Exec Db GenerationJob
get_job k = read (find_job k)

abbrev pub cleared_reference : String → GenerationJob → GenerationJob
cleared_reference now j = record j { reference_id = none; updated_at = now }

unfoldable pub clear_reference_id : String → String → Exec Db GenerationJob
clear_reference_id now k =
    transaction do find_job k; set_jobs (update job_key k (cleared_reference now)); find_job k

abbrev pub flagged : String → GenerationJob → GenerationJob
flagged now j = record j { cancellation_requested = true; updated_at = now }

unfoldable pub request_cancellation : String → String → Exec Db GenerationJob
request_cancellation now k = transaction do
  current ← find_job k
  if is_cancellable current.state then set_jobs (update job_key k (flagged now)) else pure tt
  find_job k

-- The optional arguments of `transition_job`.
pub record Progress : Type 0 where
  pub bytes_written : Option ℤ
  pub frame_count : Option ℤ
  pub sample_rate : Option ℤ
  pub channel_count : Option ℤ
  pub error : Option Fields

abbrev pub no_progress : Progress
no_progress = record {
  bytes_written = none;
  frame_count = none;
  sample_rate = none;
  channel_count = none;
  error = none;
}

-- `_encode_optional_object`.
abbrev pub is_encodable : Option Fields → Bool
is_encodable none = true
is_encodable (some e) = finite_fields e

-- `current if argument is None else argument`, refused if it is negative.
abbrev pub next_count : ℕ → Option ℤ → Result ℕ
next_count n none = ok n
next_count n (some z) = elim (to_nat z) [ none ↦ err invalid_registry_data | some m ↦ ok m ]

-- `COALESCE(?, column)`, under the column's check that it is positive.
abbrev pub coalesce : Option ℤ → Option ℕ → Option ℕ
coalesce none old = old
coalesce (some z) old = to_nat z

abbrev pub fits_check : Option ℤ → Bool
fits_check none = true
fits_check (some z) = is_positive z

abbrev pub is_resolution : GenerationState → Bool
is_resolution cancelled = true
is_resolution failed = true
is_resolution _ = false

-- The row that the UPDATE statement of `transition_job` leaves.
unfoldable pub advanced :
    String → GenerationState → ℕ → ℕ → Progress → GenerationJob → GenerationJob
advanced now state bytes frames p j = record j {
  state = state;
  bytes_written = bytes;
  frame_count = frames;
  sample_rate = coalesce p.sample_rate j.sample_rate;
  channel_count = coalesce p.channel_count j.channel_count;
  error = p.error;
  updated_at = now;
  text = if not j.retain_artifact && is_terminal state then "" else j.text;
}

unfoldable pub transition_job : String → String → GenerationState → Progress → Exec Db GenerationJob
transition_job now k state p = do
  raise_if (not (is_encodable p.error)) invalid_registry_data
  transaction do
    current ← find_job k
    raise_if (not (may_move current.state state)) invalid_generation_transition
    raise_if (current.cancellation_requested && not (is_resolution state))
        invalid_generation_transition
    bytes ← lift (next_count current.bytes_written p.bytes_written)
    frames ← lift (next_count current.frame_count p.frame_count)
    raise_if (ltb bytes current.bytes_written || ltb frames current.frame_count)
        invalid_registry_data
    raise_if (not (fits_check p.sample_rate && fits_check p.channel_count)) integrity_error
    set_jobs (update job_key k (advanced now state bytes frames p))
    find_job k

abbrev is_recoverable : GenerationState → Bool
is_recoverable queued = true
is_recoverable s = is_active s

unfoldable pub mark_recovery_failure : String → String → Fields → Exec Db GenerationJob
mark_recovery_failure now k e = do
  current ← get_job k
  raise_if (not (is_recoverable current.state)) invalid_generation_transition
  transition_job now k failed (record no_progress { error = some e })
