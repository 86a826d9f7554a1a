-- ===== src/Registry/Alignments.antt =====
-- src/tts_studio/generation/registry.py: the methods of `GenerationRegistry` on alignments. The
-- size of an encoded value in bytes is a parameter, since `json.dumps` is not code of the repository.
pub mod Runs
mod Tests
pub mod Completed
use tts_studio.Base.{
  ℕ, String, Bool, true, false, not, ◌&&◌, ◌||◌, Option, none, some, List, [], ◌∷◌, ◌++◌, leb,
  is_some, is_safe_text, str_eq, opt_eq, if◌then◌else◌,
}
use tts_studio.Base.Exec.{
  Result, ok, err, Exec, pure, raise, lift, gets, raise_if, modify, transaction, required, ◌>>=◌,
  ◌>>◌, invalid_registry_data, record_not_found,
}
use tts_studio.Base.Json.{Fields, end, field, string, bool, Json, get, finite_fields}
use tts_studio.Base.Table.{select, update, delete}
use tts_studio.Registry.Domain.{
  GenerationJob, GenerationState, AlignmentState, AudioArtifact, AlignmentResult, AlignmentRow,
  AlignmentJob, Stored, decoded, malformed, Db, job_key, artifact_key, artifact_owner,
  alignment_key, is_true,
}
use tts_studio.Registry.Jobs.{find_job}
use tts_studio.Registry.Shape.{is_shape_valid, validate_alignment_shape, validate_alignment_result}

abbrev pub set_alignments : (List AlignmentRow → List AlignmentRow) → Exec Db Unit
set_alignments f = modify λ db. record db { alignments = f db.alignments }

abbrev pub row_at : String → Db → Option AlignmentRow
row_at k db = select alignment_key k db.alignments

-- `SELECT … FROM audio_artifacts WHERE id = ? AND job_id = ?`.
abbrev owned_by : String → Option AudioArtifact → Option AudioArtifact
owned_by k none = none
owned_by k (some a) = if str_eq a.job_id k then some a else none

abbrev pub artifact_of : String → Option String → Db → Option AudioArtifact
artifact_of k none db = none
artifact_of k (some id) db = owned_by k (select artifact_key id db.artifacts)

-- `_alignment_matches_current_artifact`.
pub is_current : GenerationJob → AlignmentRow → Db → Bool
is_current j r db =
    j.retain_artifact
    && opt_eq (some r.artifact_id) j.artifact_id
    && is_some (artifact_of j.id j.artifact_id db)

abbrev decode_error : Option (Stored Fields) → Result (Option Fields)
decode_error none = ok none
decode_error (some (decoded e)) = ok (some e)
decode_error (some malformed) = err invalid_registry_data

abbrev checked : Bool → AlignmentResult → Result (Option AlignmentResult)
checked true r = ok (some r)
checked false r = err invalid_registry_data

abbrev decode_result : Option (Stored AlignmentResult) → Result (Option AlignmentResult)
decode_result none = ok none
decode_result (some (decoded r)) = checked (is_shape_valid r) r
decode_result (some malformed) = err invalid_registry_data

abbrev timestamps_safe : AlignmentRow → Bool
timestamps_safe r = is_safe_text r.created_at && is_safe_text r.updated_at

-- `_alignment`: the value of a row, if its columns decode.
pub read_alignment : AlignmentRow → Exec Db AlignmentJob
read_alignment r = do
  result ← lift (decode_result r.result_json)
  error ← lift (decode_error r.error_json)
  raise_if (not (timestamps_safe r)) invalid_registry_data
  pure (record {
    job_id = r.job_id;
    artifact_id = r.artifact_id;
    state = r.state;
    result = result;
    error = error;
    created_at = r.created_at;
    updated_at = r.updated_at;
  })

pub find_alignment : String → Exec Db AlignmentRow
find_alignment k db = required record_not_found (row_at k db) db

-- The row is read back and decoded.
pub read_back : String → Exec Db AlignmentJob
read_back k = do r ← find_alignment k; read_alignment r

-- A stale row is deleted, and then the call raises inside its transaction.
drop_stale : String → Exec Db Unit
drop_stale k = do set_alignments (delete alignment_key k); raise record_not_found

-- The row of a job's alignment, which must be there and name the job's current artifact.
pub current_row : String → Exec Db AlignmentRow
unfolding drop_stale
current_row k = do
  job ← find_job k
  row ← find_alignment k
  current ← gets (is_current job row)
  if current then pure tt else drop_stale k
  pure row

unfoldable pub get_alignment : String → Exec Db AlignmentJob
unfolding current_row find_alignment read_alignment is_current
get_alignment k = transaction do row ← current_row k; read_alignment row

abbrev is_completed_job : GenerationJob → Bool
is_completed_job j = elim j.state [ GenerationState.completed ↦ true | _ ↦ false ]

abbrev id_or_empty : Option String → String
id_or_empty none = ""
id_or_empty (some s) = s

pub queued_row : String → String → GenerationJob → AlignmentRow
queued_row now k j = record {
  job_id = k;
  artifact_id = id_or_empty j.artifact_id;
  state = AlignmentState.queued;
  result_json = none;
  error_json = none;
  created_at = now;
  updated_at = now;
}

insert_alignment : String → String → GenerationJob → Exec Db AlignmentJob
insert_alignment now k j = do set_alignments (λ t. t ++ queued_row now k j ∷ []); read_back k

-- An alignment of the current artifact is returned as it is; a stale one is replaced.
insert_or_reuse : String → String → GenerationJob → Option AlignmentRow → Exec Db AlignmentJob
insert_or_reuse now k j none = insert_alignment now k j
insert_or_reuse now k j (some r) = do
  current ← gets (is_current j r)
  if current
      then read_alignment r
      else (do set_alignments (delete alignment_key k); insert_alignment now k j)

unfoldable pub create_alignment : String → String → Exec Db AlignmentJob
unfolding insert_or_reuse insert_alignment queued_row read_back find_alignment read_alignment
    is_current
create_alignment now k = transaction do
  job ← find_job k
  raise_if (not (is_completed_job job)) invalid_registry_data
  raise_if (not job.retain_artifact || not (is_some job.artifact_id)) invalid_registry_data
  artifact ← gets (artifact_of k job.artifact_id)
  raise_if (not (is_some artifact)) invalid_registry_data
  existing ← gets (row_at k)
  insert_or_reuse now k job existing

abbrev queued_again : String → AlignmentRow → AlignmentRow
queued_again now r = record r {
  state = AlignmentState.queued;
  result_json = none;
  error_json = none;
  updated_at = now;
}

abbrev is_retryable_failure : AlignmentJob → Bool
is_retryable_failure a = elim a.state [
  | AlignmentState.failed ↦ elim a.error [ none ↦ false | some e ↦ is_true (get "retryable" e) ]
  | _ ↦ false
]

unfoldable pub retry_alignment : String → String → Exec Db AlignmentJob
unfolding read_back find_alignment read_alignment
retry_alignment now k = transaction do
  current ← read_back k
  raise_if (not (is_retryable_failure current)) invalid_registry_data
  job ← find_job k
  raise_if
      (not (is_completed_job job)
        || not job.retain_artifact
        || not (opt_eq job.artifact_id (some current.artifact_id)))
      invalid_registry_data
  artifact ← gets (artifact_of k (some current.artifact_id))
  raise_if (not (is_some artifact)) invalid_registry_data
  set_alignments (update alignment_key k (queued_again now))
  read_back k
