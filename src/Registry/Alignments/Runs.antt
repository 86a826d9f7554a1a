-- ===== src/Registry/Alignments/Runs.antt =====
-- src/tts_studio/generation/registry.py: the methods that run an alignment to its end, and the one
-- that repairs a malformed row. The sizes of encoded values are parameters.
use tts_studio.Base.{
  ℕ, ◌*◌, String, Bool, true, false, not, ◌||◌, Option, none, some, ltb, str_eq, if◌then◌else◌,
}
use tts_studio.Base.Exec.{
  Result, ok, err, Exec, pure, lift, gets, raise_if, transaction, ◌>>=◌, ◌>>◌,
  invalid_registry_data,
}
use tts_studio.Base.Json.{Fields, end, field, string, bool, finite_fields}
use tts_studio.Base.Table.{update}
use tts_studio.Registry.Domain.{
  AlignmentState, AlignmentResult, AlignmentRow, AlignmentJob, AudioArtifact, GenerationJob,
  decoded, Db, alignment_key,
}
use tts_studio.Registry.Jobs.{find_job}
use tts_studio.Registry.Shape.{validate_alignment_shape, validate_alignment_result}
use tts_studio.Registry.Alignments.{
  set_alignments, find_alignment, read_alignment, read_back, current_row, artifact_of,
}

abbrev pub max_result_bytes : ℕ
max_result_bytes = 1024 * 1024

abbrev max_error_bytes : ℕ
max_error_bytes = 16 * 1024

-- What `json.dumps` makes of a value, measured in bytes of UTF-8.
pub record Encoding : Type 0 where
  pub result_bytes : AlignmentResult → ℕ
  pub error_bytes : Fields → ℕ

abbrev pub is_open : AlignmentState → Bool
is_open AlignmentState.queued = true
is_open AlignmentState.running = true
is_open _ = false

abbrev is_queued : AlignmentState → Bool
is_queued AlignmentState.queued = true
is_queued _ = false

abbrev pub started : String → AlignmentRow → AlignmentRow
started now r = record r { state = AlignmentState.running; updated_at = now }

abbrev pub finished : String → AlignmentResult → AlignmentRow → AlignmentRow
finished now result r = record r {
  state = AlignmentState.completed;
  result_json = some (decoded result);
  error_json = none;
  updated_at = now;
}

abbrev pub broken : String → Fields → AlignmentRow → AlignmentRow
broken now e r = record r {
  state = AlignmentState.failed;
  result_json = none;
  error_json = some (decoded e);
  updated_at = now;
}

unfoldable pub start_alignment : String → String → Exec Db AlignmentJob
unfolding current_row read_alignment read_back find_alignment
start_alignment now k = transaction do
  row ← current_row k
  current ← read_alignment row
  raise_if (not (is_open current.state)) invalid_registry_data
  if is_queued current.state then set_alignments (update alignment_key k (started now)) else pure tt
  read_back k

-- `if job.artifact_id`: an empty id counts as none.
abbrev pub truthy : Option String → Option String
truthy none = none
truthy (some s) = if str_eq s "" then none else some s

abbrev pub check_result : AlignmentResult → GenerationJob → Option AudioArtifact → Result (Unit {0})
check_result r j none = err invalid_registry_data
check_result r j (some a) = validate_alignment_result r j a

-- `_encode_alignment_result`.
abbrev pub encode_result : Encoding → AlignmentResult → Result (Unit {0})
encode_result enc r = elim (validate_alignment_shape r) [
  | err e ↦ err e
  | ok u ↦ if ltb max_result_bytes (enc.result_bytes r) then err invalid_registry_data else ok tt
]

unfoldable pub complete_alignment :
    Encoding → String → String → AlignmentResult → Exec Db AlignmentJob
unfolding current_row read_alignment read_back find_alignment validate_alignment_shape
    validate_alignment_result
complete_alignment enc now k result = do
  lift (encode_result enc result)
  transaction do
    job ← find_job k
    row ← current_row k
    current ← read_alignment row
    raise_if (not (is_open current.state)) invalid_registry_data
    artifact ← gets (artifact_of k (truthy job.artifact_id))
    lift (check_result result job artifact)
    set_alignments (update alignment_key k (finished now result))
    read_back k

-- `_encode_optional_object` of an alignment's error.
abbrev encode_error : Encoding → Fields → Result (Unit {0})
encode_error enc e =
    if not (finite_fields e) || ltb max_error_bytes (enc.error_bytes e)
    then err invalid_registry_data
    else ok tt

unfoldable pub fail_alignment : Encoding → String → String → Fields → Exec Db AlignmentJob
unfolding current_row read_alignment read_back find_alignment
fail_alignment enc now k e = do
  lift (encode_error enc e)
  transaction do
    row ← current_row k
    current ← read_alignment row
    raise_if (not (is_open current.state)) invalid_registry_data
    set_alignments (update alignment_key k (broken now e))
    read_back k

abbrev pub recovery_error : Fields
recovery_error = field "code" (string "alignment_recovery_required") (
    field "message" (string "Alignment state was malformed and requires retry.")
      (field "retryable" (bool true) end))

-- The row is overwritten without being decoded first.
unfoldable pub recover_alignment : Encoding → String → String → Exec Db AlignmentJob
unfolding read_alignment read_back find_alignment
recover_alignment enc now k = do
  lift (encode_error enc recovery_error)
  transaction do
    find_alignment k
    set_alignments (update alignment_key k (broken now recovery_error))
    read_back k
