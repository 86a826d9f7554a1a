-- ===== src/References.antt =====
-- src/tts_studio/references/registry.py and domain.py: the lifecycle of Reference Recordings.
pub mod Claims
mod Tests
use tts_studio.Base.{
  ℕ, String, Bool, true, false, not, ◌&&◌, ◌||◌, Option, none, some, List, [], ◌∷◌, ◌++◌, leb, ltb,
  ◌==◌, str_eq, is_some, if◌then◌else◌,
}
use Prim.Native.String.{count}
use tts_studio.Base.Exec.{
  Result, ok, err, Exec, pure, raise, gets, raise_if, modify, required, transaction, read, ◌>>=◌,
  ◌>>◌, invalid_reference_transition, record_not_found, integrity_error, runtime_error,
}
use tts_studio.Base.Table.{select, update, delete}

pub data ReferenceState : Type 0 where
  uploaded validated consumed expired deleted cleanup_failed : ReferenceState

pub record ReferenceRecording : Type 0 where
  pub id : String
  pub model_id : String
  pub relative_path : String
  pub byte_size : ℕ
  pub sha256 : String
  pub container : String
  pub sample_rate_hz : ℕ
  pub channels : ℕ
  pub duration_ms : ℕ
  pub transcript_present : Bool
  pub state : ReferenceState
  pub expires_at : String
  pub created_at : String
  pub updated_at : String

pub record ReferenceMetadata : Type 0 where
  pub container : String
  pub sample_rate_hz : ℕ
  pub channels : ℕ
  pub duration_ms : ℕ

abbrev pub Table : Type 0
Table = List ReferenceRecording

abbrev pub recording_key : ReferenceRecording → String
recording_key r = r.id

abbrev pub recording_at : String → Table → Option ReferenceRecording
recording_at k t = select recording_key k t

-- Time stamps are compared as instants by `claim_for_generation`, where `_parse_time` reads them,
-- and as texts by the SQL of `expire`.
pub record Clock : Type 0 where
  pub instant : String → ℕ
  pub text_le : String → String → Bool

-- `_recording_or_missing`.
abbrev pub find : String → Exec Table ReferenceRecording
find k t = required record_not_found (recording_at k t) t

-- The row that was written.
abbrev read_back : String → Exec Table ReferenceRecording
read_back k t = required runtime_error (recording_at k t) t

-- The arguments of `create_uploaded` that become columns.
pub record Upload : Type 0 where
  pub id : String
  pub model_id : String
  pub relative_path : String
  pub byte_size : ℕ
  pub sha256 : String
  pub transcript_present : Bool
  pub expires_at : String

pub uploaded_row : String → Upload → ReferenceRecording
uploaded_row now u = record {
  id = u.id;
  model_id = u.model_id;
  relative_path = u.relative_path;
  byte_size = u.byte_size;
  sha256 = u.sha256;
  container = "";
  sample_rate_hz = 0;
  channels = 0;
  duration_ms = 0;
  transcript_present = u.transcript_present;
  state = uploaded;
  expires_at = u.expires_at;
  created_at = now;
  updated_at = now;
}

pub has_path : String → Table → Bool
has_path p [] = false
has_path p (r ∷ t) = str_eq r.relative_path p || has_path p t

-- The constraints of the table: the two unique columns and the checks of size and digest. `in_tree`
-- is the check of the path, a LIKE pattern of SQLite.
violates : (String → Bool) → Upload → Table → Bool
unfolding has_path
violates in_tree u t =
    is_some (recording_at u.id t)
    || has_path u.relative_path t
    || not (in_tree u.relative_path)
    || ltb 20971520 u.byte_size
    || not (count u.sha256 == 64)

unfoldable pub create_uploaded : (String → Bool) → String → Upload → Exec Table ReferenceRecording
unfolding uploaded_row violates
create_uploaded in_tree now u = transaction do
  broken ← gets (violates in_tree u)
  raise_if broken integrity_error
  modify (λ t. t ++ uploaded_row now u ∷ [])
  read_back u.id

unfoldable pub get : String → Exec Table ReferenceRecording
get k = read (find k)

abbrev is_uploaded : ReferenceState → Bool
is_uploaded uploaded = true
is_uploaded _ = false

abbrev is_validated : ReferenceState → Bool
is_validated validated = true
is_validated _ = false

abbrev pub with_metadata : String → ReferenceMetadata → ReferenceRecording → ReferenceRecording
with_metadata now m r = record r {
  container = m.container;
  sample_rate_hz = m.sample_rate_hz;
  channels = m.channels;
  duration_ms = m.duration_ms;
  state = validated;
  updated_at = now;
}

unfoldable pub mark_validated : String → String → ReferenceMetadata → Exec Table ReferenceRecording
mark_validated now k m = transaction do
  current ← find k
  raise_if (not (is_uploaded current.state)) invalid_reference_transition
  modify (update recording_key k (with_metadata now m))
  read_back k

abbrev pub with_state : String → ReferenceState → ReferenceRecording → ReferenceRecording
with_state now s r = record r { state = s; updated_at = now }

-- An expired recording is marked, and then the call raises inside its transaction.
refuse_expired : String → String → Exec Table Unit
refuse_expired now k = do
  modify (update recording_key k (with_state now expired))
  raise invalid_reference_transition

unfoldable pub claim_for_generation : Clock → String → String → Exec Table ReferenceRecording
unfolding refuse_expired
claim_for_generation clock now k = transaction do
  current ← find k
  raise_if (not (is_validated current.state)) invalid_reference_transition
  if leb (clock.instant current.expires_at) (clock.instant now)
      then refuse_expired now k
      else pure tt
  modify (update recording_key k (with_state now consumed))
  read_back k

-- `WHERE state IN ('uploaded', 'validated') AND expires_at <= ?`.
abbrev pub is_due : Clock → String → ReferenceRecording → Bool
is_due clock now r = (is_uploaded r.state || is_validated r.state) && clock.text_le r.expires_at now

unfoldable pub due : Clock → String → Table → Table
due clock now [] = []
due clock now (r ∷ t) = let rest = due clock now t in if is_due clock now r then r ∷ rest else rest

-- `executemany`: one UPDATE for each selected row.
unfoldable pub expire_rows : String → Table → Table → Table
expire_rows now [] t = t
expire_rows now (r ∷ rs) t =
    expire_rows now rs (update recording_key r.id (with_state now expired) t)

-- The rows are returned as they were selected; their order is that of the SQL `ORDER BY`, which the
-- parameter stands for.
unfoldable pub expire : Clock → (Table → Table) → String → Exec Table Table
unfolding due expire_rows
expire clock order now =
    transaction
      do rows ← gets (λ t. order (due clock now t)); modify (expire_rows now rows); pure rows

-- Every state may be deleted.
unfoldable pub delete_metadata : String → Exec Table Unit
delete_metadata k = transaction do find k; modify (delete recording_key k)

unfoldable pub mark_cleanup_failed : String → String → Exec Table ReferenceRecording
mark_cleanup_failed now k =
    transaction
      do find k; modify (update recording_key k (with_state now cleanup_failed)); read_back k
