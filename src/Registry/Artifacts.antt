-- ===== src/Registry/Artifacts.antt =====
-- src/tts_studio/generation/registry.py: the methods of `GenerationRegistry` on Audio Artifacts.
use tts_studio.Base.{
  ℕ, String, Bool, true, false, not, ◌&&◌, ◌||◌, Option, none, some, List, [], ◌∷◌, ◌++◌, ◌==◌,
  is_some, str_eq, if◌then◌else◌,
}
use Prim.Native.String.{count}
use tts_studio.Base.Exec.{
  Result, ok, err, Exec, pure, lift, gets, raise_if, modify, transaction, required, ◌>>=◌, ◌>>◌,
  invalid_registry_data, integrity_error, runtime_error,
}
use tts_studio.Base.Int.{ℤ, to_nat, is_positive}
use tts_studio.Base.Table.{select, update, delete}
use tts_studio.Registry.Domain.{
  GenerationJob, AudioArtifact, AlignmentRow, Db, job_key, artifact_key, artifact_owner,
}
use tts_studio.Registry.Jobs.{find_job, set_jobs, required_text, or_fresh}
use tts_studio.Registry.Paths.{managed_audio_path}

pub record NewArtifact : Type 0 where
  pub job_id : String
  pub artifact_id : Option String
  pub path : String
  pub byte_size : ℤ
  pub sha256 : String
  pub sample_rate : ℤ
  pub channel_count : ℤ
  pub frame_count : ℤ
  pub duration_ms : Option ℤ

-- `_non_negative` and `_positive`: the number that the argument is.
abbrev pub non_negative : ℤ → Result ℕ
non_negative z = elim (to_nat z) [ none ↦ err invalid_registry_data | some n ↦ ok n ]

abbrev pub positive : ℤ → Result ℕ
positive z = if is_positive z then non_negative z else err invalid_registry_data

abbrev optional_duration : Option ℤ → Result (Option ℕ)
optional_duration none = ok none
optional_duration (some z) = elim (to_nat z) [
  | none ↦ err invalid_registry_data
  | some n ↦ ok (some n)
]

-- `len(value)` of a text counts its characters.
abbrev is_digest : String → Bool
is_digest s = count s == 64

abbrev pub set_artifacts : (List AudioArtifact → List AudioArtifact) → Exec Db Unit
set_artifacts f = modify λ db. record db { artifacts = f db.artifacts }

-- The primary key and the unique `job_id` of `audio_artifacts`.
abbrev is_taken : String → String → Db → Bool
is_taken id owner db =
    is_some (select artifact_key id db.artifacts)
    || is_some (select artifact_owner owner db.artifacts)

abbrev pub with_artifact : String → String → GenerationJob → GenerationJob
with_artifact now id j = record j { artifact_id = some id; updated_at = now }

-- The INSERT into `audio_artifacts` and the UPDATE of the job.
store_artifact : String → AudioArtifact → Exec Db AudioArtifact
store_artifact now a = do
  taken ← gets (is_taken a.id a.job_id)
  raise_if taken integrity_error
  set_artifacts (λ t. t ++ a ∷ [])
  set_jobs (update job_key a.job_id (with_artifact now a.id))
  found ← gets (λ db. select artifact_key a.id db.artifacts)
  required runtime_error found

unfoldable pub create_artifact : String → String → NewArtifact → Exec Db AudioArtifact
unfolding store_artifact
create_artifact now fresh a = do
  path ← lift (managed_audio_path a.path)
  size ← lift (non_negative a.byte_size)
  rate ← lift (positive a.sample_rate)
  channels ← lift (positive a.channel_count)
  frames ← lift (non_negative a.frame_count)
  duration ← lift (optional_duration a.duration_ms)
  raise_if (not (is_digest a.sha256)) invalid_registry_data
  id ← lift (required_text (or_fresh fresh a.artifact_id))
  transaction do
    job ← find_job a.job_id
    raise_if (not job.retain_artifact) invalid_registry_data
    store_artifact now (record {
      id = id;
      job_id = a.job_id;
      path = path;
      byte_size = size;
      sha256 = a.sha256;
      sample_rate = rate;
      channel_count = channels;
      frame_count = frames;
      duration_ms = duration;
      created_at = now;
      retained_at = now;
    })

-- `ON DELETE CASCADE` from an artifact to the alignment that names it.
abbrev names_artifact : AudioArtifact → AlignmentRow → Bool
names_artifact a r = str_eq r.job_id a.job_id && str_eq r.artifact_id a.id

unfoldable pub cascade : AudioArtifact → List AlignmentRow → List AlignmentRow
cascade a [] = []
cascade a (r ∷ t) = let rest = cascade a t in if names_artifact a r then rest else r ∷ rest

abbrev pub without_artifact : String → GenerationJob → GenerationJob
without_artifact now j = record j { artifact_id = none; updated_at = now }

delete_found : String → AudioArtifact → Exec Db Bool
delete_found now a = do
  set_artifacts (delete artifact_key a.id)
  modify (λ db. record db { alignments = cascade a db.alignments })
  set_jobs (update job_key a.job_id (without_artifact now))
  pure true

abbrev delete_row : String → Option AudioArtifact → Exec Db Bool
delete_row now none = pure false
delete_row now (some a) = delete_found now a

unfoldable pub delete_artifact : String → String → Exec Db Bool
unfolding delete_found cascade
delete_artifact now id =
    transaction do row ← gets (λ db. select artifact_key id db.artifacts); delete_row now row
