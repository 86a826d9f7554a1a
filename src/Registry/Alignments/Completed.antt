-- ===== src/Registry/Alignments/Completed.antt =====
-- What `complete_alignment` stores.
use tts_studio.Base.{
  String, ◌≡◌, ◌≤◌, refl, ap, true, none, some, Option, arith, Option-cases, inl, inr,
}
use text.Mathlib.TextPositions.{eq_refl}
use tts_studio.Base.Exec.{ok, transaction}
use tts_studio.Base.Table.{update, select-update}
use tts_studio.Registry.Domain.{
  GenerationJob, AlignmentRow, AlignmentResult, AlignmentJob, Db, job_at, alignment_key,
  AudioArtifact,
}
use tts_studio.Registry.Shape.{validate_alignment_result}
use tts_studio.Registry.Alignments.{row_at, is_current, artifact_of}
use tts_studio.Registry.Alignments.Runs.{
  Encoding, complete_alignment, is_open, finished, max_result_bytes, truthy, check_result,
}

module _ (enc : Encoding) (now k : String) (result : AlignmentResult) (db db' : Db)
    (a : AlignmentJob) (h : complete_alignment enc now k result db ≡ (ok a, db')) where
  missing_job : job_at k db ≡ none → ⊥
  unfolding complete_alignment transaction
  missing_job e = ground arith

  missing_row : (j : GenerationJob) → job_at k db ≡ some j → row_at k db ≡ none → ⊥
  unfolding complete_alignment transaction
  missing_row j e e' = ground arith

  completed :
      (j : GenerationJob) (r : AlignmentRow)
      → job_at k db ≡ some j
      → row_at k db ≡ some r
      → (is_current j r db ≡ true)
        × (is_open r.state ≡ true)
        × (db'
            ≡ record db { alignments = update alignment_key k (finished now result) db.alignments })
        × (check_result result j (artifact_of k (truthy j.artifact_id) db) ≡ ok tt)
        × (enc.result_bytes result ≤ max_result_bytes)
  unfolding complete_alignment transaction
  completed j r e e' = ground arith

  -- A result is stored only in an open alignment of the job's current artifact, and only if it is a
  -- valid alignment of that job and artifact of at most 1 MiB; the row is then completed with exactly
  -- that result, and no job and no artifact has changed.
  pub complete_alignment_lem :
      (j : GenerationJob) × (r : AlignmentRow) × (artifact : AudioArtifact) × (job_at k db ≡ some j)
      × (row_at k db ≡ some r)
      × (is_open r.state ≡ true)
      × (is_current j r db ≡ true)
      × (artifact_of k (truthy j.artifact_id) db ≡ some artifact)
      × (validate_alignment_result result j artifact ≡ ok tt)
      × (enc.result_bytes result ≤ max_result_bytes)
      × (row_at k db' ≡ some (finished now result r))
      × (db'.jobs ≡ db.jobs)
      × (db'.artifacts ≡ db.artifacts)
  complete_alignment_lem = elim (Option-cases (job_at k db)) [
    | inl e ↦ absurd (missing_job e)
    | inr (j, e) ↦ elim (Option-cases (row_at k db)) [
      | inl e' ↦ absurd (missing_row j e e')
      | inr (r, e') ↦
          let (c, o, p, v, s) = completed j r e e' in
          let (artifact, q, w) = checked_artifact j (artifact_of k (truthy j.artifact_id) db) v in
          (
            j,
            r,
            artifact,
            e,
            e',
            o,
            c,
            q,
            w,
            s,
            written r e' p,
            ap (λ d. d.jobs) p,
            ap (λ d. d.artifacts) p,
          )
    ]
  ]
    where
      checked_artifact :
          (j : GenerationJob) (o : Option AudioArtifact)
          → check_result result j o ≡ ok tt
          → (artifact : AudioArtifact) × (o ≡ some artifact)
            × (validate_alignment_result result j artifact ≡ ok tt)
      checked_artifact j none v = cc
      checked_artifact j (some artifact) v = (artifact, refl, v)

      written :
          (r : AlignmentRow)
          → row_at k db ≡ some r
          → db'
            ≡ record db { alignments = update alignment_key k (finished now result) db.alignments }
          → row_at k db' ≡ some (finished now result r)
      written r e p = ground (
        arith,
        select-update alignment_key k k (finished now result) db.alignments (λ x. refl),
        eq_refl k,
      )
