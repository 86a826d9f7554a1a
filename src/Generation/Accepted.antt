-- ===== src/Generation/Accepted.antt =====
-- What the service translates is what the registry accepts.
use mathlib.Core.Path.{subst}
use Prim.Native.String.{count}
use tts_studio.Base.{
  ℕ, ◌≡◌, refl, sym, ap, true, false, ◌≤◌, arith, List, [], ◌∷◌, suc, eq_iff, length, inl, inr,
}
use tts_studio.Base.Tests.{has_nul, is_safe_text}
use text.Mathlib.TextPositions.{eq_refl}
use tts_studio.Base.Exec.{ok, Result-cases}
use tts_studio.Base.Int.{pos}
use tts_studio.Registry.Domain.{GenerationJob, AudioArtifact, AlignmentUnit, AlignmentResult}
use tts_studio.Registry.Shape.{
  utf8, are_units_valid, is_unit_valid, is_head_valid, is_shape_valid, validate_alignment_result,
}
use tts_studio.Workers.Domain.{AlignmentCapability, WorkerCapabilities, WireUnit, WireResult, Wire}
use tts_studio.Generation.Alignment.{
  require_alignment_capability, validate_alignment_transcript, is_translatable, translate_units,
  translated, is_head_accepted, alignment_result_from_worker,
}

module _ (wire : Wire) where
  translated_unit :
      (bytes : List ℕ) (frames ps pf : ℕ) (u : WireUnit)
      → is_translatable wire bytes frames ps pf u ≡ true
      → is_unit_valid bytes frames ps pf (translated wire u) ≡ true
  unfolding is_translatable is_unit_valid
  translated_unit bytes frames ps pf u h = ground arith

  no_units :
      (bytes : List ℕ) (frames ps pf : ℕ) (vs : List AlignmentUnit)
      → translate_units wire bytes frames ps pf [] ≡ ok vs
      → vs ≡ []
  unfolding translate_units
  no_units bytes frames ps pf vs h = ground arith

  first_unit :
      (bytes : List ℕ) (frames ps pf : ℕ) (u : WireUnit) (us : List WireUnit)
      (vs : List AlignmentUnit)
      → translate_units wire bytes frames ps pf (u ∷ us) ≡ ok vs
      → (ws : List AlignmentUnit) × (is_translatable wire bytes frames ps pf u ≡ true)
        × (translate_units wire bytes frames u.source_end u.end_frames us ≡ ok ws)
        × (vs ≡ translated wire u ∷ ws)
  unfolding translate_units
  first_unit bytes frames ps pf u us vs h =
      elim (Result-cases (translate_units wire bytes frames u.source_end u.end_frames us)) [
        | inr (x, e) ↦ absurd (ground arith)
        | inl (ws, e) ↦ (ws, ground arith, e, ground arith)
      ]

  -- Units that are valid, and as many as the Worker sent.
  abbrev AreTranslated : List ℕ → ℕ → ℕ → ℕ → List WireUnit → List AlignmentUnit → Type 0
  AreTranslated bytes frames ps pf us vs =
      (are_units_valid bytes frames ps pf vs ≡ true) × (length vs ≡ length us)

  more_units :
      (bytes : List ℕ) (frames ps pf : ℕ) (u : WireUnit) (us : List WireUnit)
      (ws : List AlignmentUnit)
      → is_translatable wire bytes frames ps pf u ≡ true
      → AreTranslated bytes frames u.source_end u.end_frames us ws
      → AreTranslated bytes frames ps pf (u ∷ us) (translated wire u ∷ ws)
  unfolding are_units_valid
  more_units bytes frames ps pf u us ws h r =
      let p = translated_unit bytes frames ps pf u h in let (q, l) = r in (ground arith, ap suc l)

  pub translated_units :
      (bytes : List ℕ) (frames ps pf : ℕ) (us : List WireUnit) (vs : List AlignmentUnit)
      → translate_units wire bytes frames ps pf us ≡ ok vs
      → AreTranslated bytes frames ps pf us vs
  unfolding are_units_valid
  translated_units bytes frames ps pf [] vs h =
      subst (AreTranslated bytes frames ps pf []) (sym (no_units bytes frames ps pf vs h))
        (refl, refl)
  translated_units bytes frames ps pf (u ∷ us) vs h =
      let (ws, p, q, e) = first_unit bytes frames ps pf u us vs h in
      subst (AreTranslated bytes frames ps pf (u ∷ us)) (sym e) (
        more_units bytes frames ps pf u us ws p
          (translated_units bytes frames u.source_end u.end_frames us ws q))

  module _ (r : WireResult) (job : GenerationJob) (artifact : AudioArtifact)
      (capability : AlignmentCapability) where
    abbrev pub made : List AlignmentUnit → AlignmentResult
    made us = record {
      schema_version = pos 1;
      job_id = job.id;
      artifact_id = artifact.id;
      transcript = job.text;
      sample_rate_hz = pos artifact.sample_rate;
      total_frames = pos artifact.frame_count;
      unit = r.unit;
      aligner = r.aligner;
      units = us;
    }

    usable_aligner :
        (c : WorkerCapabilities)
        → require_alignment_capability c ≡ ok capability
        → is_safe_text capability.aligner ≡ true
    unfolding require_alignment_capability is_safe_text
    usable_aligner c h = ground arith

    bounded_text :
        validate_alignment_transcript job.text ≡ ok tt
        → (has_nul job.text ≡ false) × (count job.text ≤ 2000)
    unfolding validate_alignment_transcript
    bounded_text h = (ground arith, ground arith)

    made_head :
        (us : List AlignmentUnit)
        → is_head_accepted wire r job artifact capability ≡ true
        → length us ≡ length r.units
        → is_safe_text capability.aligner ≡ true
        → has_nul job.text ≡ false
        → count job.text ≤ 2000
        → is_safe_text job.id ≡ true
        → is_safe_text artifact.id ≡ true
        → 1 ≤ artifact.sample_rate
        → is_head_valid (made us) ≡ true
    unfolding is_head_accepted is_head_valid
    made_head us h l aligner nul short job_id artifact_id rate =
        ground (arith, eq_iff r.aligner capability.aligner)

    pub made_valid :
        (us : List AlignmentUnit)
        → is_head_valid (made us) ≡ true
        → are_units_valid (utf8 job.text) artifact.frame_count 0 0 us ≡ true
        → validate_alignment_result (made us) job artifact ≡ ok tt
    unfolding validate_alignment_result is_shape_valid
    made_valid us h u = ground (arith, eq_refl job.id, eq_refl artifact.id, eq_refl job.text)

  module _ (r : WireResult) (job : GenerationJob) (artifact : AudioArtifact)
      (capability : AlignmentCapability) (a : AlignmentResult)
      (h : alignment_result_from_worker wire r job artifact capability ≡ ok a) where
    result_parts :
        (us : List AlignmentUnit) × (is_head_accepted wire r job artifact capability ≡ true)
        × (translate_units wire (utf8 job.text) artifact.frame_count 0 0 r.units ≡ ok us)
        × (a ≡ made r job artifact capability us)
    unfolding alignment_result_from_worker
    result_parts =
        elim (Result-cases
          (translate_units wire (utf8 job.text) artifact.frame_count 0 0 r.units)) [
            | inr (x, e) ↦ absurd (ground arith)
            | inl (us, e) ↦ (us, ground arith, e, ground arith)
          ]

    -- If the capability and the text of the job have passed the checks of the service, the ids are
    -- not blank and have no NUL, and the sample rate of the artifact is positive, then the registry
    -- accepts every alignment that the service has translated.
    pub alignment_result_from_worker-validate :
        (c : WorkerCapabilities)
        → require_alignment_capability c ≡ ok capability
        → validate_alignment_transcript job.text ≡ ok tt
        → is_safe_text job.id ≡ true
        → is_safe_text artifact.id ≡ true
        → 1 ≤ artifact.sample_rate
        → validate_alignment_result a job artifact ≡ ok tt
    alignment_result_from_worker-validate c usable text job_id artifact_id rate =
        let (us, accepted, units, e) = result_parts in
        let (valid, l) =
          translated_units (utf8 job.text) artifact.frame_count 0 0 r.units us units in
        let (nul, short) = bounded_text r job artifact capability text in
        subst (λ x. validate_alignment_result x job artifact ≡ ok tt) (sym e)
          (made_valid r job artifact capability us
            (made_head r job artifact capability us accepted l
              (usable_aligner r job artifact capability c usable) nul short job_id artifact_id rate)
            valid)
