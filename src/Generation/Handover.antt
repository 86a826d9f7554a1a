-- ===== src/Generation/Handover.antt =====
-- What the lease of a Worker lets through, the service translates.
use tts_studio.Base.Tests.{has_nul, is_safe_text}
use tts_studio.Base.{
  ℕ, String, ◌≡◌, refl, true, false, none, some, ◌≤◌, arith, List, [], ◌∷◌, eq_iff, Option-cases,
  inl, inr,
}
use mathlib.Core.Path.{subst}
use text.Mathlib.TextPositions.{eq_refl}
use tts_studio.Base.Exec.{ok}
use tts_studio.Registry.Domain.{GenerationJob, AudioArtifact, AlignmentUnit, AlignmentResult}
use tts_studio.Registry.Shape.{utf8, validate_alignment_result}
use tts_studio.Registry.Shape.Nul.{no_nul_in_range}
use tts_studio.Workers.Domain.{
  AlignmentCapability, WorkerCapabilities, WireUnit, WireResult, Wire, contains,
}
use tts_studio.Workers.Alignment.{unit_error, units_error, head_error, alignment_result_error}
use tts_studio.Generation.Alignment.{
  require_alignment_capability, validate_alignment_transcript, is_translatable, translate_units,
  translated, is_head_accepted, alignment_result_from_worker, is_alignment_unit,
  are_alignment_units,
}
use tts_studio.Generation.Accepted.{made, alignment_result_from_worker-validate}

contains-are_units :
    (s : String) (us : List String)
    → are_alignment_units us ≡ true
    → contains s us ≡ true
    → is_alignment_unit s ≡ true
unfolding are_alignment_units contains
contains-are_units s [] h c = ground arith
contains-are_units s (u ∷ us) h c = ground (arith, eq_iff s u, contains-are_units s us)

module _ (wire : Wire) (text : String) (nul : has_nul text ≡ false) where
  let_through :
      (frames ps pf : ℕ) (u : WireUnit)
      → unit_error wire (utf8 text) frames ps pf u ≡ none
      → is_translatable wire (utf8 text) frames ps pf u ≡ true
  unfolding unit_error is_translatable
  let_through frames ps pf u h =
      let part = no_nul_in_range u.source_start u.source_end text u.text nul in ground arith

  all_through :
      (frames ps pf : ℕ) (us : List WireUnit)
      → units_error wire (utf8 text) frames ps pf us ≡ none
      → (vs : List AlignmentUnit) × (translate_units wire (utf8 text) frames ps pf us ≡ ok vs)
  unfolding units_error translate_units
  all_through frames ps pf [] h = ([], refl)
  all_through frames ps pf (u ∷ us) h =
      elim (Option-cases (unit_error wire (utf8 text) frames ps pf u)) [
        | inr (x, e) ↦ absurd (ground arith)
        | inl e ↦
            let (vs, q) = all_through frames u.source_end u.end_frames us (ground arith) in
            let p = let_through frames ps pf u e in (translated wire u ∷ vs, ground arith)
      ]

module _ (wire : Wire) (r : WireResult) (job : GenerationJob) (artifact : AudioArtifact)
    (capability : AlignmentCapability) where
  lease_parts :
      alignment_result_error wire r job.text (some capability) ≡ none
      → (head_error wire r job.text (some capability) ≡ none)
        × (units_error wire (utf8 job.text) r.total_frames 0 0 r.units ≡ none)
  unfolding alignment_result_error
  lease_parts h = (ground arith, ground arith)

  head_through :
      head_error wire r job.text (some capability) ≡ none
      → are_alignment_units capability.units ≡ true
      → r.sample_rate_hz ≡ artifact.sample_rate
      → r.total_frames ≡ artifact.frame_count
      → (is_head_accepted wire r job artifact capability ≡ true) × (1 ≤ artifact.sample_rate)
  unfolding head_error is_head_accepted
  head_through h units rate frames =
      let known = contains-are_units r.unit capability.units units in
      let aligner = eq_iff capability.aligner r.aligner in
      let refl_aligner = eq_refl r.aligner in (ground (arith), ground arith)

  usable_units :
      (c : WorkerCapabilities)
      → require_alignment_capability c ≡ ok capability
      → are_alignment_units capability.units ≡ true
  unfolding require_alignment_capability
  usable_units c h = ground arith

  text_without_nul : validate_alignment_transcript job.text ≡ ok tt → has_nul job.text ≡ false
  unfolding validate_alignment_transcript
  text_without_nul h = ground arith

  translates :
      (us : List AlignmentUnit)
      → is_head_accepted wire r job artifact capability ≡ true
      → translate_units wire (utf8 job.text) artifact.frame_count 0 0 r.units ≡ ok us
      → (a : AlignmentResult) × (alignment_result_from_worker wire r job artifact capability ≡ ok a)
  unfolding alignment_result_from_worker
  translates us h e = (made wire r job artifact capability us, ground arith)

  -- An alignment that the lease of a Worker lets through, for a job whose text and whose Worker have
  -- passed the checks of the service, is translated, and the registry accepts it, if its sample rate
  -- and its frames are those of the artifact, and the ids are not blank and have no NUL.
  pub alignment_result_error-handover :
      (c : WorkerCapabilities)
      → alignment_result_error wire r job.text (some capability) ≡ none
      → require_alignment_capability c ≡ ok capability
      → validate_alignment_transcript job.text ≡ ok tt
      → is_safe_text job.id ≡ true
      → is_safe_text artifact.id ≡ true
      → r.sample_rate_hz ≡ artifact.sample_rate
      → r.total_frames ≡ artifact.frame_count
      → (a : AlignmentResult) × (alignment_result_from_worker wire r job artifact capability ≡ ok a)
        × (validate_alignment_result a job artifact ≡ ok tt)
  alignment_result_error-handover c h usable text job_id artifact_id rate frames =
      let (p, q) = lease_parts h in
      let (accepted, positive) = head_through p (usable_units c usable) rate frames in
      let (us, e) =
        all_through wire job.text (text_without_nul text) r.total_frames 0 0 r.units q in
      let (a, given) =
        translates us accepted
          (subst (λ n. translate_units wire (utf8 job.text) n 0 0 r.units ≡ ok us) frames e) in
      (
        a,
        given,
        alignment_result_from_worker-validate wire r job artifact capability a given c usable text
            job_id artifact_id positive,
      )
