-- ===== src/Generation/Alignment.antt =====
-- src/tts_studio/generation/service.py: the alignment of a Worker, checked and translated for the
-- registry.
use Prim.Native.String.{count}
use tts_studio.Base.{
  ℕ, String, Bool, true, not, ◌&&◌, ◌||◌, Option, none, some, List, [], ◌∷◌, ltb, leb, ◌==◌, str_eq,
  length, has_nul, is_blank, if◌then◌else◌,
}
use tts_studio.Base.Exec.{
  Result, ok, err, generation_capability, generation_request, malformed_alignment,
}
use tts_studio.Base.Int.{pos}
use tts_studio.Base.Json.{is_finite, is_unit_interval}
use tts_studio.Registry.Domain.{GenerationJob, AudioArtifact, AlignmentUnit, AlignmentResult}
use tts_studio.Registry.Shape.{utf8, bytes_eq, slice, max_units, max_transcript}
use tts_studio.Workers.Domain.{
  AlignmentCapability, WorkerCapabilities, WireUnit, WireResult, Wire, contains, supports,
}
use tts_studio.Workers.Alignment.{max_result_bytes}

abbrev pub is_alignment_unit : String → Bool
is_alignment_unit s = str_eq s "word" || str_eq s "phoneme" || str_eq s "character"

unfoldable pub are_alignment_units : List String → Bool
are_alignment_units [] = true
are_alignment_units (u ∷ us) = is_alignment_unit u && are_alignment_units us

abbrev is_usable : AlignmentCapability → Bool
is_usable c =
    not (is_blank c.aligner)
    && not (has_nul c.aligner)
    && not (length c.units == 0)
    && are_alignment_units c.units

abbrev usable : Option AlignmentCapability → Result AlignmentCapability
usable none = err generation_capability
usable (some c) = if is_usable c then ok c else err generation_capability

-- `_require_alignment_capability`.
unfoldable pub require_alignment_capability : WorkerCapabilities → Result AlignmentCapability
unfolding are_alignment_units
require_alignment_capability c =
    if supports "alignment" c then usable c.alignment else err generation_capability

-- `_validate_alignment_transcript`; a text of this model has a UTF-8 encoding.
unfoldable pub validate_alignment_transcript : String → Result (Unit {0})
validate_alignment_transcript s =
    if is_blank s || has_nul s || ltb max_transcript (count s)
    then err generation_request
    else ok tt

module _ (wire : Wire) where
  -- The checks of one unit, after the ends of the unit before.
  unfoldable pub is_translatable : List ℕ → ℕ → ℕ → ℕ → WireUnit → Bool
  is_translatable bytes frames ps pf u =
      let range = slice u.source_start u.source_end bytes in
      ltb u.source_start u.source_end
      && leb u.source_end (length bytes)
      && leb ps u.source_start
      && wire.decodes range
      && not (str_eq u.text "")
      && bytes_eq range (utf8 u.text)
      && not (has_nul u.text)
      && ltb u.start_frames u.end_frames
      && leb u.end_frames frames
      && leb pf u.start_frames
      && is_finite u.confidence
      && is_unit_interval u.confidence

  abbrev pub translated : WireUnit → AlignmentUnit
  translated u = record {
    text = u.text;
    source_start = pos u.source_start;
    source_end = pos u.source_end;
    start_frames = pos u.start_frames;
    end_frames = pos u.end_frames;
    confidence = u.confidence;
    estimated = u.estimated;
  }

  -- The loop over the units.
  unfoldable pub translate_units : List ℕ → ℕ → ℕ → ℕ → List WireUnit → Result (List AlignmentUnit)
  unfolding is_translatable
  translate_units bytes frames ps pf [] = ok []
  translate_units bytes frames ps pf (u ∷ us) =
      let rest = translate_units bytes frames u.source_end u.end_frames us in
      if is_translatable bytes frames ps pf u
      then elim rest [ ok vs ↦ ok (translated u ∷ vs) | err e ↦ err e ]
      else err malformed_alignment

  -- The checks before the loop.
  unfoldable pub is_head_accepted :
      WireResult → GenerationJob → AudioArtifact → AlignmentCapability → Bool
  is_head_accepted r job artifact capability =
      leb (wire.size r) max_result_bytes
      && r.schema_version == 1
      && str_eq r.transcript job.text
      && r.sample_rate_hz == artifact.sample_rate
      && r.total_frames == artifact.frame_count
      && is_alignment_unit r.unit
      && contains r.unit capability.units
      && str_eq r.aligner capability.aligner
      && leb (length r.units) max_units
      && (str_eq job.text "" || not (length r.units == 0))

  -- `_alignment_result_from_worker`, of a response that has a result.
  unfoldable pub alignment_result_from_worker :
      WireResult → GenerationJob → AudioArtifact → AlignmentCapability → Result AlignmentResult
  unfolding is_head_accepted translate_units
  alignment_result_from_worker r job artifact capability =
      let units = translate_units (utf8 job.text) artifact.frame_count 0 0 r.units in
      if is_head_accepted r job artifact capability
      then elim units [
        | err e ↦ err e
        | ok us ↦ ok (record {
          schema_version = pos 1;
          job_id = job.id;
          artifact_id = artifact.id;
          transcript = job.text;
          sample_rate_hz = pos artifact.sample_rate;
          total_frames = pos artifact.frame_count;
          unit = r.unit;
          aligner = r.aligner;
          units = us;
        })
      ]
      else err malformed_alignment
