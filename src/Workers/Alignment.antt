-- ===== src/Workers/Alignment.antt =====
-- src/tts_studio/workers/generation.py, `_alignment_result_error`: why the answer of a Worker to an
-- alignment request is refused.
use tts_studio.Base.{
  ℕ, String, Bool, false, not, ◌&&◌, ◌||◌, Option, none, some, List, [], ◌∷◌, ltb, leb, ◌==◌,
  str_eq, length, if◌then◌else◌, ◌^◌,
}
use tts_studio.Base.Json.{is_finite, is_unit_interval}
use tts_studio.Registry.Shape.{utf8, bytes_eq, slice, max_units}
use tts_studio.Workers.Domain.{AlignmentCapability, WireUnit, WireResult, Wire, contains}

abbrev pub max_result_bytes : ℕ
max_result_bytes = 2 ^ 20

abbrev pub is_unit_of : String → Option AlignmentCapability → Bool
is_unit_of unit none = false
is_unit_of unit (some c) = contains unit c.units

abbrev pub is_aligner_of : String → Option AlignmentCapability → Bool
is_aligner_of aligner none = false
is_aligner_of aligner (some c) = str_eq c.aligner aligner

module _ (wire : Wire) where
  -- One round of the loop over the units, after the ends of the unit before.
  unfoldable pub unit_error : List ℕ → ℕ → ℕ → ℕ → WireUnit → Option String
  unit_error bytes frames ps pf u =
      let range = slice u.source_start u.source_end bytes in
      if str_eq u.text ""
      then some "alignment unit text is empty"
      else if not (ltb u.source_start u.source_end && leb u.source_end (length bytes))
      then some "source range is out of bounds"
      else if ltb u.source_start ps
      then some "source ranges are not ordered"
      else if not (wire.decodes range)
      then some "source range is not valid UTF-8"
      else if not (bytes_eq range (utf8 u.text))
      then some "source range does not identify unit text"
      else if not (ltb u.start_frames u.end_frames && leb u.end_frames frames)
      then some "frame range is out of bounds"
      else if ltb u.start_frames pf
      then some "frame ranges are not ordered"
      else if not (is_finite u.confidence) || not (is_unit_interval u.confidence)
      then some "confidence is out of bounds"
      else none

  unfoldable pub units_error : List ℕ → ℕ → ℕ → ℕ → List WireUnit → Option String
  unfolding unit_error
  units_error bytes frames ps pf [] = none
  units_error bytes frames ps pf (u ∷ us) = elim (unit_error bytes frames ps pf u) [
    | some reason ↦ some reason
    | none ↦ units_error bytes frames u.source_end u.end_frames us
  ]

  -- The tests before the loop.
  unfoldable pub head_error : WireResult → String → Option AlignmentCapability → Option String
  head_error r transcript capability =
      if ltb max_result_bytes (wire.size r)
      then some "result exceeds size limit"
      else if not (r.schema_version == 1)
      then some "unsupported schema version"
      else if not (str_eq r.transcript transcript)
      then some "transcript identity mismatch"
      else if r.sample_rate_hz == 0 || r.total_frames == 0
      then some "audio identity is invalid"
      else if str_eq r.unit "" || not (is_unit_of r.unit capability)
      then some "alignment unit is unsupported"
      else if str_eq r.aligner "" || not (is_aligner_of r.aligner capability)
      then some "aligner identity mismatch"
      else if length r.units == 0 || ltb max_units (length r.units)
      then some "alignment units are empty or too numerous"
      else none

  unfoldable pub alignment_result_error :
      WireResult → String → Option AlignmentCapability → Option String
  unfolding head_error units_error
  alignment_result_error r transcript capability = elim (head_error r transcript capability) [
    | some reason ↦ some reason
    | none ↦ units_error (utf8 transcript) r.total_frames 0 0 r.units
  ]
