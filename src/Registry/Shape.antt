-- ===== src/Registry/Shape.antt =====
-- src/tts_studio/generation/registry.py, `_validate_alignment_shape` and
-- `_validate_alignment_result`: what an alignment may look like, and that it fits its job.
-- A text is given to the checks by its UTF-8 bytes. Strict decoding is the inverse of encoding, so
-- the bytes of a range decode to the text of the unit exactly when they are the bytes of that text.
pub mod Units
pub mod Nul
use Prim.Native.Char.{code}
use Prim.Native.String.{count}
use tts_studio.Base.{
  ℕ, ◌+◌, ◌-◌, ◌/◌, ◌%◌, String, Bool, true, false, not, ◌&&◌, ◌||◌, List, [], ◌∷◌, ◌++◌, ltb, leb,
  ◌==◌, has_nul, is_safe_text, str_eq, length, take, drop, if◌then◌else◌, Option, none, some,
  is_some,
}
use tts_studio.Base.Exec.{Result, ok, err, invalid_registry_data}
use tts_studio.Base.Int.{ℤ, to_nat, is_positive}
use tts_studio.Base.Json.{is_finite, is_unit_interval}
use tts_studio.Registry.Domain.{GenerationJob, AudioArtifact, AlignmentUnit, AlignmentResult}

-- The UTF-8 bytes of one code point.
unfoldable pub utf8_char : ℕ → List ℕ
utf8_char c =
    if ltb c 128
    then c ∷ []
    else if ltb c 2048
    then (192 + c / 64) ∷ (128 + c % 64) ∷ []
    else if ltb c 65536
    then (224 + c / 4096) ∷ (128 + c / 64 % 64) ∷ (128 + c % 64) ∷ []
    else (240 + c / 262144) ∷ (128 + c / 4096 % 64) ∷ (128 + c / 64 % 64) ∷ (128 + c % 64) ∷ []

-- `value.encode("utf-8")`.
unfoldable pub utf8 : String → List ℕ
unfolding utf8_char
utf8 String.[] = []
utf8 (String.◌∷◌ c s) = utf8_char (code c) ++ utf8 s

unfoldable pub bytes_eq : List ℕ → List ℕ → Bool
bytes_eq [] [] = true
bytes_eq (x ∷ xs) (y ∷ ys) = x == y && bytes_eq xs ys
bytes_eq _ _ = false

-- `value[start:end]`.
abbrev pub slice : ℕ → ℕ → List ℕ → List ℕ
slice s e bs = take (e - s) (drop s bs)

-- `0 <= start < end <= bound and previous <= start`, over the numbers that the two are.
abbrev pub source_range : ℕ → ℕ → Option ℕ → Option ℕ → Bool
source_range prev bound (some s) (some e) = ltb s e && leb e bound && leb prev s
source_range prev bound _ _ = false

-- `0 <= start <= end <= bound and previous <= start`.
abbrev pub frame_range : ℕ → ℕ → Option ℕ → Option ℕ → Bool
frame_range prev bound (some s) (some e) = leb s e && leb e bound && leb prev s
frame_range prev bound _ _ = false

abbrev pub nat_of : ℤ → ℕ
nat_of z = elim (to_nat z) [ none ↦ 0 | some n ↦ n ]

-- One round of the loop over the units, after the ends of the unit before.
unfoldable pub is_unit_valid : List ℕ → ℕ → ℕ → ℕ → AlignmentUnit → Bool
is_unit_valid bytes frames prev_source prev_frame u =
    not (str_eq u.text "")
    && not (has_nul u.text)
    && source_range prev_source (length bytes) (to_nat u.source_start) (to_nat u.source_end)
    && bytes_eq (slice (nat_of u.source_start) (nat_of u.source_end) bytes) (utf8 u.text)
    && frame_range prev_frame frames (to_nat u.start_frames) (to_nat u.end_frames)
    && is_finite u.confidence
    && is_unit_interval u.confidence

unfoldable pub are_units_valid : List ℕ → ℕ → ℕ → ℕ → List AlignmentUnit → Bool
unfolding is_unit_valid
are_units_valid bytes frames ps pf [] = true
are_units_valid bytes frames ps pf (u ∷ us) =
    is_unit_valid bytes frames ps pf u
    && are_units_valid bytes frames (nat_of u.source_end) (nat_of u.end_frames) us

abbrev pub max_transcript : ℕ
max_transcript = 2000

abbrev pub max_units : ℕ
max_units = 10000

-- The checks before the loop over the units.
unfoldable pub is_head_valid : AlignmentResult → Bool
is_head_valid r =
    nat_of r.schema_version == 1
    && is_safe_text r.job_id
    && is_safe_text r.artifact_id
    && leb (count r.transcript) max_transcript
    && not (has_nul r.transcript)
    && is_positive r.sample_rate_hz
    && is_some (to_nat r.total_frames)
    && (str_eq r.unit "word" || str_eq r.unit "phoneme" || str_eq r.unit "character")
    && is_safe_text r.aligner
    && leb (length r.units) max_units
    && (str_eq r.transcript "" || not (length r.units == 0))

unfoldable pub is_shape_valid : AlignmentResult → Bool
unfolding is_head_valid are_units_valid
is_shape_valid r =
    is_head_valid r && are_units_valid (utf8 r.transcript) (nat_of r.total_frames) 0 0 r.units

unfoldable pub validate_alignment_shape : AlignmentResult → Result (Unit {0})
unfolding is_shape_valid
validate_alignment_shape r = if is_shape_valid r then ok tt else err invalid_registry_data

-- `_validate_alignment_result`: the shape, and the identity of the job and its artifact.
unfoldable pub validate_alignment_result :
    AlignmentResult → GenerationJob → AudioArtifact → Result (Unit {0})
validate_alignment_result r j a =
    if is_shape_valid r
      && str_eq r.job_id j.id
      && str_eq r.artifact_id a.id
      && str_eq r.transcript j.text
      && nat_of r.sample_rate_hz == a.sample_rate
      && nat_of r.total_frames == a.frame_count
    then ok tt
    else err invalid_registry_data
