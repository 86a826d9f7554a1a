-- ===== src/Audio/Pcm.antt =====
-- src/tts_studio/generation/audio.py: `AudioFormat`, `PcmResult` and `PcmValidator`.
pub mod Stream
pub mod Accepts
use tts_studio.Base.{
  ℕ, ◌+◌, ◌*◌, ◌/◌, ◌%◌, String, Bool, true, false, not, ◌&&◌, ◌||◌, Option, none, some, List, ltb,
  leb, ◌==◌, is_some, str_eq, length, if◌then◌else◌,
}
use tts_studio.Base.Exec.{
  Result, ok, err, Exec, pure, lift, gets, raise_if, modify, required, ◌>>=◌, ◌>>◌,
  audio_validation, value_error,
}
use tts_studio.Base.Int.{ℤ, to_nat}

pub record AudioFormat : Type 0 where
  pub sample_rate : ℕ
  pub channels : ℕ
  pub sample_format : String
  pub sample_width : ℕ

abbrev pub frame_width : AudioFormat → ℕ
frame_width f = f.channels * f.sample_width

pub record PcmResult : Type 0 where
  pub format : AudioFormat
  pub byte_count : ℕ
  pub frame_count : ℕ

-- What `accept_header` is given: a format of the Core, or a Worker's protobuf header, whose sample
-- format is a number or a name, or an object without those fields.
pub data SampleFormat : Type 0 where
  code : ℕ → SampleFormat
  name : String → SampleFormat

pub data Header : Type 0 where
  core : AudioFormat → Header
  worker : (sample_format : SampleFormat) (sample_rate_hz channels : ℕ) → Header
  unreadable : Header

-- The text that a sample format becomes; `str` of a number other than 1 is never a format's name.
abbrev format_name : SampleFormat → String
format_name (code n) = if n == 1 then "S16LE" else "?"
format_name (name s) = s

-- `_coerce_format`.
unfoldable pub coerce_format : Header → Result AudioFormat
coerce_format (core f) = ok f
coerce_format (worker s r c) =
    ok (record { sample_rate = r; channels = c; sample_format = format_name s; sample_width = 2 })
coerce_format unreadable = err audio_validation

pub record Validator : Type 0 where
  pub max_bytes : ℕ
  pub format : Option AudioFormat
  pub next_sequence : ℕ
  pub byte_count : ℕ
  pub finished : Bool

-- `PcmValidator.__init__`.
unfoldable pub init : ℤ → Result Validator
init z = elim (to_nat z) [
  | none ↦ err value_error
  | some n ↦
      ok (record {
        max_bytes = n;
        format = none;
        next_sequence = 0;
        byte_count = 0;
        finished = false;
      })
]

-- `audio_format != AudioFormat(48_000, 1, "S16LE", 2)`.
abbrev pub is_supported : AudioFormat → Bool
is_supported f =
    f.sample_rate == 48000
    && f.channels == 1
    && str_eq f.sample_format "S16LE"
    && f.sample_width == 2

unfoldable pub accept_header : Header → Exec Validator AudioFormat
unfolding coerce_format
accept_header h = do
  finished ← gets (λ v. v.finished)
  raise_if finished audio_validation
  format ← gets (λ v. v.format)
  raise_if (is_some format) audio_validation
  audio_format ← lift (coerce_format h)
  raise_if (not (is_supported audio_format)) audio_validation
  modify (λ v. record v { format = some audio_format })
  pure audio_format

-- Sequence numbers are integers of Python.
unfoldable pub accept_chunk : ℤ → List ℕ → Exec Validator (Unit {0})
accept_chunk sequence pcm = do
  finished ← gets (λ v. v.finished)
  raise_if finished audio_validation
  stored ← gets (λ v. v.format)
  format ← required audio_validation stored
  number ← required audio_validation (to_nat sequence)
  expected ← gets (λ v. v.next_sequence)
  raise_if (not (number == expected)) audio_validation
  raise_if (not (length pcm % frame_width format == 0)) audio_validation
  count ← gets (λ v. v.byte_count)
  limit ← gets (λ v. v.max_bytes)
  raise_if (ltb limit (count + length pcm)) audio_validation
  modify (λ v. record v {
    byte_count = v.byte_count + length pcm;
    next_sequence = v.next_sequence + 1;
  })

unfoldable pub finish : ℤ → Exec Validator PcmResult
finish total_frames = do
  finished ← gets (λ v. v.finished)
  raise_if finished audio_validation
  stored ← gets (λ v. v.format)
  format ← required audio_validation stored
  total ← required audio_validation (to_nat total_frames)
  count ← gets (λ v. v.byte_count)
  raise_if (not (count % frame_width format == 0) || not (total == count / frame_width format))
      audio_validation
  modify (λ v. record v { finished = true })
  pure (record { format = format; byte_count = count; frame_count = count / frame_width format })
