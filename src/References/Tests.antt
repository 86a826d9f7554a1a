-- ===== src/References/Tests.antt =====
-- The results on references, applied to concrete recordings.
use tts_studio.Base.{◌<◌, some, ◌≡◌, refl, true, false, [], ◌∷◌, arith}
use Prim.Native.String.{count}
use tts_studio.Base.Exec.{err, transaction, invalid_reference_transition}
use tts_studio.Base.Table.{select, update}
use tts_studio.References.{
  recording_at, ReferenceRecording, validated, consumed, Clock, claim_for_generation, with_state,
}
use tts_studio.References.Claims.{claim-once, claim_expired-unchanged}

-- Time stamps of this clock are numbers in unary.
abbrev clock : Clock
clock = record { instant = λ s. count s; text_le = λ s t. true }

abbrev recording : ReferenceRecording
recording = record {
  id = "r";
  model_id = "model";
  relative_path = "references/r";
  byte_size = 10;
  sha256 = "";
  container = "wav";
  sample_rate_hz = 48000;
  channels = 1;
  duration_ms = 5;
  transcript_present = false;
  state = validated;
  expires_at = "111";
  created_at = "1";
  updated_at = "1";
}

abbrev used : ReferenceRecording
used = with_state "11" consumed recording

claim-once_example :
    (r₀ : ReferenceRecording) × (recording_at "r" (recording ∷ []) ≡ some r₀)
    × (r₀.state ≡ validated)
    × (2 < count r₀.expires_at)
    × (recording_at "r" (used ∷ []) ≡ some (with_state "11" consumed r₀))
    × (claim_for_generation clock "111" "r" (used ∷ [])
        ≡ (err invalid_reference_transition, used ∷ []))
unfolding claim_for_generation transaction select update
claim-once_example =
    claim-once clock "11" "r" (recording ∷ []) {r = used} {t' = used ∷ []} "111" refl

claim_expired-unchanged_example :
    claim_for_generation clock "1111" "r" (recording ∷ [])
    ≡ (err invalid_reference_transition, recording ∷ [])
unfolding select
claim_expired-unchanged_example =
    claim_expired-unchanged clock "1111" "r" (recording ∷ []) recording refl refl (omega arith)
