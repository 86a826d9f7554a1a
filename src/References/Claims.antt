-- ===== src/References/Claims.antt =====
-- Claiming a reference for a generation.
use tts_studio.Base.{
  ◌≤◌, ◌<◌, ◌≡◌, refl, ap, ◌∙◌, String, none, some, arith, Option-cases, inl, inr,
}
use tts_studio.Base.Exec.{ok, err, transaction, invalid_reference_transition}
use tts_studio.Base.Table.{update, select-update}
use text.Mathlib.TextPositions.{eq_refl}
use tts_studio.References.{
  ReferenceRecording, validated, consumed, Table, Clock, recording_at, recording_key,
  claim_for_generation, with_state,
}

module _ (clock : Clock) (now k : String) (t : Table) where
  abbrev mark : Table
  mark = update recording_key k (with_state now consumed) t

  claimed :
      {r₀ r : ReferenceRecording} {t' : Table}
      → recording_at k t ≡ some r₀
      → claim_for_generation clock now k t ≡ (ok r, t')
      → (r₀.state ≡ validated) × (clock.instant now < clock.instant r₀.expires_at) × (t' ≡ mark)
  unfolding claim_for_generation transaction
  claimed found h = ground arith

  unclaimed :
      {r : ReferenceRecording} {t' : Table}
      → recording_at k t ≡ none
      → claim_for_generation clock now k t ≡ (ok r, t')
      → ⊥
  unfolding claim_for_generation transaction
  unclaimed missing h = ground arith

  marked :
      {r₀ : ReferenceRecording}
      → recording_at k t ≡ some r₀
      → recording_at k mark ≡ some (with_state now consumed r₀)
  marked found =
      ground
        (arith, select-update recording_key k k (with_state now consumed) t (λ a. refl), eq_refl k)

  refused :
      (later : String) (r₀ : ReferenceRecording) {t' : Table}
      → recording_at k t' ≡ some (with_state now consumed r₀)
      → claim_for_generation clock later k t' ≡ (err invalid_reference_transition, t')
  unfolding claim_for_generation transaction
  refused later r₀ found = ground arith

  -- A claim that succeeds was made of a validated recording that had not expired, and leaves it
  -- consumed; so a second claim of it, at any time, is refused and changes nothing.
  pub claim-once :
      {r : ReferenceRecording} {t' : Table} (later : String)
      → claim_for_generation clock now k t ≡ (ok r, t')
      → (r₀ : ReferenceRecording) × (recording_at k t ≡ some r₀)
        × (r₀.state ≡ validated)
        × (clock.instant now < clock.instant r₀.expires_at)
        × (recording_at k t' ≡ some (with_state now consumed r₀))
        × (claim_for_generation clock later k t' ≡ (err invalid_reference_transition, t'))
  claim-once later h = elim (Option-cases (recording_at k t)) [
    | inl missing ↦ absurd (unclaimed missing h)
    | inr (r₀, found) ↦
        let (v, d, p) = claimed found h in
        let m = ap (recording_at k) p ∙ marked found in (r₀, found, v, d, m, refused later r₀ m)
  ]

  -- A claim of an expired recording is refused, and the mark `expired` that the code writes first is
  -- rolled back with its transaction: the table is as it was.
  pub claim_expired-unchanged :
      (r : ReferenceRecording)
      → recording_at k t ≡ some r
      → r.state ≡ validated
      → clock.instant r.expires_at ≤ clock.instant now
      → claim_for_generation clock now k t ≡ (err invalid_reference_transition, t)
  unfolding claim_for_generation transaction
  claim_expired-unchanged r found s due = ground arith
