-- ===== src/Base/Exec.antt =====
-- Python code that reads and writes a store and may raise: what was written before a raise stays
-- written, so the store comes back beside the error too.
use mathlib.Core.Path.{◌≡◌, refl, sym, ap}
use mathlib.Core.Logic.{◌⊎◌, inl, inr}
use native.Mathlib.Omega.{arith}
use mathlib.Core.Bool.{Bool, true, false}
use mathlib.Core.Option.{Option, none, some}
use Prim.Native.String.{String}

-- The exception classes that the modelled code raises. Messages are not kept.
pub data Error : Type 0 where
  invalid_registry_data invalid_generation_transition record_not_found : Error
  invalid_reference_transition unsafe_event_payload audio_validation : Error
  integrity_error runtime_error type_error value_error queue_full os_error : Error
  unsafe_storage_path invalid_settings_data settings_validation : Error
  index_error invalid_download_transition saved_voice_not_found : Error
  provider_not_found provider_in_use invalid_provider_profile provider_egress : Error
  provider_secret_missing worker_operation worker_capacity model_mismatch : Error
  generation_capability generation_request malformed_alignment rpc_error timeout_error : Error
  generation_model_not_found generation_job_not_found generation_voice_not_found : Error
  generation_reference_not_found generation_retry cleanup_error reference_recovery_required : Error
  cancelled_error generation_cancelled : Error
  -- `_GenerationFailure`, and `WorkerOperationError` with the code and the flag that it carries.
  generation_failure : (code message : String) (retryable : Bool) → Error
  worker_failure : (code : String) (retryable : Bool) → Error

pub data Result {ℓ} (A : Type ℓ) : Type ℓ where
  ok : A → Result A
  err : Error → Result A

abbrev pub Exec {ℓ} : Type ℓ → Type ℓ → Type ℓ
Exec S A = S → Result A × S

module _ {ℓ} {S A : Type ℓ} where
  abbrev pub pure : A → Exec S A
  pure a s = (ok a, s)

  abbrev pub raise : Error → Exec S A
  raise e s = (err e, s)

  abbrev pub lift : Result A → Exec S A
  lift r s = (r, s)

  abbrev pub gets : (S → A) → Exec S A
  gets f s = (ok (f s), s)

  -- The row of a query that must find one.
  abbrev pub required : Error → Option A → Exec S A
  required e none s = (err e, s)
  required e (some a) s = (ok a, s)

module _ {ℓ} {S A B : Type ℓ} where
  abbrev pub continue : Result A × S → (A → Exec S B) → Result B × S
  continue (ok a, s) f = f a s
  continue (err e, s) f = (err e, s)

  infixl 10 ◌>>=◌ ◌>>◌
  abbrev pub ◌>>=◌ : Exec S A → (A → Exec S B) → Exec S B
  ◌>>=◌ m f s = continue (m s) f

  abbrev pub ◌>>◌ : Exec S A → Exec S B → Exec S B
  m >> n = m >>= λ _. n

-- `if test: raise error`.
abbrev pub raise_if : {S : Type 0} → Bool → Error → Exec S Unit
raise_if true e s = (err e, s)
raise_if false e s = (ok tt, s)

abbrev pub modify : {S : Type 0} → (S → S) → Exec S Unit
modify f s = (ok tt, f s)

-- `Database.transaction`: commit on a normal end, roll back on any exception.
abbrev pub settle {ℓ} : {S A : Type ℓ} → S → Result A × S → Result A × S
settle s (ok a, s') = (ok a, s')
settle s (err e, s') = (err e, s)

unfoldable pub transaction {ℓ} : {S A : Type ℓ} → Exec S A → Exec S A
transaction body s = settle s (body s)

-- `Database.read`: a snapshot that is always rolled back.
unfoldable pub read {ℓ} : {S A : Type ℓ} → Exec S A → Exec S A
read body s = ((body s).0, s)

pub Result-cases {ℓ} :
    {A : Type ℓ} (r : Result A) → ((a : A) × (r ≡ ok a)) ⊎ ((e : Error) × (r ≡ err e))
Result-cases (ok a) = inl (a, refl)
Result-cases (err e) = inr (e, refl)

continue-eq-ok {ℓ} :
    {S A B : Type ℓ} (r : Result A × S) (f : A → Exec S B) {b : B} {t : S}
    → continue r f ≡ (ok b, t)
    → (a : A) × (s : S) × (r ≡ (ok a, s)) × (f a s ≡ (ok b, t))
continue-eq-ok (ok a, s) f h = (a, s, refl, h)
continue-eq-ok (err e, s) f h = cc

-- The parts of a block that has not raised.
pub bind-eq-ok {ℓ} :
    {S A B : Type ℓ} (m : Exec S A) (f : A → Exec S B) (s : S) {b : B} {t : S}
    → ◌>>=◌ m f s ≡ (ok b, t)
    → (a : A) × (s' : S) × (m s ≡ (ok a, s')) × (f a s' ≡ (ok b, t))
bind-eq-ok m f s h = continue-eq-ok (m s) f h

continue-eq-err {ℓ} :
    {S A B : Type ℓ} (r : Result A × S) (f : A → Exec S B) {e : Error} {t : S}
    → continue r f ≡ (err e, t)
    → (r ≡ (err e, t)) ⊎ ((a : A) × (s : S) × (r ≡ (ok a, s)) × (f a s ≡ (err e, t)))
continue-eq-err (ok a, s) f h = inr (a, s, refl, h)
continue-eq-err (err e, s) f h = inl (ground arith)

-- Where a block that raised has raised.
pub bind-eq-err {ℓ} :
    {S A B : Type ℓ} (m : Exec S A) (f : A → Exec S B) (s : S) {e : Error} {t : S}
    → ◌>>=◌ m f s ≡ (err e, t)
    → (m s ≡ (err e, t)) ⊎ ((a : A) × (s' : S) × (m s ≡ (ok a, s')) × (f a s' ≡ (err e, t)))
bind-eq-err m f s h = continue-eq-err (m s) f h

settle-eq-ok {ℓ} :
    {S A : Type ℓ} (s : S) (r : Result A × S) {a : A} {t : S}
    → settle s r ≡ (ok a, t)
    → r ≡ (ok a, t)
settle-eq-ok s (ok a, t) h = h
settle-eq-ok s (err e, t) h = cc

-- A transaction that has committed has run its body to the end.
pub transaction-eq-ok {ℓ} :
    {S A : Type ℓ} (body : Exec S A) (s : S) {a : A} {t : S}
    → transaction body s ≡ (ok a, t)
    → body s ≡ (ok a, t)
unfolding transaction
transaction-eq-ok body s h = settle-eq-ok s (body s) h

settle-eq-err {ℓ} :
    {S A : Type ℓ} (s : S) (r : Result A × S) {e : Error} {t : S} → settle s r ≡ (err e, t) → t ≡ s
settle-eq-err s (ok a, t) h = absurd (cc)
settle-eq-err s (err e, t) h = sym (ap (λ r. r.1) h)

-- A transaction that has raised has written nothing.
pub transaction-eq-err {ℓ} :
    {S A : Type ℓ} (body : Exec S A) (s : S) {e : Error} {t : S}
    → transaction body s ≡ (err e, t)
    → t ≡ s
unfolding transaction
transaction-eq-err body s h = settle-eq-err s (body s) h
