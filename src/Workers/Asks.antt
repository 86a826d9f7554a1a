-- ===== src/Workers/Asks.antt =====
-- src/tts_studio/workers/generation.py: what `GrpcWorkerLease` asks a Worker that holds a model.
use tts_studio.Base.{String, Bool, true, not, ◌&&◌, Option, none, some, is_some, if◌then◌else◌}
use tts_studio.Base.Exec.{
  Result, ok, err, Exec, pure, lift, gets, raise_if, ◌>>=◌, ◌>>◌, runtime_error, worker_operation,
}
use tts_studio.Workers.Domain.{WorkerCapabilities, WorkerError, WireResult, Wire, supports}
use tts_studio.Workers.Alignment.{alignment_result_error}
use tts_studio.Workers.Lease.{Session, Act, ensure_loaded_model}

-- A response that may carry an error.
pub record Answer (A : Type 0) : Type 0 where
  pub error : Option WorkerError
  pub value : A

abbrev pub no_error : {A : Type 0} → Answer A → Exec Session A
no_error a s = if is_some a.error then (err worker_operation, s) else (ok a.value, s)

-- `list_voices`.
unfoldable pub list_voices : {A : Type 0} → Result (Answer A) → Exec Session A
list_voices answer = do
  loaded ← gets (λ s. is_some s.model_id)
  raise_if (not loaded) runtime_error
  a ← lift answer
  no_error a

-- `validate_reference`: the error of an answer without one is empty, so that a reference which is
-- not valid is then no typed error.
unfoldable pub validate_reference : String → Result (Answer Bool) → Act
validate_reference id answer = do
  ensure_loaded_model id
  a ← lift answer
  valid ← no_error a
  raise_if (not valid) runtime_error

abbrev has_alignment : WorkerCapabilities → Bool
has_alignment c = supports "alignment" c && is_some c.alignment

abbrev malformed : Wire → String → WorkerCapabilities → Option WireResult → Bool
malformed wire transcript c none = true
malformed wire transcript c (some r) =
    is_some (alignment_result_error wire r transcript c.alignment)

-- `align`.
unfoldable pub align :
    Wire → String → String → Result (Answer (Option WireResult)) → Exec Session (Option WireResult)
align wire id transcript answer = do
  ensure_loaded_model id
  able ← gets (λ s. has_alignment s.capabilities)
  raise_if (not able) worker_operation
  a ← lift answer
  r ← no_error a
  bad ← gets (λ s. malformed wire transcript s.capabilities r)
  raise_if bad worker_operation
  pure r
