-- ===== src/Workers/Lease.antt =====
-- src/tts_studio/workers/generation.py: `GrpcWorkerLease`, as far as it loads and unloads a model and
-- asks the Worker something. What the Worker answers is an argument of a method, and an answer that
-- does not come is an error. No other call on the lease runs while a method waits.
use tts_studio.Base.{
  ℕ, String, Bool, false, not, ◌&&◌, ◌||◌, Option, none, some, List, [], ◌==◌, str_eq, opt_eq,
  is_some, if◌then◌else◌,
}
use tts_studio.Base.Exec.{
  Result, ok, err, Exec, pure, raise, lift, gets, raise_if, modify, ◌>>=◌, ◌>>◌, runtime_error,
  worker_operation, model_mismatch,
}
use tts_studio.Workers.Domain.{WorkerCapabilities, DescribeResponse, WorkerError}
use tts_studio.Workers.Capabilities.{protocol_major, protocol_compatible, worker_capabilities}

-- A `_LeaseSynthesisStream`: whether it has ended, and how its closing ended.
pub record Stream : Type 0 where
  pub terminal : Bool
  pub outcome : Option (Result (Unit {0}))

-- The fields of the lease, then those of its `WorkerProcess`. A stream is named by its place among
-- the streams that the lease has made.
pub record Session : Type 0 where
  pub capabilities : WorkerCapabilities
  pub model_id : Option String
  pub synthesis_active : Bool
  pub synthesis_stream : Option ℕ
  pub unloaded_model_id : Option String
  pub streams : List Stream
  pub engine_id : String
  pub loaded_model_id : Option String
  pub quarantined : Bool
  pub terminated : Bool
  pub worker_capabilities : WorkerCapabilities

-- A Worker process, as the lease finds it.
pub record Worker : Type 0 where
  pub engine_id : String
  pub capabilities : WorkerCapabilities
  pub loaded_model_id : Option String
  pub quarantined : Bool
  pub terminated : Bool

-- `GrpcWorkerLease.__init__`.
abbrev pub new_lease : Worker → Session
new_lease w = record {
  capabilities = w.capabilities;
  model_id = w.loaded_model_id;
  synthesis_active = false;
  synthesis_stream = none;
  unloaded_model_id = none;
  streams = [];
  engine_id = w.engine_id;
  loaded_model_id = w.loaded_model_id;
  quarantined = w.quarantined;
  terminated = w.terminated;
  worker_capabilities = w.capabilities;
}

-- A response that says whether the Worker did it.
pub record Reply : Type 0 where
  pub done : Bool
  pub error : WorkerError

-- How a hard stop ended, and the marks that it left on the process.
pub record HardStop : Type 0 where
  pub result : Result (Unit {0})
  pub quarantined : Bool
  pub terminated : Bool

-- What the outside answers to `load_model` and `unload_model`; a stub may know no `Describe`, and a
-- lease may have no `hard_stop`.
pub record Answers : Type 0 where
  pub load : Result Reply
  pub describe : Option (Result DescribeResponse)
  pub unload : Result Reply
  pub hard_stop : Option HardStop

abbrev pub Act : Type 0
Act = Exec Session (Unit {0})

-- `_ensure_model_identity`.
unfoldable pub ensure_model_identity : String → Act
ensure_model_identity id s =
    if s.quarantined
    then (err runtime_error, s)
    else if is_some s.model_id && not (opt_eq s.model_id (some id))
    then (err model_mismatch, s)
    else (ok tt, s)

-- `_ensure_loaded_model`.
unfoldable pub ensure_loaded_model : String → Act
unfolding ensure_model_identity
ensure_loaded_model id = do
  loaded ← gets (λ s. is_some s.model_id)
  raise_if (not loaded) runtime_error
  ensure_model_identity id

-- Whether `_raise_worker_error` raises a `WorkerOperationError`.
abbrev pub is_typed : WorkerError → Bool
is_typed e = not (str_eq e.code "") || e.has_message

-- `self._model_id = self._worker.loaded_model_id = value`.
abbrev pub with_model : Option String → Session → Session
with_model m s = record s { model_id = m; loaded_model_id = m }

abbrev pub unloaded : String → Session → Session
unloaded id s = record (with_model none s) { unloaded_model_id = some id }

abbrev pub stopped : HardStop → Session → Session
stopped h s = record s { quarantined = h.quarantined; terminated = h.terminated }

-- `await self._hard_stop()`.
abbrev pub stop : HardStop → Act
stop h s = (h.result, stopped h s)

-- The codes of a failed unload that a hard stop makes good.
abbrev pub is_stoppable : String → Bool
is_stoppable code = str_eq code "model_unload_failed" || str_eq code "synthesis_busy"

-- The Worker did not unload the model: it has none, or it is stopped, or the error goes on.
unfoldable pub not_unloaded : WorkerError → Option HardStop → Act
not_unloaded e h =
    if not (is_typed e)
    then raise runtime_error
    else if str_eq e.code "model_not_loaded"
    then modify (with_model none) >> raise worker_operation
    else if not (is_stoppable e.code)
    then raise worker_operation
    else elim h [ none ↦ raise worker_operation | some stopping ↦ stop stopping ]

abbrev pub unload_answered : String → Reply → Option HardStop → Act
unload_answered id r h = do if r.done then pure tt else not_unloaded r.error h; modify (unloaded id)

-- `unload_model` of a process that has ended.
unfoldable pub unload_terminated : String → Act
unload_terminated id s =
    if is_some s.model_id && not (opt_eq s.model_id (some id))
    then (err model_mismatch, s)
    else (ok tt, unloaded id s)

unfoldable pub unload_running : String → Answers → Act
unfolding ensure_loaded_model not_unloaded
unload_running id a = do ensure_loaded_model id; r ← lift a.unload; unload_answered id r a.hard_stop

unfoldable pub unload_model : String → Answers → Act
unfolding unload_terminated unload_running
unload_model id a s =
    if s.terminated
    then unload_terminated id s
    else if not (is_some s.model_id) && opt_eq s.unloaded_model_id (some id)
    then (ok tt, s)
    else unload_running id a s

-- What the Worker says of itself after the load must fit the protocol and its engine.
unfoldable pub check_facts : String → DescribeResponse → Result WorkerCapabilities
check_facts engine_id d =
    if not (d.protocol.major == protocol_major)
      || not (protocol_compatible d.protocol)
      || not (str_eq d.engine_id engine_id)
    then err runtime_error
    else worker_capabilities d

abbrev pub facts_of : String → Result DescribeResponse → Result WorkerCapabilities
facts_of engine_id (ok d) = check_facts engine_id d
facts_of engine_id (err e) = err e

-- The capabilities are taken over, or the model is unloaded, whatever comes of that, and the error
-- goes on.
abbrev pub take_over : String → Answers → Result WorkerCapabilities → Act
take_over id a (ok c) s = (ok tt, record s { capabilities = c; worker_capabilities = c })
take_over id a (err e) s = (err e, (unload_model id a s).1)

abbrev pub refresh : String → Answers → Act
refresh id a s = elim a.describe [
  | none ↦ (ok tt, s)
  | some d ↦ take_over id a (facts_of s.engine_id d) s
]

abbrev pub load_answered : String → Answers → Reply → Act
load_answered id a r =
    if r.done
    then modify (with_model (some id)) >> refresh id a
    else raise (if is_typed r.error then worker_operation else runtime_error)

abbrev pub load_now : String → Answers → Act
load_now id a = do r ← lift a.load; load_answered id a r

unfoldable pub load_model : String → Answers → Act
unfolding ensure_model_identity unload_model check_facts
load_model id a = do
  ensure_model_identity id
  there ← gets (λ s. opt_eq s.model_id (some id))
  if there then pure tt else load_now id a
