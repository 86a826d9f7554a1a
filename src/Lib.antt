-- ===== src/Lib.antt =====
-- TTS Studio: a model of the durable state of the Core, and of the audio path to a WAV file.
--
-- A client asks the Core for speech. The Core keeps each request as a Generation Job in SQLite
-- (src/tts_studio/generation/registry.py), runs one asyncio task for each job
-- (src/tts_studio/generation/scheduler.py), takes the PCM stream of an engine's Worker through a
-- validator and a queue with a byte budget (src/tts_studio/generation/audio.py), stages it and
-- publishes it as a WAV file (src/tts_studio/generation/wav.py), records an Audio Artifact and an
-- alignment of its text in the registry, and appends events to a pruned event store
-- (src/tts_studio/events.py). A job may consume a short-lived Reference Recording
-- (src/tts_studio/references/registry.py).
--
-- The parts and their files:
-- - Base: what the parts share. Base/Exec is a computation on a state that can raise;
--   `transaction` and `read` are those of src/tts_studio/storage/db.py: a computation that raises leaves
--   the state as it was. Base/Table is a table by its primary key, as a list: SELECT, UPDATE and DELETE
--   by key. Base/Outcomes says how what holds at the two ends of a computation composes. Base/Int and
--   Base/Json are the integers and JSON values of Python. A float is its 64 bits.
-- - Registry/Domain: the rows of src/tts_studio/generation/domain.py, the tables, and the transitions
--   of a job. Registry/Jobs, Registry/Artifacts, Registry/Alignments and Registry/Alignments/Runs: the
--   methods of `GenerationRegistry` under their own names; Registry/Paths and Registry/Shape: the
--   checks of a managed path and of an alignment. Registry/Evolution says how one job may differ
--   between two databases; Registry/Calls runs a history of calls.
-- - Audio/Pcm: `PcmValidator`; Audio/Queue: `ByteBudgetQueue`. A put or get that awaits is an outcome
--   `waits`, and is tried again later, as the loop under the condition does.
-- - Events/Text: the text that no event may carry; Events/Payload: the rules of a payload; Events/Store
--   and Events/Progress: `EventStore`; Events/Log: the log of all events that were ever stored, which
--   the store is measured against.
-- - References: `ReferenceRegistry`.
-- - Wav/Header: the RIFF header and a reader of its fields; Wav/Writer: `WavArtifactWriter` over the
--   files that it works on.
-- - Scheduler: `GenerationScheduler` over the tasks that are live.
-- - Settings: the settings record, its row and `SettingsService`; Settings/Retention: clearing the
--   retained artifacts, over an interface that the generation service fills.
-- - Models/Domain, Models/Downloads, Models/Engines, Models/Installations and Models/Activate: the rows
--   and methods of `ModelRegistry` (src/tts_studio/models/registry.py), Models/Paths its check of a
--   path; Models/Calls runs a history of calls, and Models/Evolution says how one Download Job may
--   differ after it.
-- - Workers/Lease, Workers/Asks and Workers/Streams: `GrpcWorkerLease` and its synthesis stream
--   (src/tts_studio/workers/generation.py); Workers/Alignment: its check of an alignment;
--   Workers/Capabilities: what src/tts_studio/workers/supervisor.py makes of a Worker's description;
--   Workers/Domain: the messages; Workers/Calls runs a history of calls on a lease.
-- - Workers/Pool: the replicas and the leases that `WorkerSupervisor` of
--   src/tts_studio/workers/supervisor.py keeps for one engine; the number of restarts and the texts of a
--   diagnostic are left out.
-- - Generation/Alignment: the checks and the translation of a Worker's alignment by
--   src/tts_studio/generation/service.py, between the lease and the registry.
-- - Generation/State: the stores that `GenerationService` of that file writes, with its helpers `get`,
--   `_publish`, `_transition`, `_cancel_job`, `_fail_job`, `_get_model` and `_release_reference`.
--   Generation/Create: `create`. Generation/Run: the `try` of `_run_job`, Generation/Ending its `except`
--   clauses and its `finally`, Generation/Stream `_consume_stream`; Generation/Pcm: `subscribe_pcm`, the
--   chunks that a subscriber is sent and the replay. What a task awaits is an answer: what the other
--   tasks do to the stores meanwhile, and the value or the error that comes. Generation/Kept,
--   Generation/Pieces, Generation/Steps, Generation/Finals, Generation/Ends, Generation/Cleaned and
--   Generation/Finished follow the state of a job through a run, part by part.
-- - Providers/Egress: the policy of src/tts_studio/providers/egress.py; Providers/Profiles: the checks of
--   src/tts_studio/providers/service.py; Providers/Table: `ProviderRegistry`
--   (src/tts_studio/providers/registry.py) over its table and the Generation Jobs.
-- - Server/Sse: `iter_sse_events` of src/tts_studio/server/events.py, over the event store.
-- - The Tests of each part apply its results to concrete data.
--
-- The operations are total functions by structural recursion: no fuel is used. What the outside does
-- while a loop runs is an explicit list: the store and the client at each round of the event stream,
-- and the answers of a Worker while a synthesis is cancelled, which end when the time is up. The ids
-- that `uuid4` makes and the time of a call are arguments.
--
-- Parameters stand for what is not in the repository: the size that `json.dumps` gives a value
-- (`Encoding`), `str.casefold` and the word characters of Unicode (`TextRules`), the order of time
-- stamps (`Clock`), the rounding of a percentage to a float (`Percent`), SQLite's LIKE on a reference's
-- path, the ORDER BY of `expire`, and for the WAV writer the output of the `wave` module and the digest
-- (`Tools`) and what each system call comes to (`System`). `int` of a float and of a text is `Numbers`,
-- the size of a message and the strict decoding of bytes are `Wire`, and what a Worker answers is an
-- argument of each call on its lease. `Net` is what Python's library makes of a URL, a host and an
-- address. The results hold for every value of a parameter, but for what a result assumes of it.
--
-- Not modelled: the texts of error messages, list_jobs, list_history and other reads that only
-- order rows, SQLite's limit of 64 bits, interleavings inside one transaction, which SQLite
-- excludes, calls on a lease that overlap while one of them waits, the migrations but for the keys
-- that they declare, the bytes of the files that the service opens, deletes and restores, the task
-- of an alignment, retry and recovery of src/tts_studio/generation/service.py, and the parts above
-- these: the processes of the workers and their restarts, the activation of model files, the voices,
-- the HTTP routes, the client and the services.
pub mod Base
pub mod Registry
pub mod Audio
pub mod Events
pub mod References
pub mod Wav
pub mod Scheduler
pub mod Settings
pub mod Models
pub mod Workers
pub mod Generation
pub mod Server
pub mod Providers
