-- ===== src/Workers/Tests.antt =====
-- The results on leases, applied to a concrete Worker and its answers.
use tts_studio.Base.{◌≡◌, ◌⊎◌, refl, true, false, none, some, List, [], ◌∷◌}
use tts_studio.Base.Exec.{ok}
use tts_studio.Workers.Domain.{WorkerCapabilities, DescribeResponse, WorkerError, contains}
use tts_studio.Workers.Capabilities.{protocol_compatible, worker_capabilities, is_capability_name}
use tts_studio.Workers.Lease.{Session, Worker, new_lease, Answers, Reply, load_model}
use tts_studio.Workers.Streams.{Closing, event, close_lease}
use tts_studio.Workers.Loading.{Taken, held, load_model-holds}
use tts_studio.Workers.Calls.{Call, loads, synthesizes, reads, run}
use tts_studio.Workers.Pool.{Pool, Replica, ready, acquire, has, may_be_ready}
use tts_studio.Workers.Pool.Exclusive
use tts_studio.Workers.Pool.Exclusive.{
  IsLeaseOf, Step, Shared, acquires, quarantines, releases, removes, starts, acquire-IsLeaseOf,
  is_exclusive,
}
use tts_studio.Workers.Slot.{IsConsistent}
use tts_studio.Workers.Sessions.{run-IsConsistent, close_lease-frees}

abbrev capabilities : WorkerCapabilities
capabilities = record {
  engine_id = "engine";
  engine_version = "1";
  supported = "s" ∷ [];
  max_concurrency = 1;
  alignment = none;
}

abbrev worker : Worker
worker = record {
  engine_id = "engine";
  capabilities = record capabilities { supported = [] };
  loaded_model_id = none;
  quarantined = false;
  terminated = false;
}

abbrev description : DescribeResponse
description = record {
  protocol = record { major = 1; minor = 1 };
  engine_id = "engine";
  engine_version = "1";
  capabilities = record { name = "s"; supported = true } ∷ [];
  max_concurrency = 1;
  alignment = none;
}

abbrev no_error : WorkerError
no_error = record { code = ""; has_message = false; retryable = false }

abbrev done : Reply
done = record { done = true; error = no_error }

abbrev busy : Reply
busy = record { done = false; error = record no_error { code = "synthesis_busy" } }

abbrev answers : Answers
answers = record {
  load = ok done;
  describe = some (ok description);
  unload = ok done;
  hard_stop = none;
}

-- The Worker speaks a protocol that the Core does not know.
abbrev too_new : Answers
too_new = record answers {
  describe = some (ok (record description { protocol = record { major = 1; minor = 2 } }));
}

abbrev session : Session
session = new_lease worker

abbrev loaded : Session
loaded = record session {
  model_id = some "m";
  loaded_model_id = some "m";
  capabilities = capabilities;
  worker_capabilities = capabilities;
}

load_model-holds_example :
    (session.quarantined ≡ false)
    × (loaded.model_id ≡ some "m")
    × (((session.model_id ≡ some "m") × (loaded ≡ session))
        ⊎ ((session.model_id ≡ none)
            × ((r : Reply) × (answers.load ≡ ok r) × (r.done ≡ true))
            × Taken "m" answers session loaded))
unfolding load_model protocol_compatible worker_capabilities is_capability_name contains
load_model-holds_example = load_model-holds "m" answers session loaded refl

abbrev unloaded : Session
unloaded = record session { unloaded_model_id = some "m" }

abbrev closing : Closing
closing = record {
  cancel = ok tt;
  answers = ok busy ∷ [];
  hard_stop = some (record { result = ok tt; quarantined = true; terminated = true });
}

-- Two syntheses, of which the second is refused, an event, and a load that is refused.
abbrev history : List Call
history =
    loads "m" answers
    ∷ synthesizes "m" (ok tt)
    ∷ synthesizes "m" (ok tt)
    ∷ reads 0 (event false) closing
    ∷ loads "n" answers
    ∷ []

run-IsConsistent_example : IsConsistent (run (new_lease worker) history)
run-IsConsistent_example = run-IsConsistent worker history

close_lease-frees_example :
    (close_lease closing (run (new_lease worker) history)).1.synthesis_active ≡ false
close_lease-frees_example = close_lease-frees worker history closing

-- Two replicas of an engine, of which replica 0 is leased and the Worker of replica 1 is free.
abbrev pool : Pool
pool = record {
  primary = some 10;
  replicas = record { replica_id = 0; worker = 10 } ∷ record { replica_id = 1; worker = 11 } ∷ [];
  quarantined = [];
  terminated = [];
  leased = 0 ∷ [];
  statuses = record { replica_id = 1; ready = true } ∷ [];
  diagnostic = some ready;
  is_stopping = false;
}

abbrev second : Replica
second = record { replica_id = 1; worker = 11 }

acquire-IsLeaseOf_example : IsLeaseOf second pool (acquire false pool).1
unfolding acquire has may_be_ready
acquire-IsLeaseOf_example = acquire-IsLeaseOf false pool (acquire false pool).1 second refl

abbrev shared : Shared
shared = record { pool = record pool { leased = [] }; held = [] }

abbrev steps : List Step
steps =
    acquires true
    ∷ acquires false
    ∷ quarantines second
    ∷ releases 0
    ∷ removes second
    ∷ starts 1 none 12
    ∷ acquires true
    ∷ []

run-IsExclusive_example : is_exclusive (Exclusive.run steps shared).held ≡ true
run-IsExclusive_example = Exclusive.run-IsExclusive steps shared refl refl
