-- ===== src/Workers/Pool.antt =====
-- src/tts_studio/workers/supervisor.py: the replicas that `WorkerSupervisor` keeps for one engine, and
-- their leases. A Worker is a number, its object's identity; what belongs to other engines is left out.
pub mod Exclusive
use tts_studio.Base.{
  ℕ, Bool, true, false, not, ◌&&◌, ◌||◌, Option, none, some, List, [], ◌∷◌, ◌++◌, ◌==◌, is_some,
  if◌then◌else◌, length,
}
use tts_studio.Base.Exec.{Error, runtime_error, worker_capacity, value_error}

-- An entry of `_replicas[engine_id]`.
pub record Replica : Type 0 where
  pub replica_id : ℕ
  pub worker : ℕ

-- An entry of `_replica_status`, by `WorkerStatus.ready`.
pub record Status : Type 0 where
  pub replica_id : ℕ
  pub ready : Bool

-- The key `status` of `_startup_diagnostics[engine_id]`.
pub data Diagnostic : Type 0 where
  ready restarting failed : Diagnostic

-- `primary` is `_workers.get(engine_id)`; `quarantined` and `terminated` are the flags of the Workers.
pub record Pool : Type 0 where
  pub primary : Option ℕ
  pub replicas : List Replica
  pub quarantined : List ℕ
  pub terminated : List ℕ
  pub leased : List ℕ
  pub statuses : List Status
  pub diagnostic : Option Diagnostic
  pub is_stopping : Bool

unfoldable pub has : ℕ → List ℕ → Bool
has n [] = false
has n (m ∷ ms) = m == n || has n ms

unfoldable pub discard : ℕ → List ℕ → List ℕ
discard n [] = []
discard n (m ∷ ms) = let rest = discard n ms in if m == n then rest else m ∷ rest

-- The status of a replica is not known, or is ready.
unfoldable pub may_be_ready : ℕ → List Status → Bool
may_be_ready id [] = true
may_be_ready id (s ∷ ss) =
    let rest = may_be_ready id ss in if s.replica_id == id then s.ready else rest

abbrev pub is_admissible : Bool → Pool → Replica → Bool
is_admissible include_leased p r =
    (include_leased || not (has r.replica_id p.leased))
    && not (has r.worker p.quarantined)
    && may_be_ready r.replica_id p.statuses

unfoldable pub keep : (Replica → Bool) → List Replica → List Replica
keep test [] = []
keep test (r ∷ rs) = let rest = keep test rs in if test r then r ∷ rest else rest

-- The replicas, or the only Worker of an engine that has none.
unfoldable pub candidates : Pool → List Replica
candidates p = elim p.replicas [
  | r ∷ rs ↦ r ∷ rs
  | [] ↦ elim p.primary [ none ↦ [] | some w ↦ record { replica_id = 0; worker = w } ∷ [] ]
]

-- `_admissible_replicas`.
unfoldable pub admissible_replicas : Bool → Pool → List Replica
unfolding candidates keep
admissible_replicas include_leased p = keep (is_admissible include_leased p) (candidates p)

abbrev is_restarting : Option Diagnostic → Bool
is_restarting (some restarting) = true
is_restarting _ = false

abbrev has_failed : Option Diagnostic → Bool
has_failed (some failed) = true
has_failed _ = false

abbrev pub is_empty : List Replica → Bool
is_empty [] = true
is_empty (r ∷ rs) = false

-- No replica is healthy, none is being restarted, and none is there or the last start has failed.
unfoldable pub is_unavailable : Pool → Bool
unfolding admissible_replicas
is_unavailable p =
    is_empty (admissible_replicas true p)
    && not (is_restarting p.diagnostic)
    && (is_empty p.replicas || has_failed p.diagnostic)

-- What a turn of `acquire` comes to.
pub data Turn : Type 0 where
  waits : Turn
  raises : Error → Turn
  leases : Replica → Turn

abbrev with_lease : Replica → Pool → Pool
with_lease r p = record p { leased = r.replica_id ∷ p.leased }

-- The part of `acquire` after its loop.
unfoldable pub select : Option ℕ → List Replica → Pool → Turn × Pool
select none rs p = (raises runtime_error, p)
select (some w) [] p = (raises worker_capacity, p)
select (some w) (r ∷ more) p = (leases r, with_lease r p)

-- One turn of `acquire`, under the condition: with `wait`, it waits until a replica is admissible or
-- none can become so.
unfoldable pub acquire : Bool → Pool → Turn × Pool
unfolding admissible_replicas is_unavailable select
acquire wait p =
    let rs = admissible_replicas false p in
    if wait && is_empty rs
    then (if p.is_stopping || is_unavailable p then raises runtime_error else waits, p)
    else select p.primary rs p

-- The end of a lease.
unfoldable pub release : ℕ → Pool → Pool
unfolding discard
release id p = record p { leased = discard id p.leased }

unfoldable pub has_replica : ℕ → List Replica → Bool
has_replica id [] = false
has_replica id (r ∷ rs) = r.replica_id == id || has_replica id rs

unfoldable pub without_replica : ℕ → List Replica → List Replica
without_replica id [] = []
without_replica id (r ∷ rs) =
    let rest = without_replica id rs in if r.replica_id == id then rest else r ∷ rest

abbrev pub set_status : ℕ → Bool → Pool → Pool
set_status id is_ready p = record p {
  statuses = record { replica_id = id; ready = is_ready } ∷ p.statuses;
}

-- `setdefault`.
abbrev or_primary : Option ℕ → ℕ → Option ℕ
or_primary none w = some w
or_primary (some v) w = some v

abbrev with_worker : ℕ → ℕ → Pool → Pool
with_worker id worker p = record (set_status id true p) {
  primary = or_primary p.primary worker;
  replicas = p.replicas ++ record { replica_id = id; worker = worker } ∷ [];
  diagnostic = some ready;
}

-- `_start_locked`: an id that is there is refused. The launch of the process and its handshake come to
-- a Worker, or to an error.
unfoldable start_locked : ℕ → Option Error → ℕ → Pool → Option Error × Pool
unfolding has_replica
start_locked id problem worker p =
    if has_replica id p.replicas
    then (some value_error, p)
    else (problem, if is_some problem then p else with_worker id worker p)

abbrev note_failure : Option Error × Pool → Option Error × Pool
note_failure (none, p) = (none, p)
note_failure (some e, p) = (some e, record p { diagnostic = some failed })

unfoldable pub start : ℕ → Option Error → ℕ → Pool → Option Error × Pool
unfolding start_locked
start id problem worker p =
    note_failure (start_locked id problem worker (record p { is_stopping = false }))

unfoldable pub is_owned : Replica → List Replica → Bool
is_owned r [] = false
is_owned r (x ∷ xs) = (x.replica_id == r.replica_id && x.worker == r.worker) || is_owned r xs

abbrev restarted : Replica → Pool → Pool
restarted r p = record (set_status r.replica_id false p) {
  quarantined = r.worker ∷ p.quarantined;
  diagnostic = some restarting;
}

-- The first part of `_hard_stop_owned_worker`: a Worker that did not drain is quarantined.
unfoldable pub quarantine : Replica → Pool → Option Error × Pool
unfolding is_owned
quarantine r p =
    if has r.worker p.terminated
    then (none, p)
    else if is_owned r p.replicas
    then (none, restarted r p)
    else (some runtime_error, p)

-- What `_watch_worker` does when a Worker has exited or is not healthy.
unfoldable pub expire : Replica → Pool → Pool
unfolding is_owned
expire r p = if p.is_stopping || not (is_owned r p.replicas) then p else restarted r p

abbrev first_worker : List Replica → Option ℕ
first_worker [] = none
first_worker (r ∷ rs) = some r.worker

abbrev is_primary : Option ℕ → ℕ → Bool
is_primary none w = false
is_primary (some v) w = v == w

-- The Worker has been reaped, and leaves the maps.
unfoldable pub remove : Replica → Pool → Pool
unfolding is_owned without_replica
remove r p =
    let rest = without_replica r.replica_id p.replicas in
    if p.is_stopping || not (is_owned r p.replicas)
    then record p { terminated = r.worker ∷ p.terminated }
    else record p {
      terminated = r.worker ∷ p.terminated;
      replicas = rest;
      primary = if is_primary p.primary r.worker then first_worker rest else p.primary;
    }
