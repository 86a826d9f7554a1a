-- ===== src/Workers/Pool/Exclusive.antt =====
-- A replica is leased to one at a time, and only while it is fit.
use mathlib.Core.Path.{subst}
use tts_studio.Base.{
  ℕ, Bool, ◌≡◌, refl, true, false, Option, none, some, List, [], ◌∷◌, arith, Bool-cases, inl, inr,
  ◌&&◌, not, ap, sym, ◌∙◌, ◌==◌, if◌then◌else◌, ◌≢◌,
}
use tts_studio.Base.Exec.{Error}
use tts_studio.Workers.Pool.{
  Pool, Replica, has, discard, keep, is_admissible, candidates, admissible_replicas, acquire,
  leases, waits, raises, Turn, release, start, quarantine, expire, remove, may_be_ready, is_empty,
  select,
}

-- The pool, and the replicas whose leases its clients hold.
pub record Shared : Type 0 where
  pub pool : Pool
  pub held : List ℕ

-- What the clients, the starts and the ends of Workers do. A client releases a lease that it holds.
pub data Step : Type 0 where
  acquires : (wait : Bool) → Step
  releases : ℕ → Step
  starts : (id : ℕ) (problem : Option Error) (worker : ℕ) → Step
  quarantines expires removes : Replica → Step

-- One lease ends.
unfoldable pub drop_one : ℕ → List ℕ → List ℕ
drop_one n [] = []
drop_one n (m ∷ ms) = if m == n then ms else m ∷ drop_one n ms

-- A client that is given a replica holds it.
abbrev pub given : Turn × Pool → List ℕ → Shared
given (leases r, p) held = record { pool = p; held = r.replica_id ∷ held }
given (waits, p) held = record { pool = p; held = held }
given (raises e, p) held = record { pool = p; held = held }

unfoldable pub step : Step → Shared → Shared
unfolding acquire release start quarantine expire remove drop_one
step (acquires wait) c = given (acquire wait c.pool) c.held
step (releases id) c =
    if has id c.held then record { pool = release id c.pool; held = drop_one id c.held } else c
step (starts id e w) c = record c { pool = (start id e w c.pool).1 }
step (quarantines r) c = record c { pool = (quarantine r c.pool).1 }
step (expires r) c = record c { pool = expire r c.pool }
step (removes r) c = record c { pool = remove r c.pool }

unfoldable pub run : List Step → Shared → Shared
unfolding step
run [] c = c
run (s ∷ ss) c = run ss (step s c)

-- No replica is held twice.
unfoldable pub is_exclusive : List ℕ → Bool
is_exclusive [] = true
is_exclusive (n ∷ ns) = not (has n ns) && is_exclusive ns

has-discard : (n m : ℕ) (ns : List ℕ) → has n ns ≡ false → has n (discard m ns) ≡ false
unfolding has discard
has-discard n m [] h = refl
has-discard n m (x ∷ xs) h = ground (arith, has-discard n m xs)

is_exclusive-discard :
    (m : ℕ) (ns : List ℕ) → is_exclusive ns ≡ true → is_exclusive (discard m ns) ≡ true
unfolding is_exclusive discard
is_exclusive-discard m [] h = refl
is_exclusive-discard m (x ∷ xs) h = ground (arith, has-discard x m xs, is_exclusive-discard m xs)

discard_absent : (m : ℕ) (ns : List ℕ) → has m ns ≡ false → discard m ns ≡ ns
unfolding has discard
discard_absent m [] h = refl
discard_absent m (x ∷ xs) h = ground (arith, discard_absent m xs)

drop_one-discard : (m : ℕ) (ns : List ℕ) → is_exclusive ns ≡ true → drop_one m ns ≡ discard m ns
unfolding is_exclusive discard drop_one
drop_one-discard m [] h = refl
drop_one-discard m (x ∷ xs) h = ground (arith, drop_one-discard m xs, discard_absent m xs)

first_kept :
    (test : Replica → Bool) (rs : List Replica) (r : Replica) (more : List Replica)
    → keep test rs ≡ r ∷ more
    → test r ≡ true
unfolding keep
first_kept test [] r more h = absurd (ground arith)
first_kept test (x ∷ xs) r more h = elim (Bool-cases (test x)) [
  | inl e ↦ ground (arith)
  | inr e ↦ first_kept test xs r more (ground arith)
]

-- What a lease says of its replica, and of the pool after it.
abbrev pub IsLeaseOf : Replica → Pool → Pool → Type 0
IsLeaseOf r p q =
    (has r.replica_id p.leased ≡ false)
    × (has r.worker p.quarantined ≡ false)
    × (may_be_ready r.replica_id p.statuses ≡ true)
    × (q.leased ≡ r.replica_id ∷ p.leased)

admissible_fit :
    (p : Pool) (r : Replica)
    → is_admissible false p r ≡ true
    → (has r.replica_id p.leased ≡ false)
      × (has r.worker p.quarantined ≡ false)
      × (may_be_ready r.replica_id p.statuses ≡ true)
admissible_fit p r h = (ground arith, ground arith, ground arith)

select-leases :
    (primary : Option ℕ) (rs : List Replica) (p q : Pool) (r : Replica)
    → select primary rs p ≡ (leases r, q)
    → ((more : List Replica) × (rs ≡ r ∷ more)) × (q.leased ≡ r.replica_id ∷ p.leased)
unfolding select
select-leases none rs p q r h = absurd (ground arith)
select-leases (some w) [] p q r h = absurd (ground arith)
select-leases (some w) (x ∷ xs) p q r h = ((xs, ground arith), ground arith)

-- A turn of `acquire` that leases.
acquire-select :
    (wait : Bool) (p q : Pool) (r : Replica)
    → acquire wait p ≡ (leases r, q)
    → select p.primary (admissible_replicas false p) p ≡ (leases r, q)
unfolding acquire
acquire-select wait p q r h = ground arith

-- When `acquire` leases a replica, it was not leased, its Worker is not quarantined, its status is not
-- known or ready, and the lease is the one added.
pub acquire-IsLeaseOf :
    (wait : Bool) (p q : Pool) (r : Replica) → acquire wait p ≡ (leases r, q) → IsLeaseOf r p q
unfolding admissible_replicas
acquire-IsLeaseOf wait p q r h =
    let chosen =
      select-leases p.primary (admissible_replicas false p) p q r (acquire-select wait p q r h) in
    let passed = first_kept (is_admissible false p) (candidates p) r chosen.0.0 chosen.0.1 in
    let fit = admissible_fit p r passed in (fit.0, fit.1, fit.2, chosen.1)

-- A turn that does not lease leaves the pool as it is.
select_other :
    (primary : Option ℕ) (rs : List Replica) (p q : Pool) (t : Turn)
    → ((r : Replica) → t ≢ leases r)
    → select primary rs p ≡ (t, q)
    → q ≡ p
unfolding select
select_other none rs p q t other h = ground arith
select_other (some w) [] p q t other h = ground arith
select_other (some w) (r ∷ rs) p q t other h = absurd (other r (ground arith))

not_leased :
    (t : Turn) (wait : Bool) (p q : Pool)
    → acquire wait p ≡ (t, q)
    → ((r : Replica) → t ≢ leases r)
    → q.leased ≡ p.leased
unfolding acquire
not_leased t wait p q h other = elim (Bool-cases (wait && is_empty (admissible_replicas false p))) [
  | inl e ↦ ground arith
  | inr e ↦
      ap (λ x. x.leased)
        (select_other p.primary (admissible_replicas false p) p q t other (ground arith))
]

-- The marks of the pool are the leases that are held, each once.
abbrev IsMarked : Shared → Type 0
IsMarked c = (c.pool.leased ≡ c.held) × (is_exclusive c.held ≡ true)

start_leased : (id : ℕ) (e : Option Error) (w : ℕ) (p : Pool) → (start id e w p).1.leased ≡ p.leased
unfolding start
start_leased id none w p = ground arith
start_leased id (some e) w p = ground arith

given-IsMarked :
    (r : Turn × Pool) (wait : Bool) (c : Shared)
    → acquire wait c.pool ≡ r
    → IsMarked c
    → IsMarked (given r c.held)
unfolding is_exclusive
given-IsMarked (leases x, q) wait c e (m, u) =
    let (free, _, _, grown) = acquire-IsLeaseOf wait c.pool q x e in
    let absent = subst (λ t. has x.replica_id t ≡ false) m free in
    (grown ∙ ap (λ t. x.replica_id ∷ t) m, ground arith)
given-IsMarked (waits, q) wait c e (m, u) = (not_leased waits wait c.pool q e (λ r h. cc) ∙ m, u)
given-IsMarked (raises x, q) wait c e (m, u) =
    (not_leased (raises x) wait c.pool q e (λ r h. cc) ∙ m, u)

release-IsMarked :
    (id : ℕ) (c : Shared)
    → IsMarked c
    → IsMarked (record { pool = release id c.pool; held = drop_one id c.held })
unfolding release
release-IsMarked id c (m, u) =
    let same = drop_one-discard id c.held u in
    (
      ap (discard id) m ∙ sym same,
      subst (λ t. is_exclusive t ≡ true) (sym same) (is_exclusive-discard id c.held u),
    )

step-IsMarked : (s : Step) (c : Shared) → IsMarked c → IsMarked (step s c)
unfolding step quarantine expire remove
step-IsMarked (acquires wait) c h = given-IsMarked (acquire wait c.pool) wait c refl h
step-IsMarked (releases id) c h = elim (Bool-cases (has id c.held)) [
  | inl e ↦ rw e (release-IsMarked id c h)
  | inr e ↦ rw e h
]
step-IsMarked (starts id e w) c (m, u) = (start_leased id e w c.pool ∙ m, u)
step-IsMarked (quarantines r) c (m, u) = (ground arith, u)
step-IsMarked (expires r) c (m, u) = (ground arith, u)
step-IsMarked (removes r) c (m, u) = (ground arith, u)

run-IsMarked : (ss : List Step) (c : Shared) → IsMarked c → IsMarked (run ss c)
unfolding run
run-IsMarked [] c h = h
run-IsMarked (s ∷ ss) c h = run-IsMarked ss (step s c) (step-IsMarked s c h)

-- From a pool that nobody holds a lease of, no replica is ever held by two leases, over every history
-- of leases, their releases, starts, quarantines, exits and removals.
pub run-IsExclusive :
    (ss : List Step) (c : Shared)
    → c.held ≡ []
    → c.pool.leased ≡ []
    → is_exclusive (run ss c).held ≡ true
unfolding is_exclusive
run-IsExclusive ss c none_held unmarked =
    (run-IsMarked ss c (unmarked ∙ sym none_held, ground arith)).1
