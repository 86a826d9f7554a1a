-- ===== src/Workers/Slot.antt =====
-- When a lease is consistent, and what each of its parts does to that.
use mathlib.Core.Path.{subst}
use mathlib.Core.Option.{some-injective}
use tts_studio.Base.{
  ℕ, zero, suc, String, ◌≡◌, refl, sym, ap, ◌∙◌, Bool, true, false, Option, none, some, arith, List,
  [], ◌∷◌, ◌++◌, inl, inr, Bool-cases, length, ◌==◌, ==_iff, if◌then◌else◌,
}
use tts_studio.Base.Exec.{Result}
use tts_studio.Workers.Lease.{
  Stream, Session, Answers, Reply, HardStop, ensure_model_identity, ensure_loaded_model, load_model,
  unload_model, unload_running, unload_terminated, not_unloaded, with_model,
}
use tts_studio.Workers.Streams.{
  stream_at, set_stream, release_synthesis, cancel_synthesis, Closing, is_current, ended, recorded,
  marked,
}

-- A stream that holds the slot has not been closed.
abbrev pub IsOpen : List Stream → ℕ → Type 0
IsOpen ts i = (t : Stream) × (stream_at i ts ≡ some t) × (t.outcome ≡ none)

abbrev pub HoldsSlot : Bool → Option ℕ → List Stream → Type 0
HoldsSlot active none ts = active ≡ false
HoldsSlot active (some i) ts = (active ≡ true) × IsOpen ts i

pub record IsConsistent (s : Session) : Type 0 where
  pub same_model : s.model_id ≡ s.loaded_model_id
  pub slot : HoldsSlot s.synthesis_active s.synthesis_stream s.streams

-- What an act on the model leaves as it was.
pub record SameSlot (s s' : Session) : Type 0 where
  pub same_active : s'.synthesis_active ≡ s.synthesis_active
  pub same_stream : s'.synthesis_stream ≡ s.synthesis_stream
  pub same_streams : s'.streams ≡ s.streams
  pub agrees : s.model_id ≡ s.loaded_model_id → s'.model_id ≡ s'.loaded_model_id

SameSlot-refl : (s : Session) → SameSlot s s
SameSlot-refl s = ground arith

module _ (id : String) (a : Answers) (s : Session) where
  unload_running-SameSlot : SameSlot s (unload_running id a s).1
  unfolding unload_running not_unloaded ensure_loaded_model ensure_model_identity
  unload_running-SameSlot = ground arith

  pub unload_model-SameSlot : SameSlot s (unload_model id a s).1
  unfolding unload_model unload_terminated
  unload_model-SameSlot = let r = unload_running-SameSlot in ground arith

module _ (id : String) (a : Answers) (s : Session) where
  pub load_model-SameSlot : SameSlot s (load_model id a s).1
  unfolding load_model ensure_model_identity
  load_model-SameSlot = let r = unload_model-SameSlot id a (with_model (some id) s) in ground arith

cancel_synthesis-SameSlot :
    (answers : List (Result Reply)) (h : Option HardStop) (s : Session)
    → SameSlot s (cancel_synthesis answers h s).1
unfolding cancel_synthesis
cancel_synthesis-SameSlot answers h s = ground arith

pub ended-SameSlot : (t : Stream) (c : Closing) (s : Session) → SameSlot s (ended t c s).1
ended-SameSlot t c s = let r = cancel_synthesis-SameSlot c.answers c.hard_stop s in ground arith

-- Reading and writing the streams.
stream_at-set :
    (i j : ℕ) (t : Stream) (ts : List Stream) {u : Stream}
    → stream_at i ts ≡ some u
    → stream_at i (set_stream j t ts) ≡ (if j == i then some t else some u)
unfolding stream_at set_stream
stream_at-set i j t [] h = ground arith
stream_at-set zero zero t (x ∷ ts) h = ground arith
stream_at-set zero (suc j) t (x ∷ ts) h = ground arith
stream_at-set (suc i) zero t (x ∷ ts) h = ground arith
stream_at-set (suc i) (suc j) t (x ∷ ts) {u} h = ground (arith, stream_at-set i j t ts {u = u} h)

pub stream_at-last : (t : Stream) (ts : List Stream) → stream_at (length ts) (ts ++ t ∷ []) ≡ some t
unfolding stream_at
stream_at-last t [] = refl
stream_at-last t (x ∷ ts) = stream_at-last t ts

slot_of :
    (s : Session) {a : Bool} {o : Option ℕ} {ts : List Stream}
    → s.synthesis_active ≡ a
    → s.synthesis_stream ≡ o
    → s.streams ≡ ts
    → HoldsSlot a o ts
    → HoldsSlot s.synthesis_active s.synthesis_stream s.streams
slot_of s {a} {o} {ts} p q r h =
    subst (λ x. HoldsSlot x s.synthesis_stream s.streams) (sym p)
      (subst (λ x. HoldsSlot a x s.streams) (sym q) (subst (HoldsSlot a o) (sym r) h))

-- The slot of a session that has kept it.
pub same_slot : (s s' : Session) → SameSlot s s' → IsConsistent s → IsConsistent s'
same_slot s s' k c = record {
  same_model = k.agrees c.same_model;
  slot = slot_of s' k.same_active k.same_stream k.same_streams c.slot;
}

-- A stream other than the one that holds the slot may be written.
other-IsOpen :
    (ts : List Stream) (i j : ℕ) (t : Stream)
    → (j == i) ≡ false
    → IsOpen ts i
    → IsOpen (set_stream j t ts) i
other-IsOpen ts i j t d (u, e, o) = (u, stream_at-set i j t ts {u = u} e ∙ ground arith, o)

released_if :
    (b a : Bool) (o : Option ℕ) (ts : List Stream)
    → (b ≡ false → HoldsSlot a o ts)
    → HoldsSlot (if b then false else a) (if b then none else o) ts
released_if true a o ts h = refl
released_if false a o ts h = h refl

-- The slot after a stream was written and released.
released :
    (i : ℕ) (t : Stream) (a : Bool) (o : Option ℕ) (ts : List Stream)
    → HoldsSlot a o ts
    → HoldsSlot
        (if is_current i o then false else a)
        (if is_current i o then none else o)
        (set_stream i t ts)
released i t a none ts h = h
released i t a (some j) ts h =
    released_if (i == j) a (some j) (set_stream i t ts) (λ d. (h.0, other-IsOpen ts j i t d h.1))

marked-IsOpen :
    (ts : List Stream) (i j : ℕ) (t : Stream)
    → stream_at j ts ≡ some t
    → IsOpen ts i
    → IsOpen (set_stream j (record t { terminal = true }) ts) i
marked-IsOpen ts i j t e (u, p, o) = elim (Bool-cases (j == i)) [
  | inr d ↦ other-IsOpen ts i j (record t { terminal = true }) d (u, p, o)
  | inl d ↦ (
    record t { terminal = true },
    stream_at-set i j (record t { terminal = true }) ts {u = u} p ∙ ground arith,
    ap (λ x. x.outcome)
          (some-injective t u (sym e ∙ ap (λ x. stream_at x ts) ((==_iff j i).0 d) ∙ p))
        ∙ o,
  )
]

marked_slot :
    (i : ℕ) (t : Stream) (a : Bool) (o : Option ℕ) (ts : List Stream)
    → stream_at i ts ≡ some t
    → HoldsSlot a o ts
    → HoldsSlot a o (set_stream i (record t { terminal = true }) ts)
marked_slot i t a none ts e h = h
marked_slot i t a (some j) ts e h = (h.0, marked-IsOpen ts j i t e h.1)

-- The fields after a stream is closed.
module _ (i : ℕ) (t : Stream) (r : Result (Unit {0})) (s : Session) where
  abbrev after : Session
  after = (recorded i t (r, s)).1

  pub active_after :
      after.synthesis_active
      ≡ (if is_current i s.synthesis_stream then false else s.synthesis_active)
  unfolding release_synthesis
  active_after = ground arith

  stream_after :
      after.synthesis_stream
      ≡ (if is_current i s.synthesis_stream then none else s.synthesis_stream)
  unfolding release_synthesis
  stream_after = ground arith

  streams_after : after.streams ≡ set_stream i (record t { outcome = some r }) s.streams
  unfolding release_synthesis
  streams_after = ground arith

  model_after : s.model_id ≡ s.loaded_model_id → after.model_id ≡ after.loaded_model_id
  unfolding release_synthesis
  model_after h = ground arith

  pub recorded-IsConsistent : IsConsistent s → IsConsistent after
  recorded-IsConsistent c = record {
    same_model = model_after c.same_model;
    slot = slot_of after active_after stream_after streams_after (
        released i (record t { outcome = some r }) s.synthesis_active s.synthesis_stream s.streams
          c.slot);
  }

-- A stream that ends keeps its outcome.
pub marked-IsConsistent :
    (i : ℕ) (t : Stream) (s : Session)
    → stream_at i s.streams ≡ some t
    → IsConsistent s
    → IsConsistent (marked i t s)
marked-IsConsistent i t s e c = record {
  same_model = c.same_model;
  slot = marked_slot i t s.synthesis_active s.synthesis_stream s.streams e c.slot;
}
