-- ===== src/Workers/Sessions.antt =====
-- A lease over any history of its calls: it agrees with its Worker about the model, and its slot is
-- taken exactly while a stream holds it.
use mathlib.Core.Path.{subst}
use tts_studio.Base.{
  ℕ, String, ◌≡◌, refl, sym, ap, ◌∙◌, Bool, true, false, none, some, arith, List, [], ◌∷◌, ◌⊎◌, inl,
  inr, Option-cases, if◌then◌else◌,
}
use tts_studio.Base.Exec.{Result}
use tts_studio.Workers.Lease.{
  Stream, Session, Worker, new_lease, ensure_model_identity, ensure_loaded_model,
}
use tts_studio.Workers.Streams.{
  stream_at, new_stream, started, synthesize, Closing, close_stream, Item, event, exhausted,
  failing, next_event, close_lease, is_current, ended, recorded, marked,
}
use tts_studio.Workers.Calls.{Call, loads, unloads, synthesizes, reads, closes, ends, step, run}
use tts_studio.Workers.Slot.{
  IsOpen, HoldsSlot, IsConsistent, unload_model-SameSlot, load_model-SameSlot, ended-SameSlot,
  stream_at-last, same_slot, marked-IsConsistent, recorded-IsConsistent, active_after,
}

module _ (i : ℕ) (c : Closing) (s : Session) where
  close_missing : stream_at i s.streams ≡ none → (close_stream i c s).1 ≡ s
  unfolding close_stream
  close_missing e = ground arith

  module _ (t : Stream) (e : stream_at i s.streams ≡ some t) where
    close_again : (r : Result (Unit {0})) → t.outcome ≡ some r → close_stream i c s ≡ (r, s)
    unfolding close_stream
    close_again r o = ground arith

    close_first : t.outcome ≡ none → close_stream i c s ≡ recorded i t (ended t c s)
    unfolding close_stream
    close_first o = ground arith

  close_stream-IsConsistent : IsConsistent s → IsConsistent (close_stream i c s).1
  close_stream-IsConsistent h = elim (Option-cases (stream_at i s.streams)) [
    | inl e ↦ subst IsConsistent (sym (close_missing e)) h
    | inr (t, e) ↦ elim (Option-cases t.outcome) [
      | inr (r, o) ↦ subst (λ x. IsConsistent x.1) (sym (close_again t e r o)) h
      | inl o ↦
          subst (λ x. IsConsistent x.1) (sym (close_first t e o))
            (recorded-IsConsistent i t (ended t c s).0 (ended t c s).1
              (same_slot s (ended t c s).1 (ended-SameSlot t c s) h))
    ]
  ]

  next_missing : (item : Item) → stream_at i s.streams ≡ none → (next_event i item c s).1 ≡ s
  unfolding next_event
  next_missing item e = ground arith

module _ (i : ℕ) (c : Closing) (s : Session) (t : Stream) (e : stream_at i s.streams ≡ some t) where
  next_one :
      (last : Bool)
      → ((next_event i (event last) c s).1 ≡ s) ⊎ ((next_event i (event last) c s).1 ≡ marked i t s)
  unfolding next_event
  next_one last = ground arith

  next_end : (next_event i exhausted c s).1 ≡ (close_stream i c (marked i t s)).1
  unfolding next_event
  next_end = ground arith

  next_failing : (next_event i failing c s).1 ≡ (close_stream i c s).1
  unfolding next_event
  next_failing = ground arith

  next_found : (item : Item) → IsConsistent s → IsConsistent (next_event i item c s).1
  next_found (event last) h = elim (next_one last) [
    | inl p ↦ subst IsConsistent (sym p) h
    | inr p ↦ subst IsConsistent (sym p) (marked-IsConsistent i t s e h)
  ]
  next_found exhausted h =
      subst IsConsistent (sym next_end)
        (close_stream-IsConsistent i c (marked i t s) (marked-IsConsistent i t s e h))
  next_found failing h = subst IsConsistent (sym next_failing) (close_stream-IsConsistent i c s h)

next_event-IsConsistent :
    (i : ℕ) (item : Item) (c : Closing) (s : Session)
    → IsConsistent s
    → IsConsistent (next_event i item c s).1
next_event-IsConsistent i item c s h = elim (Option-cases (stream_at i s.streams)) [
  | inl e ↦ subst IsConsistent (sym (next_missing i c s item e)) h
  | inr (t, e) ↦ next_found i c s t e item h
]

close_lease-cases :
    (c : Closing) (s : Session)
    → ((close_lease c s).1 ≡ s) ⊎ ((i : ℕ) × ((close_lease c s).1 ≡ (close_stream i c s).1))
unfolding close_lease
close_lease-cases c s = elim (Option-cases s.synthesis_stream) [
  | inl e ↦ inl (ground arith)
  | inr (i, e) ↦ inr (i, ground arith)
]

close_lease-IsConsistent :
    (c : Closing) (s : Session) → IsConsistent s → IsConsistent (close_lease c s).1
close_lease-IsConsistent c s h = elim (close_lease-cases c s) [
  | inl p ↦ subst IsConsistent (sym p) h
  | inr (i, p) ↦ subst IsConsistent (sym p) (close_stream-IsConsistent i c s h)
]

synthesize-cases :
    (id : String) (call : Result (Unit {0})) (s : Session)
    → ((synthesize id call s).1 ≡ s) ⊎ ((synthesize id call s).1 ≡ started s)
unfolding synthesize ensure_loaded_model ensure_model_identity
synthesize-cases id call s = ground arith

started-IsConsistent : (s : Session) → IsConsistent s → IsConsistent (started s)
started-IsConsistent s c = record {
  same_model = c.same_model;
  slot = (refl, (new_stream, stream_at-last new_stream s.streams, refl));
}

synthesize-IsConsistent :
    (id : String) (call : Result (Unit {0})) (s : Session)
    → IsConsistent s
    → IsConsistent (synthesize id call s).1
synthesize-IsConsistent id call s h = elim (synthesize-cases id call s) [
  | inl p ↦ subst IsConsistent (sym p) h
  | inr p ↦ subst IsConsistent (sym p) (started-IsConsistent s h)
]

step-IsConsistent : (s : Session) (c : Call) → IsConsistent s → IsConsistent (step s c)
unfolding step
step-IsConsistent s (loads id a) h = same_slot s _ (load_model-SameSlot id a s) h
step-IsConsistent s (unloads id a) h = same_slot s _ (unload_model-SameSlot id a s) h
step-IsConsistent s (synthesizes id call) h = synthesize-IsConsistent id call s h
step-IsConsistent s (reads i item c) h = next_event-IsConsistent i item c s h
step-IsConsistent s (closes i c) h = close_stream-IsConsistent i c s h
step-IsConsistent s (ends c) h = close_lease-IsConsistent c s h

every_call : (s : Session) (cs : List Call) → IsConsistent s → IsConsistent (run s cs)
unfolding run
every_call s [] h = h
every_call s (c ∷ cs) h = every_call (step s c) cs (step-IsConsistent s c h)

-- After any history of calls on a new lease, whatever the Worker answers, the lease and its Worker
-- agree about the model that is loaded, and the slot of the lease is taken exactly while a stream
-- that has not been closed holds it.
pub run-IsConsistent : (w : Worker) (cs : List Call) → IsConsistent (run (new_lease w) cs)
run-IsConsistent w cs = every_call (new_lease w) cs (record { same_model = refl; slot = refl })

is_current_self : (i : ℕ) → is_current i (some i) ≡ true
is_current_self i = ground arith

close_lease-open :
    (c : Closing) (s : Session) (i : ℕ)
    → s.synthesis_stream ≡ some i
    → (close_lease c s).1 ≡ (close_stream i c s).1
unfolding close_lease
close_lease-open c s i e = ground arith

close_lease-idle : (c : Closing) (s : Session) → s.synthesis_stream ≡ none → (close_lease c s).1 ≡ s
unfolding close_lease
close_lease-idle c s e = ground arith

IsOpen-stream :
    (s : Session) (i : ℕ) → s.synthesis_stream ≡ some i → IsConsistent s → IsOpen s.streams i
IsOpen-stream s i e c = (subst (λ o. HoldsSlot s.synthesis_active o s.streams) e c.slot).1

idle_slot : (s : Session) → s.synthesis_stream ≡ none → IsConsistent s → s.synthesis_active ≡ false
idle_slot s e c = subst (λ o. HoldsSlot s.synthesis_active o s.streams) e c.slot

freed : (c : Closing) (s : Session) → IsConsistent s → (close_lease c s).1.synthesis_active ≡ false
freed c s h = elim (Option-cases s.synthesis_stream) [
  | inl e ↦ ap (λ x. x.synthesis_active) (close_lease-idle c s e) ∙ idle_slot s e h
  | inr (i, e) ↦
      let (t, p, o) = IsOpen-stream s i e h in
      let k = ended-SameSlot t c s in
      ap (λ x. x.synthesis_active)
        (close_lease-open c s i e ∙ ap (λ r. r.1) (close_first i c s t p o))
      ∙ active_after i t (ended t c s).0 (ended t c s).1
      ∙ ap (λ o. if is_current i o then false else (ended t c s).1.synthesis_active)
          (k.same_stream ∙ e)
      ∙ ground (arith, is_current_self i)
]

-- Closing a lease with any history frees its slot, whatever the Worker and the hard stop answer and
-- whether or not the closing raises.
pub close_lease-frees :
    (w : Worker) (cs : List Call) (c : Closing)
    → (close_lease c (run (new_lease w) cs)).1.synthesis_active ≡ false
close_lease-frees w cs c = freed c (run (new_lease w) cs) (run-IsConsistent w cs)
