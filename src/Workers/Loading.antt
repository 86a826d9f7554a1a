-- ===== src/Workers/Loading.antt =====
-- What `load_model` of a lease has done when it returns, and when it raises.
use mathlib.Core.Path.{subst}
use tts_studio.Base.{
  String, ◌≡◌, refl, sym, ap, ◌∙◌, true, false, Option, none, some, arith, ◌⊎◌, inl, inr,
  Option-cases, Bool-cases, opt_eq, eq_iff, str_eq, if◌then◌else◌, ◌≤◌,
}
use text.Mathlib.TextPositions.{eq_refl}
use tts_studio.Base.Exec.{
  Error, Result, ok, err, Result-cases, bind-eq-ok, pure, modify, continue, lift, runtime_error,
  model_mismatch,
}
use tts_studio.Workers.Domain.{WorkerCapabilities, DescribeResponse}
use tts_studio.Workers.Capabilities.{protocol_compatible, worker_capabilities}
use tts_studio.Workers.Lease.{
  ensure_loaded_model, unload_answered, unloaded, Session, Answers, ensure_model_identity,
  unload_running, not_unloaded, unload_terminated, load_model, unload_model, check_facts,
  with_model, facts_of, load_now, refresh, Reply,
}

opt_eq_iff : (o : Option String) (s : String) → opt_eq o (some s) ≡ true → o ≡ some s
opt_eq_iff none s h = ground arith
opt_eq_iff (some t) s h = ground (arith, eq_iff t s)

-- The facts are those of the engine, under a protocol that the Core speaks.
checked :
    (engine : String) (d : Result DescribeResponse) (c : WorkerCapabilities)
    → facts_of engine d ≡ ok c
    → (r : DescribeResponse) × (d ≡ ok r)
      × (r.protocol.major ≡ 1)
      × (r.protocol.minor ≤ 1)
      × (r.engine_id ≡ engine)
      × (worker_capabilities r ≡ ok c)
unfolding check_facts protocol_compatible
checked engine (ok d) c h =
    (d, refl, ground arith, ground arith, ground (arith, eq_iff d.engine_id engine), ground arith)
checked engine (err e) c h = absurd (ground arith)

module _ (id : String) (a : Answers) (s : Session) where
  when_quarantined : s.quarantined ≡ true → load_model id a s ≡ (err runtime_error, s)
  unfolding load_model ensure_model_identity
  when_quarantined q = ground arith

  when_there : s.quarantined ≡ false → s.model_id ≡ some id → load_model id a s ≡ (ok tt, s)
  unfolding load_model ensure_model_identity
  when_there q h = ground (arith, eq_refl id)

  when_other :
      (m : String)
      → s.quarantined ≡ false
      → s.model_id ≡ some m
      → str_eq m id ≡ false
      → load_model id a s ≡ (err model_mismatch, s)
  unfolding load_model ensure_model_identity
  when_other m q h d = ground arith

  when_free : s.quarantined ≡ false → s.model_id ≡ none → load_model id a s ≡ load_now id a s
  unfolding load_model ensure_model_identity
  when_free q h = ground arith

  -- The four ways through the guards.
  data Way : Type 0 where
    refused : (e : Error) → load_model id a s ≡ (err e, s) → Way
    there : s.quarantined ≡ false → s.model_id ≡ some id → load_model id a s ≡ (ok tt, s) → Way
    free : s.quarantined ≡ false → s.model_id ≡ none → load_model id a s ≡ load_now id a s → Way

  way : Way
  way = elim (Bool-cases s.quarantined) [
    | inl q ↦ refused runtime_error (when_quarantined q)
    | inr q ↦ elim (Option-cases s.model_id) [
      | inl h ↦ free q h (when_free q h)
      | inr (m, h) ↦ elim (Bool-cases (str_eq m id)) [
        | inl e ↦ let h' = h ∙ ap some ((eq_iff m id).0 e) in there q h' (when_there q h')
        | inr e ↦ refused model_mismatch (when_other m q h e)
      ]
    ]
  ]

  abbrev pub held : Session
  held = with_model (some id) s

  answered : {s' : Session} → load_now id a s ≡ (ok tt, s') → refresh id a held ≡ (ok tt, s')
  answered h = ground arith

  -- The session after the facts were taken over.
  abbrev pub Taken : Session → Type 0
  Taken s' =
      ((a.describe ≡ none) × (s' ≡ held))
      ⊎ ((d : DescribeResponse) × (a.describe ≡ some (ok d))
          × (d.protocol.major ≡ 1)
          × (d.protocol.minor ≤ 1)
          × (d.engine_id ≡ s.engine_id)
          × (worker_capabilities d ≡ ok s'.capabilities)
          × (s' ≡ record held {
            capabilities = s'.capabilities;
            worker_capabilities = s'.capabilities;
          }))

  Taken-model : (s' : Session) → Taken s' → s'.model_id ≡ some id
  Taken-model s' (inl (_, e)) = ap (λ x. x.model_id) e
  Taken-model s' (inr (_, _, _, _, _, _, e)) = ap (λ x. x.model_id) e

  kept_facts :
      (d : Result DescribeResponse) (c : WorkerCapabilities) (s' : Session)
      → a.describe ≡ some d
      → facts_of s.engine_id d ≡ ok c
      → refresh id a held ≡ (ok tt, s')
      → s' ≡ record held { capabilities = c; worker_capabilities = c }
  kept_facts d c s' e e' h = ground arith

  taken : (s' : Session) → refresh id a held ≡ (ok tt, s') → Taken s'
  taken s' h = elim (Option-cases a.describe) [
    | inl e ↦ inl (e, ground arith)
    | inr (d, e) ↦ elim (Result-cases (facts_of s.engine_id d)) [
      | inr (x, e') ↦ absurd (ground arith)
      | inl (c, e') ↦
          let (r, p, m, n, i, w) = checked s.engine_id d c e' in
          subst Taken (sym (kept_facts d c s' e e' h)) (inr (r, e ∙ ap some p, m, n, i, w, refl))
    ]
  ]

  has_loaded :
      {s' : Session}
      → load_now id a s ≡ (ok tt, s')
      → (r : Reply) × (a.load ≡ ok r) × (r.done ≡ true)
  has_loaded h = elim (Result-cases a.load) [
    | inr (x, p) ↦ absurd (ground arith)
    | inl (r, p) ↦ (r, p, ground arith)
  ]

  -- A call of `load_model` that returns has found the Worker not quarantined, and the lease then holds
  -- the model. Either it was held before and nothing has changed, or no model was held, the Worker has
  -- answered that it has loaded it, and the capabilities are now those that the Worker has described,
  -- under its own engine and a protocol that the Core speaks, if its stub can describe at all.
  pub load_model-holds :
      (s' : Session)
      → load_model id a s ≡ (ok tt, s')
      → (s.quarantined ≡ false)
        × (s'.model_id ≡ some id)
        × (((s.model_id ≡ some id) × (s' ≡ s))
            ⊎ ((s.model_id ≡ none) × ((r : Reply) × (a.load ≡ ok r) × (r.done ≡ true)) × Taken s'))
  load_model-holds s' h = elim way [
    | refused e p ↦ absurd (ground arith)
    | there q p e ↦
        let same = ap (λ r. r.1) (sym h ∙ e) in (q, ap (λ x. x.model_id) same ∙ p, inl (p, same))
    | free q p e ↦
        let t = taken s' (answered (sym e ∙ h)) in
        (q, Taken-model s' t, inr (p, has_loaded (sym e ∙ h), t))
  ]

module _ (id : String) (a : Answers) (s s' : Session) where
  unloaded_running : unload_running id a s ≡ (ok tt, s') → s'.model_id ≡ none
  unfolding unload_running
  unloaded_running h =
      let (_, t, _, p) =
        bind-eq-ok (ensure_loaded_model id)
          (λ _. λ t. continue (lift a.unload t) (λ r. unload_answered id r a.hard_stop)) s h in
      let (r, u, _, q) = bind-eq-ok (lift a.unload) (λ r. unload_answered id r a.hard_stop) t p in
      let (_, v, _, w) =
        bind-eq-ok (if r.done then pure tt else not_unloaded r.error a.hard_stop)
          (λ _. modify (unloaded id)) u q in
      sym (ap (λ x. x.1.model_id) w)

  pub unload_model-releases : unload_model id a s ≡ (ok tt, s') → s'.model_id ≡ none
  unfolding unload_model unload_terminated
  unload_model-releases h = let r = unloaded_running in ground arith
