-- ===== src/Events/Safe.antt =====
-- What is true of every event that `append` stores.
use tts_studio.Base.{
  String, ◌≡◌, ap, true, false, Bool, some, none, Option, arith, eq_iff, opt_eq, is_some, not, ◌&&◌,
  if◌then◌else◌, ◌∙◌,
}
use tts_studio.Base.Exec.{Result, ok, err, transaction, unsafe_event_payload}
use tts_studio.Events.Text.{TextRules}
use tts_studio.Events.Payload.{safe_object, fields_have_audio}
use tts_studio.Events.Store.{
  Event, Store, Message, Stream, append, resolve_stream, is_accepted, is_generation, job_of,
  conflicts, safe_stream, infer_kind, with_job, with_download,
}

module _ (rules : TextRules) where
  safe_stream_same : (s t : Stream) → safe_stream rules s ≡ ok t → t ≡ s
  unfolding safe_stream
  safe_stream_same s t h = ground arith

  -- The rest of `resolve_stream`, after the download id has been taken into account.
  abbrev pub rest : Bool → Option String → Option String → Stream → Result Stream
  rest gen k j s =
      if gen && not (opt_eq s.0 (some "generation") && is_some s.1)
      then err unsafe_event_payload
      else let t = with_job gen k j s in
        if conflicts j t.1 then err unsafe_event_payload else safe_stream rules t

  abbrev IsTyped : Bool → Option String → Stream → Type 0
  IsTyped gen j s =
      (gen ≡ true → (s.0 ≡ some "generation") × (is_some s.1 ≡ true)) × (conflicts j s.1 ≡ false)

  rest-IsTyped :
      (gen : Bool) (k j : Option String) (s t : Stream) → rest gen k j s ≡ ok t → IsTyped gen j t
  rest-IsTyped true k j (none, i) t h = ground arith
  rest-IsTyped true k j (some g, none) t h = ground arith
  rest-IsTyped true k j (some g, some i) t h =
      ground (arith, eq_iff g "generation", safe_stream_same (some g, some i) t)
  rest-IsTyped false k j s t h = ground (arith, safe_stream_same (with_job false k j s) t)

  stream-IsTyped :
      (m : Message) (s : Stream)
      → resolve_stream rules m ≡ ok s
      → IsTyped (is_generation m) (job_of m) s
  unfolding resolve_stream
  stream-IsTyped m s h = go (with_download m.download_id (m.stream_kind, m.stream_id)) h
    where
      go :
          (r : Result Stream)
          → (elim r [
            | err e ↦ err e
            | ok s₀ ↦ rest (is_generation m) (infer_kind m.event_type) (job_of m) s₀
          ])
            ≡ ok s
          → IsTyped (is_generation m) (job_of m) s
      go (err e) q = cc
      go (ok s₀) q = rest-IsTyped (is_generation m) (infer_kind m.event_type) (job_of m) s₀ s q

  pub appended :
      (now : String) (m : Message) (st st' : Store) (e : Event)
      → append rules now m st ≡ (ok e, st')
      → (resolve_stream rules m ≡ ok (e.stream_kind, e.stream_id))
        × (is_accepted rules m ≡ true)
        × (e.payload ≡ m.payload)
        × (e.event_type ≡ m.event_type)
        × (is_generation m ≡ true → fields_have_audio rules m.payload ≡ false)
  unfolding append transaction
  appended now m st st' e h = ground arith

  -- Every event that is stored carries the message's payload, which has passed the payload rules; an
  -- event of a generation belongs to a named generation stream and carries no audio; and where the
  -- payload names a job and the event has a stream id, the two agree.
  pub append_safe :
      (now : String) (m : Message) (st st' : Store) (e : Event)
      → append rules now m st ≡ (ok e, st')
      → (e.payload ≡ m.payload)
        × (safe_object rules e.payload ≡ true)
        × (is_generation m ≡ true
            → (e.stream_kind ≡ some "generation")
              × (is_some e.stream_id ≡ true)
              × (fields_have_audio rules e.payload ≡ false))
        × (conflicts (job_of m) e.stream_id ≡ false)
  unfolding is_accepted
  append_safe now m st st' e h =
      let (r, a, p, _, q) = appended now m st st' e h in
      let (g, c) = stream-IsTyped m (e.stream_kind, e.stream_id) r in
      (
        p,
        ap (safe_object rules) p ∙ ground (arith, a),
        (λ b. ((g b).0, (g b).1, ap (fields_have_audio rules) p ∙ q b)),
        c,
      )
