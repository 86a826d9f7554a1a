-- ===== src/Events/Progress.antt =====
-- src/tts_studio/events.py: the progress event of a Download Job. How Python rounds a percentage to a
-- float is a parameter.
use tts_studio.Base.{
  refl, ap, sym, ℕ, ◌≤◌, ◌≡◌, String, Option, none, some, ltb, arith, ◌==◌, if◌then◌else◌,
}
use tts_studio.Base.Exec.{Result, ok, err, Exec, bind-eq-ok, lift, ◌>>=◌, unsafe_event_payload}
use mathlib.Core.Path.{subst}
use tts_studio.Events.Safe.{appended}
use tts_studio.Base.Int.{ℤ, pos, negsuc, to_nat}
use tts_studio.Base.Json.{Double, Fields, end, field, string, int, float}
use tts_studio.Events.Text.{TextRules}
use tts_studio.Events.Store.{Event, Store, Message, Stream, append, resolve_stream, safe_stream}

-- `round(bytes_downloaded * 100 / total_bytes, 2)`, and the float 100.0.
pub record Percent : Type 0 where
  pub rounded : ℕ → ℕ → Double
  pub hundred : Double

abbrev percentage : Percent → ℕ → ℕ → Double
percentage percent bytes total = if total == 0 then percent.hundred else percent.rounded bytes total

-- The total may not be below what is downloaded.
abbrev total_fields : Percent → ℕ → Option ℤ → Result Fields
total_fields percent bytes none = ok end
total_fields percent bytes (some z) = elim (to_nat z) [
  | none ↦ err unsafe_event_payload
  | some total ↦
      if ltb total bytes
      then err unsafe_event_payload
      else ok (
          field "total_bytes" (int (pos total))
            (field "percentage" (float (percentage percent bytes total)) end))
]

abbrev pub progress_fields : String → String → ℕ → String → Fields → Fields
progress_fields job phase bytes message rest = field "job_id" (string job) (
    field "phase" (string phase)
      (field "bytes_downloaded" (int (pos bytes)) (field "message" (string message) rest)))

unfoldable pub build_download_progress_payload :
    Percent → String → String → ℤ → Option ℤ → String → Result Fields
build_download_progress_payload percent job phase bytes total message = elim (to_nat bytes) [
  | none ↦ err unsafe_event_payload
  | some n ↦ elim (total_fields percent n total) [
    | err e ↦ err e
    | ok rest ↦ ok (progress_fields job phase n message rest)
  ]
]

-- What `append` is called with.
abbrev message_of : String → Fields → Message
message_of job payload = record {
  event_type = "download.progress";
  payload = payload;
  download_id = some job;
  stream_kind = none;
  stream_id = none;
}

unfoldable pub append_progress :
    TextRules → Percent → String → String → String → ℤ → Option ℤ → String → Exec Store Event
unfolding build_download_progress_payload
append_progress rules percent now job phase bytes total message = do
  payload ← lift (build_download_progress_payload percent job phase bytes total message)
  append rules now (message_of job payload)

resolved :
    (rules : TextRules) (job : String) (payload : Fields) (s : Stream)
    → resolve_stream rules (message_of job payload) ≡ ok s
    → s ≡ (some "download", some job)
unfolding resolve_stream safe_stream
resolved rules job payload s h = ground arith

built :
    (percent : Percent) (job phase message : String) (bytes : ℤ) (total : Option ℤ)
    (payload : Fields)
    → build_download_progress_payload percent job phase bytes total message ≡ ok payload
    → (n : ℕ) × (rest : Fields) × (bytes ≡ pos n)
      × (payload ≡ progress_fields job phase n message rest)
      × ((z : ℤ) → total ≡ some z → (t : ℕ) × (z ≡ pos t) × (n ≤ t))
unfolding build_download_progress_payload
built percent job phase message (pos n) none payload h = (n, end, refl, ground arith, (λ z e. cc))
built percent job phase message (pos n) (some (pos t)) payload h = (
  n,
  field "total_bytes" (int (pos t)) (field "percentage" (float (percentage percent n t)) end),
  refl,
  ground arith,
  (λ z e. (t, ground arith, ground arith)),
)
built percent job phase message (pos n) (some (negsuc t)) payload h = cc
built percent job phase message (negsuc n) total payload h = cc

-- The progress that is stored is an event of the download's own stream, which names the job; its
-- bytes are no negative number, and no total that is given is below them.
pub append_progress_stream :
    (rules : TextRules) (percent : Percent) (now job phase message : String) (bytes : ℤ)
    (total : Option ℤ) (st st' : Store) (e : Event)
    → append_progress rules percent now job phase bytes total message st ≡ (ok e, st')
    → (e.stream_kind ≡ some "download")
      × (e.stream_id ≡ some job)
      × ((n : ℕ) × (bytes ≡ pos n) × ((z : ℤ) → total ≡ some z → (t : ℕ) × (z ≡ pos t) × (n ≤ t)))
unfolding append_progress
append_progress_stream rules percent now job phase message bytes total st st' e h =
    let build = build_download_progress_payload percent job phase bytes total message in
    let (payload, s, b, k) =
      bind-eq-ok (lift build) (λ payload. append rules now (message_of job payload)) st h in
    let (n, _, c, _, t) = built percent job phase message bytes total payload (ap (λ r. r.0) b) in
    let k' =
      subst (λ x. append rules now (message_of job payload) x ≡ (ok e, st')) (sym (ap (λ r. r.1) b))
        k in
    let (r, _, _, _, _) = appended rules now (message_of job payload) st st' e k' in
    let q = resolved rules job payload (e.stream_kind, e.stream_id) r in
    (ap (λ x. x.0) q, ap (λ x. x.1) q, (n, c, t))
