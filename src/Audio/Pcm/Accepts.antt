-- ===== src/Audio/Pcm/Accepts.antt =====
-- Which streams the validator accepts.
use mathlib.Core.Path.{subst}
use tts_studio.Base.{
  ℕ, ◌*◌, ◌≤◌, ◌≡◌, ◌↔◌, refl, ◌∙◌, ap, sym, true, false, none, some, List, arith, length,
}
use tts_studio.Base.Exec.{ok, Exec, bind-eq-ok, ◌>>◌}
use tts_studio.Base.Int.{ℤ, pos}
use tts_studio.Audio.Pcm.{
  AudioFormat, PcmResult, Header, Validator, coerce_format, is_supported, accept_header, finish,
  init,
}
use tts_studio.Audio.Pcm.Stream.{
  Chunk, validate, accept_all, bytes_of, IsOrdered, IsStreaming, fed, all_ok, all_sound,
}

abbrev fresh : ℕ → Validator
fresh limit = record {
  max_bytes = limit;
  format = none;
  next_sequence = 0;
  byte_count = 0;
  finished = false;
}

-- The stream says 48 kHz mono 16-bit samples, numbers its chunks from 0 on, holds whole samples
-- within the limit, and declares the number of samples that it holds.
pub record IsValidStream (limit : ℕ) (h : Header) (cs : List Chunk) (total : ℤ) (r : PcmResult)
    : Type 0 where
  pub read : coerce_format h ≡ ok r.format
  pub supported : is_supported r.format ≡ true
  pub ordered : IsOrdered 0 cs
  pub within : bytes_of cs ≤ limit
  pub counted : r.byte_count ≡ bytes_of cs
  pub whole : r.frame_count * 2 ≡ bytes_of cs
  pub declared : total ≡ pos r.frame_count

header_sound :
    (limit : ℕ) (h : Header) (f : AudioFormat) (v : Validator)
    → accept_header h (fresh limit) ≡ (ok f, v)
    → (coerce_format h ≡ ok f)
      × (is_supported f ≡ true)
      × (v ≡ record (fresh limit) { format = some f })
unfolding accept_header
header_sound limit h f v e = ground arith

header_ok :
    (limit : ℕ) (h : Header) (f : AudioFormat)
    → coerce_format h ≡ ok f
    → is_supported f ≡ true
    → accept_header h (fresh limit) ≡ (ok f, record (fresh limit) { format = some f })
unfolding accept_header
header_ok limit h f e s = ground arith

finish_sound :
    (f : AudioFormat) (v v' : Validator) (total : ℤ) (r : PcmResult)
    → IsStreaming f v
    → finish total v ≡ (ok r, v')
    → (r.format ≡ f)
      × (r.byte_count ≡ v.byte_count)
      × (r.frame_count * 2 ≡ v.byte_count)
      × (total ≡ pos r.frame_count)
unfolding finish
finish_sound f v v' total r s e = ground arith

finish_ok :
    (f : AudioFormat) (v : Validator) (n : ℕ)
    → IsStreaming f v
    → n * 2 ≡ v.byte_count
    → finish (pos n) v ≡ (
      ok (record { format = f; byte_count = v.byte_count; frame_count = n }),
      record v { finished = true },
    )
unfolding finish
finish_ok f v n s e = ground arith

streaming :
    (limit : ℕ) (f : AudioFormat) (n b : ℕ)
    → is_supported f ≡ true
    → b ≤ limit
    → IsStreaming f (fed n b (record (fresh limit) { format = some f }))
streaming limit f n b s h = (refl, refl, s, (omega arith))

abbrev session : Header → List Chunk → ℤ → Exec Validator PcmResult
session h cs total = do accept_header h; accept_all cs; finish total

session_sound :
    (limit : ℕ) (h : Header) (cs : List Chunk) (total : ℤ) (r : PcmResult) (v : Validator)
    → session h cs total (fresh limit) ≡ (ok r, v)
    → IsValidStream limit h cs total r
session_sound limit h cs total r v e =
    let (f, v₁, e₁, k₁) =
      bind-eq-ok (accept_header h) (λ _. accept_all cs >> finish total) (fresh limit) e in
    let (c, s, p) = header_sound limit h f v₁ e₁ in
    let st = streaming limit f 0 0 s (omega arith) in
    let (_, v₂, e₂, k₂) = bind-eq-ok (accept_all cs) (λ _. finish total) v₁ k₁ in
    let (o, w, p₂) =
      all_sound f (record (fresh limit) { format = some f }) v₂ cs st
        (subst (λ x. accept_all cs x ≡ (ok tt, v₂)) p e₂) in
    let (a, b, n, d) =
      finish_sound f _ v total r (streaming limit f (length cs) (bytes_of cs) s (omega arith))
        (subst (λ x. finish total x ≡ (ok r, v)) p₂ k₂) in
    record {
      read = c ∙ ap ok (sym a);
      supported = subst (λ x. is_supported x ≡ true) (sym a) s;
      ordered = o;
      within = omega arith;
      counted = omega arith;
      whole = omega arith;
      declared = d;
    }

session_ok :
    (limit : ℕ) (h : Header) (cs : List Chunk) (total : ℤ) (r : PcmResult)
    → IsValidStream limit h cs total r
    → (session h cs total (fresh limit)).0 ≡ ok r
session_ok limit h cs total r v = rw (header_ok limit h r.format v.read v.supported) (
    rw
      (all_ok r.format (record (fresh limit) { format = some r.format }) cs
        (streaming limit r.format 0 0 v.supported (omega arith)) v.ordered (omega arith))
      (rw
        (
          v.declared,
          finish_ok r.format
              (fed (length cs) (bytes_of cs) (record (fresh limit) { format = some r.format }))
              r.frame_count
              (streaming limit r.format (length cs) (bytes_of cs) v.supported v.within)
              (omega arith),
        )
        (ground arith)))

-- The stream of a fresh validator is accepted with a result exactly when it is a valid stream with
-- that result.
pub validate_iff :
    (limit : ℕ) (h : Header) (cs : List Chunk) (total : ℤ) (r : PcmResult)
    → (validate limit h cs total ≡ ok r) ↔ IsValidStream limit h cs total r
unfolding validate init
validate_iff limit h cs total r = (
  (λ e.
      session_sound limit h cs total r (session h cs total (fresh limit)).1
        (ap (λ x. (x, (session h cs total (fresh limit)).1)) e)),
  session_ok limit h cs total r,
)
