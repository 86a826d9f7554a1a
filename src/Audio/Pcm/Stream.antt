-- ===== src/Audio/Pcm/Stream.antt =====
-- A whole stream through the validator: the header, the chunks in order, the declared total.
use tts_studio.Base.{ℕ, ◌+◌, ◌%◌, ◌≤◌, ◌≡◌, ◌∙◌, true, false, some, List, [], ◌∷◌, arith, length}
use mathlib.Core.Path.{subst}
use tts_studio.Base.Exec.{Result, ok, err, Exec, pure, bind-eq-ok, ◌>>◌}
use tts_studio.Base.Int.{ℤ, pos}
use tts_studio.Audio.Pcm.{
  AudioFormat, PcmResult, Header, Validator, is_supported, accept_header, accept_chunk, finish,
  init,
}

pub record Chunk : Type 0 where
  pub sequence : ℤ
  pub pcm : List ℕ

unfoldable pub accept_all : List Chunk → Exec Validator (Unit {0})
accept_all [] = pure tt
accept_all (c ∷ cs) = do accept_chunk c.sequence c.pcm; accept_all cs

-- One stream from a fresh validator with the given byte limit.
unfoldable pub validate : ℕ → Header → List Chunk → ℤ → Result PcmResult
validate limit h cs total = elim (init (pos limit)) [
  | err e ↦ err e
  | ok v ↦ ((do accept_header h; accept_all cs; finish total) v).0
]

abbrev pub bytes_of : List Chunk → ℕ
bytes_of [] = 0
bytes_of (c ∷ cs) = length c.pcm + bytes_of cs

-- The chunks are numbered from `n` on, and each holds whole samples of two bytes.
abbrev pub IsOrdered : ℕ → List Chunk → Type 0
IsOrdered n [] = Unit
IsOrdered n (c ∷ cs) = (c.sequence ≡ pos n) × (length c.pcm % 2 ≡ 0) × IsOrdered (n + 1) cs

abbrev pub IsStreaming : AudioFormat → Validator → Type 0
IsStreaming f v =
    (v.finished ≡ false)
    × (v.format ≡ some f)
    × (is_supported f ≡ true)
    × (v.byte_count ≤ v.max_bytes)

abbrev pub fed : ℕ → ℕ → Validator → Validator
fed n b v = record v { next_sequence = v.next_sequence + n; byte_count = v.byte_count + b }

chunk_ok :
    (f : AudioFormat) (v : Validator) (c : Chunk)
    → IsStreaming f v
    → c.sequence ≡ pos v.next_sequence
    → length c.pcm % 2 ≡ 0
    → v.byte_count + length c.pcm ≤ v.max_bytes
    → accept_chunk c.sequence c.pcm v ≡ (ok tt, fed 1 (length c.pcm) v)
unfolding accept_chunk
chunk_ok f v c s q a b = ground arith

chunk_sound :
    (f : AudioFormat) (v v' : Validator) (c : Chunk)
    → IsStreaming f v
    → accept_chunk c.sequence c.pcm v ≡ (ok tt, v')
    → (c.sequence ≡ pos v.next_sequence)
      × (length c.pcm % 2 ≡ 0)
      × (v.byte_count + length c.pcm ≤ v.max_bytes)
      × (v' ≡ fed 1 (length c.pcm) v)
unfolding accept_chunk
chunk_sound f v v' c s h = ground arith

IsStreaming-fed :
    (f : AudioFormat) (v : Validator) (b : ℕ)
    → IsStreaming f v
    → v.byte_count + b ≤ v.max_bytes
    → IsStreaming f (fed 1 b v)
IsStreaming-fed f v b s h = (s.0, s.1, s.2, h)

pub all_ok :
    (f : AudioFormat) (v : Validator) (cs : List Chunk)
    → IsStreaming f v
    → IsOrdered v.next_sequence cs
    → v.byte_count + bytes_of cs ≤ v.max_bytes
    → accept_all cs v ≡ (ok tt, fed (length cs) (bytes_of cs) v)
unfolding accept_all
all_ok f v [] s o b = ground arith
all_ok f v (c ∷ cs) s o b = rw (chunk_ok f v c s o.0 o.1 (omega arith)) (
    all_ok f (fed 1 (length c.pcm) v) cs (IsStreaming-fed f v (length c.pcm) s (omega arith)) o.2
      (omega arith)
    ∙ ground arith)

pub all_sound :
    (f : AudioFormat) (v v' : Validator) (cs : List Chunk)
    → IsStreaming f v
    → accept_all cs v ≡ (ok tt, v')
    → IsOrdered v.next_sequence cs
      × (v.byte_count + bytes_of cs ≤ v.max_bytes)
      × (v' ≡ fed (length cs) (bytes_of cs) v)
unfolding accept_all
all_sound f v v' [] s h = ground arith
all_sound f v v' (c ∷ cs) s h =
    let (_, w, e, k) = bind-eq-ok (accept_chunk c.sequence c.pcm) (λ _. accept_all cs) v h in
    let (q, a, b, p) = chunk_sound f v w c s e in
    let (o, fits, p') =
      all_sound f (fed 1 (length c.pcm) v) v' cs (IsStreaming-fed f v (length c.pcm) s b)
        (subst (λ x. accept_all cs x ≡ (ok tt, v')) p k) in
    ((q, a, o), omega arith, ground arith)
