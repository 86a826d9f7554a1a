-- ===== src/Wav/Total.antt =====
-- A stream that is written chunk by chunk and finalized without a fault is published whole.
use mathlib.Core.List.{append_assoc, append-nil}
use mathlib.Core.Option
use native.Mathlib.Nat.{add-zero, zero-add}
use tts_studio.Base.{
  ℕ, ◌+◌, ◌*◌, ◌%◌, ◌^◌, ◌<◌, ◌≡◌, refl, ap, sym, ◌∙◌, true, false, none, some, List, [], ◌∷◌, ◌++◌,
  arith, length, take, drop, length-append, All,
}
use tts_studio.Base.Exec.{ok, Exec, pure, continue, ◌>>◌}
use tts_studio.Wav.Header.{header_bytes, expected_header}
use tts_studio.Wav.Writer.{
  header_size, check_source, copy_and_check, publish, Writer, Tools, System, finalize, bytes_eq,
  write, open_writer, aborting,
}
use tts_studio.Wav.Publish.{new_file}

unfoldable pub write_all : List (List ℕ) → Exec Writer (Unit {0})
write_all [] = pure tt
write_all (p ∷ ps) = do write p; write_all ps

abbrev pub concat : List (List ℕ) → List ℕ
concat [] = []
concat (p ∷ ps) = p ++ concat ps

abbrev pub IsAligned : List ℕ → Type 0
IsAligned p = length p % 2 ≡ 0

abbrev pub staged : List ℕ → Writer → Writer
staged pcm w = record w {
  stream = w.stream ++ pcm;
  byte_count = w.byte_count + length pcm;
  hashed = w.hashed ++ pcm;
}

write_ok :
    (p : List ℕ) (w : Writer)
    → w.published ≡ false
    → w.is_open ≡ true
    → IsAligned p
    → write p w ≡ (ok tt, staged p w)
unfolding write
write_ok p w f o a = ground arith

staged_nil : (w : Writer) → staged [] w ≡ w
staged_nil w i = record w {
  stream = append-nil w.stream i;
  byte_count = add-zero w.byte_count i;
  hashed = append-nil w.hashed i;
}

write_all_ok :
    (ps : List (List ℕ)) (w : Writer)
    → w.published ≡ false
    → w.is_open ≡ true
    → All IsAligned ps
    → write_all ps w ≡ (ok tt, staged (concat ps) w)
unfolding write_all
write_all_ok [] w f o a = ap (λ x. (ok tt, x)) (sym (staged_nil w))
write_all_ok (p ∷ ps) w f o a =
    ap (λ r. continue r (λ _. write_all ps)) (write_ok p w f o a.0)
    ∙ write_all_ok ps (staged p w) f o a.1
    ∙ ground (
      arith,
      append_assoc w.stream p (concat ps),
      append_assoc w.hashed p (concat ps),
      length-append p (concat ps),
    )

bytes_eq_refl : (xs : List ℕ) → bytes_eq xs xs ≡ true
unfolding bytes_eq
bytes_eq_refl [] = refl
bytes_eq_refl (x ∷ xs) = ground (arith, bytes_eq_refl xs)

-- What is known of the parts of the file that the `wave` module writes.
head_of : (n : ℕ) (pcm : List ℕ) → take header_size (header_bytes n ++ pcm) ≡ header_bytes n
unfolding header_size header_bytes
head_of n pcm = refl

tail_of : (n : ℕ) (pcm : List ℕ) → drop header_size (header_bytes n ++ pcm) ≡ pcm
unfolding header_size header_bytes
tail_of n pcm = refl

size_of : (n : ℕ) (pcm : List ℕ) → length (header_bytes n ++ pcm) ≡ header_size + length pcm
unfolding header_size header_bytes
size_of n pcm = omega arith

header_ok : (n : ℕ) → 36 + n < 2 ^ 32 → expected_header n ≡ ok (header_bytes n)
unfolding expected_header
header_ok n h = ground arith

-- The writer after the samples are staged, with nothing disturbed.
abbrev ready : ℕ → List ℕ → Writer
ready inode pcm = record {
  is_open = true;
  stream = pcm;
  source_identity = inode;
  byte_count = length pcm;
  hashed = pcm;
  published = false;
  published_identity = none;
  temporary = some (record { inode = inode; bytes = []; is_symlink = false });
  final_temporary = none;
  destination = none;
}

staged-open_writer :
    (inode : ℕ) (pcm : List ℕ) → staged pcm (open_writer inode none) ≡ ready inode pcm
unfolding open_writer
staged-open_writer inode pcm i = record (ready inode pcm) { byte_count = zero-add (length pcm) i }

module _ (tools : Tools) (system : System) (inode : ℕ) (pcm : List ℕ) where
  source_ok :
      system.flushes ≡ true
      → (frames : ℕ) → frames * 2 ≡ length pcm
      → check_source tools system (some (length pcm)) (some frames) (ready inode pcm)
        ≡ (ok tt, ready inode pcm)
  unfolding check_source
  source_ok f frames h = ground arith

  abbrev copied_writer : Writer
  copied_writer = record (ready inode pcm) { final_temporary = some (new_file tools system pcm) }

  copy_ok :
      36 + length pcm < 2 ^ 32
      → tools.wave pcm ≡ header_bytes (length pcm) ++ pcm
      → copy_and_check tools system (ready inode pcm) ≡ (ok tt, copied_writer)
  unfolding copy_and_check
  copy_ok fits wave =
      let n = length pcm in
      let head : take header_size (tools.wave pcm) ≡ header_bytes n =
        ap (take header_size) wave ∙ head_of n pcm in
      let tail : drop header_size (tools.wave pcm) ≡ pcm =
        ap (drop header_size) wave ∙ tail_of n pcm in
      let size : length (tools.wave pcm) ≡ header_size + n = ap length wave ∙ size_of n pcm in
      ground (
        arith,
        header_ok n fits,
        bytes_eq_refl (header_bytes n),
        ap (λ x. bytes_eq x (header_bytes n)) head,
        ap tools.digest tail,
        size,
      )

  publish_ok :
      system.renames ≡ true
      → system.syncs ≡ true
      → system.unlinks ≡ true
      → publish tools system copied_writer ≡ (
        ok tt,
        record copied_writer {
          is_open = false;
          destination = some (new_file tools system pcm);
          final_temporary = none;
          published_identity = some system.fresh;
          published = true;
          temporary = none;
        },
      )
  unfolding publish
  publish_ok r s u = ground arith

  abbrev final_writer : Writer
  final_writer = record copied_writer {
    is_open = false;
    destination = some (new_file tools system pcm);
    final_temporary = none;
    published_identity = some system.fresh;
    published = true;
    temporary = none;
  }

  finalize-ready :
      (frames : ℕ)
      → frames * 2 ≡ length pcm
      → 36 + length pcm < 2 ^ 32
      → tools.wave pcm ≡ header_bytes (length pcm) ++ pcm
      → system.flushes ≡ true
      → system.renames ≡ true
      → system.syncs ≡ true
      → system.unlinks ≡ true
      → finalize tools system (some (length pcm)) (some frames) (ready inode pcm)
        ≡ (ok tt, final_writer)
  unfolding finalize
  finalize-ready frames h fits wave f r s u = ap (aborting system.aborting) (
      ap (λ x. continue x (λ _. copy_and_check tools system >> publish tools system))
        (source_ok f frames h)
      ∙ ap (λ x. continue x (λ _. publish tools system)) (copy_ok fits wave)
      ∙ publish_ok r s u)

open_unpublished :
    (inode : ℕ)
    → ((open_writer inode none).published ≡ false) × ((open_writer inode none).is_open ≡ true)
unfolding open_writer
open_unpublished inode = (refl, refl)

-- Let the `wave` module write the expected header and the samples, and let the system not fail. Then
-- a new writer for an unused path that is given chunks of whole samples, of fewer than 2 ^ 32 - 36
-- bytes together, and is finalized with their totals, publishes a file that is the header followed by
-- the chunks.
pub finalize-total :
    (tools : Tools) (system : System) (inode : ℕ) (ps : List (List ℕ)) (frames : ℕ)
    → All IsAligned ps
    → frames * 2 ≡ length (concat ps)
    → 36 + length (concat ps) < 2 ^ 32
    → tools.wave (concat ps) ≡ header_bytes (length (concat ps)) ++ concat ps
    → system.flushes ≡ true
    → system.renames ≡ true
    → system.syncs ≡ true
    → system.unlinks ≡ true
    → (w : Writer) × ((do
      write_all ps
      finalize tools system (some (length (concat ps))) (some frames))
          (open_writer inode none)
        ≡ (ok tt, w))
      × (Option.map (λ f. f.bytes) w.destination
          ≡ some (header_bytes (length (concat ps)) ++ concat ps))
      × (w.published ≡ true)
finalize-total tools system inode ps frames aligned whole fits wave f r s u = (
  final_writer tools system inode (concat ps),
  ap (λ x. continue x (λ _. finalize tools system (some (length (concat ps))) (some frames)))
        (write_all_ok ps (open_writer inode none) (open_unpublished inode).0
          (open_unpublished inode).1 aligned)
      ∙ ap (finalize tools system (some (length (concat ps))) (some frames))
          (staged-open_writer inode (concat ps))
      ∙ finalize-ready tools system inode (concat ps) frames whole fits wave f r s u,
  ap some wave,
  refl,
)
