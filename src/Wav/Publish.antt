-- ===== src/Wav/Publish.antt =====
-- What `finalize` publishes.
use tts_studio.Base.{
  ℕ, ◌+◌, ◌≡◌, refl, ap, true, false, Option, none, some, List, [], ◌∷◌, arith, length, take, drop,
  if-false, sym, ◌∙◌, ◌∙◌,
}
use mathlib.Core.Path.{subst}
use tts_studio.Base.Exec.{Error, Result, ok, err, Exec, bind-eq-ok, ◌>>◌}
use tts_studio.Wav.Header.{expected_header}
use tts_studio.Wav.Writer.{
  reraise, aborting, abort, header_size, check_source, copy_and_check, publish, File, Writer, Tools,
  System, Unlinks, finalize, bytes_eq,
}

pub bytes_eq_sound : (xs ys : List ℕ) → bytes_eq xs ys ≡ true → xs ≡ ys
unfolding bytes_eq
bytes_eq_sound [] [] h = refl
bytes_eq_sound [] (y ∷ ys) h = cc
bytes_eq_sound (x ∷ xs) [] h = cc
bytes_eq_sound (x ∷ xs) (y ∷ ys) h = ground (arith, bytes_eq_sound xs ys)

abbrev pub new_file : Tools → System → List ℕ → File
new_file tools system pcm = record {
  inode = system.fresh;
  bytes = tools.wave pcm;
  is_symlink = false;
}

module _ (tools : Tools) (system : System) where
  pub source_unchanged :
      (bytes frames : Option ℕ) (w v : Writer)
      → check_source tools system bytes frames w ≡ (ok tt, v)
      → v ≡ w
  unfolding check_source
  source_unchanged bytes frames w v h = ground arith

  pub copied :
      (w v : Writer)
      → copy_and_check tools system w ≡ (ok tt, v)
      → (v ≡ record w { final_temporary = some (new_file tools system w.stream) })
        × (length w.stream ≡ w.byte_count)
        × (length (tools.wave w.stream) ≡ header_size + w.byte_count)
        × (tools.digest (drop header_size (tools.wave w.stream)) ≡ tools.digest w.hashed)
  unfolding copy_and_check
  copied w v h = ground arith

  pub copied_header :
      (w v : Writer) {header : List ℕ}
      → expected_header w.byte_count ≡ ok header
      → copy_and_check tools system w ≡ (ok tt, v)
      → take header_size (tools.wave w.stream) ≡ header
  unfolding copy_and_check
  copied_header w v {header} e h =
      bytes_eq_sound (take header_size (tools.wave w.stream)) header (ground arith)

  pub released :
      (w v : Writer)
      → publish tools system w ≡ (ok tt, v)
      → (v.destination ≡ w.final_temporary)
        × (v.published ≡ true)
        × (v.temporary ≡ none)
        × (v.final_temporary ≡ none)
  unfolding publish
  released w v h = ground arith

  abbrev pub all_steps : Option ℕ → Option ℕ → Exec Writer (Unit {0})
  all_steps bytes frames = do
    check_source tools system bytes frames
    copy_and_check tools system
    publish tools system

  steps_ok :
      (bytes frames : Option ℕ) (w v : Writer) {header : List ℕ}
      → expected_header w.byte_count ≡ ok header
      → all_steps bytes frames w ≡ (ok tt, v)
      → (v.destination ≡ some (new_file tools system w.stream))
        × (v.published ≡ true)
        × (v.temporary ≡ none)
        × (v.final_temporary ≡ none)
        × (take header_size (tools.wave w.stream) ≡ header)
        × (length (tools.wave w.stream) ≡ header_size + w.byte_count)
        × (tools.digest (drop header_size (tools.wave w.stream)) ≡ tools.digest w.hashed)
  steps_ok bytes frames w v {header} e h =
      let (_, w₁, e₁, k₁) =
        bind-eq-ok (check_source tools system bytes frames)
          (λ _. copy_and_check tools system >> publish tools system) w h in
      let s₁ = source_unchanged bytes frames w w₁ e₁ in
      let (_, w₂, e₂, k₂) =
        bind-eq-ok (copy_and_check tools system) (λ _. publish tools system) w₁ k₁ in
      let e₂' = subst (λ x. copy_and_check tools system x ≡ (ok tt, w₂)) s₁ e₂ in
      let (s₂, n, l, d) = copied w w₂ e₂' in
      let (dest, p, t, f) = released w₂ v k₂ in
      (dest ∙ ap (λ x. x.final_temporary) s₂, p, t, f, copied_header w w₂ e e₂', l, d)

reraise_fails :
    (e : Error) (r : Result (Unit {0}) × Writer) {w : Writer}
    → reraise {A = Unit {0}} e r ≡ (ok tt, w)
    → ⊥
reraise_fails e (ok u, v) h = cc
reraise_fails e (err x, v) h = cc

aborting_ok :
    (unlinks : Unlinks) (r : Result (Unit {0}) × Writer) {w : Writer}
    → aborting unlinks r ≡ (ok tt, w)
    → r ≡ (ok tt, w)
aborting_ok unlinks (ok u, v) h = h
aborting_ok unlinks (err e, v) h = absurd (reraise_fails e (abort unlinks v) h)

-- What `finalize` has done when it has not raised, of a writer that had not published: the
-- destination is a new file with the expected header, of the declared size, whose samples have the
-- digest of all that was written, and both temporary files are gone.
pub finalize-published :
    (tools : Tools) (system : System) (bytes frames : Option ℕ) (w w' : Writer) (header : List ℕ)
    → w.published ≡ false
    → expected_header w.byte_count ≡ ok header
    → finalize tools system bytes frames w ≡ (ok tt, w')
    → (file : File) × (w'.destination ≡ some file)
      × (w'.published ≡ true)
      × (w'.temporary ≡ none)
      × (w'.final_temporary ≡ none)
      × (take header_size file.bytes ≡ header)
      × (length file.bytes ≡ header_size + w.byte_count)
      × (tools.digest (drop header_size file.bytes) ≡ tools.digest w.hashed)
unfolding finalize
finalize-published tools system bytes frames w w' header fresh e h =
    let run = all_steps tools system bytes frames w in
    let h' : aborting system.aborting run ≡ (ok tt, w') =
      sym (if-false w.published (ok tt, w) (aborting system.aborting run) fresh) ∙ h in
    let (d, p, t, f, x, l, g) =
      steps_ok tools system bytes frames w w' e (aborting_ok system.aborting run h') in
    (new_file tools system w.stream, d, p, t, f, x, l, g)
