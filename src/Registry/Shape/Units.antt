-- ===== src/Registry/Shape/Units.antt =====
-- What the units of a valid alignment are.
use mathlib.Core.Path.{subst}
use tts_studio.Base.{ℕ, ◌≤◌, ◌<◌, ◌≡◌, refl, true, List, [], ◌∷◌, ◌++◌, arith, length}
use tts_studio.Base.Exec.{ok}
use tts_studio.Registry.Domain.{AlignmentUnit, AlignmentResult}
use tts_studio.Registry.Shape.{
  utf8, bytes_eq, slice, nat_of, is_unit_valid, are_units_valid, validate_alignment_shape,
  is_shape_valid,
}

pub bytes_eq_iff : (xs ys : List ℕ) → bytes_eq xs ys ≡ true → xs ≡ ys
unfolding bytes_eq
bytes_eq_iff [] [] h = refl
bytes_eq_iff [] (y ∷ ys) h = cc
bytes_eq_iff (x ∷ xs) [] h = cc
bytes_eq_iff (x ∷ xs) (y ∷ ys) h = ground (arith, bytes_eq_iff xs ys)

-- The unit starts after the given ends, is not empty, stays within the bounds, and its text is the
-- one of its range.
pub record IsPlaced (bytes : List ℕ) (frames prev_source prev_frame : ℕ) (u : AlignmentUnit)
    : Type 0 where
  pub after : prev_source ≤ nat_of u.source_start
  pub some_source : nat_of u.source_start < nat_of u.source_end
  pub in_source : nat_of u.source_end ≤ length bytes
  pub after_frame : prev_frame ≤ nat_of u.start_frames
  pub some_frames : nat_of u.start_frames ≤ nat_of u.end_frames
  pub in_frames : nat_of u.end_frames ≤ frames
  pub same_text : slice (nat_of u.source_start) (nat_of u.source_end) bytes ≡ utf8 u.text

unit-IsPlaced :
    (bytes : List ℕ) (frames ps pf : ℕ) (u : AlignmentUnit)
    → is_unit_valid bytes frames ps pf u ≡ true
    → IsPlaced bytes frames ps pf u
unfolding is_unit_valid
unit-IsPlaced bytes frames ps pf u h = record {
  after = ground arith;
  some_source = ground arith;
  in_source = ground arith;
  after_frame = ground arith;
  some_frames = ground arith;
  in_frames = ground arith;
  same_text =
      bytes_eq_iff (slice (nat_of u.source_start) (nat_of u.source_end) bytes) (utf8 u.text)
        (ground arith);
}

-- Every unit starts after the unit before it has ended.
unfoldable pub ArePlaced : List ℕ → ℕ → ℕ → ℕ → List AlignmentUnit → Type 0
ArePlaced bytes frames ps pf [] = Unit
ArePlaced bytes frames ps pf (u ∷ us) =
    IsPlaced bytes frames ps pf u
    × ArePlaced bytes frames (nat_of u.source_end) (nat_of u.end_frames) us

units-ArePlaced :
    (bytes : List ℕ) (frames ps pf : ℕ) (us : List AlignmentUnit)
    → are_units_valid bytes frames ps pf us ≡ true
    → ArePlaced bytes frames ps pf us
unfolding are_units_valid ArePlaced
units-ArePlaced bytes frames ps pf [] h = tt
units-ArePlaced bytes frames ps pf (u ∷ us) h = (
  unit-IsPlaced bytes frames ps pf u (ground arith),
  units-ArePlaced bytes frames (nat_of u.source_end) (nat_of u.end_frames) us (ground arith),
)

-- A unit behind others is placed, after ends that are no earlier.
later :
    (bytes : List ℕ) (frames ps pf : ℕ) (xs ys : List AlignmentUnit) (v : AlignmentUnit)
    → ArePlaced bytes frames ps pf (xs ++ v ∷ ys)
    → (ps' : ℕ) × (pf' : ℕ) × (ps ≤ ps')
      × (pf ≤ pf')
      × IsPlaced bytes frames ps' pf' v
      × ArePlaced bytes frames (nat_of v.source_end) (nat_of v.end_frames) ys
unfolding ArePlaced
later bytes frames ps pf [] ys v h = (ps, pf, omega arith, omega arith, h.0, h.1)
later bytes frames ps pf (x ∷ xs) ys v h =
    let (ps', pf', a, b, p, r) =
      later bytes frames (nat_of x.source_end) (nat_of x.end_frames) xs ys v h.1 in
    let before = h.0 in
    (
      ps',
      pf',
      omega (arith, before.after, before.some_source),
      omega (arith, before.after_frame, before.some_frames),
      p,
      r,
    )

-- What holds of a unit wherever it stands.
anywhere :
    {bytes : List ℕ} {frames ps pf : ℕ} {u : AlignmentUnit}
    → IsPlaced bytes frames ps pf u
    → IsPlaced bytes frames 0 0 u
anywhere p = record {
  after = omega arith;
  some_source = p.some_source;
  in_source = p.in_source;
  after_frame = omega arith;
  some_frames = p.some_frames;
  in_frames = p.in_frames;
  same_text = p.same_text;
}

validated :
    (r : AlignmentResult)
    → validate_alignment_shape r ≡ ok tt
    → ArePlaced (utf8 r.transcript) (nat_of r.total_frames) 0 0 r.units
unfolding validate_alignment_shape is_shape_valid
validated r h =
    units-ArePlaced (utf8 r.transcript) (nat_of r.total_frames) 0 0 r.units (ground arith)

-- Of two units of a validated alignment, the first ends before the second starts, in the text and
-- in the audio; each stands for a range of the transcript's bytes that is its own text, and for
-- frames of the audio.
pub units_apart :
    (r : AlignmentResult) (xs ys zs : List AlignmentUnit) (u v : AlignmentUnit)
    → validate_alignment_shape r ≡ ok tt
    → r.units ≡ xs ++ u ∷ (ys ++ v ∷ zs)
    → (nat_of u.source_end ≤ nat_of v.source_start)
      × (nat_of u.end_frames ≤ nat_of v.start_frames)
      × IsPlaced (utf8 r.transcript) (nat_of r.total_frames) 0 0 u
      × IsPlaced (utf8 r.transcript) (nat_of r.total_frames) 0 0 v
units_apart r xs ys zs u v h e =
    let (_, _, _, _, p, rest) =
      later (utf8 r.transcript) (nat_of r.total_frames) 0 0 xs (ys ++ v ∷ zs) u
        (subst (ArePlaced (utf8 r.transcript) (nat_of r.total_frames) 0 0) e (validated r h)) in
    let (_, _, q, s, w, _) =
      later (utf8 r.transcript) (nat_of r.total_frames) (nat_of u.source_end) (nat_of u.end_frames)
        ys zs v rest in
    (omega (arith, q, w.after), omega (arith, s, w.after_frame), anywhere p, anywhere w)
