-- ===== src/Registry/Shape/Nul.antt =====
-- A text has a NUL exactly when its UTF-8 bytes have a zero, and so has no range of the bytes of a
-- text without one.
use Prim.Native.Char.{code}
use tts_studio.Base.Tests.{has_nul}
use tts_studio.Base.{
  ℕ, String, ◌≡◌, refl, ap, sym, ◌∙◌, Bool, true, false, ◌||◌, List, [], ◌∷◌, ◌++◌, arith, ◌==◌,
  zero, suc, take, drop, ◌-◌,
}
use tts_studio.Registry.Shape.{utf8, utf8_char, slice, bytes_eq}
use tts_studio.Registry.Shape.Units.{bytes_eq_iff}

unfoldable has_zero : List ℕ → Bool
has_zero [] = false
has_zero (b ∷ bs) = b == 0 || has_zero bs

has_zero-append : (xs ys : List ℕ) → has_zero (xs ++ ys) ≡ (has_zero xs || has_zero ys)
unfolding has_zero
has_zero-append [] ys = refl
has_zero-append (x ∷ xs) ys = ground (arith, has_zero-append xs ys)

has_zero-utf8_char : (c : ℕ) → has_zero (utf8_char c) ≡ (c == 0)
unfolding has_zero utf8_char
has_zero-utf8_char c = ground arith

has_zero-utf8 : (s : String) → has_zero (utf8 s) ≡ has_nul s
unfolding has_zero utf8 has_nul
has_zero-utf8 String.[] = refl
has_zero-utf8 (String.◌∷◌ c s) =
    has_zero-append (utf8_char (code c)) (utf8 s)
    ∙ ground (arith, has_zero-utf8_char (code c), has_zero-utf8 s)

has_zero-take : (n : ℕ) (xs : List ℕ) → has_zero xs ≡ false → has_zero (take n xs) ≡ false
unfolding has_zero
has_zero-take zero xs h = refl
has_zero-take (suc n) [] h = refl
has_zero-take (suc n) (x ∷ xs) h = ground (arith, has_zero-take n xs)

has_zero-drop : (n : ℕ) (xs : List ℕ) → has_zero xs ≡ false → has_zero (drop n xs) ≡ false
unfolding has_zero
has_zero-drop zero xs h = h
has_zero-drop (suc n) [] h = h
has_zero-drop (suc n) (x ∷ xs) h = has_zero-drop n xs (ground arith)

pub no_nul_in_range :
    (start end : ℕ) (text part : String)
    → has_nul text ≡ false
    → bytes_eq (slice start end (utf8 text)) (utf8 part) ≡ true
    → has_nul part ≡ false
no_nul_in_range start end text part h e =
    sym (has_zero-utf8 part)
    ∙ ap has_zero (sym (bytes_eq_iff (slice start end (utf8 text)) (utf8 part) e))
    ∙ has_zero-take (end - start) (drop start (utf8 text))
        (has_zero-drop start (utf8 text) (has_zero-utf8 text ∙ h))
