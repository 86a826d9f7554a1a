-- ===== src/Events/Numbered.antt =====
-- Lists of events whose ids count up by one, and what the SQL of the store does to them.
use tts_studio.Base.{
  ℕ, zero, suc, ◌+◌, ◌-◌, ◌≤◌, ◌<◌, ◌≡◌, refl, sym, ap, ◌∙◌, none, some, List, [], ◌∷◌, ◌++◌, arith,
  length, drop, Bool-cases, ◌==◌, ltb, inl, inr,
}
use mathlib.Core.Path.{subst}
use tts_studio.Events.Store.{Event, nth_newest, delete_below, prune, matching, Stream}

abbrev pub IsNumbered : ℕ → List Event → Type 0
IsNumbered k [] = Unit
IsNumbered k (e ∷ es) = (e.id ≡ k) × IsNumbered (k + 1) es

pub IsNumbered-append :
    (k : ℕ) (es : List Event) (e : Event)
    → IsNumbered k es
    → e.id ≡ k + length es
    → IsNumbered k (es ++ e ∷ [])
IsNumbered-append k [] e h q = (omega arith, tt)
IsNumbered-append k (x ∷ es) e h q = (h.0, IsNumbered-append (k + 1) es e h.1 (omega arith))

pub IsNumbered-drop :
    (k n : ℕ) (es : List Event) → n ≤ length es → IsNumbered k es → IsNumbered (k + n) (drop n es)
IsNumbered-drop k zero es h w = subst (λ i. IsNumbered i es) (omega arith) w
IsNumbered-drop k (suc n) [] h w = tt
IsNumbered-drop k (suc n) (x ∷ es) h w =
    subst (λ i. IsNumbered i (drop n es)) (omega arith)
      (IsNumbered-drop (k + 1) n es (omega arith) w.1)

delete_below_le : (t k : ℕ) (es : List Event) → IsNumbered k es → t ≤ k → delete_below t es ≡ es
unfolding delete_below
delete_below_le t k [] w h = refl
delete_below_le t k (e ∷ es) w h = ground (arith, delete_below_le t (k + 1) es w.1)

delete_below-drop :
    (n k : ℕ) (es : List Event) → IsNumbered k es → delete_below (k + n) es ≡ drop n es
unfolding delete_below
delete_below-drop zero k es w = delete_below_le (k + 0) k es w (omega arith)
delete_below-drop (suc n) k [] w = refl
delete_below-drop (suc n) k (e ∷ es) w =
    ground (arith, delete_below-drop n (k + 1) es w.1, ap (λ i. delete_below i es) (shift k n))
  where
    shift : (k n : ℕ) → k + suc n ≡ k + 1 + n
    shift k n = omega arith

nth_newest_short : (n : ℕ) (es : List Event) → length es ≤ n → nth_newest n es ≡ none
unfolding nth_newest
nth_newest_short n [] h = refl
nth_newest_short n (e ∷ es) h = ground (arith, nth_newest_short n es)

nth_newest_id :
    (n k : ℕ) (es : List Event)
    → n < length es
    → IsNumbered k es
    → (e : Event) × (nth_newest n es ≡ some e) × (e.id + n + 1 ≡ k + length es)
unfolding nth_newest
nth_newest_id n k [] h w = elim h [ ]
nth_newest_id n k (e ∷ es) h w = elim (Bool-cases (length es == n)) [
  | inl b ↦ (e, rw b, ground (arith, b))
  | inr b ↦
      let (e', q, i) = nth_newest_id n (k + 1) es (ground (arith, b)) w.1 in
      (e', rw b q, omega arith)
]

-- On ids that count up, pruning keeps the newest `limit` events.
pub prune-drop :
    (limit k : ℕ) (es : List Event)
    → 1 ≤ limit
    → IsNumbered k es
    → prune limit es ≡ drop (length es - limit) es
unfolding prune
prune-drop limit k es h w = elim (Bool-cases (ltb (length es) limit)) [
  | inl b ↦
      let none_left : length es - limit ≡ 0 = ground (arith, b) in
      rw (nth_newest_short (limit - 1) es (ground (arith, b)), none_left)
        (delete_below_le 0 k es w (omega arith))
  | inr b ↦
      let (e, q, i) = nth_newest_id (limit - 1) k es (ground (arith, b)) w in
      let at : e.id ≡ k + (length es - limit) = ground (arith, b, i) in
      rw q (ap (λ t. delete_below t es) at ∙ delete_below-drop (length es - limit) k es w)
]

drop-nil : (n : ℕ) → drop {A = Event} n [] ≡ []
drop-nil zero = refl
drop-nil (suc n) = refl

pub drop-drop : (m n : ℕ) (es : List Event) → drop m (drop n es) ≡ drop (n + m) es
drop-drop m zero es = ap (λ i. drop i es) (omega arith)
drop-drop m (suc n) [] = drop-nil m ∙ sym (drop-nil (suc n + m))
drop-drop m (suc n) (e ∷ es) =
    let one_more : suc (n + m) ≡ suc n + m = omega arith in
    drop-drop m n es ∙ ap (λ i. drop i (e ∷ es)) one_more

pub drop-append : (n : ℕ) (es fs : List Event) → n ≤ length es → drop n (es ++ fs) ≡ drop n es ++ fs
drop-append zero es fs h = refl
drop-append (suc n) [] fs h = elim h [ ]
drop-append (suc n) (e ∷ es) fs h = drop-append n es fs (omega arith)

-- Nothing at or before the cursor is wanted.
pub matching-drop :
    (c k n : ℕ) (s : Stream) (es : List Event)
    → IsNumbered k es
    → k + n ≤ c + 1
    → matching c s (drop n es) ≡ matching c s es
unfolding matching
matching-drop c k zero s es w h = refl
matching-drop c k (suc n) s [] w h = refl
matching-drop c k (suc n) s (e ∷ es) w h = matching-drop c (k + 1) n s es w.1 (omega arith) ∙ skip s
  where
    skip : (s : Stream) → matching c s es ≡ matching c s (e ∷ es)
    skip (none, i) = ground (arith, w)
    skip (some j, i) = ground (arith, w)
