-- ===== src/Base/Outcomes.antt =====
-- What holds at the two ends of a block that may raise, and how the ends of its parts compose.
use tts_studio.Base.Exec.{Error, Result, ok, err, Exec, continue, ◌>>=◌}

module _ {S A : Type 0} where
  -- `Q` holds of the value and the store if the block ends, `E` of the error and the store if it
  -- raises.
  abbrev pub Ends : (A → S → Type 0) → (Error → S → Type 0) → Result A × S → Type 0
  Ends Q E (ok a, s) = Q a s
  Ends Q E (err e, s) = E e s

  pub Ends-weaken :
      (Q R : A → S → Type 0) (E F : Error → S → Type 0) (r : Result A × S)
      → ((a : A) (s : S) → Q a s → R a s)
      → ((e : Error) (s : S) → E e s → F e s)
      → Ends Q E r
      → Ends R F r
  Ends-weaken Q R E F (ok a, s) f g h = f a s h
  Ends-weaken Q R E F (err e, s) f g h = g e s h

module _ {S A B : Type 0} where
  continue-Ends :
      (Q : A → S → Type 0) (R : B → S → Type 0) (E : Error → S → Type 0) (r : Result A × S)
      (f : A → Exec S B)
      → Ends Q E r
      → ((a : A) (s : S) → Q a s → Ends R E (f a s))
      → Ends R E (continue r f)
  continue-Ends Q R E (ok a, s) f h k = k a s h
  continue-Ends Q R E (err e, s) f h k = h

  -- A block in two parts: the second starts where the first has ended.
  pub bind-Ends :
      (Q : A → S → Type 0) (R : B → S → Type 0) (E : Error → S → Type 0) (m : Exec S A)
      (f : A → Exec S B) (s : S)
      → Ends Q E (m s)
      → ((a : A) (t : S) → Q a t → Ends R E (f a t))
      → Ends R E (◌>>=◌ m f s)
  bind-Ends Q R E m f s h k = continue-Ends Q R E (m s) f h k
