-- ===== src/Base/Table/Grows.antt =====
-- A table that keeps its rows: each row is still found by its key, in a later form.
use Prim.Native.String.{String}
use mathlib.Core.Path.{◌≡◌, refl, sym, ap, ◌∙◌, subst}
use mathlib.Core.Bool.{Bool, true, false}
use mathlib.Core.Option
use mathlib.Core.Option.{Option, none, some}
use mathlib.Core.List.{List, ◌++◌}
use text.Mathlib.Text.{◌==◌}
use text.Mathlib.TextEquality.{eq_iff}
use tts_studio.Base.Tests.{if◌then◌else◌}
use tts_studio.Base.Table.{select, update, select-update, select-append}

-- `Later` relates a row to what it may become.
pub record Grows {A : Type 0} (key : A → String) (Later : A → A → Type 0) (t t' : List A)
    : Type 0 where
  pub at :
      (k : String) (a : A)
      → select key k t ≡ some a
      → (a' : A) × (select key k t' ≡ some a') × Later a a'

module _ {A : Type 0} (key : A → String) (Later : A → A → Type 0) where
  pub Grows-refl : ((a : A) → Later a a) → (t : List A) → Grows key Later t t
  Grows-refl same t = record { at = λ k a e. (a, e, same a) }

  pub Grows-trans :
      ((a b c : A) → Later a b → Later b c → Later a c)
      → (t u v : List A) → Grows key Later t u
      → Grows key Later u v
      → Grows key Later t v
  Grows-trans chain t u v r s = record {
    at = λ k a e.
        let (b, e', l) = r.at k a e in let (c, e'', m) = s.at k b e' in (c, e'', chain a b c l m);
  }

  pub Grows-append : ((a : A) → Later a a) → (t u : List A) → Grows key Later t (t ++ u)
  Grows-append same t u = record {
    at = λ k a e. (
      a,
      select-append key k t u
          ∙ ap (λ o. elim o as (λ _. Option A) [ none ↦ select key k u | some x ↦ some x ]) e,
      same a,
    );
  }

  updated :
      (b : Bool) (f : A → A) (a : A) (o : Option A)
      → o ≡ some a
      → (b ≡ true → Later a (f a))
      → Later a a
      → (a' : A) × ((if b then Option.map f o else o) ≡ some a') × Later a a'
  updated true f a o e step same = (f a, ap (Option.map f) e, step refl)
  updated false f a o e step same = (a, e, same)

  -- An UPDATE by key grows the table if it takes the row that it finds to a later form.
  pub Grows-update :
      ((a : A) → Later a a)
      → (k : String) (f : A → A) (t : List A) → ((a : A) → key (f a) ≡ key a)
      → ((a : A) → select key k t ≡ some a → Later a (f a))
      → Grows key Later t (update key k f t)
  Grows-update same k f t kept step = record {
    at = λ j a e.
        let (a', p, l) =
          updated (k == j) f a (select key j t) e
            (λ b. step a (subst (λ x. select key x t ≡ some a) (sym ((eq_iff k j).0 b)) e))
            (same a) in
        (a', select-update key j k f t kept ∙ p, l);
  }
