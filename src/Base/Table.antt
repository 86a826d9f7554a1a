-- ===== src/Base/Table.antt =====
-- SQL tables as lists of rows, in insertion order, with the statements that the registries use.
pub mod Grows
use Prim.Native.String.{String}
use mathlib.Core.Path.{◌≡◌, refl, subst}
use mathlib.Core.Logic.{◌⊎◌, inl, inr}
use mathlib.Core.Bool.{Bool, true, false}
use mathlib.Core.Option
use mathlib.Core.Option.{Option, none, some}
use mathlib.Core.List.{List, [], ◌∷◌, ◌++◌}
use native.Mathlib.Omega.{arith}
use text.Mathlib.Text.{◌==◌}
use text.Mathlib.TextEquality.{eq_iff}
use tts_studio.Base.Tests.{if◌then◌else◌, Bool-cases}
use tts_studio.Base.Lists.{All}

module _ {A : Type 0} (key : A → String) where
  -- `SELECT * … WHERE key = ?` with `fetchone`.
  unfoldable pub select : String → List A → Option A
  select k [] = none
  select k (a ∷ t) = if key a == k then some a else select k t

  -- `UPDATE … WHERE key = ?`.
  unfoldable pub update : String → (A → A) → List A → List A
  update k f [] = []
  update k f (a ∷ t) = (if key a == k then f a else a) ∷ update k f t

  -- `DELETE … WHERE key = ?`.
  unfoldable pub delete : String → List A → List A
  delete k [] = []
  delete k (a ∷ t) = let rest = delete k t in if key a == k then rest else a ∷ rest

  pub select-update :
      (j k : String) (f : A → A) (t : List A)
      → ((a : A) → key (f a) ≡ key a)
      → select j (update k f t) ≡ (if k == j then Option.map f (select j t) else select j t)
  unfolding select update
  select-update j k f [] h = ground arith
  select-update j k f (a ∷ t) h =
      ground (arith, h a, eq_iff k j, eq_iff (key a) j, eq_iff (key a) k, select-update j k f t h)

  pub select-delete :
      (j k : String) (t : List A) → select j (delete k t) ≡ (if k == j then none else select j t)
  unfolding select delete
  select-delete j k [] = ground arith
  select-delete j k (a ∷ t) =
      ground (arith, eq_iff k j, eq_iff (key a) j, eq_iff (key a) k, select-delete j k t)

  pub select-append :
      (j : String) (t u : List A)
      → select j (t ++ u) ≡ elim (select j t) [ none ↦ select j u | some a ↦ some a ]
  unfolding select
  select-append j [] u = refl
  select-append j (a ∷ t) u = ground (arith, select-append j t u)

  if-some :
      (b : Bool) (x : A) (o : Option A) {a : A}
      → (if b then some x else o) ≡ some a
      → ((b ≡ true) × (x ≡ a)) ⊎ ((b ≡ false) × (o ≡ some a))
  if-some true x o h = inl (refl, (cc))
  if-some false x o h = inr (refl, h)

  pub key-select : (k : String) (t : List A) {a : A} → select k t ≡ some a → key a ≡ k
  unfolding select
  key-select k [] h = ground arith
  key-select k (b ∷ t) h = elim (if-some (key b == k) b (select k t) h) [
    | inl (e, p) ↦ subst (λ x. key x ≡ k) p ((eq_iff (key b) k).0 e)
    | inr (_, p) ↦ key-select k t p
  ]

  pub All-select {κ} :
      (P : A → Type κ) (k : String) (t : List A) {a : A} → All P t → select k t ≡ some a → P a
  unfolding select
  All-select P k [] all h = cc
  All-select P k (b ∷ t) all h = elim (if-some (key b == k) b (select k t) h) [
    | inl (_, p) ↦ subst P p all.0
    | inr (_, p) ↦ All-select P k t all.1 p
  ]

  if-update {κ} :
      (P : A → Type κ) (b : Bool) (f : A → A) (a : A)
      → (b ≡ true → P (f a))
      → P a
      → P (if b then f a else a)
  if-update P true f a step h = step refl
  if-update P false f a step h = h

  -- Only the rows with the key are rewritten.
  pub All-update {κ} :
      (P : A → Type κ) (k : String) (f : A → A) (t : List A)
      → ((a : A) → key a ≡ k → P a → P (f a))
      → All P t
      → All P (update k f t)
  unfolding update
  All-update P k f [] step all = tt
  All-update P k f (a ∷ t) step all = (
    if-update P (key a == k) f a (λ e. step a ((eq_iff (key a) k).0 e) all.0) all.0,
    All-update P k f t step all.1,
  )

  pub All-delete {κ} : (P : A → Type κ) (k : String) (t : List A) → All P t → All P (delete k t)
  unfolding delete
  All-delete P k [] all = tt
  All-delete P k (a ∷ t) all = elim (Bool-cases (key a == k)) [
    | inl e ↦ rw e (All-delete P k t all.1)
    | inr e ↦ rw e (all.0, All-delete P k t all.1)
  ]
