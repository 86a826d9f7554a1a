-- ===== src/Registry/Evolution.antt =====
-- How one Generation Job may differ after any calls of the registry, and the same for a whole table.
use mathlib.Core.Option
use mathlib.Core.Option.{some-injective}
use mathlib.Core.Path.{subst}
use tts_studio.Base.{
  ℕ, String, ◌≡◌, refl, ◌∙◌, ap, Bool, true, Option, some, ◌≤◌, arith, ◌⊎◌, str_eq, eq_iff, sym,
  List, ◌++◌, All, All-append, [], ◌∷◌, if◌then◌else◌, false,
}
use tts_studio.Base.Table.{select, update, select-update, select-append, All-update}
use tts_studio.Registry.Domain.{
  GenerationJob, GenerationState, queued, loading, generating, finalizing, completed, cancelled,
  failed, Db, job_at, job_key, is_terminal,
}
use tts_studio.Registry.Jobs.{NewJob, new_row, is_resolution}

-- How far along its life a state is.
abbrev pub rank : GenerationState → ℕ
rank queued = 0
rank loading = 1
rank generating = 2
rank finalizing = 3
rank completed = 4
rank cancelled = 4
rank failed = 4

pub record Later (j j' : GenerationJob) : Type 0 where
  pub same_id : j'.id ≡ j.id
  pub same_model : j'.model_id ≡ j.model_id
  pub same_retain : j'.retain_artifact ≡ j.retain_artifact
  pub more_bytes : j.bytes_written ≤ j'.bytes_written
  pub more_frames : j.frame_count ≤ j'.frame_count
  pub keeps_flag : j.cancellation_requested ≡ true → j'.cancellation_requested ≡ true
  pub stays_ended : is_terminal j.state ≡ true → j'.state ≡ j.state
  pub moves_on : rank j.state ≤ rank j'.state
  pub resolves :
      j.cancellation_requested ≡ true → (j'.state ≡ j.state) ⊎ (is_resolution j'.state ≡ true)

pub Later-refl : (j : GenerationJob) → Later j j
Later-refl j = ground arith

pub Later-trans : {i j k : GenerationJob} → Later i j → Later j k → Later i k
Later-trans {i} {j} {k} a b = ground arith

-- A job that keeps no audio and has ended keeps no text either.
abbrev pub IsPrivateJob : GenerationJob → Type 0
IsPrivateJob j = j.retain_artifact ≡ false → is_terminal j.state ≡ true → j.text ≡ ""

-- Every job of the first database is in the second, later in its life.
pub record Evolves (db db' : Db) : Type 0 where
  pub at :
      (k : String) (j : GenerationJob)
      → job_at k db ≡ some j
      → (j' : GenerationJob) × (job_at k db' ≡ some j') × Later j j'

pub Evolves-refl : (db : Db) → Evolves db db
Evolves-refl db = record { at = λ k j e. (j, e, Later-refl j) }

pub Evolves-trans : {a b c : Db} → Evolves a b → Evolves b c → Evolves a c
Evolves-trans r s = record {
  at = λ k j e.
      let (j', e', l) = r.at k j e in
      let (j'', e'', l') = s.at k j' e' in (j'', e'', Later-trans l l');
}

evolved :
    (b : Bool) (f : GenerationJob → GenerationJob) (o : Option GenerationJob) (j : GenerationJob)
    → o ≡ some j
    → (b ≡ true → Later j (f j))
    → (j' : GenerationJob) × ((if b then Option.map f o else o) ≡ some j') × Later j j'
evolved true f o j e step = (f j, rw e, step refl)
evolved false f o j e step = (j, e, Later-refl j)

-- The row that an UPDATE by id finds is the only one that it rewrites.
pub only :
    (k : String) (f : GenerationJob → GenerationJob) (t : List GenerationJob) {j : GenerationJob}
    → select job_key k t ≡ some j
    → Later j (f j)
    → (a : GenerationJob) → select job_key k t ≡ some a
    → Later a (f a)
only k f t {j} found l a e = subst (λ x. Later x (f x)) (some-injective j a (sym found ∙ e)) l

-- What one call does to the table of jobs: nothing, an INSERT, or an UPDATE of a row that is there.
pub data JobChange (t t' : List GenerationJob) : Type 0 where
  keep : t' ≡ t → JobChange t t'
  add : (now id : String) (a : NewJob) → t' ≡ t ++ new_row now id a ∷ [] → JobChange t t'
  rewrite :
      (k : String) (f : GenerationJob → GenerationJob)
      → ((a : GenerationJob) → (f a).id ≡ a.id)
      → ((a : GenerationJob) → (f a).retry_of ≡ a.retry_of)
      → ((a : GenerationJob) → IsPrivateJob a → IsPrivateJob (f a))
      → ((a : GenerationJob) → select job_key k t ≡ some a → Later a (f a))
      → t' ≡ update job_key k f t
      → JobChange t t'

pub JobChange-Evolves : (db db' : Db) → JobChange db.jobs db'.jobs → Evolves db db'
JobChange-Evolves db db' (keep p) = record {
  at = λ k j e. (j, ap (λ t. select job_key k t) p ∙ e, Later-refl j);
}
JobChange-Evolves db db' (add now id a p) = record {
  at = λ k j e.
      (j, rw (p, select-append job_key k db.jobs (new_row now id a ∷ []), e), Later-refl j);
}
JobChange-Evolves db db' (rewrite k f keeps _ _ l p) = record {
  at = λ i a e.
      rw (p, select-update job_key i k f db.jobs keeps)
        (evolved (str_eq k i) f (job_at i db) a e
          (λ same. l a (subst (λ x. job_at x db ≡ some a) (sym ((eq_iff k i).0 same)) e)));
}

pub JobChange-IsPrivate :
    (t t' : List GenerationJob) → JobChange t t' → All IsPrivateJob t → All IsPrivateJob t'
unfolding new_row
JobChange-IsPrivate t t' (keep p) all = subst (All IsPrivateJob) (sym p) all
JobChange-IsPrivate t t' (add now id a p) all =
    subst (All IsPrivateJob) (sym p) (All-append IsPrivateJob t _ all ((λ _ h. cc), tt))
JobChange-IsPrivate t t' (rewrite k f _ _ private _ p) all =
    subst (All IsPrivateJob) (sym p)
      (All-update job_key IsPrivateJob k f t (λ a _ h. private a h) all)
