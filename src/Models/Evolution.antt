-- ===== src/Models/Evolution.antt =====
-- How a Download Job may differ after the calls of the model registry.
use mathlib.Core.Option.{some-injective}
use mathlib.Core.Path.{subst}
use tts_studio.Base.{
  ℕ, String, ◌≡◌, sym, ◌∙◌, true, Option, none, some, ◌≤◌, arith, List, [], ◌∷◌, ◌++◌,
}
use tts_studio.Base.Exec.{Result}
use tts_studio.Base.{All, All-append}
use tts_studio.Base.Table.{All-update, select, update}
use tts_studio.Base.Table.Grows.{Grows, Grows-refl, Grows-trans, Grows-append, Grows-update}
use tts_studio.Models.Domain.{
  DownloadState, queued, validating, downloading, verifying, activating, completed, cancelled,
  failed, DownloadJob, Db, download_key, is_terminal,
}

-- How far along its life a state is.
abbrev pub rank : DownloadState → ℕ
rank queued = 0
rank validating = 1
rank downloading = 2
rank verifying = 3
rank activating = 4
rank completed = 5
rank cancelled = 5
rank failed = 5

pub record Later (j j' : DownloadJob) : Type 0 where
  pub same_id : j'.id ≡ j.id
  pub same_repository : j'.repository_id ≡ j.repository_id
  pub same_engine : j'.engine_installation_id ≡ j.engine_installation_id
  pub same_staging : j'.staging_path ≡ j.staging_path
  pub more_bytes : j.bytes_downloaded ≤ j'.bytes_downloaded
  pub keeps_flag : j.cancellation_requested ≡ true → j'.cancellation_requested ≡ true
  pub stays_ended : is_terminal j.state ≡ true → j'.state ≡ j.state
  pub moves_on : rank j.state ≤ rank j'.state

pub Later-refl : (j : DownloadJob) → Later j j
Later-refl j = ground arith

pub Later-trans : (i j k : DownloadJob) → Later i j → Later j k → Later i k
Later-trans i j k a b = ground arith

abbrev pub Evolves : List DownloadJob → List DownloadJob → Type 0
Evolves = Grows download_key Later

abbrev pub IsBounded : ℕ → Option ℕ → Type 0
IsBounded b none = Unit
IsBounded b (some t) = b ≤ t

-- The bytes do not exceed a total that is known.
abbrev pub IsBoundedJob : DownloadJob → Type 0
IsBoundedJob j = IsBounded j.bytes_downloaded j.total_bytes

-- What any call does to the table of jobs.
pub record Becomes (t t' : List DownloadJob) : Type 0 where
  pub evolves : Evolves t t'
  pub stays_bounded : All IsBoundedJob t → All IsBoundedJob t'

abbrev pub Keeps {ℓ} : {A : Type ℓ} → Db → Result A × Db → Type 0
Keeps db r = Becomes db.downloads r.1.downloads

pub Becomes-refl : (t : List DownloadJob) → Becomes t t
Becomes-refl t = record {
  evolves = Grows-refl download_key Later Later-refl t;
  stays_bounded = λ h. h;
}

pub Becomes-trans : (t u v : List DownloadJob) → Becomes t u → Becomes u v → Becomes t v
Becomes-trans t u v a b = record {
  evolves = Grows-trans download_key Later Later-trans t u v a.evolves b.evolves;
  stays_bounded = λ h. b.stays_bounded (a.stays_bounded h);
}

pub same : (t t' : List DownloadJob) → t' ≡ t → Becomes t t'
same t t' e = subst (λ x. Becomes t x) (sym e) (Becomes-refl t)

-- The row that an UPDATE by id finds is the only one to look at.
pub rewritten :
    (k : String) (f : DownloadJob → DownloadJob) (t t' : List DownloadJob) {j : DownloadJob}
    → ((a : DownloadJob) → (f a).id ≡ a.id)
    → ((a : DownloadJob) → IsBoundedJob a → IsBoundedJob (f a))
    → select download_key k t ≡ some j
    → Later j (f j)
    → t' ≡ update download_key k f t
    → Becomes t t'
rewritten k f t t' {j} kept bounded found l p =
    subst (λ x. Becomes t x) (sym p)
      (record {
        evolves =
            Grows-update download_key Later Later-refl k f t kept
              (λ a e. subst (λ x. Later x (f x)) (some-injective j a (sym found ∙ e)) l);
        stays_bounded = λ h. All-update download_key IsBoundedJob k f t (λ a _ b. bounded a b) h;
      })

pub appended :
    (t t' : List DownloadJob) (j : DownloadJob) → IsBoundedJob j → t' ≡ t ++ j ∷ [] → Becomes t t'
appended t t' j b p =
    subst (λ x. Becomes t x) (sym p)
      (record {
        evolves = Grows-append download_key Later Later-refl t (j ∷ []);
        stays_bounded = λ h. All-append IsBoundedJob t (j ∷ []) h (b, tt);
      })
