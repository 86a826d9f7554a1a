-- ===== src/Registry/Calls/Retried.antt =====
-- A Generation Job is retried once, whatever the registry is called for.
use tts_studio.Base.{
  String, ◌≡◌, refl, ap, ◌∙◌, some, List, [], ◌∷◌, ◌++◌, arith, str_eq, Bool, Bool-cases, inl, inr,
  opt_eq, true, if◌then◌else◌,
}
use mathlib.Core.Option.{some-injective}
use tts_studio.Base.Exec.{ok}
use tts_studio.Base.Table.{update}
use tts_studio.Registry.Domain.{GenerationJob, Db, job_key}
use tts_studio.Registry.Jobs.{NewJob, create_job, retry_for}
use tts_studio.Registry.Jobs.Retries.{IsWellFormed, again, found}
use tts_studio.Registry.Evolution.{JobChange, keep, add, rewrite}
use tts_studio.Registry.Alignments.Runs.{Encoding}
use tts_studio.Registry.Calls.{Call, step, run}
use tts_studio.Registry.Calls.Jobs.{step-JobChange}

-- The retry of the job `k` has the id `id`.
abbrev IsRetried : String → String → List GenerationJob → Type 0
IsRetried k id t = (j : GenerationJob) × (retry_for k t ≡ some j) × (j.id ≡ id)

retry_for_kept :
    (k : String) (t u : List GenerationJob) (j : GenerationJob)
    → retry_for k t ≡ some j
    → retry_for k (t ++ u) ≡ some j
unfolding retry_for
retry_for_kept k [] u j h = absurd (ground arith)
retry_for_kept k (x ∷ t) u j h = ground (arith, retry_for_kept k t u j)

retried_row :
    (b : Bool) (f : GenerationJob → GenerationJob) (x : GenerationJob)
    → (f x).id ≡ x.id
    → (f x).retry_of ≡ x.retry_of
    → ((if b then f x else x).id ≡ x.id) × ((if b then f x else x).retry_of ≡ x.retry_of)
retried_row b f x e e' = ground arith

-- A row that is rewritten keeps its place among the retries.
cons-IsRetried :
    (k id : String) (x y : GenerationJob) (t u : List GenerationJob)
    → y.id ≡ x.id
    → y.retry_of ≡ x.retry_of
    → (IsRetried k id t → IsRetried k id u)
    → IsRetried k id (x ∷ t)
    → IsRetried k id (y ∷ u)
unfolding retry_for
cons-IsRetried k id x y t u same kept more (j, h, e) =
    elim (Bool-cases (opt_eq x.retry_of (some k))) [
      | inl b ↦ (y, rw (kept, b) refl, same ∙ first b)
      | inr b ↦ let (i, g, d) = more (j, ground arith, e) in (i, rw (kept, b) g, d)
    ]
  where
    first : opt_eq x.retry_of (some k) ≡ true → x.id ≡ id
    first b = ap (λ a. a.id) (some-injective x j (ground arith)) ∙ e

retry_for-update :
    (k key id : String) (f : GenerationJob → GenerationJob) (t : List GenerationJob)
    → ((a : GenerationJob) → (f a).id ≡ a.id)
    → ((a : GenerationJob) → (f a).retry_of ≡ a.retry_of)
    → IsRetried k id t
    → IsRetried k id (update job_key key f t)
unfolding update retry_for
retry_for-update k key id f [] same kept (j, h, e) = absurd (ground arith)
retry_for-update k key id f (x ∷ t) same kept r =
    let (i, e) = retried_row (str_eq x.id key) f x (same x) (kept x) in
    cons-IsRetried k id x (if str_eq x.id key then f x else x) t (update job_key key f t) i e
      (retry_for-update k key id f t same kept) r

change-IsRetried :
    (k id : String) (t t' : List GenerationJob)
    → JobChange t t'
    → IsRetried k id t
    → IsRetried k id t'
change-IsRetried k id t t' (keep p) (j, h, e) = (j, ap (retry_for k) p ∙ h, e)
change-IsRetried k id t t' (add now i a p) (j, h, e) =
    (j, ap (retry_for k) p ∙ retry_for_kept k t _ j h, e)
change-IsRetried k id t t' (rewrite key f same kept _ _ p) r =
    let (j, h, e) = retry_for-update k key id f t same kept r in (j, ap (retry_for k) p ∙ h, e)

still-IsRetried :
    (enc : Encoding) (k id : String) (db : Db) (cs : List (String × Call))
    → IsRetried k id db.jobs
    → IsRetried k id (run enc db cs).jobs
unfolding run
still-IsRetried enc k id db [] r = r
still-IsRetried enc k id db ((now, c) ∷ cs) r =
    still-IsRetried enc k id (step enc db now c) cs
      (change-IsRetried k id db.jobs (step enc db now c).jobs (step-JobChange enc db now c) r)

-- Once a job has been retried, every well-formed request to retry it again, whatever its arguments
-- and time and whatever the registry was called for in between, returns the job of the same id and
-- changes nothing.
pub create_job_retried :
    (enc : Encoding) (now fresh now' fresh' k : String) (a b : NewJob) (db db' : Db)
    (j : GenerationJob) (cs : List (String × Call))
    → a.retry_of ≡ some k
    → create_job now fresh a db ≡ (ok j, db')
    → b.retry_of ≡ some k
    → IsWellFormed fresh' b
    → (j' : GenerationJob) × (create_job now' fresh' b (run enc db' cs) ≡ (ok j', run enc db' cs))
      × (j'.id ≡ j.id)
create_job_retried enc now fresh now' fresh' k a b db db' j cs e h e' w =
    let (j', r, same) =
      still-IsRetried enc k j.id db' cs (j, found now fresh k a db db' j e h, refl) in
    (j', again now' fresh' k b (run enc db' cs) j' w e' r, same)
