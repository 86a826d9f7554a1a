-- ===== src/Registry/Jobs/Retries.antt =====
-- The retry of a Generation Job that `create_job` finds and makes.
use tts_studio.Base.{
  String, ◌≡◌, ap, ◌∙◌, true, false, none, some, List, [], ◌∷◌, ◌++◌, arith, has_nul, is_safe_text,
  Option-cases, inl, inr,
}
use text.Mathlib.TextPositions.{eq_refl}
use tts_studio.Base.Exec.{ok, transaction}
use tts_studio.Base.Table.{select, select-append}
use tts_studio.Registry.Domain.{GenerationJob, Db, job_key}
use tts_studio.Registry.Jobs.{
  NewJob, create_job, retry_for, new_row, or_fresh, has_one_source, retry_or_insert, insert_job,
}

retry_for-append :
    (k : String) (t : List GenerationJob) (j : GenerationJob)
    → retry_for k t ≡ none
    → j.retry_of ≡ some k
    → retry_for k (t ++ j ∷ []) ≡ some j
unfolding retry_for
retry_for-append k [] j h e = ground (arith, eq_refl k)
retry_for-append k (x ∷ t) j h e = ground (arith, retry_for-append k t j)

-- The arguments that pass the checks before the transaction.
abbrev pub IsWellFormed : String → NewJob → Type 0
IsWellFormed fresh a =
    (is_safe_text (or_fresh fresh a.job_id) ≡ true)
    × (has_one_source a.voice_id a.reference_id a.saved_voice_id ≡ true)
    × (has_nul a.text ≡ false)

pub again :
    (now fresh k : String) (a : NewJob) (db : Db) (j : GenerationJob)
    → IsWellFormed fresh a
    → a.retry_of ≡ some k
    → retry_for k db.jobs ≡ some j
    → create_job now fresh a db ≡ (ok j, db)
unfolding create_job retry_or_insert transaction
again now fresh k a db j w e h = ground arith

reused :
    (now fresh k : String) (a : NewJob) (db db' : Db) (i j : GenerationJob)
    → a.retry_of ≡ some k
    → retry_for k db.jobs ≡ some i
    → create_job now fresh a db ≡ (ok j, db')
    → retry_for k db'.jobs ≡ some j
unfolding create_job retry_or_insert transaction
reused now fresh k a db db' i j e r h = ground arith

-- The row that is inserted is the one that is read back.
inserted :
    (now fresh k : String) (a : NewJob) (db db' : Db) (j : GenerationJob)
    → a.retry_of ≡ some k
    → retry_for k db.jobs ≡ none
    → create_job now fresh a db ≡ (ok j, db')
    → (db'.jobs ≡ db.jobs ++ j ∷ []) × (j.retry_of ≡ some k)
unfolding create_job retry_or_insert insert_job transaction select new_row
inserted now fresh k a db db' j e r h =
    let id = or_fresh fresh a.job_id in
    ground (arith, select-append job_key id db.jobs (new_row now id a ∷ []), eq_refl id)

pub found :
    (now fresh k : String) (a : NewJob) (db db' : Db) (j : GenerationJob)
    → a.retry_of ≡ some k
    → create_job now fresh a db ≡ (ok j, db')
    → retry_for k db'.jobs ≡ some j
found now fresh k a db db' j e h = elim (Option-cases (retry_for k db.jobs)) [
  | inl r ↦
      let (p, q) = inserted now fresh k a db db' j e r h in
      ap (retry_for k) p ∙ retry_for-append k db.jobs j r q
  | inr (i, r) ↦ reused now fresh k a db db' i j e r h
]
