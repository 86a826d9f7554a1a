-- ===== src/Registry/Jobs/Transition.antt =====
-- `transition_job`: what a successful call has checked and written.
use tts_studio.Base.{ℕ, String, ◌≡◌, true, Option, none, some, ◌≤◌, arith, value_or}
use tts_studio.Base.Exec.{Error, ok, err, transaction}
use tts_studio.Base.Int.{ℤ, to_nat}
use tts_studio.Base.Table.{update}
use tts_studio.Registry.Domain.{GenerationJob, GenerationState, Db, job_at, job_key, may_move}
use tts_studio.Registry.Jobs.{Progress, transition_job, advanced, is_resolution}

-- The count that a transition writes.
abbrev pub count_of : ℕ → Option ℤ → ℕ
count_of n none = n
count_of n (some z) = value_or 0 (to_nat z)

abbrev pub next_row :
    String → GenerationState → Progress → GenerationJob → GenerationJob → GenerationJob
next_row now st p j =
    advanced now st (count_of j.bytes_written p.bytes_written)
      (count_of j.frame_count p.frame_count) p

module _ (now k : String) (st : GenerationState) (p : Progress) (db : Db) where
  -- A transition of a job that succeeds was allowed by the state machine, was a cancellation or a
  -- failure if cancellation had been requested, took no count back, and wrote exactly the new row,
  -- which it returns; every other row and table is as it was.
  pub transition_found :
      {j j' : GenerationJob} {db' : Db}
      → job_at k db ≡ some j
      → transition_job now k st p db ≡ (ok j', db')
      → (may_move j.state st ≡ true)
        × (j.cancellation_requested ≡ true → is_resolution st ≡ true)
        × (j.bytes_written ≤ count_of j.bytes_written p.bytes_written)
        × (j.frame_count ≤ count_of j.frame_count p.frame_count)
        × (db' ≡ record db { jobs = update job_key k (next_row now st p j) db.jobs })
        × (job_at k db' ≡ some j')
  unfolding transition_job transaction
  transition_found found h = ground arith

  pub transition_none :
      {j' : GenerationJob} {db' : Db}
      → job_at k db ≡ none
      → transition_job now k st p db ≡ (ok j', db')
      → ⊥
  unfolding transition_job transaction
  transition_none found h = ground arith

  pub transition_err :
      {e : Error} {db' : Db} → transition_job now k st p db ≡ (err e, db') → db' ≡ db
  unfolding transition_job transaction
  transition_err h = ground arith
