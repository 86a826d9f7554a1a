-- ===== src/Models/Steps.antt =====
-- What the calls on Download Jobs do to the table of jobs.
use tts_studio.Base.{
  ℕ, String, ◌≡◌, refl, ap, true, Option, none, some, ◌≤◌, arith, [], ◌∷◌, ◌++◌, ◌⊎◌, inl, inr,
  Option-cases,
}
use tts_studio.Base.Exec.{Error, Result, ok, err, transaction, read, Result-cases}
use tts_studio.Base.Int.{ℤ, pos, negsuc}
use tts_studio.Base.Json.{Fields}
use tts_studio.Base.Table.{update}
use tts_studio.Models.Domain.{DownloadState, failed, DownloadJob, Db, download_at, download_key}
use tts_studio.Registry.Jobs.{or_fresh}
use tts_studio.Models.Paths.{managed_relative_path}
use tts_studio.Models.Downloads.{
  NewDownload, Progress, no_progress, create_download_job, request_download_cancellation,
  transition_download_job, mark_recovery_failure, get_download_job, may_move, moved, flagged,
  new_download, next_bytes, next_total,
}
use tts_studio.Models.Evolution.{Later, Keeps, IsBounded, appended, same, rewritten}

next_total-IsBounded :
    (b : ℕ) (t current : Option ℕ) (z : Option (Option ℤ))
    → next_total b current z ≡ ok t
    → IsBounded b t
unfolding next_total
next_total-IsBounded b t none none h = ground arith
next_total-IsBounded b t (some c) none h = ground arith
next_total-IsBounded b t c (some none) h = ground arith
next_total-IsBounded b t c (some (some (pos n))) h = ground arith
next_total-IsBounded b t c (some (some (negsuc n))) h = ground arith

module _ (now k : String) (st : DownloadState) (p : Progress) (db : Db) where
  moved_at :
      {j j' : DownloadJob} {db' : Db} (b : ℕ) (t : Option ℕ)
      → download_at k db ≡ some j
      → next_bytes j.bytes_downloaded p.bytes_downloaded ≡ ok b
      → next_total b j.total_bytes p.total_bytes ≡ ok t
      → transition_download_job now k st p db ≡ (ok j', db')
      → (may_move j.state st ≡ true)
        × (j.bytes_downloaded ≤ b)
        × (db' ≡ record db { downloads = update download_key k (moved now st b t p) db.downloads })
        × (download_at k db' ≡ some j')
  unfolding transition_download_job transaction
  moved_at b t found e e' h = ground arith

  no_bytes :
      {j j' : DownloadJob} {db' : Db} (x : Error)
      → download_at k db ≡ some j
      → next_bytes j.bytes_downloaded p.bytes_downloaded ≡ err x
      → transition_download_job now k st p db ≡ (ok j', db')
      → ⊥
  unfolding transition_download_job transaction
  no_bytes x found e h = ground arith

  no_total :
      {j j' : DownloadJob} {db' : Db} (b : ℕ) (x : Error)
      → download_at k db ≡ some j
      → next_bytes j.bytes_downloaded p.bytes_downloaded ≡ ok b
      → next_total b j.total_bytes p.total_bytes ≡ err x
      → transition_download_job now k st p db ≡ (ok j', db')
      → ⊥
  unfolding transition_download_job transaction
  no_total b x found e e' h = ground arith

  pub download_found :
      {j j' : DownloadJob} {db' : Db}
      → download_at k db ≡ some j
      → transition_download_job now k st p db ≡ (ok j', db')
      → (b : ℕ) × (t : Option ℕ) × (may_move j.state st ≡ true)
        × (j.bytes_downloaded ≤ b)
        × IsBounded b t
        × (db' ≡ record db { downloads = update download_key k (moved now st b t p) db.downloads })
        × (download_at k db' ≡ some j')
  download_found {j} found h =
      elim (Result-cases (next_bytes j.bytes_downloaded p.bytes_downloaded)) [
        | inr (x, e) ↦ absurd (no_bytes x found e h)
        | inl (b, e) ↦ elim (Result-cases (next_total b j.total_bytes p.total_bytes)) [
          | inr (x, e') ↦ absurd (no_total b x found e e' h)
          | inl (t, e') ↦
              let (m, l, q, r) = moved_at b t found e e' h in
              (b, t, m, l, next_total-IsBounded b t j.total_bytes p.total_bytes e', q, r)
        ]
      ]

  missing :
      {j' : DownloadJob} {db' : Db}
      → download_at k db ≡ none
      → transition_download_job now k st p db ≡ (ok j', db')
      → ⊥
  unfolding transition_download_job transaction
  missing found h = ground arith

  unmoved : {e : Error} {db' : Db} → transition_download_job now k st p db ≡ (err e, db') → db' ≡ db
  unfolding transition_download_job transaction
  unmoved h = ground arith

  moved-Later :
      (b : ℕ) (t : Option ℕ) (j : DownloadJob)
      → may_move j.state st ≡ true
      → j.bytes_downloaded ≤ b
      → Later j (moved now st b t p j)
  unfolding may_move
  moved-Later b t j m l = ground arith

  transition_result :
      (r : Result DownloadJob × Db) → transition_download_job now k st p db ≡ r → Keeps db r
  transition_result (err e, db') h =
      same db.downloads db'.downloads (ap (λ d. d.downloads) (unmoved h))
  transition_result (ok j', db') h = elim (Option-cases (download_at k db)) [
    | inl e ↦ absurd (missing e h)
    | inr (j, e) ↦
        let (b, t, m, l, u, q, _) = download_found e h in
        rewritten k (moved now st b t p) db.downloads db'.downloads (λ a. refl) (λ a _. u) e
          (moved-Later b t j m l) (ap (λ d. d.downloads) q)
  ]

  pub transition-Keeps : Keeps db (transition_download_job now k st p db)
  transition-Keeps = transition_result (transition_download_job now k st p db) refl

module _ (now k : String) (db : Db) where
  cancelled_row :
      (j : DownloadJob)
      → download_at k db ≡ some j
      → ((request_download_cancellation now k db).1 ≡ db)
        ⊎ ((request_download_cancellation now k db).1
            ≡ record db { downloads = update download_key k (flagged now) db.downloads })
  unfolding request_download_cancellation transaction
  cancelled_row j e = ground arith

  uncancelled : download_at k db ≡ none → (request_download_cancellation now k db).1 ≡ db
  unfolding request_download_cancellation transaction
  uncancelled e = ground arith

  flagged-Later : (j : DownloadJob) → Later j (flagged now j)
  flagged-Later j = ground arith

  pub request-Keeps : Keeps db (request_download_cancellation now k db)
  request-Keeps = elim (Option-cases (download_at k db)) [
    | inl e ↦ same db.downloads _ (ap (λ d. d.downloads) (uncancelled e))
    | inr (j, e) ↦ elim (cancelled_row j e) [
      | inl p ↦ same db.downloads _ (ap (λ d. d.downloads) p)
      | inr p ↦
          rewritten k (flagged now) db.downloads _ (λ a. refl) (λ a h. h) e (flagged-Later j)
            (ap (λ d. d.downloads) p)
    ]
  ]

  pub recovery-Keeps : (e : Fields) → Keeps db (mark_recovery_failure now k e db)
  unfolding mark_recovery_failure get_download_job read
  recovery-Keeps e =
      let moved_on = transition-Keeps now k failed (record no_progress { error = some e }) db in
      let unchanged = same db.downloads db.downloads refl in ground arith

  created :
      (fresh : String) (a : NewDownload) (path : String)
      → managed_relative_path a.staging_path "staging" ≡ ok path
      → ((create_download_job now fresh a db).1 ≡ db)
        ⊎ ((create_download_job now fresh a db).1 ≡ record db {
          downloads = db.downloads ++ new_download now (or_fresh fresh a.job_id) path a ∷ [];
        })
  unfolding create_download_job transaction
  created fresh a path e = ground arith

  uncreated :
      (fresh : String) (a : NewDownload) (x : Error)
      → managed_relative_path a.staging_path "staging" ≡ err x
      → (create_download_job now fresh a db).1 ≡ db
  unfolding create_download_job transaction
  uncreated fresh a x e = ground arith

  pub create-Keeps :
      (fresh : String) (a : NewDownload) → Keeps db (create_download_job now fresh a db)
  create-Keeps fresh a = elim (Result-cases (managed_relative_path a.staging_path "staging")) [
    | inr (x, e) ↦ same db.downloads _ (ap (λ d. d.downloads) (uncreated fresh a x e))
    | inl (path, e) ↦ elim (created fresh a path e) [
      | inl p ↦ same db.downloads _ (ap (λ d. d.downloads) p)
      | inr p ↦
          appended db.downloads _ (new_download now (or_fresh fresh a.job_id) path a) tt
            (ap (λ d. d.downloads) p)
    ]
  ]
