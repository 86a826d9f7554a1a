-- ===== src/Providers/Usage.antt =====
-- No job that has not ended loses its provider.
use tts_studio.Base.{
  String, ◌≡◌, ◌≢◌, ap, ◌∙◌, true, false, none, some, arith, List, [], ◌∷◌, All, Option-cases, inl,
  inr, eq_iff,
}
use text.Mathlib.TextPositions.{eq_refl}
use tts_studio.Base.Exec.{ok, transaction}
use tts_studio.Base.Table.{delete, select-delete}
use tts_studio.Registry.Domain.{GenerationJob, is_terminal}
use tts_studio.Providers.Profiles.{ProviderProfile}
use tts_studio.Providers.Table.{Db, profile_at, profile_key, is_used, delete_profile}

-- A job that names the provider has ended.
abbrev pub HasLeft : String → GenerationJob → Type 0
HasLeft k j = j.provider_id ≡ some k → is_terminal j.state ≡ true

job_left :
    (k : String) (j : GenerationJob) (js : List GenerationJob)
    → is_used k (j ∷ js) ≡ false
    → HasLeft k j
unfolding is_used
job_left k j js h p = ground (arith, eq_refl k)

unused : (k : String) (js : List GenerationJob) → is_used k js ≡ false → All (HasLeft k) js
unfolding is_used
unused k [] h = tt
unused k (j ∷ js) h = (job_left k j js h, unused k js (ground arith))

deleted :
    (k : String) (db db' : Db)
    → delete_profile k db ≡ (ok tt, db')
    → ((p : ProviderProfile) × (profile_at k db ≡ some p))
      × (is_used k db.jobs ≡ false)
      × (db' ≡ record db { profiles = delete profile_key k db.profiles })
unfolding delete_profile transaction
deleted k db db' h = elim (Option-cases (profile_at k db)) [
  | inl e ↦ absurd (ground arith)
  | inr (p, e) ↦ ((p, e), ground arith, ground arith)
]

-- A call of `delete` that returns has found the profile, and every job that names the provider had
-- ended. The profile is then gone; all other profiles and the jobs are as they were.
pub delete_profile_unused :
    (k : String) (db db' : Db)
    → delete_profile k db ≡ (ok tt, db')
    → ((p : ProviderProfile) × (profile_at k db ≡ some p))
      × All (HasLeft k) db.jobs
      × (profile_at k db' ≡ none)
      × ((j : String) → j ≢ k → profile_at j db' ≡ profile_at j db)
      × (db'.jobs ≡ db.jobs)
delete_profile_unused k db db' h =
    let (p, u, e) = deleted k db db' h in
    (
      p,
      unused k db.jobs u,
      ap (profile_at k) e ∙ select-delete profile_key k k db.profiles ∙ ground (arith, eq_refl k),
      λ j d.
          ap (profile_at j) e
          ∙ select-delete profile_key j k db.profiles
          ∙ ground (arith, eq_iff k j),
      ap (λ x. x.jobs) e,
    )
