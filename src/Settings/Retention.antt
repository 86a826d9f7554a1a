-- ===== src/Settings/Retention.antt =====
-- src/tts_studio/settings/service.py: the retention operations of `SettingsService`, over the owner of
-- the artifacts, which the generation service is.
use tts_studio.Base.{
  ℕ, ◌+◌, ◌≡◌, refl, ap, sym, ◌∙◌, not, String, Bool, true, false, Option, List, [], ◌∷◌, ◌++◌,
  arith, length, if◌then◌else◌,
}
use mathlib.Core.List.{append_assoc, append-nil}
use tts_studio.Base.Exec.{Result, ok, err, Exec, ◌>>=◌}
use tts_studio.Base.Int.{ℤ}
use tts_studio.Registry.Domain.{AudioArtifact}
use tts_studio.Settings.{CoreSettings}

-- What the service uses of the generation service.
pub record Owner (S : Type 0) : Type 0 where
  pub list_history : Exec S (List AudioArtifact)
  pub delete_artifact : String → Exec S Bool

pub record RetentionSummary : Type 0 where
  pub retained_count : ℕ
  pub retained_bytes : ℕ
  pub max_age_days : Option ℤ
  pub max_storage_bytes : Option ℤ

pub record RetentionIssue : Type 0 where
  pub artifact_id : String
  pub message : String

pub record RetentionClearResult : Type 0 where
  pub deleted : ℕ
  pub skipped : ℕ
  pub failed : ℕ
  pub issues : List RetentionIssue

abbrev pub total_bytes : List AudioArtifact → ℕ
total_bytes [] = 0
total_bytes (a ∷ rows) = a.byte_size + total_bytes rows

-- `retention_summary`, of the settings and the artifacts that it reads.
unfoldable pub retention_summary : CoreSettings → List AudioArtifact → RetentionSummary
retention_summary s rows = record {
  retained_count = length rows;
  retained_bytes = total_bytes rows;
  max_age_days = s.artifact_max_age_days;
  max_storage_bytes = s.artifact_max_storage_bytes;
}

abbrev pub nothing_cleared : RetentionClearResult
nothing_cleared = record { deleted = 0; skipped = 0; failed = 0; issues = [] }

abbrev issue : AudioArtifact → String → RetentionIssue
issue a m = record { artifact_id = a.id; message = m }

-- One round of the loop, by what the deletion came to.
abbrev counted : AudioArtifact → Result Bool → RetentionClearResult → RetentionClearResult
counted a (err e) r = record r {
  failed = r.failed + 1;
  issues = r.issues ++ issue a "retained artifact could not be safely deleted" ∷ [];
}
counted a (ok true) r = record r { deleted = r.deleted + 1 }
counted a (ok false) r = record r {
  skipped = r.skipped + 1;
  issues = r.issues ++ issue a "retained artifact was not safely resolvable" ∷ [];
}

-- A deletion that was tried, and what it came to.
pub record Attempt : Type 0 where
  pub artifact_id : String
  pub outcome : Result Bool

abbrev gone : Result Bool → Bool
gone (ok b) = b
gone (err e) = false

abbrev kept : Result Bool → Bool
kept (ok b) = not b
kept (err e) = false

abbrev raised : Result Bool → Bool
raised (ok b) = false
raised (err e) = true

-- How many attempts had an outcome, and the artifacts of those that deleted nothing.
unfoldable pub count : (Result Bool → Bool) → List Attempt → ℕ
count test [] = 0
count test (a ∷ as') = (if test a.outcome then 1 else 0) + count test as'

unfoldable pub not_deleted : List Attempt → List String
not_deleted [] = []
not_deleted (a ∷ as') =
    let rest = not_deleted as' in if gone a.outcome then rest else a.artifact_id ∷ rest

abbrev pub issue_ids : List RetentionIssue → List String
issue_ids [] = []
issue_ids (i ∷ is) = i.artifact_id ∷ issue_ids is

issue_ids-append :
    (is js : List RetentionIssue) → issue_ids (is ++ js) ≡ issue_ids is ++ issue_ids js
issue_ids-append [] js = refl
issue_ids-append (i ∷ is) js = ap (λ t. i.artifact_id ∷ t) (issue_ids-append is js)

module _ {S : Type 0} (owner : Owner S) where
  -- A deletion that raises is counted, and the loop goes on.
  unfoldable pub clear_each :
      List AudioArtifact → RetentionClearResult → Exec S RetentionClearResult
  clear_each [] r s = (ok r, s)
  clear_each (a ∷ rows) r s =
      let (removed, s') = owner.delete_artifact a.id s in clear_each rows (counted a removed r) s'

  unfoldable pub clear_retention : Exec S RetentionClearResult
  unfolding clear_each
  clear_retention = do selected ← owner.list_history; clear_each selected nothing_cleared

  -- One deletion after another, for every artifact of the list.
  unfoldable pub attempts : List AudioArtifact → S → List Attempt × S
  attempts [] s = ([], s)
  attempts (a ∷ rows) s =
      let (removed, s') = owner.delete_artifact a.id s in
      let (rest, t) = attempts rows s' in
      (record { artifact_id = a.id; outcome = removed } ∷ rest, t)

  -- The result sums up what the deletions came to, from an earlier result on.
  abbrev pub Sums : List Attempt → RetentionClearResult → RetentionClearResult → Type 0
  Sums os r q =
      (q.deleted ≡ r.deleted + count gone os)
      × (q.skipped ≡ r.skipped + count kept os)
      × (q.failed ≡ r.failed + count raised os)
      × (issue_ids q.issues ≡ issue_ids r.issues ++ not_deleted os)

  counted-Sums :
      (a : AudioArtifact) (o : Result Bool) (os : List Attempt) (r q : RetentionClearResult)
      → Sums os (counted a o r) q
      → Sums (record { artifact_id = a.id; outcome = o } ∷ os) r q
  unfolding count not_deleted
  counted-Sums a (err e) os r q (d, k, f, i) = (
    omega (arith, d),
    omega (arith, k),
    omega (arith, f),
    i
        ∙ ap (λ t. t ++ not_deleted os) (issue_ids-append r.issues _)
        ∙ append_assoc (issue_ids r.issues) (a.id ∷ []) (not_deleted os),
  )
  counted-Sums a (ok true) os r q (d, k, f, i) =
      (omega (arith, d), omega (arith, k), omega (arith, f), i)
  counted-Sums a (ok false) os r q (d, k, f, i) = (
    omega (arith, d),
    omega (arith, k),
    omega (arith, f),
    i
        ∙ ap (λ t. t ++ not_deleted os) (issue_ids-append r.issues _)
        ∙ append_assoc (issue_ids r.issues) (a.id ∷ []) (not_deleted os),
  )

  each-Sums :
      (rows : List AudioArtifact) (r : RetentionClearResult) (s : S)
      → (q : RetentionClearResult) × (clear_each rows r s ≡ (ok q, (attempts rows s).1))
        × Sums (attempts rows s).0 r q
  unfolding clear_each attempts count not_deleted
  each-Sums [] r s =
      (r, refl, (omega arith, omega arith, omega arith, sym (append-nil (issue_ids r.issues))))
  each-Sums (a ∷ rows) r s =
      let (removed, s') = owner.delete_artifact a.id s in
      let (q, e, n) = each-Sums rows (counted a removed r) s' in
      (q, e, counted-Sums a removed (attempts rows s').0 r q n)

  -- If the artifacts can be listed, then whatever the deletions do, those that raise included,
  -- clearing them tries to delete each of them once, in their order, and returns: `deleted`, `skipped`
  -- and `failed` count the deletions that deleted the artifact, did not, and raised, and the issues are
  -- for the artifacts that were not deleted.
  pub clear_retention_total :
      (rows : List AudioArtifact) (s s₁ : S)
      → owner.list_history s ≡ (ok rows, s₁)
      → (q : RetentionClearResult) × (clear_retention s ≡ (ok q, (attempts rows s₁).1))
        × Sums (attempts rows s₁).0 nothing_cleared q
  unfolding clear_retention
  clear_retention_total rows s s₁ h =
      let (q, e, n) = each-Sums rows nothing_cleared s₁ in (q, rw h e, n)
