-- ===== src/Generation/Created.antt =====
-- What `create` leaves behind, when it returns and when the scheduler refuses the job.
use Prim.Native.String.{count}
use tts_studio.Base.{
  ◌≤◌, String, ◌≡◌, ◌≢◌, refl, sym, ap, ◌∙◌, true, false, Option, none, some, [], ◌∷◌, ◌++◌, arith,
  inl, inr, has_nul, is_blank,
}
use tts_studio.Base.Exec.{
  Error, ok, Exec, raise, transaction, Result-cases, bind-eq-ok, ◌>>=◌, ◌>>◌,
}
use text.Mathlib.TextPositions.{eq_refl}
use tts_studio.Base.Table.{select, select-append}
use tts_studio.Base.Json.{end}
use tts_studio.Events.Text.{TextRules}
use tts_studio.Models.Domain.{ModelRow}
use tts_studio.Models.Installations.{Numbers}
use tts_studio.Registry.Domain.{GenerationJob, queued, Db, job_key}
use tts_studio.Registry.Jobs.{NewJob, or_fresh, create_job, new_row, has_one_source}
use tts_studio.Generation.State.{Core, ReferenceHandle, on_db, publish}
use tts_studio.Generation.Kept.{publish_kept}
use tts_studio.Generation.Create.{
  Request, Answers, prepare, insert, schedule, withdraw, create, new_job, validate_text,
  validate_source, keep_handle,
}

-- A job that is no retry is added to the table.
created_new :
    (now fresh : String) (a : NewJob) (db db' : Db) (j : GenerationJob)
    → a.retry_of ≡ none
    → create_job now fresh a db ≡ (ok j, db')
    → (j ≡ new_row now j.id a) × (db' ≡ record db { jobs = db.jobs ++ j ∷ [] })
unfolding create_job transaction select new_row
created_new now fresh a db db' j none_of h =
    let id = or_fresh fresh a.job_id in
    let u = select-append job_key id db.jobs (new_row now id a ∷ []) in
    let e = eq_refl id in (ground arith, ground arith)

module _ (numbers : Numbers) (rules : TextRules) (a : Answers) (r : Request) where
  prepared :
      (c c' : Core) (p : ModelRow × Option ReferenceHandle)
      → prepare numbers rules a r c ≡ (ok p, c')
      → (validate_text r.text ≡ ok tt)
        × (validate_source r.voice_id r.reference_id r.saved_voice_id ≡ ok tt)
  unfolding prepare
  prepared c c' p h = (ground arith, ground arith)

  inserted :
      (p : ModelRow × Option ReferenceHandle) (c c' : Core) (j : GenerationJob)
      → insert numbers rules a r p c ≡ (ok j, c')
      → create_job c.now r.fresh_job (new_job numbers rules a r p.0) c.db ≡ (ok j, c'.db)
  unfolding insert on_db
  inserted p c c' j h = ground arith

  keep_handle_db :
      (h : Option ReferenceHandle) (k : String) (c : Core)
      → (keep_handle numbers rules a k h c).db ≡ c.db
  keep_handle_db none k c = refl
  keep_handle_db (some h) k c = refl

  raise_raises :
      {A : Type 0} (m : Exec Core A) (e : Error) (c : Core) (j : GenerationJob)
      → (◌>>◌ m (raise {A = GenerationJob} e) c).0 ≢ ok j
  raise_raises m e c j h = ground arith

  withdraw_raises :
      (j j' : GenerationJob) (h : Option ReferenceHandle) (e : Error) (c : Core)
      → (withdraw numbers rules a r j h e c).0 ≢ ok j'
  unfolding withdraw
  withdraw_raises j j' h e c q = ground arith

  scheduled :
      (j j' : GenerationJob) (h : Option ReferenceHandle) (c c' : Core)
      → schedule numbers rules a r j h c ≡ (ok j', c')
      → (j' ≡ j) × (c'.db ≡ c.db)
  unfolding schedule
  scheduled j j' h c c' e =
      let kept = keep_handle numbers rules a j.id h c in
      let name : String = "generation.queued" in
      let message : String = "Generation was queued." in
      let told = publish rules name j message none end kept in
      let q = publish_kept j.id rules name message j none end kept in
      let k = keep_handle_db h j.id c in
      elim (Result-cases a.submit) [
        | inl (u, s) ↦ (ground arith, ground arith)
        | inr (x, s) ↦ let w = withdraw_raises j j' h x told.1 in absurd (ground (arith, w))
      ]

  text_bounds :
      validate_text r.text ≡ ok tt
      → (is_blank r.text ≡ false) × (has_nul r.text ≡ false) × (count r.text ≤ 10000)
  unfolding validate_text
  text_bounds h = (ground arith, ground arith, ground arith)

  one_source :
      validate_source r.voice_id r.reference_id r.saved_voice_id ≡ ok tt
      → has_one_source r.voice_id r.reference_id r.saved_voice_id ≡ true
  unfolding validate_source
  one_source h = ground arith

  create_parts :
      (c c' : Core) (j : GenerationJob)
      → create numbers rules a r c ≡ (ok j, c')
      → (p : ModelRow × Option ReferenceHandle) × (c₁ : Core) × (j₁ : GenerationJob) × (c₂ : Core)
        × (prepare numbers rules a r c ≡ (ok p, c₁))
        × (insert numbers rules a r p c₁ ≡ (ok j₁, c₂))
        × (schedule numbers rules a r j₁ p.1 c₂ ≡ (ok j, c'))
  unfolding create
  create_parts c c' j h =
      let (p, c₁, e, f) =
        bind-eq-ok (prepare numbers rules a r)
          (λ p. ◌>>=◌ (insert numbers rules a r p) λ j. schedule numbers rules a r j p.1) c h in
      let (j₁, c₂, g, k) =
        bind-eq-ok (insert numbers rules a r p) (λ j. schedule numbers rules a r j p.1) c₁ f in
      (p, c₁, j₁, c₂, e, g, k)

  -- A request that is no retry and for which `create` returns a job had a text that is not blank, has
  -- no NUL and at most 10,000 characters, and exactly one voice source; and the job is queued, is
  -- for the text and the voice source of the request, and is one row added to the tables that the
  -- other tasks had left when the Worker was given back.
  pub create-queued :
      (c c' : Core) (j : GenerationJob)
      → r.retry_of ≡ none
      → create numbers rules a r c ≡ (ok j, c')
      → (is_blank r.text ≡ false)
        × (has_nul r.text ≡ false)
        × (count r.text ≤ 10000)
        × (has_one_source r.voice_id r.reference_id r.saved_voice_id ≡ true)
        × (j.state ≡ queued)
        × (j.text ≡ r.text)
        × (j.voice_id ≡ r.voice_id)
        × (j.reference_id ≡ r.reference_id)
        × (j.saved_voice_id ≡ r.saved_voice_id)
        × (c'.db ≡ record (prepare numbers rules a r c).1.db {
          jobs = (prepare numbers rules a r c).1.db.jobs ++ j ∷ [];
        })
  unfolding new_row
  create-queued c c' j none_of h =
      let (p, c₁, j₁, c₂, e, g, k) = create_parts c c' j h in
      let (t, s) = prepared c c₁ p e in
      let (b, n, l) = text_bounds t in
      let (same, kept) = scheduled j₁ j p.1 c₂ c' k in
      let (row, db) =
        created_new c₁.now r.fresh_job (new_job numbers rules a r p.0) c₁.db c₂.db j₁ none_of
          (inserted p c₁ c₂ j₁ g) in
      let with_row : Db → Db = λ d. record d { jobs = d.jobs ++ j₁ ∷ [] } in
      let d₁ = (prepare numbers rules a r c).1.db in
      let after : GenerationJob → Db = λ x. record d₁ { jobs = d₁.jobs ++ x ∷ [] } in
      let full = same ∙ row in
      let left : (prepare numbers rules a r c).1 ≡ c₁ = ap (λ x. x.1) e in
      (
        b,
        n,
        l,
        one_source s,
        ap (λ x. x.state) full,
        ap (λ x. x.text) full,
        ap (λ x. x.voice_id) full,
        ap (λ x. x.reference_id) full,
        ap (λ x. x.saved_voice_id) full,
        kept ∙ db ∙ ap with_row (ap (λ x. x.db) (sym left)) ∙ ap after (sym same),
      )
