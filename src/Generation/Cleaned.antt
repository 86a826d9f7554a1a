-- ===== src/Generation/Cleaned.antt =====
-- The clean-up of a run keeps the state of its job.
use tts_studio.Base.{String, Bool, ◌≡◌, refl, ap, ◌∙◌, true, false, ◌||◌, Option, none, some, arith}
use tts_studio.Base.Exec.{pure, Error, Result, ok, err, Exec, cancelled_error, ◌>>=◌}
use tts_studio.Base.Outcomes.{Ends, bind-Ends}
use tts_studio.Events.Text.{TextRules}
use tts_studio.Models.Installations.{Numbers}
use tts_studio.Audio.Pcm.{Validator}
use tts_studio.Registry.Domain.{GenerationState}
use tts_studio.Generation.State.{on_db}
use tts_studio.Generation.Run.{Answers, Task, in_core}
use tts_studio.Generation.Kept.{state_at}
use tts_studio.Generation.Steps.{At}
use tts_studio.Generation.State.{Answer, ReferenceHandle, await}
use tts_studio.Generation.Run.{unload, handle_at}
use tts_studio.Generation.Ending.{
  when, either, taken_handle, attempt, close_step, unload_step, audio_step, release_step,
  clean_steps, drop_audio, discard_published, release_last, release_dropped,
}
use tts_studio.Generation.Kept.{cleared_kept}
use tts_studio.Generation.Pieces.{Respects, deleted_kept}

module _ (k : String) (st : GenerationState) where
  -- The clean-up is only ever cut short by a cancellation.
  abbrev pub Cut : Error → Task → Type 0
  Cut e t = (At k st t) × (e ≡ cancelled_error)

  attempt_kept : {A : Type 0} (m : Exec Task A) (t : Task) → (attempt m t).1 ≡ (m t).1
  unfolding attempt
  attempt_kept m t = ground arith

  attempt_cut :
      {A : Type 0} (m : Exec Task A) (t : Task) {e : Error}
      → (attempt m t).0 ≡ err e
      → e ≡ cancelled_error
  unfolding attempt
  attempt_cut m t h = ground arith

  result-Ends :
      (t : Task) (r : Result Bool × Task)
      → At k st t
      → state_at k r.1.core.db ≡ state_at k t.core.db
      → ((e : Error) → r.0 ≡ err e → e ≡ cancelled_error)
      → Ends (λ b s. At k st s) Cut r
  result-Ends t (ok b, s) at kept cut = kept ∙ at
  result-Ends t (err e, s) at kept cut = (kept ∙ at, cut e refl)

  attempt-Ends :
      {A : Type 0} (m : Exec Task A) (t : Task)
      → At k st t
      → state_at k (m t).1.core.db ≡ state_at k t.core.db
      → Ends (λ b s. At k st s) Cut (attempt m t)
  attempt-Ends m t at kept =
      result-Ends t (attempt m t) at (ap (λ s. state_at k s.core.db) (attempt_kept m t) ∙ kept)
        (λ e h. attempt_cut m t h)

  when-Ends :
      (b : Bool) (m : Exec Task Bool) (t : Task)
      → At k st t
      → Ends (λ b s. At k st s) Cut (m t)
      → Ends (λ b s. At k st s) Cut (when b m t)
  when-Ends true m t at h = h
  when-Ends false m t at h = at

  awaited_kept :
      {A : Type 0} (x : Answer A) (t : Task)
      → Respects k x.others
      → state_at k (in_core (await x) t).1.core.db ≡ state_at k t.core.db
  unfolding in_core await
  awaited_kept x t calm = calm t.core

  unloaded_kept :
      (x : Answer (Unit {0})) (t : Task)
      → Respects k x.others
      → state_at k (in_core (unload x) t).1.core.db ≡ state_at k t.core.db
  unfolding in_core unload
  unloaded_kept x t calm = calm t.core

  module _ (numbers : Numbers) (rules : TextRules) (v : Validator) (a : Answers) where
    close-Ends :
        (t : Task)
        → Respects k a.close_stream.others
        → At k st t
        → Ends (λ b s. At k st s) Cut (close_step numbers rules v a t)
    unfolding close_step
    close-Ends t calm at =
        when-Ends t.has_stream (attempt (in_core (await a.close_stream))) t at
          (attempt-Ends (in_core (await a.close_stream)) t at (awaited_kept a.close_stream t calm))

    unload-Ends :
        (t : Task)
        → Respects k a.unload_again.others
        → At k st t
        → Ends (λ b s. At k st s) Cut (unload_step numbers rules v a t)
    unfolding unload_step
    unload-Ends t calm at =
        when-Ends t.is_loaded (attempt (in_core (unload a.unload_again))) t at (
          attempt-Ends (in_core (unload a.unload_again)) t at (unloaded_kept a.unload_again t calm))

    discarded_kept :
        (published : Option String) (t : Task)
        → state_at k (discard_published numbers rules v a published t).1.core.db
          ≡ state_at k t.core.db
    unfolding discard_published in_core on_db
    discarded_kept none t = refl
    discarded_kept (some id) t = let q = deleted_kept k t.core.now id t.core.db in ground (arith, q)

    dropped_kept :
        (committed : Bool) (published : Option String) (t : Task)
        → state_at k (drop_audio numbers rules v a committed published t).1.core.db
          ≡ state_at k t.core.db
    unfolding drop_audio
    dropped_kept true published t = refl
    dropped_kept false published t = let q = discarded_kept published t in ground (arith, q)

    audio-Ends :
        (t : Task) → At k st t → Ends (λ b s. At k st s) Cut (audio_step numbers rules v a t)
    unfolding audio_step
    audio-Ends t at =
        let m = drop_audio numbers rules v a t.is_committed t.published in
        when-Ends t.has_writer (attempt m) t at
          (attempt-Ends m t at (dropped_kept t.is_committed t.published t))

    last_kept :
        (h : ReferenceHandle) (t : Task)
        → state_at k (release_last numbers rules v a k h t).1.core.db ≡ state_at k t.core.db
    unfolding release_last in_core on_db
    last_kept h t = let q = cleared_kept k t.core.now k t.core.db in ground (arith, q)

    either_cut :
        (r : Result Bool) {e : Error} → either numbers rules v a r ≡ err e → e ≡ cancelled_error
    either_cut r h = ground arith

    dropped-Ends :
        (h : Option ReferenceHandle) (closing : Bool) (t : Task)
        → At k st t
        → Ends (λ b s. At k st s) Cut (release_dropped numbers rules v a k h closing t)
    unfolding release_dropped
    dropped-Ends none closing t at = at
    dropped-Ends (some h) true t at = at
    dropped-Ends (some h) false t at =
        result-Ends t (release_dropped numbers rules v a k (some h) false t) at (last_kept h t)
          (λ e p. either_cut (release_last numbers rules v a k h t).0 p)

    taken_kept :
        (closing : Bool) (t : Task)
        → At k st t
        → At k st (record t { core = taken_handle numbers rules v a k closing t.core })
    taken_kept true t at = at
    taken_kept false t at = at

    release-Ends :
        (t : Task) → At k st t → Ends (λ b s. At k st s) Cut (release_step numbers rules v a k t)
    unfolding release_step in_core
    release-Ends t at =
        let s = record t { core = taken_handle numbers rules v a k t.core.closing t.core } in
        dropped-Ends (handle_at k t.core) t.core.closing s (taken_kept t.core.closing t at)

    -- The clean-up leaves the job in its state, and raises only a cancellation.
    pub clean-Ends :
        (t : Task)
        → Respects k a.close_stream.others
        → Respects k a.unload_again.others
        → At k st t
        → Ends (λ b s. At k st s) Cut (clean_steps numbers rules v a k t)
    unfolding clean_steps
    clean-Ends t close unload at =
        bind-Ends (λ b s. At k st s) (λ b s. At k st s) Cut (close_step numbers rules v a)
          (after_close) t (close-Ends t close at)
          (λ b s at.
            bind-Ends (λ b s. At k st s) (λ b s. At k st s) Cut (unload_step numbers rules v a)
              (after_unload b) s (unload-Ends s unload at)
              (λ c u at.
                bind-Ends (λ b s. At k st s) (λ b s. At k st s) Cut (audio_step numbers rules v a)
                  (after_audio b c) u (audio-Ends u at)
                  (λ d w at.
                    bind-Ends (λ b s. At k st s) (λ b s. At k st s) Cut
                      (release_step numbers rules v a k) (λ e. pure (b || c || d || e)) w
                      (release-Ends w at) (λ e x at. at))))
      where
        after_audio : Bool → Bool → Bool → Exec Task Bool
        after_audio b c d = release_step numbers rules v a k >>= λ e. pure (b || c || d || e)

        after_unload : Bool → Bool → Exec Task Bool
        after_unload b c = audio_step numbers rules v a >>= after_audio b c

        after_close : Bool → Exec Task Bool
        after_close b = unload_step numbers rules v a >>= after_unload b
