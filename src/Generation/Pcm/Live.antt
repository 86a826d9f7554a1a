-- ===== src/Generation/Pcm/Live.antt =====
-- What a subscriber of live PCM is given, however its turns fall between the chunks of the job.
use mathlib.Core.Path.{subst}
use tts_studio.Base.{
  String, ℕ, Bool, ◌≡◌, refl, sym, ap, ◌∙◌, true, false, Option, none, some, List, [], ◌∷◌, ◌++◌,
  arith, length, inl, inr, if◌then◌else◌, ltb, Bool-cases, IsPrefix, IsPrefix-append, IsPrefix-cons,
}
use tts_studio.Generation.Pcm.{
  Subscriber, terminated, offered, next_chunk, waits, ends, yields, max_queue, put_nowait,
}

-- What happens to a subscriber: a chunk of its job, the end of the job, or a turn of its own loop.
pub data Live : Type 0 where
  chunk : List ℕ → Live
  ending turn : Live

-- A method reaches the subscribers that are attached.
abbrev reached : (Subscriber → Subscriber) → Subscriber → Subscriber
reached f s = if s.is_attached then f s else s

-- The chunks that the subscriber is given, until its loop returns.
unfoldable pub delivered : List Live → Subscriber → List (List ℕ)
delivered [] s = []
delivered (chunk pcm ∷ es) s = delivered es (reached (offered pcm) s)
delivered (ending ∷ es) s = delivered es (reached terminated s)
delivered (turn ∷ es) s =
    let t = next_chunk s in
    let rest = delivered es t.1 in elim t.0 [ waits ↦ rest | ends ↦ [] | yields pcm ↦ pcm ∷ rest ]

unfoldable pub sent : List Live → List (List ℕ)
sent [] = []
sent (chunk pcm ∷ es) = pcm ∷ sent es
sent (ending ∷ es) = sent es
sent (turn ∷ es) = sent es

-- What a queue holds before an end.
unfoldable pub pending : List (Option (List ℕ)) → List (List ℕ)
pending [] = []
pending (none ∷ q) = []
pending (some pcm ∷ q) = pcm ∷ pending q

unfoldable pub has_end : List (Option (List ℕ)) → Bool
has_end [] = false
has_end (none ∷ q) = true
has_end (some pcm ∷ q) = has_end q

pending-end : (q : List (Option (List ℕ))) → pending (q ++ none ∷ []) ≡ pending q
unfolding pending
pending-end [] = refl
pending-end (none ∷ q) = refl
pending-end (some p ∷ q) = ap (λ r. p ∷ r) (pending-end q)

pending-put_end : (q : List (Option (List ℕ))) → pending (put_nowait none q) ≡ pending q
pending-put_end q = ground (arith, pending-end q)

pending-chunk :
    (q : List (Option (List ℕ))) (pcm : List ℕ) (zs : List (List ℕ))
    → has_end q ≡ false
    → pending (q ++ some pcm ∷ []) ++ zs ≡ pending q ++ pcm ∷ zs
unfolding pending has_end
pending-chunk [] pcm zs h = refl
pending-chunk (none ∷ q) pcm zs h = absurd (ground arith)
pending-chunk (some p ∷ q) pcm zs h = ap (λ r. p ∷ r) (pending-chunk q pcm zs h)

has_end-chunk :
    (q : List (Option (List ℕ))) (pcm : List ℕ) → has_end (q ++ some pcm ∷ []) ≡ has_end q
unfolding has_end
has_end-chunk [] pcm = refl
has_end-chunk (none ∷ q) pcm = refl
has_end-chunk (some p ∷ q) pcm = has_end-chunk q pcm

module _ (id : ℕ) (owner : String) where
  abbrev pub subscriber : List (Option (List ℕ)) → Bool → Bool → Subscriber
  subscriber q attached over = record {
    id = id;
    owner = owner;
    queue = q;
    is_attached = attached;
    is_terminated = over;
  }

  -- A subscription that is over gives out what its queue holds.
  detached_live :
      (es : List Live) (q : List (Option (List ℕ))) (over : Bool)
      → IsPrefix (delivered es (subscriber q false over)) (pending q)
  unfolding delivered next_chunk pending
  detached_live [] q over = (pending q, refl)
  detached_live (chunk pcm ∷ es) q over = detached_live es q over
  detached_live (ending ∷ es) q over = detached_live es q over
  detached_live (turn ∷ es) [] true = ([], refl)
  detached_live (turn ∷ es) [] false = detached_live es [] false
  detached_live (turn ∷ es) (none ∷ q) over = ([], refl)
  detached_live (turn ∷ es) (some pcm ∷ q) over =
      IsPrefix-cons pcm (delivered es (subscriber q false over)) (pending q)
        (detached_live es q over)

  ended_live :
      (es : List Live) (q : List (Option (List ℕ))) (over : Bool)
      → IsPrefix (delivered es (terminated (subscriber q true over))) (pending q)
  ended_live es q over =
      subst (IsPrefix (delivered es (terminated (subscriber q true over)))) (pending-put_end q)
        (detached_live es (put_nowait none q) true)

  offered_room :
      (q : List (Option (List ℕ))) (pcm : List ℕ)
      → ltb (length q) max_queue ≡ true
      → offered pcm (subscriber q true false) ≡ subscriber (q ++ some pcm ∷ []) true false
  unfolding offered
  offered_room q pcm h = rw h refl

  offered_full :
      (q : List (Option (List ℕ))) (pcm : List ℕ)
      → ltb (length q) max_queue ≡ false
      → offered pcm (subscriber q true false) ≡ terminated (subscriber q true false)
  unfolding offered
  offered_full q pcm h = rw h refl

  attached_live :
      (es : List Live) (q : List (Option (List ℕ)))
      → has_end q ≡ false
      → IsPrefix (delivered es (subscriber q true false)) (pending q ++ sent es)
  unfolding delivered next_chunk pending sent offered has_end
  attached_live [] q h = (pending q ++ [], refl)
  attached_live (chunk pcm ∷ es) q h = elim (Bool-cases (ltb (length q) max_queue)) [
    | inl room ↦
        subst (λ s. IsPrefix (delivered es s) (pending q ++ pcm ∷ sent es))
          (sym (offered_room q pcm room))
          (subst (IsPrefix (delivered es (subscriber (q ++ some pcm ∷ []) true false)))
            (pending-chunk q pcm (sent es) h)
            (attached_live es (q ++ some pcm ∷ []) (has_end-chunk q pcm ∙ h)))
    | inr full ↦
        subst (λ s. IsPrefix (delivered es s) (pending q ++ pcm ∷ sent es))
          (sym (offered_full q pcm full))
          (IsPrefix-append (delivered es (terminated (subscriber q true false))) (pending q)
            (pcm ∷ sent es) (ended_live es q false))
  ]
  attached_live (ending ∷ es) q h =
      IsPrefix-append (delivered es (terminated (subscriber q true false))) (pending q) (sent es)
        (ended_live es q false)
  attached_live (turn ∷ es) [] h = attached_live es [] h
  attached_live (turn ∷ es) (none ∷ q) h = (sent es, refl)
  attached_live (turn ∷ es) (some pcm ∷ q) h =
      IsPrefix-cons pcm (delivered es (subscriber q true false)) (pending q ++ sent es)
        (attached_live es q h)

  -- Whatever order the chunks of the job, its end and the turns of the subscriber come in, a
  -- subscriber is given the first of the chunks that were sent since it subscribed: none is left out
  -- before one that it is given, and none comes twice.
  pub delivered_prefix :
      (es : List Live) → IsPrefix (delivered es (subscriber [] true false)) (sent es)
  unfolding has_end pending
  delivered_prefix es = attached_live es [] refl

  -- The history of a subscriber that takes every chunk before the next is sent.
  abbrev prompt : List (List ℕ) → List Live
  prompt [] = ending ∷ turn ∷ []
  prompt (pcm ∷ cs) = chunk pcm ∷ turn ∷ prompt cs

  -- A subscriber that takes every chunk before the next is sent is given all chunks of the job.
  pub delivered-prompt :
      (cs : List (List ℕ)) → delivered (prompt cs) (subscriber [] true false) ≡ cs
  unfolding delivered next_chunk offered
  delivered-prompt [] = refl
  delivered-prompt (pcm ∷ cs) = ap (λ r. pcm ∷ r) (delivered-prompt cs)
