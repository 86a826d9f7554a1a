-- ===== src/Events/Log.antt =====
-- The store against the log of everything that was ever appended.
use tts_studio.Base.{
  ℕ, ◌+◌, ◌-◌, ◌≤◌, ◌<◌, ◌≡◌, ◌↔◌, refl, ap, ◌∙◌, sym, String, true, List, [], ◌∷◌, ◌++◌, arith,
  length, take, drop, length-append, length-drop, ◌⊎◌, inl, inr, Bool-cases,
}
use tts_studio.Base.Exec.{Error, Result, ok, err, transaction}
use mathlib.Core.Path.{subst}
use tts_studio.Events.Text.{TextRules}
use tts_studio.Events.Store.{
  Event, Store, Message, Stream, append, prune, matching, is_expired, read_batch,
}
use tts_studio.Events.Numbered.{
  IsNumbered, IsNumbered-append, IsNumbered-drop, prune-drop, drop-drop, drop-append, matching-drop,
}

-- The log is numbered from 1, and the store holds its newest events and its length.
pub record Retains (log : List Event) (st : Store) : Type 0 where
  pub numbered : IsNumbered 1 log
  pub newest : st.events ≡ drop (length log - st.retention_limit) log
  pub counted : st.last_event_id ≡ length log
  pub positive : 1 ≤ st.retention_limit

append_ok :
    (rules : TextRules) (now : String) (m : Message) (st st' : Store) (e : Event)
    → append rules now m st ≡ (ok e, st')
    → (e.id ≡ st.last_event_id + 1)
      × (st' ≡ record st {
        events = prune st.retention_limit (st.events ++ e ∷ []);
        last_event_id = st.last_event_id + 1;
      })
unfolding append transaction
append_ok rules now m st st' e h = ground arith

append_err :
    (rules : TextRules) (now : String) (m : Message) (st st' : Store) (x : Error)
    → append rules now m st ≡ (err x, st')
    → st' ≡ st
unfolding append transaction
append_err rules now m st st' x h = ground arith

-- An append that succeeds extends the log by the event that it returns, and drops the oldest.
append-Retains :
    (log : List Event) (st : Store) (e : Event)
    → Retains log st
    → e.id ≡ st.last_event_id + 1
    → Retains (log ++ e ∷ []) (record st {
      events = prune st.retention_limit (st.events ++ e ∷ []);
      last_event_id = st.last_event_id + 1;
    })
append-Retains log st e v h = record {
  numbered = all;
  newest = held;
  counted = omega (arith, v.counted, length-append log (e ∷ []));
  positive = v.positive;
}
  where
    r : ℕ
    r = st.retention_limit

    all : IsNumbered 1 (log ++ e ∷ [])
    all = IsNumbered-append 1 log e v.numbered (omega (arith, v.counted))

    gone : ℕ
    gone = length log - r

    tail : st.events ++ e ∷ [] ≡ drop gone (log ++ e ∷ [])
    tail = ap (λ es. es ++ e ∷ []) v.newest ∙ sym (drop-append gone log (e ∷ []) (omega arith))

    held : prune r (st.events ++ e ∷ []) ≡ drop (length (log ++ e ∷ []) - r) (log ++ e ∷ [])
    held =
        ap (prune r) tail
        ∙ prune-drop r (1 + gone) (drop gone (log ++ e ∷ [])) v.positive
            (IsNumbered-drop 1 gone (log ++ e ∷ []) (omega (arith, length-append log (e ∷ []))) all)
        ∙ drop-drop (length (drop gone (log ++ e ∷ [])) - r) gone (log ++ e ∷ [])
        ∙ ap (λ n. drop n (log ++ e ∷ []))
            (omega
              (arith, v.positive, length-append log (e ∷ []), length-drop gone (log ++ e ∷ [])))

abbrev pub published : List Event → Result Event × Store → List Event × Store
published log (ok e, st) = (log ++ e ∷ [], st)
published log (err x, st) = (log, st)

-- A history of appends, and the log of those that succeeded.
unfoldable pub publish :
    TextRules → List Event × Store → List (String × Message) → List Event × Store
publish rules s [] = s
publish rules (log, st) ((now, m) ∷ ms) = publish rules (published log (append rules now m st)) ms

published-Retains :
    (rules : TextRules) (now : String) (m : Message) (log : List Event) (st : Store)
    → Retains log st
    → (r : Result Event × Store) → append rules now m st ≡ r
    → Retains (published log r).0 (published log r).1
published-Retains rules now m log st v (err x, st') h =
    subst (Retains log) (sym (append_err rules now m st st' x h)) v
published-Retains rules now m log st v (ok e, st') h =
    let (i, p) = append_ok rules now m st st' e h in
    subst (Retains (log ++ e ∷ [])) (sym p) (append-Retains log st e v i)

-- Whatever is appended to a store that holds the newest events of a log, refused messages included,
-- it then holds the newest events of the longer log: exactly the last `retention_limit` events that
-- were ever stored, numbered from 1 without a gap, and their count.
pub publish-Retains :
    (rules : TextRules) (log : List Event) (st : Store) (ms : List (String × Message))
    → Retains log st
    → Retains (publish rules (log, st) ms).0 (publish rules (log, st) ms).1
unfolding publish
publish-Retains rules log st [] v = v
publish-Retains rules log st ((now, m) ∷ ms) v =
    let s = published log (append rules now m st) in
    publish-Retains rules s.0 s.1 ms
      (published-Retains rules now m log st v (append rules now m st) refl)

module _ (log : List Event) (st : Store) (v : Retains log st) where
  gone : ℕ
  gone = length log - st.retention_limit

  tail-IsNumbered : IsNumbered (1 + gone) st.events
  unfolding gone
  tail-IsNumbered =
      subst (IsNumbered (1 + gone)) (sym v.newest)
        (IsNumbered-drop 1 gone log (omega arith) v.numbered)

  tail_length : length st.events ≡ length log - gone
  unfolding gone
  tail_length = ap length v.newest ∙ length-drop gone log

  expired_cases :
      (c : ℕ) (es : List Event)
      → st.events ≡ es
      → (is_expired c st ≡ true) ↔ ((length log < c) ⊎ (c + st.retention_limit < length log))
  unfolding is_expired gone
  expired_cases c [] e =
      let short : 0 ≡ length log - (length log - st.retention_limit) =
        sym (ap length e) ∙ tail_length in
      let none_ever : length log ≡ 0 = omega (arith, v.positive) in
      ground (arith, e, none_ever, v.counted)
  expired_cases c (x ∷ es) e =
      let first = subst (IsNumbered (1 + (length log - st.retention_limit))) e tail-IsNumbered in
      ground (arith, e, first, v.counted)

  -- A cursor is reported as expired exactly when it lies past the end of the log, or when an event
  -- after it has been pruned.
  pub is_expired_iff :
      (c : ℕ)
      → (is_expired c st ≡ true) ↔ ((length log < c) ⊎ (c + st.retention_limit < length log))
  is_expired_iff c = expired_cases c st.events refl

  -- A reader whose cursor has not expired gets the first `n` events of the whole log that follow its
  -- cursor and belong to its stream: pruning hides none of them.
  pub read_batch_complete :
      (c n : ℕ) (s : Stream)
      → c ≤ length log
      → length log ≤ c + st.retention_limit
      → (read_batch c s n st).events ≡ take n (matching c s log)
  unfolding read_batch gone
  read_batch_complete c n s past kept = elim (Bool-cases (is_expired c st)) [
    | inl b ↦ absurd (ground (arith, (is_expired_iff c).0 b))
    | inr b ↦ rw b (
        ap (λ es. take n (matching c s es)) v.newest
        ∙ ap (take n)
            (matching-drop c 1 (length log - st.retention_limit) s log v.numbered (omega arith)))
  ]
