-- ===== src/Server/Reaches.antt =====
-- Every event of the log does reach a client that goes on reading.
use mathlib.Core.Bool.{xor}
use tts_studio.Base.{
  ℕ, zero, suc, ◌+◌, ◌≤◌, ◌<◌, String, ◌≡◌, refl, sym, ap, ◌∙◌, Bool, true, false, Option, none,
  some, List, [], ◌∷◌, ◌++◌, arith, length, take, drop, length-append, inl, inr, Bool-cases,
  if◌then◌else◌,
}
use tts_studio.Base.Exec.{ok, read}
use tts_studio.Base.Int.{pos}
use tts_studio.Events.Text.{TextRules}
use tts_studio.Events.Payload.{is_identifier}
use tts_studio.Events.Store.{
  Event, Store, Stream, matching, is_wanted, read_after, read_batch, is_expired, safe_stream,
}
use tts_studio.Events.Numbered.{IsNumbered}
use tts_studio.Events.Log.{Retains, read_batch_complete, is_expired_iff}
use tts_studio.Server.Sse.{
  Outcome, emit, next_cursor, deliver, answered, download_query, before, reading,
}
use tts_studio.Server.Delivered.{
  stream_of, matching_next, matching-next_cursor, take_prefix, is_after,
}

-- The same store at every round, to a client that stays.
abbrev pub still : ℕ → Store → List (Store × Bool)
still zero st = []
still (suc n) st = (st, false) ∷ still n st

abbrev pub IsAskable : TextRules → Option String → Type 0
IsAskable rules none = Unit
IsAskable rules (some d) = is_identifier rules d ≡ true

found_id :
    (c k : ℕ) (s : Stream) (es : List Event) (x : Event) (rest : List Event)
    → IsNumbered k es
    → matching c s es ≡ x ∷ rest
    → (c < x.id) × (x.id < k + length es)
unfolding matching
found_id c k s [] x rest w h = absurd (ground arith)
found_id c k s (e ∷ es) x rest w h = elim (Bool-cases (is_wanted c s e)) [
  | inl b ↦ let l = is_after c s e b in (ground (arith, w), ground (arith, w))
  | inr b ↦ let (l, m) = found_id c (k + 1) s es x rest w.1 (ground arith) in (l, omega (arith, m))
]

cursor_bounds :
    (c : ℕ) (s : Stream) (log xs rest : List Event)
    → IsNumbered 1 log
    → c ≤ length log
    → matching c s log ≡ xs ++ rest
    → (c ≤ next_cursor c xs) × (next_cursor c xs ≤ length log)
unfolding next_cursor
cursor_bounds c s log [] rest w l h = (omega arith, l)
cursor_bounds c s log (x ∷ xs) rest w l h =
    let (p, q) = found_id c 1 s log x (xs ++ rest) w h in
    let (a, b) =
      cursor_bounds x.id s log xs rest w (omega (arith, q))
        (matching_next c 1 s log x (xs ++ rest) w h) in
    (omega (arith, p, a), b)

-- The events up to the first that ends the download.
emit-append :
    (d : Option String) (xs ys : List Event)
    → (emit d (xs ++ ys)).0
      ≡ (if (emit d xs).1 then (emit d xs).0 else (emit d xs).0 ++ (emit d ys).0)
unfolding emit
emit-append d [] ys = refl
emit-append d (x ∷ xs) ys = ground (arith, emit-append d xs ys)

batch_answer :
    (rules : TextRules) (d : Option String) (size c : ℕ) (st : Store)
    → 1 ≤ size
    → size ≤ 1000
    → IsAskable rules d
    → (read_after rules (pos c) (download_query d) (pos size) st).0
      ≡ ok (read_batch c (stream_of d) size st)
unfolding read_after read safe_stream xor
batch_answer rules none size c st l u h = ground arith
batch_answer rules (some d) size c st l u h = ground arith

take_nil : (n : ℕ) (xs : List Event) → 1 ≤ n → take n xs ≡ [] → xs ≡ []
take_nil zero xs l h = elim l [ ]
take_nil (suc n) [] l h = refl
take_nil (suc n) (x ∷ xs) l h = cc

module _ (rules : TextRules) (d : Option String) (size : ℕ) (log : List Event) (st : Store)
    (v : Retains log st) (low : 1 ≤ size) (high : size ≤ 1000) (askable : IsAskable rules d) where
  unexpired :
      (c : ℕ) → c ≤ length log → length log ≤ c + st.retention_limit → is_expired c st ≡ false
  unexpired c past kept = elim (Bool-cases (is_expired c st)) [
    | inl b ↦ absurd (ground (arith, (is_expired_iff log st v c).0 b))
    | inr b ↦ b
  ]

  fresh :
      (c : ℕ)
      → c ≤ length log
      → length log ≤ c + st.retention_limit
      → read_batch c (stream_of d) size st ≡ record {
        events = take size (matching c (stream_of d) log);
        cursor_expired = false;
        reset_cursor = st.last_event_id;
      }
  unfolding read_batch
  fresh c past kept =
      let f = unexpired c past kept in
      let all = read_batch_complete log st v c size (stream_of d) past kept in ground arith

  abbrev wanted : ℕ → List Event
  wanted c = matching c (stream_of d) log

  abbrev sent : ℕ → ℕ → List Event
  sent c n = (deliver rules d size c reading (still n st)).events

  round :
      (c n : ℕ) (o : Outcome)
      → c ≤ length log
      → length log ≤ c + st.retention_limit
      → deliver rules d size c o (still (suc n) st)
        ≡ answered d c false
            (λ c' o'. deliver rules d size c' o' (still n st))
            (ok (record {
              events = take size (wanted c);
              cursor_expired = false;
              reset_cursor = st.last_event_id;
            }))
  unfolding deliver
  round c n o past kept =
      ap (answered d c false (λ c' o'. deliver rules d size c' o' (still n st)))
        (batch_answer rules d size c st low high askable ∙ ap ok (fresh c past kept))

  abbrev Reaches : ℕ → ℕ → Type 0
  Reaches n c =
      (o : Outcome)
      → length (wanted c) ≤ n
      → (deliver rules d size c o (still n st)).events ≡ (emit d (wanted c)).0

  last_round : (c : ℕ) → Reaches zero c
  unfolding deliver emit
  last_round c o l = nothing_left (wanted c) l
    where
      nothing_left : (xs : List Event) → length xs ≤ 0 → [] ≡ (emit d xs).0
      nothing_left [] l = refl
      nothing_left (x ∷ xs) l = elim l [ ]

  -- The events of a batch, and then those of the rounds that follow.
  sent_or_ended :
      (c n : ℕ) (xs rest : List Event)
      → wanted c ≡ xs ++ rest
      → Reaches n (next_cursor c xs)
      → length rest ≤ n
      → (last : Bool) → (emit d xs).1 ≡ last
      → (if last
          then record { events = (emit d xs).0; outcome = Outcome.finished }
          else before
              (emit d xs).0
              (deliver rules d size (next_cursor c xs) reading (still n st))).events
        ≡ (emit d (wanted c)).0
  sent_or_ended c n xs rest p next l true e =
      sym (ap (λ t. (emit d t).0) p ∙ emit-append d xs rest ∙ ground arith)
  sent_or_ended c n xs rest p next l false e =
      let after = matching-next_cursor c (stream_of d) log xs rest v.numbered p in
      ap (λ t. (emit d xs).0 ++ t)
        (next reading (omega (arith, ap length after)) ∙ ap (λ t. (emit d t).0) after)
      ∙ sym (ap (λ t. (emit d t).0) p ∙ emit-append d xs rest ∙ ground arith)

  one_round :
      (c n : ℕ) (xs rest : List Event)
      → xs ≡ take size (wanted c)
      → wanted c ≡ xs ++ rest
      → length (wanted c) ≤ suc n
      → ((c' : ℕ) → c ≤ c' → c' ≤ length log → Reaches n c')
      → c ≤ length log
      → (answered d c false
          (λ c' o'. deliver rules d size c' o' (still n st))
          (ok (record {
            events = xs;
            cursor_expired = false;
            reset_cursor = st.last_event_id;
          }))).events
        ≡ (emit d (wanted c)).0
  one_round c n [] rest e p l next past =
      next c (omega arith) past Outcome.waiting
        (omega (arith, ap length (take_nil size (wanted c) low (sym e))))
  one_round c n (x ∷ xs) rest e p l next past =
      let (a, b) = cursor_bounds c (stream_of d) log (x ∷ xs) rest v.numbered past p in
      sent_or_ended c n (x ∷ xs) rest p (next (next_cursor c (x ∷ xs)) a b)
        (omega (arith, l, ap length p, length-append xs rest)) (emit d (x ∷ xs)).1 refl

  -- If the log no longer grows, none of what follows the cursor has been pruned, a batch has 1 to
  -- 1000 events, and an id of a download that is asked for is an identifier, then as many rounds as
  -- there are events deliver all events after the cursor that belong to the download, up to the
  -- first that ends it.
  pub deliver-reaches :
      (n c : ℕ)
      → c ≤ length log
      → length log ≤ c + st.retention_limit
      → length (matching c (stream_of d) log) ≤ n
      → (deliver rules d size c reading (still n st)).events
        ≡ (emit d (matching c (stream_of d) log)).0
  deliver-reaches n c past kept enough = reaches n c past kept reading enough
    where
      reaches : (n c : ℕ) → c ≤ length log → length log ≤ c + st.retention_limit → Reaches n c
      reaches zero c past kept = last_round c
      reaches (suc n) c past kept = λ o l.
          ap (λ x. x.events) (round c n o past kept)
          ∙ one_round c n (take size (wanted c)) (drop size (wanted c)) refl
              (take_prefix size (wanted c)) l
              (λ c' more past'. reaches n c' past' (omega (arith, more, kept))) past
