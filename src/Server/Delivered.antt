-- ===== src/Server/Delivered.antt =====
-- What a client of the event stream gets, against the log of everything that was ever appended.
use mathlib.Core.Path.{subst}
use mathlib.Core.List.{append_assoc}
use tts_studio.Base.{IsPrefix, IsPrefix-trans}
use tts_studio.Base.{
  ℕ, zero, suc, ◌+◌, ◌≤◌, ◌<◌, String, ◌≡◌, refl, sym, ap, ◌∙◌, Bool, true, false, Option, none,
  some, List, [], ◌∷◌, ◌++◌, arith, take, drop, inl, inr, Bool-cases, is_some, ◌&&◌, if◌then◌else◌,
}
use tts_studio.Base.Exec.{Result, ok, err, read}
use tts_studio.Base.Int.{pos}
use tts_studio.Events.Text.{TextRules}
use tts_studio.Events.Store.{
  Event, Store, Stream, EventBatch, matching, is_wanted, read_after, read_batch, is_terminal_event,
  is_expired,
}
use tts_studio.Events.Numbered.{IsNumbered}
use tts_studio.Events.Log.{Retains, read_batch_complete, is_expired_iff}
use tts_studio.Server.Sse.{
  Outcome, Delivery, emit, next_cursor, deliver, answered, download_query, before, reading,
}

abbrev pub stream_of : Option String → Stream
stream_of none = (none, none)
stream_of (some d) = (some "download", some d)

-- A batch that was read is the one of the stream.
batch_read :
    (rules : TextRules) (d : Option String) (size c : ℕ) (st : Store) (b : EventBatch)
    → (read_after rules (pos c) (download_query d) (pos size) st).0 ≡ ok b
    → b ≡ read_batch c (stream_of d) size st
unfolding read_after read
batch_read rules none size c st b h = ground arith
batch_read rules (some d) size c st b h = ground arith

-- On ids that count up from above both cursors, the cursors ask for the same.
matching_after :
    (c k m : ℕ) (s : Stream) (es : List Event)
    → c ≤ k
    → k < m
    → IsNumbered m es
    → matching k s es ≡ matching c s es
unfolding matching
matching_after c k m s [] h l w = refl
matching_after c k m (none, i) (e ∷ es) h l w =
    ground (arith, w, matching_after c k (m + 1) (none, i) es h (omega arith) w.1)
matching_after c k m (some j, i) (e ∷ es) h l w =
    ground (arith, w, matching_after c k (m + 1) (some j, i) es h (omega arith) w.1)

pub is_after : (c : ℕ) (s : Stream) (e : Event) → is_wanted c s e ≡ true → c < e.id
is_after c (none, i) e h = ground arith
is_after c (some j, i) e h = ground arith

not_itself : (s : Stream) (k : ℕ) (e : Event) → e.id ≤ k → is_wanted k s e ≡ false
not_itself (none, i) k e h = ground arith
not_itself (some j, i) k e h = ground arith

head_id :
    (c k : ℕ) (s : Stream) (es : List Event) (x : Event) (rest : List Event)
    → IsNumbered k es
    → matching c s es ≡ x ∷ rest
    → k ≤ x.id
unfolding matching
head_id c k s [] x rest w h = ground arith
head_id c k s (e ∷ es) x rest w h = elim (Bool-cases (is_wanted c s e)) [
  | inl b ↦ ground (arith, w)
  | inr b ↦ let l = head_id c (k + 1) s es x rest w.1 in ground arith
]

-- From the id of the first event that is wanted, the others are.
pub matching_next :
    (c k : ℕ) (s : Stream) (es : List Event) (x : Event) (rest : List Event)
    → IsNumbered k es
    → matching c s es ≡ x ∷ rest
    → matching x.id s es ≡ rest
unfolding matching
matching_next c k s [] x rest w h = absurd (ground arith)
matching_next c k s (e ∷ es) x rest w h = elim (Bool-cases (is_wanted c s e)) [
  | inl b ↦
      let same : e ≡ x = ground arith in
      let tail : matching c s es ≡ rest = ground arith in
      let l = is_after c s e b in
      let off = not_itself s x.id e (ground arith) in
      let r = matching_after c x.id (k + 1) s es (ground arith) (ground (arith, w)) w.1 in
      ground arith
  | inr b ↦
      let tail : matching c s es ≡ x ∷ rest = ground arith in
      let l = head_id c (k + 1) s es x rest w.1 tail in
      let off = not_itself s x.id e (ground (arith, w)) in
      let r = matching_next c (k + 1) s es x rest w.1 tail in ground arith
]

-- After a batch, the cursor asks for what follows the batch.
pub matching-next_cursor :
    (c : ℕ) (s : Stream) (log xs rest : List Event)
    → IsNumbered 1 log
    → matching c s log ≡ xs ++ rest
    → matching (next_cursor c xs) s log ≡ rest
unfolding next_cursor
matching-next_cursor c s log [] rest w h = h
matching-next_cursor c s log (x ∷ xs) rest w h =
    matching-next_cursor x.id s log xs rest w (matching_next c 1 s log x (xs ++ rest) w h)

pub take_prefix : (n : ℕ) (xs : List Event) → xs ≡ take n xs ++ drop n xs
take_prefix zero xs = refl
take_prefix (suc n) [] = refl
take_prefix (suc n) (x ∷ xs) = ap (λ t. x ∷ t) (take_prefix n xs)

matching-append :
    (c : ℕ) (s : Stream) (xs ys : List Event)
    → matching c s (xs ++ ys) ≡ matching c s xs ++ matching c s ys
unfolding matching
matching-append c s [] ys = refl
matching-append c s (x ∷ xs) ys = ground (arith, matching-append c s xs ys)

-- What is wanted of a part of the log comes first in what is wanted of the log.
matching_prefix :
    (c : ℕ) (s : Stream) (n : ℕ) (log : List Event)
    → IsPrefix (matching c s (take n log)) (matching c s log)
matching_prefix c s n log = (
  matching c s (drop n log),
  ap (matching c s) (take_prefix n log) ∙ matching-append c s (take n log) (drop n log),
)

-- A store that holds what a part of the log had.
abbrev pub IsView : List Event → Store → Type 0
IsView log st = (n : ℕ) × Retains (take n log) st

abbrev pub AreViews : List Event → List (Store × Bool) → Type 0
AreViews log [] = Unit
AreViews log ((st, gone) ∷ rounds) = IsView log st × AreViews log rounds

fresh_batch :
    (c : ℕ) (s : Stream) (size : ℕ) (st : Store)
    → (read_batch c s size st).cursor_expired ≡ false
    → is_expired c st ≡ false
unfolding read_batch
fresh_batch c s size st h = ground arith

batch_events :
    (c : ℕ) (s : Stream) (size : ℕ) (log : List Event) (st : Store)
    → Retains log st
    → (read_batch c s size st).cursor_expired ≡ false
    → (read_batch c s size st).events ≡ take size (matching c s log)
batch_events c s size log st v h =
    let i = is_expired_iff log st v c in
    let f = fresh_batch c s size st h in
    read_batch_complete log st v c size s (ground arith) (ground arith)

sent_prefix : (d : Option String) (es : List Event) → IsPrefix (emit d es).0 es
unfolding emit
sent_prefix d [] = ([], refl)
sent_prefix d (e ∷ es) = elim (Bool-cases (is_some d && is_terminal_event e)) [
  | inl b ↦ (es, ground arith)
  | inr b ↦ let (r, p) = sent_prefix d es in (r, ground arith)
]

pub sent_all : (d : Option String) (es : List Event) → (emit d es).1 ≡ false → (emit d es).0 ≡ es
unfolding emit
sent_all d [] h = refl
sent_all d (e ∷ es) h = let p = sent_all d es in ground arith

-- What a delivery of the events of a log from a cursor is: no event is missed, sent twice or moved.
abbrev pub IsFaithful : List Event → Stream → ℕ → Delivery → Type 0
IsFaithful log s c d = IsPrefix d.events (matching c s log)

module _ (log : List Event) (numbered : IsNumbered 1 log) (d : Option String) (c : ℕ) (gone : Bool)
    (rest : ℕ → Outcome → Delivery)
    (faithful : (c' : ℕ) (o : Outcome) → IsFaithful log (stream_of d) c' (rest c' o)) where
  sent-IsFaithful :
      (xs : List Event)
      → IsPrefix xs (matching c (stream_of d) log)
      → (last : Bool) → (emit d xs).1 ≡ last
      → IsFaithful log (stream_of d) c (
          if last
          then record { events = (emit d xs).0; outcome = Outcome.finished }
          else before (emit d xs).0 (rest (next_cursor c xs) reading))
  sent-IsFaithful xs p true l =
      IsPrefix-trans (emit d xs).0 xs (matching c (stream_of d) log) (sent_prefix d xs) p
  sent-IsFaithful xs (ys, q) false l =
      let (zs, r) = faithful (next_cursor c xs) reading in
      let next = matching-next_cursor c (stream_of d) log xs ys numbered q in
      (
        zs,
        q
            ∙ ap (λ t. xs ++ t) (sym next ∙ r)
            ∙ sym (append_assoc xs (rest (next_cursor c xs) reading).events zs)
            ∙ ap (λ t. (t ++ (rest (next_cursor c xs) reading).events) ++ zs)
                (sym (sent_all d xs l)),
      )

  idle-IsFaithful :
      (g : Bool)
      → IsFaithful log (stream_of d) c (
          if g
          then record { events = []; outcome = Outcome.disconnected }
          else rest c Outcome.waiting)
  idle-IsFaithful true = (matching c (stream_of d) log, refl)
  idle-IsFaithful false = faithful c Outcome.waiting

  batch-IsFaithful :
      (expired : Bool) (xs : List Event) (reset_cursor : ℕ)
      → (expired ≡ false → IsPrefix xs (matching c (stream_of d) log))
      → IsFaithful log (stream_of d) c (
          answered d c gone rest
            (ok (record { events = xs; cursor_expired = expired; reset_cursor = reset_cursor })))
  batch-IsFaithful true xs n h = (matching c (stream_of d) log, refl)
  batch-IsFaithful false [] n h = idle-IsFaithful gone
  batch-IsFaithful false (x ∷ xs) n h = sent-IsFaithful (x ∷ xs) (h refl) (emit d (x ∷ xs)).1 refl

  answered-IsFaithful :
      (r : Result EventBatch)
      → ((b : EventBatch)
          → r ≡ ok b
          → b.cursor_expired ≡ false
          → IsPrefix b.events (matching c (stream_of d) log))
      → IsFaithful log (stream_of d) c (answered d c gone rest r)
  answered-IsFaithful (err e) h = (matching c (stream_of d) log, refl)
  answered-IsFaithful (ok b) h =
      batch-IsFaithful b.cursor_expired b.events b.reset_cursor (h b refl)

module _ (rules : TextRules) (d : Option String) (size : ℕ) (log : List Event)
    (numbered : IsNumbered 1 log) where
  view_prefix :
      (c : ℕ) (st : Store)
      → IsView log st
      → (b : EventBatch) → (read_after rules (pos c) (download_query d) (pos size) st).0 ≡ ok b
      → b.cursor_expired ≡ false
      → IsPrefix b.events (matching c (stream_of d) log)
  view_prefix c st (n, v) b h fresh =
      let p = batch_read rules d size c st b h in
      let e : b.events ≡ take size (matching c (stream_of d) (take n log)) =
        ap (λ x. x.events) p
        ∙ batch_events c (stream_of d) size (take n log) st v
            (sym (ap (λ x. x.cursor_expired) p) ∙ fresh) in
      let wanted = matching c (stream_of d) (take n log) in
      subst (λ x. IsPrefix x (matching c (stream_of d) log)) (sym e)
        (IsPrefix-trans (take size wanted) wanted (matching c (stream_of d) log)
          (drop size wanted, take_prefix size wanted) (matching_prefix c (stream_of d) n log))

  -- Whatever a client of the event stream is sent, over any rounds whose stores hold what parts of
  -- the log had, comes first among the events of the log that follow its cursor and belong to the
  -- download that it asks for: none is missed, sent twice or sent out of order.
  pub deliver-IsFaithful :
      (c : ℕ) (o : Outcome) (rounds : List (Store × Bool))
      → AreViews log rounds
      → IsPrefix (deliver rules d size c o rounds).events (matching c (stream_of d) log)
  unfolding deliver
  deliver-IsFaithful c o [] v = (matching c (stream_of d) log, refl)
  deliver-IsFaithful c o ((st, gone) ∷ rounds) v =
      answered-IsFaithful log numbered d c gone (λ c' o'. deliver rules d size c' o' rounds)
        (λ c' o'. deliver-IsFaithful c' o' rounds v.1)
        (read_after rules (pos c) (download_query d) (pos size) st).0 (view_prefix c st v.0)
