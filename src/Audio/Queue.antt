-- ===== src/Audio/Queue.antt =====
-- src/tts_studio/generation/audio.py: `ByteBudgetQueue`. An `await` that finds its condition false
-- waits; what it does after a wake-up is the same test again, so a waiting call is one that is tried
-- again later.
pub mod Laws
use tts_studio.Base.{
  ℕ, ◌+◌, ◌-◌, ◌≤◌, ◌<◌, ◌≡◌, ◌≢◌, refl, Bool, true, false, ◌||◌, Option, none, some, List, [], ◌∷◌,
  ◌++◌, arith, ltb, leb, length, if◌then◌else◌,
}
use tts_studio.Base.Exec.{Result, ok, err, value_error}
use tts_studio.Base.Int.{ℤ, pos, negsuc, to_nat, is_positive}

pub data Item : Type 0 where
  audio : List ℕ → Item
  end : Item

pub record Queue : Type 0 where
  pub max_bytes : ℕ
  pub items : List Item
  pub pending_bytes : ℕ

-- `len(_payload(item))`: a signal has no bytes.
abbrev pub size : Item → ℕ
size (audio pcm) = length pcm
size end = 0

unfoldable pub init : ℤ → Result Queue
init (pos n) =
    if ltb 0 n
    then ok (record { max_bytes = n; items = []; pending_bytes = 0 })
    else err value_error
init (negsuc n) = err value_error

unfoldable pub full : Queue → Bool
full q = leb q.max_bytes q.pending_bytes

-- What a call comes to: its end, a wait, or `asyncio.QueueFull`.
pub data Outcome (A : Type 0) : Type 0 where
  done : A → Queue → Outcome A
  waits : Outcome A
  raises_full : Outcome A

abbrev enqueue : Item → Queue → Queue
enqueue i q = record q { items = q.items ++ i ∷ []; pending_bytes = q.pending_bytes + size i }

unfoldable pub put : Item → Queue → Outcome (Unit {0})
put i q =
    if ltb q.max_bytes (size i)
    then raises_full
    else if ltb q.max_bytes (q.pending_bytes + size i)
    then waits
    else done tt (enqueue i q)

unfoldable pub put_nowait : Item → Queue → Outcome (Unit {0})
put_nowait i q =
    if ltb q.max_bytes (size i) || ltb q.max_bytes (q.pending_bytes + size i)
    then raises_full
    else done tt (enqueue i q)

abbrev pub pop : Queue → List Item → Outcome Item
pop q [] = waits
pop q (i ∷ rest) = done i (record q { items = rest; pending_bytes = q.pending_bytes - size i })

unfoldable pub get : Queue → Outcome Item
get q = pop q q.items

abbrev pub total_size : List Item → ℕ
total_size [] = 0
total_size (i ∷ is) = size i + total_size is

-- The bytes that are counted are those of the items, and they fit the budget.
pub record IsWithin (q : Queue) : Type 0 where
  pub counted : q.pending_bytes ≡ total_size q.items
  pub fits : q.pending_bytes ≤ q.max_bytes

-- The calls that the producers and the consumer make, in the order in which they get the lock.
pub data Call : Type 0 where
  puts puts_nowait : Item → Call
  gets : Call

-- The items that entered and left in a history, and the queue after it.
pub record Trace : Type 0 where
  pub entered : List Item
  pub left : List Item
  pub queue : Queue

abbrev after_put : Item → Trace → Outcome (Unit {0}) → Trace
after_put i t (done _ q) = record t { entered = t.entered ++ i ∷ []; queue = q }
after_put i t waits = t
after_put i t raises_full = t

abbrev after_get : Trace → Outcome Item → Trace
after_get t (done i q) = record t { left = t.left ++ i ∷ []; queue = q }
after_get t waits = t
after_get t raises_full = t

pub step : Trace → Call → Trace
step t (puts i) = after_put i t (put i t.queue)
step t (puts_nowait i) = after_put i t (put_nowait i t.queue)
step t gets = after_get t (get t.queue)

unfoldable pub run : Trace → List Call → Trace
unfolding step put put_nowait get
run t [] = t
run t (c ∷ cs) = run (step t c) cs

abbrev pub start : ℕ → Trace
start n = record {
  entered = [];
  left = [];
  queue = record { max_bytes = n; items = []; pending_bytes = 0 };
}
