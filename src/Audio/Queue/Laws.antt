-- ===== src/Audio/Queue/Laws.antt =====
-- The byte budget and the order of the queue, over every history of calls.
use mathlib.Core.List.{append_assoc}
use tts_studio.Base.{ℕ, ◌+◌, ◌-◌, ◌≤◌, ◌≡◌, refl, sym, ◌∙◌, ap, List, [], ◌∷◌, ◌++◌, arith}
use tts_studio.Audio.Queue.{
  Item, Queue, size, done, waits, put, put_nowait, get, total_size, IsWithin, Call, puts,
  puts_nowait, gets, Trace, step, run, start, pop,
}

total_size-append : (xs : List Item) (i : Item) → total_size (xs ++ i ∷ []) ≡ total_size xs + size i
total_size-append [] i = omega arith
total_size-append (x ∷ xs) i = omega (arith, total_size-append xs i)

-- Where a put has to wait, a get on the same queue does not: it takes an item.
pub put_waits-get :
    (i : Item) (q : Queue)
    → IsWithin q
    → put i q ≡ waits
    → (j : Item) × (q' : Queue) × (get q ≡ done j q')
unfolding put get
put_waits-get i q w h = go q.items refl
  where
    go : (xs : List Item) → q.items ≡ xs → (j : Item) × (q' : Queue) × (pop q q.items ≡ done j q')
    go [] e = absurd (ground (arith, ap total_size e, w))
    go (x ∷ xs) e = (x, record q { items = xs; pending_bytes = q.pending_bytes - size x }, rw e)

-- What every history keeps: the budget, and that what entered is what left and what waits, in order.
pub record IsOrdered (n : ℕ) (t : Trace) : Type 0 where
  pub budget : t.queue.max_bytes ≡ n
  pub within : IsWithin t.queue
  pub order : t.entered ≡ t.left ++ t.queue.items

module _ (n : ℕ) (t : Trace) (o : IsOrdered n t) where
  put-IsOrdered : (i : Item) → IsOrdered n (step t (puts i))
  unfolding step put
  put-IsOrdered i =
      ground (arith, total_size-append t.queue.items i, append_assoc t.left t.queue.items (i ∷ []))

  put_nowait-IsOrdered : (i : Item) → IsOrdered n (step t (puts_nowait i))
  unfolding step put_nowait
  put_nowait-IsOrdered i =
      ground (arith, total_size-append t.queue.items i, append_assoc t.left t.queue.items (i ∷ []))

  get-IsOrdered : IsOrdered n (step t gets)
  unfolding step get
  get-IsOrdered = go t.queue.items refl
    where
      go : (xs : List Item) → t.queue.items ≡ xs → IsOrdered n (step t gets)
      go [] e =
          rw (e, pop)
            (record {
              budget = o.budget;
              within = record {
                counted = ground (arith, o.within.counted, ap total_size e);
                fits = o.within.fits;
              };
              order = o.order ∙ ap (λ r. t.left ++ r) e;
            })
      go (x ∷ xs) e =
          rw (e, pop)
            (record {
              budget = o.budget;
              within = record {
                counted = ground (arith, o.within.counted, ap total_size e);
                fits = ground (arith, o.within.fits);
              };
              order = o.order ∙ ap (λ r. t.left ++ r) e ∙ sym (append_assoc t.left (x ∷ []) xs);
            })

step-IsOrdered : (n : ℕ) (t : Trace) (c : Call) → IsOrdered n t → IsOrdered n (step t c)
step-IsOrdered n t (puts i) o = put-IsOrdered n t o i
step-IsOrdered n t (puts_nowait i) o = put_nowait-IsOrdered n t o i
step-IsOrdered n t gets o = get-IsOrdered n t o

run-IsOrdered : (n : ℕ) (t : Trace) (cs : List Call) → IsOrdered n t → IsOrdered n (run t cs)
unfolding run
run-IsOrdered n t [] o = o
run-IsOrdered n t (c ∷ cs) o = run-IsOrdered n (step t c) cs (step-IsOrdered n t c o)

start-IsOrdered : {n : ℕ} → IsOrdered n (start n)
start-IsOrdered = record {
  budget = refl;
  within = record { counted = refl; fits = omega arith };
  order = refl;
}

-- After any history of puts and gets on a new queue, what entered is what left followed by what
-- still waits, in the order of entry; the counted bytes are those of the waiting items, and they do
-- not pass the budget.
pub run-start :
    (n : ℕ) (cs : List Call)
    → let t = run (start n) cs in
      (t.entered ≡ t.left ++ t.queue.items)
      × (t.queue.pending_bytes ≡ total_size t.queue.items)
      × (t.queue.pending_bytes ≤ n)
run-start n cs =
    let o = run-IsOrdered n (start n) cs start-IsOrdered in
    (o.order, o.within.counted, omega (arith, o.budget, o.within.fits))

-- An item that fits the budget is admitted as soon as the queue has been emptied.
pub put-drained :
    (i : Item) (q : Queue)
    → IsWithin q
    → q.items ≡ []
    → size i ≤ q.max_bytes
    → put i q ≡ done tt (record q { items = i ∷ []; pending_bytes = size i })
unfolding put
put-drained i q w e h = ground (arith, ap total_size e)
