-- ===== src/Scheduler/Buffer/Laws.antt =====
-- What the in-memory queue of pkg/scheduler/submit_buffer.go keeps, over single calls and over
-- every interleaving of calls.
use compkg.Common.{
  ℕ, zero, suc, ◌+◌, ◌-◌, ◌≤◌, ◌<◌, ◌≡◌, refl, ap, ◌∙◌, inl, inr, false, Bool-cases, List, [], ◌∷◌,
  ◌++◌, length, take, drop, ltb, if◌then◌else◌, length-append, length-take, length-drop,
  take-append-drop, arith,
}
use compkg.Common.Int.{ℤ, pos, negsuc}
use compkg.Scheduler.Buffer.{
  BufferedTask, SubmitBuffer, new_submit_buffer, push, batch_size, drain, put_back, keep_newest,
  len,
}

-- What `drain` takes and what it leaves are the queue, in order, and nothing else changes.
pub drain_splits :
    (max : ℤ) (b : SubmitBuffer)
    → ((drain max b).1 ++ (drain max b).0.queue ≡ b.queue) × ((drain max b).0.cap ≡ b.cap)
unfolding drain
drain_splits max b = (take-append-drop _ b.queue, refl)

batch_size_pos : (max : ℤ) (n : ℕ) → 0 < n → 0 < batch_size max n
batch_size_pos (pos zero) n h = ground arith
batch_size_pos (pos (suc k)) n h = ground arith
batch_size_pos (negsuc k) n h = ground arith

pub batch_size-le : (max : ℤ) (n : ℕ) → batch_size max n ≤ n
batch_size-le (pos zero) n = ground arith
batch_size-le (pos (suc k)) n = ground arith
batch_size-le (negsuc k) n = ground arith

-- From a queue that is not empty `drain` takes at least one task, whatever the batch size.
pub drain_progress : (max : ℤ) (b : SubmitBuffer) → 0 < len b → 0 < length (drain max b).1
unfolding drain len
drain_progress max b h = rw length-take (omega (arith, batch_size_pos max (length b.queue) h))

keep_newest-drop :
    (cap : ℕ) (ts : List BufferedTask) → keep_newest cap ts ≡ drop (length ts - cap) ts
keep_newest-drop cap ts = elim (Bool-cases (ltb cap (length ts))) [
  | inl over ↦ rw over
  | inr fits ↦ let e : length ts - cap ≡ 0 = ground arith in rw (fits, e)
]

put_back-append :
    (ts : List BufferedTask) (b : SubmitBuffer)
    → length ts + len b ≤ b.cap
    → put_back ts b ≡ record b { queue = ts ++ b.queue }
unfolding put_back len
put_back-append [] b h = refl
put_back-append (t ∷ ts) b h =
    let e : ltb b.cap (length ((t ∷ ts) ++ b.queue)) ≡ false =
      ground (arith, length-append ts b.queue) in
    rw e

-- Tasks that are put back before anything else is queued are where they were.
put_back-drain :
    (max : ℤ) (b : SubmitBuffer) → len b ≤ b.cap → put_back (drain max b).1 (drain max b).0 ≡ b
unfolding drain len
put_back-drain max b h =
    let n = batch_size max (length b.queue) in
    put_back-append (take n b.queue) (record b { queue = drop n b.queue })
      (rw (length-take, length-drop) (omega arith))
    ∙ ap (λ q. record b { queue = q }) (take-append-drop n b.queue)

put_back-queue :
    (ts : List BufferedTask) (b : SubmitBuffer)
    → len b ≤ b.cap
    → (put_back ts b).queue ≡ drop (length (ts ++ b.queue) - b.cap) (ts ++ b.queue)
unfolding put_back len
put_back-queue [] b h = let e : length b.queue - b.cap ≡ 0 = omega arith in rw e
put_back-queue (t ∷ ts) b h = keep_newest-drop b.cap ((t ∷ ts) ++ b.queue)

-- A put-back keeps the capacity and drops exactly the oldest tasks that are over it: what is dropped
-- and what is kept are the tasks that were put back, then the queue, in order.
pub put_back_drops :
    (ts : List BufferedTask) (b : SubmitBuffer)
    → len b ≤ b.cap
    → (dropped : List BufferedTask) × (dropped ++ (put_back ts b).queue ≡ ts ++ b.queue)
      × (length dropped ≡ length ts + len b - b.cap)
      × (len (put_back ts b) ≤ b.cap)
unfolding len
put_back_drops ts b h =
    let merged = ts ++ b.queue in
    let n = length merged - b.cap in
    let kept = put_back-queue ts b h in
    let size = length-append ts b.queue in
    (
      take n merged,
      rw kept (take-append-drop n merged),
      rw length-take (omega arith),
      rw (kept, length-drop) (omega arith),
    )

-- The calls that goroutines make on the buffer. The retry loop holds the tasks that it drained
-- until it puts some of them back.
pub data Call : Type 0 where
  push_call : BufferedTask → Call
  drain_call : ℤ → Call
  put_back_call : List BufferedTask → Call

unfoldable pub step : Call → SubmitBuffer → SubmitBuffer
step (push_call t) b = (push t b).0
step (drain_call max) b = (drain max b).0
step (put_back_call ts) b = put_back ts b

unfoldable pub run : List Call → SubmitBuffer → SubmitBuffer
run [] b = b
run (c ∷ cs) b = run cs (step c b)

pub cap-put_back : (ts : List BufferedTask) (b : SubmitBuffer) → (put_back ts b).cap ≡ b.cap
unfolding put_back
cap-put_back [] b = refl
cap-put_back (t ∷ ts) b = refl

step_bounded :
    (c : Call) (b : SubmitBuffer)
    → len b ≤ b.cap
    → (len (step c b) ≤ (step c b).cap) × ((step c b).cap ≡ b.cap)
unfolding step len push drain
step_bounded (push_call t) b h = ground (arith, length-append b.queue (t ∷ []))
step_bounded (drain_call max) b h = (rw length-drop (omega arith), refl)
step_bounded (put_back_call ts) b h =
    let (dropped, kept, size, bound) = put_back_drops ts b h in
    (rw (cap-put_back ts b) bound, cap-put_back ts b)

run_bounded :
    (cs : List Call) (b : SubmitBuffer)
    → len b ≤ b.cap
    → (len (run cs b) ≤ (run cs b).cap) × ((run cs b).cap ≡ b.cap)
unfolding run
run_bounded [] b h = (h, refl)
run_bounded (c ∷ cs) b h =
    let first = step_bounded c b h in
    let rest = run_bounded cs (step c b) first.0 in (rest.0, rest.1 ∙ first.1)

-- Whatever pushes, drains and put-backs run on a new buffer, in any order, it never holds more tasks
-- than its capacity.
run-len-le : (capacity : ℕ) (cs : List Call) → len (run cs (new_submit_buffer capacity)) ≤ capacity
unfolding new_submit_buffer len
run-len-le capacity cs =
    let bounded = run_bounded cs (new_submit_buffer capacity) (omega arith) in
    omega (arith, bounded.0, bounded.1)

-- A push is refused exactly when the queue is full, and then changes nothing; else the task is last.
pub push_lem :
    (t : BufferedTask) (b : SubmitBuffer)
    → ((push t b).1 ≡ ltb (len b) b.cap)
      × ((push t b).0.queue ≡ (if ltb (len b) b.cap then b.queue ++ t ∷ [] else b.queue))
unfolding push len
push_lem t b = ground arith
