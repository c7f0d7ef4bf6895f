-- ===== src/Scheduler/Submit/Loop.antt =====
-- What becomes of the tasks in the memory queue while the retry loop of
-- pkg/scheduler/submit_buffer.go runs.
use compkg.Common.{
  ℕ, ◌≤◌, ◌≡◌, refl, sym, ap, ◌∙◌, ◌⊎◌, inl, inr, true, false, some, List, [], ◌∷◌, ◌++◌,
  Bool-cases, leb, append-nil, length, length-append, arith,
}
use mathlib.Core.Path.{subst}
use mathlib.Core.List.Sublist
use mathlib.Core.List.{Sublist}
use compkg.Scheduler.Buffer.{SubmitOptions, BufferedTask, SubmitBuffer, push, len}
use compkg.Scheduler.Disk.{Os}
use compkg.Scheduler.Submit.{
  Server, Client, Happening, enqueues, wakes, enqueue_task, enqueue_buffered_task, make_buffered,
  flush_buffer_once, happen, run_retry_loop,
}
use compkg.Scheduler.Submit.Sent.{opts_of, length-opts_of}
use compkg.Scheduler.Submit.Untouched.{local_buffer-submit}
use compkg.Scheduler.Submit.Flush.{flush_buffer_once-Flushed}
use compkg.Scheduler.Submit.Departures.{dropped_in, left, map-left, dropped_in-left, Mem-All}
use compkg.Scheduler.Submit.Kept.{arrivals_in, offered_in, IsAnswered, Kept, stays, cons-Kept}

module _ (os : Os) (srv : Server) where
  flush_unconnected :
      (arrivals : List BufferedTask) (b : SubmitBuffer) (c : Client os srv)
      → c.connected ≡ false
      → flush_buffer_once os srv arrivals b c ≡ c
  unfolding flush_buffer_once
  flush_unconnected arrivals b c off = ground arith

  happen-wakes :
      (arrivals : List BufferedTask) (b : SubmitBuffer) (c : Client os srv)
      → c.local_buffer ≡ some b
      → happen os srv (wakes arrivals) c ≡ flush_buffer_once os srv arrivals b c
  unfolding happen
  happen-wakes arrivals b c e = ground arith

  wakes-Kept :
      (arrivals : List BufferedTask) (b : SubmitBuffer) (c : Client os srv)
      → c.local_buffer ≡ some b
      → len b ≤ b.cap
      → Kept os srv (wakes arrivals ∷ []) b c
  unfolding run_retry_loop arrivals_in offered_in
  wakes-Kept arrivals b c e h =
      let same = ap (λ d. d.local_buffer) (happen-wakes arrivals b c e) in
      elim (Bool-cases c.connected) [
        | inr off ↦
            stays os srv (wakes arrivals ∷ []) b c
              (same ∙ ap (λ d. d.local_buffer) (flush_unconnected arrivals b c off) ∙ e) h
        | inl on ↦
            let f = flush_buffer_once-Flushed os srv arrivals b c on h in
            let lost = opts_of f.dropped in
            record {
              departed = left f.settled lost;
              accepted = f.accepted;
              after = f.after;
              queue = same ∙ f.queue;
              in_order =
                  f.in_order
                  ∙ ap (λ os. os ++ opts_of f.after.queue) (sym (map-left f.settled lost));
              came = subst (Sublist f.accepted) (sym (append-nil arrivals)) f.came;
              answered =
                  Mem-All (IsAnswered os srv (wakes arrivals ∷ []) c) f.settled lost
                    (λ o m. record {
                      before = [];
                      arrivals = arrivals;
                      later = [];
                      split = refl;
                      calls = f.settled;
                      last = f.at_end;
                      chain = f.settles;
                      called = m;
                    })
                    (λ o. tt);
              same_cap = f.same_cap;
              within = omega (arith, f.within, f.same_cap);
              few = omega (
                arith,
                dropped_in-left f.settled lost,
                length-opts_of f.dropped,
                f.only_arrivals,
                f.count,
              );
            }
      ]

  local_buffer-enqueue_task :
      (opts : SubmitOptions) (now : ℕ) (b : SubmitBuffer) (c : Client os srv)
      → c.local_buffer ≡ some b
      → ((enqueue_task os srv opts now c).0.local_buffer ≡ some b)
        ⊎ ((enqueue_task os srv opts now c).0.local_buffer
            ≡ some (push (make_buffered os srv opts now) b).0)
  unfolding enqueue_task enqueue_buffered_task
  local_buffer-enqueue_task opts now b c e = ground (arith, e, local_buffer-submit os srv opts c)

  enqueues-Kept :
      (opts : SubmitOptions) (now : ℕ) (b : SubmitBuffer) (c : Client os srv)
      → c.local_buffer ≡ some b
      → len b ≤ b.cap
      → Kept os srv (enqueues opts now ∷ []) b c
  unfolding push len happen run_retry_loop offered_in
  enqueues-Kept opts now b c e h =
      let t = make_buffered os srv opts now in
      elim (local_buffer-enqueue_task opts now b c e) [
        | inl same ↦ stays os srv _ b c same h
        | inr pushed ↦ elim (Bool-cases (leb b.cap (length b.queue))) [
          | inl full ↦ stays os srv _ b c (rw (full, push) at pushed) h
          | inr room ↦ record {
            departed = [];
            accepted = t ∷ [];
            after = record b { queue = b.queue ++ t ∷ []; notify = true };
            queue = rw (room, push) at pushed;
            in_order = refl;
            came = Sublist.refl _;
            answered = tt;
            same_cap = refl;
            within = ground (arith, length-append b.queue (t ∷ []));
            few = unfold dropped_in in omega arith;
          }
        ]
      ]

  happen-Kept :
      (x : Happening) (b : SubmitBuffer) (c : Client os srv)
      → c.local_buffer ≡ some b
      → len b ≤ b.cap
      → Kept os srv (x ∷ []) b c
  happen-Kept (enqueues opts now) b c e h = enqueues-Kept opts now b c e h
  happen-Kept (wakes arrivals) b c e h = wakes-Kept arrivals b c e h

  -- Tasks in the memory queue, which is within its capacity, and tasks that are queued while the retry
  -- loop runs, over any calls of EnqueueTask and rounds: in the order in which they were queued, first
  -- come those that left the queue, and then those that are in it. Each one that left got a final
  -- answer of the server in a round, or was dropped, and no more were dropped than came during the
  -- rounds. What was queued are tasks that callers handed over, in their order. The queue stays os srv within
  -- its capacity, which is kept.
  pub run_retry_loop-Kept :
      (xs : List Happening) (b : SubmitBuffer) (c : Client os srv)
      → c.local_buffer ≡ some b
      → len b ≤ b.cap
      → Kept os srv xs b c
  unfolding run_retry_loop
  run_retry_loop-Kept [] b c e h = stays os srv [] b c e h
  run_retry_loop-Kept (x ∷ xs) b c e h =
      let k = happen-Kept x b c e h in
      cons-Kept os srv k (run_retry_loop-Kept xs k.after (happen os srv x c) k.queue k.within)
