-- ===== src/Scheduler/Submit/Flush.antt =====
-- What one round of the retry loop of pkg/scheduler/submit_buffer.go does with the queued tasks.
use compkg.Common.{
  ℕ, ◌+◌, ◌≤◌, ◌≡◌, refl, sym, ap, ◌∙◌, ◌⊎◌, inl, inr, true, false, some, List, [], ◌∷◌, ◌++◌,
  append_assoc, length, length-append, take, length-take, arith,
}
use mathlib.Core.Path.{subst}
use mathlib.Core.List.{Sublist}
use compkg.Scheduler.Buffer
use compkg.Scheduler.Buffer.{
  SubmitOptions, BufferedTask, SubmitBuffer, push, drain, batch_size, len,
}
use compkg.Scheduler.Buffer.Laws.{put_back_drops, cap-put_back, drain_splits, batch_size-le}
use compkg.Scheduler.Disk.{Os}
use compkg.Scheduler.Submit.{
  Server, Client, submit_task, send_batch, flush_spool_once, push_all, finish_flush, flush_batch,
  flush_buffer_once,
}
use compkg.Scheduler.Submit.Sent.{
  opts_of, is_final, opts_of-append, length-opts_of, regroup, Settles, Sent, send_batch-Sent,
}
use compkg.Scheduler.Submit.Untouched.{local_buffer-flush_spool}
use compkg.Scheduler.Submit.Arrived.{push_all-Arrived}

module _ (os : Os) (srv : Server) where
  -- One round on the memory queue `b`, with what arrived during it.
  pub record Flushed (size : ℕ) (arrivals : List BufferedTask) (b : SubmitBuffer)
      (c c' : Client os srv) : Type 0 where
    pub settled : List SubmitOptions
    pub at_end : Client os srv
    pub accepted : List BufferedTask
    pub dropped : List BufferedTask
    pub after : SubmitBuffer
    pub settles : Settles os srv c settled at_end
    pub stops :
        (length settled ≡ size)
        ⊎ ((o : SubmitOptions) × (rest : List SubmitOptions) × (opts_of b.queue
              ≡ settled ++ o ∷ rest)
            × (is_final (submit_task os srv o at_end).1 ≡ false))
    pub queue : c'.local_buffer ≡ some after
    pub in_order : opts_of (b.queue ++ accepted) ≡ settled ++ opts_of dropped ++ opts_of after.queue
    pub within : len after ≤ b.cap
    pub same_cap : after.cap ≡ b.cap
    pub only_arrivals : length dropped ≤ length accepted
    pub count : length accepted ≤ length arrivals
    pub came : Sublist accepted arrivals

  finish_flush-Flushed :
      (arrivals batch : List BufferedTask) (b rest : SubmitBuffer) (c : Client os srv)
      (r : Client os srv × List BufferedTask)
      → length b.queue ≤ b.cap
      → batch ++ rest.queue ≡ b.queue
      → rest.cap ≡ b.cap
      → Sent os srv batch c r
      → Flushed (length batch) arrivals b c (finish_flush os srv (push_all os srv arrivals rest) r)
  unfolding finish_flush len
  finish_flush-Flushed arrivals batch b rest c (c1, []) h split same s =
      let lengths : length batch + length rest.queue ≡ length b.queue =
        omega (arith, length-append batch rest.queue, ap length split) in
      let a = push_all-Arrived os srv arrivals rest (omega arith) in
      let pushed = push_all os srv arrivals rest in
      record {
        settled = s.settled;
        at_end = s.at_end;
        accepted = a.accepted;
        dropped = [];
        after = pushed;
        settles = s.settles;
        stops =
            inl (
              omega
                (arith, length-opts_of batch, ap length s.in_order, length-append s.settled []));
        queue =
            unfold flush_spool_once in
            local_buffer-flush_spool os srv c1.local_spool
              (record c1 { local_buffer = some pushed });
        in_order =
            regroup s.settled batch rest.queue a.accepted [] b.queue [] pushed.queue s.in_order
              split a.queue;
        within = omega (arith, a.within, a.same_cap);
        same_cap = a.same_cap ∙ same;
        only_arrivals = omega arith;
        count = a.count;
        came = a.came;
      }
  finish_flush-Flushed arrivals batch b rest c (c1, t ∷ ts) h split same s =
      let lengths : length batch + length rest.queue ≡ length b.queue =
        omega (arith, length-append batch rest.queue, ap length split) in
      let a = push_all-Arrived os srv arrivals rest (omega arith) in
      let pushed = push_all os srv arrivals rest in
      let (dropped, whole, count, bound) = put_back_drops (t ∷ ts) pushed a.within in
      let grown : length pushed.queue ≡ length rest.queue + length a.accepted =
        omega (arith, ap length a.queue, length-append rest.queue a.accepted) in
      record {
        settled = s.settled;
        at_end = s.at_end;
        accepted = a.accepted;
        dropped = dropped;
        after = Buffer.put_back (t ∷ ts) pushed;
        settles = s.settles;
        stops = inr (
          t.opts,
          opts_of ts ++ opts_of rest.queue,
          ap opts_of (sym split)
              ∙ opts_of-append batch rest.queue
              ∙ ap (λ o. o ++ opts_of rest.queue) s.in_order
              ∙ append_assoc s.settled (opts_of (t ∷ ts)) (opts_of rest.queue),
          s.stops.1,
        );
        queue = refl;
        in_order =
            regroup s.settled batch rest.queue a.accepted (t ∷ ts) b.queue dropped
              (Buffer.put_back (t ∷ ts) pushed).queue s.in_order split
              (whole ∙ ap (λ q. (t ∷ ts) ++ q) a.queue);
        within = omega (arith, bound, a.same_cap);
        same_cap = cap-put_back (t ∷ ts) pushed ∙ a.same_cap ∙ same;
        only_arrivals = omega (arith, count, s.fewer, a.same_cap, grown, lengths);
        count = a.count;
        came = a.came;
      }

  flush_batch-Flushed :
      (arrivals batch : List BufferedTask) (b rest : SubmitBuffer) (c : Client os srv)
      → length b.queue ≤ b.cap
      → batch ++ rest.queue ≡ b.queue
      → rest.cap ≡ b.cap
      → Flushed (length batch) arrivals b c (flush_batch os srv batch rest arrivals c)
  unfolding flush_batch
  flush_batch-Flushed arrivals [] b rest c h split same =
      finish_flush-Flushed arrivals [] b rest c (c, []) h split same
        (unfold send_batch in send_batch-Sent os srv [] c)
  flush_batch-Flushed arrivals (t ∷ ts) b rest c h split same =
      finish_flush-Flushed arrivals (t ∷ ts) b rest c (send_batch os srv (t ∷ ts) c) h split same
        (send_batch-Sent os srv (t ∷ ts) c)

  flush_connected :
      (arrivals : List BufferedTask) (b : SubmitBuffer) (c : Client os srv)
      → c.connected ≡ true
      → flush_buffer_once os srv arrivals b c
        ≡ flush_batch os srv (drain c.retry_batch b).1 (drain c.retry_batch b).0 arrivals c
  unfolding flush_buffer_once
  flush_connected arrivals b c on = ground arith

  -- One round of the retry loop with a connection, on a queue within its capacity: what was queued,
  -- followed by what arrived during the round, is the tasks that got a final answer from the server
  -- one after the other, then the tasks that were dropped, then the tasks in the queue after the
  -- round, in order. The queue stays within its capacity, and no more tasks are dropped than arrived.
  -- The whole batch gets final answers, or the next task after the settled ones got an answer that
  -- is not final.
  pub flush_buffer_once-Flushed :
      (arrivals : List BufferedTask) (b : SubmitBuffer) (c : Client os srv)
      → c.connected ≡ true
      → len b ≤ b.cap
      → Flushed
          (batch_size c.retry_batch (len b))
          arrivals
          b
          c
          (flush_buffer_once os srv arrivals b c)
  unfolding len drain
  flush_buffer_once-Flushed arrivals b c on h =
      let (split, same) = drain_splits c.retry_batch b in
      let n = batch_size c.retry_batch (length b.queue) in
      let size : length (take n b.queue) ≡ n =
        rw length-take (ground (arith, batch_size-le c.retry_batch (length b.queue))) in
      rw (flush_connected arrivals b c on) (
        subst
          (λ k.
            Flushed k arrivals b c
              (flush_batch os srv (drain c.retry_batch b).1 (drain c.retry_batch b).0 arrivals c))
          size
          (flush_batch-Flushed arrivals (drain c.retry_batch b).1 b (drain c.retry_batch b).0 c h
            split same))
