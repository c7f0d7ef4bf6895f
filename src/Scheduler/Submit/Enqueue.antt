-- ===== src/Scheduler/Submit/Enqueue.antt =====
-- What EnqueueTask of pkg/scheduler/submit_buffer.go does to the memory queue.
use compkg.Common.{
  ℕ, ◌≡◌, ◌⊎◌, inr, Bool, true, false, Option, none, some, List, [], ◌∷◌, ◌++◌, if◌then◌else◌,
  arith,
}
use compkg.Scheduler.Buffer.{SubmitOptions, BufferedTask, SubmitBuffer, push}
use compkg.Scheduler.Disk.{Os}
use compkg.Scheduler.Submit.{
  Server, Client, submit_task, enqueue_task, enqueue_buffered_task, make_buffered,
}

abbrev pub is_queued : {E : Type 0} → E ⊎ Bool → Bool
is_queued (inr true) = true
is_queued _ = false

abbrev pub queue_of : Option SubmitBuffer → List BufferedTask
queue_of none = []
queue_of (some b) = b.queue

module _ (os : Os) (srv : Server) where
  -- Of a client with no disk queue, EnqueueTask puts the task at the end of the memory queue exactly
  -- when it answers that the task is queued; whatever else it answers, the queue stays as it was.
  enqueue_task-queue :
      (opts : SubmitOptions) (now : ℕ) (c : Client os srv)
      → c.local_spool ≡ none
      → queue_of (enqueue_task os srv opts now c).0.local_buffer ≡ (
          if is_queued (enqueue_task os srv opts now c).1
          then queue_of c.local_buffer ++ make_buffered os srv opts now ∷ []
          else queue_of c.local_buffer)
  unfolding enqueue_task submit_task enqueue_buffered_task push
  enqueue_task-queue opts now c h = ground arith
