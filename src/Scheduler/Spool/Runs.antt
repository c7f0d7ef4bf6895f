-- ===== src/Scheduler/Spool/Runs.antt =====
-- The disk queue of pkg/scheduler/submit_spool.go refines a queue of tasks: runs of calls, then a drain.
use compkg.Common.{ℕ, ◌+◌, ◌<◌, ◌≤◌, String, ◌≡◌, inr, Option, List, [], ◌∷◌, take, length, arith}
use mathlib.Core.Path.{subst}
use compkg.Common.Int.{ℤ, pos, int64_half}
use compkg.Scheduler.Buffer.{BufferedTask, batch_size}
use compkg.Scheduler.Disk.{Os, SpoolTask, SpoolError}
use compkg.Scheduler.Spool.{Spool, Outcome, Call, push_call, ack_call, step, run, drain}
use compkg.Scheduler.Spool.Queue.{
  FileLaws, Represents, Represents-take, Represents-length, read_files-Represents,
}
use compkg.Scheduler.Spool.Fifo.{Puts, Queues, push-Pushes}
use compkg.Scheduler.Spool.Acks.{Settled, ack-Acked}

-- One call on the queue of tasks, and the error it reports. A push takes the next sequence number, n.
pub data Moves (os : Os) (ts : List SpoolTask)
    : Call → ℕ → ℕ → Option SpoolError → List SpoolTask → Type 0 where
  pushes :
      {t : BufferedTask} {n : ℕ} {error : Option SpoolError} {after : List SpoolTask}
      → Puts os t (pos n) error ts after
      → Moves os ts (push_call t) n (n + 1) error after
  acks :
      {seq : ℤ} {n : ℕ} {error : Option SpoolError} {after : List SpoolTask}
      → Settled seq error ts after
      → Moves os ts (ack_call seq) n n error after

-- The queue that calls with those errors lead to.
pub data Leads (os : Os)
    : List Call → List (Option SpoolError) → ℕ → List SpoolTask → List SpoolTask → Type 0 where
  stays : {n : ℕ} {ts : List SpoolTask} → Leads os [] [] n ts ts
  moves :
      {c : Call} {calls : List Call} {error : Option SpoolError} {errors : List (Option SpoolError)}
      {n m : ℕ} {ts mid after : List SpoolTask}
      → Moves os ts c n m error mid
      → Leads os calls errors m mid after
      → Leads os (c ∷ calls) (error ∷ errors) n ts after

module _ (os : Os) where
  open os use {Disk}

  -- The errors that the calls of a run return.
  unfoldable pub errors_of : List Call → Spool os → Disk → List (Option SpoolError)
  errors_of [] s disk = []
  errors_of (c ∷ calls) s disk =
      let (s', disk', error) = step os c s disk in error ∷ errors_of calls s' disk'

module _ (os : Os) (laws : FileLaws os) (dir : String) where
  open os use {Disk}

  record Moved (c : Call) (n : ℕ) (ts : List SpoolTask) (r : Outcome os) : Type 0 where
    pub mid : List SpoolTask
    pub m : ℕ
    pub small : m ≤ n + 1
    pub queues : Queues os laws dir r.0 r.1 mid m
    pub move : Moves os ts c n m r.2 mid

  step-Moved :
      (c : Call) (n : ℕ) (s : Spool os) (disk : Disk) (ts : List SpoolTask)
      → Queues os laws dir s disk ts n
      → n + 1 < int64_half
      → Moved c n ts (step os c s disk)
  unfolding step
  step-Moved (push_call t) n s disk ts q h =
      let p = push-Pushes os laws dir t n s disk ts q h in
      record {
        mid = p.after;
        m = n + 1;
        small = omega arith;
        queues = p.queues;
        move = pushes p.puts;
      }
  step-Moved (ack_call seq) n s disk ts q h =
      let a = ack-Acked os laws dir seq n s disk ts q in
      record { mid = a.after; m = n; small = omega arith; queues = a.queues; move = acks a.settled }

  record Ran (calls : List Call) (errors : List (Option SpoolError)) (n : ℕ) (ts : List SpoolTask)
      (r : Spool os × Disk) : Type 0 where
    pub after : List SpoolTask
    pub m : ℕ
    pub queues : Queues os laws dir r.0 r.1 after m
    pub leads : Leads os calls errors n ts after

  run-Ran :
      (calls : List Call) (n : ℕ) (s : Spool os) (disk : Disk) (ts : List SpoolTask)
      → Queues os laws dir s disk ts n
      → n + length calls < int64_half
      → Ran calls (errors_of os calls s disk) n ts (run os calls s disk)
  unfolding run errors_of
  run-Ran [] n s disk ts q h = record { after = ts; m = n; queues = q; leads = stays }
  run-Ran (c ∷ calls) n s disk ts q h =
      let k = step-Moved c n s disk ts q (omega arith) in
      let small = k.small in
      let rest =
        run-Ran calls k.m (step os c s disk).0 (step os c s disk).1 k.mid k.queues (omega arith) in
      record {
        after = rest.after;
        m = rest.m;
        queues = rest.queues;
        leads = moves k.move rest.leads;
      }

  drain-Queues :
      (max : ℤ) (n : ℕ) (s : Spool os) (disk : Disk) (ts : List SpoolTask)
      → Queues os laws dir s disk ts n
      → drain os max s disk ≡ inr (take (batch_size max (length ts)) ts)
  unfolding drain
  drain-Queues max n s disk ts q =
      let front = take (batch_size max (length s.files)) s.files in
      read_files-Represents os dir disk front (take (batch_size max (length ts)) ts) (
        subst (λ k. Represents os dir disk front (take (batch_size max k) ts))
          (Represents-length os dir disk s.files ts q.represents)
          (Represents-take os dir (batch_size max (length s.files)) disk s.files ts q.represents))

  -- After any run of pushes and acknowledgements from a disk queue that holds tasks, with fewer than
  -- 2 ^ 63 sequence numbers, there is a queue of tasks to which the calls, with the errors that they
  -- returned, lead when each push drops some of the oldest tasks, and without an error appends its
  -- own, and each acknowledgement without an error takes out the first task of its number, or finds
  -- none, and with an error leaves the queue; a drain reads the front of that queue.
  pub drain-run :
      (calls : List Call) (max : ℤ) (n : ℕ) (s : Spool os) (disk : Disk) (ts : List SpoolTask)
      → Queues os laws dir s disk ts n
      → n + length calls < int64_half
      → (after : List SpoolTask) × (Leads os calls (errors_of os calls s disk) n ts after
          × (drain os max (run os calls s disk).0 (run os calls s disk).1
              ≡ inr (take (batch_size max (length after)) after)))
  drain-run calls max n s disk ts q h =
      let r = run-Ran calls n s disk ts q h in
      (
        r.after,
        (
          r.leads,
          drain-Queues max r.m (run os calls s disk).0 (run os calls s disk).1 r.after r.queues,
        ),
      )
