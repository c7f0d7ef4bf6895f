-- ===== src/WorkerPool.antt =====
-- The workers and their dispatcher of pkg/worker_pool/worker_pool.go, as steps of goroutines in any order.
-- A job is its number; an unbuffered channel is a step of both of its ends. Nothing in the repository
-- sends on Quit, and a job that panics ends the process. Jobs are from outside: whether one can return in a
-- state is the argument `returns`, since a job may wait, as one that calls Submit itself does.
pub mod Conserved
pub mod Progress
use compkg.Common.{ℕ, zero, suc, ◌<◌, ◌≡◌, Bool, true, List, [], ◌∷◌, ◌++◌, length}

pub data Worker : Type 0 where
  -- About to send its channel to the queue of workers, waiting for a job, doing a job.
  registering parked : Worker
  doing : ℕ → Worker

pub data Dispatcher : Type 0 where
  idle : Dispatcher
  holding : ℕ → Dispatcher
  -- With the place of the worker that it got.
  handing : ℕ → ℕ → Dispatcher

pub record WorkerPool : Type 0 where
  pub worker_len : ℕ
  -- The jobs of the calls of Submit that are blocked.
  pub waiting : List ℕ
  pub dispatcher : Dispatcher
  pub worker_queue : List ℕ
  pub workers : List Worker
  -- All jobs that were submitted, and all that were done.
  pub submitted : List ℕ
  pub finished : List ℕ

abbrev new_workers : ℕ → List Worker
new_workers zero = []
new_workers (suc n) = registering ∷ new_workers n

-- NewWorkerPool and Run
unfoldable pub new_worker_pool : ℕ → WorkerPool
new_worker_pool n = record {
  worker_len = n;
  waiting = [];
  dispatcher = idle;
  worker_queue = [];
  workers = new_workers n;
  submitted = [];
  finished = [];
}

-- What a goroutine of the pool does next.
pub data Move (returns : WorkerPool → ℕ → Bool) (p q : WorkerPool) : Type 0 where
  -- The dispatcher receives the job of any blocked Submit.
  takes :
      (before after : List ℕ) (j : ℕ)
      → p.dispatcher ≡ idle
      → p.waiting ≡ before ++ (j ∷ after)
      → q ≡ record p { dispatcher = holding j; waiting = before ++ after }
      → Move returns p q
  -- It receives the longest registered worker.
  gets_worker :
      (j w : ℕ) (queue : List ℕ)
      → p.dispatcher ≡ holding j
      → p.worker_queue ≡ w ∷ queue
      → q ≡ record p { dispatcher = handing j w; worker_queue = queue }
      → Move returns p q
  -- That worker receives the job.
  hands :
      (before after : List Worker) (j : ℕ)
      → p.dispatcher ≡ handing j (length before)
      → p.workers ≡ before ++ (parked ∷ after)
      → q ≡ record p { dispatcher = idle; workers = before ++ (doing j ∷ after) }
      → Move returns p q
  registers :
      (before after : List Worker)
      → p.workers ≡ before ++ (registering ∷ after)
      → length p.worker_queue < p.worker_len
      → q ≡ record p {
        workers = before ++ (parked ∷ after);
        worker_queue = p.worker_queue ++ (length before ∷ []);
      }
      → Move returns p q
  finishes :
      (before after : List Worker) (j : ℕ)
      → p.workers ≡ before ++ (doing j ∷ after)
      → returns p j ≡ true
      → q ≡ record p { workers = before ++ (registering ∷ after); finished = j ∷ p.finished }
      → Move returns p q

-- A run from a new pool: moves, and calls of Submit in between.
pub data Reached (returns : WorkerPool → ℕ → Bool) (n : ℕ) : WorkerPool → Type 0 where
  new : Reached returns n (new_worker_pool n)
  submits :
      {p : WorkerPool} (j : ℕ)
      → Reached returns n p
      → Reached returns n
          (record p { waiting = p.waiting ++ (j ∷ []); submitted = j ∷ p.submitted })
  moves : {p q : WorkerPool} → Reached returns n p → Move returns p q → Reached returns n q
