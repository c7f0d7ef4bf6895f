-- ===== src/Tests/PoolRuns.antt =====
-- A run of a pool of pkg/worker_pool with one worker.
use compkg.Common.{ℕ, Bool, true, ◌⊎◌, All, refl, [], ◌∷◌, arith}
use compkg.WorkerPool.{
  parked, idle, holding, WorkerPool, new_worker_pool, Move, takes, registers, Reached, new, submits,
  moves,
}
use compkg.WorkerPool.Conserved.{IsConserved, Reached-IsConserved}
use compkg.WorkerPool.Progress.{IsStuck, Reached-Move}

-- Job 5 is submitted, the worker registers, and the dispatcher takes the job.
abbrev taken : WorkerPool
taken = record {
  worker_len = 1;
  waiting = [];
  dispatcher = holding 5;
  worker_queue = 0 ∷ [];
  workers = parked ∷ [];
  submitted = 5 ∷ [];
  finished = [];
}

abbrev registered : WorkerPool
registered = record taken { waiting = 5 ∷ []; dispatcher = idle }

-- Every job returns.
abbrev always : WorkerPool → ℕ → Bool
always p j = true

taken-Reached : Reached always 1 taken
unfolding new_worker_pool
taken-Reached =
    moves {q = taken}
      (moves {q = registered} (submits 5 new) (registers [] [] refl (omega arith) refl))
      (takes [] [] 5 refl refl refl)

Reached-IsConserved_example : IsConserved 5 taken
Reached-IsConserved_example = Reached-IsConserved 5 1 taken taken-Reached

Reached-Move_example :
    ((q : WorkerPool) × Move always taken q) ⊎ All (IsStuck (always taken)) taken.workers
Reached-Move_example = Reached-Move 5 0 taken taken-Reached (omega arith)
