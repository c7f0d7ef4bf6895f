-- ===== src/WorkerPool/Conserved.antt =====
-- No job of pkg/worker_pool is lost or done twice.
use compkg.Common.{
  ℕ, zero, suc, ◌+◌, ◌≡◌, refl, ap, Bool, List, [], ◌∷◌, ◌++◌, ◌==◌, if◌then◌else◌, arith,
}
use compkg.WorkerPool.{
  Worker, registering, parked, doing, Dispatcher, idle, holding, handing, WorkerPool, new_workers,
  new_worker_pool, Move, takes, gets_worker, hands, registers, finishes, Reached, new, submits,
  moves,
}

abbrev pub one : ℕ → ℕ → ℕ
one x j = if j == x then 1 else 0

abbrev pub count : ℕ → List ℕ → ℕ
count x [] = 0
count x (j ∷ jobs) = one x j + count x jobs

abbrev pub held : ℕ → Dispatcher → ℕ
held x idle = 0
held x (holding j) = one x j
held x (handing j w) = one x j

abbrev pub in_workers : ℕ → List Worker → ℕ
in_workers x [] = 0
in_workers x (registering ∷ workers) = in_workers x workers
in_workers x (parked ∷ workers) = in_workers x workers
in_workers x (doing j ∷ workers) = one x j + in_workers x workers

pub count-append : (x : ℕ) (a b : List ℕ) → count x (a ++ b) ≡ count x a + count x b
count-append x [] b = omega arith
count-append x (j ∷ a) b = omega (arith, count-append x a b)

in_workers-append :
    (x : ℕ) (a b : List Worker) → in_workers x (a ++ b) ≡ in_workers x a + in_workers x b
in_workers-append x [] b = omega arith
in_workers-append x (registering ∷ a) b = in_workers-append x a b
in_workers-append x (parked ∷ a) b = in_workers-append x a b
in_workers-append x (doing j ∷ a) b = omega (arith, in_workers-append x a b)

in_workers-new_workers : (x n : ℕ) → in_workers x (new_workers n) ≡ 0
in_workers-new_workers x zero = refl
in_workers-new_workers x (suc n) = in_workers-new_workers x n

abbrev pub IsConserved : ℕ → WorkerPool → Type 0
IsConserved x p =
    count x p.submitted
    ≡ count x p.waiting + (held x p.dispatcher + (in_workers x p.workers + count x p.finished))

Move-IsConserved :
    {returns : WorkerPool → ℕ → Bool} (x : ℕ) (p q : WorkerPool)
    → Move returns p q
    → IsConserved x p
    → IsConserved x q
Move-IsConserved x p q (takes before after j d w e) h =
    let a = count-append x before (j ∷ after) in
    let b = count-append x before after in
    let dh = ap (held x) d in let wh = ap (count x) w in rw e (omega arith)
Move-IsConserved x p q (gets_worker j w queue d g e) h =
    let dh = ap (held x) d in rw e (omega arith)
Move-IsConserved x p q (hands before after j d w e) h =
    let a = in_workers-append x before (parked ∷ after) in
    let b = in_workers-append x before (doing j ∷ after) in
    let dh = ap (held x) d in let wh = ap (in_workers x) w in rw e (omega arith)
Move-IsConserved x p q (registers before after w room e) h =
    let a = in_workers-append x before (registering ∷ after) in
    let b = in_workers-append x before (parked ∷ after) in
    let wh = ap (in_workers x) w in rw e (omega arith)
Move-IsConserved x p q (finishes before after j w back e) h =
    let a = in_workers-append x before (doing j ∷ after) in
    let b = in_workers-append x before (registering ∷ after) in
    let wh = ap (in_workers x) w in rw e (omega arith)

-- In every run, whatever order the goroutines go in: a job was submitted as often as it now waits, is
-- held by the dispatcher, is being done and was done, taken together.
pub Reached-IsConserved :
    {returns : WorkerPool → ℕ → Bool} (x n : ℕ) (p : WorkerPool)
    → Reached returns n p
    → IsConserved x p
unfolding new_worker_pool
Reached-IsConserved x n p new = let none_yet = in_workers-new_workers x n in omega arith
Reached-IsConserved x n p (submits {p = q} j run) =
    let before = Reached-IsConserved x n q run in
    let a = count-append x q.waiting (j ∷ []) in omega arith
Reached-IsConserved x n p (moves {p = q} run move) =
    Move-IsConserved x q p move (Reached-IsConserved x n q run)
