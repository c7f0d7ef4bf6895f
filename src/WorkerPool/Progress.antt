-- ===== src/WorkerPool/Progress.antt =====
-- When a goroutine of a pool of pkg/worker_pool can go on, and when none can.
use compkg.Common.{
  ℕ, zero, suc, ◌+◌, ◌≤◌, ◌<◌, ◌≡◌, refl, sym, ap, ◌∙◌, ◌⊎◌, inl, inr, Bool, true, false,
  Bool-cases, List, [], ◌∷◌, ◌++◌, length, length-append, All, arith,
}
use compkg.WorkerPool.{
  Worker, registering, parked, doing, Dispatcher, idle, holding, handing, WorkerPool, new_workers,
  new_worker_pool, Move, takes, gets_worker, hands, registers, finishes, Reached, new, submits,
  moves,
}
use compkg.WorkerPool.Conserved.{one, count, count-append, held, in_workers, Reached-IsConserved}

abbrev pub parked_count : List Worker → ℕ
parked_count [] = 0
parked_count (registering ∷ workers) = parked_count workers
parked_count (parked ∷ workers) = suc (parked_count workers)
parked_count (doing j ∷ workers) = parked_count workers

-- The worker that the dispatcher has got is parked too, and no longer in the queue.
abbrev got : Dispatcher → ℕ
got idle = 0
got (holding j) = 0
got (handing j w) = 1

abbrev got_at : ℕ → Dispatcher → ℕ
got_at w idle = 0
got_at w (holding j) = 0
got_at w (handing j v) = one w v

abbrev is_parked : Worker → ℕ
is_parked registering = 0
is_parked parked = 1
is_parked (doing j) = 0

abbrev parked_at : ℕ → List Worker → ℕ
parked_at w [] = 0
parked_at zero (x ∷ workers) = is_parked x
parked_at (suc w) (x ∷ workers) = parked_at w workers

-- The workers that wait are those in the queue and the one that the dispatcher has got.
record IsReady (n : ℕ) (p : WorkerPool) : Type 0 where
  same_len : p.worker_len ≡ n
  all_workers : length p.workers ≡ n
  parked_ones : parked_count p.workers ≡ length p.worker_queue + got p.dispatcher
  each : (w : ℕ) → count w p.worker_queue + got_at w p.dispatcher ≡ parked_at w p.workers

-- A worker starts to wait, or stops.
parked_at-append :
    (w : ℕ) (before after : List Worker) (x : Worker)
    → is_parked x ≡ 0
    → parked_at w (before ++ (parked ∷ after))
      ≡ parked_at w (before ++ (x ∷ after)) + one w (length before)
parked_at-append zero [] after x h = ground arith
parked_at-append (suc w) [] after x h = ground arith
parked_at-append zero (y ∷ before) after x h = ground arith
parked_at-append (suc w) (y ∷ before) after x h =
    let rest = parked_at-append w before after x h in ground arith

parked_count-append : (a b : List Worker) → parked_count (a ++ b) ≡ parked_count a + parked_count b
parked_count-append [] b = omega arith
parked_count-append (registering ∷ a) b = parked_count-append a b
parked_count-append (parked ∷ a) b = omega (arith, parked_count-append a b)
parked_count-append (doing j ∷ a) b = parked_count-append a b

parked_count-le : (workers : List Worker) → parked_count workers ≤ length workers
parked_count-le [] = omega arith
parked_count-le (registering ∷ workers) = omega (arith, parked_count-le workers)
parked_count-le (parked ∷ workers) = omega (arith, parked_count-le workers)
parked_count-le (doing j ∷ workers) = omega (arith, parked_count-le workers)

length-new_workers : (n : ℕ) → (length (new_workers n) ≡ n) × (parked_count (new_workers n) ≡ 0)
length-new_workers zero = (refl, refl)
length-new_workers (suc n) = let (a, b) = length-new_workers n in (ap suc a, b)

parked_at-new_workers : (w n : ℕ) → parked_at w (new_workers n) ≡ 0
parked_at-new_workers w zero = refl
parked_at-new_workers zero (suc n) = refl
parked_at-new_workers (suc w) (suc n) = parked_at-new_workers w n

Move-IsReady :
    {returns : WorkerPool → ℕ → Bool} (n : ℕ) (p q : WorkerPool)
    → Move returns p q
    → IsReady n p
    → IsReady n q
Move-IsReady n p q (takes before after j d w e) h =
    let gh = ap got d in
    rw e record {
      same_len = h.same_len;
      all_workers = h.all_workers;
      parked_ones = omega arith;
      each = λ v. let g = ap (got_at v) d in let old = h.each v in omega arith;
    }
Move-IsReady n p q (gets_worker j w queue d g e) h =
    let gh = ap got d in
    let len = ap length g in
    rw e record {
      same_len = h.same_len;
      all_workers = h.all_workers;
      parked_ones = omega arith;
      each = λ v.
          let a = ap (got_at v) d in let b = ap (count v) g in let old = h.each v in omega arith;
    }
Move-IsReady n p q (hands before after j d w e) h =
    let gh = ap got d in
    let a = parked_count-append before (parked ∷ after) in
    let b = parked_count-append before (doing j ∷ after) in
    let l = length-append before (parked ∷ after) in
    let m = length-append before (doing j ∷ after) in
    let wp = ap parked_count w in
    let wl = ap length w in
    rw e record {
      same_len = h.same_len;
      all_workers = omega arith;
      parked_ones = omega arith;
      each = λ v.
          let c = ap (got_at v) d in
          let g = ap (parked_at v) w in
          let moved = parked_at-append v before after (doing j) refl in
          let old = h.each v in omega arith;
    }
Move-IsReady n p q (registers before after w room e) h =
    let a = parked_count-append before (registering ∷ after) in
    let b = parked_count-append before (parked ∷ after) in
    let l = length-append before (registering ∷ after) in
    let m = length-append before (parked ∷ after) in
    let wp = ap parked_count w in
    let wl = ap length w in
    let ql = length-append p.worker_queue (length before ∷ []) in
    rw e record {
      same_len = h.same_len;
      all_workers = omega arith;
      parked_ones = omega arith;
      each = λ v.
          let c = count-append v p.worker_queue (length before ∷ []) in
          let g = ap (parked_at v) w in
          let moved = parked_at-append v before after registering refl in
          let old = h.each v in omega arith;
    }
Move-IsReady n p q (finishes before after j w back e) h =
    let a = parked_count-append before (doing j ∷ after) in
    let b = parked_count-append before (registering ∷ after) in
    let l = length-append before (doing j ∷ after) in
    let m = length-append before (registering ∷ after) in
    let wp = ap parked_count w in
    let wl = ap length w in
    rw e record {
      same_len = h.same_len;
      all_workers = omega arith;
      parked_ones = omega arith;
      each = λ v.
          let g = ap (parked_at v) w in
          let one_way = parked_at-append v before after (doing j) refl in
          let other_way = parked_at-append v before after registering refl in
          let old = h.each v in omega arith;
    }

Reached-IsReady :
    {returns : WorkerPool → ℕ → Bool} (n : ℕ) (p : WorkerPool) → Reached returns n p → IsReady n p
unfolding new_worker_pool
Reached-IsReady n p new =
    let (len, none_yet) = length-new_workers n in
    record {
      same_len = refl;
      all_workers = len;
      parked_ones = omega arith;
      each = λ v. let none_parked = parked_at-new_workers v n in omega arith;
    }
Reached-IsReady n p (submits {p = q} j run) =
    let h = Reached-IsReady n q run in
    record {
      same_len = h.same_len;
      all_workers = h.all_workers;
      parked_ones = h.parked_ones;
      each = h.each;
    }
Reached-IsReady n p (moves {p = q} run move) = Move-IsReady n q p move (Reached-IsReady n q run)

-- A worker with a job that cannot return in the state.
abbrev pub IsStuck : (ℕ → Bool) → Worker → Type 0
IsStuck can registering = ⊥
IsStuck can parked = ⊥
IsStuck can (doing j) = can j ≡ false

abbrev IsSettled : (ℕ → Bool) → Worker → Type 0
IsSettled can registering = ⊥
IsSettled can parked = Unit
IsSettled can (doing j) = can j ≡ false

-- A worker that is about to register, one whose job can return, or none of these.
data WorkerCases (can : ℕ → Bool) (workers : List Worker) : Type 0 where
  one_registering :
      (before after : List Worker)
      → workers ≡ before ++ (registering ∷ after)
      → WorkerCases can workers
  one_returning :
      (before after : List Worker) (j : ℕ)
      → workers ≡ before ++ (doing j ∷ after)
      → can j ≡ true
      → WorkerCases can workers
  all_settled : All (IsSettled can) workers → WorkerCases can workers

after_first :
    {can : ℕ → Bool} (x : Worker) (workers : List Worker)
    → IsSettled can x
    → WorkerCases can workers
    → WorkerCases can (x ∷ workers)
after_first x workers settled (one_registering before after e) =
    one_registering (x ∷ before) after (ap (λ w. x ∷ w) e)
after_first x workers settled (one_returning before after j e back) =
    one_returning (x ∷ before) after j (ap (λ w. x ∷ w) e) back
after_first x workers settled (all_settled all) = all_settled (settled, all)

worker_cases : (can : ℕ → Bool) (workers : List Worker) → WorkerCases can workers
worker_cases can [] = all_settled tt
worker_cases can (registering ∷ workers) = one_registering [] workers refl
worker_cases can (doing j ∷ workers) = elim (Bool-cases (can j)) [
  | inl back ↦ one_returning [] workers j refl back
  | inr blocked ↦ after_first (doing j) workers blocked (worker_cases can workers)
]
worker_cases can (parked ∷ workers) = after_first parked workers tt (worker_cases can workers)

settled-IsStuck :
    (can : ℕ → Bool) (workers : List Worker)
    → All (IsSettled can) workers
    → parked_count workers ≡ 0
    → All (IsStuck can) workers
settled-IsStuck can [] all h = tt
settled-IsStuck can (registering ∷ workers) (impossible, all) h = absurd impossible
settled-IsStuck can (parked ∷ workers) all h = absurd (omega arith)
settled-IsStuck can (doing j ∷ workers) (blocked, all) h =
    (blocked, settled-IsStuck can workers all h)

worker_at :
    (workers : List Worker) (w : ℕ)
    → 0 < parked_at w workers
    → (before : List Worker) × (after : List Worker) × (length before ≡ w)
      × (workers ≡ before ++ (parked ∷ after))
worker_at [] w h = absurd (omega arith)
worker_at (registering ∷ workers) zero h = absurd (omega arith)
worker_at (doing j ∷ workers) zero h = absurd (omega arith)
worker_at (parked ∷ workers) zero h = ([], workers, refl, refl)
worker_at (x ∷ workers) (suc w) h =
    let (before, after, len, e) = worker_at workers w h in
    (x ∷ before, after, ap suc len, ap (λ v. x ∷ v) e)

Dispatcher-cases :
    (d : Dispatcher)
    → (d ≡ idle) ⊎ (((j : ℕ) × (d ≡ holding j)) ⊎ ((j : ℕ) × (w : ℕ) × (d ≡ handing j w)))
Dispatcher-cases idle = inl refl
Dispatcher-cases (holding j) = inr (inl (j, refl))
Dispatcher-cases (handing j w) = inr (inr (j, w, refl))

List-cases : (l : List ℕ) → (l ≡ []) ⊎ ((j : ℕ) × (rest : List ℕ) × (l ≡ j ∷ rest))
List-cases [] = inl refl
List-cases (j ∷ rest) = inr (j, rest, refl)

one_self : (w : ℕ) → one w w ≡ 1
one_self w = ground arith

-- In every state of a pool with workers that a run reaches, with a job that was submitted and is neither
-- done nor being done: some goroutine of the pool can go on, or every worker does a job that cannot
-- return. So if jobs always can return, the pool never stands still with a job that waits.
pub Reached-Move :
    {returns : WorkerPool → ℕ → Bool} (x n : ℕ) (p : WorkerPool)
    → Reached returns (suc n) p
    → count x p.finished + in_workers x p.workers < count x p.submitted
    → ((q : WorkerPool) × Move returns p q) ⊎ All (IsStuck (returns p)) p.workers
Reached-Move {returns} x n p run owed =
    let h = Reached-IsReady (suc n) p run in
    let sum = Reached-IsConserved x (suc n) p run in
    let len = h.all_workers in
    let same = h.same_len in
    let ones = h.parked_ones in
    elim (worker_cases (returns p) p.workers) [
      | one_returning before after j e back ↦ inl (_, finishes before after j e back refl)
      | one_registering before after e ↦
          let a = parked_count-append before (registering ∷ after) in
          let l = length-append before (registering ∷ after) in
          let b = parked_count-le before in
          let c = parked_count-le after in
          let wp = ap parked_count e in
          let wl = ap length e in inl (_, registers before after e (omega arith) refl)
      | all_settled all ↦ elim (Dispatcher-cases p.dispatcher) [
        | inl d ↦
            let none_held = ap (held x) d in
            elim (List-cases p.waiting) [
              | inl w ↦ let none_waiting = ap (count x) w in absurd (omega arith)
              | inr (j, rest, w) ↦ inl (_, takes [] rest j d w refl)
            ]
        | inr (inl (j, d)) ↦
            let none_got = ap got d in
            elim (List-cases p.worker_queue) [
              | inl w ↦
                  let no_queue = ap length w in
                  inr (settled-IsStuck (returns p) p.workers all (omega arith))
              | inr (w, queue, e) ↦ inl (_, gets_worker j w queue d e refl)
            ]
        | inr (inr (j, w, d)) ↦
            let there = h.each w in
            let got_it = ap (got_at w) d in
            let self = one_self w in
            let (before, after, at_w, e) = worker_at p.workers w (omega arith) in
            inl (_, hands before after j (d ∙ ap (handing j) (sym at_w)) e refl)
      ]
    ]
