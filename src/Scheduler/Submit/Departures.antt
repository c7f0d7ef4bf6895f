-- ===== src/Scheduler/Submit/Departures.antt =====
-- Tasks that leave the memory queue of pkg/scheduler/submit_buffer.go.
use compkg.Common.{ℕ, ◌+◌, ◌≡◌, refl, ap, List, [], ◌∷◌, ◌++◌, map, All, length, arith}
use mathlib.Core.List.{Mem, mem-cons_self, mem-cons_of_mem}
use compkg.Scheduler.Buffer.{SubmitOptions}

-- How a task leaves the queue: with a final answer of the server, or dropped for want of room.
pub data Departure : Type 0 where
  settled dropped : SubmitOptions → Departure

abbrev pub task_of : Departure → SubmitOptions
task_of (settled o) = o
task_of (dropped o) = o

unfoldable pub dropped_in : List Departure → ℕ
dropped_in [] = 0
dropped_in (settled o ∷ ds) = dropped_in ds
dropped_in (dropped o ∷ ds) = 1 + dropped_in ds

pub dropped_in-append :
    (ds es : List Departure) → dropped_in (ds ++ es) ≡ dropped_in ds + dropped_in es
unfolding dropped_in
dropped_in-append [] es = omega arith
dropped_in-append (settled o ∷ ds) es = dropped_in-append ds es
dropped_in-append (dropped o ∷ ds) es = omega (arith, dropped_in-append ds es)

pub map-append :
    (ds es : List Departure) → map task_of (ds ++ es) ≡ map task_of ds ++ map task_of es
map-append [] es = refl
map-append (d ∷ ds) es = ap (λ os. task_of d ∷ os) (map-append ds es)

pub All-map :
    (P Q : Departure → Type 0) (ds : List Departure)
    → ((d : Departure) → P d → Q d)
    → All P ds
    → All Q ds
All-map P Q [] f p = tt
All-map P Q (d ∷ ds) f p = (f d p.0, All-map P Q ds f p.1)

pub All-append :
    (P : Departure → Type 0) (ds es : List Departure) → All P ds → All P es → All P (ds ++ es)
All-append P [] es p q = q
All-append P (d ∷ ds) es p q = (p.0, All-append P ds es p.1 q)

-- The tasks that a round settles, and then those that it drops.
unfoldable pub left : List SubmitOptions → List SubmitOptions → List Departure
left [] ds = map dropped ds
left (o ∷ os) ds = settled o ∷ left os ds

pub map-left : (os ds : List SubmitOptions) → map task_of (left os ds) ≡ os ++ ds
unfolding left
map-left [] [] = refl
map-left [] (d ∷ ds) = ap (λ r. d ∷ r) (map-left [] ds)
map-left (o ∷ os) ds = ap (λ r. o ∷ r) (map-left os ds)

pub dropped_in-left : (os ds : List SubmitOptions) → dropped_in (left os ds) ≡ length ds
unfolding left dropped_in
dropped_in-left [] [] = refl
dropped_in-left [] (d ∷ ds) = omega (arith, dropped_in-left [] ds)
dropped_in-left (o ∷ os) ds = dropped_in-left os ds

pub Mem-All :
    (P : Departure → Type 0) (os ds : List SubmitOptions)
    → ((o : SubmitOptions) → Mem o os → P (settled o))
    → ((o : SubmitOptions) → P (dropped o))
    → All P (left os ds)
unfolding left
Mem-All P [] [] f g = tt
Mem-All P [] (d ∷ ds) f g = (g d, Mem-All P [] ds f g)
Mem-All P (o ∷ os) ds f g =
    (f o mem-cons_self, Mem-All P os ds (λ p m. f p (mem-cons_of_mem o m)) g)
