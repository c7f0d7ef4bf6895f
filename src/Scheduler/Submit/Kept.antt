-- ===== src/Scheduler/Submit/Kept.antt =====
-- What a part of a run of the retry loop of pkg/scheduler/submit_buffer.go does with the memory queue.
use compkg.Common.{
  ℕ, ◌+◌, ◌≤◌, ◌≡◌, refl, sym, ap, ◌∙◌, some, List, [], ◌∷◌, ◌++◌, map, append_assoc, append-nil,
  All, length, arith,
}
use mathlib.Core.Path.{subst}
use mathlib.Core.List.Sublist
use mathlib.Core.List.{nil-sublist, Sublist, Mem}
use compkg.Scheduler.Buffer.{SubmitOptions, BufferedTask, SubmitBuffer, len}
use compkg.Scheduler.Disk.{Os}
use compkg.Scheduler.Submit.{
  Server, Client, Happening, enqueues, wakes, make_buffered, happen, run_retry_loop,
}
use compkg.Scheduler.Submit.Sent.{opts_of, opts_of-append, Settles}
use compkg.Scheduler.Submit.Departures.{
  Departure, settled, dropped, task_of, dropped_in, dropped_in-append, map-append, All-map,
  All-append,
}

-- How many tasks come during the rounds.
abbrev pub arrivals_of : Happening → ℕ
arrivals_of (enqueues opts now) = 0
arrivals_of (wakes arrivals) = length arrivals

unfoldable pub arrivals_in : List Happening → ℕ
arrivals_in [] = 0
arrivals_in (x ∷ xs) = arrivals_of x + arrivals_in xs

module _ (os : Os) (srv : Server) where
  -- The tasks that callers hand over.
  unfoldable pub offered_in : List Happening → List BufferedTask
  offered_in [] = []
  offered_in (enqueues opts now ∷ xs) = make_buffered os srv opts now ∷ offered_in xs
  offered_in (wakes arrivals ∷ xs) = arrivals ++ offered_in xs

  -- One of the calls with which a round began, each of which got a final answer.
  pub record Answered (xs : List Happening) (c : Client os srv) (o : SubmitOptions) : Type 0 where
    pub before : List Happening
    pub arrivals : List BufferedTask
    pub later : List Happening
    pub split : xs ≡ before ++ wakes arrivals ∷ later
    pub calls : List SubmitOptions
    pub last : Client os srv
    pub chain : Settles os srv (run_retry_loop os srv before c) calls last
    pub called : Mem o calls

  abbrev pub IsAnswered : List Happening → Client os srv → Departure → Type 0
  IsAnswered xs c (settled o) = Answered xs c o
  IsAnswered xs c (dropped o) = Unit

  pub record Kept (xs : List Happening) (b : SubmitBuffer) (c : Client os srv) : Type 0 where
    pub departed : List Departure
    pub accepted : List BufferedTask
    pub after : SubmitBuffer
    pub queue : (run_retry_loop os srv xs c).local_buffer ≡ some after
    pub in_order : opts_of (b.queue ++ accepted) ≡ map task_of departed ++ opts_of after.queue
    pub came : Sublist accepted (offered_in xs)
    pub answered : All (IsAnswered xs c) departed
    pub same_cap : after.cap ≡ b.cap
    pub within : len after ≤ after.cap
    pub few : dropped_in departed ≤ arrivals_in xs

  pub stays :
      (xs : List Happening) (b : SubmitBuffer) (c : Client os srv)
      → (run_retry_loop os srv xs c).local_buffer ≡ some b
      → len b ≤ b.cap
      → Kept xs b c
  unfolding dropped_in
  stays xs b c e h = record {
    departed = [];
    accepted = [];
    after = b;
    queue = e;
    in_order = ap opts_of (append-nil b.queue);
    came = nil-sublist _;
    answered = tt;
    same_cap = refl;
    within = h;
    few = omega arith;
  }

  IsAnswered-later :
      (x : Happening) (xs : List Happening) (c : Client os srv) (d : Departure)
      → IsAnswered (x ∷ []) c d
      → IsAnswered (x ∷ xs) c d
  IsAnswered-later x xs c (dropped o) a = tt
  IsAnswered-later x xs c (settled o) a = record {
    before = a.before;
    arrivals = a.arrivals;
    later = a.later ++ xs;
    split = ap (λ ys. ys ++ xs) a.split ∙ append_assoc a.before (wakes a.arrivals ∷ a.later) xs;
    calls = a.calls;
    last = a.last;
    chain = a.chain;
    called = a.called;
  }

  IsAnswered-before :
      (x : Happening) (xs : List Happening) (c : Client os srv) (d : Departure)
      → IsAnswered xs (happen os srv x c) d
      → IsAnswered (x ∷ xs) c d
  unfolding run_retry_loop
  IsAnswered-before x xs c (dropped o) a = tt
  IsAnswered-before x xs c (settled o) a = record {
    before = x ∷ a.before;
    arrivals = a.arrivals;
    later = a.later;
    split = ap (λ ys. x ∷ ys) a.split;
    calls = a.calls;
    last = a.last;
    chain = a.chain;
    called = a.called;
  }

  offered_in-cons :
      (x : Happening) (xs : List Happening)
      → offered_in (x ∷ xs) ≡ offered_in (x ∷ []) ++ offered_in xs
  unfolding offered_in
  offered_in-cons (enqueues opts now) xs = refl
  offered_in-cons (wakes arrivals) xs = ap (λ ts. ts ++ offered_in xs) (sym (append-nil arrivals))

  -- The first event, and then the rest of the run.
  pub cons-Kept :
      {x : Happening} {xs : List Happening} {b : SubmitBuffer} {c : Client os srv}
      (k : Kept (x ∷ []) b c)
      → Kept xs k.after (happen os srv x c)
      → Kept (x ∷ xs) b c
  unfolding run_retry_loop arrivals_in
  cons-Kept {x} {xs} {b} {c} k l = record {
    departed = k.departed ++ l.departed;
    accepted = k.accepted ++ l.accepted;
    after = l.after;
    queue = l.queue;
    in_order =
        ap opts_of (sym (append_assoc b.queue k.accepted l.accepted))
        ∙ opts_of-append (b.queue ++ k.accepted) l.accepted
        ∙ ap (λ os. os ++ opts_of l.accepted) k.in_order
        ∙ append_assoc (map task_of k.departed) (opts_of k.after.queue) (opts_of l.accepted)
        ∙ ap (λ os. map task_of k.departed ++ os)
            (sym (opts_of-append k.after.queue l.accepted) ∙ l.in_order)
        ∙ sym
            (append_assoc (map task_of k.departed) (map task_of l.departed) (opts_of l.after.queue))
        ∙ ap (λ os. os ++ opts_of l.after.queue) (sym (map-append k.departed l.departed));
    came =
        subst (Sublist (k.accepted ++ l.accepted)) (sym (offered_in-cons x xs))
          (Sublist.append k.came l.came);
    answered =
        All-append (IsAnswered (x ∷ xs) c) k.departed l.departed
          (All-map (IsAnswered (x ∷ []) c) (IsAnswered (x ∷ xs) c) k.departed
            (IsAnswered-later x xs c) k.answered)
          (All-map (IsAnswered xs (happen os srv x c)) (IsAnswered (x ∷ xs) c) l.departed
            (IsAnswered-before x xs c) l.answered);
    same_cap = l.same_cap ∙ k.same_cap;
    within = l.within;
    few = omega (arith, dropped_in-append k.departed l.departed, k.few, l.few);
  }
