-- ===== src/Scheduler/Executor/Slots.antt =====
-- The concurrency slots of pkg/scheduler/executor.go, over every order of events.
use compkg.Common.{
  ℕ, suc, ◌+◌, ◌≤◌, ◌≡◌, refl, ap, inl, inr, ◌⊎◌, Bool, true, false, Option-cases, String, some,
  List, [], ◌∷◌, map, length, length-append, arith,
}
use mathlib.Core.Path.{subst}
use compkg.Scheduler.Executor.{
  Executor, Running, Dispatch, Behaviour, Next, next, waits, crashes, Event, on_dispatch,
  take_running, finish, on_cancel, cancel_gid, end_session, current_inflight, step, run, dispatched,
  finished, cancel_asked, heartbeat_due, send_heartbeat, sender_ran, session_ended,
}

pub Next-cases {ℓ} :
    {A : Type ℓ} (r : Next A)
    → ((a : A) × (r ≡ next a)) ⊎ (((a : A) × (r ≡ waits a)) ⊎ (r ≡ crashes))
Next-cases (next a) = inl (a, refl)
Next-cases (waits a) = inr (inl (a, refl))
Next-cases crashes = inr (inr refl)

abbrev pub held : Bool → ℕ
held true = 1
held false = 0

-- As many slots are taken as handlers run, with the one that a waiting dispatch holds, and not more
-- than there are.
pub record IsCounted (x : Executor) : Type 0 where
  pub counted : x.sem ≡ length x.running + held x.holding
  pub within : x.sem ≤ x.max_concurrency

abbrev pub Holds {ℓ κ} : {A : Type ℓ} → (A → Type κ) → Next A → Type κ
Holds P (next a) = P a
Holds P (waits a) = P a
Holds P crashes = Unit

length-take_running :
    (gid : ℕ) (rs : List Running) {r : Running} {others : List Running}
    → take_running gid rs ≡ some (r, others)
    → length rs ≡ suc (length others)
unfolding take_running
length-take_running gid [] e = cc
length-take_running gid (x ∷ xs) {r} {others} e = elim (Option-cases (take_running gid xs)) [
  | inl missing ↦ ground arith
  | inr ((r', others'), found) ↦ ground (arith, length-take_running gid xs found)
]

length-map : (f : Running → Running) (rs : List Running) → length (map f rs) ≡ length rs
length-map f [] = refl
length-map f (r ∷ rs) = ap suc (length-map f rs)

on_dispatch-IsCounted :
    (pick : Bool) (d : Dispatch) (x : Executor)
    → IsCounted x
    → Holds IsCounted (on_dispatch pick d x)
unfolding on_dispatch
on_dispatch-IsCounted pick d x h =
    let r : Running = record { gid = x.next_gid; run_id = d.run_id; cancelled = false } in
    ground (arith, length-append x.running (r ∷ []))

finish-IsCounted :
    (pick : Bool) (gid : ℕ) (b : Behaviour) (started ended : ℕ) (x : Executor)
    → IsCounted x
    → Holds IsCounted (finish pick gid b started ended x)
unfolding finish
finish-IsCounted pick gid b started ended x h = elim (Option-cases (take_running gid x.running)) [
  | inl missing ↦ rw (missing, finish) h
  | inr ((r, others), found) ↦
      let size = length-take_running gid x.running found in rw (found, finish) (ground arith)
]

on_cancel-IsCounted :
    (run_id : String) (x : Executor) → IsCounted x → IsCounted (on_cancel run_id x)
unfolding on_cancel
on_cancel-IsCounted run_id x h = elim (Option-cases (x.cancels run_id)) [
  | inl unknown ↦ ground arith
  | inr (gid, known) ↦ ground (arith, length-map (cancel_gid gid) x.running)
]

send_heartbeat-IsCounted :
    (pick : Bool) (ts uptime_sec : ℕ) (x : Executor)
    → IsCounted x
    → Holds IsCounted (send_heartbeat pick ts uptime_sec x)
unfolding send_heartbeat
send_heartbeat-IsCounted pick ts uptime_sec x h = ground arith

pub step-IsCounted : (e : Event) (x : Executor) → IsCounted x → Holds IsCounted (step e x)
unfolding step end_session
step-IsCounted (dispatched pick d) x h = on_dispatch-IsCounted pick d x h
step-IsCounted (finished pick gid b started ended) x h =
    finish-IsCounted pick gid b started ended x h
step-IsCounted (cancel_asked run_id) x h = on_cancel-IsCounted run_id x h
step-IsCounted (heartbeat_due pick ts uptime_sec) x h =
    send_heartbeat-IsCounted pick ts uptime_sec x h
step-IsCounted sender_ran x h = record { counted = h.counted; within = h.within }
step-IsCounted session_ended x h = record { counted = h.counted; within = h.within }

-- The state that a run is in, if it goes on.
run-Holds :
    (es : List Event) (x : Executor) {y : Executor} → IsCounted x → run es x ≡ next y → IsCounted y
unfolding run
run-Holds [] x h e = subst (Holds IsCounted) e h
run-Holds (ev ∷ es) x {y} h e = elim (Next-cases (step ev x)) [
  | inl (x', went) ↦
      run-Holds es x' (subst (Holds IsCounted) went (step-IsCounted ev x h)) (rw (went, run) at e)
  | inr (inl (x', waited)) ↦
      run-Holds es x' (subst (Holds IsCounted) waited (step-IsCounted ev x h))
        (rw (waited, run) at e)
  | inr (inr died) ↦ cc (rw (died, run) at e)
]

-- In every run of an executor that starts with no handler running, however dispatches, ends of
-- handlers, cancels, heartbeats, the sender and the end of the session are ordered, the slots that are
-- taken and the load that the heartbeat reports are the number of running handlers, and one more while
-- an accepted dispatch waits for room for its acknowledgement; that is at most MaxConcurrency.
pub run_counts :
    (es : List Event) (x : Executor) {y : Executor}
    → x.sem ≡ 0
    → x.running ≡ []
    → x.holding ≡ false
    → run es x ≡ next y
    → (y.sem ≡ length y.running + held y.holding)
      × (current_inflight y ≡ length y.running + held y.holding)
      × (length y.running + held y.holding ≤ y.max_concurrency)
unfolding current_inflight
run_counts es x {y} empty none_run free e =
    let start : x.sem ≡ length x.running + held x.holding = rw (none_run, free) (omega arith) in
    let h = run-Holds es x (record { counted = start; within = omega arith }) e in
    (h.counted, omega (arith, h.counted, h.within), omega (arith, h.counted, h.within))
