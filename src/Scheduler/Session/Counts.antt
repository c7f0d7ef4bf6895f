-- ===== src/Scheduler/Session/Counts.antt =====
-- Acknowledgements and dispatches in one turn of a session: pkg/scheduler/executor.go and the messages
-- of pkg/scheduler/stream.go.
use compkg.Common.{
  ℕ, ◌+◌, ◌≡◌, refl, ap, eq_iff, ◌⊎◌, inl, inr, String, Bool, true, false, List, [], ◌∷◌, ◌++◌,
  Bool-cases, sym, ◌∙◌, Option-cases, if◌then◌else◌, str_eq, arith,
}
use compkg.Common.Int.{pos, to_int32}
use compkg.Scheduler.Executor.{
  next, waits, crashes, Next, take_slot, Executor, Behaviour, Session, WorkerMessage, ack, result,
  heartbeat, Heartbeat, job_result, no_reason, inflight_full, handler_not_registered,
  current_inflight, on_dispatch, send_or_drop, finish, send_heartbeat, on_cancel, take_running,
  start_run,
}
use compkg.Scheduler.Executor.Slots.{Holds}
use compkg.Scheduler.Session.{
  SchedulerMessage, dispatch, cancel, register, reload, unknown, handle_message,
}

-- How many acknowledgements of a run id there are, and how many dispatches.
unfoldable pub acks_of : String → List WorkerMessage → ℕ
acks_of r [] = 0
acks_of r (ack id _ _ ∷ ms) = (if str_eq id r then 1 else 0) + acks_of r ms
acks_of r (_ ∷ ms) = acks_of r ms

unfoldable pub dispatches_of : String → List SchedulerMessage → ℕ
dispatches_of r [] = 0
dispatches_of r (dispatch d ∷ ms) = (if str_eq d.run_id r then 1 else 0) + dispatches_of r ms
dispatches_of r (_ ∷ ms) = dispatches_of r ms

pub acks_of-append :
    (r : String) (ms ns : List WorkerMessage) → acks_of r (ms ++ ns) ≡ acks_of r ms + acks_of r ns
unfolding acks_of
acks_of-append r [] ns = omega arith
acks_of-append r (ack id _ _ ∷ ms) ns = ground (arith, acks_of-append r ms ns)
acks_of-append r (result j ∷ ms) ns = acks_of-append r ms ns
acks_of-append r (heartbeat b ∷ ms) ns = acks_of-append r ms ns

abbrev pub answered : String → Session → ℕ
answered r s = acks_of r s.transmitted + acks_of r s.queued

-- A message that is sent is queued, or dropped because the context is cancelled.
abbrev Queued : String → WorkerMessage → Session → Session → Type 0
Queued r m s t =
    (t.done ≡ s.done)
    × ((t.closed ≡ s.closed)
        × ((answered r t ≡ answered r s + acks_of r (m ∷ []))
            ⊎ ((s.done ≡ true) × (answered r t ≡ answered r s))))

-- A step went on to a state, or waits in one.
abbrev pub After {ℓ} : {A : Type ℓ} → (A → Type 0) → (A → Type 0) → Next A → Type 0
After P Q (next a) = P a
After P Q (waits a) = Q a
After P Q crashes = Unit

send_or_drop-Queued :
    (r : String) (pick : Bool) (m : WorkerMessage) (s : Session)
    → After (Queued r m s) (λ t. t ≡ s) (send_or_drop pick m s)
unfolding send_or_drop
send_or_drop-Queued r pick m s = ground (arith, acks_of-append r s.queued (m ∷ []))

-- What else a turn leaves as it was.
abbrev pub Unanswering : String → Executor → Executor → Type 0
Unanswering r x y =
    (y.session.done ≡ x.session.done)
    × ((y.session.closed ≡ x.session.closed) × (answered r y.session ≡ answered r x.session))

pub finish-Unanswering :
    (r : String) (pick : Bool) (gid : ℕ) (b : Behaviour) (started ended : ℕ) (x : Executor)
    → Holds (Unanswering r x) (finish pick gid b started ended x)
unfolding finish send_or_drop acks_of
finish-Unanswering r pick gid b started ended x = elim (Option-cases (take_running gid x.running)) [
  | inl missing ↦ rw (missing, finish) (refl, (refl, refl))
  | inr ((run, others), found) ↦
      let m = result (job_result run.run_id b started ended) in
      rw (found, finish) (ground (arith, acks_of-append r x.session.queued (m ∷ [])))
]

pub send_heartbeat-Unanswering :
    (r : String) (pick : Bool) (ts uptime_sec : ℕ) (x : Executor)
    → Holds (Unanswering r x) (send_heartbeat pick ts uptime_sec x)
unfolding send_heartbeat send_or_drop acks_of
send_heartbeat-Unanswering r pick ts uptime_sec x =
    let inflight = to_int32 (pos (current_inflight x)) in
    let beat : Heartbeat = record { ts = ts; inflight = inflight; uptime_sec = uptime_sec } in
    ground (arith, acks_of-append r x.session.queued (heartbeat beat ∷ []))

unnamed : (r id : String) → str_eq r "" ≡ false → str_eq id "" ≡ true → str_eq id r ≡ false
unnamed r id named e = elim (Bool-cases (str_eq id r)) [
  | inl same ↦ cc (sym e ∙ (ap (λ i. str_eq i "") ((eq_iff id r).0 same) ∙ named))
  | inr other ↦ other
]

abbrev pub Answering : String → ℕ → Executor → Executor → Type 0
Answering r n x y =
    (y.session.done ≡ false)
    × ((y.session.closed ≡ false) × (answered r y.session ≡ answered r x.session + n))

pub handle_message-Answering :
    (r : String) (pick : Bool) (m : SchedulerMessage) (x : Executor)
    → str_eq r "" ≡ false
    → x.session.done ≡ false
    → x.session.closed ≡ false
    → After (Answering r (dispatches_of r (m ∷ [])) x) (Answering r 0 x) (handle_message pick m x)
unfolding handle_message on_dispatch take_slot start_run acks_of dispatches_of on_cancel
handle_message-Answering r pick (dispatch d) x named open_ctx open_channel =
    elim (Bool-cases (str_eq d.run_id "")) [
      | inl blank ↦ ground (arith, unnamed r d.run_id named blank)
      | inr given ↦ ground (
        arith,
        send_or_drop-Queued r pick (ack d.run_id true no_reason) x.session,
        send_or_drop-Queued r pick (ack d.run_id false inflight_full) x.session,
        send_or_drop-Queued r pick (ack d.run_id false (handler_not_registered d.job_name))
            x.session,
      )
    ]
handle_message-Answering r pick (cancel id) x named open_ctx open_channel = ground arith
handle_message-Answering r pick (register q) x named open_ctx open_channel =
    (open_ctx, (open_channel, omega arith))
handle_message-Answering r pick reload x named open_ctx open_channel =
    (open_ctx, (open_channel, omega arith))
handle_message-Answering r pick unknown x named open_ctx open_channel =
    (open_ctx, (open_channel, omega arith))
