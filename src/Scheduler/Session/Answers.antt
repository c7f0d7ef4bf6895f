-- ===== src/Scheduler/Session/Answers.antt =====
-- The answers to the dispatches of a session: runOneSession of pkg/scheduler/stream.go, over every
-- order of its goroutines.
use compkg.Common.{
  ℕ, ◌+◌, ◌≡◌, refl, ap, ◌⊎◌, inl, inr, String, Bool, true, false, Option, none, some, List, [],
  ◌∷◌, All, Option-cases, str_eq, arith,
}
use mathlib.Core.Path.{subst}
use compkg.Common.Int.{ℤ}
use compkg.Scheduler.Executor.{Executor, next, WorkerMessage, end_session, transmit}
use compkg.Scheduler.Executor.Slots.{Holds, Next-cases}
use compkg.Scheduler.Session.{
  SessionError, eof, SchedulerMessage, dispatch, cancel, register, reload, unknown, Link, Turn,
  receives, sends, handler_ends, ticks, stops, is_set, receive_from, receive, sender_turn,
  send_oldest, sender_ended, is_drained, session_error, take_turn, serve, session_result,
  start_session, RegisterRequest, Stream, handshake, run_one_session,
}
use compkg.Scheduler.Session.Blocked.{IsNotStop}
use compkg.Scheduler.Session.Counts.{
  acks_of, dispatches_of, acks_of-append, answered, finish-Unanswering, send_heartbeat-Unanswering,
  handle_message-Answering,
}

-- The state of a session in which n dispatches of the run id r come, before Stop.
record IsFair (r : String) (n : ℕ) (e : SessionError) (l : Link) : Type 0 where
  recv_error : l.recv_error ≡ e
  done : l.executor.session.done ≡ is_set l.recv_result
  closed : l.executor.session.closed ≡ is_set l.recv_result
  ended : (l.recv_result ≡ none) ⊎ ((l.recv_result ≡ some e) × (l.inbox ≡ []))
  counted :
      (is_set l.send_error ≡ true) ⊎ (answered r l.executor.session + dispatches_of r l.inbox ≡ n)

dispatches_of-cons :
    (r : String) (m : SchedulerMessage) (ms : List SchedulerMessage)
    → dispatches_of r (m ∷ ms) ≡ dispatches_of r (m ∷ []) + dispatches_of r ms
unfolding dispatches_of
dispatches_of-cons r (dispatch d) ms = omega arith
dispatches_of-cons r (cancel id) ms = omega arith
dispatches_of-cons r (register q) ms = omega arith
dispatches_of-cons r reload ms = omega arith
dispatches_of-cons r unknown ms = omega arith

receive_from-IsFair :
    (r : String) (n : ℕ) (e : SessionError) (pick : Bool) (ms : List SchedulerMessage) (l : Link)
    → str_eq r "" ≡ false
    → l.inbox ≡ ms
    → l.recv_result ≡ none
    → IsFair r n e l
    → Holds (IsFair r n e) (receive_from pick ms l)
unfolding receive_from is_set end_session
receive_from-IsFair r n e pick [] l named taken receiving h = record {
  recv_error = h.recv_error;
  done = refl;
  closed = refl;
  ended = inr (ap some h.recv_error, taken);
  counted = h.counted;
}
receive_from-IsFair r n e pick (m ∷ ms) l named taken receiving h =
    let not_done : l.executor.session.done ≡ false = rw receiving at h.done in
    ground (
      arith,
      taken,
      receiving,
      h,
      dispatches_of-cons r m ms,
      handle_message-Answering r pick m l.executor named not_done (rw receiving at h.closed),
    )

receive-IsFair :
    (r : String) (n : ℕ) (e : SessionError) (pick : Bool) (l : Link)
    → str_eq r "" ≡ false
    → IsFair r n e l
    → Holds (IsFair r n e) (receive pick l)
unfolding receive
receive-IsFair r n e pick l named h = elim (Option-cases l.recv_result) [
  | inl receiving ↦
      rw (receiving, receive) (receive_from-IsFair r n e pick l.inbox l named refl receiving h)
  | inr (err, over) ↦ rw (over, receive) h
]

send_oldest-IsFair :
    (r : String) (n : ℕ) (e : SessionError) (answer : Option SessionError) (q : List WorkerMessage)
    (l : Link)
    → l.executor.session.queued ≡ q
    → IsFair r n e l
    → IsFair r n e (send_oldest answer q l)
unfolding send_oldest transmit is_set
send_oldest-IsFair r n e answer [] l taken h = h
send_oldest-IsFair r n e none (m ∷ q) l taken h =
    let moved = acks_of-append r l.executor.session.transmitted (m ∷ []) in
    ground (arith, h, taken, moved, acks_of-append r (m ∷ []) q)
send_oldest-IsFair r n e (some err) (m ∷ q) l taken h = ground (arith, h)

sender_turn-IsFair :
    (r : String) (n : ℕ) (e : SessionError) (answer : Option SessionError) (l : Link)
    → IsFair r n e l
    → IsFair r n e (sender_turn answer l)
unfolding sender_turn
sender_turn-IsFair r n e answer l h = elim (Option-cases l.send_error) [
  | inl going ↦
      rw (going, sender_turn) (send_oldest-IsFair r n e answer l.executor.session.queued l refl h)
  | inr (err, failed) ↦ rw (failed, sender_turn) h
]

take_turn-IsFair :
    (r : String) (n : ℕ) (e : SessionError) (t : Turn) (l : Link)
    → str_eq r "" ≡ false
    → IsNotStop t
    → IsFair r n e l
    → Holds (IsFair r n e) (take_turn t l)
unfolding take_turn
take_turn-IsFair r n e (receives pick) l named ok h = receive-IsFair r n e pick l named h
take_turn-IsFair r n e (sends answer) l named ok h = sender_turn-IsFair r n e answer l h
take_turn-IsFair r n e (handler_ends pick gid b started ended) l named ok h =
    ground (arith, finish-Unanswering r pick gid b started ended l.executor, h)
take_turn-IsFair r n e (ticks pick ts uptime_sec) l named ok h =
    ground (arith, send_heartbeat-Unanswering r pick ts uptime_sec l.executor, h)
take_turn-IsFair r n e stops l named ok h = absurd ok

serve-IsFair :
    (r : String) (n : ℕ) (e : SessionError) (ts : List Turn) (l : Link) {k : Link}
    → str_eq r "" ≡ false
    → All IsNotStop ts
    → IsFair r n e l
    → serve ts l ≡ next k
    → IsFair r n e k
unfolding serve
serve-IsFair r n e [] l named ok h eq = subst (Holds (IsFair r n e)) eq h
serve-IsFair r n e (t ∷ ts) l {k} named ok h eq = elim (Next-cases (take_turn t l)) [
  | inl (l', went) ↦
      serve-IsFair r n e ts l' named ok.1
        (subst (Holds (IsFair r n e)) went (take_turn-IsFair r n e t l named ok.0 h))
        (rw (went, serve) at eq)
  | inr (inl (l', waited)) ↦
      serve-IsFair r n e ts l' named ok.1
        (subst (Holds (IsFair r n e)) waited (take_turn-IsFair r n e t l named ok.0 h))
        (rw (waited, serve) at eq)
  | inr (inr died) ↦ cc (rw (died, serve) at eq)
]

serve-acks_of :
    (r : String) (ts : List Turn) (x : Executor) (inbox : List SchedulerMessage) (e : SessionError)
    {l : Link}
    → str_eq r "" ≡ false
    → All IsNotStop ts
    → serve ts (start_session x inbox e) ≡ next l
    → session_result l ≡ some none
    → (e ≡ eof) × (acks_of r l.executor.session.transmitted ≡ dispatches_of r inbox)
unfolding session_result sender_ended is_drained session_error start_session acks_of dispatches_of
    is_set
serve-acks_of r ts x inbox e {l} named ok went nil =
    let start : IsFair r (dispatches_of r inbox) e (start_session x inbox e) = record {
      recv_error = refl;
      done = refl;
      closed = refl;
      ended = inl refl;
      counted = inr (omega arith);
    } in
    let h =
      serve-IsFair r (dispatches_of r inbox) e ts (start_session x inbox e) named ok start went in
    ground (arith, h, nil)

handshake-cases :
    (h : SessionError ⊎ ℤ) → ((e : SessionError) × (h ≡ inl e)) ⊎ ((d : ℤ) × (h ≡ inr d))
handshake-cases (inl e) = inl (e, refl)
handshake-cases (inr d) = inr (d, refl)

-- A session in which Stop is not called and that returns no error: the handshake had succeeded, Recv
-- answered io.EOF after its messages, and for each run id, as many acknowledgements were sent as
-- dispatches of it came.
pub run_one_session-acks_of :
    (r : String) (request : RegisterRequest) (delay : ℤ) (s : Stream) (ts : List Turn)
    (x : Executor) {y : Executor}
    → str_eq r "" ≡ false
    → All IsNotStop ts
    → run_one_session request delay s ts x ≡ next (some none, y)
    → ((interval : ℤ) × (handshake request delay s ≡ inr interval))
      × ((s.recv_error ≡ eof) × (acks_of r y.session.transmitted ≡ dispatches_of r s.inbox))
unfolding run_one_session
run_one_session-acks_of r request delay s ts x {y} named ok e =
    elim (handshake-cases (handshake request delay s)) [
      | inl (err, failed) ↦ cc (rw (failed, run_one_session) at e)
      | inr (interval, accepted) ↦
          elim (Next-cases (serve ts (start_session x s.inbox s.recv_error))) [
            | inl (l, went) ↦
                let ended : (session_result l ≡ some none) × (l.executor ≡ y) =
                  ground (arith, rw (accepted, went, run_one_session) at e) in
                (
                  (interval, accepted),
                  subst
                      (λ z.
                        (s.recv_error ≡ eof)
                        × (acks_of r z.session.transmitted ≡ dispatches_of r s.inbox))
                      ended.1 (serve-acks_of r ts x s.inbox s.recv_error named ok went ended.0),
                )
            | inr (inl (l, waited)) ↦ cc (rw (accepted, waited, run_one_session) at e)
            | inr (inr died) ↦ cc (rw (accepted, died, run_one_session) at e)
          ]
    ]
