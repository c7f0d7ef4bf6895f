-- ===== src/Tests/SessionRuns.antt =====
-- Runs of a session (pkg/scheduler/stream.go).
use compkg.Common.{ℕ, zero, suc, ◌*◌, false, ◌≡◌, refl, true, none, some, List, [], ◌∷◌, inr, arith}
use compkg.Common.Int.{ℤ, pos}
use compkg.Common.Dict.{empty, store, delete}
use compkg.Scheduler.Config.{second}
use compkg.Scheduler.Reconnect.{negotiate}
use compkg.Scheduler.Executor.{
  Executor, WorkerMessage, next, returns, ack, result, no_reason, job_result, on_dispatch,
  take_slot, send_or_drop, transmit, take_running, finish, end_session,
}
use compkg.Scheduler.Session.{
  eof, stream_error, SchedulerMessage, dispatch, register, reload, Stream, RegisterRequest,
  register_request, handshake, run_one_session, Link, Turn, receives, sends, handler_ends, ticks,
  serve, take_turn, receive, receive_from, sender_turn, send_oldest, handle_message, start_session,
  session_result, sender_ended, session_error,
}
use compkg.Scheduler.Session.Blocked.{IsBlocked, Stuck, serve-IsBlocked}
use compkg.Scheduler.Session.Counts.{acks_of, dispatches_of}
use compkg.Scheduler.Session.Answers.{run_one_session-acks_of}
use compkg.Tests.ClientRuns.{bare_config, idle, job}

abbrev request : RegisterRequest
request = register_request bare_config (record { nonce = "n"; ts = 3; signature = "s" }) []

abbrev messages : List SchedulerMessage
messages = dispatch (job "r1") ∷ reload ∷ []

-- The handler of r1 ends before the stream does, and its report is sent after that.
abbrev turns : List Turn
turns =
    receives true
    ∷ sends none
    ∷ receives true
    ∷ handler_ends true 0 (returns "out" none) 5 6
    ∷ receives true
    ∷ sends none
    ∷ []

abbrev over : Executor
over = record idle {
  cancels = delete "r1" (store "r1" 0 empty);
  next_gid = 1;
  session = record {
    queued = [];
    transmitted = ack "r1" true no_reason ∷ result (job_result "r1" (returns "out" none) 5 6) ∷ [];
    done = true;
    closed = true;
  };
}

abbrev accepted : Stream
accepted = record {
  connect = none;
  send_register = λ r. none;
  first = inr (register (record { ok = true; error = ""; heartbeat_interval = pos 7 }));
  inbox = messages;
  recv_error = eof;
}

handshake_accepted : handshake request (pos 0) accepted ≡ inr (pos (7 * second))
unfolding handshake negotiate
handshake_accepted = refl

accepted-run : run_one_session request (pos 0) accepted turns idle ≡ next (some none, over)
unfolding run_one_session handshake session_result sender_ended session_error serve take_turn
    receive receive_from sender_turn send_oldest handle_message start_session on_dispatch take_slot
    send_or_drop transmit take_running finish end_session
accepted-run = refl

run_one_session-acks_of_example :
    ((interval : ℤ) × (handshake request (pos 0) accepted ≡ inr interval))
    × ((eof ≡ eof) × (acks_of "r1" over.session.transmitted ≡ dispatches_of "r1" messages))
run_one_session-acks_of_example =
    run_one_session-acks_of "r1" request (pos 0) accepted turns idle {y = over} refl
      (tt, (tt, (tt, (tt, (tt, (tt, tt)))))) accepted-run

abbrev times : ℕ → WorkerMessage → List WorkerMessage
times zero m = []
times (suc n) m = m ∷ times n m

abbrev clogged : Link
clogged = record {
  executor = record idle {
    session = record {
      queued = times 64 (ack "r0" true no_reason);
      transmitted = [];
      done = false;
      closed = false;
    };
  };
  inbox = dispatch (job "r1") ∷ [];
  recv_error = eof;
  recv_result = none;
  send_error = some (stream_error "broken pipe");
}

clogged-IsBlocked : IsBlocked clogged (stream_error "broken pipe") (job "r1") []
clogged-IsBlocked = record {
  receiving = refl;
  failed = refl;
  next_message = refl;
  named = refl;
  not_done = refl;
  not_closed = refl;
  full = ground arith;
}

serve-IsBlocked_example :
    (k : Link) × (serve (receives true ∷ sends none ∷ ticks true 9 9 ∷ []) clogged ≡ next k)
    × Stuck clogged k
    × (session_result k ≡ none)
serve-IsBlocked_example =
    serve-IsBlocked (receives true ∷ sends none ∷ ticks true 9 9 ∷ []) clogged
      (stream_error "broken pipe") (job "r1") [] clogged-IsBlocked (tt, (tt, (tt, tt)))
