-- ===== src/Scheduler/Session.antt =====
-- A session of the client: runOneSession and runRecvLoop of pkg/scheduler/stream.go. The stream is
-- outside: what Connect, Send and Recv answer is given. Its goroutines (the receive loop, the
-- sender, the heartbeat, the handlers) take turns, in any order; a goroutine that waits in its turn
-- tries again in a later one. No handler of an earlier session is running.
pub mod Blocked
pub mod Counts
pub mod Answers
use compkg.Common.{
  ℕ, String, Bool, true, false, Option, none, some, List, [], ◌∷◌, ◌⊎◌, inl, inr, ◌||◌, ◌&&◌,
  if◌then◌else◌,
}
use compkg.Common.Int.{ℤ, to_int32}
use compkg.Scheduler.Config.{Config}
use compkg.Scheduler.Submit.{SignedCreds}
use compkg.Scheduler.Reconnect.{negotiate}
use compkg.Scheduler.Executor.{
  Executor, WorkerMessage, Dispatch, Behaviour, Next, next, waits, crashes, on_dispatch, on_cancel,
  finish, send_heartbeat, end_session, transmit, with_session,
}

-- io.EOF, another error of the stream, or one of the two that the handshake makes.
pub data SessionError : Type 0 where
  eof no_register_response : SessionError
  stream_error register_denied : String → SessionError

pub record RegisterResponse : Type 0 where
  pub ok : Bool
  pub error : String
  pub heartbeat_interval : ℤ

pub data SchedulerMessage : Type 0 where
  register : RegisterResponse → SchedulerMessage
  dispatch : Dispatch → SchedulerMessage
  cancel : String → SchedulerMessage
  reload unknown : SchedulerMessage

unfoldable pub get_register : SchedulerMessage → Option RegisterResponse
get_register (register r) = some r
get_register _ = none

pub record RegisterRequest : Type 0 where
  pub app_name : String
  pub app_key : String
  pub creds : SignedCreds
  pub worker_id : String
  pub instance_id : String
  pub ip : String
  pub sdk_version : String
  pub handler_jobs : List String
  pub max_concurrency : ℤ

-- `names` is what handlerNames lists, in any order.
unfoldable pub register_request : Config → SignedCreds → List String → RegisterRequest
register_request c creds names = record {
  app_name = c.app_name;
  app_key = c.app_key;
  creds = creds;
  worker_id = c.worker_id;
  instance_id = c.instance_id;
  ip = c.ip;
  sdk_version = c.sdk_version;
  handler_jobs = names;
  max_concurrency = to_int32 c.max_concurrency;
}

-- What the stream answers: to Connect, to the RegisterRequest, to the first Recv, and after the
-- handshake to each Recv: the messages of `inbox`, and then an error.
pub record Stream : Type 0 where
  pub connect : Option SessionError
  pub send_register : RegisterRequest → Option SessionError
  pub first : SessionError ⊎ SchedulerMessage
  pub inbox : List SchedulerMessage
  pub recv_error : SessionError

accept_register : Option RegisterResponse → ℤ → SessionError ⊎ ℤ
accept_register none delay = inl no_register_response
accept_register (some r) delay =
    if r.ok then inr (negotiate r.heartbeat_interval delay) else inl (register_denied r.error)

receive_register : SessionError ⊎ SchedulerMessage → ℤ → SessionError ⊎ ℤ
unfolding accept_register get_register
receive_register (inl e) delay = inl e
receive_register (inr m) delay = accept_register (get_register m) delay

-- The error that the session ends with, or the interval of the heartbeat, which was `delay`.
unfoldable pub handshake : RegisterRequest → ℤ → Stream → SessionError ⊎ ℤ
unfolding receive_register
handshake request delay s = elim s.connect [
  | some e ↦ inl e
  | none ↦ elim (s.send_register request) [ some e ↦ inl e | none ↦ receive_register s.first delay ]
]

-- A session after the handshake. `inbox` is what Recv will answer, and `recv_error` is its answer
-- after that. `recv_result` is what the receive loop returned; `send_error` is what `sendErrCh` holds.
pub record Link : Type 0 where
  pub executor : Executor
  pub inbox : List SchedulerMessage
  pub recv_error : SessionError
  pub recv_result : Option SessionError
  pub send_error : Option SessionError

unfoldable pub start_session : Executor → List SchedulerMessage → SessionError → Link
start_session x inbox e = record {
  executor =
      with_session x (record { queued = []; transmitted = []; done = false; closed = false });
  inbox = inbox;
  recv_error = e;
  recv_result = none;
  send_error = none;
}

unfoldable pub handle_message : Bool → SchedulerMessage → Executor → Next Executor
handle_message pick (dispatch d) x = on_dispatch pick d x
handle_message pick (cancel run_id) x = next (on_cancel run_id x)
handle_message pick _ x = next x

abbrev pub at_executor : Link → Next Executor → Next Link
at_executor l (next x) = next (record l { executor = x })
at_executor l (waits x) = waits (record l { executor = x })
at_executor l crashes = crashes

-- The loop takes a message, or returns with the error of Recv; then the context is cancelled and the
-- channel is closed.
-- A message whose handling waits stays at the head.
unfoldable pub receive_from : Bool → List SchedulerMessage → Link → Next Link
receive_from pick [] l =
    next (record l { executor = end_session l.executor; recv_result = some l.recv_error })
receive_from pick (m ∷ rest) l = elim (handle_message pick m l.executor) [
  | next x ↦ next (record l { executor = x; inbox = rest })
  | waits x ↦ waits (record l { executor = x })
  | crashes ↦ crashes
]

unfoldable pub receive : Bool → Link → Next Link
receive pick l = elim l.recv_result [ some e ↦ waits l | none ↦ receive_from pick l.inbox l ]

-- What the stream answers to the Send of the oldest message.
unfoldable pub send_oldest : Option SessionError → List WorkerMessage → Link → Link
send_oldest answer [] l = l
send_oldest none queued l =
    let x = l.executor in record l { executor = with_session x (transmit x.session queued) }
send_oldest (some e) (m ∷ rest) l =
    let x = l.executor in
    record l { executor = with_session x (record x.session { queued = rest }); send_error = some e }

unfoldable pub sender_turn : Option SessionError → Link → Link
sender_turn answer l = elim l.send_error [
  | some e ↦ l
  | none ↦ send_oldest answer l.executor.session.queued l
]

-- `Stop` cancels the context of the session.
unfoldable pub stop_session : Link → Link
stop_session l =
    let x = l.executor in record l { executor = with_session x (record x.session { done = true }) }

pub data Turn : Type 0 where
  receives : Bool → Turn
  sends : Option SessionError → Turn
  handler_ends : Bool → ℕ → Behaviour → ℕ → ℕ → Turn
  ticks : Bool → ℕ → ℕ → Turn
  stops : Turn

unfoldable pub take_turn : Turn → Link → Next Link
take_turn (receives pick) l = receive pick l
take_turn (sends answer) l = next (sender_turn answer l)
take_turn (handler_ends pick gid b started ended) l =
    at_executor l (finish pick gid b started ended l.executor)
take_turn (ticks pick ts uptime_sec) l =
    at_executor l (send_heartbeat pick ts uptime_sec l.executor)
take_turn stops l = next (stop_session l)

unfoldable pub serve : List Turn → Link → Next Link
serve [] l = next l
serve (t ∷ ts) l = elim (take_turn t l) [
  | next k ↦ serve ts k
  | waits k ↦ serve ts k
  | crashes ↦ crashes
]

unfoldable pub is_set : Option SessionError → Bool
is_set none = false
is_set (some e) = true

is_drained : List WorkerMessage → Bool
is_drained [] = true
is_drained (m ∷ rest) = false

-- The sender ends with its first error, or once the closed channel is empty.
unfoldable pub sender_ended : Link → Bool
unfolding is_set is_drained
sender_ended l =
    is_set l.send_error || (l.executor.session.closed && is_drained l.executor.session.queued)

-- The error of the sender before that of the receive loop; no error for the end of the stream.
unfoldable pub session_error : Option SessionError → SessionError → Option SessionError
session_error (some e) recv_err = some e
session_error none eof = none
session_error none recv_err = some recv_err

-- What runOneSession returns, once it does.
unfoldable pub session_result : Link → Option (Option SessionError)
session_result l = elim l.recv_result [
  | none ↦ none
  | some e ↦ if sender_ended l then some (session_error l.send_error e) else none
]

-- A session to the point that its turns lead to: what it returned, if it did, and the executor.
unfoldable pub run_one_session :
    RegisterRequest
    → ℤ
    → Stream
    → List Turn
    → Executor
    → Next (Option (Option SessionError) × Executor)
run_one_session request delay s ts x = elim (handshake request delay s) [
  | inl e ↦ next (some (some e), x)
  | inr interval ↦ elim (serve ts (start_session x s.inbox s.recv_error)) [
    | next l ↦ next (session_result l, l.executor)
    | waits l ↦ waits (session_result l, l.executor)
    | crashes ↦ crashes
  ]
]
