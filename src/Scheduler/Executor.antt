-- ===== src/Scheduler/Executor.antt =====
-- How dispatched tasks run: pkg/scheduler/executor.go, with the message handlers of
-- pkg/scheduler/stream.go, over one session. A handler's goroutine is known by a number; the context
-- that it can be cancelled through is named by that number too. Each event below is one step:
-- a dispatch, the end of a handler, a cancel, a heartbeat, the sender taking a message, the end of the session.
pub mod Slots
pub mod Closed
pub mod Cancels
use compkg.Common.{
  ℕ, suc, ◌+◌, ◌-◌, String, Bool, true, false, ◌||◌, ◌&&◌, not, Option, none, some, List, [], ◌∷◌,
  ◌++◌, map, length, ltb, leb, ◌==◌, str_eq, if◌then◌else◌,
}
use compkg.Common.Int.{ℤ, pos, to_int32}
use compkg.Common.Dict.{Dict, store, delete}

pub data RunStatus : Type 0 where
  success timeout canceled failed : RunStatus

-- The reason of an acknowledgement: empty, or one of two texts.
pub data AckReason : Type 0 where
  no_reason inflight_full : AckReason
  handler_not_registered : String → AckReason

pub record JobResult : Type 0 where
  pub run_id : String
  pub status : RunStatus
  pub output : String
  pub error : String
  pub started_at : ℕ
  pub ended_at : ℕ

-- WorkerId, which is that of the client, and LoadAvg, which is always 0, are left out.
pub record Heartbeat : Type 0 where
  pub ts : ℕ
  pub inflight : ℤ
  pub uptime_sec : ℕ

pub data WorkerMessage : Type 0 where
  ack : String → Bool → AckReason → WorkerMessage
  result : JobResult → WorkerMessage
  heartbeat : Heartbeat → WorkerMessage

pub record Dispatch : Type 0 where
  pub run_id : String
  pub job_name : String
  pub timeout_sec : ℕ

-- `errors.Is` against the two context errors.
pub data ErrorKind : Type 0 where
  deadline_exceeded context_canceled other_error : ErrorKind

pub record HandlerError : Type 0 where
  pub kind : ErrorKind
  pub text : String

-- What a handler does: it returns an output and perhaps an error, or it panics with a text.
pub data Behaviour : Type 0 where
  returns : String → Option HandlerError → Behaviour
  panics : String → Behaviour

pub record Running : Type 0 where
  pub gid : ℕ
  pub run_id : String
  pub cancelled : Bool

-- `queued` is what `sendCh` holds; `done` says that the session's context is cancelled, `closed`
-- that the channel is closed.
pub record Session : Type 0 where
  pub queued : List WorkerMessage
  pub transmitted : List WorkerMessage
  pub done : Bool
  pub closed : Bool

pub record Executor : Type 0 where
  pub max_concurrency : ℕ
  pub handlers : Dict ℕ
  pub sem : ℕ
  pub cancels : Dict ℕ
  -- Whether the receive loop has taken a slot for a dispatch whose acknowledgement waits for room.
  pub holding : Bool
  pub running : List Running
  pub next_gid : ℕ
  pub session : Session

-- The next state, or the goroutine waits, in a state, or the process dies of a panic.
pub data Next {ℓ} (A : Type ℓ) : Type ℓ where
  next waits : A → Next A
  crashes : Next A

abbrev pub send_capacity : ℕ
send_capacity = 64

-- `case ch <- msg` can be taken if the channel has room; on a closed channel it is taken too, and
-- panics. `case <-ctx.Done()` drops the message. With both ready Go picks one: `pick` says which.
unfoldable pub send_or_drop : Bool → WorkerMessage → Session → Next Session
send_or_drop pick m s =
    let send = if s.closed then crashes else next (record s { queued = s.queued ++ m ∷ [] }) in
    if s.closed || ltb (length s.queued) send_capacity
    then (if s.done && not pick then next s else send)
    else if s.done
    then next s
    else waits s

-- What is done once the message is out or dropped, and the state in which the sending waits.
abbrev pub then_do {ℓ} : {A : Type ℓ} → Next Session → (Session → A) → A → Next A
then_do (next s) k waiting = next (k s)
then_do (waits s) k waiting = waits waiting
then_do crashes k waiting = crashes

abbrev pub with_session : Executor → Session → Executor
with_session x s = record x { session = s }

-- The slot of a dispatch is taken before its acknowledgement is sent.
unfoldable pub take_slot : Executor → Executor
take_slot x = if x.holding then x else record x { sem = x.sem + 1; holding = true }

-- The goroutine that an accepted dispatch starts, in the slot that was taken for it.
unfoldable pub start_run : Dispatch → Executor → Session → Executor
start_run d x s = record x {
  session = s;
  holding = false;
  cancels = store d.run_id x.next_gid x.cancels;
  running = x.running ++ record { gid = x.next_gid; run_id = d.run_id; cancelled = false } ∷ [];
  next_gid = x.next_gid + 1;
}

accept_or_reject : Bool → Dispatch → Executor → Next Executor
accept_or_reject pick d x =
    if x.holding || ltb x.sem x.max_concurrency
    then (let y = take_slot x in
        then_do (send_or_drop pick (ack d.run_id true no_reason) x.session) (start_run d y) y)
    else then_do (send_or_drop pick (ack d.run_id false inflight_full) x.session) (with_session x) x

-- A call that waits is made again with the same dispatch, and goes on in the slot that it holds. The
-- receive loop does nothing else until then; runs in which it did are among those of `run` too.
unfoldable pub on_dispatch : Bool → Dispatch → Executor → Next Executor
unfolding accept_or_reject take_slot start_run
on_dispatch pick d x = if str_eq d.run_id "" then next x else (elim (x.handlers d.job_name) [
  | none ↦
      then_do (send_or_drop pick (ack d.run_id false (handler_not_registered d.job_name)) x.session)
        (with_session x) x
  | some h ↦ accept_or_reject pick d x
])

-- A panic becomes an error of no context kind, with no output.
unfoldable pub run_handler_safe : Behaviour → String × Option HandlerError
run_handler_safe (returns output e) = (output, e)
run_handler_safe (panics text) = ("", some (record { kind = other_error; text = text }))

status_of_kind : ErrorKind → RunStatus
status_of_kind deadline_exceeded = timeout
status_of_kind context_canceled = canceled
status_of_kind other_error = failed

unfoldable pub status_of : Option HandlerError → RunStatus
unfolding status_of_kind
status_of none = success
status_of (some e) = status_of_kind e.kind

error_text : Option HandlerError → String
error_text none = ""
error_text (some e) = e.text

unfoldable pub job_result : String → Behaviour → ℕ → ℕ → JobResult
unfolding error_text run_handler_safe status_of
job_result run_id b started ended =
    let (output, e) = run_handler_safe b in
    record {
      run_id = run_id;
      status = status_of e;
      output = output;
      error = error_text e;
      started_at = started;
      ended_at = ended;
    }

unfoldable pub take_running : ℕ → List Running → Option (Running × List Running)
take_running gid [] = none
take_running gid (r ∷ rs) =
    let rest = take_running gid rs in
    if r.gid == gid
    then some (r, rs)
    else elim rest [ none ↦ none | some (found, others) ↦ some (found, r ∷ others) ]

-- The deferred calls of the goroutine.
unfoldable pub end_run : Running → List Running → Executor → Session → Executor
end_run r others x s = record x {
  session = s;
  sem = x.sem - 1;
  cancels = delete r.run_id x.cancels;
  running = others;
}

-- The goroutine `gid` reports what its handler did, and ends.
unfoldable pub finish : Bool → ℕ → Behaviour → ℕ → ℕ → Executor → Next Executor
unfolding end_run
finish pick gid b started ended x = elim (take_running gid x.running) [
  | none ↦ next x
  | some (r, others) ↦
      then_do (send_or_drop pick (result (job_result r.run_id b started ended)) x.session)
        (end_run r others x) x
]

abbrev pub cancel_gid : ℕ → Running → Running
cancel_gid gid r = if r.gid == gid then record r { cancelled = true } else r

unfoldable pub on_cancel : String → Executor → Executor
on_cancel run_id x = if str_eq run_id "" then x else (elim (x.cancels run_id) [
  | none ↦ x
  | some gid ↦ record x { running = map (cancel_gid gid) x.running }
])

-- `cancel(); close(sendCh)` at the end of `runOneSession`.
unfoldable pub end_session : Executor → Executor
end_session x = record x { session = record x.session { done = true; closed = true } }

-- The sender goroutine takes the oldest message.
unfoldable pub transmit : Session → List WorkerMessage → Session
transmit s [] = s
transmit s (m ∷ rest) = record s { queued = rest; transmitted = s.transmitted ++ m ∷ [] }

-- MaxConcurrency less the room in the semaphore.
unfoldable pub current_inflight : Executor → ℕ
current_inflight x = x.max_concurrency - (x.max_concurrency - x.sem)

-- A tick of `runHeartbeat`, at the time `ts`.
unfoldable pub send_heartbeat : Bool → ℕ → ℕ → Executor → Next Executor
send_heartbeat pick ts uptime_sec x =
    let inflight = to_int32 (pos (current_inflight x)) in
    let beat : Heartbeat = record { ts = ts; inflight = inflight; uptime_sec = uptime_sec } in
    then_do (send_or_drop pick (heartbeat beat) x.session) (with_session x) x

pub data Event : Type 0 where
  dispatched : Bool → Dispatch → Event
  finished : Bool → ℕ → Behaviour → ℕ → ℕ → Event
  cancel_asked : String → Event
  heartbeat_due : Bool → ℕ → ℕ → Event
  sender_ran session_ended : Event

unfoldable pub step : Event → Executor → Next Executor
step (dispatched pick d) x = on_dispatch pick d x
step (finished pick gid b started ended) x = finish pick gid b started ended x
step (cancel_asked run_id) x = next (on_cancel run_id x)
step (heartbeat_due pick ts uptime_sec) x = send_heartbeat pick ts uptime_sec x
step sender_ran x = next (record x { session = transmit x.session x.session.queued })
step session_ended x = next (end_session x)

-- After a step that waits come the events of the other goroutines; a panic ends the run.
unfoldable pub run : List Event → Executor → Next Executor
run [] x = next x
run (e ∷ es) x = elim (step e x) [ next y ↦ run es y | waits y ↦ run es y | crashes ↦ crashes ]
