-- ===== src/Scheduler/Executor/Closed.antt =====
-- Handlers of pkg/scheduler/executor.go that end after their session.
use compkg.Common.{ℕ, ◌≡◌, true, false, some, List, arith}
use compkg.Scheduler.Executor.{
  Executor, Running, Behaviour, next, crashes, send_or_drop, end_run, take_running, finish,
  end_session,
}

-- A handler that is running when its session ends: if Go picks the send, its report kills the
-- process; if Go picks the cancelled context, the report is lost and only the slot is given back.
pub finish-end_session :
    (gid : ℕ) (b : Behaviour) (started ended : ℕ) (x : Executor) {r : Running}
    {others : List Running}
    → take_running gid x.running ≡ some (r, others)
    → (finish true gid b started ended (end_session x) ≡ crashes)
      × (finish false gid b started ended (end_session x)
          ≡ next (end_run r others (end_session x) (end_session x).session))
unfolding finish end_session send_or_drop
finish-end_session gid b started ended x h = ground arith
