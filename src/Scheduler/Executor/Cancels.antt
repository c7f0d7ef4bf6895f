-- ===== src/Scheduler/Executor/Cancels.antt =====
-- Cancelling runs (`onCancel` of pkg/scheduler/stream.go) and the end of runs of the same id.
use compkg.Common.{ℕ, ◌≡◌, Bool, some, List, arith}
use compkg.Common.Dict.{delete_at, str_eq_refl}
use compkg.Scheduler.Executor.{Executor, Running, Behaviour, next, take_running, finish, on_cancel}

-- After a handler has ended, a cancel of its run id does nothing: also if another handler that was
-- dispatched under the same run id is still running.
on_cancel-finish :
    (pick : Bool) (gid : ℕ) (b : Behaviour) (started ended : ℕ) (x : Executor) {r : Running}
    {others : List Running} {y : Executor}
    → take_running gid x.running ≡ some (r, others)
    → finish pick gid b started ended x ≡ next y
    → (on_cancel r.run_id y ≡ y) × (y.running ≡ others)
unfolding finish on_cancel
on_cancel-finish pick gid b started ended x {r} h e =
    ground (arith, delete_at r.run_id r.run_id x.cancels, str_eq_refl r.run_id)
