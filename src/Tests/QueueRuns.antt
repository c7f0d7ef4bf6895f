-- ===== src/Tests/QueueRuns.antt =====
-- Runs of the memory queue and the disk queue (pkg/scheduler).
use compkg.Common.{◌≤◌, ◌<◌, ◌≡◌, ◌↔◌, inr, refl, true, Option, some, none, List, [], ◌∷◌, arith}
use compkg.Common.Int.{ℤ, pos}
use compkg.Scheduler.Buffer.{SubmitBuffer}
use compkg.Scheduler.Disk.{SpoolTask, SpoolError, SubmitSpool, total_size, limit_of}
use compkg.Scheduler.Spool
use compkg.Scheduler.Spool.{Call, push_call, ack_call, bytes, encode}
use compkg.Scheduler.Spool.Reload.{
  new_submit_spool, fresh_spool, reload, collect, reload_files, sort_files, max_seq,
}
use compkg.Scheduler.Spool.Size.{push_full}
use compkg.Scheduler.Spool.Limit.{spool_limit}
use compkg.Tests.World.{small_os, task_named}

abbrev two : SubmitBuffer
two = record { cap = 2; queue = task_named "a" ∷ task_named "b" ∷ []; notify = true }

abbrev pub no_files : ℤ → Option SpoolTask
no_files p = none

-- Room for two tasks of ten bytes.
abbrev spool_of_25 : SubmitSpool ℤ
spool_of_25 = fresh_spool small_os "/spool" (pos 25) 7

abbrev calls : List Call
calls =
    push_call (task_named "a")
    ∷ push_call (task_named "b")
    ∷ push_call (task_named "c")
    ∷ ack_call (pos 8)
    ∷ []

-- The third push evicts the first task, and the acknowledgement removes the second.
spool_run :
    (Spool.len small_os (Spool.run small_os calls spool_of_25 no_files).0 ≡ 1)
    × (bytes small_os (Spool.run small_os calls spool_of_25 no_files).0 ≡ 10)
unfolding fresh_spool Spool.run Spool.step Spool.push Spool.push_bytes Spool.evict Spool.write_task
    Spool.ack Spool.take_out Spool.len bytes
spool_run = (refl, refl)

spool_made :
    new_submit_spool small_os "/tmp" "/spool" (pos 25) 7 no_files ≡ inr (spool_of_25, no_files)
unfolding new_submit_spool reload collect reload_files sort_files max_seq Spool.evict fresh_spool
spool_made = refl

spool_limit_example :
    (bytes small_os (Spool.run small_os calls spool_of_25 no_files).0
      ≡ total_size (Spool.run small_os calls spool_of_25 no_files).0.files)
    × (bytes small_os (Spool.run small_os calls spool_of_25 no_files).0 ≤ limit_of (pos 25))
spool_limit_example =
    spool_limit small_os "/tmp" "/spool" (pos 25) 7 no_files calls {s = spool_of_25}
      {disk' = no_files} spool_made

push_full_example :
    ((Spool.push small_os (task_named "a") (record spool_of_25 { max_bytes = 5 }) no_files).2
      ≡ some SpoolError.spill_full)
    ↔ ((t : SpoolTask) × (encode small_os (pos 7) (task_named "a") ≡ some t) × (5 < 10))
unfolding fresh_spool
push_full_example =
    push_full small_os (task_named "a") (record spool_of_25 { max_bytes = 5 }) no_files
      (record { counted = refl; within = omega arith })
