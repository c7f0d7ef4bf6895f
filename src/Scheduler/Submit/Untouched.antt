-- ===== src/Scheduler/Submit/Untouched.antt =====
-- What the calls of flushSpoolOnce in pkg/scheduler/submit_buffer.go leave of the memory queue.
use compkg.Common.{◌≡◌, refl, ◌⊎◌, inl, inr, Option, none, some, List, [], ◌∷◌, arith}
use compkg.Common.Int.{ℤ}
use compkg.Scheduler.Buffer.{SubmitOptions}
use compkg.Scheduler.Disk.{Os, SpoolError, SpoolTask}
use compkg.Scheduler.Spool
use compkg.Scheduler.Submit.{
  Server, Client, submit_task, send_spooled, ack_task, flush_files, flush_spool,
}

module _ (os : Os) (srv : Server) where
  -- What a call on the server, on the spool or on the disk leaves of the memory queue.
  pub local_buffer-submit :
      (o : SubmitOptions) (c : Client os srv)
      → (submit_task os srv o c).0.local_buffer ≡ c.local_buffer
  unfolding submit_task
  local_buffer-submit o c = ground arith

  local_buffer-ack :
      (seq : ℤ) (c : Client os srv) → (ack_task os srv seq c).local_buffer ≡ c.local_buffer
  unfolding ack_task
  local_buffer-ack seq c = ground arith

  local_buffer-spooled :
      (ts : List SpoolTask) (c : Client os srv)
      → (send_spooled os srv ts c).local_buffer ≡ c.local_buffer
  unfolding send_spooled
  local_buffer-spooled [] c = refl
  local_buffer-spooled (t ∷ ts) c =
      let c' = (submit_task os srv t.opts c).0 in
      ground (
        arith,
        local_buffer-submit t.opts c,
        local_buffer-ack t.seq c',
        local_buffer-spooled ts (ack_task os srv t.seq c'),
      )

  local_buffer-files :
      (r : SpoolError ⊎ List SpoolTask) (c : Client os srv)
      → (flush_files os srv r c).local_buffer ≡ c.local_buffer
  unfolding flush_files
  local_buffer-files (inl e) c = refl
  local_buffer-files (inr ts) c = local_buffer-spooled ts c

  pub local_buffer-flush_spool :
      (s : Option (Spool.Spool os)) (c : Client os srv)
      → (flush_spool os srv s c).local_buffer ≡ c.local_buffer
  unfolding flush_spool
  local_buffer-flush_spool none c = refl
  local_buffer-flush_spool (some s) c =
      ground (arith, local_buffer-files (Spool.drain os c.retry_batch s c.disk) c)
