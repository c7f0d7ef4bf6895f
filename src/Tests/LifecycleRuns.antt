-- ===== src/Tests/LifecycleRuns.antt =====
-- Runs of the client's lifecycle and of its reconnection (pkg/scheduler/client.go and
-- pkg/scheduler/stream.go).
use compkg.Common.{◌≡◌, refl, true, false, inl, inr, some, List, [], ◌∷◌, All, arith}
use compkg.Common.Int.{pos, ◌≤ℤ◌}
use compkg.Scheduler.Buffer.{new_submit_buffer}
use compkg.Scheduler.Config.{Config, IsUsable, apply_defaults, validate}
use compkg.Scheduler.Reconnect.{SessionEnd, run_stream_loop, run_stream_loop-Between}
use compkg.Scheduler.Lifecycle.{
  Client, idle, new_client, make_client, make_queues, with_queues, with_spool, start_begin,
  start_dialed, stop, ClientCall, start_call, stop_call, run,
}
use compkg.Scheduler.Lifecycle.Balance.{IsBalanced, run-IsBalanced, stop-dialing}
use compkg.Tests.World.{small_os}
use compkg.Tests.ClientRuns.{bare_config, name_of}
use compkg.Tests.QueueRuns.{no_files}
use compkg.Scheduler.Config.{validate-apply_defaults}
use compkg.Scheduler.Spool
use compkg.Scheduler.Spool.{Spool}
use compkg.Scheduler.Spool.Reload.{
  new_submit_spool, fresh_spool, reload, reload_files, collect, sort_files, max_seq, made,
}

abbrev full_config : Config
full_config = apply_defaults name_of (some "host") 17 bare_config

full_config-IsUsable : IsUsable full_config
unfolding validate apply_defaults
full_config-IsUsable = validate-apply_defaults name_of (some "host") 17 bare_config refl

abbrev sessions : List SessionEnd
sessions =
    record { lasted = 0; stopped = false; stopped_waiting = false }
    ∷ record { lasted = 40000000000; stopped = false; stopped_waiting = false }
    ∷ record { lasted = 5; stopped = false; stopped_waiting = true }
    ∷ []

run_stream_loop-Between_example :
    All
      (λ x. (full_config.reconnect_min_backoff ≤ℤ x) × (x ≤ℤ full_config.reconnect_max_backoff))
      (run_stream_loop full_config sessions)
run_stream_loop-Between_example =
    run_stream_loop-Between full_config sessions full_config-IsUsable
      (unfold apply_defaults in omega arith)

abbrev calls : List ClientCall
calls = start_call true ∷ start_call true ∷ stop_call ∷ start_call false ∷ start_call true ∷ []

run-IsBalanced_example : IsBalanced (run calls idle)
run-IsBalanced_example = run-IsBalanced calls idle (inl (refl, refl, refl))

stop-dialing_example :
    let leaked = start_dialed true (stop (start_begin idle).0) in
    (stop leaked ≡ leaked)
    × (leaked.started ≡ false)
    × (leaked.live ≡ 0 ∷ [])
    × (leaked.open_conns ≡ 0 ∷ [])
stop-dialing_example = stop-dialing idle refl refl refl

-- A configuration with both queues.
abbrev queued : Config
queued = record bare_config {
  local_buffer_enabled = true;
  local_buffer_disk_spill_enabled = true;
  local_buffer_disk_spill_dir = "/spool";
  local_buffer_disk_spill_max_bytes = pos 25;
}

abbrev client : Client small_os
client =
    with_queues small_os "/tmp" 7 (apply_defaults name_of (some "host") 17 queued)
      (some (new_submit_buffer 1024)) (some (fresh_spool small_os "/spool" (pos 25) 7))

client-made :
    new_client small_os name_of (some "host") 17 "/tmp" 7 queued no_files ≡ inr (client, no_files)
unfolding new_client make_client make_queues with_spool new_submit_spool reload collect reload_files
    sort_files max_seq Spool.evict fresh_spool validate apply_defaults made
client-made = refl
