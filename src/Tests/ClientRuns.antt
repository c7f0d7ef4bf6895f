-- ===== src/Tests/ClientRuns.antt =====
-- Runs of the client (pkg/scheduler): a round of the retry loop, the executor and the configuration.
use compkg.Common.{
  ◌≤◌, ℕ, ◌+◌, ◌≡◌, refl, String, true, false, some, none, List, [], ◌∷◌, length, arith,
}
use compkg.Common.Int.{pos}
use compkg.Common.Dict.{empty, store}
use compkg.Scheduler.Config.{Config}
use compkg.Scheduler.Buffer.{SubmitBuffer, batch_size, len}
use compkg.Scheduler.Submit.{Client, Happening, enqueues, wakes, flush_buffer_once}
use compkg.Scheduler.Submit.Kept.{Kept}
use compkg.Scheduler.Submit.Loop.{run_retry_loop-Kept}
use compkg.Scheduler.Submit.Flush.{Flushed, flush_buffer_once-Flushed}
use compkg.Scheduler.Executor.{
  Executor, Running, Dispatch, Event, next, crashes, dispatched, sender_ran, returns, ack,
  no_reason, inflight_full, step, run, on_dispatch, take_slot, send_or_drop, transmit, take_running,
  finish, end_run, end_session, current_inflight,
}
use compkg.Scheduler.Executor.Slots.{held, run_counts}
use compkg.Scheduler.Executor.Closed.{finish-end_session}
use compkg.Tests.World.{small_os, flaky, task_named}

abbrev waiting : SubmitBuffer
waiting = record {
  cap = 4;
  queue = task_named "a" ∷ task_named "b" ∷ task_named "c" ∷ [];
  notify = false;
}

abbrev client : Client small_os flaky
client = record {
  app_name = "app";
  app_key = "key";
  app_secret = "secret";
  connected = true;
  local_buffer_enabled = true;
  retry_batch = pos 32;
  local_buffer = some waiting;
  local_spool = none;
  disk = λ p. none;
  world = 0;
}

flush_buffer_once-Flushed_example :
    Flushed small_os flaky
      (batch_size (pos 32) (len waiting))
      (task_named "d" ∷ [])
      waiting
      client
      (flush_buffer_once small_os flaky (task_named "d" ∷ []) waiting client)
flush_buffer_once-Flushed_example =
    flush_buffer_once-Flushed small_os flaky (task_named "d" ∷ []) waiting client refl
      (unfold len in omega arith)

-- Two callers while the loop runs: one hands a task over during a round, the other one between two.
abbrev happenings : List Happening
happenings = wakes (task_named "d" ∷ []) ∷ enqueues (task_named "e").opts 7 ∷ wakes [] ∷ []

run_retry_loop-Kept_example : Kept small_os flaky happenings waiting client
run_retry_loop-Kept_example =
    run_retry_loop-Kept small_os flaky happenings waiting client refl (unfold len in omega arith)

abbrev pub idle : Executor
idle = record {
  max_concurrency = 1;
  handlers = λ job. some 0;
  sem = 0;
  holding = false;
  cancels = empty;
  running = [];
  next_gid = 0;
  session = record { queued = []; transmitted = []; done = false; closed = false };
}

abbrev pub job : String → Dispatch
job id = record { run_id = id; job_name = "job"; timeout_sec = 0 }

-- Two dispatches for one slot: the second one is refused.
abbrev events : List Event
events = dispatched true (job "r1") ∷ dispatched true (job "r2") ∷ sender_ran ∷ []

abbrev busy : Executor
busy = record {
  max_concurrency = 1;
  handlers = λ job. some 0;
  sem = 1;
  holding = false;
  cancels = store "r1" 0 empty;
  running = record { gid = 0; run_id = "r1"; cancelled = false } ∷ [];
  next_gid = 1;
  session = record {
    queued = ack "r2" false inflight_full ∷ [];
    transmitted = ack "r1" true no_reason ∷ [];
    done = false;
    closed = false;
  };
}

events-run : run events idle ≡ next busy
unfolding run step on_dispatch take_slot send_or_drop transmit
events-run = refl

run_counts_example :
    (busy.sem ≡ length busy.running + held busy.holding)
    × (current_inflight busy ≡ length busy.running + held busy.holding)
    × (length busy.running + held busy.holding ≤ busy.max_concurrency)
run_counts_example = run_counts events idle refl refl refl events-run

abbrev first_run : Running
first_run = record { gid = 0; run_id = "r1"; cancelled = false }

finish-end_session_example :
    (finish true 0 (returns "out" none) 5 6 (end_session busy) ≡ crashes)
    × (finish false 0 (returns "out" none) 5 6 (end_session busy)
        ≡ next (end_run first_run [] (end_session busy) (end_session busy).session))
unfolding take_running
finish-end_session_example =
    finish-end_session 0 (returns "out" none) 5 6 busy {r = first_run} {others = []} refl

abbrev pub bare_config : Config
bare_config = record {
  endpoint = "scheduler:9090";
  app_name = "app";
  app_key = "key";
  app_secret = "secret";
  worker_id = "";
  instance_id = "";
  ip = "";
  sdk_version = "";
  max_concurrency = pos 0;
  dial_timeout = pos 0;
  heartbeat_interval = pos 0;
  reconnect_min_backoff = pos 0;
  reconnect_max_backoff = pos 0;
  submit_timeout = pos 0;
  max_recv_msg_size_mb = pos 0;
  max_send_msg_size_mb = pos 0;
  local_buffer_enabled = false;
  local_buffer_capacity = pos 0;
  local_buffer_retry_interval = pos 0;
  local_buffer_retry_batch = pos 0;
  local_buffer_disk_spill_enabled = false;
  local_buffer_disk_spill_dir = "";
  local_buffer_disk_spill_max_bytes = pos 0;
}

abbrev pub name_of : String → String → ℕ → String
name_of app instance_id pid = app
