-- ===== src/Tests/World.antt =====
-- A small file system and a small server, for runs of the scheduler client (pkg/scheduler).
use compkg.Common.{ℕ, suc, inl, inr, String, true, Option, some, none, [], ◌==◌, if◌then◌else◌}
use compkg.Common.Int.{ℤ, pos, eq_ℤ}
use compkg.Scheduler.Buffer.{SubmitOptions, BufferedTask}
use compkg.Scheduler.Disk.{Os, RemoveResult, SpoolTask}
use compkg.Scheduler.Submit.{Server, Code}

-- A file is found by its sequence number and holds a task; every task takes ten bytes.
abbrev pub small_os : Os
small_os = record {
  Disk = ℤ → Option SpoolTask;
  FilePath = ℤ;
  Bytes = SpoolTask;
  size = λ t. 10;
  marshal = λ t. some t;
  unmarshal = λ t. some t;
  final_path = λ dir seq. seq;
  tmp_path = λ p. p;
  remove = λ p disk. (λ q. if eq_ℤ p q then none else disk q, RemoveResult.removed);
  write_file = λ p t disk. (λ q. if eq_ℤ p q then some t else disk q, true);
  rename = λ p q disk. (disk, true);
  mkdir_all = λ dir disk. (disk, true);
  read_file = λ p disk. disk p;
  read_dir = λ dir disk. some [];
}

-- The first call is answered, the second one meets a server that is away, and so on in turn.
abbrev pub flaky : Server
flaky = record {
  World = ℕ;
  new_signed_creds = λ key secret w. record { nonce = "n"; ts = w; signature = "s" };
  submit = λ req w. (suc w, if w == 1 then inl (some Code.unavailable) else inr ("run", true));
}

abbrev pub opts_named : String → SubmitOptions
opts_named name = record {
  job_name = name;
  biz_key = "";
  payload = [];
  dedupe_window_sec = pos 0;
  trace_id = "";
  span_id = "";
}

abbrev pub task_named : String → BufferedTask
task_named name = record { opts = opts_named name; enqueued_at = 0; attempts = 0 }
