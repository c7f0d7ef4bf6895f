-- ===== src/Scheduler/Config.antt =====
-- pkg/scheduler/config.go. Durations are in nanoseconds; the host name and the process id are
-- arguments, `host` being none where os.Hostname fails.
use compkg.Common.{
  ℕ, ◌*◌, ◌<◌, String, ◌≡◌, Bool, false, Option, none, some, str_eq, if◌then◌else◌, arith,
}
use compkg.Common.Int.{ℤ, pos, negsuc, is_nonpos, ltb_ℤ, ◌≤ℤ◌, ◌<ℤ◌}
use compkg.Scheduler.Disk.{default_max_bytes}

pub record Config : Type 0 where
  pub endpoint : String
  pub app_name : String
  pub app_key : String
  pub app_secret : String
  pub worker_id : String
  pub instance_id : String
  pub ip : String
  pub sdk_version : String
  pub max_concurrency : ℤ
  pub dial_timeout : ℤ
  pub heartbeat_interval : ℤ
  pub reconnect_min_backoff : ℤ
  pub reconnect_max_backoff : ℤ
  pub submit_timeout : ℤ
  pub max_recv_msg_size_mb : ℤ
  pub max_send_msg_size_mb : ℤ
  pub local_buffer_enabled : Bool
  pub local_buffer_capacity : ℤ
  pub local_buffer_retry_interval : ℤ
  pub local_buffer_retry_batch : ℤ
  pub local_buffer_disk_spill_enabled : Bool
  pub local_buffer_disk_spill_dir : String
  pub local_buffer_disk_spill_max_bytes : ℤ

abbrev pub second : ℕ
second = 1000000000

abbrev pub positive_or : ℕ → ℤ → ℤ
positive_or d x = if is_nonpos x then pos d else x

-- `worker_name` is fmt.Sprintf("%s-%s-%d") of the application, the instance and the process.
instance_or : String → Option String → String
instance_or given host =
    if str_eq given "" then (elim host [ none ↦ "unknown" | some h ↦ h ]) else given

unfoldable pub apply_defaults : (String → String → ℕ → String) → Option String → ℕ → Config → Config
unfolding instance_or
apply_defaults worker_name host pid c =
    let instance_id' = instance_or c.instance_id host in
    record c {
      max_concurrency = positive_or 50 c.max_concurrency;
      dial_timeout = positive_or (5 * second) c.dial_timeout;
      heartbeat_interval = positive_or (5 * second) c.heartbeat_interval;
      reconnect_min_backoff = positive_or (1 * second) c.reconnect_min_backoff;
      reconnect_max_backoff = positive_or (30 * second) c.reconnect_max_backoff;
      submit_timeout = positive_or (5 * second) c.submit_timeout;
      max_recv_msg_size_mb = positive_or 4 c.max_recv_msg_size_mb;
      max_send_msg_size_mb = positive_or 4 c.max_send_msg_size_mb;
      local_buffer_capacity = positive_or 1024 c.local_buffer_capacity;
      local_buffer_retry_interval = positive_or (5 * second) c.local_buffer_retry_interval;
      local_buffer_retry_batch = positive_or 32 c.local_buffer_retry_batch;
      local_buffer_disk_spill_max_bytes =
          positive_or default_max_bytes c.local_buffer_disk_spill_max_bytes;
      instance_id = instance_id';
      worker_id =
          if str_eq c.worker_id "" then worker_name c.app_name instance_id' pid else c.worker_id;
    }

pub data ConfigError : Type 0 where
  endpoint_required app_name_required app_key_required app_secret_required backoff_order :
      ConfigError

unfoldable pub validate : Config → Option ConfigError
validate c =
    if str_eq c.endpoint ""
    then some endpoint_required
    else if str_eq c.app_name ""
    then some app_name_required
    else if str_eq c.app_key ""
    then some app_key_required
    else if str_eq c.app_secret ""
    then some app_secret_required
    else if ltb_ℤ c.reconnect_max_backoff c.reconnect_min_backoff
    then some backoff_order
    else none

-- What a client can rely on.
pub record IsUsable (c : Config) : Type 0 where
  pub endpoint : str_eq c.endpoint "" ≡ false
  pub app_name : str_eq c.app_name "" ≡ false
  pub app_key : str_eq c.app_key "" ≡ false
  pub app_secret : str_eq c.app_secret "" ≡ false
  pub concurrency : pos 0 <ℤ c.max_concurrency
  pub min_backoff : pos 0 <ℤ c.reconnect_min_backoff
  pub backoff : c.reconnect_min_backoff ≤ℤ c.reconnect_max_backoff
  pub heartbeat : pos 0 <ℤ c.heartbeat_interval
  pub submit : pos 0 <ℤ c.submit_timeout
  pub capacity : pos 0 <ℤ c.local_buffer_capacity
  pub retry : pos 0 <ℤ c.local_buffer_retry_interval
  pub batch : pos 0 <ℤ c.local_buffer_retry_batch
  pub spill : pos 0 <ℤ c.local_buffer_disk_spill_max_bytes

positive_or_pos : (d : ℕ) (x : ℤ) → 0 < d → pos 0 <ℤ positive_or d x
positive_or_pos d (pos n) h = ground arith
positive_or_pos d (negsuc n) h = omega arith

not_ltb_ℤ : (a b : ℤ) → ltb_ℤ a b ≡ false → b ≤ℤ a
not_ltb_ℤ a b h = ground arith

validate_checks :
    (c : Config)
    → validate c ≡ none
    → (str_eq c.endpoint "" ≡ false)
      × (str_eq c.app_name "" ≡ false)
      × (str_eq c.app_key "" ≡ false)
      × (str_eq c.app_secret "" ≡ false)
      × (ltb_ℤ c.reconnect_max_backoff c.reconnect_min_backoff ≡ false)
unfolding validate
validate_checks c h = ground arith

module _ (worker_name : String → String → ℕ → String) (host : Option String) (pid : ℕ) where
  -- A configuration that passes validation after its defaults were applied has the four required
  -- texts, positive limits, intervals and sizes, and a minimal backoff up to the maximal one.
  pub validate-apply_defaults :
      (c : Config)
      → validate (apply_defaults worker_name host pid c) ≡ none
      → IsUsable (apply_defaults worker_name host pid c)
  unfolding apply_defaults
  validate-apply_defaults c h =
      let (e, n, k, s, order) = validate_checks (apply_defaults worker_name host pid c) h in
      let c' = apply_defaults worker_name host pid c in
      let positive = λ (d : ℕ) (x : ℤ) (p : 0 < d). positive_or_pos d x p in
      record {
        endpoint = e;
        app_name = n;
        app_key = k;
        app_secret = s;
        concurrency = positive 50 c.max_concurrency (omega arith);
        min_backoff = positive (1 * second) c.reconnect_min_backoff (omega arith);
        backoff = not_ltb_ℤ c'.reconnect_max_backoff c'.reconnect_min_backoff order;
        heartbeat = positive (5 * second) c.heartbeat_interval (omega arith);
        submit = positive (5 * second) c.submit_timeout (omega arith);
        capacity = positive 1024 c.local_buffer_capacity (omega arith);
        retry = positive (5 * second) c.local_buffer_retry_interval (omega arith);
        batch = positive 32 c.local_buffer_retry_batch (omega arith);
        spill = positive default_max_bytes c.local_buffer_disk_spill_max_bytes (omega arith);
      }
