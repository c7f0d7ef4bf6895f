-- ===== src/Scheduler/Lifecycle.antt =====
-- The client of pkg/scheduler/client.go: New, RegisterHandler, lookupHandler, Start and Stop. A
-- handler, a connection and a context are known by numbers. Start dials without its lock, so it is two
-- steps, with whatever other goroutines do between them. The goroutines that a Start begins, the
-- stream loop and the retry loop, run until their context is cancelled.
pub mod Made
pub mod Balance
use compkg.Common.{
  ℕ, ◌+◌, String, Bool, true, false, not, ◌⊎◌, inl, inr, Option, none, some, List, [], ◌∷◌, ◌++◌,
  ◌==◌, str_eq, if◌then◌else◌,
}
use compkg.Common.Int.{ℤ, pos_part}
use compkg.Common.Dict.{Dict, empty, store}
use compkg.Scheduler.Buffer.{SubmitBuffer, new_submit_buffer}
use compkg.Scheduler.Config.{Config, ConfigError, apply_defaults, validate}
use compkg.Scheduler.Disk.{Os, SpoolError}
use compkg.Scheduler.Spool.{Spool}
use compkg.Scheduler.Spool.Reload.{new_submit_spool}

-- `conn` and `root` are the client's own handles; `open_conns` are the connections that are open and
-- `live` the contexts that are not cancelled.
pub record Running : Type 0 where
  pub started : Bool
  pub conn : Option ℕ
  pub root : Option ℕ
  pub open_conns : List ℕ
  pub live : List ℕ
  pub next_id : ℕ

abbrev pub idle : Running
idle = record { started = false; conn = none; root = none; open_conns = []; live = []; next_id = 0 }

abbrev pub without : ℕ → List ℕ → List ℕ
without n [] = []
without n (m ∷ ms) = let rest = without n ms in if m == n then rest else m ∷ rest

abbrev pub without_handle : Option ℕ → List ℕ → List ℕ
without_handle none ms = ms
without_handle (some n) ms = without n ms

pub data StartResult : Type 0 where
  already_started dials : StartResult

-- Start up to its dial.
unfoldable pub start_begin : Running → Running × StartResult
start_begin x = if x.started then (x, already_started) else (record x { started = true }, dials)

-- Start after its dial, which succeeded or not.
unfoldable pub start_dialed : Bool → Running → Running
start_dialed true x = record x {
  conn = some x.next_id;
  root = some x.next_id;
  open_conns = x.open_conns ++ x.next_id ∷ [];
  live = x.live ++ x.next_id ∷ [];
  next_id = x.next_id + 1;
}
start_dialed false x = record x { started = false }

-- A Start that nothing comes between.
unfoldable pub start : Bool → Running → Running
start dialed x =
    let (x', result) = start_begin x in
    elim result [ already_started ↦ x' | dials ↦ start_dialed dialed x' ]

-- What Stop waits for between its steps changes nothing of the client.
unfoldable pub stop : Running → Running
stop x = if not x.started then x else record x {
  started = false;
  open_conns = without_handle x.conn x.open_conns;
  live = without_handle x.root x.live;
}

pub data ClientCall : Type 0 where
  start_call : Bool → ClientCall
  stop_call : ClientCall

unfoldable pub call : ClientCall → Running → Running
call (start_call dialed) x = start dialed x
call stop_call x = stop x

unfoldable pub run : List ClientCall → Running → Running
run [] x = x
run (c ∷ calls) x = run calls (call c x)

module _ (os : Os) where
  pub record Client : Type 0 where
    pub cfg : Config
    pub handlers : Dict ℕ
    pub local_buffer : Option SubmitBuffer
    pub local_spool : Option (Spool os)
    pub running : Running

  pub data NewError : Type 0 where
    invalid : ConfigError → NewError
    spool_error : SpoolError → NewError

  -- `New` with its configuration completed; `temp` and `now` are for the disk queue.
  unfoldable pub with_queues :
      String → ℕ → Config → Option SubmitBuffer → Option (Spool os) → Client
  with_queues temp now cfg b s = record {
    cfg = cfg;
    handlers = empty;
    local_buffer = b;
    local_spool = s;
    running = idle;
  }

  unfoldable pub with_spool :
      String → ℕ → Config → SpoolError ⊎ Spool os × os.Disk → os.Disk → NewError ⊎ Client × os.Disk
  with_spool temp now cfg (inl e) disk = inl (spool_error e)
  with_spool temp now cfg (inr (s, disk')) disk =
      let b = new_submit_buffer (pos_part cfg.local_buffer_capacity) in
      inr (with_queues temp now cfg (some b) (some s), disk')

  -- The two flags are LocalBufferEnabled and LocalBufferDiskSpillEnabled.
  unfoldable pub make_queues :
      Bool → Bool → String → ℕ → Config → os.Disk → NewError ⊎ Client × os.Disk
  unfolding with_spool with_queues
  make_queues false spill temp now cfg disk = inr (with_queues temp now cfg none none, disk)
  make_queues true false temp now cfg disk =
      let b = new_submit_buffer (pos_part cfg.local_buffer_capacity) in
      inr (with_queues temp now cfg (some b) none, disk)
  make_queues true true temp now cfg disk =
      let dir = cfg.local_buffer_disk_spill_dir in
      let max = cfg.local_buffer_disk_spill_max_bytes in
      with_spool temp now cfg (new_submit_spool os temp dir max now disk) disk

  unfoldable pub make_client : String → ℕ → Config → os.Disk → NewError ⊎ Client × os.Disk
  make_client temp now cfg disk =
      make_queues cfg.local_buffer_enabled cfg.local_buffer_disk_spill_enabled temp now cfg disk

  unfoldable pub new_client :
      (String → String → ℕ → String)
      → Option String
      → ℕ
      → String
      → ℕ
      → Config
      → os.Disk
      → NewError ⊎ Client × os.Disk
  unfolding make_client
  new_client worker_name host pid temp now c disk =
      let cfg = apply_defaults worker_name host pid c in
      elim (validate cfg) [ some e ↦ inl (invalid e) | none ↦ make_client temp now cfg disk ]

  -- RegisterHandler; none is its panic on an empty name or a nil handler.
  unfoldable pub register_handler : String → Option ℕ → Client → Option Client
  register_handler job_name none c = none
  register_handler job_name (some h) c =
      if str_eq job_name ""
      then none
      else some (record c { handlers = store job_name h c.handlers })

  unfoldable pub lookup_handler : String → Client → Option ℕ
  lookup_handler job_name c = c.handlers job_name
