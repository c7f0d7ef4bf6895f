-- ===== src/Scheduler/Lifecycle/Made.antt =====
-- What New of pkg/scheduler/client.go makes.
use compkg.Common.{
  ℕ, ◌≤◌, ◌≡◌, refl, ap, sym, ◌∙◌, ◌⊎◌, inl, inr, Bool, true, false, Option-cases, Sum-cases,
  Option, none, some, List, [], String, arith,
}
use mathlib.Core.Path.{subst}
use compkg.Common.Int.{ℤ, pos, pos_part, ◌<ℤ◌}
use compkg.Scheduler.Buffer.{SubmitBuffer, new_submit_buffer}
use compkg.Scheduler.Config.{Config, IsUsable, validate, apply_defaults, validate-apply_defaults}
use compkg.Scheduler.Disk.{Os, limit_of}
use compkg.Scheduler.Spool.{Spool, Call, run, bytes}
use compkg.Scheduler.Spool.Reload.{new_submit_spool}
use compkg.Scheduler.Spool.Limit.{spool_limit}
use compkg.Scheduler.Lifecycle.{
  Client, new_client, make_client, make_queues, with_spool, with_queues, idle,
}

some_inj : {A : Type 0} {x y : A} → some x ≡ some y → x ≡ y
some_inj e = cc e

inr_inj : {A B : Type 0} {x y : B} → Path (A ⊎ B) (inr x) (inr y) → x ≡ y
inr_inj e = cc e

module _ (os : Os) where
  -- What holds of the queues of a client that was made.
  pub record IsReady (c : Client os) (disk : os.Disk) : Type 0 where
    pub idle_still : c.running ≡ idle
    pub buffered :
        (b : SubmitBuffer)
        → c.local_buffer ≡ some b
        → (b.queue ≡ []) × (pos b.cap ≡ c.cfg.local_buffer_capacity)
    pub bounded :
        (s : Spool os)
        → c.local_spool ≡ some s
        → (calls : List Call)
        → bytes os (run os calls s disk).0 ≤ limit_of c.cfg.local_buffer_disk_spill_max_bytes

  positive-pos : (x : ℤ) → pos 0 <ℤ x → pos (pos_part x) ≡ x
  positive-pos (pos n) h = refl
  positive-pos x h = absurd (omega arith)

  -- The two queues of a client under construction, as they are when it is returned.
  record AreReady (cfg : Config) (b : Option SubmitBuffer) (s : Option (Spool os)) (disk : os.Disk)
      : Type 0 where
    pub buffered :
        (q : SubmitBuffer) → b ≡ some q → (q.queue ≡ []) × (pos q.cap ≡ cfg.local_buffer_capacity)
    pub bounded :
        (p : Spool os)
        → s ≡ some p
        → (calls : List Call)
        → bytes os (run os calls p disk).0 ≤ limit_of cfg.local_buffer_disk_spill_max_bytes

  with_queues-IsReady :
      (temp : String) (now : ℕ) (cfg : Config) (b : Option SubmitBuffer) (s : Option (Spool os))
      (disk : os.Disk)
      → AreReady cfg b s disk
      → IsReady (with_queues os temp now cfg b s) disk
  unfolding with_queues
  with_queues-IsReady temp now cfg b s disk r = record {
    idle_still = refl;
    buffered = r.buffered;
    bounded = r.bounded;
  }

  new_buffer-ready :
      (cfg : Config) (q : SubmitBuffer)
      → IsUsable cfg
      → some (new_submit_buffer (pos_part cfg.local_buffer_capacity)) ≡ some q
      → (q.queue ≡ []) × (pos q.cap ≡ cfg.local_buffer_capacity)
  unfolding new_submit_buffer
  new_buffer-ready cfg q u e =
      let same = some_inj e in
      (
        sym (ap (λ x. x.queue) same),
        sym (ap (λ x. pos x.cap) same) ∙ positive-pos cfg.local_buffer_capacity u.capacity,
      )

  new_spool-ready :
      (temp : String) (now : ℕ) (cfg : Config) (disk disk' : os.Disk) (s p : Spool os)
      → new_submit_spool os temp cfg.local_buffer_disk_spill_dir
          cfg.local_buffer_disk_spill_max_bytes now disk
        ≡ inr (s, disk')
      → some s ≡ some p
      → (calls : List Call)
      → bytes os (run os calls p disk').0 ≤ limit_of cfg.local_buffer_disk_spill_max_bytes
  new_spool-ready temp now cfg disk disk' s p made e calls =
      let limit =
        spool_limit os temp cfg.local_buffer_disk_spill_dir cfg.local_buffer_disk_spill_max_bytes
          now disk calls made in
      subst
        (λ x. bytes os (run os calls x disk').0 ≤ limit_of cfg.local_buffer_disk_spill_max_bytes)
        (some_inj e) limit.1

  abbrev IsReadyPair : Config → Client os × os.Disk → Type 0
  IsReadyPair cfg r = IsReady r.0 r.1 × (r.0.cfg ≡ cfg)

  make_queues-IsReady :
      (enabled spill : Bool) (temp : String) (now : ℕ) (cfg : Config) (disk : os.Disk)
      {r : Client os × os.Disk}
      → IsUsable cfg
      → make_queues os enabled spill temp now cfg disk ≡ inr r
      → IsReadyPair cfg r
  unfolding make_queues with_queues with_spool
  make_queues-IsReady false spill temp now cfg disk u h = subst (IsReadyPair cfg) (inr_inj h) (
    with_queues-IsReady temp now cfg none none disk
        (record { buffered = λ q e. cc e; bounded = λ p e. cc e }),
    refl,
  )
  make_queues-IsReady true false temp now cfg disk u h =
      let b = new_submit_buffer (pos_part cfg.local_buffer_capacity) in
      subst (IsReadyPair cfg) (inr_inj h) (
        with_queues-IsReady temp now cfg (some b) none disk
            (record { buffered = λ q. new_buffer-ready cfg q u; bounded = λ p e. cc e }),
        refl,
      )
  make_queues-IsReady true true temp now cfg disk u h =
      let b = new_submit_buffer (pos_part cfg.local_buffer_capacity) in
      let dir = cfg.local_buffer_disk_spill_dir in
      let max = cfg.local_buffer_disk_spill_max_bytes in
      elim (Sum-cases (new_submit_spool os temp dir max now disk)) [
        | inl (e, bad) ↦ cc (rw (bad, with_spool) at h)
        | inr ((s, disk'), made) ↦ subst (IsReadyPair cfg) (inr_inj (rw (made, with_spool) at h)) (
          with_queues-IsReady temp now cfg (some b) (some s) disk' (record {
            buffered = λ q e. new_buffer-ready cfg q u e;
            bounded = λ p e. new_spool-ready temp now cfg disk disk' s p made e;
          }),
          refl,
        )
      ]

  -- A client that New makes has a usable configuration, nothing running, an empty memory queue of the
  -- configured capacity if it has one, and a disk queue, if it has one, that stays within the
  -- configured limit over any pushes and acknowledgements.
  new_client-IsReady :
      (worker_name : String → String → ℕ → String) (host : Option String) (pid : ℕ) (temp : String)
      (now : ℕ) (cfg : Config) (disk : os.Disk) {c : Client os} {disk' : os.Disk}
      → new_client os worker_name host pid temp now cfg disk ≡ inr (c, disk')
      → IsUsable c.cfg × IsReady c disk'
  unfolding new_client make_client
  new_client-IsReady worker_name host pid temp now cfg disk {c} {disk'} h =
      let completed = apply_defaults worker_name host pid cfg in
      elim (Option-cases (validate completed)) [
        | inr (e, bad) ↦ cc (rw (bad, new_client) at h)
        | inl ok ↦
            let usable = validate-apply_defaults worker_name host pid cfg ok in
            let (ready, same) =
              make_queues-IsReady completed.local_buffer_enabled
                completed.local_buffer_disk_spill_enabled temp now completed disk usable
                (rw (ok, new_client) at h) in
            (subst IsUsable (sym same) usable, ready)
      ]
