-- ===== src/Scheduler/Spool/Size.antt =====
-- The size limit of the disk queue of pkg/scheduler/submit_spool.go.
use compkg.Common.{
  ℕ, ◌+◌, ◌-◌, ◌≤◌, ◌<◌, ◌≡◌, ◌≢◌, ◌↔◌, refl, ap, ◌∙◌, ◌⊎◌, inl, inr, true, false, Bool-cases,
  Option-cases, none, some, List, [], ◌∷◌, ◌++◌, ltb, arith,
}
use compkg.Common.Int.{ℤ, inc64}
use compkg.Scheduler.Buffer.{BufferedTask}
use compkg.Scheduler.Disk.{Os, RemoveResult, SpoolFile, SpoolError, SubmitSpool, total_size}
use compkg.Scheduler.Spool.{
  Spool, Outcome, evict, push, push_bytes, write_task, write_if_fits, encode,
}

-- The bytes are those of the files, and within the limit.
pub record IsSized {Place : Type 0} (s : SubmitSpool Place) : Type 0 where
  pub counted : s.current_bytes ≡ total_size s.files
  pub within : s.current_bytes ≤ s.max_bytes

total_size-append :
    {Place : Type 0} (xs ys : List (SpoolFile Place))
    → total_size (xs ++ ys) ≡ total_size xs + total_size ys
total_size-append [] ys = omega arith
total_size-append (x ∷ xs) ys = omega (arith, total_size-append xs ys)

pub RemoveResult-cases :
    (r : RemoveResult)
    → (r ≡ RemoveResult.removed) ⊎ ((r ≡ RemoveResult.not_exist) ⊎ (r ≡ RemoveResult.failed))
RemoveResult-cases RemoveResult.removed = inl refl
RemoveResult-cases RemoveResult.not_exist = inr (inl refl)
RemoveResult-cases RemoveResult.failed = inr (inr refl)

module _ (os : Os) where
  open os use {Disk, FilePath, Bytes, remove}

  -- What an eviction leaves: fewer bytes, still counted, and room unless a file stayed.
  pub record Evicted (size bytes : ℕ) (s : Spool os) (r : Outcome os) : Type 0 where
    pub counted : r.0.current_bytes ≡ total_size r.0.files
    pub fewer : r.0.current_bytes ≤ bytes
    pub same_max : r.0.max_bytes ≡ s.max_bytes
    pub room : r.2 ≡ none → (r.0.current_bytes + size ≤ s.max_bytes) ⊎ (r.0.current_bytes ≡ 0)
    pub only_evict : (r.2 ≡ none) ⊎ (r.2 ≡ some SpoolError.evict_failed)

  widen :
      {size bytes more : ℕ} {s : Spool os} {r : Outcome os}
      → bytes ≤ more
      → Evicted size bytes s r
      → Evicted size more s r
  widen h v = record {
    counted = v.counted;
    fewer = omega arith;
    same_max = v.same_max;
    room = v.room;
    only_evict = v.only_evict;
  }

  pub evict-Evicted :
      (size : ℕ) (files : List (SpoolFile FilePath)) (bytes : ℕ) (s : Spool os) (disk : Disk)
      → bytes ≡ total_size files
      → Evicted size bytes s (evict os size files bytes s disk)
  unfolding evict
  evict-Evicted size [] bytes s disk h = record {
    counted = h;
    fewer = omega arith;
    same_max = refl;
    room = λ e. inr h;
    only_evict = inl refl;
  }
  evict-Evicted size (oldest ∷ files) bytes s disk h =
      let (disk', result) = remove oldest.path disk in
      let rest = evict-Evicted size files (bytes - oldest.size) s disk' (omega arith) in
      elim (Bool-cases (ltb s.max_bytes (bytes + size))) [
        | inr fits ↦ rw fits (record {
          counted = h;
          fewer = omega arith;
          same_max = refl;
          room = λ e. inl (ground arith);
          only_evict = inl refl;
        })
        | inl over ↦ elim (RemoveResult-cases result) [
          | inl gone ↦ rw (over, gone) (widen (omega arith) rest)
          | inr (inl never) ↦ rw (over, never) (widen (omega arith) rest)
          | inr (inr bad) ↦
              rw (over, bad)
                (record {
                  counted = h;
                  fewer = omega arith;
                  same_max = refl;
                  room = λ e. cc;
                  only_evict = inr refl;
                })
        ]
      ]

  write_task-IsSized :
      (seq : ℤ) (bytes : Bytes) (s : Spool os) (disk : Disk)
      → IsSized s
      → s.current_bytes + os.size bytes ≤ s.max_bytes
      → IsSized (write_task os seq bytes s disk).0
  unfolding write_task
  write_task-IsSized seq bytes s disk h room =
      let path = os.final_path s.dir seq in
      let added : SpoolFile FilePath = record { seq = seq; path = path; size = os.size bytes } in
      let sum = total_size-append s.files (added ∷ []) in
      let (disk', written) = os.write_file (os.tmp_path path) bytes disk in
      let (disk'', renamed) = os.rename (os.tmp_path path) path disk' in
      elim (Bool-cases written) [
        | inr no_file ↦ rw no_file h
        | inl done ↦ rw done (elim (Bool-cases renamed) [
          | inr stuck ↦ rw stuck h
          | inl moved ↦ rw moved (record { counted = omega arith; within = room })
        ])
      ]

  -- What a push of marshalled bytes leaves; it is refused for want of space only if the bytes alone
  -- are over the limit.
  record Pushed (bytes : Bytes) (s : Spool os) (r : Outcome os) : Type 0 where
    sized : IsSized r.0
    full : r.2 ≡ some SpoolError.spill_full → s.max_bytes < os.size bytes
    pub same_max : r.0.max_bytes ≡ s.max_bytes

  write_task-max :
      (seq : ℤ) (bytes : Bytes) (s : Spool os) (disk : Disk)
      → ((write_task os seq bytes s disk).0.max_bytes ≡ s.max_bytes)
        × ((write_task os seq bytes s disk).2 ≢ some SpoolError.spill_full)
  unfolding write_task
  write_task-max seq bytes s disk = ground arith

  write_if_fits-Pushed :
      (seq : ℤ) (bytes : Bytes) (s : Spool os) (r : Outcome os)
      → os.size bytes ≤ s.max_bytes
      → Evicted (os.size bytes) s.current_bytes s r
      → s.current_bytes ≤ s.max_bytes
      → Pushed bytes s (write_if_fits os seq bytes r)
  unfolding write_if_fits
  write_if_fits-Pushed seq bytes s (s', disk, some e) small v h = record {
    sized = record { counted = v.counted; within = omega (arith, v.fewer, v.same_max) };
    full = λ e. ground (arith, v.only_evict);
    same_max = v.same_max;
  }
  write_if_fits-Pushed seq bytes s (s', disk, none) small v h =
      let room : s'.current_bytes + os.size bytes ≤ s'.max_bytes =
        omega (arith, v.room refl, v.same_max) in
      let fits : ltb s'.max_bytes (s'.current_bytes + os.size bytes) ≡ false = ground arith in
      let (same, never) = write_task-max seq bytes s' disk in
      rw fits (record {
        sized =
            write_task-IsSized seq bytes s' disk
              (record { counted = v.counted; within = omega (arith, v.fewer, v.same_max) }) room;
        full = λ e. absurd (never e);
        same_max = same ∙ v.same_max;
      })

  push_bytes-Pushed :
      (seq : ℤ) (bytes : Bytes) (s : Spool os) (disk : Disk)
      → IsSized s
      → Pushed bytes s (push_bytes os seq bytes s disk)
  unfolding push_bytes
  push_bytes-Pushed seq bytes s disk h = elim (Bool-cases (ltb s.max_bytes (os.size bytes))) [
    | inl large ↦ rw large (record { sized = h; full = λ e. ground arith; same_max = refl })
    | inr small ↦ rw small (
        write_if_fits-Pushed seq bytes s (evict os (os.size bytes) s.files s.current_bytes s disk)
          (ground arith) (evict-Evicted (os.size bytes) s.files s.current_bytes s disk h.counted)
          h.within)
  ]

  push-none :
      (t : BufferedTask) (s : Spool os) (disk : Disk)
      → encode os s.next_seq t ≡ none
      → push os t s disk
        ≡ (record s { next_seq = inc64 s.next_seq }, disk, some SpoolError.marshal_failed)
  unfolding push
  push-none t s disk e = rw (e, push)

  push-some :
      (t : BufferedTask) (s : Spool os) (disk : Disk) (bytes : Bytes)
      → encode os s.next_seq t ≡ some bytes
      → push os t s disk
        ≡ push_bytes os s.next_seq bytes (record s { next_seq = inc64 s.next_seq }) disk
  unfolding push
  push-some t s disk bytes e = rw (e, push)

  pushed :
      (t : BufferedTask) (s : Spool os) (disk : Disk) (bytes : Bytes)
      → encode os s.next_seq t ≡ some bytes
      → IsSized s
      → Pushed bytes s (push os t s disk)
  pushed t s disk bytes e h =
      let s' : Spool os = record s { next_seq = inc64 s.next_seq } in
      let p =
        push_bytes-Pushed s.next_seq bytes s' disk
          (record { counted = h.counted; within = h.within }) in
      rw (push-some t s disk bytes e)
        (record { sized = p.sized; full = p.full; same_max = p.same_max })

  pub push-IsSized :
      (t : BufferedTask) (s : Spool os) (disk : Disk)
      → IsSized s
      → IsSized (push os t s disk).0 × ((push os t s disk).0.max_bytes ≡ s.max_bytes)
  push-IsSized t s disk h = elim (Option-cases (encode os s.next_seq t)) [
    | inl bad ↦
        rw (push-none t s disk bad) (record { counted = h.counted; within = h.within }, refl)
    | inr (bytes, good) ↦ let p = pushed t s disk bytes good h in (p.sized, p.same_max)
  ]

  push_bytes_large :
      (seq : ℤ) (bytes : Bytes) (s : Spool os) (disk : Disk)
      → s.max_bytes < os.size bytes
      → (push_bytes os seq bytes s disk).2 ≡ some SpoolError.spill_full
  unfolding push_bytes
  push_bytes_large seq bytes s disk h =
      let e : ltb s.max_bytes (os.size bytes) ≡ true = ground arith in rw e

  -- A push on a spool within its limit is refused for want of space exactly when the encoded task
  -- alone is over the limit.
  pub push_full :
      (t : BufferedTask) (s : Spool os) (disk : Disk)
      → IsSized s
      → ((push os t s disk).2 ≡ some SpoolError.spill_full)
        ↔ ((bytes : Bytes) × (encode os s.next_seq t ≡ some bytes) × (s.max_bytes < os.size bytes))
  push_full t s disk h = (
    λ full. elim (Option-cases (encode os s.next_seq t)) [
      | inl bad ↦ cc (ap (λ (r : Outcome os). r.2) (push-none t s disk bad))
      | inr (bytes, good) ↦ (bytes, good, (pushed t s disk bytes good h).full full)
    ],
    λ (bytes, good, large).
        rw (push-some t s disk bytes good)
          (push_bytes_large s.next_seq bytes (record s { next_seq = inc64 s.next_seq }) disk large),
  )
