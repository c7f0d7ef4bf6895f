-- ===== src/Scheduler/Spool/Fifo.antt =====
-- What each call on the disk queue of pkg/scheduler/submit_spool.go does to the queue of tasks.
use compkg.Common.{
  ℕ, ◌+◌, ◌<◌, String, ◌≡◌, refl, sym, ◌∙◌, ◌⊎◌, inl, inr, Bool-cases, Option-cases, Option, none,
  some, List, [], ◌∷◌, ◌++◌, All, ltb, arith,
}
use mathlib.Core.Path.{subst}
use compkg.Common.Int.{ℤ, pos, ◌<ℤ◌, inc64, int64_half}
use compkg.Scheduler.Buffer.{BufferedTask}
use compkg.Scheduler.Disk.{Os, SpoolTask, SpoolFile, SpoolError}
use compkg.Scheduler.Spool.{
  Spool, Outcome, evict, write_if_fits, push_bytes, push, encode, make_task,
}
use compkg.Scheduler.Spool.Queue.{FileLaws, Represents}
use compkg.Scheduler.Spool.Refines.{Kept, evict-Kept, write_task-Written}

-- A push drops some of the oldest tasks; then it appends its task, or reports an error.
pub record Puts (os : Os) (t : BufferedTask) (seq : ℤ) (error : Option SpoolError)
    (ts after : List SpoolTask) : Type 0 where
  pub dropped : List SpoolTask
  pub kept : List SpoolTask
  pub split : ts ≡ dropped ++ kept
  pub effect :
      ((error ≡ none) × ((n : ℕ) × (after ≡ kept ++ make_task os seq t n ∷ [])))
      ⊎ ((e : SpoolError) × ((error ≡ some e) × (after ≡ kept)))

module _ (os : Os) (laws : FileLaws os) (dir : String) where
  open os use {Disk, FilePath, Bytes, remove}

  -- The spool and the disk hold the tasks; the next sequence number is n.
  pub record Queues (s : Spool os) (disk : Disk) (ts : List SpoolTask) (n : ℕ) : Type 0 where
    pub same_dir : s.dir ≡ dir
    pub represents : Represents os dir disk s.files ts
    pub below : All (λ g. g.seq <ℤ pos n) s.files
    pub next : s.next_seq ≡ pos n

  pub record Pushes (t : BufferedTask) (n : ℕ) (ts : List SpoolTask) (r : Outcome os) : Type 0 where
    pub after : List SpoolTask
    pub queues : Queues r.0 r.1 after (n + 1)
    pub puts : Puts os t (pos n) r.2 ts after

  pub below_more :
      (n : ℕ) (fs : List (SpoolFile FilePath))
      → All (λ g. g.seq <ℤ pos n) fs
      → All (λ g. g.seq <ℤ pos (n + 1)) fs
  below_more n [] h = tt
  below_more n (f ∷ fs) (h, hs) = (omega arith, below_more n fs hs)

  encode-decodes :
      (seq : ℤ) (t : BufferedTask) (b : Bytes)
      → encode os seq t ≡ some b
      → (n : ℕ) × (os.unmarshal b ≡ some (make_task os seq t n))
  unfolding encode
  encode-decodes seq t b h = elim (Option-cases (os.marshal (make_task os seq t 0))) [
    | inl e ↦ cc (rw (e, encode) at h)
    | inr (first, e) ↦ (
      os.size first,
      laws.unmarshal-marshal (make_task os seq t (os.size first)) b (rw (e, encode) at h),
    )
  ]

  -- The spool as the push has it, with the next sequence number taken.
  abbrev taken : Spool os → Spool os
  taken s = record s { next_seq = inc64 s.next_seq }

  next_taken :
      (n : ℕ) (s : Spool os)
      → s.next_seq ≡ pos n
      → n + 1 < int64_half
      → (taken s).next_seq ≡ pos (n + 1)
  next_taken n s e h = rw e (ground arith)

  refused :
      (t : BufferedTask) (n : ℕ) (s : Spool os) (disk : Disk) (ts : List SpoolTask) (e : SpoolError)
      → Queues s disk ts n
      → n + 1 < int64_half
      → Pushes t n ts (taken s, disk, some e)
  refused t n s disk ts e q h = record {
    after = ts;
    queues = record {
      same_dir = q.same_dir;
      represents = q.represents;
      below = below_more n s.files q.below;
      next = next_taken n s q.next h;
    };
    puts = record { dropped = []; kept = ts; split = refl; effect = inr (e, (refl, refl)) };
  }

  write_if_fits-Pushes :
      (t : BufferedTask) (n size : ℕ) (b : Bytes) (s : Spool os) (ts : List SpoolTask)
      (r : Outcome os)
      → os.unmarshal b ≡ some (make_task os (pos n) t size)
      → s.dir ≡ dir
      → s.next_seq ≡ pos (n + 1)
      → All (λ g. g.seq <ℤ pos n) s.files
      → Kept os laws dir s ts r
      → Pushes t n ts (write_if_fits os (pos n) b r)
  unfolding write_if_fits make_task
  write_if_fits-Pushes t n size b s ts (s1, disk, some e) decoded same next below k = record {
    after = k.kept;
    queues = record {
      same_dir = k.same_dir ∙ same;
      represents = k.represents;
      below = below_more n s1.files (k.below (pos n) below);
      next = k.same_seq ∙ next;
    };
    puts = record {
      dropped = k.dropped;
      kept = k.kept;
      split = k.split;
      effect = inr (e, (refl, refl));
    };
  }
  write_if_fits-Pushes t n size b s ts (s1, disk, none) decoded same next below k =
      elim (Bool-cases (ltb s1.max_bytes (s1.current_bytes + os.size b))) [
        | inl over ↦ rw over (record {
          after = k.kept;
          queues = record {
            same_dir = k.same_dir ∙ same;
            represents = k.represents;
            below = below_more n s1.files (k.below (pos n) below);
            next = k.same_seq ∙ next;
          };
          puts = record {
            dropped = k.dropped;
            kept = k.kept;
            split = k.split;
            effect = inr (_, (refl, refl));
          };
        })
        | inr fits ↦
            let w =
              write_task-Written os laws dir (pos n) b (make_task os (pos n) t size) s1 k.kept disk
                (k.same_dir ∙ same) decoded refl (k.below (pos n) below) k.represents in
            rw fits (record {
              after = w.after;
              queues = record {
                same_dir = w.same_dir ∙ k.same_dir ∙ same;
                represents = w.represents;
                below =
                    w.below (pos (n + 1)) (omega arith)
                      (below_more n s1.files (k.below (pos n) below));
                next = w.same_seq ∙ k.same_seq ∙ next;
              };
              puts = record {
                dropped = k.dropped;
                kept = k.kept;
                split = k.split;
                effect = elim w.effect [ inl (ok, e) ↦ inl (ok, (size, e)) | inr bad ↦ inr bad ];
              };
            })
      ]

  push_bytes-Pushes :
      (t : BufferedTask) (n size : ℕ) (b : Bytes) (s : Spool os) (disk : Disk) (ts : List SpoolTask)
      → Queues s disk ts n
      → n + 1 < int64_half
      → os.unmarshal b ≡ some (make_task os (pos n) t size)
      → Pushes t n ts (push_bytes os (pos n) b (taken s) disk)
  unfolding push_bytes
  push_bytes-Pushes t n size b s disk ts q h decoded =
      elim (Bool-cases (ltb s.max_bytes (os.size b))) [
        | inl large ↦ rw large (refused t n s disk ts _ q h)
        | inr small ↦ rw small (
            write_if_fits-Pushes t n size b (taken s) ts
              (evict os (os.size b) s.files s.current_bytes (taken s) disk) decoded q.same_dir
              (next_taken n s q.next h) q.below
              (evict-Kept os laws dir (os.size b) s.files ts s.current_bytes (taken s) disk
                q.represents))
      ]

  pub push-Pushes :
      (t : BufferedTask) (n : ℕ) (s : Spool os) (disk : Disk) (ts : List SpoolTask)
      → Queues s disk ts n
      → n + 1 < int64_half
      → Pushes t n ts (push os t s disk)
  unfolding push
  push-Pushes t n s disk ts q h = elim (Option-cases (encode os s.next_seq t)) [
    | inl bad ↦ rw (bad, push) (refused t n s disk ts _ q h)
    | inr (b, good) ↦
        let (size, decoded) = encode-decodes s.next_seq t b good in
        let decoded' : os.unmarshal b ≡ some (make_task os (pos n) t size) =
          subst (λ k. os.unmarshal b ≡ some (make_task os k t size)) q.next decoded in
        rw (good, push)
          (subst (λ k. Pushes t n ts (push_bytes os k b (taken s) disk)) (sym q.next)
            (push_bytes-Pushes t n size b s disk ts q h decoded'))
  ]
