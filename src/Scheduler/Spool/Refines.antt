-- ===== src/Scheduler/Spool/Refines.antt =====
-- The disk queue of pkg/scheduler/submit_spool.go implements a queue of tasks.
use compkg.Common.{
  ℕ, ◌+◌, ◌-◌, String, ◌≡◌, refl, sym, ap, ◌∙◌, ◌⊎◌, inl, inr, Bool-cases, Option, none, some, List,
  [], ◌∷◌, ◌++◌, All, ltb,
}
use mathlib.Core.Path.{subst}
use compkg.Common.Int.{ℤ, ◌<ℤ◌}
use compkg.Scheduler.Disk.{Os, SpoolTask, SpoolFile, SpoolError}
use compkg.Scheduler.Spool.{Spool, Outcome, evict, evict_files, write_task}
use compkg.Scheduler.Spool.Size.{RemoveResult-cases}
use compkg.Scheduler.Spool.Queue.{
  FileLaws, Represents, Touches, Represents-touch, Avoids-later, Avoids-below, Represents-append,
  All-append_one, load,
}

module _ (os : Os) (laws : FileLaws os) (dir : String) where
  open os use {Disk, FilePath, Bytes, read_file, final_path, remove}

  pub remove-Touches :
      (k : ℤ) (p : FilePath) (disk : Disk)
      → p ≡ final_path dir k
      → Touches os dir k disk (remove p disk).0
  remove-Touches k p disk e j apart =
      laws.remove_elsewhere p (final_path dir j) disk
        (λ same. apart (laws.final_injective dir j k (same ∙ e)))

  pub Represents-same :
      (disk disk' : Disk) (fs : List (SpoolFile FilePath)) (ts : List SpoolTask)
      → ((p : FilePath) → read_file p disk' ≡ read_file p disk)
      → Represents os dir disk fs ts
      → Represents os dir disk' fs ts
  Represents-same disk disk' [] [] same r = tt
  Represents-same disk disk' (f ∷ fs) (t ∷ ts) same (held, (later, r)) =
      let (path, seq, content) = held in
      (
        (path, seq, rw (same f.path, load) content),
        (later, Represents-same disk disk' fs ts same r),
      )
  Represents-same disk disk' [] (t ∷ ts) same r = absurd r
  Represents-same disk disk' (f ∷ fs) [] same r = absurd r

  -- What an operation that is not refused by the paths leaves: the tasks less some of the oldest.
  pub record Kept (s : Spool os) (ts : List SpoolTask) (r : Outcome os) : Type 0 where
    pub dropped : List SpoolTask
    pub kept : List SpoolTask
    pub split : ts ≡ dropped ++ kept
    pub represents : Represents os dir r.1 r.0.files kept
    pub same_dir : r.0.dir ≡ s.dir
    pub same_seq : r.0.next_seq ≡ s.next_seq
    pub below : (k : ℤ) → All (λ g. g.seq <ℤ k) s.files → All (λ g. g.seq <ℤ k) r.0.files

  all-Kept :
      (s : Spool os) (ts : List SpoolTask) (disk : Disk) (e : Option SpoolError)
      → Represents os dir disk s.files ts
      → Kept s ts (s, disk, e)
  all-Kept s ts disk e r = record {
    dropped = [];
    kept = ts;
    split = refl;
    represents = r;
    same_dir = refl;
    same_seq = refl;
    below = λ k h. h;
  }

  one_dropped :
      (f : SpoolFile FilePath) (fs : List (SpoolFile FilePath)) (t : SpoolTask)
      (ts : List SpoolTask) (bytes fewer : ℕ) (s : Spool os) (r : Outcome os)
      → Kept (evict_files os s fs fewer) ts r
      → Kept (evict_files os s (f ∷ fs) bytes) (t ∷ ts) r
  one_dropped f fs t ts bytes fewer s r k = record {
    dropped = t ∷ k.dropped;
    kept = k.kept;
    split = ap (λ xs. t ∷ xs) k.split;
    represents = k.represents;
    same_dir = k.same_dir;
    same_seq = k.same_seq;
    below = λ n (h, hs). k.below n hs;
  }

  pub evict-Kept :
      (size : ℕ) (fs : List (SpoolFile FilePath)) (ts : List SpoolTask) (bytes : ℕ) (s : Spool os)
      (disk : Disk)
      → Represents os dir disk fs ts
      → Kept (evict_files os s fs bytes) ts (evict os size fs bytes s disk)
  unfolding evict
  evict-Kept size [] [] bytes s disk r = all-Kept (evict_files os s [] bytes) [] disk none r
  evict-Kept size (f ∷ fs) (t ∷ ts) bytes s disk (held, (later, r)) =
      let (disk', result) = remove f.path disk in
      let kept =
        Represents-touch os dir f.seq disk disk' fs ts (remove-Touches f.seq f.path disk held.0)
          (Avoids-later os dir f.seq fs later) r in
      let rest = evict-Kept size fs ts (bytes - f.size) s disk' kept in
      let without = one_dropped f fs t ts bytes (bytes - f.size) s _ rest in
      elim (Bool-cases (ltb s.max_bytes (bytes + size))) [
        | inr fits ↦
            rw fits
              (all-Kept (evict_files os s (f ∷ fs) bytes) (t ∷ ts) disk none (held, (later, r)))
        | inl over ↦ elim (RemoveResult-cases result) [
          | inl gone ↦ rw (over, gone) without
          | inr (inl never) ↦ rw (over, never) without
          | inr (inr bad) ↦
              rw (over, bad)
                (all-Kept (evict_files os s (f ∷ fs) bytes) (t ∷ ts) disk' _ (
                  Represents-same disk disk' (f ∷ fs) (t ∷ ts)
                    (λ p. laws.remove_failed f.path p disk bad) (held, (later, r))))
        ]
      ]
  evict-Kept size [] (t ∷ ts) bytes s disk r = absurd r
  evict-Kept size (f ∷ fs) [] bytes s disk r = absurd r

  write-Touches :
      (seq : ℤ) (b : Bytes) (disk : Disk)
      → let path = final_path dir seq in
        let written = os.write_file (os.tmp_path path) b disk in
        Touches os dir seq disk written.0
        × Touches os dir seq disk (os.rename (os.tmp_path path) path written.0).0
        × Touches os dir seq disk
            (remove (os.tmp_path path) (os.rename (os.tmp_path path) path written.0).0).0
  write-Touches seq b disk =
      let path = final_path dir seq in
      let tmp = os.tmp_path path in
      let written = (os.write_file tmp b disk).0 in
      let renamed = (os.rename tmp path written).0 in
      let wrote : Touches os dir seq disk written =
        λ j apart. laws.write_elsewhere tmp (final_path dir j) b disk (laws.tmp_apart dir seq j) in
      let moved : Touches os dir seq disk renamed = λ j apart.
        laws.rename_elsewhere tmp path (final_path dir j) written (laws.tmp_apart dir seq j)
          (λ e. apart (laws.final_injective dir j seq e))
        ∙ wrote j apart in
      let cleaned : Touches os dir seq disk (remove tmp renamed).0 = λ j apart.
        laws.remove_elsewhere tmp (final_path dir j) renamed (laws.tmp_apart dir seq j)
        ∙ moved j apart in
      (wrote, moved, cleaned)

  -- A write either appends its task or changes no task.
  pub record Written (seq : ℤ) (task : SpoolTask) (s : Spool os) (ts : List SpoolTask)
      (r : Outcome os) : Type 0 where
    pub after : List SpoolTask
    pub represents : Represents os dir r.1 r.0.files after
    pub effect :
        ((r.2 ≡ none) × (after ≡ ts ++ task ∷ []))
        ⊎ ((e : SpoolError) × ((r.2 ≡ some e) × (after ≡ ts)))
    pub same_dir : r.0.dir ≡ s.dir
    pub same_seq : r.0.next_seq ≡ s.next_seq
    pub below : (k : ℤ) → seq <ℤ k → All (λ g. g.seq <ℤ k) s.files → All (λ g. g.seq <ℤ k) r.0.files

  pub unwritten :
      (seq : ℤ) (task : SpoolTask) (s : Spool os) (ts : List SpoolTask) (disk : Disk)
      (e : SpoolError)
      → Represents os dir disk s.files ts
      → Written seq task s ts (s, disk, some e)
  unwritten seq task s ts disk e r = record {
    after = ts;
    represents = r;
    effect = inr (e, (refl, refl));
    same_dir = refl;
    same_seq = refl;
    below = λ k h b. b;
  }

  load_of :
      (p : FilePath) (b : Bytes) (disk : Disk) (task : SpoolTask)
      → read_file p disk ≡ some b
      → os.unmarshal b ≡ some task
      → load os dir p disk ≡ some task
  load_of p b disk task h k = rw (h, load) k

  pub write_task-Written :
      (seq : ℤ) (b : Bytes) (task : SpoolTask) (s : Spool os) (ts : List SpoolTask) (disk : Disk)
      → s.dir ≡ dir
      → os.unmarshal b ≡ some task
      → task.seq ≡ seq
      → All (λ g. g.seq <ℤ seq) s.files
      → Represents os dir disk s.files ts
      → Written seq task s ts (write_task os seq b s disk)
  unfolding write_task
  write_task-Written seq b task s ts disk same decoded numbered below r =
      let path = final_path s.dir seq in
      let tmp = os.tmp_path path in
      let (disk', written) = os.write_file tmp b disk in
      let (disk'', renamed) = os.rename tmp path disk' in
      let added : SpoolFile FilePath = record { seq = seq; path = path; size = os.size b } in
      let place : path ≡ final_path dir seq = ap (λ d. final_path d seq) same in
      let touches =
        subst
          (λ (p : FilePath).
            let w = os.write_file (os.tmp_path p) b disk in
            Touches os dir seq disk w.0
            × Touches os dir seq disk (os.rename (os.tmp_path p) p w.0).0
            × Touches os dir seq disk
                (remove (os.tmp_path p) (os.rename (os.tmp_path p) p w.0).0).0)
          (sym place) (write-Touches seq b disk) in
      let avoid = Avoids-below os dir seq s.files below in
      elim (Bool-cases written) [
        | inr no_file ↦ rw no_file (
            unwritten seq task s ts disk' _
              (Represents-touch os dir seq disk disk' s.files ts touches.0 avoid r))
        | inl done ↦ rw done (elim (Bool-cases renamed) [
          | inr stuck ↦ rw stuck (
              unwritten seq task s ts _ _
                (Represents-touch os dir seq disk _ s.files ts touches.2 avoid r))
          | inl moved ↦ rw moved (record {
            after = ts ++ task ∷ [];
            represents =
                Represents-append os dir disk'' s.files ts added task
                  (Represents-touch os dir seq disk disk'' s.files ts touches.1 avoid r) below
                  (
                    place,
                    numbered,
                    load_of path b disk'' task
                        (laws.read-rename tmp path disk' moved ∙ laws.read-write tmp b disk done)
                        decoded,
                  );
            effect = inl (refl, refl);
            same_dir = refl;
            same_seq = refl;
            below = λ k h hs. All-append_one (λ g. g.seq <ℤ k) s.files added hs h;
          })
        ])
      ]
