-- ===== src/Scheduler/Spool/Limit.antt =====
-- The size limit of the disk queue of pkg/scheduler/submit_spool.go, from its directory on and over all calls.
use compkg.Common.{
  ℕ, ◌+◌, ◌-◌, ◌≤◌, String, ◌≡◌, refl, sym, ◌∙◌, inl, inr, Option-cases, none, some, List, [], ◌∷◌,
  arith,
}
use mathlib.Core.Path.{subst}
use compkg.Common.Int.{ℤ}
use compkg.Scheduler.Disk.{Os, SpoolFile, total_size, limit_of, dir_or}
use compkg.Scheduler.Spool.{
  Spool, Outcome, push, take_out, ack, bytes, evict_files, Call, push_call, ack_call, step, run,
}
use compkg.Scheduler.Spool.Reload.{
  insert, sort_files, reload_files, reload, reload_reads, fresh_spool, new_submit_spool,
  new_submit_spool_reloads,
}
use compkg.Scheduler.Spool.Size.{IsSized, RemoveResult-cases, evict-Evicted, push-IsSized}

module _ (os : Os) where
  open os use {Disk, FilePath, remove}

  total_size-take_out :
      (seq : ℤ) (files : List (SpoolFile FilePath)) {f : SpoolFile FilePath}
      {others : List (SpoolFile FilePath)}
      → take_out os seq files ≡ some (f, others)
      → total_size files ≡ f.size + total_size others
  unfolding take_out
  total_size-take_out seq [] e = cc
  total_size-take_out seq (g ∷ files) {f} {others} e = elim (Option-cases (take_out os seq files)) [
    | inl unknown ↦ ground arith
    | inr ((f', others'), found) ↦ ground (arith, total_size-take_out seq files found)
  ]

  ack-IsSized :
      (seq : ℤ) (s : Spool os) (disk : Disk)
      → IsSized s
      → IsSized (ack os seq s disk).0 × ((ack os seq s disk).0.max_bytes ≡ s.max_bytes)
  unfolding ack
  ack-IsSized seq s disk h = elim (Option-cases (take_out os seq s.files)) [
    | inl unknown ↦ rw (unknown, ack) (h, refl)
    | inr ((f, others), found) ↦
        let sum = total_size-take_out seq s.files found in
        let smaller : IsSized (evict_files os s others (s.current_bytes - f.size)) = record {
          counted = omega arith;
          within = omega arith;
        } in
        rw (found, ack)
          (elim (RemoveResult-cases (remove f.path disk).1) [
            | inl gone ↦ rw gone (smaller, refl)
            | inr (inl never) ↦ rw never (smaller, refl)
            | inr (inr bad) ↦ rw bad (h, refl)
          ])
  ]

  run-IsSized :
      (calls : List Call) (s : Spool os) (disk : Disk)
      → IsSized s
      → IsSized (run os calls s disk).0 × ((run os calls s disk).0.max_bytes ≡ s.max_bytes)
  unfolding run step
  run-IsSized [] s disk h = (h, refl)
  run-IsSized (push_call t ∷ calls) s disk h =
      let (sized, same) = push-IsSized os t s disk h in
      let (s', disk', error) = push os t s disk in
      let rest = run-IsSized calls s' disk' sized in (rest.0, rest.1 ∙ same)
  run-IsSized (ack_call seq ∷ calls) s disk h =
      let (sized, same) = ack-IsSized seq s disk h in
      let (s', disk', error) = ack os seq s disk in
      let rest = run-IsSized calls s' disk' sized in (rest.0, rest.1 ∙ same)

  total_size-insert :
      (f : SpoolFile FilePath) (files : List (SpoolFile FilePath))
      → total_size (insert os f files) ≡ f.size + total_size files
  unfolding insert
  total_size-insert f [] = omega arith
  total_size-insert f (g ∷ gs) = ground (arith, total_size-insert f gs)

  total_size-sort :
      (files : List (SpoolFile FilePath)) → total_size (sort_files os files) ≡ total_size files
  unfolding sort_files
  total_size-sort [] = refl
  total_size-sort (f ∷ files) =
      omega (arith, total_size-insert f (sort_files os files), total_size-sort files)

  reload_files-IsSized :
      (files : List (SpoolFile FilePath)) (s : Spool os) (disk : Disk)
      → (reload_files os files s disk).2 ≡ none
      → IsSized (reload_files os files s disk).0
        × ((reload_files os files s disk).0.max_bytes ≡ s.max_bytes)
  unfolding reload_files
  reload_files-IsSized files s disk ok =
      let v =
        evict-Evicted os 0 (sort_files os files) (total_size files) _ disk
          (sym (total_size-sort files)) in
      (record { counted = v.counted; within = omega (arith, v.room ok, v.same_max) }, v.same_max)

  reload-IsSized :
      (s : Spool os) (disk : Disk)
      → (reload os s disk).2 ≡ none
      → IsSized (reload os s disk).0 × ((reload os s disk).0.max_bytes ≡ s.max_bytes)
  reload-IsSized s disk ok =
      let (files, read) = reload_reads os s disk ok in
      rw read (reload_files-IsSized files s disk (subst (λ (r : Outcome os). r.2 ≡ none) read ok))

  -- From a directory of any contents, a spool that was made holds at most the limit that was asked
  -- for (100 MB for a limit of 0 or less) after any pushes and acks, whatever the file system does.
  pub spool_limit :
      (temp dir : String) (max : ℤ) (now : ℕ) (disk : Disk) (calls : List Call) {s : Spool os}
      {disk' : Disk}
      → new_submit_spool os temp dir max now disk ≡ inr (s, disk')
      → (bytes os (run os calls s disk').0 ≡ total_size (run os calls s disk').0.files)
        × (bytes os (run os calls s disk').0 ≤ limit_of max)
  unfolding bytes fresh_spool
  spool_limit temp dir max now disk calls {s} {disk'} made =
      let start = fresh_spool os (dir_or temp dir) max now in
      let created = (os.mkdir_all (dir_or temp dir) disk).0 in
      let (ok, same) = new_submit_spool_reloads os temp dir max now disk made in
      let (sized, limit) = reload-IsSized start created ok in
      let begun : IsSized s × (s.max_bytes ≡ limit_of max) =
        subst (λ (r : Spool os). IsSized r × (r.max_bytes ≡ limit_of max)) same (sized, limit) in
      let (kept, still) = run-IsSized calls s disk' begun.0 in
      (kept.counted, omega (arith, kept.within, still, begun.1))
