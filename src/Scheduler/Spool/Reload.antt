-- ===== src/Scheduler/Spool/Reload.antt =====
-- How the disk queue of pkg/scheduler/submit_spool.go is read back from its directory when a client is made.
use compkg.Common.{
  ℕ, String, ◌⊎◌, inl, inr, Option, Option-cases, Bool-cases, ◌≡◌, none, some, List, [], ◌∷◌, arith,
  if◌then◌else◌,
}
use compkg.Common.Int.{ℤ, pos, ltb_ℤ, inc64}
use compkg.Scheduler.Disk.{Os, DirEntry, SpoolFile, SpoolError, total_size, limit_of, dir_or}
use compkg.Scheduler.Spool.{Spool, Outcome, evict}

module _ (os : Os) where
  open os use {Disk, FilePath}

  -- The loop of `reloadLocked` over the directory: none if Info fails for a task file.
  unfoldable pub collect : List (DirEntry FilePath) → Option (List (SpoolFile FilePath))
  collect [] = some []
  collect (e ∷ entries) =
      let rest = collect entries in
      elim e.seq [
        | none ↦ rest
        | some seq ↦ if e.is_dir then rest else (elim e.size [
          | none ↦ none
          | some size ↦ elim rest [
            | none ↦ none
            | some files ↦ some (record { seq = seq; path = e.path; size = size } ∷ files)
          ]
        ])
      ]

  unfoldable pub max_seq : ℤ → List (SpoolFile FilePath) → ℤ
  max_seq m [] = m
  max_seq m (f ∷ files) = max_seq (if ltb_ℤ m f.seq then f.seq else m) files

  -- sort.Slice by sequence number.
  unfoldable pub insert : SpoolFile FilePath → List (SpoolFile FilePath) → List (SpoolFile FilePath)
  insert f [] = f ∷ []
  insert f (g ∷ files) =
      let rest = insert f files in if ltb_ℤ g.seq f.seq then g ∷ rest else f ∷ g ∷ files

  unfoldable pub sort_files : List (SpoolFile FilePath) → List (SpoolFile FilePath)
  sort_files [] = []
  sort_files (f ∷ files) = insert f (sort_files files)

  -- `reloadLocked`, given what `ReadDir` found, with its eviction of files over the limit.
  unfoldable pub reload_files : List (SpoolFile FilePath) → Spool os → Disk → Outcome os
  reload_files files s disk =
      let newest = max_seq (pos 0) files in
      let s' = record s {
        next_seq = if ltb_ℤ newest s.next_seq then s.next_seq else inc64 newest;
      } in
      evict os 0 (sort_files files) (total_size files) s' disk

  unfoldable pub reload : Spool os → Disk → Outcome os
  reload s disk = elim (os.read_dir s.dir disk) [
    | none ↦ (s, disk, some SpoolError.read_failed)
    | some entries ↦ elim (collect entries) [
      | none ↦ (s, disk, some SpoolError.stat_failed)
      | some files ↦ reload_files files s disk
    ]
  ]

  -- A reload that succeeds has read the directory and the sizes of its task files.
  pub reload_reads :
      (s : Spool os) (disk : Disk)
      → (reload s disk).2 ≡ none
      → (files : List (SpoolFile FilePath)) × (reload s disk ≡ reload_files files s disk)
  unfolding reload
  reload_reads s disk ok = elim (Option-cases (os.read_dir s.dir disk)) [
    | inl no_dir ↦ cc (rw (no_dir, reload) at ok)
    | inr (entries, listed) ↦ elim (Option-cases (collect entries)) [
      | inl no_info ↦ cc (rw (listed, no_info, reload) at ok)
      | inr (files, read) ↦ (files, rw (listed, read, reload))
    ]
  ]

  unfoldable pub made : Outcome os → SpoolError ⊎ Spool os × Disk
  made (s, disk, none) = inr (s, disk)
  made (s, disk, some e) = inl e

  pub made-inr :
      (r : Outcome os) {s : Spool os} {disk : Disk}
      → made r ≡ inr (s, disk)
      → (r.2 ≡ none) × (r.0 ≡ s) × (r.1 ≡ disk)
  unfolding made
  made-inr (s, disk, none) e = ground arith
  made-inr (s, disk, some x) e = cc

  unfoldable pub fresh_spool : String → ℤ → ℕ → Spool os
  fresh_spool dir max now = record {
    dir = dir;
    max_bytes = limit_of max;
    next_seq = pos now;
    current_bytes = 0;
    files = [];
  }

  -- `now` is time.Now().UnixNano(), `temp` the default directory.
  unfoldable pub new_submit_spool : String → String → ℤ → ℕ → Disk → SpoolError ⊎ Spool os × Disk
  unfolding made fresh_spool
  new_submit_spool temp dir max now disk =
      let (disk', created) = os.mkdir_all (dir_or temp dir) disk in
      if created
      then made (reload (fresh_spool (dir_or temp dir) max now) disk')
      else inl SpoolError.mkdir_failed

  -- A spool that was made is what a reload of its directory left.
  pub new_submit_spool_reloads :
      (temp dir : String) (max : ℤ) (now : ℕ) (disk : Disk) {s : Spool os} {disk' : Disk}
      → new_submit_spool temp dir max now disk ≡ inr (s, disk')
      → let start = fresh_spool (dir_or temp dir) max now in
        let created = (os.mkdir_all (dir_or temp dir) disk).0 in
        ((reload start created).2 ≡ none) × ((reload start created).0 ≡ s)
  unfolding new_submit_spool
  new_submit_spool_reloads temp dir max now disk e =
      elim (Bool-cases (os.mkdir_all (dir_or temp dir) disk).1) [
        | inr refused ↦ cc (rw (refused, new_submit_spool) at e)
        | inl created ↦
            let (ok, same, _) =
              made-inr
                (reload (fresh_spool (dir_or temp dir) max now)
                  (os.mkdir_all (dir_or temp dir) disk).0)
                (rw (created, new_submit_spool) at e) in
            (ok, same)
      ]
