-- ===== src/Scheduler/Spool.antt =====
-- The disk queue of pkg/scheduler/submit_spool.go. Every method holds the mutex, so it is one step on
-- the spool and the disk.
pub mod Reload
pub mod Size
pub mod Limit
pub mod Queue
pub mod Refines
pub mod Fifo
pub mod Acks
pub mod Runs
use compkg.Common.{
  ℕ, ◌+◌, ◌-◌, ◌⊎◌, inl, inr, not, Option, none, some, List, [], ◌∷◌, ◌++◌, length, take, ltb,
  if◌then◌else◌,
}
use compkg.Common.Int.{ℤ, eq_ℤ, inc64}
use compkg.Scheduler.Buffer.{BufferedTask, batch_size}
use compkg.Scheduler.Disk.{Os, RemoveResult, SpoolTask, SpoolFile, SubmitSpool, SpoolError}

-- The calls that change the queue; each sees the disk that the last one left.
pub data Call : Type 0 where
  push_call : BufferedTask → Call
  ack_call : ℤ → Call

module _ (os : Os) where
  open os use {Disk, FilePath, Bytes, remove}

  abbrev pub Spool : Type 0
  Spool = SubmitSpool FilePath

  -- The state that a method leaves, and its error; what was done before an error stays done.
  abbrev pub Outcome : Type 0
  Outcome = Spool × Disk × Option SpoolError

  abbrev evict_files : Spool → List (SpoolFile FilePath) → ℕ → Spool
  evict_files s files bytes = record s { files = files; current_bytes = bytes }

  -- `for currentBytes+size > maxBytes && len(files) > 0`: the oldest file goes first. The bytes held
  -- are at least the size of each file, so the subtraction is exact.
  unfoldable pub evict : ℕ → List (SpoolFile FilePath) → ℕ → Spool → Disk → Outcome
  evict size [] bytes s disk = (evict_files s [] bytes, disk, none)
  evict size (oldest ∷ files) bytes s disk =
      let (disk', result) = remove oldest.path disk in
      let rest = evict size files (bytes - oldest.size) s disk' in
      if ltb s.max_bytes (bytes + size)
      then (elim result [
        | RemoveResult.failed ↦
            (evict_files s (oldest ∷ files) bytes, disk', some SpoolError.evict_failed)
        | _ ↦ rest
      ])
      else (evict_files s (oldest ∷ files) bytes, disk, none)

  unfoldable pub make_task : ℤ → BufferedTask → ℕ → SpoolTask
  make_task seq t size = record {
    seq = seq;
    opts = t.opts;
    enqueued_at = t.enqueued_at;
    attempts = t.attempts;
    size_bytes = size;
  }

  -- The temporary file, then the rename, then the entry in the list.
  unfoldable pub write_task : ℤ → Bytes → Spool → Disk → Outcome
  write_task seq bytes s disk =
      let path = os.final_path s.dir seq in
      let (disk', written) = os.write_file (os.tmp_path path) bytes disk in
      let (disk'', renamed) = os.rename (os.tmp_path path) path disk' in
      if not written
      then (s, disk', some SpoolError.write_failed)
      else if not renamed
      then (s, (remove (os.tmp_path path) disk'').0, some SpoolError.rename_failed)
      else (
        record s {
          files = s.files ++ record { seq = seq; path = path; size = os.size bytes } ∷ [];
          current_bytes = s.current_bytes + os.size bytes;
        },
        disk'',
        none,
      )

  unfoldable pub write_if_fits : ℤ → Bytes → Outcome → Outcome
  write_if_fits seq bytes (s, disk, some e) = (s, disk, some e)
  write_if_fits seq bytes (s, disk, none) =
      if ltb s.max_bytes (s.current_bytes + os.size bytes)
      then (s, disk, some SpoolError.spill_full)
      else write_task seq bytes s disk

  unfoldable pub push_bytes : ℤ → Bytes → Spool → Disk → Outcome
  unfolding write_if_fits
  push_bytes seq bytes s disk =
      if ltb s.max_bytes (os.size bytes)
      then (s, disk, some SpoolError.spill_full)
      else write_if_fits seq bytes (evict (os.size bytes) s.files s.current_bytes s disk)

  -- The task is marshalled twice, the second time with the size of the first.
  unfoldable pub encode : ℤ → BufferedTask → Option Bytes
  encode seq t = elim (os.marshal (make_task seq t 0)) [
    | none ↦ none
    | some first ↦ os.marshal (make_task seq t (os.size first))
  ]

  unfoldable pub push : BufferedTask → Spool → Disk → Outcome
  unfolding encode
  push t s disk =
      let s' = record s { next_seq = inc64 s.next_seq } in
      elim (encode s.next_seq t) [
        | none ↦ (s', disk, some SpoolError.marshal_failed)
        | some bytes ↦ push_bytes s.next_seq bytes s' disk
      ]

  -- The tasks of the files, read and decoded in order; the first failure fails the batch.
  unfoldable pub read_files : Disk → List (SpoolFile FilePath) → SpoolError ⊎ List SpoolTask
  read_files disk [] = inr []
  read_files disk (f ∷ files) =
      let rest = read_files disk files in
      elim (os.read_file f.path disk) [
        | none ↦ inl SpoolError.read_failed
        | some data_bytes ↦ elim (os.unmarshal data_bytes) [
          | none ↦ inl SpoolError.decode_failed
          | some t ↦ elim rest [ inl e ↦ inl e | inr ts ↦ inr (t ∷ ts) ]
        ]
      ]

  unfoldable pub drain : ℤ → Spool → Disk → SpoolError ⊎ List SpoolTask
  drain max s disk = read_files disk (take (batch_size max (length s.files)) s.files)

  -- The first file of a sequence number, and the list without it.
  unfoldable pub take_out :
      ℤ → List (SpoolFile FilePath) → Option (SpoolFile FilePath × List (SpoolFile FilePath))
  take_out seq [] = none
  take_out seq (f ∷ files) =
      let rest = take_out seq files in
      if eq_ℤ f.seq seq
      then some (f, files)
      else elim rest [ none ↦ none | some (g, others) ↦ some (g, f ∷ others) ]

  unfoldable pub ack : ℤ → Spool → Disk → Outcome
  ack seq s disk = elim (take_out seq s.files) [
    | none ↦ (s, disk, none)
    | some (f, others) ↦
        let (disk', result) = remove f.path disk in
        elim result [
          | RemoveResult.failed ↦ (s, disk', some SpoolError.remove_failed)
          | _ ↦ (evict_files s others (s.current_bytes - f.size), disk', none)
        ]
  ]

  unfoldable pub len : Spool → ℕ
  len s = length s.files

  unfoldable pub bytes : Spool → ℕ
  bytes s = s.current_bytes

  unfoldable pub step : Call → Spool → Disk → Outcome
  step (push_call t) s disk = push t s disk
  step (ack_call seq) s disk = ack seq s disk

  unfoldable pub run : List Call → Spool → Disk → Spool × Disk
  run [] s disk = (s, disk)
  run (c ∷ calls) s disk = let (s', disk', error) = step c s disk in run calls s' disk'
