-- ===== src/Scheduler/Disk.antt =====
-- What the disk queue of pkg/scheduler/submit_spool.go stands on. Package os, encoding/json and strconv
-- are not code of the repository: they are the operations of `Os` over an abstract disk. Sizes are
-- int64 counts of bytes, kept as numbers; `seq` is an int64.
use compkg.Common.{ℕ, ◌+◌, ◌*◌, String, Bool, Option, List, [], ◌∷◌, str_eq, if◌then◌else◌}
use compkg.Common.Int.{ℤ, is_nonpos, pos_part}
use compkg.Scheduler.Buffer.{SubmitOptions}

pub record SpoolTask : Type 0 where
  pub seq : ℤ
  pub opts : SubmitOptions
  pub enqueued_at : ℕ
  pub attempts : ℕ
  pub size_bytes : ℕ

-- os.Remove: success, os.ErrNotExist, or another error.
pub data RemoveResult : Type 0 where
  removed not_exist failed : RemoveResult

-- A directory entry: whether it is a directory, the int64 that its name less ".json" parses to (none
-- for another suffix or a parse error), its path, and the size that Info gives, if it gives one.
pub record DirEntry (Place : Type 0) : Type 0 where
  pub is_dir : Bool
  pub seq : Option ℤ
  pub path : Place
  pub size : Option ℕ

pub record Os : Type 1 where
  pub Disk : Type 0
  pub FilePath : Type 0
  pub Bytes : Type 0
  pub size : Bytes → ℕ
  pub marshal : SpoolTask → Option Bytes
  pub unmarshal : Bytes → Option SpoolTask
  -- filepath.Join of the directory and the name of a sequence number, and its ".tmp".
  pub final_path : String → ℤ → FilePath
  pub tmp_path : FilePath → FilePath
  pub remove : FilePath → Disk → Disk × RemoveResult
  -- These report whether they succeeded.
  pub write_file : FilePath → Bytes → Disk → Disk × Bool
  pub rename : FilePath → FilePath → Disk → Disk × Bool
  pub mkdir_all : String → Disk → Disk × Bool
  pub read_file : FilePath → Disk → Option Bytes
  pub read_dir : String → Disk → Option (List (DirEntry FilePath))

pub record SpoolFile (Place : Type 0) : Type 0 where
  pub seq : ℤ
  pub path : Place
  pub size : ℕ

pub record SubmitSpool (Place : Type 0) : Type 0 where
  pub dir : String
  pub max_bytes : ℕ
  pub next_seq : ℤ
  pub current_bytes : ℕ
  pub files : List (SpoolFile Place)

pub data SpoolError : Type 0 where
  spill_full marshal_failed evict_failed write_failed rename_failed read_failed decode_failed
        remove_failed mkdir_failed stat_failed :
      SpoolError

abbrev pub default_max_bytes : ℕ
default_max_bytes = 100 * 1024 * 1024

abbrev pub total_size : {Place : Type 0} → List (SpoolFile Place) → ℕ
total_size [] = 0
total_size (f ∷ files) = f.size + total_size files

abbrev pub limit_of : ℤ → ℕ
limit_of max = if is_nonpos max then default_max_bytes else pos_part max

abbrev pub dir_or : String → String → String
dir_or temp dir = if str_eq dir "" then temp else dir
