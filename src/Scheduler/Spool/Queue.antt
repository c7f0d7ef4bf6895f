-- ===== src/Scheduler/Spool/Queue.antt =====
-- What the files of the disk queue of pkg/scheduler/submit_spool.go stand for: a queue of tasks.
use compkg.Common.{
  ℕ, zero, suc, String, ◌≡◌, ◌≢◌, refl, sym, ap, inl, inr, true, Option-cases, Option, none, some,
  List, [], ◌∷◌, ◌++◌, All, take, length, arith,
}
use mathlib.Core.Path.{subst}
use compkg.Common.Int.{ℤ, ◌<ℤ◌}
use compkg.Scheduler.Disk.{Os, RemoveResult, SpoolTask, SpoolFile}
use compkg.Scheduler.Spool.{read_files}

-- What package os and encoding/json promise of the paths that the queue uses.
pub record FileLaws (os : Os) : Type 0 where
  pub read-write :
      (p : os.FilePath) (b : os.Bytes) (d : os.Disk)
      → (os.write_file p b d).1 ≡ true
      → os.read_file p (os.write_file p b d).0 ≡ some b
  pub write_elsewhere :
      (p q : os.FilePath) (b : os.Bytes) (d : os.Disk)
      → q ≢ p
      → os.read_file q (os.write_file p b d).0 ≡ os.read_file q d
  pub read-rename :
      (p q : os.FilePath) (d : os.Disk)
      → (os.rename p q d).1 ≡ true
      → os.read_file q (os.rename p q d).0 ≡ os.read_file p d
  pub rename_elsewhere :
      (p q r : os.FilePath) (d : os.Disk)
      → r ≢ p
      → r ≢ q
      → os.read_file r (os.rename p q d).0 ≡ os.read_file r d
  pub remove_elsewhere :
      (p q : os.FilePath) (d : os.Disk)
      → q ≢ p
      → os.read_file q (os.remove p d).0 ≡ os.read_file q d
  pub remove_failed :
      (p q : os.FilePath) (d : os.Disk)
      → (os.remove p d).1 ≡ RemoveResult.failed
      → os.read_file q (os.remove p d).0 ≡ os.read_file q d
  pub unmarshal-marshal :
      (t : SpoolTask) (b : os.Bytes) → os.marshal t ≡ some b → os.unmarshal b ≡ some t
  pub final_injective : (dir : String) (a b : ℤ) → os.final_path dir a ≡ os.final_path dir b → a ≡ b
  pub tmp_apart : (dir : String) (a b : ℤ) → os.final_path dir b ≢ os.tmp_path (os.final_path dir a)

<ℤ_irrefl : (a b : ℤ) → a <ℤ b → b ≢ a
<ℤ_irrefl a b h e = let k : a <ℤ a = subst (λ x. a <ℤ x) e h in omega arith

All-take : {A : Type 0} (P : A → Type 0) (n : ℕ) (xs : List A) → All P xs → All P (take n xs)
All-take P zero xs h = tt
All-take P (suc n) [] h = tt
All-take P (suc n) (x ∷ xs) (h, hs) = (h, All-take P n xs hs)

pub All-append_one :
    {A : Type 0} (P : A → Type 0) (xs : List A) (y : A) → All P xs → P y → All P (xs ++ y ∷ [])
All-append_one P [] y h p = (p, tt)
All-append_one P (x ∷ xs) y (h, hs) p = (h, All-append_one P xs y hs p)

module _ (os : Os) (dir : String) where
  open os use {Disk, FilePath, Bytes, read_file, final_path}

  -- The task that a path holds.
  abbrev pub load : FilePath → Disk → Option SpoolTask
  load p disk = elim (read_file p disk) [ none ↦ none | some b ↦ os.unmarshal b ]

  abbrev pub Holds : Disk → SpoolFile FilePath → SpoolTask → Type 0
  Holds disk f t = (f.path ≡ final_path dir f.seq) × (t.seq ≡ f.seq) × (load f.path disk ≡ some t)

  -- The files hold the tasks, in order, with rising sequence numbers.
  abbrev pub Represents : Disk → List (SpoolFile FilePath) → List SpoolTask → Type 0
  Represents disk [] [] = Unit
  Represents disk (f ∷ fs) (t ∷ ts) =
      Holds disk f t × (All (λ g. f.seq <ℤ g.seq) fs × Represents disk fs ts)
  Represents disk [] (t ∷ ts) = ⊥
  Represents disk (f ∷ fs) [] = ⊥

  -- Of the paths of the queue, only that of one sequence number changes.
  abbrev pub Touches : ℤ → Disk → Disk → Type 0
  Touches k disk disk' =
      (j : ℤ) → j ≢ k → read_file (final_path dir j) disk' ≡ read_file (final_path dir j) disk

  abbrev pub Avoids : ℤ → List (SpoolFile FilePath) → Type 0
  Avoids k fs = All (λ g. g.seq ≢ k) fs

  pub Represents-touch :
      (k : ℤ) (disk disk' : Disk) (fs : List (SpoolFile FilePath)) (ts : List SpoolTask)
      → Touches k disk disk'
      → Avoids k fs
      → Represents disk fs ts
      → Represents disk' fs ts
  Represents-touch k disk disk' [] [] touch avoid r = tt
  Represents-touch k disk disk' (f ∷ fs) (t ∷ ts) touch (apart, avoid) (held, (later, r)) =
      let (path, seq, content) = held in
      let same : read_file f.path disk' ≡ read_file f.path disk = rw path (touch f.seq apart) in
      (
        (path, seq, rw (same, load) content),
        (later, Represents-touch k disk disk' fs ts touch avoid r),
      )
  Represents-touch k disk disk' [] (t ∷ ts) touch avoid r = absurd r
  Represents-touch k disk disk' (f ∷ fs) [] touch avoid r = absurd r

  pub Avoids-later :
      (k : ℤ) (fs : List (SpoolFile FilePath)) → All (λ g. k <ℤ g.seq) fs → Avoids k fs
  Avoids-later k [] h = tt
  Avoids-later k (g ∷ fs) (h, hs) = (<ℤ_irrefl k g.seq h, Avoids-later k fs hs)

  pub Avoids-below :
      (k : ℤ) (fs : List (SpoolFile FilePath)) → All (λ g. g.seq <ℤ k) fs → Avoids k fs
  Avoids-below k [] h = tt
  Avoids-below k (g ∷ fs) (h, hs) = (λ e. <ℤ_irrefl g.seq k h (sym e), Avoids-below k fs hs)

  -- A file is appended behind those with smaller numbers.
  pub Represents-append :
      (disk : Disk) (fs : List (SpoolFile FilePath)) (ts : List SpoolTask) (f : SpoolFile FilePath)
      (t : SpoolTask)
      → Represents disk fs ts
      → All (λ g. g.seq <ℤ f.seq) fs
      → Holds disk f t
      → Represents disk (fs ++ f ∷ []) (ts ++ t ∷ [])
  Represents-append disk [] [] f t r below held = (held, (tt, tt))
  Represents-append disk (g ∷ fs) (u ∷ ts) f t (h, (later, r)) (below, belows) held = (
    h,
    (
      All-append_one (λ x. g.seq <ℤ x.seq) fs f later below,
      Represents-append disk fs ts f t r belows held,
    ),
  )
  Represents-append disk [] (u ∷ ts) f t r below held = absurd r
  Represents-append disk (g ∷ fs) [] f t r below held = absurd r

  load-some :
      (p : FilePath) (disk : Disk) {t : SpoolTask}
      → load p disk ≡ some t
      → (b : Bytes) × ((read_file p disk ≡ some b) × (os.unmarshal b ≡ some t))
  load-some p disk h = elim (Option-cases (read_file p disk)) [
    | inl e ↦ cc (rw (e, load) at h)
    | inr (b, e) ↦ (b, (e, rw (e, load) at h))
  ]

  -- Reading the files gives the tasks.
  pub read_files-Represents :
      (disk : Disk) (fs : List (SpoolFile FilePath)) (ts : List SpoolTask)
      → Represents disk fs ts
      → read_files os disk fs ≡ inr ts
  unfolding read_files
  read_files-Represents disk [] [] r = refl
  read_files-Represents disk (f ∷ fs) (t ∷ ts) (held, (later, r)) =
      let (b, found) = load-some f.path disk held.2 in
      let (read, decoded) = found in
      rw (read, read_files, decoded, read_files-Represents disk fs ts r)
  read_files-Represents disk [] (t ∷ ts) r = absurd r
  read_files-Represents disk (f ∷ fs) [] r = absurd r

  pub Represents-take :
      (n : ℕ) (disk : Disk) (fs : List (SpoolFile FilePath)) (ts : List SpoolTask)
      → Represents disk fs ts
      → Represents disk (take n fs) (take n ts)
  Represents-take zero disk fs ts r = tt
  Represents-take (suc n) disk [] [] r = tt
  Represents-take (suc n) disk (f ∷ fs) (t ∷ ts) (h, (later, r)) =
      (h, (All-take (λ g. f.seq <ℤ g.seq) n fs later, Represents-take n disk fs ts r))
  Represents-take (suc n) disk [] (t ∷ ts) r = absurd r
  Represents-take (suc n) disk (f ∷ fs) [] r = absurd r

  pub Represents-length :
      (disk : Disk) (fs : List (SpoolFile FilePath)) (ts : List SpoolTask)
      → Represents disk fs ts
      → length fs ≡ length ts
  Represents-length disk [] [] r = refl
  Represents-length disk (f ∷ fs) (t ∷ ts) (h, (l, r)) = ap suc (Represents-length disk fs ts r)
  Represents-length disk [] (t ∷ ts) r = absurd r
  Represents-length disk (f ∷ fs) [] r = absurd r
