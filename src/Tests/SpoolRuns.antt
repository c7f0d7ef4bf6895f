-- ===== src/Tests/SpoolRuns.antt =====
-- Runs of the disk queue (pkg/scheduler/submit_spool.go) on a small disk that keeps the laws of files.
use compkg.Common.{
  ◌≡◌, ◌≢◌, refl, sym, ap, ◌∙◌, inl, inr, Bool, true, false, Bool-cases, Option, some, none, List,
  [], ◌∷◌, take, length, arith, if◌then◌else◌,
}
use compkg.Common.Int.{ℤ, pos, eq_ℤ, eq_ℤ-true, eq_ℤ_self}
use compkg.Scheduler.Buffer.{batch_size}
use compkg.Scheduler.Disk.{Os, RemoveResult, SpoolTask}
use compkg.Scheduler.Spool.{Spool, Call, push_call, ack_call, run, drain}
use compkg.Scheduler.Spool.Queue.{FileLaws}
use compkg.Scheduler.Spool.Fifo.{Queues}
use compkg.Scheduler.Spool.Runs.{Leads, errors_of, drain-run}
use compkg.Tests.World.{task_named}

-- The file of a sequence number, and its temporary file.
data Place : Type 0 where
  at_final at_tmp : ℤ → Place

abbrev same_place : Place → Place → Bool
same_place (at_final a) (at_final b) = eq_ℤ a b
same_place (at_tmp a) (at_tmp b) = eq_ℤ a b
same_place (at_final a) (at_tmp b) = false
same_place (at_tmp a) (at_final b) = false

abbrev tmp_of : Place → Place
tmp_of (at_final a) = at_tmp a
tmp_of (at_tmp a) = at_tmp a

abbrev set_at : Place → Option SpoolTask → (Place → Option SpoolTask) → Place → Option SpoolTask
set_at p x disk q = if same_place p q then x else disk q

abbrev disk_os : Os
disk_os = record {
  Disk = Place → Option SpoolTask;
  FilePath = Place;
  Bytes = SpoolTask;
  size = λ t. 10;
  marshal = λ t. some t;
  unmarshal = λ t. some t;
  final_path = λ dir seq. at_final seq;
  tmp_path = tmp_of;
  remove = λ p disk. (set_at p none disk, RemoveResult.removed);
  write_file = λ p t disk. (set_at p (some t) disk, true);
  rename = λ p q disk. (set_at q (disk p) (set_at p none disk), true);
  mkdir_all = λ dir disk. (disk, true);
  read_file = λ p disk. disk p;
  read_dir = λ dir disk. some [];
}

same_place_self : (p : Place) → same_place p p ≡ true
same_place_self (at_final a) = eq_ℤ_self a
same_place_self (at_tmp a) = eq_ℤ_self a

same_place-true : (p q : Place) → same_place p q ≡ true → q ≡ p
same_place-true (at_final a) (at_final b) h = ap at_final (sym (eq_ℤ-true a b h))
same_place-true (at_tmp a) (at_tmp b) h = ap at_tmp (sym (eq_ℤ-true a b h))
same_place-true (at_final a) (at_tmp b) h = cc h
same_place-true (at_tmp a) (at_final b) h = cc h

at-set_at :
    (p : Place) (x : Option SpoolTask) (disk : Place → Option SpoolTask) → set_at p x disk p ≡ x
at-set_at p x disk = rw (same_place_self p) refl

away-set_at :
    (p q : Place) (x : Option SpoolTask) (disk : Place → Option SpoolTask)
    → q ≢ p
    → set_at p x disk q ≡ disk q
away-set_at p q x disk h = elim (Bool-cases (same_place p q)) [
  | inl e ↦ absurd (h (same_place-true p q e))
  | inr e ↦ rw e refl
]

final_of : Place → ℤ
final_of (at_final a) = a
final_of (at_tmp a) = a

disk_laws : FileLaws disk_os
disk_laws = record {
  read-write = λ p b d h. at-set_at p (some b) d;
  write_elsewhere = λ p q b d h. away-set_at p q (some b) d h;
  read-rename = λ p q d h. at-set_at q (d p) (set_at p none d);
  rename_elsewhere =
      λ p q r d h k. away-set_at q r (d p) (set_at p none d) k ∙ away-set_at p r none d h;
  remove_elsewhere = λ p q d h. away-set_at p q none d h;
  remove_failed = λ p q d h. cc h;
  unmarshal-marshal = λ t b h. sym h;
  final_injective = λ dir a b h. cc h;
  tmp_apart = λ dir a b h. cc h;
}

-- Room for two tasks, and none there.
abbrev empty_spool : Spool disk_os
empty_spool = record {
  dir = "spool";
  max_bytes = 20;
  next_seq = pos 0;
  current_bytes = 0;
  files = [];
}

abbrev blank : Place → Option SpoolTask
blank p = none

abbrev three_pushes : List Call
three_pushes =
    push_call (task_named "a")
    ∷ push_call (task_named "b")
    ∷ push_call (task_named "c")
    ∷ ack_call (pos 1)
    ∷ []

empty-Queues : Queues disk_os disk_laws "spool" empty_spool blank [] 0
empty-Queues = record { same_dir = refl; represents = tt; below = tt; next = refl }

drain-run_example :
    (after : List SpoolTask) × (Leads disk_os three_pushes
        (errors_of disk_os three_pushes empty_spool blank)
        0
        []
        after
      × (drain disk_os
            (pos 5)
            (run disk_os three_pushes empty_spool blank).0
            (run disk_os three_pushes empty_spool blank).1
          ≡ inr (take (batch_size (pos 5) (length after)) after)))
drain-run_example =
    drain-run disk_os disk_laws "spool" three_pushes (pos 5) 0 empty_spool blank [] empty-Queues
      (omega arith)
