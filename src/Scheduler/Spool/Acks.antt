-- ===== src/Scheduler/Spool/Acks.antt =====
-- What an acknowledgement on the disk queue of pkg/scheduler/submit_spool.go does to the queue of tasks.
use compkg.Common.{
  ℕ, ◌-◌, String, ◌≡◌, ◌≢◌, refl, sym, ap, ◌∙◌, ◌⊎◌, inl, inr, true, false, Bool-cases,
  Option-cases, Option, none, some, List, [], ◌∷◌, ◌++◌, All,
}
use mathlib.Core.Path.{subst}
use compkg.Common.Int.{ℤ, pos, ◌<ℤ◌, eq_ℤ, eq_ℤ-true, eq_ℤ_self}
use compkg.Scheduler.Disk.{Os, SpoolTask, SpoolFile, SpoolError}
use compkg.Scheduler.Spool.{Spool, Outcome, evict_files, take_out, ack}
use compkg.Scheduler.Spool.Size.{RemoveResult-cases}
use compkg.Scheduler.Spool.Queue.{FileLaws, Represents, Represents-touch, Avoids, Avoids-later}
use compkg.Scheduler.Spool.Refines.{remove-Touches, Represents-same}
use compkg.Scheduler.Spool.Fifo.{Queues}

-- The task of the number is taken out, or nothing changes: without an error only if there is no such
-- task.
pub record Settled (seq : ℤ) (error : Option SpoolError) (ts after : List SpoolTask) : Type 0 where
  pub before : List SpoolTask
  pub later : List SpoolTask
  pub effect :
      ((error ≡ none)
        × ((x : SpoolTask) × ((x.seq ≡ seq)
              × (ts ≡ before ++ x ∷ later)
              × (after ≡ before ++ later))))
      ⊎ ((after ≡ ts) × (error ≡ none → All (λ x. x.seq ≢ seq) ts))

eq_ℤ-false : (a b : ℤ) → eq_ℤ a b ≡ false → a ≢ b
eq_ℤ-false a b h e = cc (subst (λ x. eq_ℤ a x ≡ true) e (eq_ℤ_self a), h)

module _ (os : Os) (dir : String) where
  open os use {Disk, FilePath, final_path}

  -- A file that was found, and the others.
  record Found (disk : Disk) (seq : ℤ) (fs : List (SpoolFile FilePath)) (ts : List SpoolTask)
      (f : SpoolFile FilePath) (others : List (SpoolFile FilePath)) : Type 0 where
    pub before : List SpoolTask
    pub x : SpoolTask
    pub later : List SpoolTask
    pub split : ts ≡ before ++ x ∷ later
    pub number : x.seq ≡ seq
    pub path : f.path ≡ final_path dir seq
    pub represents : Represents os dir disk others (before ++ later)
    pub avoid : Avoids os dir seq others
    pub above : (k : ℤ) → All (λ g. k <ℤ g.seq) fs → All (λ g. k <ℤ g.seq) others
    pub below : (k : ℤ) → All (λ g. g.seq <ℤ k) fs → All (λ g. g.seq <ℤ k) others

  abbrev Taking :
      Disk
      → ℤ
      → List (SpoolFile FilePath)
      → List SpoolTask
      → Option (SpoolFile FilePath × List (SpoolFile FilePath))
      → Type 0
  Taking disk seq fs ts none = All (λ x. x.seq ≢ seq) ts
  Taking disk seq fs ts (some (f, others)) = Found disk seq fs ts f others

  take_out-Taking :
      (disk : Disk) (seq : ℤ) (fs : List (SpoolFile FilePath)) (ts : List SpoolTask)
      → Represents os dir disk fs ts
      → Taking disk seq fs ts (take_out os seq fs)
  unfolding take_out
  take_out-Taking disk seq [] [] r = tt
  take_out-Taking disk seq (f ∷ fs) (t ∷ ts) (held, (later, r)) =
      let (path, number, content) = held in
      elim (Bool-cases (eq_ℤ f.seq seq)) [
        | inl here ↦
            let e = eq_ℤ-true f.seq seq here in
            rw here (record {
              before = [];
              x = t;
              later = ts;
              split = refl;
              number = number ∙ e;
              path = path ∙ ap (final_path dir) e;
              represents = r;
              avoid = subst (λ k. Avoids os dir k fs) e (Avoids-later os dir f.seq fs later);
              above = λ k (h, hs). hs;
              below = λ k (h, hs). hs;
            })
        | inr not_here ↦ elim (Option-cases (take_out os seq fs)) [
          | inl nowhere ↦
              rw (not_here, nowhere)
                (
                  (λ e. eq_ℤ-false f.seq seq not_here (sym number ∙ e)),
                  subst (Taking disk seq fs ts) nowhere (take_out-Taking disk seq fs ts r),
                )
          | inr ((g, others), there) ↦
              let found = subst (Taking disk seq fs ts) there (take_out-Taking disk seq fs ts r) in
              rw (not_here, there)
                (record {
                  before = t ∷ found.before;
                  x = found.x;
                  later = found.later;
                  split = ap (λ l. t ∷ l) found.split;
                  number = found.number;
                  path = found.path;
                  represents = (held, (found.above f.seq later, found.represents));
                  avoid = (eq_ℤ-false f.seq seq not_here, found.avoid);
                  above = λ k (h, hs). (h, found.above k hs);
                  below = λ k (h, hs). (h, found.below k hs);
                })
        ]
      ]
  take_out-Taking disk seq [] (t ∷ ts) r = absurd r
  take_out-Taking disk seq (f ∷ fs) [] r = absurd r

module _ (os : Os) (laws : FileLaws os) (dir : String) where
  open os use {Disk, remove}

  pub record Acked (seq : ℤ) (n : ℕ) (ts : List SpoolTask) (r : Outcome os) : Type 0 where
    pub after : List SpoolTask
    pub queues : Queues os laws dir r.0 r.1 after n
    pub settled : Settled seq r.2 ts after

  pub ack-Acked :
      (seq : ℤ) (n : ℕ) (s : Spool os) (disk : Disk) (ts : List SpoolTask)
      → Queues os laws dir s disk ts n
      → Acked seq n ts (ack os seq s disk)
  unfolding ack
  ack-Acked seq n s disk ts q =
      let taking = take_out-Taking os dir disk seq s.files ts q.represents in
      elim (Option-cases (take_out os seq s.files)) [
        | inl unknown ↦
            rw (unknown, ack)
              (record {
                after = ts;
                queues = q;
                settled = record {
                  before = [];
                  later = [];
                  effect =
                      inr (refl, λ e. subst (Taking os dir disk seq s.files ts) unknown taking);
                };
              })
        | inr ((f, others), known) ↦
            let found = subst (Taking os dir disk seq s.files ts) known taking in
            let (disk', result) = remove f.path disk in
            let gone : Acked seq n ts
                (evict_files os s others (s.current_bytes - f.size), disk', none) =
              record {
                after = found.before ++ found.later;
                queues = record {
                  same_dir = q.same_dir;
                  represents =
                      Represents-touch os dir seq disk disk' others (found.before ++ found.later)
                        (remove-Touches os laws dir seq f.path disk found.path) found.avoid
                        found.represents;
                  below = found.below (pos n) q.below;
                  next = q.next;
                };
                settled = record {
                  before = found.before;
                  later = found.later;
                  effect = inl (refl, (found.x, (found.number, found.split, refl)));
                };
              } in
            rw (known, ack)
              (elim (RemoveResult-cases result) [
                | inl removed ↦ rw removed gone
                | inr (inl never) ↦ rw never gone
                | inr (inr bad) ↦ rw bad (record {
                  after = ts;
                  queues = record {
                    same_dir = q.same_dir;
                    represents =
                        Represents-same os laws dir disk disk' s.files ts
                          (λ p. laws.remove_failed f.path p disk bad) q.represents;
                    below = q.below;
                    next = q.next;
                  };
                  settled = record { before = []; later = []; effect = inr (refl, λ e. cc e) };
                })
              ])
      ]
