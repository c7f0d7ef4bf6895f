-- ===== src/Scheduler/Submit/Arrived.antt =====
-- Tasks that other goroutines push during a round of pkg/scheduler/submit_buffer.go.
use compkg.Common.{
  ◌≤◌, ◌≡◌, refl, sym, ◌∙◌, inl, inr, true, Bool-cases, List, [], ◌∷◌, ◌++◌, append_assoc,
  append-nil, length, leb, length-append, arith,
}
use mathlib.Core.List.Sublist
use mathlib.Core.List.{Sublist}
use compkg.Scheduler.Buffer.{BufferedTask, SubmitBuffer, push, len}
use compkg.Scheduler.Disk.{Os}
use compkg.Scheduler.Submit.{Server, push_all}

pub record Arrived (ts : List BufferedTask) (b b' : SubmitBuffer) : Type 0 where
  pub accepted : List BufferedTask
  pub queue : b'.queue ≡ b.queue ++ accepted
  pub same_cap : b'.cap ≡ b.cap
  pub within : len b' ≤ b'.cap
  pub count : length accepted ≤ length ts
  pub came : Sublist accepted ts

module _ (os : Os) (srv : Server) where
  pub push_all-Arrived :
      (ts : List BufferedTask) (b : SubmitBuffer)
      → len b ≤ b.cap
      → Arrived ts b (push_all os srv ts b)
  unfolding push_all push len
  push_all-Arrived [] b h = record {
    accepted = [];
    queue = sym (append-nil b.queue);
    same_cap = refl;
    within = h;
    count = omega arith;
    came = Sublist.refl _;
  }
  push_all-Arrived (t ∷ ts) b h = elim (Bool-cases (leb b.cap (len b))) [
    | inl full ↦
        let rest = push_all-Arrived ts b h in
        rw (full, push)
          (record {
            accepted = rest.accepted;
            queue = rest.queue;
            same_cap = rest.same_cap;
            within = rest.within;
            count = omega (arith, rest.count);
            came = Sublist.cons t rest.came;
          })
    | inr room ↦
        let b1 : SubmitBuffer = record b { queue = b.queue ++ t ∷ []; notify = true } in
        let rest = push_all-Arrived ts b1 (ground (arith, length-append b.queue (t ∷ []))) in
        rw (room, push)
          (record {
            accepted = t ∷ rest.accepted;
            queue = rest.queue ∙ append_assoc b.queue (t ∷ []) rest.accepted;
            same_cap = rest.same_cap;
            within = rest.within;
            count = omega (arith, rest.count);
            came = Sublist.cons-cons t rest.came;
          })
  ]
