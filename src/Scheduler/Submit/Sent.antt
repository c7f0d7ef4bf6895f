-- ===== src/Scheduler/Submit/Sent.antt =====
-- The loop of flushBufferOnce in pkg/scheduler/submit_buffer.go, one task after the other.
use compkg.Common.{
  ◌≤◌, ◌≡◌, refl, sym, ap, ◌⊎◌, inl, inr, Bool, true, false, Bool-cases, not, String, Sum-cases,
  List, [], ◌∷◌, ◌++◌, map, append_assoc, length, suc, arith,
}
use mathlib.Core.Path.{◌≡⟨◌⟩◌, ◌∎}
use compkg.Scheduler.Buffer.{SubmitOptions, BufferedTask}
use compkg.Scheduler.Disk.{Os}
use compkg.Scheduler.Submit.{
  Server, SubmitError, Client, is_retriable_submit_err, submit_task, send_batch,
}

abbrev pub opts_of : List BufferedTask → List SubmitOptions
opts_of ts = map (λ t. t.opts) ts

-- The server took the task, or refused it for good.
abbrev pub is_final : SubmitError ⊎ String × Bool → Bool
is_final (inr sent) = true
is_final (inl e) = not (is_retriable_submit_err e)

pub opts_of-append : (xs ys : List BufferedTask) → opts_of (xs ++ ys) ≡ opts_of xs ++ opts_of ys
opts_of-append [] ys = refl
opts_of-append (x ∷ xs) ys = ap (λ os. x.opts ∷ os) (opts_of-append xs ys)

pub length-opts_of : (xs : List BufferedTask) → length (opts_of xs) ≡ length xs
length-opts_of [] = refl
length-opts_of (x ∷ xs) = ap suc (length-opts_of xs)

-- The order of a round: a settled part of the batch, then what was put back on the rest.
pub regroup :
    (settled : List SubmitOptions)
    (batch rest accepted remain queue dropped after : List BufferedTask)
    → opts_of batch ≡ settled ++ opts_of remain
    → batch ++ rest ≡ queue
    → dropped ++ after ≡ remain ++ (rest ++ accepted)
    → opts_of (queue ++ accepted) ≡ settled ++ opts_of dropped ++ opts_of after
regroup settled batch rest accepted remain queue dropped after sent split kept =
    opts_of (queue ++ accepted)
    ≡⟨ ap (λ q. opts_of (q ++ accepted)) (sym split) ⟩ opts_of ((batch ++ rest) ++ accepted)
    ≡⟨ ap opts_of (append_assoc batch rest accepted) ⟩ opts_of (batch ++ (rest ++ accepted))
    ≡⟨ opts_of-append batch (rest ++ accepted) ⟩ opts_of batch ++ opts_of (rest ++ accepted)
    ≡⟨ ap (λ s. s ++ opts_of (rest ++ accepted)) sent ⟩
      (settled ++ opts_of remain) ++ opts_of (rest ++ accepted)
    ≡⟨ append_assoc settled (opts_of remain) (opts_of (rest ++ accepted)) ⟩
      settled ++ (opts_of remain ++ opts_of (rest ++ accepted))
    ≡⟨ ap (λ s. settled ++ s) (sym (opts_of-append remain (rest ++ accepted))) ⟩
      settled ++ opts_of (remain ++ (rest ++ accepted))
    ≡⟨ ap (λ s. settled ++ opts_of s) (sym kept) ⟩ settled ++ opts_of (dropped ++ after)
    ≡⟨ ap (λ s. settled ++ s) (opts_of-append dropped after) ⟩
      settled ++ (opts_of dropped ++ opts_of after)
    ≡⟨ sym (append_assoc settled (opts_of dropped) (opts_of after)) ⟩
      settled ++ opts_of dropped ++ opts_of after ∎

module _ (os : Os) (srv : Server) where
  -- Calls one after the other, of which each gets a final answer.
  pub data Settles : Client os srv → List SubmitOptions → Client os srv → Type 0 where
    done : {c : Client os srv} → Settles c [] c
    next :
        {c d : Client os srv} {o : SubmitOptions} {rest : List SubmitOptions}
        → is_final (submit_task os srv o c).1 ≡ true
        → Settles (submit_task os srv o c).0 rest d
        → Settles c (o ∷ rest) d

  -- After the settled calls the batch is at its end, or the next call got an answer that may change.
  abbrev pub Stops : Client os srv → Client os srv × List BufferedTask → Type 0
  Stops d (c, []) = c ≡ d
  Stops d (c, t ∷ ts) =
      (c ≡ (submit_task os srv t.opts d).0) × (is_final (submit_task os srv t.opts d).1 ≡ false)

  pub record Sent (ts : List BufferedTask) (c : Client os srv)
      (r : Client os srv × List BufferedTask) : Type 0 where
    pub settled : List SubmitOptions
    pub at_end : Client os srv
    pub settles : Settles c settled at_end
    pub stops : Stops at_end r
    pub in_order : opts_of ts ≡ settled ++ opts_of r.1
    pub fewer : length r.1 ≤ length ts

  settle_first :
      (t : BufferedTask) (ts : List BufferedTask) (c : Client os srv)
      {r : Client os srv × List BufferedTask}
      → is_final (submit_task os srv t.opts c).1 ≡ true
      → Sent ts (submit_task os srv t.opts c).0 r
      → Sent (t ∷ ts) c r
  settle_first t ts c final s = record {
    settled = t.opts ∷ s.settled;
    at_end = s.at_end;
    settles = next final s.settles;
    stops = s.stops;
    in_order = ap (λ os. t.opts ∷ os) s.in_order;
    fewer = omega (arith, s.fewer);
  }

  pub send_batch-Sent :
      (ts : List BufferedTask) (c : Client os srv) → Sent ts c (send_batch os srv ts c)
  unfolding send_batch
  send_batch-Sent [] c = record {
    settled = [];
    at_end = c;
    settles = done;
    stops = refl;
    in_order = refl;
    fewer = omega arith;
  }
  send_batch-Sent (t ∷ ts) c =
      let (c', result) = submit_task os srv t.opts c in
      let rest = send_batch-Sent ts c' in
      elim (Sum-cases result) [
        | inr (sent, e0) ↦
            rw (e0, send_batch)
              (settle_first t ts c (let e : is_final result ≡ true = rw e0 in e) rest)
        | inl (e, e0) ↦ elim (Bool-cases (is_retriable_submit_err e)) [
          | inr final ↦
              rw (e0, final, send_batch)
                (settle_first t ts c (let f : is_final result ≡ true = rw (e0, final) in f) rest)
          | inl later ↦
              rw (e0, later, send_batch)
                (record {
                  settled = [];
                  at_end = c;
                  settles = done;
                  stops = (refl, rw (e0, later));
                  in_order = refl;
                  fewer = omega arith;
                })
        ]
      ]
