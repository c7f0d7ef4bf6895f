-- ===== src/TcpContext/Sweeps.antt =====
-- The sweeper of pkg/trace/tcp_context.go changes no answer.
use compkg.Common.{
  ℕ, ◌+◌, ◌≤◌, ◌≡◌, refl, sym, ap, ◌∙◌, Bool, true, false, Bool-cases, ◌||◌, inl, inr, String,
  Option, none, some, List, [], ◌∷◌, str_eq, ltb, if◌then◌else◌, arith,
}
use compkg.Common.Int.{ℤ, pos_part, ltb_ℤ, is_nonpos}
use compkg.Common.Dict.{store, delete}
use compkg.TcpContext.{
  TcpEntry, TcpContextMap, save, load, close, sweep, live, answer_of, Call, saves, loads, sweeps,
  closes, run,
}

module _ (SpanContext : Type 0) (is_valid : SpanContext → Bool) where
  abbrev pub without_sweeps : List (Call SpanContext is_valid) → List (Call SpanContext is_valid)
  without_sweeps [] = []
  without_sweeps (saves now sc msg_id ttl device_no ins_type ∷ calls) =
      saves now sc msg_id ttl device_no ins_type ∷ without_sweeps calls
  without_sweeps (loads now msg_id ∷ calls) = loads now msg_id ∷ without_sweeps calls
  without_sweeps (sweeps now ∷ calls) = without_sweeps calls
  without_sweeps (closes now ∷ calls) = closes now ∷ without_sweeps calls

  abbrev time_of : Call SpanContext is_valid → ℕ
  time_of (saves now sc msg_id ttl device_no ins_type) = now
  time_of (loads now msg_id) = now
  time_of (sweeps now) = now
  time_of (closes now) = now

  -- Calls of a time and later, one after the other.
  abbrev pub InOrder : ℕ → List (Call SpanContext is_valid) → Type 0
  InOrder from [] = Unit
  InOrder from (c ∷ calls) = (from ≤ time_of c) × InOrder (time_of c) calls

  -- Two maps with the same entries but for those that have expired at a time.
  record Agree (from : ℕ) (m n : TcpContextMap SpanContext is_valid) : Type 0 where
    same_items :
        (k : String) (now : ℕ)
        → from ≤ now
        → live SpanContext is_valid now (m.items k) ≡ live SpanContext is_valid now (n.items k)
    same_ttl : m.max_ttl ≡ n.max_ttl
    same_closed : m.closed ≡ n.closed

  answer_of-live :
      (now : ℕ) (x : Option (TcpEntry SpanContext is_valid))
      → answer_of SpanContext is_valid now x
        ≡ answer_of SpanContext is_valid now (live SpanContext is_valid now x)
  unfolding answer_of
  answer_of-live now none = refl
  answer_of-live now (some e) = elim (Bool-cases (ltb e.expire_at now)) [
    | inl h ↦ rw h refl
    | inr h ↦ rw (h, h) refl
  ]

  live-live :
      (now t : ℕ) (x : Option (TcpEntry SpanContext is_valid))
      → t ≤ now
      → live SpanContext is_valid now (live SpanContext is_valid t x)
        ≡ live SpanContext is_valid now x
  live-live now t none h = refl
  live-live now t (some e) h = elim (Bool-cases (ltb e.expire_at t)) [
    | inl g ↦ let later : ltb e.expire_at now ≡ true = ground arith in rw (g, later) refl
    | inr g ↦ rw g refl
  ]

  sweep-Agree :
      (from t : ℕ) (m n : TcpContextMap SpanContext is_valid)
      → Agree from m n
      → from ≤ t
      → Agree t (sweep SpanContext is_valid t m) n
  unfolding sweep
  sweep-Agree from t m n a h = record {
    same_items =
        λ k now later. live-live now t (m.items k) later ∙ a.same_items k now (omega arith);
    same_ttl = a.same_ttl;
    same_closed = a.same_closed;
  }

  later_Agree :
      (from t : ℕ) (m n : TcpContextMap SpanContext is_valid)
      → Agree from m n
      → from ≤ t
      → Agree t m n
  later_Agree from t m n a h = record {
    same_items = λ k now later. a.same_items k now (omega arith);
    same_ttl = a.same_ttl;
    same_closed = a.same_closed;
  }

  save-Agree :
      (from t : ℕ) (sc : SpanContext) (msg_id : String) (ttl : ℤ) (d i : String)
      (m n : TcpContextMap SpanContext is_valid)
      → Agree from m n
      → from ≤ t
      → Agree t
          (save SpanContext is_valid t sc msg_id ttl d i m)
          (save SpanContext is_valid t sc msg_id ttl d i n)
  unfolding save store
  save-Agree from t sc msg_id ttl d i m n a h = elim (Bool-cases (m.closed || str_eq msg_id "")) [
    | inl e ↦
        let f : (n.closed || str_eq msg_id "") ≡ true =
          ap (λ b. b || str_eq msg_id "") (sym a.same_closed) ∙ e in
        rw (save, e, f) (later_Agree from t m n a h)
    | inr e ↦
        let f : (n.closed || str_eq msg_id "") ≡ false =
          ap (λ b. b || str_eq msg_id "") (sym a.same_closed) ∙ e in
        rw (save, e, f)
          record {
            same_items = λ k now later. elim (Bool-cases (str_eq msg_id k)) [
              | inl g ↦ rw g (
                  ap
                    (λ (max : ℤ). live SpanContext is_valid now (
                      some record {
                        sc = sc;
                        device_no = d;
                        ins_type = i;
                        expire_at =
                            t + pos_part (if is_nonpos ttl || ltb_ℤ max ttl then max else ttl);
                      }))
                    a.same_ttl)
              | inr g ↦ rw g (a.same_items k now (omega arith))
            ];
            same_ttl = a.same_ttl;
            same_closed = a.same_closed;
          }
  ]

  load-Agree :
      (from t : ℕ) (msg_id : String) (m n : TcpContextMap SpanContext is_valid)
      → Agree from m n
      → from ≤ t
      → Agree t (load SpanContext is_valid t msg_id m).0 (load SpanContext is_valid t msg_id n).0
        × ((load SpanContext is_valid t msg_id m).1 ≡ (load SpanContext is_valid t msg_id n).1)
  unfolding load delete
  load-Agree from t msg_id m n a h = elim (Bool-cases (m.closed || str_eq msg_id "")) [
    | inl e ↦
        let f : (n.closed || str_eq msg_id "") ≡ true =
          ap (λ b. b || str_eq msg_id "") (sym a.same_closed) ∙ e in
        rw (load, e, f) (later_Agree from t m n a h, refl)
    | inr e ↦
        let f : (n.closed || str_eq msg_id "") ≡ false =
          ap (λ b. b || str_eq msg_id "") (sym a.same_closed) ∙ e in
        let rest : Agree t (record m { items = delete msg_id m.items })
            (record n { items = delete msg_id n.items }) =
          record {
            same_items = λ k now later. elim (Bool-cases (str_eq msg_id k)) [
              | inl g ↦ rw g refl
              | inr g ↦ rw g (a.same_items k now (omega arith))
            ];
            same_ttl = a.same_ttl;
            same_closed = a.same_closed;
          } in
        let answers =
          answer_of-live t (m.items msg_id)
          ∙ ap (answer_of SpanContext is_valid t) (a.same_items msg_id t h)
          ∙ sym (answer_of-live t (n.items msg_id)) in
        rw (load, e, f) (rest, answers)
  ]

  run-Agree :
      (from : ℕ) (calls : List (Call SpanContext is_valid))
      (m n : TcpContextMap SpanContext is_valid)
      → InOrder from calls
      → Agree from m n
      → run SpanContext is_valid calls m ≡ run SpanContext is_valid (without_sweeps calls) n
  unfolding run close
  run-Agree from [] m n order a = refl
  run-Agree from (saves t sc msg_id ttl d i ∷ calls) m n (here, order) a =
      run-Agree t calls (save SpanContext is_valid t sc msg_id ttl d i m)
        (save SpanContext is_valid t sc msg_id ttl d i n) order
        (save-Agree from t sc msg_id ttl d i m n a here)
  run-Agree from (loads t msg_id ∷ calls) m n (here, order) a =
      let (rest, same) = load-Agree from t msg_id m n a here in
      let later =
        run-Agree t calls (load SpanContext is_valid t msg_id m).0
          (load SpanContext is_valid t msg_id n).0 order rest in
      rw (same, later) refl
  run-Agree from (sweeps t ∷ calls) m n (here, order) a =
      run-Agree t calls (sweep SpanContext is_valid t m) n order (sweep-Agree from t m n a here)
  run-Agree from (closes t ∷ calls) m n (here, order) a =
      let later = later_Agree from t m n a here in
      run-Agree t calls (close SpanContext is_valid m) (close SpanContext is_valid n) order
        record { same_items = later.same_items; same_ttl = later.same_ttl; same_closed = refl }

  -- In every run of calls and rounds of the sweeper in the order of time, the loads get the same answers
  -- as in the run without the sweeper: it only frees memory.
  pub run-without_sweeps :
      (from : ℕ) (calls : List (Call SpanContext is_valid)) (m : TcpContextMap SpanContext is_valid)
      → InOrder from calls
      → run SpanContext is_valid calls m ≡ run SpanContext is_valid (without_sweeps calls) m
  run-without_sweeps from calls m order =
      run-Agree from calls m m order
        record { same_items = λ k now later. refl; same_ttl = refl; same_closed = refl }
