-- ===== src/Traffic/Conserved.antt =====
-- No byte is lost between the counters of pkg/traffic/tracker.go and Redis.
use compkg.Common.{
  ℕ, ◌+◌, ◌≤◌, ◌<◌, ◌≡◌, refl, ap, ◌∙◌, inl, inr, true, Bool-cases, List, [], ◌∷◌, arith,
  if◌then◌else◌,
}
use compkg.Common.Int.{ℤ, pos, negsuc, pos_part, is_nonpos, int64_half}
use compkg.Common.Text.{Text, same_text}
use compkg.Traffic.{
  Direction, CounterPair, PendingItem, Command, build_field, is_tracked, add_bytes, value_of,
  commands, Phase, idle, swapping, half_swapped, sending, rolling, half_rolled, Tracker, Event,
  adding, ticking, flushing, Redis, flush_step, start_flush, step, run,
}
use compkg.Traffic.Cells.{same_cell, value-swap, value-add_exact, tracked-zero, tracked-add}
use compkg.Traffic.Fields.{sum_of, item_value, held, sum-commands, held-item, item_cells}

-- What HINCRBY in a pipeline does: the commands that ran add to their fields, and all of them ran if
-- Exec gave no error. If it gave one, any may have run.
pub record RedisLaws (redis : Redis) : Type 0 where
  -- The sum that was added to a field, over all hours.
  pub total : Text → redis.World → ℕ
  pub ran : Text → List Command → redis.World → List Command
  pub total-exec :
      (f hour : Text) (cs : List Command) (w : redis.World)
      → total f (redis.exec hour cs w).0 ≡ total f w + sum_of f (ran hour cs w)
  pub all_ran :
      (hour : Text) (cs : List Command) (w : redis.World)
      → (redis.exec hour cs w).1 ≡ true
      → ran hour cs w ≡ cs

-- What a flush has of a cell, between its counter and Redis.
abbrev pub in_flight : Direction → Text → Phase → ℕ
in_flight dir nr idle = 0
in_flight dir nr (swapping todo pending) = held dir nr pending
in_flight dir nr (half_swapped other u todo pending) =
    held dir nr pending + (if same_cell other Direction.up nr dir then u else 0)
in_flight dir nr (sending pending) = held dir nr pending
in_flight dir nr (rolling pending) = held dir nr pending
in_flight dir nr (half_rolled i pending) =
    held dir nr pending + (if same_cell i.device_no Direction.down nr dir then i.down else 0)

-- The bytes that the calls of a run add to a cell that is tracked.
abbrev pub added : Direction → Text → List Event → ℕ
added dir nr [] = 0
added dir nr (adding e other n ∷ events) =
    (if same_cell other e nr dir then pos_part n else 0) + added dir nr events
added dir nr (ticking order ∷ events) = added dir nr events
added dir nr (flushing hour ∷ events) = added dir nr events

nonpos_part : (n : ℤ) → is_nonpos n ≡ true → pos_part n ≡ 0
nonpos_part (pos n) h = ground arith
nonpos_part (negsuc n) h = refl

module _ (redis : Redis) (laws : RedisLaws redis) (service : Text) (dir : Direction)
    (nr : Text) where
  open redis use {World, exec}
  open laws use {total, ran}

  abbrev field : Text
  field = build_field nr service dir

  -- What an Exec that gave an error had added all the same: it goes back into memory too.
  abbrev pub twice_at : Text → Phase → World → ℕ
  twice_at hour (sending pending) w =
      if (exec hour (commands service pending) w).1
      then 0
      else sum_of field (ran hour (commands service pending) w)
  twice_at hour phase w = 0

  abbrev pub twice_in : Event → Tracker × World → ℕ
  twice_in (flushing hour) (t, w) = twice_at hour t.phase w
  twice_in (adding e other n) s = 0
  twice_in (ticking order) s = 0

  unfoldable pub twice : List Event → Tracker × World → ℕ
  twice [] s = 0
  twice (x ∷ events) s = twice_in x s + twice events (step redis service x s)

  -- What the counter, the flush and Redis have of the cell.
  abbrev pub everything : Tracker × World → ℕ
  everything (t, w) = value_of dir nr t.counters + in_flight dir nr t.phase + total field w

  -- The counter and the flush.
  abbrev unsent : Tracker × World → ℕ
  unsent (t, w) = value_of dir nr t.counters + in_flight dir nr t.phase

  -- A step with a extra bytes of which b are in Redis.
  record Moves (added_now twice_now : ℕ) (s s' : Tracker × World) : Type 0 where
    pub conserves : everything s' ≡ everything s + added_now + twice_now
    pub bounded : unsent s' ≤ unsent s + added_now
    pub tracks : is_tracked nr s'.0.counters ≡ is_tracked nr s.0.counters

  flush-Moves :
      (hour : Text) (cs : List CounterPair) (phase : Phase) (w : World)
      → is_tracked nr cs ≡ true
      → value_of dir nr cs + in_flight dir nr phase < int64_half
      → Moves 0
          (twice_at hour phase w)
          (record { counters = cs; phase = phase }, w)
          (flush_step redis service hour cs phase w)
  unfolding flush_step
  flush-Moves hour cs idle w h b = record {
    conserves = omega arith;
    bounded = omega arith;
    tracks = refl;
  }
  flush-Moves hour cs (swapping [] []) w h b = record {
    conserves = omega arith;
    bounded = omega arith;
    tracks = refl;
  }
  flush-Moves hour cs (swapping [] (i ∷ pending)) w h b = record {
    conserves = omega arith;
    bounded = omega arith;
    tracks = refl;
  }
  flush-Moves hour cs (swapping (other ∷ todo) pending) w h b =
      let swap = value-swap dir Direction.up nr other cs in
      record {
        conserves = omega arith;
        bounded = omega arith;
        tracks = tracked-zero Direction.up nr other cs;
      }
  flush-Moves hour cs (half_swapped other u todo pending) w h b =
      let d = value_of Direction.down other cs in
      let i : PendingItem = record { device_no = other; up = u; down = d } in
      let swap = value-swap dir Direction.down nr other cs in
      let cells = item_cells dir nr i in
      let small : (if same_text other nr then item_value dir i else 0) < int64_half = omega arith in
      let appended = held-item dir nr other u d pending (λ e. rw e at small) in
      record {
        conserves = omega arith;
        bounded = omega arith;
        tracks = tracked-zero Direction.down nr other cs;
      }
  flush-Moves hour cs (sending pending) w h b =
      let cmds = commands service pending in
      let counted = laws.total-exec field hour cmds w in
      let sum = sum-commands service dir nr pending (omega arith) in
      elim (Bool-cases (exec hour cmds w).1) [
        | inl good ↦
            let all = ap (sum_of field) (laws.all_ran hour cmds w good) in
            rw good (record { conserves = omega arith; bounded = omega arith; tracks = refl })
        | inr bad ↦
            rw bad (record { conserves = omega arith; bounded = omega arith; tracks = refl })
      ]
  flush-Moves hour cs (rolling []) w h b = record {
    conserves = omega arith;
    bounded = omega arith;
    tracks = refl;
  }
  flush-Moves hour cs (rolling (i ∷ pending)) w h b =
      let cells = item_cells dir nr i in
      let exact = value-add_exact dir Direction.up nr i.device_no i.up cs h (omega arith) in
      record {
        conserves = omega arith;
        bounded = omega arith;
        tracks = tracked-add Direction.up nr i.device_no i.up cs;
      }
  flush-Moves hour cs (half_rolled i pending) w h b =
      let cells = item_cells dir nr i in
      let exact = value-add_exact dir Direction.down nr i.device_no i.down cs h (omega arith) in
      record {
        conserves = omega arith;
        bounded = omega arith;
        tracks = tracked-add Direction.down nr i.device_no i.down cs;
      }

  add-Moves :
      (e : Direction) (other : Text) (n : ℤ) (t : Tracker) (w : World)
      → is_tracked nr t.counters ≡ true
      → unsent (t, w) + (if same_cell other e nr dir then pos_part n else 0) < int64_half
      → Moves
          (if same_cell other e nr dir then pos_part n else 0)
          0
          (t, w)
          (record t { counters = add_bytes e other n t.counters }, w)
  unfolding add_bytes
  add-Moves e other n t w h b = elim (Bool-cases (is_nonpos n)) [
    | inl nothing ↦
        let nought = nonpos_part n nothing in
        rw (nothing, nought)
          (elim (Bool-cases (same_cell other e nr dir)) [
            | inl mine ↦
                rw mine (record { conserves = omega arith; bounded = omega arith; tracks = refl })
            | inr alien ↦
                rw alien (record { conserves = omega arith; bounded = omega arith; tracks = refl })
          ])
    | inr some_bytes ↦
        let exact = value-add_exact dir e nr other (pos_part n) t.counters h (omega arith) in
        rw some_bytes (record {
          conserves = omega arith;
          bounded = omega arith;
          tracks = tracked-add e nr other (pos_part n) t.counters;
        })
  ]

  tick-Moves :
      (order : List Text) (cs : List CounterPair) (phase : Phase) (w : World)
      → Moves 0 0
          (record { counters = cs; phase = phase }, w)
          (record { counters = cs; phase = start_flush order phase }, w)
  tick-Moves order cs idle w = record {
    conserves = omega arith;
    bounded = omega arith;
    tracks = refl;
  }
  tick-Moves order cs (swapping todo pending) w = record {
    conserves = omega arith;
    bounded = omega arith;
    tracks = refl;
  }
  tick-Moves order cs (half_swapped other u todo pending) w = record {
    conserves = omega arith;
    bounded = omega arith;
    tracks = refl;
  }
  tick-Moves order cs (sending pending) w = record {
    conserves = omega arith;
    bounded = omega arith;
    tracks = refl;
  }
  tick-Moves order cs (rolling pending) w = record {
    conserves = omega arith;
    bounded = omega arith;
    tracks = refl;
  }
  tick-Moves order cs (half_rolled i pending) w = record {
    conserves = omega arith;
    bounded = omega arith;
    tracks = refl;
  }

  abbrev added_now : Event → ℕ
  added_now (adding e other n) = if same_cell other e nr dir then pos_part n else 0
  added_now (ticking order) = 0
  added_now (flushing hour) = 0

  step-Moves :
      (x : Event) (s : Tracker × World)
      → is_tracked nr s.0.counters ≡ true
      → unsent s + added_now x < int64_half
      → Moves (added_now x) (twice_in x s) s (step redis service x s)
  unfolding step
  step-Moves (adding e other n) (t, w) h b = add-Moves e other n t w h b
  step-Moves (ticking order) (t, w) h b = tick-Moves order t.counters t.phase w
  step-Moves (flushing hour) (t, w) h b = flush-Moves hour t.counters t.phase w h (omega arith)

  added_cons :
      (x : Event) (events : List Event)
      → added dir nr (x ∷ events) ≡ added_now x + added dir nr events
  added_cons (adding e other n) events = refl
  added_cons (ticking order) events = omega arith
  added_cons (flushing hour) events = omega arith

  -- In every order of additions, ticks and steps of the flush, for a tracked device and a direction:
  -- what the counter, the flush and Redis have is what they had and what was added, and what an Exec
  -- that gave an error had counted, which is then counted twice. This needs fewer than 2 ^ 63 bytes,
  -- and that a pipeline without an error has run all of its commands.
  pub run-conserves :
      (events : List Event) (s : Tracker × World)
      → is_tracked nr s.0.counters ≡ true
      → value_of dir nr s.0.counters + in_flight dir nr s.0.phase + added dir nr events < int64_half
      → everything (run redis service events s)
        ≡ everything s + added dir nr events + twice events s
  unfolding run twice
  run-conserves [] s h b = omega arith
  run-conserves (x ∷ events) s h b =
      let split = added_cons x events in
      let now = step-Moves x s h (omega arith) in
      let conserved = now.conserves in
      let bounded = now.bounded in
      let rest = run-conserves events (step redis service x s) (now.tracks ∙ h) (omega arith) in
      omega arith
