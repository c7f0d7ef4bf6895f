-- ===== src/Health/Runs.antt =====
-- Runs of the reporters of one service, of pkg/health/health.go: calls of any instances in any order.
use compkg.Common.{
  ℕ, suc, ◌≤◌, ◌<◌, ◌≡◌, refl, ◌∙◌, String, Bool, true, false, ◌==◌, Bool-cases, ◌&&◌, ◌||◌, inl,
  inr, Option, none, some, List, [], ◌∷◌, All, str_eq, if◌then◌else◌, arith,
}
use compkg.Health.{Key, key_for, Store, Reporter, with_defaults, seconds, beat, start, stop}
use compkg.Health.Beats.{IsSortedSet, fresh, beat-score, stop_again, stop-score}

pub data Event : Type 0 where
  starts beats stops : ℕ → Reporter → Event

abbrev pub time_of : Event → ℕ
time_of (starts t r) = t
time_of (beats t r) = t
time_of (stops t r) = t

abbrev is_incomplete : Reporter → Bool
is_incomplete r = str_eq r.service "" || str_eq r.instance_id ""

-- The numbers of the reporters whose Stop was called.
abbrev pub is_stopped : Reporter → List ℕ → Bool
is_stopped r [] = false
is_stopped r (n ∷ stopped) = r.number == n || is_stopped r stopped

abbrev pub stopped_after : Event → List ℕ → List ℕ
stopped_after (starts t r) stopped = stopped
stopped_after (beats t r) stopped = stopped
stopped_after (stops t r) stopped = r.number ∷ stopped

-- The time of the last heartbeat of an instance, from the one before the event. Only the first Stop of a
-- reporter counts.
abbrev pub heard : List ℕ → Event → String → Option ℕ → Option ℕ
heard stopped (starts t r) j last =
    if is_incomplete r then last else (if str_eq r.instance_id j then some t else last)
heard stopped (beats t r) j last = if str_eq r.instance_id j then some t else last
heard stopped (stops t r) j last =
    if is_stopped r stopped then last else (if str_eq r.instance_id j then none else last)

abbrev pub last_beat : List ℕ → List Event → String → Option ℕ → Option ℕ
last_beat stopped [] j last = last
last_beat stopped (e ∷ events) j last =
    last_beat (stopped_after e stopped) events j (heard stopped e j last)

-- Events of a time and later, one after the other, up to another time.
abbrev pub InOrder : ℕ → List Event → ℕ → Type 0
InOrder from [] now = from ≤ now
InOrder from (e ∷ events) now = (from ≤ time_of e) × InOrder (time_of e) events now

abbrev settings_of : Event → Reporter
settings_of (starts t r) = with_defaults r
settings_of (beats t r) = r
settings_of (stops t r) = r

-- A reporter of the service whose StaleCleanup is longer than the reader's window, in whole seconds.
abbrev pub Fits : Key → ℕ → Event → Type 0
Fits key window e =
    (key_for (settings_of e).prefix (settings_of e).service ≡ key)
    × (window < seconds (settings_of e).stale_cleanup)

module _ {W : Type 0} (store : Store W) where
  unfoldable pub step : List ℕ → Event → W → W × Bool
  step stopped (starts t r) w = (start store t r w).1
  step stopped (beats t r) w = beat store t r w
  step stopped (stops t r) w = stop store (is_stopped r stopped) r w

  unfoldable pub run : List ℕ → List Event → W → W × Bool
  run stopped [] w = (w, true)
  run stopped (e ∷ events) w =
      let (next, ok) = step stopped e w in
      let (last, all_ok) = run (stopped_after e stopped) events next in (last, ok && all_ok)

fresh-fresh :
    (now t stale window : ℕ) (x : Option ℕ)
    → t ≤ now
    → window < stale
    → fresh now (suc window) (fresh t stale x) ≡ fresh now (suc window) x
fresh-fresh now t stale window none h s = refl
fresh-fresh now t stale window (some u) h s = ground arith

module _ {W : Type 0} (store : Store W) (score : W → Key → String → Option ℕ)
    (laws : IsSortedSet store score) (key : Key) (window : ℕ) (j : String) where
  abbrev pub Agrees : ℕ → Option ℕ → Option ℕ → Type 0
  Agrees from s last =
      (now : ℕ) → from ≤ now → fresh now (suc window) s ≡ fresh now (suc window) last

  beat-Agrees :
      (from t : ℕ) (r : Reporter) (w : W) (last : Option ℕ)
      → Agrees from (score w key j) last
      → from ≤ t
      → key_for r.prefix r.service ≡ key
      → window < seconds r.stale_cleanup
      → (beat store t r w).1 ≡ true
      → Agrees t
          (score (beat store t r w).0 key j)
          (if str_eq r.instance_id j then some t else last)
  beat-Agrees from t r w last agrees order same stale ok now later =
      let put = rw same at (beat-score store score laws t r w j ok) in
      let old = agrees now (omega arith) in
      rw put (
        fresh-fresh now t (seconds r.stale_cleanup) window
          (if str_eq r.instance_id j then some t else score w key j) later stale
        ∙ (elim (Bool-cases (str_eq r.instance_id j)) [ inl e ↦ rw e refl | inr e ↦ rw e old ]))

  step-Agrees :
      (stopped : List ℕ) (from : ℕ) (e : Event) (w : W) (last : Option ℕ)
      → Agrees from (score w key j) last
      → from ≤ time_of e
      → Fits key window e
      → (step store stopped e w).1 ≡ true
      → Agrees (time_of e) (score (step store stopped e w).0 key j) (heard stopped e j last)
  unfolding step start with_defaults
  step-Agrees stopped from (starts t r) w last agrees order (same, stale) ok now later =
      elim (Bool-cases (is_incomplete r)) [
        | inl e ↦ rw (step, start, e) (agrees now (omega arith))
        | inr e ↦
            rw (step, start, e)
              (beat-Agrees from t (with_defaults r) w last agrees order same stale
                (rw (step, start, e) at ok) now later)
      ]
  step-Agrees stopped from (beats t r) w last agrees order (same, stale) ok now later =
      beat-Agrees from t r w last agrees order same stale ok now later
  step-Agrees stopped from (stops t r) w last agrees order (same, stale) ok now later =
      let old = agrees now (omega arith) in
      elim (Bool-cases (is_stopped r stopped)) [
        | inl before ↦ rw (step, before, stop_again store score laws r w) old
        | inr first ↦
            let fine : (stop store false r w).1 ≡ true = rw (step, first) at ok in
            let put = rw same at (stop-score store score laws r w j fine) in
            rw (step, first, put)
              (elim (Bool-cases (str_eq r.instance_id j)) [ inl e ↦ rw e refl | inr e ↦ rw e old ])
      ]

  pub run-Agrees :
      (stopped : List ℕ) (from : ℕ) (events : List Event) (now : ℕ) (w : W) (last : Option ℕ)
      → Agrees from (score w key j) last
      → InOrder from events now
      → All (Fits key window) events
      → (run store stopped events w).1 ≡ true
      → fresh now (suc window) (score (run store stopped events w).0 key j)
        ≡ fresh now (suc window) (last_beat stopped events j last)
  unfolding run
  run-Agrees stopped from [] now w last agrees order fits ok = agrees now order
  run-Agrees stopped from (e ∷ events) now w last agrees (order, rest) (fit, fits) ok =
      run-Agrees (stopped_after e stopped) (time_of e) events now (step store stopped e w).0
        (heard stopped e j last) (step-Agrees stopped from e w last agrees order fit (ground arith))
        rest fits (ground arith)
