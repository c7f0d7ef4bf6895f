-- ===== src/Timer/Due.antt =====
-- Which timers of pkg/timer/timer.go a tick starts, and which it does not look at.
use compkg.Common.{
  ℕ, ◌+◌, ◌≤◌, ◌≡◌, refl, sym, ap, inl, inr, false, Bool-cases, List, [], ◌∷◌, ltb, All, arith,
  if◌then◌else◌,
}
use mathlib.Core.Path.{subst}
use compkg.Timer.{
  TimerStr, Timers, is_due, reschedule, least_next, range_from, next_after, iterator_timer,
  five_seconds,
}

abbrev pub due_indices : ℕ → List TimerStr → List ℕ
due_indices now [] = []
due_indices now (t ∷ timers) =
    if is_due now t then t.index ∷ due_indices now timers else due_indices now timers

abbrev pub rescheduled : ℕ → List TimerStr → List TimerStr
rescheduled now [] = []
rescheduled now (t ∷ timers) =
    (if is_due now t then reschedule now t else t) ∷ rescheduled now timers

range_from-due :
    (place now new_next : ℕ) (timers : List TimerStr)
    → ((range_from place now new_next timers).started ≡ due_indices now timers)
      × ((range_from place now new_next timers).timers ≡ rescheduled now timers)
unfolding range_from
range_from-due place now new_next [] = (refl, refl)
range_from-due place now new_next (t ∷ timers) = elim (Bool-cases (is_due now t)) [
  | inl due ↦
      let n = least_next place (reschedule now t).next_time new_next in
      let (a, b) = range_from-due (place + 1) now n timers in
      rw due (ap (λ l. t.index ∷ l) a, ap (λ l. reschedule now t ∷ l) b)
  | inr early ↦
      let (a, b) = range_from-due (place + 1) now new_next timers in rw early (a, ap (λ l. t ∷ l) b)
]

-- No timer that was passed over is due.
none_due :
    (now : ℕ) (timers : List TimerStr) → All (λ t. now ≤ t.next_time) (rescheduled now timers)
none_due now [] = tt
none_due now (t ∷ timers) = elim (Bool-cases (is_due now t)) [
  | inl due ↦ elim (Bool-cases (ltb (t.next_time + t.space_time) now)) [
    | inl behind ↦ rw (due, behind) (omega arith, none_due now timers)
    | inr ahead ↦
        let h : now ≤ t.next_time + t.space_time = ground arith in
        rw (due, ahead) (h, none_due now timers)
  ]
  | inr early ↦ let h : now ≤ t.next_time = ground arith in rw early (h, none_due now timers)
]

-- A tick that iterates starts exactly the timers that are due, once each and in the order of the
-- range, sets the next time of each of these and of no other, and leaves no timer due.
iterator_timer-due :
    (now : ℕ) (s : Timers)
    → ((iterator_timer now s).1 ≡ due_indices now s.timer_map)
      × (((iterator_timer now s).0.timer_map ≡ rescheduled now s.timer_map)
          × All (λ t. now ≤ t.next_time) (iterator_timer now s).0.timer_map)
unfolding iterator_timer
iterator_timer-due now s =
    let (started, timers) = range_from-due 1 now (now + five_seconds) s.timer_map in
    (
      started,
      (timers, subst (All (λ t. now ≤ t.next_time)) (sym timers) (none_due now s.timer_map)),
    )

-- Lists of timers that differ only in the next times of timers that are not due.
pub data SameDue (now : ℕ) : List TimerStr → List TimerStr → Type 0 where
  same_nil : SameDue now [] []
  same_due :
      {t : TimerStr} {ts us : List TimerStr} → SameDue now ts us → SameDue now (t ∷ ts) (t ∷ us)
  other_waiting :
      {t u : TimerStr} {ts us : List TimerStr}
      → is_due now t ≡ false
      → is_due now u ≡ false
      → SameDue now ts us
      → SameDue now (t ∷ ts) (u ∷ us)

range_from-waiting :
    (place now new_next : ℕ) (ts us : List TimerStr)
    → SameDue now ts us
    → (range_from place now new_next ts).new_next ≡ (range_from place now new_next us).new_next
unfolding range_from
range_from-waiting place now new_next [] [] same_nil = refl
range_from-waiting place now new_next (t ∷ ts) (_ ∷ us) (same_due h) =
    elim (Bool-cases (is_due now t)) [
      | inl due ↦ rw due (
          range_from-waiting (place + 1) now
            (least_next place (reschedule now t).next_time new_next) ts us h)
      | inr early ↦ rw early (range_from-waiting (place + 1) now new_next ts us h)
    ]
range_from-waiting place now new_next (t ∷ ts) (u ∷ us) (other_waiting early late h) =
    rw (early, late) (range_from-waiting (place + 1) now new_next ts us h)
range_from-waiting place now new_next [] (u ∷ us) h = elim h [ ]
range_from-waiting place now new_next (t ∷ ts) [] h = elim h [ ]

-- The time up to which all ticks are skipped does not depend on when the timers that are not due yet
-- will be: with any other times for them it is the same, however soon they are due.
pub iterator_timer-waiting :
    (now : ℕ) (s : Timers) (others : List TimerStr)
    → SameDue now s.timer_map others
    → (iterator_timer now s).0.next_time
      ≡ (iterator_timer now (record s { timer_map = others })).0.next_time
unfolding iterator_timer
iterator_timer-waiting now s others h =
    ap (next_after now s.next_time)
      (range_from-waiting 1 now (now + five_seconds) s.timer_map others h)
