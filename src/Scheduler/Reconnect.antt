-- ===== src/Scheduler/Reconnect.antt =====
-- The delays of pkg/scheduler/stream.go: runStreamLoop's backoff and the interval of runHeartbeat.
-- How long a session lasts and how it ends is outside.
use compkg.Common.{
  ℕ, ◌*◌, ◌^◌, ◌<◌, Bool, true, false, List, [], ◌∷◌, All, ltb, if◌then◌else◌, arith, Bool-cases,
  inl, inr, ◌≡◌, sym,
}
use mathlib.Core.Path.{subst}
use compkg.Common.Int.{ℤ, pos, negsuc, ltb_ℤ, is_nonpos, double64, ◌≤ℤ◌, ◌<ℤ◌}
use compkg.Scheduler.Config.{Config, IsUsable, second}

-- A session as the loop sees it: its length, and whether Stop came during it or during the wait
-- after it.
pub record SessionEnd : Type 0 where
  pub lasted : ℕ
  pub stopped : Bool
  pub stopped_waiting : Bool

unfoldable pub next_backoff : Config → ℤ → ℤ
next_backoff c backoff =
    let doubled = double64 backoff in
    if ltb_ℤ c.reconnect_max_backoff doubled then c.reconnect_max_backoff else doubled

-- The backoff after a session: over 30 seconds it starts again.
unfoldable pub session_backoff : Config → SessionEnd → ℤ → ℤ
session_backoff c e backoff =
    if ltb (30 * second) e.lasted then c.reconnect_min_backoff else backoff

-- The waits of the loop, one for each session that ends before Stop.
unfoldable pub backoffs_from : Config → ℤ → List SessionEnd → List ℤ
unfolding session_backoff
backoffs_from c backoff [] = []
backoffs_from c backoff (e ∷ ends) =
    let wait = session_backoff c e backoff in
    let rest = backoffs_from c (next_backoff c wait) ends in
    if e.stopped then [] else if e.stopped_waiting then wait ∷ [] else wait ∷ rest

unfoldable pub run_stream_loop : Config → List SessionEnd → List ℤ
run_stream_loop c ends = backoffs_from c c.reconnect_min_backoff ends

-- The interval of a RegisterResponse, in seconds, and the one that runHeartbeat takes.
unfoldable pub negotiate : ℤ → ℤ → ℤ
negotiate (pos n) delay = if ltb 0 n then pos (n * second) else delay
negotiate (negsuc n) delay = delay

unfoldable pub heartbeat_delay : Config → ℤ → ℤ
heartbeat_delay c negotiated = if is_nonpos negotiated then c.heartbeat_interval else negotiated

abbrev Between : Config → ℤ → Type 0
Between c x = (c.reconnect_min_backoff ≤ℤ x) × (x ≤ℤ c.reconnect_max_backoff)

double64-pos : (n : ℕ) → n < 2 ^ 62 → double64 (pos n) ≡ pos (2 * n)
double64-pos n h = ground arith

capped : ℤ → ℤ → ℤ
capped hi x = if ltb_ℤ hi x then hi else x

capped-between : (lo hi x : ℤ) → lo ≤ℤ x → lo ≤ℤ hi → (lo ≤ℤ capped hi x) × (capped hi x ≤ℤ hi)
unfolding capped
capped-between lo hi x h k = ground arith

doubled-above :
    (lo hi x : ℤ) → pos 0 <ℤ lo → hi <ℤ pos (2 ^ 62) → lo ≤ℤ x → x ≤ℤ hi → lo ≤ℤ double64 x
doubled-above lo hi (pos n) h small a b =
    subst (λ y. lo ≤ℤ y) (sym (double64-pos n (omega arith))) (omega arith)
doubled-above lo hi (negsuc n) h small a b = absurd (omega arith)

next_backoff-Between :
    (c : Config) (x : ℤ)
    → IsUsable c
    → c.reconnect_max_backoff <ℤ pos (2 ^ 62)
    → Between c x
    → Between c (next_backoff c x)
unfolding next_backoff capped
next_backoff-Between c x u small (b0, b1) =
    let lo = c.reconnect_min_backoff in
    let hi = c.reconnect_max_backoff in
    capped-between lo hi (double64 x) (doubled-above lo hi x u.min_backoff small b0 b1) u.backoff

session_backoff-Between :
    (c : Config) (e : SessionEnd) (x : ℤ)
    → IsUsable c
    → Between c x
    → Between c (session_backoff c e x)
unfolding session_backoff
session_backoff-Between c e x u b = elim (Bool-cases (ltb (30 * second) e.lasted)) [
  | inl long ↦ rw (long, session_backoff) (omega arith, u.backoff)
  | inr short ↦ rw (short, session_backoff) b
]

if-All :
    (P : ℤ → Type 0) (stopped waiting : Bool) (x : ℤ) (rest : List ℤ)
    → P x
    → All P rest
    → All P (if stopped then [] else if waiting then x ∷ [] else x ∷ rest)
if-All P true waiting x rest p all = tt
if-All P false true x rest p all = (p, tt)
if-All P false false x rest p all = (p, all)

backoffs_from-Between :
    (c : Config) (x : ℤ) (ends : List SessionEnd)
    → IsUsable c
    → c.reconnect_max_backoff <ℤ pos (2 ^ 62)
    → Between c x
    → All (Between c) (backoffs_from c x ends)
unfolding backoffs_from
backoffs_from-Between c x [] u small b = tt
backoffs_from-Between c x (e ∷ ends) u small b =
    let wait = session_backoff c e x in
    let kept = session_backoff-Between c e x u b in
    let later =
      backoffs_from-Between c (next_backoff c wait) ends u small
        (next_backoff-Between c wait u small kept) in
    if-All (Between c) e.stopped e.stopped_waiting wait (backoffs_from c (next_backoff c wait) ends)
      kept later

-- Of a usable configuration whose maximal backoff is below 2^62, every wait is from the minimal to
-- the maximal backoff.
pub run_stream_loop-Between :
    (c : Config) (ends : List SessionEnd)
    → IsUsable c
    → c.reconnect_max_backoff <ℤ pos (2 ^ 62)
    → All
        (λ x. (c.reconnect_min_backoff ≤ℤ x) × (x ≤ℤ c.reconnect_max_backoff))
        (run_stream_loop c ends)
unfolding run_stream_loop
run_stream_loop-Between c ends u small =
    backoffs_from-Between c c.reconnect_min_backoff ends u small (omega arith, u.backoff)
