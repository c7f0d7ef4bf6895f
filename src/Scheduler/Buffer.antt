-- ===== src/Scheduler/Buffer.antt =====
-- The in-memory queue of pkg/scheduler/submit_buffer.go. Every method holds the mutex, so a method
-- is one step; `notify` is the one-slot channel, which holds a signal or not.
pub mod Laws
use compkg.Common.{
  ℕ, zero, suc, ◌-◌, String, Bool, true, false, ◌||◌, List, [], ◌∷◌, ◌++◌, length, take, drop, ltb,
  leb, if◌then◌else◌,
}
use compkg.Common.Int.{ℤ, pos_part, is_nonpos}

-- pkg/scheduler/submit.go; the payload is its bytes.
pub record SubmitOptions : Type 0 where
  pub job_name : String
  pub biz_key : String
  pub payload : List ℕ
  pub dedupe_window_sec : ℤ
  pub trace_id : String
  pub span_id : String

pub record BufferedTask : Type 0 where
  pub opts : SubmitOptions
  pub enqueued_at : ℕ
  pub attempts : ℕ

-- `New` makes the buffer after `applyDefaults`, so the capacity is positive.
pub record SubmitBuffer : Type 0 where
  pub cap : ℕ
  pub queue : List BufferedTask
  pub notify : Bool

unfoldable pub new_submit_buffer : ℕ → SubmitBuffer
new_submit_buffer capacity = record { cap = capacity; queue = []; notify = false }

unfoldable pub push : BufferedTask → SubmitBuffer → SubmitBuffer × Bool
push t b =
    if leb b.cap (length b.queue)
    then (b, false)
    else (record b { queue = b.queue ++ t ∷ []; notify = true }, true)

-- `max <= 0 || max > len(queue)` takes all.
abbrev pub batch_size : ℤ → ℕ → ℕ
batch_size max n = if is_nonpos max || ltb n (pos_part max) then n else pos_part max

unfoldable pub drain : ℤ → SubmitBuffer → SubmitBuffer × List BufferedTask
drain max b =
    let n = batch_size max (length b.queue) in (record b { queue = drop n b.queue }, take n b.queue)

-- Over the capacity the oldest tasks are dropped.
abbrev keep_newest : ℕ → List BufferedTask → List BufferedTask
keep_newest cap merged =
    if ltb cap (length merged) then drop (length merged - cap) merged else merged

unfoldable pub put_back : List BufferedTask → SubmitBuffer → SubmitBuffer
put_back [] b = b
put_back (t ∷ ts) b = record b { queue = keep_newest b.cap ((t ∷ ts) ++ b.queue) }

unfoldable pub len : SubmitBuffer → ℕ
len b = length b.queue
