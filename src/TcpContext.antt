-- ===== src/TcpContext.antt =====
-- The trace contexts of pkg/trace/tcp_context.go, kept by message until the acknowledgement comes. Times
-- are nanoseconds. A span context with its test is a parameter; each call holds the mutex, so calls and
-- rounds of the sweeper are steps one after the other.
pub mod Sweeps
use compkg.Common.{
  ℕ, ◌+◌, ◌*◌, Bool, true, false, ◌||◌, String, Option, none, some, List, [], ◌∷◌, str_eq, ltb,
  if◌then◌else◌,
}
use compkg.Common.Int.{ℤ, pos, pos_part, ltb_ℤ, is_nonpos}
use compkg.Common.Dict.{Dict, store, delete, empty}

module _ (SpanContext : Type 0) (is_valid : SpanContext → Bool) where
  pub record TcpEntry : Type 0 where
    pub sc : SpanContext
    pub device_no : String
    pub ins_type : String
    pub expire_at : ℕ

  pub record TcpContextMap : Type 0 where
    pub items : Dict TcpEntry
    pub max_ttl : ℤ
    pub closed : Bool

  -- What Load answers: nothing, an entry without a valid context, or one with it.
  pub data Answer : Type 0 where
    missed : Answer
    invalid : String → String → Answer
    loaded : SpanContext → String → String → Answer

  unfoldable pub new_tcp_context_map : ℤ → TcpContextMap
  new_tcp_context_map max_ttl = record {
    items = empty;
    max_ttl = if is_nonpos max_ttl then pos (600 * 1000000000) else max_ttl;
    closed = false;
  }

  unfoldable pub save :
      ℕ → SpanContext → String → ℤ → String → String → TcpContextMap → TcpContextMap
  save now sc msg_id ttl device_no ins_type m =
      if m.closed || str_eq msg_id ""
      then m
      else (let life = if is_nonpos ttl || ltb_ℤ m.max_ttl ttl then m.max_ttl else ttl in
          let entry : TcpEntry = record {
            sc = sc;
            device_no = device_no;
            ins_type = ins_type;
            expire_at = now + pos_part life;
          } in
          record m { items = store msg_id entry m.items })

  unfoldable pub answer_of : ℕ → Option TcpEntry → Answer
  answer_of now none = missed
  answer_of now (some e) =
      if ltb e.expire_at now
      then missed
      else (if is_valid e.sc
          then loaded e.sc e.device_no e.ins_type
          else invalid e.device_no e.ins_type)

  unfoldable pub load : ℕ → String → TcpContextMap → TcpContextMap × Answer
  load now msg_id m =
      if m.closed || str_eq msg_id ""
      then (m, missed)
      else (record m { items = delete msg_id m.items }, answer_of now (m.items msg_id))

  unfoldable pub close : TcpContextMap → TcpContextMap
  close m = record m { closed = true }

  abbrev pub live : ℕ → Option TcpEntry → Option TcpEntry
  live now none = none
  live now (some e) = if ltb e.expire_at now then none else some e

  unfoldable pub sweep : ℕ → TcpContextMap → TcpContextMap
  sweep now m = record m { items = λ k. live now (m.items k) }

  pub data Call : Type 0 where
    saves : ℕ → SpanContext → String → ℤ → String → String → Call
    loads : ℕ → String → Call
    sweeps : ℕ → Call
    closes : ℕ → Call

  -- The answers of the loads of a run.
  unfoldable pub run : List Call → TcpContextMap → List Answer
  run [] m = []
  run (saves now sc msg_id ttl device_no ins_type ∷ calls) m =
      run calls (save now sc msg_id ttl device_no ins_type m)
  run (loads now msg_id ∷ calls) m =
      let (next, answer) = load now msg_id m in answer ∷ run calls next
  run (sweeps now ∷ calls) m = run calls (sweep now m)
  run (closes now ∷ calls) m = run calls (close m)
