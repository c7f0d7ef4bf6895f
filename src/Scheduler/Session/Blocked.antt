-- ===== src/Scheduler/Session/Blocked.antt =====
-- When runOneSession of pkg/scheduler/stream.go does not return.
use compkg.Common.{
  ◌≤◌, ◌≡◌, refl, ap, ◌∙◌, true, false, none, some, List, [], ◌∷◌, All, ◌⊎◌, inl, inr, length,
  str_eq, arith,
}
use compkg.Scheduler.Executor.{
  Dispatch, next, waits, take_slot, on_dispatch, send_or_drop, finish, send_heartbeat,
}
use compkg.Scheduler.Session.{
  SessionError, SchedulerMessage, dispatch, Link, Turn, receives, sends, handler_ends, ticks, stops,
  handle_message, receive_from, receive, sender_turn, take_turn, serve, session_result,
}

abbrev pub IsNotStop : Turn → Type 0
IsNotStop stops = ⊥
IsNotStop _ = Unit

-- The sender has failed, the channel is full, and a dispatch with a run id is to be handled.
pub record IsBlocked (l : Link) (e : SessionError) (d : Dispatch) (rest : List SchedulerMessage)
    : Type 0 where
  pub receiving : l.recv_result ≡ none
  pub failed : l.send_error ≡ some e
  pub next_message : l.inbox ≡ dispatch d ∷ rest
  pub named : str_eq d.run_id "" ≡ false
  pub not_done : l.executor.session.done ≡ false
  pub not_closed : l.executor.session.closed ≡ false
  pub full : 64 ≤ length l.executor.session.queued

-- The loop has taken the slot of the dispatch, where it had not.
unfoldable pub hold : Link → Link
hold l = record l { executor = take_slot l.executor }

-- What the turns can lead to.
abbrev pub Stuck : Link → Link → Type 0
Stuck l k = (k ≡ l) ⊎ ((l.executor.holding ≡ false) × (k ≡ hold l))

module _ {l : Link} {e : SessionError} {d : Dispatch} {rest : List SchedulerMessage}
    (b : IsBlocked l e d rest) where
  turn_blocked :
      (t : Turn)
      → IsNotStop t
      → (take_turn t l ≡ waits l)
        ⊎ ((take_turn t l ≡ next l)
            ⊎ ((l.executor.holding ≡ false) × (take_turn t l ≡ waits (hold l))))
  unfolding take_turn receive receive_from handle_message on_dispatch take_slot hold sender_turn
      finish send_heartbeat send_or_drop
  turn_blocked (receives pick) ok =
      ground (arith, b.receiving, b.next_message, b.named, b.not_done, b.not_closed, b.full)
  turn_blocked (sends answer) ok = ground (arith, b.failed)
  turn_blocked (handler_ends pick gid h started ended) ok =
      ground (arith, b.not_done, b.not_closed, b.full)
  turn_blocked (ticks pick ts uptime_sec) ok = ground (arith, b.not_done, b.not_closed, b.full)
  turn_blocked stops ok = absurd ok

  hold-IsBlocked : IsBlocked (hold l) e d rest
  unfolding hold take_slot
  hold-IsBlocked = ground (arith, b)

holding-hold : (l : Link) → (hold l).executor.holding ≡ true
unfolding hold take_slot
holding-hold l = ground arith

Stuck-hold : (l k : Link) → Stuck (hold l) k → k ≡ hold l
Stuck-hold l k (inl same) = same
Stuck-hold l k (inr (free, again)) = cc (free, holding-hold l)

serve_blocked :
    {e : SessionError} {d : Dispatch} {rest : List SchedulerMessage} (ts : List Turn) (l : Link)
    → IsBlocked l e d rest
    → All IsNotStop ts
    → (k : Link) × (serve ts l ≡ next k) × Stuck l k
unfolding serve
serve_blocked [] l b ok = (l, refl, inl refl)
serve_blocked (t ∷ ts) l b ok = elim (turn_blocked b t ok.0) [
  | inl waited ↦ rw (waited, serve) (serve_blocked ts l b ok.1)
  | inr (inl same) ↦ rw (same, serve) (serve_blocked ts l b ok.1)
  | inr (inr (free, took)) ↦
      let (k, went, stuck) = serve_blocked ts (hold l) (hold-IsBlocked b) ok.1 in
      rw (took, serve) (k, went, inr (free, Stuck-hold l k stuck))
]

receiving-Stuck : (l k : Link) → Stuck l k → k.recv_result ≡ l.recv_result
unfolding hold
receiving-Stuck l k (inl same) = ap (λ x. x.recv_result) same
receiving-Stuck l k (inr (free, same)) = ap (λ x. x.recv_result) same

-- Once the sender has failed, the channel is full, and the next message is a dispatch with a run id,
-- no turns but Stop change anything any more, but that the receive loop takes a slot for that
-- dispatch: the session does not return, whatever Recv would answer after that message.
pub serve-IsBlocked :
    (ts : List Turn) (l : Link) (e : SessionError) (d : Dispatch) (rest : List SchedulerMessage)
    → IsBlocked l e d rest
    → All IsNotStop ts
    → (k : Link) × (serve ts l ≡ next k) × Stuck l k × (session_result k ≡ none)
unfolding session_result
serve-IsBlocked ts l e d rest b ok =
    let (k, went, stuck) = serve_blocked ts l b ok in
    let receiving : k.recv_result ≡ none = receiving-Stuck l k stuck ∙ b.receiving in
    (k, went, stuck, ground (arith, receiving))
