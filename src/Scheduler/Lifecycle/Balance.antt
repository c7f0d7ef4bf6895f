-- ===== src/Scheduler/Lifecycle/Balance.antt =====
-- What Start and Stop of pkg/scheduler/client.go leave running.
use compkg.Common.{
  ℕ, ◌≡◌, refl, ap, ◌∙◌, inl, inr, ◌⊎◌, true, false, Option, none, some, List, [], ◌∷◌, ◌++◌, arith,
}
use compkg.Scheduler.Lifecycle.{
  Running, without, without_handle, start_begin, start_dialed, start, stop, ClientCall, start_call,
  stop_call, call, run,
}

-- A started client has one connection and one context, which are those that Stop ends; a client that
-- is not started has none.
abbrev pub IsBalanced : Running → Type 0
IsBalanced x =
    ((x.started ≡ false) × (x.open_conns ≡ []) × (x.live ≡ []))
    ⊎ ((n : ℕ) × (x.started ≡ true)
        × (x.conn ≡ some n)
        × (x.root ≡ some n)
        × (x.open_conns ≡ n ∷ [])
        × (x.live ≡ n ∷ []))

without_only : (n : ℕ) → without n (n ∷ []) ≡ []
without_only n = ground arith

call-IsBalanced : (c : ClientCall) (x : Running) → IsBalanced x → IsBalanced (call c x)
unfolding call start start_begin start_dialed stop
call-IsBalanced (start_call true) x (inl (s, o, l)) = inr (
  x.next_id,
  ground (arith, s),
  ground (arith, s),
  ground (arith, s),
  ground (arith, s, o),
  ground (arith, s, l),
)
call-IsBalanced (start_call false) x (inl (s, o, l)) =
    inl (ground (arith, s), ground (arith, s, o), ground (arith, s, l))
call-IsBalanced (start_call d) x (inr (n, s, c, r, o, l)) = inr (
  n,
  ground (arith, s),
  ground (arith, s),
  ground (arith, s),
  ground (arith, s),
  ground (arith, s),
)
call-IsBalanced stop_call x (inl (s, o, l)) =
    inl (ground (arith, s), ground (arith, s), ground (arith, s))
call-IsBalanced stop_call x (inr (n, s, c, r, o, l)) =
    inl (ground (arith, s), rw (s, stop, c, o, without_only n), rw (s, stop, r, l, without_only n))

-- When Start and Stop are called one after the other, in any order and however often, a started
-- client has exactly one open connection and one live context, and a client that is not started has
-- none.
pub run-IsBalanced :
    (calls : List ClientCall) (x : Running) → IsBalanced x → IsBalanced (run calls x)
unfolding run
run-IsBalanced [] x b = b
run-IsBalanced (c ∷ calls) x b = run-IsBalanced calls (call c x) (call-IsBalanced c x b)

without_none : (o : Option ℕ) → without_handle o [] ≡ []
without_none none = refl
without_none (some n) = refl

only : {ms : List ℕ} {n m : ℕ} → ms ≡ [] → n ≡ m → ms ++ n ∷ [] ≡ m ∷ []
only h k = rw (h, k)

stop_begun :
    (x : Running)
    → x.started ≡ false
    → ((stop (start_begin x).0).live ≡ without_handle x.root x.live)
      × ((stop (start_begin x).0).open_conns ≡ without_handle x.conn x.open_conns)
      × ((stop (start_begin x).0).next_id ≡ x.next_id)
unfolding start_begin stop
stop_begun x h = (ground arith, ground arith, ground arith)

-- A Stop that comes while a Start dials: when the dial succeeds the client counts as not started, with
-- one live context and one open connection, and no further Stop ends them.
pub stop-dialing :
    (x : Running)
    → x.started ≡ false
    → x.live ≡ []
    → x.open_conns ≡ []
    → let leaked = start_dialed true (stop (start_begin x).0) in
      (stop leaked ≡ leaked)
      × (leaked.started ≡ false)
      × (leaked.live ≡ x.next_id ∷ [])
      × (leaked.open_conns ≡ x.next_id ∷ [])
unfolding start_begin start_dialed stop
stop-dialing x h k l =
    let (live, conns, id) = stop_begun x h in
    (
      ground arith,
      ground arith,
      only (live ∙ ap (without_handle x.root) k ∙ without_none x.root) id,
      only (conns ∙ ap (without_handle x.conn) l ∙ without_none x.conn) id,
    )
