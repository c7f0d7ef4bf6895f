-- ===== src/RedisLock/Scripts.antt =====
-- What the two scripts of pkg/redis_lock/redis_lock.go do to the key, and the locks that callers count
-- as their own.
use compkg.Common.{
  ℕ, ◌+◌, ◌<◌, ◌≤◌, String, ◌≡◌, refl, ap, ◌∙◌, ◌⊎◌, inl, inr, Bool, true, false, Bool-cases,
  Option-cases, Option, none, some, ltb, str_eq, eq_iff, arith, if◌then◌else◌,
}
use compkg.Common.Int.{ℤ}
use compkg.RedisLock.{Redis, lock_script, del_script}

-- The value of a key at a time, if it has one that did not expire.
abbrev pub live : ℕ → Option (String × ℕ) → Option String
live now none = none
live now (some (v, expiry)) = if ltb now expiry then some v else none

-- What the documentation of Redis promises of one key: its value with the time at which it expires.
pub record RedisLaws (redis : Redis) (key : String) : Type 0 where
  pub entry : redis.World → Option (String × ℕ)
  pub now : redis.World → ℕ
  pub get-live : (w : redis.World) → redis.get key w ≡ live (now w) (entry w)
  pub entry-set :
      (v : String) (ms : ℕ) (w : redis.World)
      → entry (redis.set_px key v ms w) ≡ some (v, now w + ms)
  pub now-set : (v : String) (ms : ℕ) (w : redis.World) → now (redis.set_px key v ms w) ≡ now w
  pub now-nx : (v : String) (ms : ℕ) (w : redis.World) → now (redis.set_nx_px key v ms w).0 ≡ now w
  pub nx_free :
      (v : String) (ms : ℕ) (w : redis.World)
      → redis.get key w ≡ none
      → ((redis.set_nx_px key v ms w).1 ≡ true)
        × (entry (redis.set_nx_px key v ms w).0 ≡ some (v, now w + ms))
  pub nx_taken :
      (v u : String) (ms : ℕ) (w : redis.World)
      → redis.get key w ≡ some u
      → ((redis.set_nx_px key v ms w).1 ≡ false) × (entry (redis.set_nx_px key v ms w).0 ≡ entry w)
  pub entry-del : (w : redis.World) → entry (redis.del key w).0 ≡ none
  pub now-del : (w : redis.World) → now (redis.del key w).0 ≡ now w
  pub entry-deliver : (w : redis.World) → entry (redis.deliver w).0 ≡ entry w
  pub now-deliver : (w : redis.World) → now w ≤ now (redis.deliver w).0
  pub entry-sleep : (d : ℤ) (w : redis.World) → entry (redis.sleep d w) ≡ entry w
  pub now-sleep : (d : ℤ) (w : redis.World) → now w ≤ now (redis.sleep d w)

-- The locks that callers count as their own: up to which time, for each identifier.
abbrev pub Leases : Type 0
Leases = String → Option ℕ

abbrev pub lease_at : String → ℕ → Leases → Leases
lease_at id e leases j = if str_eq id j then some e else leases j

abbrev pub release_at : String → Leases → Leases
release_at id leases j = if str_eq id j then none else leases j

pub live_some :
    (now e : ℕ) (v : String) (o : Option (String × ℕ))
    → o ≡ some (v, e)
    → now < e
    → live now o ≡ some v
live_some now e v o h k = rw h (ground arith)

module _ (redis : Redis) (key : String) (laws : RedisLaws redis key) where
  open redis use {World, get, set_px, set_nx_px, del, deliver}
  open laws use {entry, now}

  -- What the lock script does: it sets the key, or is refused while another value lives.
  pub data LockRuns (id : String) (ms : ℕ) (w : World) (r : World × Bool) : Type 0 where
    sets :
        r.1 ≡ true
        → (get key w ≡ none) ⊎ (get key w ≡ some id)
        → entry r.0 ≡ some (id, now w + ms)
        → now r.0 ≡ now w
        → LockRuns id ms w r
    refused : r.1 ≡ false → entry r.0 ≡ entry w → now r.0 ≡ now w → LockRuns id ms w r

  pub lock_script-LockRuns :
      (id : String) (ms : ℕ) (w : World) → LockRuns id ms w (lock_script redis key id ms w)
  unfolding lock_script
  lock_script-LockRuns id ms w = elim (Option-cases (get key w)) [
    | inl free ↦
        let (ok, set) = laws.nx_free id ms w free in
        rw (free, lock_script) (sets ok (inl free) set (laws.now-nx id ms w))
    | inr (v, held) ↦ elim (Bool-cases (str_eq v id)) [
      | inl own ↦
          rw (held, lock_script, own)
            (sets refl (inr (held ∙ ap some ((eq_iff v id).0 own))) (laws.entry-set id ms w)
              (laws.now-set id ms w))
      | inr other ↦
          let (busy, same) = laws.nx_taken id v ms w held in
          rw (held, lock_script, other) (refused busy same (laws.now-nx id ms w))
    ]
  ]

  -- What the deletion script does: it deletes the key of its own value, or nothing.
  pub data DelRuns (id : String) (w : World) (r : World × ℕ) : Type 0 where
    deletes : get key w ≡ some id → entry r.0 ≡ none → now r.0 ≡ now w → DelRuns id w r
    leaves : r.0 ≡ w → DelRuns id w r

  pub del_script-DelRuns : (id : String) (w : World) → DelRuns id w (del_script redis key id w)
  unfolding del_script
  del_script-DelRuns id w = elim (Option-cases (get key w)) [
    | inl free ↦ rw (free, del_script) (leaves refl)
    | inr (v, held) ↦ elim (Bool-cases (str_eq v id)) [
      | inl own ↦
          rw (held, del_script, own)
            (deletes (held ∙ ap some ((eq_iff v id).0 own)) (laws.entry-del w) (laws.now-del w))
      | inr other ↦ rw (held, del_script, other) (leaves refl)
    ]
  ]

  abbrev pub Leased : World → Leases → String → Type 0
  Leased w leases id = (e : ℕ) × ((leases id ≡ some e) × (now w < e))

  -- Who counts a lock as its own has the key for at least as long; no lease is longer than that of a
  -- lock taken now.
  pub record Agrees (ms : String → ℕ) (w : World) (leases : Leases) : Type 0 where
    pub kept :
        (id : String) (e : ℕ)
        → leases id ≡ some e
        → now w < e
        → (expiry : ℕ) × ((entry w ≡ some (id, expiry)) × (e ≤ expiry))
    pub bound : (id : String) (e : ℕ) → leases id ≡ some e → e ≤ now w + ms id

  pub Agrees-once :
      (ms : String → ℕ) (w : World) (leases : Leases) (a b : String)
      → Agrees ms w leases
      → Leased w leases a
      → Leased w leases b
      → a ≡ b
  Agrees-once ms w leases a b h (e, (la, ka)) (f, (lb, kb)) =
      let (x, p) = h.kept a e la ka in
      let (y, q) = h.kept b f lb kb in let (p0, p1) = p in let (q0, q1) = q in cc (p0, q0)
