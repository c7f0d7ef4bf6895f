-- ===== src/RedisLock/Leases.antt =====
-- How the locks that callers of pkg/redis_lock/redis_lock.go count as their own follow the key.
use compkg.Common.{
  ℕ, ◌+◌, ◌<◌, ◌≤◌, String, ◌≡◌, sym, ap, ◌∙◌, ◌⊎◌, inl, inr, Bool-cases, none, some, str_eq,
  eq_iff, arith,
}
use mathlib.Core.Path.{subst}
use compkg.RedisLock.{Redis}
use compkg.RedisLock.Scripts.{RedisLaws, live_some, Leases, Agrees, lease_at, release_at}

module _ (redis : Redis) (key : String) (laws : RedisLaws redis key) (ms : String → ℕ) where
  open redis use {World, get}
  open laws use {entry, now}

  pub Agrees-later :
      (w w' : World) (leases : Leases)
      → entry w' ≡ entry w
      → now w ≤ now w'
      → Agrees redis key laws ms w leases
      → Agrees redis key laws ms w' leases
  Agrees-later w w' leases same later h = record {
    kept = λ id e l k. let (x, p) = h.kept id e l (omega arith) in (x, (same ∙ p.0, p.1));
    bound = λ id e l. let b = h.bound id e l in omega arith;
  }

  -- A lease that runs is of the value that lives.
  pub Agrees-get :
      (w : World) (leases : Leases) (id : String) (e : ℕ)
      → Agrees redis key laws ms w leases
      → leases id ≡ some e
      → now w < e
      → get key w ≡ some id
  Agrees-get w leases id e h l k =
      let (x, p) = h.kept id e l k in
      laws.get-live w ∙ live_some (now w) x id (entry w) p.0 (let q = p.1 in omega arith)

  pub Agrees-sets :
      (w w' : World) (leases : Leases) (id : String)
      → (get key w ≡ none) ⊎ (get key w ≡ some id)
      → entry w' ≡ some (id, now w + ms id)
      → now w' ≡ now w
      → Agrees redis key laws ms w leases
      → Agrees redis key laws ms w' leases
  Agrees-sets w w' leases id who set same h = record {
    kept = λ j e l k.
        let mine = Agrees-get w leases j e h l (omega arith) in
        let b = h.bound j e l in
        elim who [
          | inl free ↦ cc (free, mine)
          | inr own ↦
              let e0 : j ≡ id = cc (own, mine) in
              let b' : e ≤ now w + ms id = subst (λ i. e ≤ now w + ms i) e0 b in
              (now w + ms id, (set ∙ ap (λ i. some (i, now w + ms id)) (sym e0), b'))
        ];
    bound = λ j e l. let b = h.bound j e l in omega arith;
  }

  pub Agrees-lease :
      (w : World) (leases : Leases) (id : String)
      → entry w ≡ some (id, now w + ms id)
      → Agrees redis key laws ms w leases
      → Agrees redis key laws ms w (lease_at id (now w + ms id) leases)
  Agrees-lease w leases id set h = record {
    kept = λ j e l k. elim (Bool-cases (str_eq id j)) [
      | inl own ↦
          let e0 : id ≡ j = (eq_iff id j).0 own in
          let e1 : now w + ms id ≡ e = cc (rw own at l) in
          (now w + ms id, (set ∙ ap (λ i. some (i, now w + ms id)) e0, omega arith))
      | inr other ↦ h.kept j e (rw other at l) k
    ];
    bound = λ j e l. elim (Bool-cases (str_eq id j)) [
      | inl own ↦
          let e0 : id ≡ j = (eq_iff id j).0 own in
          let e1 : now w + ms id ≡ e = cc (rw own at l) in
          subst (λ i. e ≤ now w + ms i) e0 (omega arith)
      | inr other ↦ h.bound j e (rw other at l)
    ];
  }

  pub Agrees-release :
      (w : World) (leases : Leases) (id : String)
      → Agrees redis key laws ms w leases
      → Agrees redis key laws ms w (release_at id leases)
  Agrees-release w leases id h = record {
    kept = λ j e l k. elim (Bool-cases (str_eq id j)) [
      | inl own ↦ cc (rw own at l)
      | inr other ↦ h.kept j e (rw other at l) k
    ];
    bound = λ j e l. elim (Bool-cases (str_eq id j)) [
      | inl own ↦ cc (rw own at l)
      | inr other ↦ h.bound j e (rw other at l)
    ];
  }

  pub Agrees-deletes :
      (w w' : World) (leases : Leases) (id : String)
      → get key w ≡ some id
      → now w' ≡ now w
      → Agrees redis key laws ms w leases
      → Agrees redis key laws ms w' (release_at id leases)
  Agrees-deletes w w' leases id own same h = record {
    kept = λ j e l k. elim (Bool-cases (str_eq id j)) [
      | inl it ↦ cc (rw it at l)
      | inr other ↦
          let mine = Agrees-get w leases j e h (rw other at l) (omega arith) in
          let e0 : id ≡ j = cc (own, mine) in cc ((eq_iff id j).1 e0, other)
    ];
    bound = λ j e l. elim (Bool-cases (str_eq id j)) [
      | inl it ↦ cc (rw it at l)
      | inr other ↦ let b = h.bound j e (rw other at l) in omega arith
    ];
  }
