-- ===== src/RedisLock/Exclusion.antt =====
-- Mutual exclusion of the lock of pkg/redis_lock/redis_lock.go, over runs of Lock, UnLock and waiting.
use compkg.Common.{
  ℕ, ◌+◌, String, ◌≡◌, ◌≢◌, refl, sym, ◌⊎◌, inl, inr, Bool, true, false, Bool-cases, none, some,
  List, [], ◌∷◌, arith, if◌then◌else◌,
}
use mathlib.Core.Path.{subst}
use compkg.Common.Int.{ℤ}
use compkg.RedisLock.{
  Redis, Delivery, Options, RedisLock, Reply, lock_millis, lock_script, del_script, eval, lock,
  unlock, is_yes, lock_reply,
}
use compkg.RedisLock.Scripts.{
  RedisLaws, sets, refused, lock_script-LockRuns, deletes, leaves, del_script-DelRuns, Leases,
  Leased, Agrees, Agrees-once, lease_at, release_at,
}
use compkg.RedisLock.Leases.{
  Agrees-later, Agrees-sets, Agrees-lease, Agrees-release, Agrees-deletes,
}

pub Delivery-cases :
    (d : Delivery)
    → (d ≡ Delivery.answered) ⊎ ((d ≡ Delivery.request_lost) ⊎ (d ≡ Delivery.reply_lost))
Delivery-cases Delivery.answered = inl refl
Delivery-cases Delivery.request_lost = inr (inl refl)
Delivery-cases Delivery.reply_lost = inr (inr refl)

-- Callers are told apart by their identifiers.
pub data Event : Type 0 where
  locking unlocking : String → Event
  waiting : ℤ → Event

module _ (redis : Redis) (key : String) (laws : RedisLaws redis key) (opts : String → Options) where
  open redis use {World, get, deliver, sleep}
  open laws use {entry, now}

  abbrev pub lock_of : String → RedisLock
  lock_of id = record { key = key; id = id; opts = opts id }

  abbrev pub millis_of : String → ℕ
  millis_of id = lock_millis (lock_of id)

  -- A caller counts a lock as its own from a Lock that returned true, for the time of the lock by
  -- the clock of Redis or up to its UnLock.
  unfoldable pub step : Event → World × Leases → World × Leases
  step (locking id) (w, leases) =
      let (w', reply) = lock redis (lock_of id) w in
      (w', if is_yes redis reply then lease_at id (now w' + millis_of id) leases else leases)
  step (unlocking id) (w, leases) = ((unlock redis (lock_of id) w).0, release_at id leases)
  step (waiting d) (w, leases) = (sleep d w, leases)

  unfoldable pub run : List Event → World × Leases → World × Leases
  run [] s = s
  run (x ∷ events) s = run events (step x s)

  abbrev Fits : World × Leases → Type 0
  Fits s = Agrees redis key laws millis_of s.0 s.1

  -- Whatever becomes of the call, the key follows; a Lock that returned true has set it.
  pub record Locked (id : String) (leases : Leases) (r : World × Reply) : Type 0 where
    pub fits : Fits (r.0, leases)
    pub took : is_yes redis r.1 ≡ true → entry r.0 ≡ some (id, now r.0 + millis_of id)

  reply_took : (b : Bool) → is_yes redis (lock_reply redis (some b)) ≡ true → b ≡ true
  reply_took true h = refl
  reply_took false h = elim (Bool-cases redis.nil_is_error) [
    | inl e ↦ cc (rw e at h)
    | inr e ↦ cc (rw e at h)
  ]

  pub lock-Locked :
      (id : String) (w : World) (leases : Leases)
      → Fits (w, leases)
      → Locked id leases (lock redis (lock_of id) w)
  unfolding lock eval
  lock-Locked id w leases h =
      let ms = millis_of id in
      let w1 = (deliver w).0 in
      let h1 =
        Agrees-later redis key laws millis_of w w1 leases (laws.entry-deliver w)
          (laws.now-deliver w) h in
      let r = lock_script redis key id ms w1 in
      let ran : Locked id leases (r.0, lock_reply redis (some r.1)) =
        elim (lock_script-LockRuns redis key laws id ms w1) [
          | sets ok who set same ↦ record {
            fits = Agrees-sets redis key laws millis_of w1 r.0 leases id who set same h1;
            took = λ y. rw same set;
          }
          | refused busy same_entry same ↦ record {
            fits =
                Agrees-later redis key laws millis_of w1 r.0 leases same_entry (omega (arith, same))
                  h1;
            took = λ y. cc (reply_took r.1 y, busy);
          }
        ] in
      elim (Delivery-cases (deliver w).1) [
        | inl answered ↦ rw (answered, lock, eval) ran
        | inr (inl lost) ↦ rw (lost, lock, eval) (record { fits = h1; took = λ y. cc y })
        | inr (inr lost) ↦ rw (lost, lock, eval) (record { fits = ran.fits; took = λ y. cc y })
      ]

  unlock-Fits :
      (id : String) (w : World) (leases : Leases)
      → Fits (w, leases)
      → Fits ((unlock redis (lock_of id) w).0, release_at id leases)
  unfolding unlock eval
  unlock-Fits id w leases h =
      let w1 = (deliver w).0 in
      let h1 =
        Agrees-later redis key laws millis_of w w1 leases (laws.entry-deliver w)
          (laws.now-deliver w) h in
      let r = del_script redis key id w1 in
      let released = Agrees-release redis key laws millis_of w1 leases id h1 in
      let ran : Fits (r.0, release_at id leases) = elim (del_script-DelRuns redis key laws id w1) [
        | deletes own gone same ↦
            Agrees-deletes redis key laws millis_of w1 r.0 leases id own same h1
        | leaves same ↦ subst (λ x. Fits (x, release_at id leases)) (sym same) released
      ] in
      elim (Delivery-cases (deliver w).1) [
        | inl answered ↦ rw (answered, unlock, eval) ran
        | inr (inl lost) ↦ rw (lost, unlock, eval) released
        | inr (inr lost) ↦ rw (lost, unlock, eval) ran
      ]

  step-Fits : (x : Event) (s : World × Leases) → Fits s → Fits (step x s)
  unfolding step
  step-Fits (locking id) (w, leases) h =
      let l = lock-Locked id w leases h in
      let w' = (lock redis (lock_of id) w).0 in
      elim (Bool-cases (is_yes redis (lock redis (lock_of id) w).1)) [
        | inl took ↦
            rw took (Agrees-lease redis key laws millis_of w' leases id (l.took took) l.fits)
        | inr not_taken ↦ rw not_taken l.fits
      ]
  step-Fits (unlocking id) (w, leases) h = unlock-Fits id w leases h
  step-Fits (waiting d) (w, leases) h =
      Agrees-later redis key laws millis_of w (sleep d w) leases (laws.entry-sleep d w)
        (laws.now-sleep d w) h

  run-Fits : (events : List Event) (s : World × Leases) → Fits s → Fits (run events s)
  unfolding run
  run-Fits [] s h = h
  run-Fits (x ∷ events) s h = run-Fits events (step x s) (step-Fits x s h)

  -- If Redis keeps the documented laws of the key, then in every run of Lock, UnLock and waiting by
  -- callers that are told apart by their identifiers, from any state of Redis with no lock counted,
  -- with requests and replies lost anywhere, no two callers count the lock as their own: from a Lock
  -- that returned true, for the time of the lock or up to the UnLock.
  pub run-exclusive :
      (events : List Event) (w : World) (a b : String)
      → a ≢ b
      → ¬ (
          Leased redis key laws (run events (w, λ id. none)).0 (run events (w, λ id. none)).1 a
          × Leased redis key laws (run events (w, λ id. none)).0 (run events (w, λ id. none)).1 b)
  run-exclusive events w a b apart (la, lb) =
      let start : World × Leases = (w, λ id. none) in
      apart (
        Agrees-once redis key laws millis_of (run events start).0 (run events start).1 a b
          (run-Fits events start (record { kept = λ id e l k. cc l; bound = λ id e l. cc l })) la
          lb)
