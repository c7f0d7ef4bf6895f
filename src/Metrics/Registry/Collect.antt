-- ===== src/Metrics/Registry/Collect.antt =====
-- What the cycles of pkg/metrics/registry.go report and what they leave.
use compkg.Common.{
  ℕ, String, ◌≡◌, refl, ap, sym, ◌∙◌, inl, inr, true, false, Bool-cases, Option-cases, Option, none,
  some, List, [], ◌∷◌, ◌++◌, str_eq, eq_iff, if◌then◌else◌, arith,
}
use compkg.Common.Dict.{str_eq_refl}
use compkg.Common.Float.{Float64}
use compkg.Metrics.Snapshot.{Snapshot}
use compkg.Metrics.Instruments.{RateCall, reset_counter}
use compkg.Metrics.Registry.{
  Entries, find, put, put_all, load_or_store, store_others, get_or_create, each, Registry,
  snapshot_counter, snapshot_gauge, snapshot_histogram, snapshot_rate, collect_snapshots, reset_all,
  collect_and_notify,
}

-- Each name is registered once.
abbrev pub IsDistinct {ℓ} : {A : Type ℓ} → Entries A → Type ℓ
IsDistinct [] = Unit
IsDistinct ((k, a) ∷ rest) = (find k rest ≡ none) × IsDistinct rest

-- The later kind first, and else what the earlier ones have.
abbrev pub or_else {ℓ κ} : {A : Type ℓ} {B : Type κ} → (A → B) → Option A → Option B → Option B
or_else f (some a) o = some (f a)
or_else f none o = o

same : (i k j : String) → str_eq i k ≡ true → str_eq i j ≡ str_eq k j
same i k j e = ap (λ x. str_eq x j) ((eq_iff i k).0 e)

other : (i k j : String) → str_eq i k ≡ false → str_eq i j ≡ true → str_eq k j ≡ false
other i k j e q = elim (Bool-cases (str_eq k j)) [
  | inl p ↦ cc (e, (eq_iff i k).1 ((eq_iff i j).0 q ∙ sym ((eq_iff k j).0 p)))
  | inr p ↦ p
]

module _ {ℓ} {A : Type ℓ} where
  find-append :
      (k : String) (xs ys : Entries A)
      → find k (xs ++ ys) ≡ or_else (λ a. a) (find k xs) (find k ys)
  unfolding find
  find-append k [] ys = refl
  find-append k ((j, a) ∷ xs) ys = elim (Bool-cases (str_eq j k)) [
    | inl e ↦ rw e
    | inr e ↦ rw (e, find-append k xs ys)
  ]

  find-put :
      (k j : String) (a : A) (xs : Entries A)
      → find j (put k a xs) ≡ (if str_eq k j then some a else find j xs)
  unfolding find put
  find-put k j a [] = refl
  find-put k j a ((i, b) ∷ xs) = elim (Bool-cases (str_eq i k)) [
    | inl e ↦ elim (Bool-cases (str_eq k j)) [
      | inl q ↦ rw (e, same i k j e, q)
      | inr q ↦ rw (e, same i k j e, q)
    ]
    | inr e ↦ elim (Bool-cases (str_eq i j)) [
      | inl q ↦ rw (e, q, other i k j e q)
      | inr q ↦ rw (e, q, find-put k j a xs)
    ]
  ]

  find-load_or_store :
      (fresh : String → A) (k j : String) (xs : Entries A) {b : A}
      → find j xs ≡ some b
      → find j (load_or_store fresh k xs) ≡ some b
  unfolding load_or_store
  find-load_or_store fresh k j xs h = elim (Option-cases (find k xs)) [
    | inl e ↦ rw (e, load_or_store, find-append j xs ((k, fresh k) ∷ []), h)
    | inr (c, e) ↦ rw (e, load_or_store, h)
  ]

  load_or_store-found :
      (fresh : String → A) (k : String) (xs : Entries A)
      → (a : A) × (find k (load_or_store fresh k xs) ≡ some a)
  unfolding load_or_store find
  load_or_store-found fresh k xs = elim (Option-cases (find k xs)) [
    | inl e ↦
        (fresh k, rw (e, load_or_store, find-append k xs ((k, fresh k) ∷ []), e, str_eq_refl k))
    | inr (c, e) ↦ (c, rw (e, load_or_store, e))
  ]

  find-store_others :
      (fresh : String → A) (ks : List String) (j : String) (xs : Entries A) {b : A}
      → find j xs ≡ some b
      → find j (store_others fresh ks xs) ≡ some b
  unfolding store_others
  find-store_others fresh [] j xs h = h
  find-store_others fresh (k ∷ ks) j xs h =
      find-store_others fresh ks j (load_or_store fresh k xs) (find-load_or_store fresh k j xs h)

  -- GetOrCreate leaves its name registered, and never replaces what any name has, also if other
  -- goroutines register names, this one too, between its two steps.
  get_or_create-keeps :
      (fresh : String → A) (others : List String) (k : String) (xs : Entries A)
      → ((a : A) × (find k (get_or_create fresh others k xs) ≡ some a))
        × ((j : String) (b : A)
            → find j xs ≡ some b
            → find j (get_or_create fresh others k xs) ≡ some b)
  unfolding get_or_create
  get_or_create-keeps fresh others k xs = elim (Option-cases (find k xs)) [
    | inl e ↦
        let stored = store_others fresh others xs in
        let (a, p) = load_or_store-found fresh k stored in
        (
          (a, rw (e, get_or_create, p)),
          λ j b h. rw (
            e,
            get_or_create,
            find-load_or_store fresh k j stored (find-store_others fresh others j xs h),
          ),
        )
    | inr (c, e) ↦ ((c, rw (e, get_or_create, e)), λ j b h. rw (e, get_or_create, h))
  ]

find-put_all :
    {A B : Type 0} (f : String → A → B) (k : String) (xs : Entries A) (out : Entries B)
    → IsDistinct xs
    → find k (put_all f xs out) ≡ or_else (f k) (find k xs) (find k out)
unfolding find put_all
find-put_all f k [] out d = refl
find-put_all f k ((j, a) ∷ xs) out (fresh, d) =
    find-put_all f k xs (put j (f j a) out) d ∙ (elim (Bool-cases (str_eq j k)) [
      | inl e ↦ rw (
        find-put j k (f j a) out,
        e,
        sym (ap (λ x. find x xs) ((eq_iff j k).0 e)),
        fresh,
        (eq_iff j k).0 e,
      )
      | inr e ↦ rw (find-put j k (f j a) out, e)
    ])

find-each :
    {A : Type 0} (f : A → A) (k : String) (xs : Entries A)
    → find k (each f xs) ≡ or_else f (find k xs) none
unfolding find
find-each f k [] = refl
find-each f k ((j, a) ∷ xs) = elim (Bool-cases (str_eq j k)) [
  | inl e ↦ rw e
  | inr e ↦ rw (e, find-each f k xs)
]

module _ (F : Float64) where
  -- Names are registered once in each of the four maps.
  pub record AllDistinct (r : Registry F) : Type 0 where
    pub counters : IsDistinct r.counters
    pub gauges : IsDistinct r.gauges
    pub histograms : IsDistinct r.histograms
    pub rates : IsDistinct r.rates

  notified :
      (between : String → List RateCall) (now : ℕ) (r r' : Registry F)
      (snapshots : Entries (Snapshot F.Float))
      → collect_and_notify F between now r ≡ some (r', some snapshots)
      → (r' ≡ reset_all F between r) × (snapshots ≡ collect_snapshots F between now r)
  unfolding collect_and_notify
  notified between now r r' snapshots h = ground arith

  collect-find :
      (between : String → List RateCall) (now : ℕ) (r : Registry F) (k : String)
      → AllDistinct r
      → find k (collect_snapshots F between now r)
        ≡ or_else (snapshot_rate F between r.service_name now k) (find k r.rates) (
            or_else (snapshot_histogram F r.service_name now k) (find k r.histograms) (
              or_else
                (snapshot_gauge F r.service_name now k)
                (find k r.gauges)
                (or_else (snapshot_counter F r.service_name now k) (find k r.counters) none)))
  unfolding collect_snapshots find
  collect-find between now r k d =
      let service = r.service_name in
      let counted = put_all (snapshot_counter F service now) r.counters [] in
      let gauged = put_all (snapshot_gauge F service now) r.gauges counted in
      let measured = put_all (snapshot_histogram F service now) r.histograms gauged in
      rw (
        find-put_all (snapshot_rate F between service now) k r.rates measured d.rates,
        find-put_all (snapshot_histogram F service now) k r.histograms gauged d.histograms,
        find-put_all (snapshot_gauge F service now) k r.gauges counted d.gauges,
        find-put_all (snapshot_counter F service now) k r.counters [] d.counters,
      )

  -- When a cycle calls its callback, what it reports under a name is the ratio of that name, or else
  -- the histogram, or else the gauge, or else the counter; and the counter of that name is reset,
  -- also if its count is not what is reported.
  pub collect_and_notify-find :
      (between : String → List RateCall) (now : ℕ) (r r' : Registry F)
      (snapshots : Entries (Snapshot F.Float)) (k : String)
      → AllDistinct r
      → collect_and_notify F between now r ≡ some (r', some snapshots)
      → (find k snapshots
          ≡ or_else (snapshot_rate F between r.service_name now k) (find k r.rates) (
              or_else (snapshot_histogram F r.service_name now k) (find k r.histograms) (
                or_else
                  (snapshot_gauge F r.service_name now k)
                  (find k r.gauges)
                  (or_else (snapshot_counter F r.service_name now k) (find k r.counters) none))))
        × (find k r'.counters ≡ or_else (λ c. (reset_counter c).0) (find k r.counters) none)
  unfolding reset_all
  collect_and_notify-find between now r r' snapshots k d h =
      let (left, reported) = notified between now r r' snapshots h in
      (
        ap (find k) reported ∙ collect-find between now r k d,
        ap (λ x. find k x.counters) left ∙ find-each (λ c. (reset_counter c).0) k r.counters,
      )
