-- ===== src/ReleaseCheck/Verdict.antt =====
-- When a release passes the check of cmd/release_check/report.go.
use compkg.Common.{
  ℕ, ◌↔◌, ◌≡◌, refl, sym, ◌⊎◌, inl, inr, Bool, true, false, Bool-cases, not, ◌&&◌, ◌||◌, String,
  Option, none, some, List, [], ◌∷◌, map, All, str_eq, eq_iff, if◌then◌else◌, arith,
}
use mathlib.Core.Path.{subst}
use compkg.Common.Int.{ℤ, pos, ltb_ℤ, ◌≤ℤ◌, ◌<ℤ◌}
use compkg.ReleaseCheck.{
  InstanceMeta, ServiceTarget, Time, meta_of, is_zero_time, is_after, InstanceResult,
  parse_start_time, matches, restarted, check_instance, count_alive, first_problem, judge_service,
  check_service,
}

or_false : {a b : Bool} → a ≡ false → b ≡ false → (a || b) ≡ false
or_false e k = rw (e, k)

or_left : {a : Bool} (b : Bool) → a ≡ true → (a || b) ≡ true
or_left b e = rw e

or_right : (a : Bool) {b : Bool} → b ≡ true → (a || b) ≡ true
or_right true e = refl
or_right false e = e

ltb_complete : (a b : ℤ) → a <ℤ b → ltb_ℤ a b ≡ true
ltb_complete a b h = ground arith

started_sound :
    (t : ℤ) (u : Time)
    → (not (is_zero_time u) && is_after u (some t)) ≡ true
    → (s : ℤ) × ((u ≡ some s) × (t <ℤ s))
started_sound t none h = cc h
started_sound t (some s) h = (s, (refl, ground arith))

-- One turn of the loop that looks for a problem.
turn : {A : Type 0} → Bool → Bool → Bool → A → A → Option A → Option A
turn alive matching recent x y rest =
    if not alive then rest else if not matching then some x else if not recent then some y else rest

turn_sound :
    {A : Type 0} (alive matching recent : Bool) (x y : A) (rest : Option A)
    → turn alive matching recent x y rest ≡ none
    → (rest ≡ none) × (alive ≡ true → (matching ≡ true) × (recent ≡ true))
unfolding turn
turn_sound false m r x y rest h = (h, λ e. cc e)
turn_sound true true true x y rest h = (h, λ e. (refl, refl))
turn_sound true true false x y rest h = cc h
turn_sound true false r x y rest h = cc h

turn_complete :
    {A : Type 0} (alive matching recent : Bool) (x y : A) (rest : Option A)
    → rest ≡ none
    → (alive ≡ true → (matching ≡ true) × (recent ≡ true))
    → turn alive matching recent x y rest ≡ none
unfolding turn
turn_complete false m r x y rest h k = h
turn_complete true m r x y rest h k = let (e, f) = k refl in rw (e, f, h)

module _ (parse_int : String → Option ℤ) where
  -- The instance started after the release, if the time of the release is given.
  abbrev pub StartedAfter : Time → InstanceMeta → Type 0
  StartedAfter none i = Unit
  StartedAfter (some t) i =
      (s : ℤ) × ((parse_start_time parse_int (meta_of "startTime" i) ≡ some s) × (t <ℤ s))

  -- The instance runs the expected commit, if one is given, since the release.
  abbrev pub IsUpdated : String → Time → InstanceMeta → Type 0
  IsUpdated expect since i = ((expect ≡ "") ⊎ (meta_of "commit" i ≡ expect)) × StartedAfter since i

  abbrev pub LivingUpdated : String → Time → InstanceMeta → Type 0
  LivingUpdated expect since i = i.alive ≡ true → IsUpdated expect since i

  matches_sound :
      (expect : String) (i : InstanceMeta)
      → matches parse_int expect i ≡ true
      → (expect ≡ "") ⊎ (meta_of "commit" i ≡ expect)
  matches_sound expect i h = elim (Bool-cases (str_eq expect "")) [
    | inl e ↦ inl ((eq_iff expect "").0 e)
    | inr e ↦ elim (Bool-cases (str_eq (meta_of "commit" i) expect)) [
      | inl k ↦ inr ((eq_iff (meta_of "commit" i) expect).0 k)
      | inr k ↦ cc (or_false e k, h)
    ]
  ]

  matches_complete :
      (expect : String) (i : InstanceMeta)
      → (expect ≡ "") ⊎ (meta_of "commit" i ≡ expect)
      → matches parse_int expect i ≡ true
  matches_complete expect i (inl e) =
      or_left (str_eq (meta_of "commit" i) expect) ((eq_iff expect "").1 e)
  matches_complete expect i (inr e) =
      or_right (str_eq expect "") ((eq_iff (meta_of "commit" i) expect).1 e)

  restarted_sound :
      (since : Time) (i : InstanceMeta) → restarted parse_int since i ≡ true → StartedAfter since i
  restarted_sound none i h = tt
  restarted_sound (some t) i h =
      started_sound t (parse_start_time parse_int (meta_of "startTime" i)) h

  restarted_complete :
      (since : Time) (i : InstanceMeta) → StartedAfter since i → restarted parse_int since i ≡ true
  restarted_complete none i h = refl
  restarted_complete (some t) i (s, (e, l)) =
      subst (λ u. (not (is_zero_time u) && is_after u (some t)) ≡ true) (sym e) (ltb_complete t s l)

  first_problem_sound :
      (expect : String) (since : Time) (is : List InstanceMeta)
      → first_problem parse_int expect (map (check_instance parse_int expect since) is) ≡ none
      → All (LivingUpdated expect since) is
  unfolding first_problem check_instance turn
  first_problem_sound expect since [] h = tt
  first_problem_sound expect since (i ∷ is) h =
      let rest = first_problem parse_int expect (map (check_instance parse_int expect since) is) in
      let (clear, fine) =
        turn_sound i.alive (matches parse_int expect i) (restarted parse_int since i) _ _ rest h in
      (
        λ alive. (matches_sound expect i (fine alive).0, restarted_sound since i (fine alive).1),
        first_problem_sound expect since is clear,
      )

  first_problem_complete :
      (expect : String) (since : Time) (is : List InstanceMeta)
      → All (LivingUpdated expect since) is
      → first_problem parse_int expect (map (check_instance parse_int expect since) is) ≡ none
  unfolding first_problem check_instance turn
  first_problem_complete expect since [] h = refl
  first_problem_complete expect since (i ∷ is) (u, h) =
      let rest = first_problem parse_int expect (map (check_instance parse_int expect since) is) in
      turn_complete i.alive (matches parse_int expect i) (restarted parse_int since i) _ _ rest
        (first_problem_complete expect since is h)
        (λ alive. (matches_complete expect i (u alive).0, restarted_complete since i (u alive).1))

  judge_sound :
      (expect : String) (rs : List InstanceResult) (alive : ℕ) (target : ServiceTarget)
      → (judge_service parse_int expect rs alive target).0 ≡ true
      → (target.min_instances ≤ℤ pos alive) × (first_problem parse_int expect rs ≡ none)
  unfolding judge_service
  judge_sound expect rs alive target h = ground arith

  judge_complete :
      (expect : String) (rs : List InstanceResult) (alive : ℕ) (target : ServiceTarget)
      → target.min_instances ≤ℤ pos alive
      → first_problem parse_int expect rs ≡ none
      → (judge_service parse_int expect rs alive target).0 ≡ true
  unfolding judge_service
  judge_complete expect rs alive target h k = ground arith

  -- A service passes exactly when as many instances live as it asks for, and every living instance
  -- runs the expected commit, if one is given, and started after the release, if its time is given.
  pub check_service-pass :
      (is : List InstanceMeta) (target : ServiceTarget) (expect : String) (since : Time)
      → ((check_service parse_int (some is) target expect since).pass ≡ true) ↔ (
          (target.min_instances ≤ℤ pos (count_alive parse_int is))
          × All (LivingUpdated expect since) is)
  unfolding check_service
  check_service-pass is target expect since =
      let rs = map (check_instance parse_int expect since) is in
      let alive = count_alive parse_int is in
      (
        λ h.
            let (enough, clear) = judge_sound expect rs alive target h in
            (enough, first_problem_sound expect since is clear),
        λ (enough, updated).
            judge_complete expect rs alive target enough
              (first_problem_complete expect since is updated),
      )
