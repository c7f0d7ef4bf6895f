-- ===== src/ReleaseCheck.antt =====
-- The verdict on a release: cmd/release_check/report.go, with ServiceTarget of
-- cmd/release_check/config.go and InstanceMeta of pkg/health/health.go. What the reader of the heartbeats
-- returns is an argument. A time is its nanoseconds since 1970, or none for the zero time; the texts
-- of a summary are kept as what they are made of.
pub mod Verdict
use compkg.Common.{
  ℕ, suc, ◌-◌, ◌*◌, ◌+◌, String, Bool, true, false, not, ◌&&◌, ◌||◌, ◌⊎◌, inl, inr, Option, none,
  some, List, [], ◌∷◌, ◌++◌, map, str_eq, if◌then◌else◌,
}
use compkg.Common.Int.{ℤ, pos, negsuc, ltb_ℤ, eq_ℤ}
use compkg.Common.Dict.{Dict}

pub record InstanceMeta : Type 0 where
  pub instance_id : String
  pub alive : Bool
  pub meta : Dict String

pub record ServiceTarget : Type 0 where
  pub name : String
  pub display : String
  pub high_risk : Bool
  pub expect_commit : String
  pub min_instances : ℤ

abbrev pub Time : Type 0
Time = Option ℤ

-- `m[k]`, empty for a missing key.
abbrev pub meta_of : String → InstanceMeta → String
meta_of k i = elim (i.meta k) [ none ↦ "" | some v ↦ v ]

abbrev pub is_zero_time : Time → Bool
is_zero_time none = true
is_zero_time (some t) = false

abbrev pub is_after : Time → Time → Bool
is_after (some a) (some b) = ltb_ℤ b a
is_after _ _ = false

pub data Problem : Type 0 where
  commit_differs not_restarted : Problem

-- The problems that the code joins by "+"; none of them is "正常".
pub data Reason : Type 0 where
  offline : Reason
  found : List Problem → Reason

pub data Summary : Type 0 where
  unreadable : Summary
  too_few : ℕ → ℤ → Summary
  other_commit : String → String → String → Summary
  old_start : String → Time → Summary
  all_updated : ℕ → String → Summary

pub record InstanceResult : Type 0 where
  pub instance_id : String
  pub alive : Bool
  pub commit : String
  pub build_id : String
  pub start_time : Time
  pub pid : String
  pub host : String
  pub commit_match : Bool
  pub restarted_new : Bool
  pub reason : Reason

pub record ServiceResult : Type 0 where
  pub target : ServiceTarget
  pub expect_commit : String
  pub instances : List InstanceResult
  pub alive_count : ℕ
  pub pass : Bool
  pub summary : Summary

abbrev problem_if : Bool → Problem → List Problem
problem_if true p = p ∷ []
problem_if false p = []

unfoldable pub build_reason : Bool → Bool → Bool → Reason
build_reason alive commit_match restarted_new =
    if not alive
    then offline
    else found (
        problem_if (not commit_match) commit_differs
        ++ problem_if (not restarted_new) not_restarted)

-- time.Unix, whose zero time is the first second of the year 1.
unfoldable pub unix : ℤ → Time
unix (pos n) = some (pos (n * 1000000000))
unix (negsuc n) =
    if eq_ℤ (negsuc n) (negsuc 62135596799) then none else some (negsuc ((n + 1) * 1000000000 - 1))

-- `parse_int` is strconv.ParseInt.
module _ (parse_int : String → Option ℤ) where
  unfoldable pub parse_start_time : String → Time
  parse_start_time s =
      if str_eq s "" then none else (elim (parse_int s) [ none ↦ none | some sec ↦ unix sec ])

  abbrev pub matches : String → InstanceMeta → Bool
  matches expect i = str_eq expect "" || str_eq (meta_of "commit" i) expect

  abbrev pub restarted : Time → InstanceMeta → Bool
  restarted since i =
      let start = parse_start_time (meta_of "startTime" i) in
      is_zero_time since || (not (is_zero_time start) && is_after start since)

  unfoldable pub check_instance : String → Time → InstanceMeta → InstanceResult
  check_instance expect since i = record {
    instance_id = i.instance_id;
    alive = i.alive;
    commit = meta_of "commit" i;
    build_id = meta_of "buildID" i;
    start_time = parse_start_time (meta_of "startTime" i);
    pid = meta_of "pid" i;
    host = meta_of "host" i;
    commit_match = matches expect i;
    restarted_new = restarted since i;
    reason = build_reason i.alive (matches expect i) (restarted since i);
  }

  abbrev pub count_alive : List InstanceMeta → ℕ
  count_alive [] = 0
  count_alive (i ∷ is) = let rest = count_alive is in if i.alive then suc rest else rest

  -- The loop of `judgeService`: the first living instance with a problem.
  unfoldable pub first_problem : String → List InstanceResult → Option Summary
  first_problem expect [] = none
  first_problem expect (r ∷ rs) =
      let rest = first_problem expect rs in
      if not r.alive
      then rest
      else if not r.commit_match
      then some (other_commit r.instance_id r.commit expect)
      else if not r.restarted_new
      then some (old_start r.instance_id r.start_time)
      else rest

  unfoldable pub judge_service : String → List InstanceResult → ℕ → ServiceTarget → Bool × Summary
  judge_service expect rs alive target =
      if ltb_ℤ (pos alive) target.min_instances
      then (false, too_few alive target.min_instances)
      else (elim (first_problem expect rs) [
        | some s ↦ (false, s)
        | none ↦ (true, all_updated alive expect)
      ])

  -- `none` stands for an error of the reader.
  unfoldable pub check_service :
      Option (List InstanceMeta) → ServiceTarget → String → Time → ServiceResult
  check_service none target expect since = record {
    target = target;
    expect_commit = expect;
    instances = [];
    alive_count = 0;
    pass = false;
    summary = unreadable;
  }
  check_service (some is) target expect since =
      let rs = map (check_instance expect since) is in
      let alive = count_alive is in
      let (pass, summary) = judge_service expect rs alive target in
      record {
        target = target;
        expect_commit = expect;
        instances = rs;
        alive_count = alive;
        pass = pass;
        summary = summary;
      }
