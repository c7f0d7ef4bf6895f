-- ===== src/Tests/ReleaseRuns.antt =====
-- Runs of the check of a release (cmd/release_check).
use compkg.Common.{
  ◌≡◌, ◌↔◌, String, Bool, true, false, Option, some, none, List, [], ◌∷◌, All, str_eq,
  if◌then◌else◌,
}
use compkg.Common.Int.{ℤ, pos, ◌≤ℤ◌}
use compkg.ReleaseCheck.{InstanceMeta, ServiceTarget, Time, count_alive, check_service}
use compkg.ReleaseCheck.Verdict.{LivingUpdated, check_service-pass}

-- It reads two numbers.
abbrev parse_two : String → Option ℤ
parse_two s =
    if str_eq s "1700000100"
    then some (pos 1700000100)
    else if str_eq s "1600000000"
    then some (pos 1600000000)
    else none

abbrev instance_of : String → Bool → String → String → InstanceMeta
instance_of name alive commit start = record {
  instance_id = name;
  alive = alive;
  meta = λ k.
      if str_eq k "commit" then some commit else if str_eq k "startTime" then some start else none;
}

abbrev fleet : List InstanceMeta
fleet = instance_of "a" true "abc" "1700000100" ∷ instance_of "b" false "old" "1600000000" ∷ []

abbrev service : ServiceTarget
service = record {
  name = "svc";
  display = "svc";
  high_risk = true;
  expect_commit = "auto";
  min_instances = pos 1;
}

abbrev since : Time
since = some (pos 1700000000000000000)

check_service-pass_example :
    ((check_service parse_two (some fleet) service "abc" since).pass ≡ true) ↔ (
      (service.min_instances ≤ℤ pos (count_alive parse_two fleet))
      × All (LivingUpdated parse_two "abc" since) fleet)
check_service-pass_example = check_service-pass parse_two fleet service "abc" since
